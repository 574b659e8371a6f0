-- ===== src/System.antt =====
-- The driver of libs/ukfusefs/ukfs-fuse.c on top of the queue, the daemon and libfuse: one caller,
-- whose request the daemon serves while the caller waits, so the queue is empty when it submits.
pub mod Sound
pub mod Delivery
pub mod Answer
pub mod Reading
pub mod Listing
pub mod Entry
pub mod Kinds
pub mod Casts
pub mod Uncrashed
pub mod Callers
pub mod Attributes
use ukfs_fuse.Common.{ℕ, ◌≡◌, refl, Exec, ok, ◌>>=◌, >>=_assoc, Mem}
use ukfs_fuse.Request.{Request}
use ukfs_fuse.Queue.{
  Queue, fuse_ukfs_queue_init, fuse_ukfs_queue_push, fuse_ukfs_queue_pop, remove_first,
}
use ukfs_fuse.Daemon.{Buffer}
use ukfs_fuse.Daemon.Loop.{daemon_round, serve}
use ukfs_fuse.Libfuse.{Session}
use ukfs_fuse.Driver.{Channel}

-- `fuse_ukfs_queue_push`, and a round of the daemon. The buffer is what the daemon keeps.
unfoldable pub submit_to : Session → Request → Buffer → Mem → Exec (Request × Buffer × Mem)
unfolding fuse_ukfs_queue_push daemon_round fuse_ukfs_queue_init
submit_to se req b m = fuse_ukfs_queue_push req fuse_ukfs_queue_init >>= λ q.
    daemon_round se q b m >>= λ (q', r). ok (r.1, r.0, r.2)

abbrev pub daemon_channel : Session → Channel Buffer
daemon_channel se = record { submit = submit_to se }

-- A request that is pushed to the empty queue and popped by the daemon is served as it was pushed,
-- and no other.
pub submit_to_lem :
    (se : Session) (req : Request) (b : Buffer) (m : Mem)
    → submit_to se req b m ≡ (serve se b req m >>= λ r. ok (r.1, r.0, r.2))
unfolding submit_to fuse_ukfs_queue_push fuse_ukfs_queue_init daemon_round fuse_ukfs_queue_pop
    remove_first
submit_to_lem se req b m = >>=_assoc (serve se b req m) _ _
