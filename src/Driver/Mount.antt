-- ===== src/Driver/Mount.antt =====
-- libs/ukfusefs/ukfs-fuse.c: `fusefs_vopen`, which a mount calls.
use ukfs_fuse.Common.{
  ◌⊎◌, inl, inr, ◌+◌, ◌≡◌, refl, arith, Bool, true, false, Option, none, some, List, ◌∷◌, ℤ, neg,
  Mem, malloc, malloc-live, given, free,
}
use ukfs_fuse.Errno.{enomem}
use ukfs_fuse.Request.{Request}
use ukfs_fuse.Queue.{Queue, fuse_ukfs_queue_init}
use ukfs_fuse.Daemon.Loop.{start_thread, fuse_daemon_start}
use ukfs_fuse.Libfuse.{Session}
use ukfs_fuse.Driver.Types.{FusefsFile}
use ukfs_fuse.Driver.File.{fresh_file, alloc_file, fusefs_file_alloc}

-- `fuse_global_queue`, the sessions of the daemon threads that run on it, and the heap.
pub record Mount : Type 0 where
  pub fuse_global_queue : Queue Request
  pub daemons : List Session
  pub mem : Mem

-- A root, or the error of ERR2PTR.
pub data Opened : Type 0 where
  root : FusefsFile → Opened
  error : ℤ → Opened

-- A daemon that runs already keeps running.
abbrev daemons_with : List Session → Session → ℤ × Bool × Mem → List Session × Mem
daemons_with old se (err, true, m) = (se ∷ old, m)
daemons_with old se (err, false, m) = (old, m)

-- The result of `fuse_daemon_start` is dropped.
unfoldable pub start_daemon : Bool → Bool → Option Session → List Session → Mem → List Session × Mem
unfolding fuse_daemon_start
start_daemon has_alloc thread_made none old m = (old, m)
start_daemon has_alloc thread_made (some se) old m =
    daemons_with old se (fuse_daemon_start has_alloc thread_made m)

abbrev mounted : List Session × Mem → Mount
mounted (d, m) = record { fuse_global_queue = fuse_ukfs_queue_init; daemons = d; mem = m }

unfoldable pub with_root :
    Bool → Bool → Option Session → Mount → Option FusefsFile × Mem → Opened × Mount
unfolding start_daemon fuse_ukfs_queue_init
with_root has_alloc thread_made registered mnt (none, m) =
    (error (neg enomem), record mnt { mem = m })
with_root has_alloc thread_made registered mnt (some n, m) =
    (root n, mounted (start_daemon has_alloc thread_made registered mnt.daemons m))

-- `registered` is what `fuse_session_get_registered` returns.
unfoldable pub fusefs_vopen : Bool → Bool → Option Session → Mount → Opened × Mount
unfolding with_root fusefs_file_alloc
fusefs_vopen has_alloc thread_made registered mnt =
    with_root has_alloc thread_made registered mnt (fusefs_file_alloc 1 mnt.mem)

-- Why no daemon is started: no session, no allocator, no block for the arguments in the heap `m`, or
-- no thread.
abbrev pub CannotServe : Bool → Bool → Option Session → Mem → Type 0
CannotServe has_alloc thread_made registered m =
    (registered ≡ none) ⊎ (has_alloc ≡ false) ⊎ ((malloc m).0 ≡ false) ⊎ (thread_made ≡ false)

-- What a mount may come to, and the blocks that it keeps: the root, and the arguments of a daemon.
-- `m` is the heap when the root has been asked for.
pub data IsOpened (has_alloc thread_made : Bool) (registered : Option Session) (mnt : Mount)
    (m : Mem) : Opened × Mount → Type 0 where
  refused :
      (mnt' : Mount)
      → mnt'.fuse_global_queue ≡ mnt.fuse_global_queue
      → mnt'.daemons ≡ mnt.daemons
      → mnt'.mem.live ≡ mnt.mem.live
      → IsOpened has_alloc thread_made registered mnt m (error (neg enomem), mnt')
  served :
      (se : Session) (mnt' : Mount)
      → registered ≡ some se
      → mnt'.fuse_global_queue ≡ fuse_ukfs_queue_init
      → mnt'.daemons ≡ se ∷ mnt.daemons
      → mnt'.mem.live ≡ mnt.mem.live + 2
      → IsOpened has_alloc thread_made registered mnt m (root (fresh_file 1), mnt')
  unserved :
      (mnt' : Mount)
      → CannotServe has_alloc thread_made registered m
      → mnt'.fuse_global_queue ≡ fuse_ukfs_queue_init
      → mnt'.daemons ≡ mnt.daemons
      → mnt'.mem.live ≡ mnt.mem.live + 1
      → IsOpened has_alloc thread_made registered mnt m (root (fresh_file 1), mnt')

module _ (mnt : Mount) where
  start_thread-IsOpened :
      (thread_made : Bool) (se : Session) (m : Mem) (r : Bool × Mem)
      → (malloc m).0 ≡ r.0
      → r.1.live ≡ mnt.mem.live + 1 + given r.0
      → IsOpened true thread_made
          (some se)
          mnt
          m
          (root (fresh_file 1), mounted (daemons_with mnt.daemons se (start_thread thread_made r)))
  unfolding start_thread free
  start_thread-IsOpened thread_made se m0 (false, m) e l =
      unserved _ (inr (inr (inl e))) refl refl (omega (arith, l))
  start_thread-IsOpened true se m0 (true, m) e l = served se _ refl refl refl (omega (arith, l))
  start_thread-IsOpened false se m0 (true, m) e l =
      unserved _ (inr (inr (inr refl))) refl refl (omega (arith, l))

  start_daemon-IsOpened :
      (has_alloc thread_made : Bool) (registered : Option Session) (m : Mem)
      → m.live ≡ mnt.mem.live + 1
      → IsOpened has_alloc thread_made registered mnt m (
        root (fresh_file 1),
        mounted (start_daemon has_alloc thread_made registered mnt.daemons m),
      )
  unfolding start_daemon fuse_daemon_start
  start_daemon-IsOpened has_alloc thread_made none m l = unserved _ (inl refl) refl refl l
  start_daemon-IsOpened false thread_made (some se) m l = unserved _ (inr (inl refl)) refl refl l
  start_daemon-IsOpened true thread_made (some se) m l =
      start_thread-IsOpened thread_made se m (malloc m) refl (omega (arith, l, malloc-live m))

  with_root-IsOpened :
      (has_alloc thread_made : Bool) (registered : Option Session) (r : Bool × Mem)
      → r.1.live ≡ mnt.mem.live + given r.0
      → IsOpened has_alloc thread_made registered mnt r.1
          (with_root has_alloc thread_made registered mnt (alloc_file 1 r))
  unfolding with_root
  with_root-IsOpened has_alloc thread_made registered (false, m) l =
      refused _ refl refl (omega (arith, l))
  with_root-IsOpened has_alloc thread_made registered (true, m) l =
      start_daemon-IsOpened has_alloc thread_made registered m l

  -- A mount fails with -ENOMEM and leaves the queue, the daemons and the blocks alone; or it gives
  -- an unopened root over an empty queue: with a daemon for the registered session, whose arguments
  -- are one more block; or, where there is no session, no allocator, no block for the arguments or
  -- no thread, without a new daemon and with no other block kept.
  pub fusefs_vopen-IsOpened :
      (has_alloc thread_made : Bool) (registered : Option Session)
      → IsOpened has_alloc thread_made registered mnt
          (malloc mnt.mem).1
          (fusefs_vopen has_alloc thread_made registered mnt)
  unfolding fusefs_vopen fusefs_file_alloc
  fusefs_vopen-IsOpened has_alloc thread_made registered =
      with_root-IsOpened has_alloc thread_made registered (malloc mnt.mem) (malloc-live mnt.mem)
