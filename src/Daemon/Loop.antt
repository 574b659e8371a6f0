-- ===== src/Daemon/Loop.antt =====
-- libs/ukfusefs/fuse_daemon.c: one round of the daemon's loop, and the start of its thread.
use ukfs_fuse.Common.{
  Bool, true, false, Option, none, some, Exec, ok, ◌>>=◌, ℤ, pos, neg, Mem, malloc, free,
}
use ukfs_fuse.Errno.{enosys, enomem}
use ukfs_fuse.Request.{Request}
use ukfs_fuse.Queue.{Queue, fuse_ukfs_queue_pop}
use ukfs_fuse.Daemon.{Buffer, DispatchEntry, dispatch_table, find_entry, reset_header, fill_message}
use ukfs_fuse.Libfuse.{Session, answer, fuse_session_process_buf_internal}

-- What a round leaves behind: the buffer, the request, the heap.
abbrev pub Round : Type 0
Round = Buffer × Request × Mem

-- An opcode without an entry is answered here.
unfoldable pub serve_entry : Session → Buffer → Request → Mem → Option DispatchEntry → Exec Round
unfolding fill_message
serve_entry se b req m none = ok (b, answer req (neg enosys) none 0, m)
serve_entry se b req m (some de) = fill_message de b req >>= λ b'.
    fuse_session_process_buf_internal se b' req m >>= λ (req', m'). ok (b', req', m')

-- The body of `while (1)` behind the pop.
unfoldable pub serve : Session → Buffer → Request → Mem → Exec Round
unfolding reset_header find_entry dispatch_table serve_entry
serve se b req m = serve_entry se (reset_header b req) req m (find_entry dispatch_table req.opcode)

-- One whole round of `fuse_daemon_thread`.
unfoldable pub daemon_round : Session → Queue Request → Buffer → Mem → Exec (Queue Request × Round)
unfolding serve fuse_ukfs_queue_pop
daemon_round se q b m = fuse_ukfs_queue_pop q >>= λ (req, q'). serve se b req m >>= λ r. ok (q', r)

-- `fuse_daemon_start` behind its assertion: the arguments of the thread, then the thread itself.
-- Whether there is a default allocator and whether Unikraft makes the thread are given. The result,
-- whether the thread runs, and the heap.
unfoldable pub start_thread : Bool → Bool × Mem → ℤ × Bool × Mem
unfolding free
start_thread thread_made (false, m) = (neg enomem, false, m)
start_thread true (true, m) = (pos 0, true, m)
start_thread false (true, m) = (neg enomem, false, free m)

unfoldable pub fuse_daemon_start : Bool → Bool → Mem → ℤ × Bool × Mem
unfolding start_thread malloc
fuse_daemon_start false thread_made m = (neg enomem, false, m)
fuse_daemon_start true thread_made m = start_thread thread_made (malloc m)
