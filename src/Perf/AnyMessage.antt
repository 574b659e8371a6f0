-- ===== src/Perf/AnyMessage.antt =====
-- apps/fuse-perf-test/hello_ll.c behind libfuse: what becomes of any message whatever, and whatever
-- the allocator refuses.
use ukfs_fuse.Common.{
  ℕ, ◌+◌, ◌%◌, same_bytes, ◌<◌, ◌≡◌, refl, inl, inr, Bool, true, false, Option, List, arith,
  length-replicate, replicate, leb, ◌==◌, not, ℤ, pos, negsuc, Mem, malloc, malloc-live, given,
  if◌then◌else◌,
}
use ukfs_fuse.Request.{Request}
use ukfs_fuse.Errno.{enomem, enosys}
use ukfs_fuse.Daemon.{Buffer}
use ukfs_fuse.Libfuse.{
  FileInfo, Session, or_else, fuse_session_new_versioned, has_func, fuse_reply_err, call_handler,
  checked_call,
}
use ukfs_fuse.Libfuse.Answered.{
  Answers, started, if-Answers, live-Answers, reply_err-Answers, reply_attr-Answers,
  reply_entry-Answers, reply_open-Answers, reply_buf-Answers, reply_nothing-Answers,
}
use ukfs_fuse.Hello.{hello_str, hello_name}
use ukfs_fuse.Hello.Answers.{free-Answers}
use ukfs_fuse.Hello.AnyMessage.{hello_dirbuf-Whole, bind_more, dirbuf-any, limited-any}
use ukfs_fuse.Libfuse.Messages.{
  AnswersOrFaults, if-AnswersOrFaults, or_reply_err-any, IsKnown, asks_lookup, asks_getattr,
  asks_open, asks_read, asks_readdir, unknown, known_funcs, EndsWell, answered, may_crash,
  or_reply_err-EndsWell,
}
use ukfs_fuse.Perf.{
  bigfile_name, bigfile_size, perf_ll_getattr, perf_ll_lookup, perf_dirbuf, perf_ll_readdir,
  perf_ll_open, reply_filled, read_bigfile, perf_ll_read, perf_ll_oper,
}

-- The session that `main` of the backend makes.
unfoldable pub perf_session : Session
unfolding perf_ll_oper fuse_session_new_versioned
perf_session = fuse_session_new_versioned perf_ll_oper

module _ (req : Request) (m : Mem) (held : 0 < m.live) where
  reply_filled-Answers :
      (n : ℕ) (r : Bool × Mem)
      → r.1.live ≡ m.live + given r.0
      → Answers req m (reply_filled (started req m) n r)
  unfolding reply_filled
  reply_filled-Answers n (true, m') h = free-Answers req m m' held (omega (arith, h)) (
      reply_buf-Answers req m' (omega (arith, h)) (replicate n b'A') n
        (omega (arith, length-replicate {A = ℕ} n b'A')))
  reply_filled-Answers n (false, m') h =
      live-Answers (omega (arith, h)) (reply_err-Answers req m' (omega (arith, h)) enomem)

  read_bigfile-Answers :
      (size : ℕ) (off : ℤ) → Answers req m (read_bigfile (started req m) size off)
  unfolding read_bigfile
  read_bigfile-Answers size (pos off) =
      if-Answers (leb bigfile_size off) (reply_nothing-Answers req m held)
        (reply_filled-Answers _ (malloc m) (malloc-live m))
  read_bigfile-Answers size (negsuc n) = reply_filled-Answers _ (malloc m) (malloc-live m)

  perf_read-any :
      (ino size : ℕ) (off : ℤ) (fi : FileInfo)
      → AnswersOrFaults req m (perf_ll_read (started req m) ino size off fi)
  unfolding perf_ll_read
  perf_read-any ino size off fi =
      if-AnswersOrFaults (ino == 2) (limited-any req m held hello_str off size) (
        if-AnswersOrFaults (ino == 3) (inr (read_bigfile-Answers size off))
          (inr (reply_err-Answers req m held _)))

  perf_readdir-any :
      (ino size : ℕ) (off : ℤ) (fi : FileInfo)
      → AnswersOrFaults req m (perf_ll_readdir (started req m) ino size off fi)
  unfolding perf_ll_readdir perf_dirbuf
  perf_readdir-any ino size off fi =
      if-AnswersOrFaults (not (ino == 1)) (inr (reply_err-Answers req m held _)) (
        dirbuf-any req m held (perf_dirbuf m) off size
          (bind_more bigfile_name 3 m.live _ (hello_dirbuf-Whole m)))

  perf_lookup-Answers :
      (proto_minor parent : ℕ) (name : List ℕ)
      → Answers req m (perf_ll_lookup proto_minor (started req m) parent name)
  unfolding perf_ll_lookup
  perf_lookup-Answers proto_minor parent name =
      if-Answers (not (parent == 1)) (reply_err-Answers req m held _) (
        if-Answers (same_bytes name hello_name) (reply_entry-Answers req m held proto_minor _) (
          if-Answers (same_bytes name bigfile_name) (reply_entry-Answers req m held proto_minor _)
            (reply_err-Answers req m held _)))

  perf_getattr-Answers :
      (ino : ℕ) (fi : Option ℕ) → Answers req m (perf_ll_getattr (started req m) ino fi)
  unfolding perf_ll_getattr
  perf_getattr-Answers ino fi =
      if-Answers _ (reply_attr-Answers req m held _) (reply_err-Answers req m held _)

  perf_open-Answers :
      (ino : ℕ) (fi : FileInfo) → Answers req m (perf_ll_open (started req m) ino fi)
  unfolding perf_ll_open
  perf_open-Answers ino fi = if-Answers (ino == 1) (reply_err-Answers req m held _) (
      if-Answers (not (fi.flags % 4 == 0)) (reply_err-Answers req m held _)
        (reply_open-Answers req m held fi))

  perf_call-any : (b : Buffer) → AnswersOrFaults req m (call_handler perf_session (started req m) b)
  unfolding call_handler perf_session or_else
  perf_call-any b = if-AnswersOrFaults _ (inr (perf_lookup-Answers 31 _ _)) (
      if-AnswersOrFaults _ (inr (perf_getattr-Answers _ _)) (
        if-AnswersOrFaults _ (inr (perf_open-Answers _ _)) (
          if-AnswersOrFaults _ (perf_read-any _ _ _ _)
            (if-AnswersOrFaults _ (perf_readdir-any _ _ _ _) (inl refl)))))

  -- What is not modelled is a fault too.
  pub perf_checked_any :
      (b : Buffer) → AnswersOrFaults req m (checked_call perf_session (started req m) b)
  unfolding checked_call
  perf_checked_any b = or_reply_err-any req m held _ (
      or_reply_err-any req m held _
        (if-AnswersOrFaults _ (perf_call-any b) (inr (reply_err-Answers req m held _))))

  perf_known-EndsWell :
      (b : Buffer) (op : ℕ)
      → b.header.opcode ≡ op
      → IsKnown op
      → EndsWell op req m (
          if has_func b.header.opcode
          then call_handler perf_session (started req m) b
          else fuse_reply_err (started req m) enosys)
  unfolding call_handler perf_session or_else
  perf_known-EndsWell b op e asks_lookup =
      rw (e, known_funcs.0) (answered (perf_lookup-Answers 31 _ _))
  perf_known-EndsWell b op e asks_getattr =
      rw (e, known_funcs.1) (answered (perf_getattr-Answers _ _))
  perf_known-EndsWell b op e asks_open = rw (e, known_funcs.2) (answered (perf_open-Answers _ _))
  perf_known-EndsWell b op e asks_read =
      rw (e, known_funcs.3) (may_crash (inl refl) (perf_read-any _ _ _ _))
  perf_known-EndsWell b op e asks_readdir =
      rw (e, known_funcs.4) (may_crash (inr refl) (perf_readdir-any _ _ _ _))
  perf_known-EndsWell b op e (unknown h) = rw (e, h) (answered (reply_err-Answers req m held _))

  -- For a request whose fuse_req is allocated, whatever the fields and the bytes of the message in
  -- the buffer, with an opcode that the daemon sends or one for which libfuse has no function, and
  -- whatever malloc refuses, libfuse with the backend of the performance tests ends, having
  -- answered the request exactly once, freed the fuse_req and lost no block; or it crashes, and the
  -- message is a read or a readdir.
  pub perf_checked-EndsWell :
      (b : Buffer)
      → IsKnown b.header.opcode
      → EndsWell b.header.opcode req m (checked_call perf_session (started req m) b)
  unfolding checked_call
  perf_checked-EndsWell b known =
      or_reply_err-EndsWell req m held _ _
        (or_reply_err-EndsWell req m held _ _ (perf_known-EndsWell b _ refl known))
