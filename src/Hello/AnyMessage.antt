-- ===== src/Hello/AnyMessage.antt =====
-- apps/fuse-correctness-test/hello_ll.c behind libfuse: what becomes of any message whatever, and
-- whatever the allocator refuses.
use ukfs_fuse.Common.{
  ℕ, suc, ◌+◌, ◌<◌, ◌≡◌, refl, inl, inr, Bool, true, false, none, some, List, [], ◌∷◌, ◌++◌, arith,
  length, length-append, ◌==◌, if◌then◌else◌, Exec, ok, fault, ◌>>=◌, ℤ, pos, negsuc, Mem, malloc,
  malloc-live, given, le, length-le, length-replicate, ap, ◌∙◌,
}
use ukfs_fuse.Request.{Request}
use ukfs_fuse.Errno.{enosys}
use ukfs_fuse.Daemon.{Buffer}
use ukfs_fuse.Libfuse.{FileInfo, fuse_reply_err, or_else, has_func, call_handler, checked_call}
use ukfs_fuse.Libfuse.Answered.{started, reply_err-Answers}
use ukfs_fuse.Libfuse.Messages.{
  AnswersOrFaults, if-AnswersOrFaults, or_reply_err-any, IsKnown, asks_lookup, asks_getattr,
  asks_open, asks_read, asks_readdir, unknown, known_funcs, EndsWell, answered, may_crash,
  or_reply_err-EndsWell,
}
use ukfs_fuse.Hello.{
  DirBuf, entlen_padded, direntry, realloc, place_entry, dirbuf_add, hello_dirbuf, reply_dirbuf,
  hello_ll_readdir, hello_ll_read, reply_buf_limited, hello_str, hello_name,
}
use ukfs_fuse.Hello.Answers.{
  hello_session, lookup-Answers, getattr-Answers, open-Answers, buf_limited-Answers,
  reply_dirbuf-Answers,
}

-- Either a fault, or a buffer of as many bytes as its size says, in a block of its own.
pub data Whole (live : ℕ) (x : Exec (DirBuf × Mem)) : Type 0 where
  crashed : x ≡ fault → Whole live x
  whole :
      (buf : List ℕ) (m : Mem)
      → x ≡ ok (record { p = some buf; size = length buf }, m)
      → m.live ≡ suc live
      → 0 < length buf
      → Whole live x

length-direntry :
    (name : List ℕ) (ino type off : ℕ) → length (direntry name ino type off) ≡ entlen_padded name
unfolding direntry
length-direntry name ino type off = simp (length-append, length-le, length-replicate) (omega arith)

-- An entry behind others.
place_more :
    (buf name : List ℕ) (ino live : ℕ) (r : Bool × Mem)
    → 0 < length buf
    → r.1.live ≡ suc live
    → Whole live (
        place_entry
          (record { p = some buf; size = length buf })
          name
          ino
          (length buf + entlen_padded name)
          r)
unfolding place_entry
place_more buf name ino live (true, m) filled h =
    let more : List ℕ = buf ++ direntry name ino 0 (length buf + entlen_padded name) in
    let grown : length more ≡ length buf + entlen_padded name =
      length-append buf _ ∙ ap (λ n. length buf + n) (length-direntry name ino 0 _) in
    whole more m (ground (arith, grown)) h (omega (arith, grown))
place_more buf name ino live (false, m) filled h = crashed (ground arith)

add_more :
    (buf name : List ℕ) (ino live : ℕ) (m : Mem)
    → 0 < length buf
    → m.live ≡ suc live
    → Whole live (dirbuf_add (record { p = some buf; size = length buf }) name ino m)
unfolding dirbuf_add realloc
add_more buf name ino live m filled h = place_more buf name ino live _ filled h

-- Without a block of its own, the next entry goes astray.
add_lost :
    (size : ℕ) (name : List ℕ) (ino : ℕ) (m : Mem)
    → 0 < size
    → dirbuf_add (record { p = none; size = size }) name ino m ≡ fault
unfolding dirbuf_add realloc place_entry malloc
add_lost size name ino m filled = ground arith

pub bind_more :
    (name : List ℕ) (ino live : ℕ) (x : Exec (DirBuf × Mem))
    → Whole live x
    → Whole live (x >>= λ (b, m). dirbuf_add b name ino m)
bind_more name ino live x (crashed e) = crashed (rw e)
bind_more name ino live x (whole buf m e h filled) = rw e (add_more buf name ino live m filled h)

all_three :
    (r : Bool × Mem) (live : ℕ)
    → r.1.live ≡ live + given r.0
    → Whole live (
        place_entry (record { p = none; size = 0 }) (b'.' ∷ []) 1 32 r >>= λ (b, m).
        dirbuf_add b (b'.' ∷ b'.' ∷ []) 1 m >>= λ (b, m). dirbuf_add b hello_name 2 m)
unfolding place_entry direntry le
all_three (true, m) live h =
    bind_more hello_name 2 live _ (add_more _ _ 1 live m (omega arith) (omega (arith, h)))
all_three (false, m) live h =
    bind_more hello_name 2 live _ (crashed (add_lost 32 _ 1 m (omega arith)))

pub hello_dirbuf-Whole : (m : Mem) → Whole m.live (hello_dirbuf m)
unfolding hello_dirbuf dirbuf_add realloc
hello_dirbuf-Whole m = all_three (malloc m) m.live (malloc-live m)

module _ (req : Request) (m : Mem) (held : 0 < m.live) where
  pub limited-any :
      (buf : List ℕ) (off : ℤ) (size : ℕ)
      → AnswersOrFaults req m (reply_buf_limited (started req m) buf (length buf) off size)
  unfolding reply_buf_limited
  limited-any buf (pos off) size = inr (buf_limited-Answers req m held buf off size)
  limited-any buf (negsuc n) size = inl refl

  read-any :
      (ino size : ℕ) (off : ℤ) (fi : FileInfo)
      → AnswersOrFaults req m (hello_ll_read (started req m) ino size off fi)
  unfolding hello_ll_read
  read-any ino size off fi =
      if-AnswersOrFaults (ino == 2) (limited-any hello_str off size) (inl refl)

  reply_dirbuf-negative :
      (n size : ℕ) (buf : List ℕ) (m' : Mem)
      → reply_dirbuf
          (started req m)
          (negsuc n)
          size
          (record { p = some buf; size = length buf }, m')
        ≡ fault
  unfolding reply_dirbuf reply_buf_limited
  reply_dirbuf-negative n size buf m' = refl

  pub dirbuf-any :
      (x : Exec (DirBuf × Mem)) (off : ℤ) (size : ℕ)
      → Whole m.live x
      → AnswersOrFaults req m (x >>= reply_dirbuf (started req m) off size)
  dirbuf-any x off size (crashed e) = inl (rw e)
  dirbuf-any x (pos off) size (whole buf m' e h filled) =
      rw e (inr (reply_dirbuf-Answers req m held buf off size m' h))
  dirbuf-any x (negsuc n) size (whole buf m' e h filled) =
      inl (rw e (reply_dirbuf-negative n size buf m'))

  readdir-any :
      (ino size : ℕ) (off : ℤ) (fi : FileInfo)
      → AnswersOrFaults req m (hello_ll_readdir (started req m) ino size off fi)
  unfolding hello_ll_readdir
  readdir-any ino size off fi =
      if-AnswersOrFaults (ino == 1) (dirbuf-any (hello_dirbuf m) off size (hello_dirbuf-Whole m))
        (inr (reply_err-Answers req m held _))

  call-any : (b : Buffer) → AnswersOrFaults req m (call_handler hello_session (started req m) b)
  unfolding call_handler hello_session or_else
  call-any b = if-AnswersOrFaults _ (inr (lookup-Answers req m held 31 _ _)) (
      if-AnswersOrFaults _ (inr (getattr-Answers req m held _ _)) (
        if-AnswersOrFaults _ (inr (open-Answers req m held _ _)) (
          if-AnswersOrFaults _ (read-any _ _ _ _)
            (if-AnswersOrFaults _ (readdir-any _ _ _ _) (inl refl)))))

  -- What is not modelled is a fault too.
  pub checked_any :
      (b : Buffer) → AnswersOrFaults req m (checked_call hello_session (started req m) b)
  unfolding checked_call
  checked_any b = or_reply_err-any req m held _ (
      or_reply_err-any req m held _
        (if-AnswersOrFaults _ (call-any b) (inr (reply_err-Answers req m held _))))

  -- A handler that is called for one of the daemon's opcodes, and the error for an unknown one.
  known-EndsWell :
      (b : Buffer) (op : ℕ)
      → b.header.opcode ≡ op
      → IsKnown op
      → EndsWell op req m (
          if has_func b.header.opcode
          then call_handler hello_session (started req m) b
          else fuse_reply_err (started req m) enosys)
  unfolding call_handler hello_session or_else
  known-EndsWell b op e asks_lookup =
      rw (e, known_funcs.0) (answered (lookup-Answers req m held 31 _ _))
  known-EndsWell b op e asks_getattr =
      rw (e, known_funcs.1) (answered (getattr-Answers req m held _ _))
  known-EndsWell b op e asks_open = rw (e, known_funcs.2) (answered (open-Answers req m held _ _))
  known-EndsWell b op e asks_read = rw (e, known_funcs.3) (may_crash (inl refl) (read-any _ _ _ _))
  known-EndsWell b op e asks_readdir =
      rw (e, known_funcs.4) (may_crash (inr refl) (readdir-any _ _ _ _))
  known-EndsWell b op e (unknown h) = rw (e, h) (answered (reply_err-Answers req m held _))

  -- For a request whose fuse_req is allocated, whatever the fields and the bytes of the message in
  -- the buffer, with an opcode that the daemon sends or one for which libfuse has no function, and
  -- whatever malloc refuses, libfuse with the hello_ll backend ends, having answered the request
  -- exactly once, freed the fuse_req and lost no block; or it crashes, and the message is a read or
  -- a readdir.
  pub checked-EndsWell :
      (b : Buffer)
      → IsKnown b.header.opcode
      → EndsWell b.header.opcode req m (checked_call hello_session (started req m) b)
  unfolding checked_call
  checked-EndsWell b known =
      or_reply_err-EndsWell req m held _ _
        (or_reply_err-EndsWell req m held _ _ (known-EndsWell b _ refl known))
