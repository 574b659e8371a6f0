-- ===== src/Hello/Answers.antt =====
-- apps/fuse-correctness-test/hello_ll.c: every handler answers its request once.
use ukfs_fuse.Common.{
  ℕ, suc, ◌^◌, ◌<◌, ◌≡◌, refl, subst, sym, Option, none, some, List, [], ◌∷◌, ◌++◌, arith, drop,
  length, length-drop, le, lt→ltb, ◌==◌, Exec, ok, ◌>>=◌, pos, Mem, malloc, free,
}
use ukfs_fuse.Request.{Request, Input, lookup, getattr, opens, read, readdir}
use ukfs_fuse.Daemon.Direct.{call_direct}
use ukfs_fuse.Libfuse.{Call, FileInfo, Session, or_else, fuse_session_new_versioned}
use ukfs_fuse.Libfuse.Answered.{
  started, Answers, answers, if-Answers, reply_err-Answers, reply_attr-Answers, reply_entry-Answers,
  reply_open-Answers, reply_buf-Answers, reply_nothing-Answers,
}
use ukfs_fuse.Hello.{
  hello_str, hello_name, hello_ll_getattr, hello_ll_lookup, reply_buf_limited, hello_dirbuf,
  reply_dirbuf, hello_ll_readdir, hello_ll_open, hello_ll_read, hello_ll_oper, direntry,
}

-- The session that `main` of the backend makes.
unfoldable pub hello_session : Session
unfolding hello_ll_oper fuse_session_new_versioned
hello_session = fuse_session_new_versioned hello_ll_oper

-- What the entries of the root directory come to: ".", ".." and "hello".
unfoldable pub root_listing : List ℕ
unfolding direntry
root_listing =
    direntry (b'.' ∷ []) 1 0 32
    ++ (direntry (b'.' ∷ b'.' ∷ []) 1 0 64 ++ direntry hello_name 2 0 96)

abbrev pub unrefused : ℕ → Mem
unrefused live = record { refusals = []; live = live }

pub hello_dirbuf_lem :
    (live : ℕ)
    → hello_dirbuf (unrefused live)
      ≡ ok (record { p = some root_listing; size = length root_listing }, unrefused (suc live))
unfolding hello_dirbuf root_listing malloc le
hello_dirbuf_lem live = refl

hello_dirbuf_quiet :
    (m : Mem)
    → m.refusals ≡ []
    → hello_dirbuf m
      ≡ ok (record { p = some root_listing; size = length root_listing }, unrefused (suc m.live))
hello_dirbuf_quiet m quiet =
    subst
      (λ r.
        hello_dirbuf (record { refusals = r; live = m.live })
        ≡ ok (record { p = some root_listing; size = length root_listing }, unrefused (suc m.live)))
      (sym quiet) (hello_dirbuf_lem m.live)

-- The requests that the backend is able to serve: a read must name the file, offsets must be those
-- of an `off_t`, and the directory buffer must get its blocks.
abbrev pub IsServed : Input → Mem → Type 0
IsServed (read ino fh offset size) m = (ino ≡ 2) × (offset < 2 ^ 63)
IsServed (readdir ino fh offset size) m = (offset < 2 ^ 63) × (m.refusals ≡ [])
IsServed _ m = Unit {0}

module _ (req : Request) (m : Mem) (held : 0 < m.live) where
  pub getattr-Answers :
      (ino : ℕ) (fi : Option ℕ) → Answers req m (hello_ll_getattr (started req m) ino fi)
  unfolding hello_ll_getattr
  getattr-Answers ino fi =
      if-Answers _ (reply_attr-Answers req m held _) (reply_err-Answers req m held _)

  pub lookup-Answers :
      (proto_minor parent : ℕ) (name : List ℕ)
      → Answers req m (hello_ll_lookup proto_minor (started req m) parent name)
  unfolding hello_ll_lookup
  lookup-Answers proto_minor parent name =
      if-Answers _ (reply_entry-Answers req m held proto_minor _) (reply_err-Answers req m held _)

  pub open-Answers :
      (ino : ℕ) (fi : FileInfo) → Answers req m (hello_ll_open (started req m) ino fi)
  unfolding hello_ll_open
  open-Answers ino fi =
      if-Answers _
        (if-Answers _ (reply_open-Answers req m held fi) (reply_err-Answers req m held _))
        (reply_err-Answers req m held _)

  pub buf_limited-Answers :
      (buf : List ℕ) (off size : ℕ)
      → Answers req m (reply_buf_limited (started req m) buf (length buf) (pos off) size)
  unfolding reply_buf_limited
  buf_limited-Answers buf off size =
      if-Answers _
        (reply_buf-Answers req m held (drop off buf) _ (ground (arith, length-drop off buf)))
        (reply_nothing-Answers req m held)

  read-Answers :
      (ino size off : ℕ) (fi : FileInfo)
      → ino ≡ 2
      → Answers req m (hello_ll_read (started req m) ino size (pos off) fi)
  unfolding hello_ll_read
  read-Answers ino size off fi h = rw h (buf_limited-Answers hello_str off size)

-- A reply made while one more block was allocated, and the release of that block.
pub free-Answers :
    (req : Request) (m m' : Mem) {x : Exec Call}
    → 0 < m.live
    → m'.live ≡ suc m.live
    → Answers req m' x
    → Answers req m (x >>= λ d. ok (record d { mem = free d.mem }))
unfolding free
free-Answers req m m' held h (answers d e a) =
    answers (record d { mem = free d.mem }) (rw e)
      (record {
        once = a.once;
        freed = a.freed;
        balanced = omega (arith, a.balanced);
        consistent = a.consistent;
        sized = a.sized;
      })

-- The reply out of the directory buffer, and the release of the buffer.
pub reply_dirbuf-Answers :
    (req : Request) (m : Mem) (held : 0 < m.live) (buf : List ℕ) (off size : ℕ) (m' : Mem)
    → m'.live ≡ suc m.live
    → Answers req m (
        reply_dirbuf
          (started req m)
          (pos off)
          size
          (record { p = some buf; size = length buf }, m'))
unfolding reply_dirbuf
reply_dirbuf-Answers req m held buf off size m' h =
    free-Answers req m m' held h (buf_limited-Answers req m' (omega arith) buf off size)

module _ (req : Request) (m : Mem) (held : 0 < m.live) where
  readdir-Answers :
      (ino size off : ℕ) (fi : FileInfo)
      → m.refusals ≡ []
      → Answers req m (hello_ll_readdir (started req m) ino size (pos off) fi)
  unfolding hello_ll_readdir
  readdir-Answers ino size off fi quiet = rw (hello_dirbuf_quiet m quiet) (
      if-Answers (ino == 1)
        (reply_dirbuf-Answers req m held root_listing off size (unrefused (suc m.live)) refl)
        (reply_err-Answers req m held _))

  -- Every request whose fuse_req is allocated and that hello_ll can serve (a read names the file,
  -- offsets are those of an off_t, no refusal while a directory is listed) is answered exactly once
  -- by a handler that ends, with no block lost.
  pub hello-Answers :
      (i : Input) → IsServed i m → Answers req m (call_direct hello_session (started req m) i)
  unfolding hello_session or_else
  hello-Answers (lookup parent_ino name) h = lookup-Answers req m held 31 parent_ino name
  hello-Answers (getattr ino) h = getattr-Answers req m held ino none
  hello-Answers (opens ino flags) h = open-Answers req m held ino _
  hello-Answers (read ino fh offset size) (h, k) =
      rw (lt→ltb offset (2 ^ 63) k) (read-Answers req m held ino size offset _ h)
  hello-Answers (readdir ino fh offset size) (k, q) =
      rw (lt→ltb offset (2 ^ 63) k) (readdir-Answers ino size offset _ q)
