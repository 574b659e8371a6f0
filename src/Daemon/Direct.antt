-- ===== src/Daemon/Direct.antt =====
-- The wire between the daemon and libfuse carries a request unchanged: serving it is calling the
-- backend's handler with the request's own fields.
use ukfs_fuse.Common.{
  ℕ, ◌+◌, ◌^◌, ◌≤◌, ◌<◌, ◌≡◌, refl, Bool, true, false, none, List, ◌++◌, append_assoc, arith,
  length, drop, drop-le, le, load, load-le, c_string-append, IsCString, if◌then◌else◌, ltb, Exec,
  ok, ◌>>=◌, Mem, malloc,
}
use ukfs_fuse.Request.{Request, Input, lookup, getattr, opens, read, readdir, new_request}
use ukfs_fuse.Errno.{enosys}
use ukfs_fuse.Daemon.{Buffer, header_size, read_in}
use ukfs_fuse.Daemon.Loop.{serve}
use ukfs_fuse.Daemon.Wire.{payload, message, opcode_of, fuse_opcode_of, serve-message}
use ukfs_fuse.Libfuse.{
  Call, FileInfo, Session, or_else, to_off_t, fuse_reply_err, fuse_reply_open, do_getattr,
  fuse_req_opcode_sanity_ok, fuse_req_check_allow_root, has_func, call_handler, or_reply_err,
  checked_call, start_call, fuse_session_process_buf_internal,
}

-- The handler of a request, called with the fields of the request.
abbrev pub call_direct : Session → Call → Input → Exec Call
call_direct se c (lookup parent_ino name) =
    or_else se.op.lookup (fuse_reply_err c enosys) λ h. h c parent_ino name
call_direct se c (getattr ino) = or_else se.op.getattr (fuse_reply_err c enosys) λ h. h c ino none
call_direct se c (opens ino flags) =
    let fi : FileInfo = record { flags = flags; fh = 0 } in
    or_else se.op.opens
      (if se.no_open_support then fuse_reply_err c enosys else fuse_reply_open c fi) λ h. h c ino fi
call_direct se c (read ino fh offset size) =
    or_else se.op.read (fuse_reply_err c enosys)
      λ h. h c ino size (to_off_t offset) (record { flags = 0; fh = fh })
call_direct se c (readdir ino fh offset size) =
    or_else se.op.readdir (fuse_reply_err c enosys)
      λ h. h c ino size (to_off_t offset) (record { flags = 0; fh = fh })

-- The values of the C types, and names that are C strings.
abbrev pub InRange : Input → Type 0
InRange (lookup parent_ino name) = IsCString name
InRange (getattr ino) = Unit {0}
InRange (opens ino flags) = flags < 2 ^ 32
InRange (read ino fh offset size) = (fh < 2 ^ 64) × (offset < 2 ^ 64) × (size < 2 ^ 32)
InRange (readdir ino fh offset size) = (fh < 2 ^ 64) × (offset < 2 ^ 64) × (size < 2 ^ 32)

module _ (fh offset size : ℕ) (rest : List ℕ) where
  read_in-fh : fh < 2 ^ 64 → load 8 (read_in fh offset size ++ rest) ≡ fh
  unfolding read_in
  read_in-fh h = rw (append_assoc, load-le 8 fh _ h)

  read_in-offset : offset < 2 ^ 64 → load 8 (drop 8 (read_in fh offset size ++ rest)) ≡ offset
  unfolding read_in
  read_in-offset h = rw (append_assoc, drop-le 8 fh, append_assoc) (load-le 8 offset _ h)

  read_in-size : size < 2 ^ 32 → load 4 (drop 16 (read_in fh offset size ++ rest)) ≡ size
  unfolding read_in le
  read_in-size h = load-le 4 size _ h

  read_in-flags : load 4 (drop 32 (read_in fh offset size ++ rest)) ≡ 0
  unfolding read_in le load
  read_in-flags = refl

module _ (se : Session) (recent : 9 ≤ se.proto_minor) (c : Call) (b : Buffer) (unique : ℕ) where
  not_old : ltb se.proto_minor 9 ≡ false
  not_old = ground arith

  getattr-direct :
      (ino : ℕ)
      → call_handler se c (message b unique (getattr ino)) ≡ call_direct se c (getattr ino)
  unfolding call_handler le load
  getattr-direct ino = rw (not_old, do_getattr)

  -- The handler that libfuse calls for a message of the daemon, and what it passes.
  call_handler-direct :
      (i : Input) → InRange i → call_handler se c (message b unique i) ≡ call_direct se c i
  unfolding call_handler
  call_handler-direct (lookup parent_ino name) h = rw (append_assoc, c_string-append name _ h)
  call_handler-direct (getattr ino) h = getattr-direct ino
  call_handler-direct (opens ino flags) h = rw (append_assoc, load-le 4 flags _ h)
  call_handler-direct (read ino fh offset size) (h, k, l) = rw (
    not_old,
    read_in-fh fh offset size _ h,
    read_in-offset fh offset size _ k,
    read_in-size fh offset size _ l,
    read_in-flags fh offset size,
  )
  call_handler-direct (readdir ino fh offset size) (h, k, l) = rw (
    read_in-fh fh offset size _ h,
    read_in-offset fh offset size _ k,
    read_in-size fh offset size _ l,
  )

-- Serving a request that fits in the buffer, with the session's checks passed or failed as for any
-- message, is allocating a `fuse_req` and calling the handler: `malloc` may refuse.
abbrev pub start_direct : Session → Input → Request → Bool × Mem → Exec (Request × Mem)
start_direct se i req (false, m) = ok (req, m)
start_direct se i req (true, m) =
    call_direct se (record { request = req; mem = m; alive = true }) i >>= λ c.
    ok (c.request, c.mem)

-- A session that has been set up: the requests of the daemon come from root, so only the protocol
-- matters.
pub record IsReady (se : Session) : Type 0 where
  pub initialised : se.got_init ≡ true
  pub recent : 9 ≤ se.proto_minor

module _ (se : Session) (ready : IsReady se) (b : Buffer) (unique : ℕ) where
  sane : (i : Input) → fuse_req_opcode_sanity_ok se (fuse_opcode_of i) ≡ 0
  unfolding fuse_req_opcode_sanity_ok
  sane (getattr ino) = rw ready.initialised
  sane i = rw ready.initialised

  root_allowed : (i : Input) → fuse_req_check_allow_root se (fuse_opcode_of i) 0 ≡ 0
  unfolding fuse_req_check_allow_root
  root_allowed (getattr ino) = ground arith
  root_allowed i = ground arith

  has_func-sent : (i : Input) → has_func (fuse_opcode_of i) ≡ true
  unfolding has_func
  has_func-sent (lookup parent_ino name) = refl
  has_func-sent (getattr ino) = refl
  has_func-sent (opens ino flags) = refl
  has_func-sent (read ino fh offset size) = refl
  has_func-sent (readdir ino fh offset size) = refl

  checked_call-direct :
      (c : Call) (i : Input)
      → InRange i
      → checked_call se c (message b unique i) ≡ call_direct se c i
  unfolding checked_call or_reply_err
  checked_call-direct c i h =
      rw (sane i, root_allowed i, has_func-sent i)
        (call_handler-direct se ready.recent c b unique i h)

  process-direct :
      (i : Input) (req : Request) (m : Mem)
      → InRange i
      → fuse_session_process_buf_internal se (message b unique i) req m
        ≡ start_direct se i req (malloc m)
  unfolding fuse_session_process_buf_internal
  process-direct i req m h = start (malloc m)
    where
      start : (r : Bool × Mem) → start_call se (message b unique i) req r ≡ start_direct se i req r
      start (false, m') = refl
      start (true, m') = rw (checked_call-direct _ i h)

  -- In a session that is set up, serving a request whose fields are in range and whose message fits
  -- in the buffer is calling the handler of the backend with the fields of the request, whatever
  -- the buffer held, where malloc gives a fuse_req; otherwise the request comes back as it was. The
  -- buffer then holds the message.
  pub serve-direct :
      (i : Input) (m : Mem)
      → InRange i
      → length (payload i) ≤ length b.body
      → header_size + length (payload i) < 2 ^ 32
      → serve se b (new_request (opcode_of i) unique i) m ≡ (
          start_direct se i (new_request (opcode_of i) unique i) (malloc m) >>= λ (req, m').
          ok (message b unique i, req, m'))
  serve-direct i m h room small =
      rw (serve-message se b unique m i room small, process-direct i _ m h)
