-- ===== src/Libfuse.antt =====
-- libs/libfuse/lib/fuse_lowlevel.c, the path of the daemon's messages through the bundled libfuse:
-- sessions, the decoding of a message, and the choice of the handler. The rest of libfuse is not
-- modelled.
mod Reply
pub mod Answered
pub mod Kinds
pub mod Messages
use ukfs_fuse.Common.{
  ℕ, zero, suc, ◌-◌, ◌%◌, ◌^◌, Bool, true, false, Option, none, some, List, drop, load, c_string,
  ltb, ◌==◌, ◌&&◌, ◌||◌, not, if◌then◌else◌, Exec, ok, fault, ◌>>=◌, ℤ, pos, negsuc, Mem, malloc,
}
use ukfs_fuse.Errno.{eio, eacces, enosys}
use ukfs_fuse.Request.{Request}
use ukfs_fuse.Daemon.{
  Buffer, InHeader, fuse_lookup, fuse_getattr, fuse_open, fuse_read, fuse_readdir,
}
unfoldable pub use Reply.*

-- An `off_t` from an unsigned 64-bit number.
abbrev pub to_off_t : ℕ → ℤ
to_off_t n = if ltb n (2 ^ 63) then pos n else negsuc (2 ^ 64 - 1 - n)

-- The handlers of `struct fuse_lowlevel_ops` that the daemon can reach.
pub record LowlevelOps : Type 0 where
  pub lookup : Option (Call → ℕ → List ℕ → Exec Call)
  pub getattr : Option (Call → ℕ → Option ℕ → Exec Call)
  pub opens : Option (Call → ℕ → FileInfo → Exec Call)
  pub read : Option (Call → ℕ → ℕ → ℤ → FileInfo → Exec Call)
  pub readdir : Option (Call → ℕ → ℕ → ℤ → FileInfo → Exec Call)

-- `struct fuse_session`, the fields on this path.
pub record Session : Type 0 where
  pub op : LowlevelOps
  pub got_init : Bool
  pub proto_minor : ℕ
  pub deny_others : Bool
  pub owner : ℕ
  pub no_open_support : Bool

-- `fuse_session_new_versioned` where `calloc` gives a block.
unfoldable pub fuse_session_new_versioned : LowlevelOps → Session
fuse_session_new_versioned op = record {
  op = op;
  got_init = true;
  proto_minor = 31;
  deny_others = false;
  owner = 0;
  no_open_support = false;
}

-- `fuse_session_mount` records the session, and `fuse_session_get_registered` gives it back.
unfoldable pub fuse_session_mount : Option Session → Session → Option Session
fuse_session_mount registered se = some se

abbrev fuse_init : ℕ
fuse_init = 26

abbrev cuse_init : ℕ
cuse_init = 4096

-- The error number, or 0. The session is no CUSE session.
unfoldable pub fuse_req_opcode_sanity_ok : Session → ℕ → ℕ
fuse_req_opcode_sanity_ok se in_op =
    if se.got_init
    then (if in_op == fuse_init || in_op == cuse_init then eio else 0)
    else (if in_op == fuse_init then 0 else eio)

-- FUSE_INIT, READ, WRITE, FSYNC, RELEASE, READDIR, FSYNCDIR, RELEASEDIR, NOTIFY_REPLY, READDIRPLUS
abbrev open_to_all : ℕ → Bool
open_to_all o =
    o == 26
    || o == 15
    || o == 16
    || o == 20
    || o == 18
    || o == 28
    || o == 30
    || o == 29
    || o == 41
    || o == 44

unfoldable pub fuse_req_check_allow_root : Session → ℕ → ℕ → ℕ
fuse_req_check_allow_root se in_op in_uid =
    if se.deny_others && not (in_uid == se.owner) && not (in_uid == 0) && not (open_to_all in_op)
    then eacces
    else 0

-- A handler where the table has one.
unfoldable pub or_else : {H : Type 0} → Option H → Exec Call → (H → Exec Call) → Exec Call
or_else none missing call = missing
or_else (some handler) missing call = call handler

unfoldable pub do_lookup : Session → Call → ℕ → List ℕ → Exec Call
do_lookup se c nodeid inarg =
    or_else se.op.lookup (fuse_reply_err c enosys) λ handler. handler c nodeid (c_string inarg)

-- FUSE_GETATTR_FH is bit 0 of the flags.
unfoldable pub do_getattr : Session → Call → ℕ → List ℕ → Exec Call
do_getattr se c nodeid inarg =
    let with_fh = not (ltb se.proto_minor 9) && load 4 inarg % 2 == 1 in
    or_else se.op.getattr (fuse_reply_err c enosys)
      λ handler. handler c nodeid (if with_fh then some (load 8 (drop 8 inarg)) else none)

unfoldable pub do_open : Session → Call → ℕ → List ℕ → Exec Call
do_open se c nodeid inarg =
    let fi : FileInfo = record { flags = load 4 inarg; fh = 0 } in
    or_else se.op.opens
      (if se.no_open_support then fuse_reply_err c enosys else fuse_reply_open c fi)
      λ handler. handler c nodeid fi

-- Size, offset and handle of a `struct fuse_read_in`; its `flags` only from protocol 7.9 on.
unfoldable pub do_read : Session → Call → ℕ → List ℕ → Exec Call
do_read se c nodeid inarg =
    let flags = if ltb se.proto_minor 9 then 0 else load 4 (drop 32 inarg) in
    let fi : FileInfo = record { flags = flags; fh = load 8 inarg } in
    or_else se.op.read (fuse_reply_err c enosys)
      λ handler. handler c nodeid (load 4 (drop 16 inarg)) (to_off_t (load 8 (drop 8 inarg))) fi

unfoldable pub do_readdir : Session → Call → ℕ → List ℕ → Exec Call
do_readdir se c nodeid inarg =
    let fi : FileInfo = record { flags = 0; fh = load 8 inarg } in
    or_else se.op.readdir (fuse_reply_err c enosys)
      λ handler. handler c nodeid (load 4 (drop 16 inarg)) (to_off_t (load 8 (drop 8 inarg))) fi

-- The opcodes for which `fuse_ll_ops` has a function: those up to FUSE_COPY_FILE_RANGE_64 but 0, 7,
-- 19, FUSE_SETUPMAPPING, FUSE_REMOVEMAPPING and FUSE_SYNCFS; and CUSE_INIT.
unfoldable pub has_func : ℕ → Bool
has_func o =
    ltb o 54
      && not (o == 0)
      && not (o == 7)
      && not (o == 19)
      && not (o == 48)
      && not (o == 49)
      && not (o == 50)
    || o == cuse_init

-- `fuse_ll_ops[in->opcode].func`, for the opcodes that the daemon sends. The functions for other
-- opcodes, which no message of the daemon has, are not modelled. A fault holds their place, so what is
-- shown to end is shown not to come there.
unfoldable pub call_handler : Session → Call → Buffer → Exec Call
unfolding do_lookup do_getattr do_open do_read do_readdir
call_handler se c b =
    let op = b.header.opcode in
    let nodeid = b.header.nodeid in
    if op == fuse_lookup
    then do_lookup se c nodeid b.body
    else if op == fuse_getattr
    then do_getattr se c nodeid b.body
    else if op == fuse_open
    then do_open se c nodeid b.body
    else if op == fuse_read
    then do_read se c nodeid b.body
    else if op == fuse_readdir
    then do_readdir se c nodeid b.body
    else fault

-- `if (err) goto reply_err;`
unfoldable pub or_reply_err : ℕ → Call → Exec Call → Exec Call
or_reply_err zero c next = next
or_reply_err (suc err) c next = fuse_reply_err c (suc err)

-- The checks, in order: the first error is replied.
unfoldable pub checked_call : Session → Call → Buffer → Exec Call
checked_call se c b = or_reply_err (fuse_req_opcode_sanity_ok se b.header.opcode) c (
    or_reply_err (fuse_req_check_allow_root se b.header.opcode b.header.uid) c
      (if has_func b.header.opcode then call_handler se c b else fuse_reply_err c enosys))

-- Where no `fuse_req` can be allocated, an error message goes to the descriptor that the disguised
-- channel pointer names, which is no descriptor: the request is left as it was.
unfoldable pub start_call : Session → Buffer → Request → Bool × Mem → Exec (Request × Mem)
start_call se b req (false, m) = ok (req, m)
start_call se b req (true, m) =
    checked_call se (record { request = req; mem = m; alive = true }) b >>= λ c.
    ok (c.request, c.mem)

unfoldable pub fuse_session_process_buf_internal :
    Session → Buffer → Request → Mem → Exec (Request × Mem)
unfolding start_call
fuse_session_process_buf_internal se b req m = start_call se b req (malloc m)
