-- ===== src/Libfuse/Reply.antt =====
-- libs/libfuse/lib/fuse_lowlevel.c: the reply functions, which this port has rewritten to fill in
-- the driver's request and raise its semaphore in place of a write to the kernel.
use ukfs_fuse.Common.{
  ℕ, ◌+◌, Bool, true, false, Option, none, some, List, take, length, leb, ltb, ◌==◌, ◌&&◌,
  if◌then◌else◌, Exec, ok, fault, ℤ, pos, neg, Mem, malloc, free,
}
use ukfs_fuse.Errno.{enoent, enomem}
use ukfs_fuse.Request.{Request, Payload, entry, attr, open_out, bytes, EntryParam, Stat}

-- `sizeof` of the reply structures on x86-64; no result depends on the numbers.
abbrev pub entry_param_size : ℕ
entry_param_size = 176

abbrev pub stat_size : ℕ
stat_size = 144

abbrev pub open_out_size : ℕ
open_out_size = 16

-- A `fuse_req_t` while a handler works on it: the request behind its `ukfs_req`, which the daemon
-- always sets, the heap, and whether the block of the `fuse_req_t` itself is still allocated.
pub record Call : Type 0 where
  pub request : Request
  pub mem : Mem
  pub alive : Bool

-- `fuse_free_req`: the only reference goes, and with it the block. Freed twice is a fault.
unfoldable pub fuse_free_req : Call → Exec Call
fuse_free_req c = if c.alive then ok (record c { mem = free c.mem; alive = false }) else fault

-- The assignments of a reply, and `uk_semaphore_up(&ukfs_req->done)`.
abbrev pub answer : Request → ℤ → Option Payload → ℕ → Request
answer r error data_ len = record r {
  error = error;
  reply_data = data_;
  reply_len = len;
  done = r.done + 1;
}

unfoldable pub fuse_reply_err : Call → ℕ → Exec Call
fuse_reply_err c err = fuse_free_req (record c { request = answer c.request (neg err) none 0 })

-- `malloc(len)` and a copy of the structure, or -ENOMEM with the length kept.
unfoldable pub answer_copy : Call → Payload → ℕ → Bool × Mem → Call
answer_copy c p len (true, m) = record c {
  request = answer c.request (pos 0) (some p) len;
  mem = m;
}
answer_copy c p len (false, m) = record c {
  request = answer c.request (neg enomem) none len;
  mem = m;
}

-- `proto_minor` is 31 in every session here, so an entry with inode 0 is an ordinary reply.
unfoldable pub fuse_reply_entry : ℕ → Call → EntryParam → Exec Call
fuse_reply_entry proto_minor c e =
    if e.ino == 0 && ltb proto_minor 4
    then fuse_reply_err c enoent
    else fuse_free_req (answer_copy c (entry e) entry_param_size (malloc c.mem))

unfoldable pub fuse_reply_attr : Call → Stat → Exec Call
fuse_reply_attr c st = fuse_free_req (answer_copy c (attr st) stat_size (malloc c.mem))

unfoldable pub answer_open : Call → ℕ → Bool × Mem → Call
answer_open c fh (true, m) = record c {
  request = answer c.request (pos 0) (some (open_out fh)) open_out_size;
  mem = m;
}
answer_open c fh (false, m) = record c { request = answer c.request (neg enomem) none 0; mem = m }

-- `struct fuse_file_info`, the fields that the handlers read.
pub record FileInfo : Type 0 where
  pub flags : ℕ
  pub fh : ℕ

unfoldable pub fuse_reply_open : Call → FileInfo → Exec Call
fuse_reply_open c fi = fuse_free_req (answer_open c fi.fh (malloc c.mem))

unfoldable pub answer_buf : Call → List ℕ → ℕ → Bool × Mem → Call
answer_buf c data_ size (true, m) = record c {
  request = answer c.request (pos 0) (some (bytes data_)) size;
  mem = m;
}
answer_buf c data_ size (false, m) = record c {
  request = answer c.request (if ltb 0 size then neg enomem else pos 0) none size;
  mem = m;
}

-- `buf` holds at least `size` bytes, or the copy reads past it. `none` is NULL, which the callers
-- pass with size 0 only; with another size the block would be handed over unset: a fault here.
unfoldable pub fuse_reply_buf : Call → Option (List ℕ) → ℕ → Exec Call
fuse_reply_buf c none size =
    if ltb 0 size then fault else fuse_free_req (answer_buf c List.[] size (malloc c.mem))
fuse_reply_buf c (some buf) size =
    if leb size (length buf)
    then fuse_free_req (answer_buf c (take size buf) size (malloc c.mem))
    else fault
