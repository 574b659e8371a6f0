-- ===== src/Daemon/Message.antt =====
-- libs/ukfusefs/fuse_daemon.c: the message buffer, and the functions that fill it.
use ukfs_fuse.Common.{
  ℕ, ◌+◌, ◌-◌, ◌%◌, ◌^◌, List, [], ◌∷◌, ◌++◌, length, drop, take, le, leb, if◌then◌else◌, Exec, ok,
  fault, ◌&&◌,
}
use ukfs_fuse.Request.{Request, lookup, getattr, opens, read, readdir}

-- FUSE_DAEMON_BUF_SIZE
abbrev pub fuse_daemon_buf_size : ℕ
fuse_daemon_buf_size = 8192

-- `sizeof(struct fuse_in_header)`
abbrev pub header_size : ℕ
header_size = 40

-- `struct fuse_in_header` of libs/libfuse/include/fuse/fuse_kernel.h, without its last two fields,
-- which stay 0.
pub record InHeader : Type 0 where
  pub len : ℕ
  pub opcode : ℕ
  pub unique : ℕ
  pub nodeid : ℕ
  pub uid : ℕ
  pub gid : ℕ
  pub pid : ℕ

-- The daemon's buffer: `in` points to its first 40 bytes, and `body` is the rest.
pub record Buffer : Type 0 where
  pub header : InHeader
  pub body : List ℕ

abbrev pub fuse_lookup : ℕ
fuse_lookup = 1

abbrev pub fuse_getattr : ℕ
fuse_getattr = 3

abbrev pub fuse_open : ℕ
fuse_open = 14

abbrev pub fuse_read : ℕ
fuse_read = 15

abbrev pub fuse_readdir : ℕ
fuse_readdir = 28

-- `memcpy(buf + in->len, src, n); in->len += n` with a 32-bit `in->len`. A write past the buffer is
-- a fault, and so is one into the header, which no caller makes.
unfoldable pub append_bytes : Buffer → List ℕ → Exec Buffer
append_bytes b src =
    let at = b.header.len - header_size in
    if leb header_size b.header.len && leb (at + length src) (length b.body)
    then ok (record {
      header = record b.header { len = (b.header.len + length src) % 2 ^ 32 };
      body = take at b.body ++ src ++ drop (at + length src) b.body;
    })
    else fault

abbrev with_nodeid : Buffer → ℕ → Buffer
with_nodeid b nodeid = record b { header = record b.header { nodeid = nodeid } }

-- The name and its terminator. Another arm of the union is a fault.
unfoldable pub fill_lookup : Buffer → Request → Exec Buffer
fill_lookup b req = elim req.input [
  | lookup parent_ino name ↦ append_bytes (with_nodeid b parent_ino) (name ++ 0 ∷ [])
  | _ ↦ fault
]

-- `struct fuse_getattr_in`: getattr_flags, dummy, fh.
unfoldable pub fill_getattr : Buffer → Request → Exec Buffer
fill_getattr b req = elim req.input [
  | getattr ino ↦ append_bytes (with_nodeid b ino) (le 4 0 ++ le 4 0 ++ le 8 0)
  | _ ↦ fault
]

-- `struct fuse_open_in`: flags, open_flags.
unfoldable pub fill_open : Buffer → Request → Exec Buffer
fill_open b req = elim req.input [
  | opens ino flags ↦ append_bytes (with_nodeid b ino) (le 4 flags ++ le 4 0)
  | _ ↦ fault
]

-- `struct fuse_read_in`: fh, offset, size, read_flags, lock_owner, flags, padding.
unfoldable pub read_in : ℕ → ℕ → ℕ → List ℕ
read_in fh offset size =
    le 8 fh ++ (le 8 offset ++ (le 4 size ++ (le 4 0 ++ (le 8 0 ++ (le 4 0 ++ le 4 0)))))

unfoldable pub fill_read : Buffer → Request → Exec Buffer
fill_read b req = elim req.input [
  | read ino fh offset size ↦ append_bytes (with_nodeid b ino) (read_in fh offset size)
  | _ ↦ fault
]

unfoldable pub fill_readdir : Buffer → Request → Exec Buffer
fill_readdir b req = elim req.input [
  | readdir ino fh offset size ↦ append_bytes (with_nodeid b ino) (read_in fh offset size)
  | _ ↦ fault
]
