-- ===== src/Hello.antt =====
-- apps/fuse-correctness-test/hello_ll.c (the same text as apps/fuse-test/hello_ll.c): the backend
-- with the directory / and the file /hello.
mod Dirbuf
pub mod Answers
pub mod AnyMessage
pub mod Xattr
use ukfs_fuse.Common.{
  ℕ, zero, suc, ◌+◌, ◌-◌, ◌*◌, ◌/◌, ◌%◌, Bool, true, false, Option, none, some, List, [], ◌∷◌, ◌++◌,
  length, drop, ltb, ◌==◌, ◌&&◌, not, same_bytes, if◌then◌else◌, Exec, ok, fault, ◌>>=◌, ℤ, pos,
  negsuc, Mem, malloc, free,
}
use ukfs_fuse.Errno.{enoent, enotdir, eisdir, eacces, enotsup}
use ukfs_fuse.Request.{Stat, zero_stat, entry_of}
use ukfs_fuse.Libfuse.{
  Call, FileInfo, LowlevelOps, fuse_reply_err, fuse_reply_attr, fuse_reply_entry, fuse_reply_open,
  fuse_reply_buf,
}
unfoldable pub use Dirbuf.*

-- "Hello World!\n"
abbrev pub hello_str : List ℕ
hello_str =
    b'H' ∷ b'e' ∷ b'l' ∷ b'l' ∷ b'o' ∷ b' ' ∷ b'W' ∷ b'o' ∷ b'r' ∷ b'l' ∷ b'd' ∷ b'!' ∷ 10 ∷ []

abbrev pub hello_name : List ℕ
hello_name = b'h' ∷ b'e' ∷ b'l' ∷ b'l' ∷ b'o' ∷ []

-- S_IFDIR | 0755 and S_IFREG | 0444
abbrev pub root_mode : ℕ
root_mode = 0o40755

abbrev pub hello_mode : ℕ
hello_mode = 0o100444

-- `struct fuse_conn_info`, the fields that the backend sets.
pub record ConnInfo : Type 0 where
  pub no_interrupt : ℕ
  pub want : ℕ

-- FUSE_CAP_ASYNC_READ, bit 0.
abbrev fuse_cap_async_read : ℕ
fuse_cap_async_read = 1

-- `conn->want &= ~FUSE_CAP_ASYNC_READ`
abbrev without_async_read : ConnInfo → ConnInfo
without_async_read conn = record conn { want = conn.want / 2 * 2 }

-- libfuse calls it for FUSE_INIT, which the daemon never sends.
unfoldable pub hello_ll_init : ConnInfo → ConnInfo
hello_ll_init conn =
    without_async_read (record conn { no_interrupt = 1; want = fuse_cap_async_read })

-- The structure filled in, and whether the inode is known (`false` is -1).
unfoldable pub hello_stat : ℕ → Stat → Stat × Bool
hello_stat ino st =
    if ino == 1
    then (record st { st_ino = ino; st_mode = root_mode; st_nlink = 2 }, true)
    else if ino == 2
    then (
      record st { st_ino = ino; st_mode = hello_mode; st_nlink = 1; st_size = length hello_str },
      true,
    )
    else (record st { st_ino = ino }, false)

unfoldable pub hello_ll_getattr : Call → ℕ → Option ℕ → Exec Call
hello_ll_getattr c ino fi =
    let (st, known) = hello_stat ino zero_stat in
    if known then fuse_reply_attr c st else fuse_reply_err c enoent

-- `proto_minor` is the session's.
unfoldable pub hello_ll_lookup : ℕ → Call → ℕ → List ℕ → Exec Call
hello_ll_lookup proto_minor c parent name =
    if parent == 1 && same_bytes name hello_name
    then fuse_reply_entry proto_minor c (entry_of 1 2 (hello_stat 2 zero_stat).0)
    else fuse_reply_err c enoent

-- A negative offset passes the test, and the reply would start in front of the buffer.
unfoldable pub reply_buf_limited : Call → List ℕ → ℕ → ℤ → ℕ → Exec Call
reply_buf_limited c buf bufsize (pos off) maxsize =
    if ltb off bufsize
    then fuse_reply_buf c (some (drop off buf))
        (if ltb (bufsize - off) maxsize then bufsize - off else maxsize)
    else fuse_reply_buf c none 0
reply_buf_limited c buf bufsize (negsuc n) maxsize = fault

-- Both dots are entries for inode 1.
unfoldable pub hello_dirbuf : Mem → Exec (DirBuf × Mem)
unfolding dirbuf_add
hello_dirbuf m = dirbuf_add (record { p = none; size = 0 }) (b'.' ∷ []) 1 m >>= λ (b, m).
    dirbuf_add b (b'.' ∷ b'.' ∷ []) 1 m >>= λ (b, m). dirbuf_add b hello_name 2 m

-- The reply from the dirbuf; `free(b.p)`.
unfoldable pub reply_dirbuf : Call → ℤ → ℕ → DirBuf × Mem → Exec Call
reply_dirbuf c off size (b, m) = elim b.p [
  | none ↦ fault
  | some buf ↦ reply_buf_limited (record c { mem = m }) buf b.size off size >>= λ d.
      ok (record d { mem = free d.mem })
]

unfoldable pub hello_ll_readdir : Call → ℕ → ℕ → ℤ → FileInfo → Exec Call
hello_ll_readdir c ino size off fi =
    if ino == 1 then hello_dirbuf c.mem >>= reply_dirbuf c off size else fuse_reply_err c enotdir

-- O_ACCMODE is 3 and O_RDONLY is 0.
unfoldable pub hello_ll_open : Call → ℕ → FileInfo → Exec Call
hello_ll_open c ino fi =
    if ino == 2
    then (if fi.flags % 4 == 0 then fuse_reply_open c fi else fuse_reply_err c eacces)
    else fuse_reply_err c eisdir

-- The assertion on the inode is a fault where it fails.
unfoldable pub hello_ll_read : Call → ℕ → ℕ → ℤ → FileInfo → Exec Call
hello_ll_read c ino size off fi =
    if ino == 2 then reply_buf_limited c hello_str (length hello_str) off size else fault

-- `hello_ll_oper`, the handlers that the daemon can reach.
unfoldable pub hello_ll_oper : LowlevelOps
hello_ll_oper = record {
  lookup = some (hello_ll_lookup 31);
  getattr = some hello_ll_getattr;
  opens = some hello_ll_open;
  read = some hello_ll_read;
  readdir = some hello_ll_readdir;
}
