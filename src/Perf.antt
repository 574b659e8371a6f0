-- ===== src/Perf.antt =====
-- apps/fuse-perf-test/hello_ll.c: the backend with a second file, /bigfile. The functions that it
-- has in the same form as the other backend are those of `Hello`.
pub mod AnyMessage
pub mod Linux
pub mod Listing
use ukfs_fuse.Common.{
  ℕ, suc, ◌+◌, ◌-◌, ◌*◌, ◌%◌, Bool, true, false, Option, none, some, List, [], ◌∷◌, replicate, ltb,
  leb, ◌==◌, not, same_bytes, if◌then◌else◌, Exec, ok, ◌>>=◌, ℤ, pos, negsuc, Mem, malloc, free,
  length,
}
use ukfs_fuse.Errno.{enoent, enotdir, eisdir, eacces, enomem}
use ukfs_fuse.Request.{Stat, zero_stat, entry_of}
use ukfs_fuse.Libfuse.{
  Call, FileInfo, LowlevelOps, fuse_reply_err, fuse_reply_attr, fuse_reply_entry, fuse_reply_open,
  fuse_reply_buf,
}
use ukfs_fuse.Hello.{
  hello_str, hello_name, root_mode, hello_mode, DirBuf, dirbuf_add, hello_dirbuf, reply_buf_limited,
  reply_dirbuf,
}

abbrev pub bigfile_name : List ℕ
bigfile_name = b'b' ∷ b'i' ∷ b'g' ∷ b'f' ∷ b'i' ∷ b'l' ∷ b'e' ∷ []

-- BIGFILE_SIZE
abbrev pub bigfile_size : ℕ
bigfile_size = 104857600

-- `hello_stat`: whether the inode is known (`false` is -1).
unfoldable pub perf_stat : ℕ → Stat → Stat × Bool
perf_stat ino st =
    if ino == 1
    then (record st { st_ino = ino; st_mode = root_mode; st_nlink = 2 }, true)
    else if ino == 2
    then (
      record st { st_ino = ino; st_mode = hello_mode; st_nlink = 1; st_size = length hello_str },
      true,
    )
    else if ino == 3
    then (
      record st { st_ino = ino; st_mode = hello_mode; st_nlink = 1; st_size = bigfile_size },
      true,
    )
    else (record st { st_ino = ino }, false)

unfoldable pub perf_ll_getattr : Call → ℕ → Option ℕ → Exec Call
perf_ll_getattr c ino fi =
    let (st, known) = perf_stat ino zero_stat in
    if known then fuse_reply_attr c st else fuse_reply_err c enoent

-- `proto_minor` is the session's.
unfoldable pub perf_ll_lookup : ℕ → Call → ℕ → List ℕ → Exec Call
perf_ll_lookup proto_minor c parent name =
    if not (parent == 1)
    then fuse_reply_err c enoent
    else if same_bytes name hello_name
    then fuse_reply_entry proto_minor c (entry_of 1 2 (perf_stat 2 zero_stat).0)
    else if same_bytes name bigfile_name
    then fuse_reply_entry proto_minor c (entry_of 1 3 (perf_stat 3 zero_stat).0)
    else fuse_reply_err c enoent

-- The three entries of the other backend, and a fourth.
unfoldable pub perf_dirbuf : Mem → Exec (DirBuf × Mem)
perf_dirbuf m = hello_dirbuf m >>= λ (b, m). dirbuf_add b bigfile_name 3 m

unfoldable pub perf_ll_readdir : Call → ℕ → ℕ → ℤ → FileInfo → Exec Call
perf_ll_readdir c ino size off fi =
    if not (ino == 1)
    then fuse_reply_err c enotdir
    else perf_dirbuf c.mem >>= reply_dirbuf c off size

-- O_ACCMODE is 3 and O_RDONLY is 0. An inode that does not exist is opened too.
unfoldable pub perf_ll_open : Call → ℕ → FileInfo → Exec Call
perf_ll_open c ino fi =
    if ino == 1
    then fuse_reply_err c eisdir
    else if not (fi.flags % 4 == 0)
    then fuse_reply_err c eacces
    else fuse_reply_open c fi

-- The temporary buffer full of "A", the reply out of it, and its release.
unfoldable pub reply_filled : Call → ℕ → Bool × Mem → Exec Call
reply_filled c to_read (false, m) = fuse_reply_err (record c { mem = m }) enomem
reply_filled c to_read (true, m) =
    fuse_reply_buf (record c { mem = m }) (some (replicate to_read b'A')) to_read >>= λ d.
    ok (record d { mem = free d.mem })

unfoldable pub bytes_to_read : ℕ → ℕ → ℕ
bytes_to_read left size = if ltb size left then size else left

-- The size of the file less an offset below 0 is more than the size, and does not wrap round.
unfoldable pub read_bigfile : Call → ℕ → ℤ → Exec Call
unfolding reply_filled bytes_to_read
read_bigfile c size (pos off) =
    if leb bigfile_size off
    then fuse_reply_buf c none 0
    else reply_filled c (bytes_to_read (bigfile_size - off) size) (malloc c.mem)
read_bigfile c size (negsuc n) =
    reply_filled c (bytes_to_read (bigfile_size + suc n) size) (malloc c.mem)

unfoldable pub perf_ll_read : Call → ℕ → ℕ → ℤ → FileInfo → Exec Call
perf_ll_read c ino size off fi =
    if ino == 2
    then reply_buf_limited c hello_str (length hello_str) off size
    else if ino == 3
    then read_bigfile c size off
    else fuse_reply_err c eisdir

-- `hello_ll_oper`, the whole table.
unfoldable pub perf_ll_oper : LowlevelOps
perf_ll_oper = record {
  lookup = some (perf_ll_lookup 31);
  getattr = some perf_ll_getattr;
  opens = some perf_ll_open;
  read = some perf_ll_read;
  readdir = some perf_ll_readdir;
}
