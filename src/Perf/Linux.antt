-- ===== src/Perf/Linux.antt =====
-- apps/fuse-perf-test/linux_hello_ll.c: the backend of the Linux baseline, over the reply functions of
-- the host's libfuse, which are given.
use ukfs_fuse.Common.{
  ℕ, suc, ◌+◌, ◌-◌, ◌≡◌, refl, arith, Bool, true, false, not, Option, none, some, List, drop,
  replicate, leb, ◌==◌, ◌&&◌, same_bytes, if◌then◌else◌, Exec, ok, fault, ◌>>=◌, ℤ, pos, negsuc,
  Mem, malloc, free, length,
}
use ukfs_fuse.Errno.{enoent, eisdir, enomem}
use ukfs_fuse.Request.{Stat, zero_stat, EntryParam, entry_of}
use ukfs_fuse.Libfuse.{
  Call, FileInfo, fuse_reply_err, fuse_reply_attr, fuse_reply_entry, fuse_reply_open,
  fuse_reply_buf,
}
use ukfs_fuse.Hello.{hello_str, hello_name, root_mode, hello_mode, reply_buf_limited}
use ukfs_fuse.Perf.{
  bigfile_name, bigfile_size, bytes_to_read, perf_stat, perf_ll_getattr, perf_ll_lookup,
  reply_filled, read_bigfile, perf_ll_read,
}

-- The reply functions of a libfuse.
pub record Replies : Type 0 where
  pub reply_err : Call → ℕ → Exec Call
  pub reply_attr : Call → Stat → Exec Call
  pub reply_entry : Call → EntryParam → Exec Call
  pub reply_open : Call → FileInfo → Exec Call
  pub reply_buf : Call → Option (List ℕ) → ℕ → Exec Call

module _ (r : Replies) where
  unfoldable pub linux_ll_getattr : Call → ℕ → Option ℕ → Exec Call
  linux_ll_getattr c ino fi =
      let stbuf = record zero_stat { st_ino = ino } in
      if ino == 1
      then r.reply_attr c (record stbuf { st_mode = root_mode; st_nlink = 2 })
      else if ino == 2
      then r.reply_attr c
          (record stbuf { st_mode = hello_mode; st_nlink = 1; st_size = length hello_str })
      else if ino == 3
      then r.reply_attr c
          (record stbuf { st_mode = hello_mode; st_nlink = 1; st_size = bigfile_size })
      else r.reply_err c enoent

  -- An entry for a file of this inode and size.
  abbrev file_entry : ℕ → ℕ → EntryParam
  file_entry ino size =
      entry_of 0 ino
        (record zero_stat { st_ino = ino; st_mode = hello_mode; st_nlink = 1; st_size = size })

  unfoldable pub linux_ll_lookup : Call → ℕ → List ℕ → Exec Call
  linux_ll_lookup c parent name =
      if parent == 1 && same_bytes name hello_name
      then r.reply_entry c (file_entry 2 (length hello_str))
      else if parent == 1 && same_bytes name bigfile_name
      then r.reply_entry c (file_entry 3 bigfile_size)
      else r.reply_err c enoent

  -- A reply out of the string. In front of the string is a fault.
  unfoldable pub linux_read_hello : Call → ℕ → ℤ → Exec Call
  linux_read_hello c size (pos off) =
      if leb (length hello_str) off
      then r.reply_buf c none 0
      else r.reply_buf c (some (drop off hello_str)) (bytes_to_read (length hello_str - off) size)
  linux_read_hello c size (negsuc n) = fault

  unfoldable pub linux_filled : Call → ℕ → Bool × Mem → Exec Call
  linux_filled c to_read (false, m) = r.reply_err (record c { mem = m }) enomem
  linux_filled c to_read (true, m) =
      r.reply_buf (record c { mem = m }) (some (replicate to_read b'A')) to_read >>= λ d.
      ok (record d { mem = free d.mem })

  unfoldable pub linux_read_bigfile : Call → ℕ → ℤ → Exec Call
  linux_read_bigfile c size (pos off) =
      if leb bigfile_size off
      then r.reply_buf c none 0
      else linux_filled c (bytes_to_read (bigfile_size - off) size) (malloc c.mem)
  linux_read_bigfile c size (negsuc n) =
      linux_filled c (bytes_to_read (bigfile_size + suc n) size) (malloc c.mem)

  unfoldable pub linux_ll_read : Call → ℕ → ℕ → ℤ → FileInfo → Exec Call
  linux_ll_read c ino size off fi =
      if ino == 2
      then linux_read_hello c size off
      else if ino == 3
      then linux_read_bigfile c size off
      else r.reply_err c eisdir

  -- `direct_io` is a flag for the Linux kernel, which a `FileInfo` here does not have.
  unfoldable pub linux_ll_open : Call → ℕ → FileInfo → Exec Call
  linux_ll_open c ino fi =
      if not (ino == 2) && not (ino == 3) then r.reply_err c eisdir else r.reply_open c fi

-- The entry, valid for a second.
abbrev pub for_a_second : EntryParam → EntryParam
for_a_second e = record e { attr_timeout = 1; entry_timeout = 1 }

-- The replies of the libfuse that is bundled for Unikraft.
abbrev pub bundled : Replies
bundled = record {
  reply_err = fuse_reply_err;
  reply_attr = fuse_reply_attr;
  reply_entry = fuse_reply_entry 31;
  reply_open = fuse_reply_open;
  reply_buf = fuse_reply_buf;
}

-- The same, where a reply to a lookup sets both timeouts to a second.
abbrev pub cached : Replies
cached = record bundled { reply_entry = λ c e. fuse_reply_entry 31 c (for_a_second e) }

filled_same : (c : Call) (n : ℕ) (r : Bool × Mem) → linux_filled bundled c n r ≡ reply_filled c n r
unfolding linux_filled reply_filled
filled_same c n (false, m) = refl
filled_same c n (true, m) = refl

bigfile_same :
    (c : Call) (size : ℕ) (off : ℤ)
    → linux_read_bigfile bundled c size off ≡ read_bigfile c size off
unfolding linux_read_bigfile read_bigfile
bigfile_same c size (pos off) = rw (filled_same c)
bigfile_same c size (negsuc n) = filled_same c _ _

hello_same :
    (c : Call) (size : ℕ) (off : ℤ)
    → linux_read_hello bundled c size off
      ≡ reply_buf_limited c hello_str (length hello_str) off size
unfolding linux_read_hello reply_buf_limited bytes_to_read
hello_same c size (pos off) = ground arith
hello_same c size (negsuc n) = refl

-- With the reply functions of the bundled libfuse, the handlers getattr and read of the Linux
-- baseline do exactly what those of the backend of the performance tests do, whatever their
-- arguments and whatever malloc refuses; and so does lookup where the reply to it sets the two
-- timeouts of the entry to the second that the other backend gives.
pub linux_same :
    (c : Call) (ino parent size : ℕ) (name : List ℕ) (off : ℤ) (fi : FileInfo)
    → (linux_ll_getattr bundled c ino none ≡ perf_ll_getattr c ino none)
      × (linux_ll_lookup cached c parent name ≡ perf_ll_lookup 31 c parent name)
      × (linux_ll_read bundled c ino size off fi ≡ perf_ll_read c ino size off fi)
unfolding linux_ll_getattr perf_ll_getattr linux_ll_lookup perf_ll_lookup linux_ll_read perf_ll_read
    perf_stat
linux_same c ino parent size name off fi =
    (ground arith, ground arith, rw (hello_same c size off, bigfile_same c size off))
