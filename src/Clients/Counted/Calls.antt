-- ===== src/Clients/Counted/Calls.antt =====
-- apps/fuse-correctness-test/main.c: each test counts itself once, whatever the system calls return.
use ukfs_fuse.Common.{ℕ, List}
use ukfs_fuse.Clients.{Posix, Ret, done, failed}
use ukfs_fuse.Clients.Counted.{Adds, adds}
use ukfs_fuse.Clients.Checks.{check_type, check_size, check_ino, check_nonexist, check_data}
use ukfs_fuse.Clients.Attrs.{
  test_stat_root, test_stat_file, test_stat_enoent, test_fstat_file, test_open_enoent, open_enoent,
  test_open_dir, test_stat_after_read, test_stat_idempotent,
}
use ukfs_fuse.Clients.Read.{
  test_read_full, test_read_offset, test_read_eof, test_read_partial, test_read_sequential,
  test_two_fds,
}
use ukfs_fuse.Clients.Seek.{
  test_lseek_seek_set, test_lseek_seek_cur, test_lseek_seek_end, test_lseek_seek_end_size,
  test_pread_no_offset_change, test_pread_multiple_offsets, test_access,
}

module _ {S : Type 0} (p : Posix S) where
  Adds-check_type : (path : List ℕ) (n : ℕ) → Adds 0 (check_type p path n)
  unfolding check_type
  Adds-check_type path n = search adds

  Adds-check_size : (path : List ℕ) (n : ℕ) → Adds 0 (check_size p path n)
  unfolding check_size
  Adds-check_size path n = search adds

  Adds-check_ino : (path : List ℕ) (n : ℕ) → Adds 0 (check_ino p path n)
  unfolding check_ino
  Adds-check_ino path n = search adds

  Adds-check_nonexist : (path : List ℕ) → Adds 0 (check_nonexist p path)
  unfolding check_nonexist
  Adds-check_nonexist path = search adds

  Adds-check_data : (path buf : List ℕ) (off n : ℕ) → Adds 0 (check_data p path buf off n)
  unfolding check_data
  Adds-check_data path buf off n = search adds depth 30 fits 3000

  Adds-open_enoent : (r : Ret ℕ) → Adds 1 (open_enoent p r)
  unfolding open_enoent
  Adds-open_enoent (done fd) = search adds
  Adds-open_enoent (failed e) = search adds

  pub Adds-test_open_enoent : Adds 1 (test_open_enoent p)
  unfolding test_open_enoent
  Adds-test_open_enoent = search (adds, Adds-open_enoent)

  pub Adds-test_stat_root : Adds 1 (test_stat_root p)
  unfolding test_stat_root
  Adds-test_stat_root = search adds depth 30 fits 3000

  pub Adds-test_stat_file : Adds 1 (test_stat_file p)
  unfolding test_stat_file
  Adds-test_stat_file = search adds depth 30 fits 3000

  pub Adds-test_stat_enoent : Adds 1 (test_stat_enoent p)
  unfolding test_stat_enoent
  Adds-test_stat_enoent = search (adds, Adds-check_nonexist) depth 30 fits 3000

  pub Adds-test_fstat_file : Adds 1 (test_fstat_file p)
  unfolding test_fstat_file
  Adds-test_fstat_file = search adds depth 30 fits 3000

  pub Adds-test_open_dir : Adds 1 (test_open_dir p)
  unfolding test_open_dir
  Adds-test_open_dir = search adds depth 30 fits 3000

  pub Adds-test_stat_after_read : Adds 1 (test_stat_after_read p)
  unfolding test_stat_after_read
  Adds-test_stat_after_read =
      search (adds, Adds-check_type, Adds-check_size, Adds-check_ino) depth 30 fits 3000

  pub Adds-test_stat_idempotent : Adds 1 (test_stat_idempotent p)
  unfolding test_stat_idempotent
  Adds-test_stat_idempotent = search adds depth 30 fits 3000

  pub Adds-test_read_full : Adds 1 (test_read_full p)
  unfolding test_read_full
  Adds-test_read_full = search (adds, Adds-check_data) depth 30 fits 3000

  pub Adds-test_read_offset : Adds 1 (test_read_offset p)
  unfolding test_read_offset
  Adds-test_read_offset = search (adds, Adds-check_data) depth 30 fits 3000

  pub Adds-test_read_eof : Adds 1 (test_read_eof p)
  unfolding test_read_eof
  Adds-test_read_eof = search adds depth 30 fits 3000

  pub Adds-test_read_partial : Adds 1 (test_read_partial p)
  unfolding test_read_partial
  Adds-test_read_partial = search (adds, Adds-check_data) depth 30 fits 3000

  pub Adds-test_read_sequential : Adds 1 (test_read_sequential p)
  unfolding test_read_sequential
  Adds-test_read_sequential = search adds depth 30 fits 3000

  pub Adds-test_two_fds : Adds 1 (test_two_fds p)
  unfolding test_two_fds
  Adds-test_two_fds = search adds depth 30 fits 3000

  pub Adds-test_lseek_seek_set : Adds 1 (test_lseek_seek_set p)
  unfolding test_lseek_seek_set
  Adds-test_lseek_seek_set = search adds depth 30 fits 3000

  pub Adds-test_lseek_seek_cur : Adds 1 (test_lseek_seek_cur p)
  unfolding test_lseek_seek_cur
  Adds-test_lseek_seek_cur = search adds depth 30 fits 3000

  pub Adds-test_lseek_seek_end : Adds 1 (test_lseek_seek_end p)
  unfolding test_lseek_seek_end
  Adds-test_lseek_seek_end = search adds depth 30 fits 3000

  pub Adds-test_lseek_seek_end_size : Adds 1 (test_lseek_seek_end_size p)
  unfolding test_lseek_seek_end_size
  Adds-test_lseek_seek_end_size = search adds depth 30 fits 3000

  pub Adds-test_pread_no_offset_change : Adds 1 (test_pread_no_offset_change p)
  unfolding test_pread_no_offset_change
  Adds-test_pread_no_offset_change = search adds depth 30 fits 3000

  pub Adds-test_pread_multiple_offsets : Adds 1 (test_pread_multiple_offsets p)
  unfolding test_pread_multiple_offsets
  Adds-test_pread_multiple_offsets = search adds depth 30 fits 3000

  pub Adds-test_access : Adds 1 (test_access p)
  unfolding test_access
  Adds-test_access = search adds depth 30 fits 3000

pub ruleset counted_calls = (
  Adds-test_open_enoent, Adds-test_stat_root, Adds-test_stat_file, Adds-test_stat_enoent,
  Adds-test_fstat_file, Adds-test_open_dir, Adds-test_stat_after_read, Adds-test_stat_idempotent,
  Adds-test_read_full, Adds-test_read_offset, Adds-test_read_eof, Adds-test_read_partial,
  Adds-test_read_sequential, Adds-test_two_fds, Adds-test_lseek_seek_set, Adds-test_lseek_seek_cur,
  Adds-test_lseek_seek_end, Adds-test_lseek_seek_end_size, Adds-test_pread_no_offset_change,
  Adds-test_pread_multiple_offsets, Adds-test_access,
)
