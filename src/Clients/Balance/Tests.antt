-- ===== src/Clients/Balance/Tests.antt =====
-- apps/fuse-correctness-test/main.c: the tests without loops close what they open, whatever the calls
-- return.
use ukfs_fuse.Common.{ℕ, List}
use ukfs_fuse.Clients.{Posix, nonexistent_path}
use ukfs_fuse.Clients.Balance.{track, Owes, Owes-open}
use ukfs_fuse.Clients.Balance.Calls.{owed_calls}
use ukfs_fuse.Clients.Checks.{check_type, check_size, check_ino, check_nonexist, check_data}
use ukfs_fuse.Clients.Attrs.{
  test_stat_root, test_stat_file, test_stat_enoent, test_fstat_file, test_open_enoent, open_enoent,
  test_open_dir, test_stat_after_read, test_stat_idempotent,
}
use ukfs_fuse.Clients.Read.{
  test_read_full, test_read_offset, test_read_eof, test_read_partial, test_read_sequential,
  test_two_fds,
}
use ukfs_fuse.Clients.Seek.{
  test_lseek_seek_set, test_lseek_seek_cur, test_lseek_seek_end, test_lseek_seek_end_size,
  test_pread_no_offset_change, test_pread_multiple_offsets, test_access,
}

module _ {S : Type 0} (p : Posix S) where
  Owes-check_type : (path : List ℕ) (n : ℕ) → Owes 0 (check_type (track p) path n)
  unfolding check_type
  Owes-check_type path n = search owed_calls depth 40 fits 8000

  Owes-check_size : (path : List ℕ) (n : ℕ) → Owes 0 (check_size (track p) path n)
  unfolding check_size
  Owes-check_size path n = search owed_calls depth 40 fits 8000

  Owes-check_ino : (path : List ℕ) (n : ℕ) → Owes 0 (check_ino (track p) path n)
  unfolding check_ino
  Owes-check_ino path n = search owed_calls depth 40 fits 8000

  Owes-check_nonexist : (path : List ℕ) → Owes 0 (check_nonexist (track p) path)
  unfolding check_nonexist
  Owes-check_nonexist path = search owed_calls depth 40 fits 8000

  Owes-check_data : (path buf : List ℕ) (off n : ℕ) → Owes 0 (check_data (track p) path buf off n)
  unfolding check_data
  Owes-check_data path buf off n = search owed_calls depth 40 fits 8000

  pub Owes-test_open_enoent : Owes 0 (test_open_enoent (track p))
  unfolding test_open_enoent open_enoent
  Owes-test_open_enoent =
      Owes-open (p.open_rdonly nonexistent_path) (open_enoent (track p)) (λ e. search owed_calls)
        (λ fd. search owed_calls)

  pub Owes-test_stat_root : Owes 0 (test_stat_root (track p))
  unfolding test_stat_root
  Owes-test_stat_root = search owed_calls depth 40 fits 8000

  pub Owes-test_stat_file : Owes 0 (test_stat_file (track p))
  unfolding test_stat_file
  Owes-test_stat_file = search owed_calls depth 40 fits 8000

  pub Owes-test_stat_enoent : Owes 0 (test_stat_enoent (track p))
  unfolding test_stat_enoent
  Owes-test_stat_enoent = search (owed_calls, Owes-check_nonexist) depth 40 fits 8000

  pub Owes-test_fstat_file : Owes 0 (test_fstat_file (track p))
  unfolding test_fstat_file
  Owes-test_fstat_file = search owed_calls depth 40 fits 8000

  pub Owes-test_open_dir : Owes 0 (test_open_dir (track p))
  unfolding test_open_dir
  Owes-test_open_dir = search owed_calls depth 40 fits 8000

  pub Owes-test_stat_after_read : Owes 0 (test_stat_after_read (track p))
  unfolding test_stat_after_read
  Owes-test_stat_after_read =
      search (owed_calls, Owes-check_type, Owes-check_size, Owes-check_ino) depth 40 fits 8000

  pub Owes-test_stat_idempotent : Owes 0 (test_stat_idempotent (track p))
  unfolding test_stat_idempotent
  Owes-test_stat_idempotent = search owed_calls depth 40 fits 8000

  pub Owes-test_read_full : Owes 0 (test_read_full (track p))
  unfolding test_read_full
  Owes-test_read_full = search (owed_calls, Owes-check_data) depth 40 fits 8000

  pub Owes-test_read_offset : Owes 0 (test_read_offset (track p))
  unfolding test_read_offset
  Owes-test_read_offset = search (owed_calls, Owes-check_data) depth 40 fits 8000

  pub Owes-test_read_eof : Owes 0 (test_read_eof (track p))
  unfolding test_read_eof
  Owes-test_read_eof = search owed_calls depth 40 fits 8000

  pub Owes-test_read_partial : Owes 0 (test_read_partial (track p))
  unfolding test_read_partial
  Owes-test_read_partial = search (owed_calls, Owes-check_data) depth 40 fits 8000

  pub Owes-test_read_sequential : Owes 0 (test_read_sequential (track p))
  unfolding test_read_sequential
  Owes-test_read_sequential = search owed_calls depth 40 fits 8000

  pub Owes-test_two_fds : Owes 0 (test_two_fds (track p))
  unfolding test_two_fds
  Owes-test_two_fds = search owed_calls depth 40 fits 8000

  pub Owes-test_lseek_seek_set : Owes 0 (test_lseek_seek_set (track p))
  unfolding test_lseek_seek_set
  Owes-test_lseek_seek_set = search owed_calls depth 40 fits 8000

  pub Owes-test_lseek_seek_cur : Owes 0 (test_lseek_seek_cur (track p))
  unfolding test_lseek_seek_cur
  Owes-test_lseek_seek_cur = search owed_calls depth 40 fits 8000

  pub Owes-test_lseek_seek_end : Owes 0 (test_lseek_seek_end (track p))
  unfolding test_lseek_seek_end
  Owes-test_lseek_seek_end = search owed_calls depth 40 fits 8000

  pub Owes-test_lseek_seek_end_size : Owes 0 (test_lseek_seek_end_size (track p))
  unfolding test_lseek_seek_end_size
  Owes-test_lseek_seek_end_size = search owed_calls depth 40 fits 8000

  pub Owes-test_pread_no_offset_change : Owes 0 (test_pread_no_offset_change (track p))
  unfolding test_pread_no_offset_change
  Owes-test_pread_no_offset_change = search owed_calls depth 40 fits 8000

  pub Owes-test_pread_multiple_offsets : Owes 0 (test_pread_multiple_offsets (track p))
  unfolding test_pread_multiple_offsets
  Owes-test_pread_multiple_offsets = search owed_calls depth 40 fits 8000

  pub Owes-test_access : Owes 0 (test_access (track p))
  unfolding test_access
  Owes-test_access = search owed_calls depth 40 fits 8000

pub ruleset owed_tests = (
  Owes-test_open_enoent, Owes-test_stat_root, Owes-test_stat_file, Owes-test_stat_enoent,
  Owes-test_fstat_file, Owes-test_open_dir, Owes-test_stat_after_read, Owes-test_stat_idempotent,
  Owes-test_read_full, Owes-test_read_offset, Owes-test_read_eof, Owes-test_read_partial,
  Owes-test_read_sequential, Owes-test_two_fds, Owes-test_lseek_seek_set, Owes-test_lseek_seek_cur,
  Owes-test_lseek_seek_end, Owes-test_lseek_seek_end_size, Owes-test_pread_no_offset_change,
  Owes-test_pread_multiple_offsets, Owes-test_access,
)
