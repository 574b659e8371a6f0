-- ===== src/Clients/Simulation/Tests.antt =====
-- apps/fuse-correctness-test/main.c: the tests without loops, over two systems of which one refines
-- the other.
use ukfs_fuse.Common.{ℕ, List}
use ukfs_fuse.Clients.{Posix, Ret, done, failed}
use ukfs_fuse.Clients.Simulation.{Refines, Sim}
use ukfs_fuse.Clients.Checks.{check_type, check_size, check_ino, check_nonexist, check_data}
use ukfs_fuse.Clients.Attrs.{
  test_stat_root, test_stat_file, test_stat_enoent, test_fstat_file, test_open_enoent, open_enoent,
  test_open_dir, test_stat_after_read, test_stat_idempotent,
}
use ukfs_fuse.Clients.Read.{
  test_read_full, test_read_offset, test_read_eof, test_read_partial, test_read_sequential,
  test_two_fds,
}
use ukfs_fuse.Clients.Seek.{
  test_lseek_seek_set, test_lseek_seek_cur, test_lseek_seek_end, test_lseek_seek_end_size,
  test_pread_no_offset_change, test_pread_multiple_offsets, test_access,
}
use ukfs_fuse.Clients.Simulation.Calls.{calls}

module _ {S T : Type 0} (p : Posix S) (q : Posix T) (view : S → T) (r : Refines p q view) where
  pub Sim-check_type :
      (path : List ℕ) (n : ℕ) → Sim view (check_type p path n) (check_type q path n)
  unfolding check_type
  Sim-check_type path n = search calls depth 30 fits 3000

  pub Sim-check_size :
      (path : List ℕ) (n : ℕ) → Sim view (check_size p path n) (check_size q path n)
  unfolding check_size
  Sim-check_size path n = search calls depth 30 fits 3000

  pub Sim-check_ino : (path : List ℕ) (n : ℕ) → Sim view (check_ino p path n) (check_ino q path n)
  unfolding check_ino
  Sim-check_ino path n = search calls depth 30 fits 3000

  pub Sim-check_nonexist :
      (path : List ℕ) → Sim view (check_nonexist p path) (check_nonexist q path)
  unfolding check_nonexist
  Sim-check_nonexist path = search calls depth 30 fits 3000

  pub Sim-check_data :
      (path buf : List ℕ) (off n : ℕ)
      → Sim view (check_data p path buf off n) (check_data q path buf off n)
  unfolding check_data
  Sim-check_data path buf off n = search calls depth 30 fits 3000

  pub Sim-open_enoent : (fd : Ret ℕ) → Sim view (open_enoent p fd) (open_enoent q fd)
  unfolding open_enoent
  Sim-open_enoent (done fd) = search calls
  Sim-open_enoent (failed e) = search calls

  pub Sim-test_open_enoent : Sim view (test_open_enoent p) (test_open_enoent q)
  unfolding test_open_enoent
  Sim-test_open_enoent = search (calls, Sim-open_enoent)

  pub Sim-test_stat_root : Sim view (test_stat_root p) (test_stat_root q)
  unfolding test_stat_root
  Sim-test_stat_root = search calls depth 30 fits 3000

  pub Sim-test_stat_file : Sim view (test_stat_file p) (test_stat_file q)
  unfolding test_stat_file
  Sim-test_stat_file = search calls depth 30 fits 3000

  pub Sim-test_stat_enoent : Sim view (test_stat_enoent p) (test_stat_enoent q)
  unfolding test_stat_enoent
  Sim-test_stat_enoent = search (calls, Sim-check_nonexist) depth 30 fits 3000

  pub Sim-test_fstat_file : Sim view (test_fstat_file p) (test_fstat_file q)
  unfolding test_fstat_file
  Sim-test_fstat_file = search calls depth 30 fits 3000

  pub Sim-test_open_dir : Sim view (test_open_dir p) (test_open_dir q)
  unfolding test_open_dir
  Sim-test_open_dir = search calls depth 30 fits 3000

  pub Sim-test_stat_after_read : Sim view (test_stat_after_read p) (test_stat_after_read q)
  unfolding test_stat_after_read
  Sim-test_stat_after_read =
      search (calls, Sim-check_type, Sim-check_size, Sim-check_ino) depth 30 fits 3000

  pub Sim-test_stat_idempotent : Sim view (test_stat_idempotent p) (test_stat_idempotent q)
  unfolding test_stat_idempotent
  Sim-test_stat_idempotent = search calls depth 30 fits 3000

  pub Sim-test_read_full : Sim view (test_read_full p) (test_read_full q)
  unfolding test_read_full
  Sim-test_read_full = search (calls, Sim-check_data) depth 30 fits 3000

  pub Sim-test_read_offset : Sim view (test_read_offset p) (test_read_offset q)
  unfolding test_read_offset
  Sim-test_read_offset = search (calls, Sim-check_data) depth 30 fits 3000

  pub Sim-test_read_eof : Sim view (test_read_eof p) (test_read_eof q)
  unfolding test_read_eof
  Sim-test_read_eof = search calls depth 30 fits 3000

  pub Sim-test_read_partial : Sim view (test_read_partial p) (test_read_partial q)
  unfolding test_read_partial
  Sim-test_read_partial = search (calls, Sim-check_data) depth 30 fits 3000

  pub Sim-test_read_sequential : Sim view (test_read_sequential p) (test_read_sequential q)
  unfolding test_read_sequential
  Sim-test_read_sequential = search calls depth 30 fits 3000

  pub Sim-test_two_fds : Sim view (test_two_fds p) (test_two_fds q)
  unfolding test_two_fds
  Sim-test_two_fds = search calls depth 30 fits 3000

  pub Sim-test_lseek_seek_set : Sim view (test_lseek_seek_set p) (test_lseek_seek_set q)
  unfolding test_lseek_seek_set
  Sim-test_lseek_seek_set = search calls depth 30 fits 3000

  pub Sim-test_lseek_seek_cur : Sim view (test_lseek_seek_cur p) (test_lseek_seek_cur q)
  unfolding test_lseek_seek_cur
  Sim-test_lseek_seek_cur = search calls depth 30 fits 3000

  pub Sim-test_lseek_seek_end : Sim view (test_lseek_seek_end p) (test_lseek_seek_end q)
  unfolding test_lseek_seek_end
  Sim-test_lseek_seek_end = search calls depth 30 fits 3000

  pub Sim-test_lseek_seek_end_size :
      Sim view (test_lseek_seek_end_size p) (test_lseek_seek_end_size q)
  unfolding test_lseek_seek_end_size
  Sim-test_lseek_seek_end_size = search calls depth 30 fits 3000

  pub Sim-test_pread_no_offset_change :
      Sim view (test_pread_no_offset_change p) (test_pread_no_offset_change q)
  unfolding test_pread_no_offset_change
  Sim-test_pread_no_offset_change = search calls depth 30 fits 3000

  pub Sim-test_pread_multiple_offsets :
      Sim view (test_pread_multiple_offsets p) (test_pread_multiple_offsets q)
  unfolding test_pread_multiple_offsets
  Sim-test_pread_multiple_offsets = search calls depth 30 fits 3000

  pub Sim-test_access : Sim view (test_access p) (test_access q)
  unfolding test_access
  Sim-test_access = search calls depth 30 fits 3000

pub ruleset single_tests = (
  Sim-test_open_enoent, Sim-test_stat_root, Sim-test_stat_file, Sim-test_stat_enoent,
  Sim-test_fstat_file, Sim-test_open_dir, Sim-test_stat_after_read, Sim-test_stat_idempotent,
  Sim-test_read_full, Sim-test_read_offset, Sim-test_read_eof, Sim-test_read_partial,
  Sim-test_read_sequential, Sim-test_two_fds, Sim-test_lseek_seek_set, Sim-test_lseek_seek_cur,
  Sim-test_lseek_seek_end, Sim-test_lseek_seek_end_size, Sim-test_pread_no_offset_change,
  Sim-test_pread_multiple_offsets, Sim-test_access,
)
