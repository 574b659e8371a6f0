-- ===== src/Clients/Passes/Each.antt =====
-- apps/fuse-correctness-test/main.c: each test on the reference system.
use ukfs_fuse.Common.{ℕ, suc, ◌+◌, ◌%◌, ◌^◌, ◌≡◌, refl, true, ok}
use ukfs_fuse.Hello.{hello_stat}
use ukfs_fuse.Clients.{
  Suite, M, ◌>>=◌, ◌>>◌, pure, sys, run, if_failed, if_null, cond, test_pass, test_fail,
}
use ukfs_fuse.Clients.Checks.{check_type, check_size, check_ino, check_nonexist, check_data}
use ukfs_fuse.Clients.Attrs.{
  test_stat_root, test_stat_file, test_stat_enoent, test_fstat_file, test_open_enoent, open_enoent,
  test_open_dir, test_stat_after_read, test_stat_idempotent,
}
use ukfs_fuse.Clients.Read.{
  test_read_full, test_read_offset, test_read_eof, test_read_partial, test_read_sequential,
  test_two_fds,
}
use ukfs_fuse.Clients.Listing.{
  note_entry, scan_entries, test_readdir_contents, check_entry, check_entries, test_readdir_ino,
  drain, open_and_close, test_readdir_repeated,
}
use ukfs_fuse.Clients.Seek.{
  test_lseek_seek_set, test_lseek_seek_cur, test_lseek_seek_end, test_lseek_seek_end_size,
  test_pread_no_offset_change, test_pread_multiple_offsets, test_access,
}
use ukfs_fuse.Clients.Tree.{Tree, tree_posix, boot}

-- The suite when the tree is mounted and so many tests have passed.
abbrev pub ready : ℕ → Suite Tree
ready n = record {
  os = record (boot 0) { started = true; mounted = true };
  test_passed = n;
  test_failed = 0;
}

-- The test passes, and leaves the system as it was.
pub record Passes (t : M Tree (Unit {0})) : Type 0 where
  pub passes : (n : ℕ) → t (ready n) ≡ ok (tt, ready ((n + 1) % 2 ^ 32))

pub test_stat_root-Passes : Passes (test_stat_root tree_posix)
unfolding test_stat_root ◌>>=◌ ◌>>◌ sys run pure cond if_failed test_pass test_fail hello_stat
test_stat_root-Passes = record { passes = λ n. refl }

pub test_stat_file-Passes : Passes (test_stat_file tree_posix)
unfolding test_stat_file ◌>>=◌ ◌>>◌ sys run pure cond if_failed test_pass test_fail hello_stat
test_stat_file-Passes = record { passes = λ n. refl }

pub test_stat_enoent-Passes : Passes (test_stat_enoent tree_posix)
unfolding test_stat_enoent check_nonexist ◌>>=◌ ◌>>◌ sys run pure cond if_failed test_pass test_fail
    hello_stat
test_stat_enoent-Passes = record { passes = λ n. refl }

pub test_fstat_file-Passes : Passes (test_fstat_file tree_posix)
unfolding test_fstat_file ◌>>=◌ ◌>>◌ sys run pure cond if_failed test_pass test_fail hello_stat
test_fstat_file-Passes = record { passes = λ n. refl }

pub test_open_enoent-Passes : Passes (test_open_enoent tree_posix)
unfolding test_open_enoent open_enoent ◌>>=◌ ◌>>◌ sys run pure cond if_failed test_pass test_fail
    hello_stat
test_open_enoent-Passes = record { passes = λ n. refl }

pub test_open_dir-Passes : Passes (test_open_dir tree_posix)
unfolding test_open_dir ◌>>=◌ ◌>>◌ sys run pure cond if_failed test_pass test_fail hello_stat
test_open_dir-Passes = record { passes = λ n. refl }

pub test_stat_after_read-Passes : Passes (test_stat_after_read tree_posix)
unfolding test_stat_after_read check_type check_size check_ino ◌>>=◌ ◌>>◌ sys run pure cond
    if_failed test_pass test_fail hello_stat
test_stat_after_read-Passes = record { passes = λ n. refl }

pub test_stat_idempotent-Passes : Passes (test_stat_idempotent tree_posix)
unfolding test_stat_idempotent ◌>>=◌ ◌>>◌ sys run pure cond if_failed test_pass test_fail hello_stat
test_stat_idempotent-Passes = record { passes = λ n. refl }

pub test_read_full-Passes : Passes (test_read_full tree_posix)
unfolding test_read_full check_data ◌>>=◌ ◌>>◌ sys run pure cond if_failed test_pass test_fail
    hello_stat
test_read_full-Passes = record { passes = λ n. refl }

pub test_read_offset-Passes : Passes (test_read_offset tree_posix)
unfolding test_read_offset check_data ◌>>=◌ ◌>>◌ sys run pure cond if_failed test_pass test_fail
    hello_stat
test_read_offset-Passes = record { passes = λ n. refl }

pub test_read_eof-Passes : Passes (test_read_eof tree_posix)
unfolding test_read_eof ◌>>=◌ ◌>>◌ sys run pure cond if_failed test_pass test_fail hello_stat
test_read_eof-Passes = record { passes = λ n. refl }

pub test_read_partial-Passes : Passes (test_read_partial tree_posix)
unfolding test_read_partial check_data ◌>>=◌ ◌>>◌ sys run pure cond if_failed test_pass test_fail
    hello_stat
test_read_partial-Passes = record { passes = λ n. refl }

pub test_read_sequential-Passes : Passes (test_read_sequential tree_posix)
unfolding test_read_sequential ◌>>=◌ ◌>>◌ sys run pure cond if_failed test_pass test_fail hello_stat
test_read_sequential-Passes = record { passes = λ n. refl }

pub test_two_fds-Passes : Passes (test_two_fds tree_posix)
unfolding test_two_fds ◌>>=◌ ◌>>◌ sys run pure cond if_failed test_pass test_fail hello_stat
test_two_fds-Passes = record { passes = λ n. refl }

pub test_lseek_seek_set-Passes : Passes (test_lseek_seek_set tree_posix)
unfolding test_lseek_seek_set ◌>>=◌ ◌>>◌ sys run pure cond if_failed test_pass test_fail hello_stat
test_lseek_seek_set-Passes = record { passes = λ n. refl }

pub test_lseek_seek_cur-Passes : Passes (test_lseek_seek_cur tree_posix)
unfolding test_lseek_seek_cur ◌>>=◌ ◌>>◌ sys run pure cond if_failed test_pass test_fail hello_stat
test_lseek_seek_cur-Passes = record { passes = λ n. refl }

pub test_lseek_seek_end-Passes : Passes (test_lseek_seek_end tree_posix)
unfolding test_lseek_seek_end ◌>>=◌ ◌>>◌ sys run pure cond if_failed test_pass test_fail hello_stat
test_lseek_seek_end-Passes = record { passes = λ n. refl }

pub test_lseek_seek_end_size-Passes : Passes (test_lseek_seek_end_size tree_posix)
unfolding test_lseek_seek_end_size ◌>>=◌ ◌>>◌ sys run pure cond if_failed test_pass test_fail
    hello_stat
test_lseek_seek_end_size-Passes = record { passes = λ n. refl }

pub test_pread_no_offset_change-Passes : Passes (test_pread_no_offset_change tree_posix)
unfolding test_pread_no_offset_change ◌>>=◌ ◌>>◌ sys run pure cond if_failed test_pass test_fail
    hello_stat
test_pread_no_offset_change-Passes = record { passes = λ n. refl }

pub test_pread_multiple_offsets-Passes : Passes (test_pread_multiple_offsets tree_posix)
unfolding test_pread_multiple_offsets ◌>>=◌ ◌>>◌ sys run pure cond if_failed test_pass test_fail
    hello_stat
test_pread_multiple_offsets-Passes = record { passes = λ n. refl }

pub test_access-Passes : Passes (test_access tree_posix)
unfolding test_access ◌>>=◌ ◌>>◌ sys run pure cond if_failed test_pass test_fail hello_stat
test_access-Passes = record { passes = λ n. refl }

-- Four rounds of the loop are enough.
pub test_readdir_contents-Passes :
    (f : ℕ) → Passes (test_readdir_contents tree_posix (suc (suc (suc (suc f)))))
unfolding test_readdir_contents scan_entries note_entry ◌>>=◌ ◌>>◌ sys run pure cond if_failed
    test_pass test_fail hello_stat if_null
test_readdir_contents-Passes f = record { passes = λ n. refl }

-- Four rounds of the loop are enough.
pub test_readdir_ino-Passes :
    (f : ℕ) → Passes (test_readdir_ino tree_posix (suc (suc (suc (suc f)))))
unfolding test_readdir_ino check_entries check_entry ◌>>=◌ ◌>>◌ sys run pure cond if_failed
    test_pass test_fail hello_stat if_null
test_readdir_ino-Passes f = record { passes = λ n. refl }

-- Four rounds of the loop are enough.
pub test_readdir_repeated-Passes :
    (f : ℕ) → Passes (test_readdir_repeated tree_posix (suc (suc (suc (suc f)))))
unfolding test_readdir_repeated open_and_close drain ◌>>=◌ ◌>>◌ sys run pure cond if_failed
    test_pass test_fail hello_stat if_null
test_readdir_repeated-Passes f = record { passes = λ n. refl }

pub ruleset passing = (
  test_stat_root-Passes, test_stat_file-Passes, test_stat_enoent-Passes, test_fstat_file-Passes,
  test_open_enoent-Passes, test_open_dir-Passes, test_stat_after_read-Passes,
  test_stat_idempotent-Passes, test_read_full-Passes, test_read_offset-Passes, test_read_eof-Passes,
  test_read_partial-Passes, test_read_sequential-Passes, test_two_fds-Passes,
  test_lseek_seek_set-Passes, test_lseek_seek_cur-Passes, test_lseek_seek_end-Passes,
  test_lseek_seek_end_size-Passes, test_pread_no_offset_change-Passes,
  test_pread_multiple_offsets-Passes, test_access-Passes, test_readdir_contents-Passes,
  test_readdir_ino-Passes, test_readdir_repeated-Passes,
)
