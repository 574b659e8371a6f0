-- ===== src/Clients/Attrs.antt =====
-- apps/fuse-correctness-test/main.c: the tests T1 to T6, T15 and T16, on attributes.
use ukfs_fuse.Common.{ℕ, Bool, not, ltb, ◌==◌, ◌&&◌}
use ukfs_fuse.Errno.{enoent}
use ukfs_fuse.Request.{Stat}
use ukfs_fuse.Clients.{
  Posix, M, ◌>>=◌, ◌>>◌, sys, run, if_failed, cond, test_pass, test_fail, Ret, done, failed,
  s_ifdir, s_ifreg, type_bits, permissions, root_path, hello_path, nonexistent_path,
}
use ukfs_fuse.Clients.Checks.{check_type, check_size, check_ino, check_nonexist}

-- The fields that T4 and T16 compare.
abbrev same_fields : Stat → Stat → Bool
same_fields a b = a.st_ino == b.st_ino && a.st_mode == b.st_mode && a.st_size == b.st_size

module _ {S : Type 0} (p : Posix S) where
  unfoldable pub test_stat_root : M S (Unit {0})
  test_stat_root = do
    r ← sys (p.stat root_path)
    if_failed r test_fail (λ st.
        cond (not (type_bits st.st_mode == s_ifdir)) test_fail
          (cond (not (st.st_ino == 1)) test_fail (cond (ltb st.st_nlink 2) test_fail test_pass)))

  unfoldable pub test_stat_file : M S (Unit {0})
  test_stat_file = do
    r ← sys (p.stat hello_path)
    if_failed r test_fail (λ st. cond (not (type_bits st.st_mode == s_ifreg)) test_fail (
        cond (not (permissions st.st_mode == 0o444)) test_fail (
          cond (not (st.st_ino == 2)) test_fail (
            cond (not (st.st_nlink == 1)) test_fail
              (cond (not (st.st_size == 13)) test_fail test_pass)))))

  unfoldable pub test_stat_enoent : M S (Unit {0})
  test_stat_enoent = do
    absent ← check_nonexist p nonexistent_path
    cond (not absent) test_fail test_pass

  unfoldable pub test_fstat_file : M S (Unit {0})
  test_fstat_file = do
    r ← sys (p.stat hello_path)
    if_failed r test_fail (λ st_path. do
      fd ← sys (p.open_rdonly hello_path)
      if_failed fd test_fail (λ fd. do
        r ← sys (p.fstat fd)
        if_failed r (do test_fail; run (p.close fd))
            (λ st_fd. do
              run (p.close fd)
              cond (not (same_fields st_fd st_path && st_fd.st_nlink == st_path.st_nlink)) test_fail
                  test_pass)))

  -- Whether a failed open has set another errno than ENOENT.
  abbrev is_other_error : ℕ → Bool
  is_other_error e = not (e == enoent)

  unfoldable pub open_enoent : Ret ℕ → M S (Unit {0})
  open_enoent (done fd) = do test_fail; run (p.close fd)
  open_enoent (failed e) = cond (is_other_error e) test_fail test_pass

  unfoldable pub test_open_enoent : M S (Unit {0})
  test_open_enoent = do fd ← sys (p.open_rdonly nonexistent_path); open_enoent fd

  unfoldable pub test_open_dir : M S (Unit {0})
  test_open_dir = do
    fd ← sys (p.open_rdonly root_path)
    if_failed fd test_fail (λ fd. do
      r ← sys (p.fstat fd)
      if_failed r (do test_fail; run (p.close fd))
          (λ st. do
            run (p.close fd)
            cond (not (type_bits st.st_mode == s_ifdir)) test_fail test_pass))

  -- A check is made only if the ones before it have passed.
  unfoldable pub test_stat_after_read : M S (Unit {0})
  test_stat_after_read = do
    fd ← sys (p.open_rdonly hello_path)
    if_failed fd test_fail (λ fd. do
      sys (p.read fd 5)
      run (p.close fd)
      regular ← check_type p hello_path s_ifreg
      cond (not regular) test_fail (do
        sized ← check_size p hello_path 13
        cond (not sized) test_fail
            (do numbered ← check_ino p hello_path 2; cond (not numbered) test_fail test_pass)))

  unfoldable pub test_stat_idempotent : M S (Unit {0})
  test_stat_idempotent = do
    r ← sys (p.stat hello_path)
    if_failed r test_fail (λ st0. do
      r ← sys (p.stat hello_path)
      if_failed r test_fail (λ st1. do
        r ← sys (p.stat hello_path)
        if_failed r test_fail
            (λ st2. cond (not (same_fields st0 st1 && same_fields st1 st2)) test_fail test_pass)))
