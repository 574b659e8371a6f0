-- ===== src/Clients/Seek.antt =====
-- apps/fuse-correctness-test/main.c: the tests T17 to T23, on lseek, pread and access.
use ukfs_fuse.Common.{ℕ, ◌+◌, not, List, [], ◌∷◌, ◌==◌, if◌then◌else◌}
use ukfs_fuse.Errno.{enoent}
use ukfs_fuse.Clients.{
  Posix, M, ◌>>=◌, ◌>>◌, sys, run, if_failed, cond, test_pass, test_fail, Ret, done, failed, is_at,
  stored, forward, backward, seek_set, seek_cur, seek_end, root_path, hello_path, nonexistent_path,
}
use ukfs_fuse.Clients.Read.{hello_word, orld}

-- "World!" and "rld!\n"
abbrev world : List ℕ
world = b'W' ∷ b'o' ∷ b'r' ∷ b'l' ∷ b'd' ∷ b'!' ∷ []

abbrev rld : List ℕ
rld = b'r' ∷ b'l' ∷ b'd' ∷ b'!' ∷ 10 ∷ []

module _ {S : Type 0} (p : Posix S) where
  unfoldable pub test_lseek_seek_set : M S (Unit {0})
  test_lseek_seek_set = do
    fd ← sys (p.open_rdonly hello_path)
    if_failed fd test_fail (λ fd. do
      pos ← sys (p.lseek fd (forward 6) seek_set)
      cond (not (is_at pos 6)) (do test_fail; run (p.close fd))
          (do
            n ← sys (p.read fd 6)
            run (p.close fd)
            cond (not (stored n 6 world)) test_fail test_pass))

  unfoldable pub test_lseek_seek_cur : M S (Unit {0})
  test_lseek_seek_cur = do
    fd ← sys (p.open_rdonly hello_path)
    if_failed fd test_fail (λ fd. do
      sys (p.read fd 5)
      pos ← sys (p.lseek fd (forward 3) seek_cur)
      cond (not (is_at pos 8)) (do test_fail; run (p.close fd))
          (do
            n ← sys (p.read fd 5)
            run (p.close fd)
            cond (not (stored n 5 rld)) test_fail test_pass))

  unfoldable pub test_lseek_seek_end : M S (Unit {0})
  test_lseek_seek_end = do
    fd ← sys (p.open_rdonly hello_path)
    if_failed fd test_fail (λ fd. do
      pos ← sys (p.lseek fd (backward 5) seek_end)
      cond (not (is_at pos 8)) (do test_fail; run (p.close fd))
          (do
            n ← sys (p.read fd 5)
            run (p.close fd)
            cond (not (stored n 5 rld)) test_fail test_pass))

  unfoldable pub test_lseek_seek_end_size : M S (Unit {0})
  test_lseek_seek_end_size = do
    fd ← sys (p.open_rdonly hello_path)
    if_failed fd test_fail (λ fd. do
      pos ← sys (p.lseek fd (forward 0) seek_end)
      run (p.close fd)
      cond (not (is_at pos 13)) test_fail test_pass)

  unfoldable pub test_pread_no_offset_change : M S (Unit {0})
  test_pread_no_offset_change = do
    fd ← sys (p.open_rdonly hello_path)
    if_failed fd test_fail (λ fd. do
      sys (p.lseek fd (forward 3) seek_set)
      n ← sys (p.pread fd 6 7)
      cond (not (stored n 6 orld)) (do test_fail; run (p.close fd))
          (do
            cur ← sys (p.lseek fd (forward 0) seek_cur)
            run (p.close fd)
            cond (not (is_at cur 3)) test_fail test_pass))

  unfoldable pub test_pread_multiple_offsets : M S (Unit {0})
  test_pread_multiple_offsets = do
    fd ← sys (p.open_rdonly hello_path)
    if_failed fd test_fail (λ fd. do
      n0 ← sys (p.pread fd 5 0)
      n6 ← sys (p.pread fd 6 6)
      n12 ← sys (p.pread fd 1 12)
      run (p.close fd)
      cond (not (stored n0 5 hello_word)) test_fail (
          cond (not (stored n6 6 world)) test_fail
            (cond (not (stored n12 1 (10 ∷ []))) test_fail test_pass)))

  -- 1 where the call has failed, or has not failed with ENOENT.
  abbrev if_error : Ret (Unit {0}) → ℕ
  if_error (done u) = 0
  if_error (failed e) = 1

  abbrev if_not_enoent : Ret (Unit {0}) → ℕ
  if_not_enoent (done u) = 1
  if_not_enoent (failed e) = if e == enoent then 0 else 1

  -- F_OK is 0 and R_OK is 4.
  unfoldable pub test_access : M S (Unit {0})
  test_access = do
    f ← sys (p.access hello_path 0)
    r ← sys (p.access hello_path 4)
    d ← sys (p.access root_path 0)
    n ← sys (p.access nonexistent_path 0)
    cond (not (if_error f + if_error r + if_error d + if_not_enoent n == 0)) test_fail test_pass
