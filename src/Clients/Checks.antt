-- ===== src/Clients/Checks.antt =====
-- apps/fuse-correctness-test/main.c: the functions that several tests call. `false` is -1.
use ukfs_fuse.Common.{ℕ, Bool, false, List, ◌==◌}
use ukfs_fuse.Errno.{enoent}
use ukfs_fuse.Request.{Stat}
use ukfs_fuse.Clients.{
  Posix, M, ◌>>=◌, ◌>>◌, pure, sys, run, if_failed, Ret, done, failed, stored, forward, seek_set,
  type_bits, permissions,
}

-- Whether the result of a stat is -1 with ENOENT.
abbrev pub is_enoent : Ret Stat → Bool
is_enoent (done st) = false
is_enoent (failed e) = e == enoent

module _ {S : Type 0} (p : Posix S) where
  unfoldable pub check_type : List ℕ → ℕ → M S Bool
  check_type path expected_type = do
    r ← sys (p.stat path)
    if_failed r (pure false) (λ st. pure (type_bits st.st_mode == expected_type))

  unfoldable pub check_mode : List ℕ → ℕ → M S Bool
  check_mode path expected_perm = do
    r ← sys (p.stat path)
    if_failed r (pure false) (λ st. pure (permissions st.st_mode == expected_perm))

  unfoldable pub check_size : List ℕ → ℕ → M S Bool
  check_size path expected_size = do
    r ← sys (p.stat path)
    if_failed r (pure false) (λ st. pure (st.st_size == expected_size))

  unfoldable pub check_nlink : List ℕ → ℕ → M S Bool
  check_nlink path expected = do
    r ← sys (p.stat path)
    if_failed r (pure false) (λ st. pure (st.st_nlink == expected))

  unfoldable pub check_ino : List ℕ → ℕ → M S Bool
  check_ino path expected = do
    r ← sys (p.stat path)
    if_failed r (pure false) (λ st. pure (st.st_ino == expected))

  unfoldable pub check_data : List ℕ → List ℕ → ℕ → ℕ → M S Bool
  check_data path data_ offset len = do
    fd ← sys (p.open_rdonly path)
    if_failed fd (pure false) (λ fd. do
      pos ← sys (p.lseek fd (forward offset) seek_set)
      if_failed pos (do run (p.close fd); pure false)
          (λ _. do n ← sys (p.read fd len); run (p.close fd); pure (stored n len data_)))

  unfoldable pub check_nonexist : List ℕ → M S Bool
  check_nonexist path = do r ← sys (p.stat path); pure (is_enoent r)
