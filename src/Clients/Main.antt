-- ===== src/Clients/Main.antt =====
-- apps/fuse-correctness-test/main.c: `main`.
use ukfs_fuse.Common.{ℕ, zero, suc, List, [], ◌∷◌, ltb, blocked, fault}
use ukfs_fuse.Clients.{Posix, M, ◌>>=◌, ◌>>◌, pure, sys, run, if_failed, cond, root_path}
use ukfs_fuse.Clients.Attrs.{
  test_stat_root, test_stat_file, test_stat_enoent, test_fstat_file, test_open_enoent,
  test_open_dir, test_stat_after_read, test_stat_idempotent,
}
use ukfs_fuse.Clients.Read.{
  test_read_full, test_read_offset, test_read_eof, test_read_partial, test_read_sequential,
  test_two_fds,
}
use ukfs_fuse.Clients.Listing.{test_readdir_contents, test_readdir_ino, test_readdir_repeated}
use ukfs_fuse.Clients.Seek.{
  test_lseek_seek_set, test_lseek_seek_cur, test_lseek_seek_end, test_lseek_seek_end_size,
  test_pread_no_offset_change, test_pread_multiple_offsets, test_access,
}

-- "fuse", "-f", "-s", "/", for `fuse_backend_main`.
abbrev pub backend_argv : List (List ℕ)
backend_argv =
    (b'f' ∷ b'u' ∷ b's' ∷ b'e' ∷ []) ∷ (b'-' ∷ b'f' ∷ []) ∷ (b'-' ∷ b's' ∷ []) ∷ root_path ∷ []

abbrev pub none_name : List ℕ
none_name = b'n' ∷ b'o' ∷ b'n' ∷ b'e' ∷ []

abbrev pub fuse_name : List ℕ
fuse_name = b'f' ∷ b'u' ∷ b's' ∷ b'e' ∷ []

module _ {S : Type 0} (p : Posix S) where
  -- The loop that yields until a session is registered.
  unfoldable pub wait_session : ℕ → M S (Unit {0})
  wait_session zero = λ _. blocked
  wait_session (suc rounds) = do
    registered ← sys p.session_registered
    cond registered (pure tt) (do run p.yield; wait_session rounds)

  -- The tests in the order in which `main` calls them. `fuel` is for the loops over directories.
  unfoldable pub all_tests : ℕ → List (M S (Unit {0}))
  all_tests fuel =
      test_stat_root p
      ∷ test_stat_file p
      ∷ test_stat_enoent p
      ∷ test_fstat_file p
      ∷ test_open_enoent p
      ∷ test_open_dir p
      ∷ test_read_full p
      ∷ test_read_offset p
      ∷ test_read_eof p
      ∷ test_read_partial p
      ∷ test_read_sequential p
      ∷ test_readdir_contents p fuel
      ∷ test_readdir_ino p fuel
      ∷ test_readdir_repeated p fuel
      ∷ test_two_fds p
      ∷ test_stat_after_read p
      ∷ test_stat_idempotent p
      ∷ test_lseek_seek_set p
      ∷ test_lseek_seek_cur p
      ∷ test_lseek_seek_end p
      ∷ test_lseek_seek_end_size p
      ∷ test_pread_no_offset_change p
      ∷ test_pread_multiple_offsets p
      ∷ test_access p
      ∷ []

  unfoldable pub run_tests : List (M S (Unit {0})) → M S (Unit {0})
  run_tests [] = pure tt
  run_tests (t ∷ ts) = do t; run_tests ts

  -- `return test_failed > 0 ? 1 : 0`
  unfoldable pub summary : M S ℕ
  summary s = cond (ltb 0 s.test_failed) (pure 1) (pure 0) s

  unfoldable pub mount_and_test : ℕ → M S ℕ
  mount_and_test fuel = do
    ret ← sys (p.mount none_name root_path fuse_name)
    if_failed ret (pure 1) (λ _. do run_tests (all_tests fuel); summary)

  -- The exit status. A thread that cannot be created fails an assertion.
  unfoldable pub suite_main : ℕ → ℕ → M S ℕ
  suite_main rounds fuel = do
    created ← sys (p.thread_create backend_argv)
    cond created (do run p.thread_add; wait_session rounds; mount_and_test fuel) (λ _. fault)
