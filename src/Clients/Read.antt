-- ===== src/Clients/Read.antt =====
-- apps/fuse-correctness-test/main.c: the tests T7 to T11 and T24, on reads.
use ukfs_fuse.Common.{ℕ, Bool, true, not, List, [], ◌∷◌, length, ◌==◌}
use ukfs_fuse.Hello.{hello_str}
use ukfs_fuse.Clients.{
  Posix, M, ◌>>=◌, ◌>>◌, sys, run, if_failed, cond, test_pass, test_fail, Ret, done, failed, is_at,
  stored, forward, seek_set, hello_path,
}
use ukfs_fuse.Clients.Checks.{check_data}

-- "Hello", "orld!\n", " World!\n" and "orld!"
abbrev pub hello_word : List ℕ
hello_word = b'H' ∷ b'e' ∷ b'l' ∷ b'l' ∷ b'o' ∷ []

abbrev pub orld : List ℕ
orld = b'o' ∷ b'r' ∷ b'l' ∷ b'd' ∷ b'!' ∷ 10 ∷ []

abbrev world_tail : List ℕ
world_tail = b' ' ∷ b'W' ∷ orld

-- `n != 0`
abbrev read_something : Ret (List ℕ) → Bool
read_something (done buf) = not (length buf == 0)
read_something (failed e) = true

module _ {S : Type 0} (p : Posix S) where
  unfoldable pub test_read_full : M S (Unit {0})
  test_read_full = do
    same ← check_data p hello_path hello_str 0 13
    cond (not same) test_fail test_pass

  unfoldable pub test_read_offset : M S (Unit {0})
  test_read_offset = do same ← check_data p hello_path orld 7 6; cond (not same) test_fail test_pass

  unfoldable pub test_read_eof : M S (Unit {0})
  test_read_eof = do
    fd ← sys (p.open_rdonly hello_path)
    if_failed fd test_fail (λ fd. do
      pos ← sys (p.lseek fd (forward 100) seek_set)
      if_failed pos (do test_fail; run (p.close fd))
          (λ _. do
            n ← sys (p.read fd 16)
            run (p.close fd)
            cond (read_something n) test_fail test_pass))

  unfoldable pub test_read_partial : M S (Unit {0})
  test_read_partial = do
    same ← check_data p hello_path hello_word 0 5
    cond (not same) test_fail test_pass

  unfoldable pub test_read_sequential : M S (Unit {0})
  test_read_sequential = do
    fd ← sys (p.open_rdonly hello_path)
    if_failed fd test_fail (λ fd. do
      n1 ← sys (p.read fd 5)
      n2 ← sys (p.read fd 8)
      run (p.close fd)
      cond (not (stored n1 5 hello_word)) test_fail
          (cond (not (stored n2 8 world_tail)) test_fail test_pass))

  unfoldable pub test_two_fds : M S (Unit {0})
  test_two_fds = do
    fd1 ← sys (p.open_rdonly hello_path)
    if_failed fd1 test_fail (λ fd1. do
      fd2 ← sys (p.open_rdonly hello_path)
      if_failed fd2 (do test_fail; run (p.close fd1))
          (λ fd2. do
            pos ← sys (p.lseek fd1 (forward 7) seek_set)
            cond (not (is_at pos 7)) (do test_fail; run (p.close fd1); run (p.close fd2))
                (do
                  n2 ← sys (p.read fd2 5)
                  n1 ← sys (p.read fd1 5)
                  run (p.close fd1)
                  run (p.close fd2)
                  cond (not (stored n2 5 hello_word)) test_fail
                      (cond (not (stored n1 5 orld)) test_fail test_pass))))
