-- ===== src/Clients/Smoke.antt =====
-- apps/fuse-test/main.c: the first test program, which stops at the first assertion that fails.
pub mod Passes
use ukfs_fuse.Common.{
  ℕ, zero, suc, ◌+◌, ◌≤◌, ◌<◌, ◌==◌, ◌≡◌, refl, ap, ◌∙◌, arith, Bool, true, false, ◌&&◌, List, [],
  ◌∷◌, ◌++◌, c_string, same_bytes, Exec, ok, blocked, fault, ok-injective, if◌then◌else◌,
}
use ukfs_fuse.Request.{Stat}
use ukfs_fuse.Hello.{hello_str, hello_name, hello_stat}
use ukfs_fuse.Clients.{
  Posix, Suite, M, go_on, ◌>>=◌, ◌>>◌, pure, sys, run, if_failed, if_null, cond, Ret, DirEntry,
  s_ifdir, s_ifreg, type_bits, root_path, hello_path,
}
use ukfs_fuse.Clients.Checks.{is_enoent}
use ukfs_fuse.Clients.Main.{backend_argv, none_name, fuse_name, wait_session}

abbrev foo_path : List ℕ
foo_path = b'/' ∷ b'f' ∷ b'o' ∷ b'o' ∷ []

module _ {S : Type 0} (p : Posix S) where
  -- `UK_ASSERT(0)`, and an assertion.
  unfoldable pub crash : {A : Type 0} → M S A
  crash s = fault

  unfoldable pub uk_assert : {A : Type 0} → Bool → M S A → M S A
  uk_assert b rest = cond b rest crash

  unfoldable pub smoke_stat : M S (Unit {0})
  smoke_stat = do
    r ← sys (p.stat root_path)
    if_failed r crash (λ st. uk_assert (st.st_ino == 1) (
        uk_assert (type_bits st.st_mode == s_ifdir) (do
          r ← sys (p.stat hello_path)
          if_failed r crash (λ st. uk_assert (st.st_ino == 2) (
              uk_assert (type_bits st.st_mode == s_ifreg) (
                uk_assert (st.st_size == 13)
                  (do r ← sys (p.stat foo_path); uk_assert (is_enoent r) (pure tt))))))))

  -- The buffer of 32 bytes was cleared, and 31 are asked for.
  unfoldable pub smoke_read : M S (Unit {0})
  smoke_read = do
    fd ← sys (p.open_rdonly hello_path)
    if_failed fd crash (λ fd. do
      n ← sys (p.read fd 31)
      if_failed n crash (λ rbuf. do
        run (p.close fd)
        uk_assert (same_bytes (c_string (rbuf ++ 0 ∷ [])) hello_str) (pure tt)))

  unfoldable pub find_hello : ℕ → ℕ → Bool → M S Bool
  find_hello zero d found = λ _. blocked
  find_hello (suc fuel) d found = do
    de ← sys (p.readdir d)
    if_null de (pure found)
        (λ de. find_hello fuel d (if same_bytes de.d_name hello_name then true else found))

  unfoldable pub smoke_readdir : ℕ → M S (Unit {0})
  smoke_readdir fuel = do
    d ← sys (p.opendir root_path)
    if_failed d crash
        (λ d. do found ← find_hello fuel d false; run (p.closedir d); uk_assert found (pure tt))

  unfoldable pub smoke_tests : ℕ → M S ℕ
  smoke_tests fuel = do
    ret ← sys (p.mount none_name root_path fuse_name)
    if_failed ret crash (λ _. do smoke_stat; smoke_read; smoke_readdir fuel; pure 0)

  unfoldable pub smoke_main : ℕ → ℕ → M S ℕ
  smoke_main rounds fuel = do
    created ← sys (p.thread_create backend_argv)
    uk_assert created (do run p.thread_add; wait_session p rounds; smoke_tests fuel)
