-- ===== src/Clients/Listing.antt =====
-- apps/fuse-correctness-test/main.c: the tests T12 to T14, on directories. `fuel` bounds the rounds
-- of a loop over the entries.
use ukfs_fuse.Common.{
  ℕ, zero, suc, ◌+◌, Bool, false, not, List, [], ◌∷◌, ltb, ◌==◌, ◌&&◌, same_bytes, take,
  if◌then◌else◌, blocked,
}
use ukfs_fuse.Hello.{hello_name}
use ukfs_fuse.Clients.{
  Posix, M, ◌>>=◌, ◌>>◌, pure, sys, run, if_failed, cond, if_null, test_pass, test_fail, DirEntry,
  root_path,
}

-- "." or ".."
abbrev pub is_dots : List ℕ → Bool
is_dots [] = false
is_dots (a ∷ []) = a == b'.'
is_dots (a ∷ c ∷ []) = a == b'.' && c == b'.'
is_dots (a ∷ c ∷ d ∷ rest) = false

-- `found_hello` and `unexpected`.
pub record Found : Type 0 where
  pub found_hello : ℕ
  pub unexpected : ℕ

unfoldable pub note_entry : DirEntry → Found → Found
note_entry de n =
    if is_dots de.d_name
    then n
    else if same_bytes de.d_name hello_name
    then record n { found_hello = suc n.found_hello }
    else record n { unexpected = suc n.unexpected }

module _ {S : Type 0} (p : Posix S) where
  unfoldable pub scan_entries : ℕ → ℕ → Found → M S Found
  scan_entries zero dp n = λ _. blocked
  scan_entries (suc fuel) dp n = do
    de ← sys (p.readdir dp)
    if_null de (pure n) (λ de. scan_entries fuel dp (note_entry de n))

  unfoldable pub test_readdir_contents : ℕ → M S (Unit {0})
  test_readdir_contents fuel = do
    dp ← sys (p.opendir root_path)
    if_failed dp test_fail (λ dp. do
      n ← scan_entries fuel dp (record { found_hello = 0; unexpected = 0 })
      run (p.closedir dp)
      cond (n.found_hello == 0) test_fail (
          cond (ltb 1 n.found_hello) test_fail
            (cond (not (n.unexpected == 0)) test_fail test_pass)))

  -- `snprintf(path, 64, "/%s", de->d_name)`, its stat, and 1 for an error.
  unfoldable pub check_entry : DirEntry → M S ℕ
  check_entry de = cond (is_dots de.d_name) (pure 0) (do
    r ← sys (p.stat (take 63 (b'/' ∷ de.d_name)))
    if_failed r (pure 1) (λ st. pure (if de.d_ino == st.st_ino then 0 else 1)))

  unfoldable pub check_entries : ℕ → ℕ → ℕ → M S ℕ
  check_entries zero dp err = λ _. blocked
  check_entries (suc fuel) dp err = do
    de ← sys (p.readdir dp)
    if_null de (pure err) (λ de. do e ← check_entry de; check_entries fuel dp (err + e))

  unfoldable pub test_readdir_ino : ℕ → M S (Unit {0})
  test_readdir_ino fuel = do
    dp ← sys (p.opendir root_path)
    if_failed dp test_fail (λ dp. do
      err ← check_entries fuel dp 0
      run (p.closedir dp)
      cond (not (err == 0)) test_fail test_pass)

  -- `while (readdir(dp) != NULL) ;`
  unfoldable pub drain : ℕ → ℕ → M S (Unit {0})
  drain zero dp = λ _. blocked
  drain (suc fuel) dp = do de ← sys (p.readdir dp); if_null de (pure tt) (λ de. drain fuel dp)

  -- The rounds that are left of the three.
  unfoldable pub open_and_close : ℕ → ℕ → M S (Unit {0})
  open_and_close fuel zero = test_pass
  open_and_close fuel (suc n) = do
    dp ← sys (p.opendir root_path)
    if_failed dp test_fail (λ dp. do drain fuel dp; run (p.closedir dp); open_and_close fuel n)

  unfoldable pub test_readdir_repeated : ℕ → M S (Unit {0})
  test_readdir_repeated fuel = open_and_close fuel 3
