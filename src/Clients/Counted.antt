-- ===== src/Clients/Counted.antt =====
-- apps/fuse-correctness-test/main.c: what a part of the suite adds to the two counters, whatever the
-- system calls return.
pub mod Calls
pub mod Streams
pub mod Verdict
use ukfs_fuse.Common.{
  ℕ, zero, suc, ◌+◌, ◌%◌, ◌^◌, ◌≤◌, ◌<◌, ◌≡◌, refl, arith, Bool, true, false, Option, none, some,
  List, Exec, ok, blocked, fault, Returns,
}
use ukfs_fuse.Clients.{
  Posix, Suite, M, go_on, ◌>>=◌, ◌>>◌, pure, sys, run, if_failed, cond, test_pass, test_fail, Ret,
  done, failed, DirEntry,
}

-- The directory streams come to an end: `left` bounds the entries that a stream still has, which is
-- below `fuel` where it is opened, falls with each entry, and does not rise with a stat.
pub record HasEnds {S : Type 0} (p : Posix S) (fuel : ℕ) : Type 0 where
  pub left : S → ℕ → ℕ
  pub left-opendir :
      (path : List ℕ) (s : S) (dp : ℕ)
      → (p.opendir path s).0 ≡ done dp
      → left (p.opendir path s).1 dp < fuel
  pub left-readdir :
      (s : S) (dp : ℕ) (de : DirEntry)
      → (p.readdir dp s).0 ≡ some de
      → left (p.readdir dp s).1 dp < left s dp
  pub left-stat : (path : List ℕ) (s : S) (dp : ℕ) → left (p.stat path s).1 dp ≤ left s dp

-- The tests that have been counted.
abbrev pub counted : {S : Type 0} → Suite S → ℕ
counted s = s.test_passed + s.test_failed

-- The part returns and adds `n` to the counted tests.
pub record Adds {S A : Type 0} (n : ℕ) (m : M S A) : Type 0 where
  pub returns :
      (s : Suite S) → counted s + n < 2 ^ 32 → Returns (m s) (λ (a, t). counted t ≡ counted s + n)

pub Returns-mono :
    {A : Type 0} (x : Exec A) {P Q : A → Type 0} → Returns x P → ((a : A) → P a → Q a) → Returns x Q
Returns-mono (ok a) h g = g a h
Returns-mono blocked h g = absurd h
Returns-mono fault h g = absurd h

module _ {S : Type 0} where
  -- A part that has returned, and what comes after it.
  pub Returns-go_on :
      {A B : Type 0} (x : Exec (A × Suite S)) (k : A → M S B) (P : A × Suite S → Type 0)
      (Q : B × Suite S → Type 0)
      → Returns x P
      → ((a : A) (t : Suite S) → P (a, t) → Returns (k a t) Q)
      → Returns (go_on x k) Q
  Returns-go_on (ok (a, t)) k P Q h g = g a t h
  Returns-go_on blocked k P Q h g = absurd h
  Returns-go_on fault k P Q h g = absurd h

  pub Adds-bind :
      {A B : Type 0} {n : ℕ} {m : M S A} {k : A → M S B}
      → Adds 0 m
      → ((a : A) → Adds n (k a))
      → Adds n (m >>= k)
  unfolding ◌>>=◌
  Adds-bind {m} {k} h g = record {
    returns = λ s b. Returns-go_on (m s) k _ _ (h.returns s (omega (arith, b))) (λ a t e.
        Returns-mono (k a t) ((g a).returns t (omega (arith, e, b)))
          (λ (a, u) e'. omega (arith, e, e')));
  }

  pub Adds-then :
      {A B : Type 0} {n : ℕ} {m : M S A} {k : M S B} → Adds 0 m → Adds n k → Adds n (m >> k)
  unfolding ◌>>◌
  Adds-then h g = Adds-bind h (λ _. g)

  -- A counted test, and the calls that clean up.
  pub Adds-clean : {A B : Type 0} {m : M S A} {k : M S B} → Adds 1 m → Adds 0 k → Adds 1 (m >> k)
  unfolding ◌>>◌ ◌>>=◌
  Adds-clean {m} {k} h g = record {
    returns = λ s b.
        Returns-go_on (m s) (λ _. k) _ _ (h.returns s b)
          (λ a t e.
            Returns-mono (k t) (g.returns t (omega (arith, e, b)))
              (λ (a, u) e'. omega (arith, e, e')));
  }

  pub Adds-pure : {A : Type 0} (a : A) → Adds 0 (pure {S = S} a)
  unfolding pure
  Adds-pure a = record { returns = λ s b. omega arith }

  pub Adds-sys : {A : Type 0} (f : S → A × S) → Adds 0 (sys f)
  unfolding sys
  Adds-sys f = record { returns = λ s b. omega arith }

  pub Adds-run : (f : S → S) → Adds 0 (run f)
  unfolding run
  Adds-run f = record { returns = λ s b. omega arith }

  pub Adds-test_pass : Adds 1 (test_pass {S = S})
  unfolding test_pass
  Adds-test_pass = record { returns = λ s b. ground (arith, b) }

  pub Adds-test_fail : Adds 1 (test_fail {S = S})
  unfolding test_fail
  Adds-test_fail = record { returns = λ s b. ground (arith, b) }

  pub Adds-if_failed :
      {A B : Type 0} {n : ℕ} (r : Ret A) {m : M S B} {k : A → M S B}
      → Adds n m
      → ((a : A) → Adds n (k a))
      → Adds n (if_failed r m k)
  unfolding if_failed
  Adds-if_failed (done a) h g = g a
  Adds-if_failed (failed e) h g = h

  pub Adds-cond :
      {A : Type 0} {n : ℕ} (b : Bool) {m k : M S A} → Adds n m → Adds n k → Adds n (cond b m k)
  unfolding cond
  Adds-cond true h g = h
  Adds-cond false h g = g

pub ruleset adds = (
  Adds-bind, Adds-then, Adds-clean, Adds-pure, Adds-sys, Adds-run, Adds-test_pass, Adds-test_fail,
  Adds-if_failed, Adds-cond,
)
