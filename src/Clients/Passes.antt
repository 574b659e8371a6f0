-- ===== src/Clients/Passes.antt =====
-- apps/fuse-correctness-test/main.c over a system that serves the tree of hello_ll as POSIX says.
pub mod Each
use ukfs_fuse.Common.{
  ℕ, zero, suc, ◌+◌, ◌-◌, ◌≤◌, ◌<◌, ◌==◌, ◌≡◌, refl, sym, ap, ◌∙◌, arith, Bool, true, false, List,
  [], ◌∷◌, some, none, Exec, ok, blocked, fault, ok-injective, length, ◌%◌, ◌^◌,
}
use ukfs_fuse.Hello.{hello_stat}
use ukfs_fuse.Clients.{
  Posix, Suite, M, go_on, ◌>>=◌, ◌>>◌, pure, sys, run, if_failed, if_null, cond, test_pass,
  test_fail,
}
use ukfs_fuse.Clients.Main.{wait_session, all_tests, run_tests, summary, mount_and_test, suite_main}
use ukfs_fuse.Clients.Passes.Each.{ready, Passes, passing}
use ukfs_fuse.Clients.Tree.{Tree, tree_posix, boot}
use ukfs_fuse.Clients.Simulation.{Refines, Sim, over, ended}
use ukfs_fuse.Clients.Simulation.Whole.{Sim-suite_main}

-- The suite before and after the tests, whose counters are given.
abbrev pub waiting : ℕ → Suite Tree
waiting turns = record {
  os = record (boot turns) { started = true };
  test_passed = 0;
  test_failed = 0;
}

pub session_after :
    (turns rounds : ℕ)
    → turns < rounds
    → wait_session tree_posix rounds (waiting turns) ≡ ok (tt, waiting 0)
unfolding wait_session ◌>>=◌ ◌>>◌ sys run pure cond
session_after turns zero h = absurd (omega arith)
session_after zero (suc rounds) h = refl
session_after (suc turns) (suc rounds) h =
    let later : (suc turns == 0) ≡ false = ground arith in
    let less : suc turns - 1 ≡ turns = omega arith in
    rw later (
      ap (λ k. wait_session tree_posix rounds (waiting k)) less
      ∙ session_after turns rounds (omega (arith, h)))

data AllPass : List (M Tree (Unit {0})) → Type 0 where
  no_test : AllPass []
  one_more :
      {t : M Tree (Unit {0})} {ts : List (M Tree (Unit {0}))}
      → Passes t
      → AllPass ts
      → AllPass (t ∷ ts)

run_tests-AllPass :
    (ts : List (M Tree (Unit {0}))) (n : ℕ)
    → AllPass ts
    → n + length ts < 2 ^ 32
    → run_tests tree_posix ts (ready n) ≡ ok (tt, ready (n + length ts))
unfolding run_tests ◌>>◌ ◌>>=◌ pure
run_tests-AllPass [] n no_test h = ap (λ k. ok (tt, ready k)) (omega arith)
run_tests-AllPass (t ∷ ts) n (one_more p ps) h =
    let next : (n + 1) % 2 ^ 32 ≡ n + 1 = omega (arith, h) in
    let sum : n + 1 + length ts ≡ n + suc (length ts) = omega arith in
    ap (λ x. go_on x (λ _. run_tests tree_posix ts)) (p.passes n)
    ∙ ap (λ k. run_tests tree_posix ts (ready k)) next
    ∙ run_tests-AllPass ts (n + 1) ps (omega (arith, h))
    ∙ ap (λ k. ok (tt, ready k)) sum

all_tests-AllPass : (f : ℕ) → AllPass (all_tests tree_posix (suc (suc (suc (suc f)))))
unfolding all_tests
all_tests-AllPass f = search (no_test, one_more, passing) depth 60 fits 3000

tests_pass :
    (f : ℕ) → mount_and_test tree_posix (suc (suc (suc (suc f)))) (waiting 0) ≡ ok (0, ready 24)
unfolding mount_and_test summary ◌>>=◌ ◌>>◌ sys pure cond if_failed all_tests
tests_pass f =
    ap (λ x. go_on x (λ _. summary tree_posix))
      (run_tests-AllPass (all_tests tree_posix (suc (suc (suc (suc f))))) 0 (all_tests-AllPass f)
        (omega arith))

-- The suite over the reference system.
reference_passes :
    (turns rounds fuel : ℕ)
    → turns < rounds
    → 4 ≤ fuel
    → suite_main tree_posix rounds fuel
        (record { os = boot turns; test_passed = 0; test_failed = 0 })
      ≡ ok (0, ready 24)
unfolding suite_main ◌>>=◌ ◌>>◌ sys run cond
reference_passes turns rounds zero h k = absurd (omega arith)
reference_passes turns rounds (suc zero) h k = absurd (omega arith)
reference_passes turns rounds (suc (suc zero)) h k = absurd (omega arith)
reference_passes turns rounds (suc (suc (suc zero))) h k = absurd (omega arith)
reference_passes turns rounds (suc (suc (suc (suc f)))) h k =
    ap (λ x. go_on x (λ _. mount_and_test tree_posix (suc (suc (suc (suc f))))))
      (session_after turns rounds h)
    ∙ tests_pass f

module _ {S : Type 0} (view : S → Tree) (n : ℕ) where
  pub ended-passed :
      (x : Exec (ℕ × Suite S))
      → ended view x ≡ ok (0, ready n)
      → (t : S) × (x ≡ ok (0, record { os = t; test_passed = n; test_failed = 0 }))
        × (view t ≡ (ready n).os)
  ended-passed (ok (a, s)) h =
      let e = ok-injective h in
      let status : a ≡ 0 = ap (λ x. x.0) e in
      let passed : s.test_passed ≡ n = ap (λ x. x.1.test_passed) e in
      let missed : s.test_failed ≡ 0 = ap (λ x. x.1.test_failed) e in
      (s.os, ground arith, ap (λ x. x.1.os) e)
  ended-passed blocked h = cc
  ended-passed fault h = cc

module _ {S : Type 0} (p : Posix S) (view : S → Tree) where
  -- Over every system whose calls, seen through a view of its state, return and do what those of
  -- the reference system for the tree of hello_ll do, started with a view in which three
  -- descriptors are in use and the backend has registered after `turns` yields, with more rounds of
  -- waiting than that and at least 4 rounds for a loop over a directory, the main of the
  -- correctness tests returns 0 with 24 tests passed and none failed, and leaves the tree mounted
  -- and every descriptor and stream that it opened closed.
  pub suite_main-passes :
      Refines p tree_posix view
      → (s : S) (turns rounds fuel : ℕ) → view s ≡ boot turns
      → turns < rounds
      → 4 ≤ fuel
      → (t : S) × (suite_main p rounds fuel (record { os = s; test_passed = 0; test_failed = 0 })
          ≡ ok (0, record { os = t; test_passed = 24; test_failed = 0 }))
        × (view t ≡ (ready 24).os)
  suite_main-passes r s turns rounds fuel start h k =
      ended-passed view 24
        (suite_main p rounds fuel (record { os = s; test_passed = 0; test_failed = 0 }))
        ((Sim-suite_main p tree_posix view r rounds fuel).sim _
          ∙ ap
              (λ os.
                suite_main tree_posix rounds fuel
                  (record { os = os; test_passed = 0; test_failed = 0 }))
              start
          ∙ reference_passes turns rounds fuel h k)
