-- ===== src/Clients/Smoke/Passes.antt =====
-- apps/fuse-test/main.c over two systems of which one refines the other, and over the reference
-- system for its tree.
use ukfs_fuse.Common.{
  ℕ, zero, suc, ◌≤◌, ◌<◌, ◌≡◌, refl, ap, ◌∙◌, arith, Bool, true, false, c_string, ok,
}
use ukfs_fuse.Hello.{hello_stat}
use ukfs_fuse.Clients.{Posix, M, go_on, ◌>>=◌, ◌>>◌, pure, sys, run, if_failed, if_null, cond}
use ukfs_fuse.Clients.Smoke.{
  crash, uk_assert, smoke_stat, smoke_read, find_hello, smoke_readdir, smoke_tests, smoke_main,
}
use ukfs_fuse.Clients.Tree.{Tree, tree_posix, boot}
use ukfs_fuse.Clients.Simulation.{Refines, Sim, Sim-blocked}
use ukfs_fuse.Clients.Simulation.Calls.{calls}
use ukfs_fuse.Clients.Simulation.Whole.{Sim-wait_session}
use ukfs_fuse.Clients.Passes.{waiting, session_after, ended-passed}
use ukfs_fuse.Clients.Passes.Each.{ready}

module _ {S T : Type 0} (p : Posix S) (q : Posix T) (view : S → T) (r : Refines p q view) where
  Sim-crash : {A : Type 0} → Sim {A = A} view (crash p) (crash q)
  unfolding crash
  Sim-crash = record { sim = λ s. refl }

  Sim-uk_assert :
      {A : Type 0} (b : Bool) {m : M S A} {n : M T A}
      → Sim view m n
      → Sim view (uk_assert p b m) (uk_assert q b n)
  unfolding uk_assert cond crash
  Sim-uk_assert true h = h
  Sim-uk_assert false h = record { sim = λ s. refl }

  Sim-smoke_stat : Sim view (smoke_stat p) (smoke_stat q)
  unfolding smoke_stat
  Sim-smoke_stat = search (calls, Sim-crash, Sim-uk_assert) depth 30 fits 3000

  Sim-smoke_read : Sim view (smoke_read p) (smoke_read q)
  unfolding smoke_read
  Sim-smoke_read = search (calls, Sim-crash, Sim-uk_assert) depth 30 fits 3000

  Sim-find_hello : (f d : ℕ) (b : Bool) → Sim view (find_hello p f d b) (find_hello q f d b)
  unfolding find_hello
  Sim-find_hello zero d b = Sim-blocked
  Sim-find_hello (suc f) d b = search (calls, Sim-find_hello f d) depth 30 fits 3000

  Sim-smoke_readdir : (f : ℕ) → Sim view (smoke_readdir p f) (smoke_readdir q f)
  unfolding smoke_readdir
  Sim-smoke_readdir f = search (calls, Sim-crash, Sim-uk_assert, Sim-find_hello) depth 30 fits 3000

  Sim-smoke_tests : (f : ℕ) → Sim view (smoke_tests p f) (smoke_tests q f)
  unfolding smoke_tests
  Sim-smoke_tests f =
      search (calls, Sim-crash, Sim-smoke_stat, Sim-smoke_read, Sim-smoke_readdir) depth 30 fits
        3000

  Sim-smoke_main : (n f : ℕ) → Sim view (smoke_main p n f) (smoke_main q n f)
  unfolding smoke_main
  Sim-smoke_main n f =
      search (calls, Sim-uk_assert, Sim-wait_session p q view r, Sim-smoke_tests) depth 30 fits 3000

smoke_tests_pass :
    (f : ℕ) → smoke_tests tree_posix (suc (suc (suc (suc f)))) (waiting 0) ≡ ok (0, ready 0)
unfolding smoke_tests smoke_stat smoke_read smoke_readdir find_hello uk_assert crash ◌>>=◌ ◌>>◌ sys
    run pure cond if_failed if_null hello_stat c_string
smoke_tests_pass f = refl

-- The program over the reference system.
reference_smoke :
    (turns rounds fuel : ℕ)
    → turns < rounds
    → 4 ≤ fuel
    → smoke_main tree_posix rounds fuel
        (record { os = boot turns; test_passed = 0; test_failed = 0 })
      ≡ ok (0, ready 0)
unfolding smoke_main uk_assert ◌>>=◌ ◌>>◌ sys run cond
reference_smoke turns rounds zero h k = absurd (omega arith)
reference_smoke turns rounds (suc zero) h k = absurd (omega arith)
reference_smoke turns rounds (suc (suc zero)) h k = absurd (omega arith)
reference_smoke turns rounds (suc (suc (suc zero))) h k = absurd (omega arith)
reference_smoke turns rounds (suc (suc (suc (suc f)))) h k =
    ap (λ x. go_on x (λ _. smoke_tests tree_posix (suc (suc (suc (suc f))))))
      (session_after turns rounds h)
    ∙ smoke_tests_pass f

module _ {S : Type 0} (p : Posix S) (view : S → Tree) where
  -- Over every system whose calls, seen through a view of its state, return and do what those of
  -- the reference system for the tree of hello_ll do, started with a view in which three
  -- descriptors are in use and the backend has registered after `turns` yields, with more rounds of
  -- waiting than that and at least 4 rounds for the loop over the directory, main of apps/fuse-test
  -- returns 0 without a failed assertion, with every descriptor and stream closed.
  pub smoke_main-passes :
      Refines p tree_posix view
      → (s : S) (turns rounds fuel : ℕ) → view s ≡ boot turns
      → turns < rounds
      → 4 ≤ fuel
      → (t : S) × (smoke_main p rounds fuel (record { os = s; test_passed = 0; test_failed = 0 })
          ≡ ok (0, record { os = t; test_passed = 0; test_failed = 0 }))
        × (view t ≡ (ready 0).os)
  smoke_main-passes r s turns rounds fuel start h k =
      ended-passed view 0
        (smoke_main p rounds fuel (record { os = s; test_passed = 0; test_failed = 0 }))
        ((Sim-smoke_main p tree_posix view r rounds fuel).sim _
          ∙ ap
              (λ os.
                smoke_main tree_posix rounds fuel
                  (record { os = os; test_passed = 0; test_failed = 0 }))
              start
          ∙ reference_smoke turns rounds fuel h k)
