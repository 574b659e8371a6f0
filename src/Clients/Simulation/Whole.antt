-- ===== src/Clients/Simulation/Whole.antt =====
-- apps/fuse-correctness-test/main.c: the whole suite over two systems of which one refines the
-- other.
use ukfs_fuse.Common.{ℕ, zero, suc, List, [], ◌∷◌, ltb}
use ukfs_fuse.Clients.{Posix, M}
use ukfs_fuse.Clients.Simulation.{
  Refines, Sim, Sim-pure, Sim-cond, Sim-then, Sim-bind, Sim-if_failed, Sim-blocked,
}
use ukfs_fuse.Clients.Main.{wait_session, all_tests, run_tests, summary, mount_and_test, suite_main}
use ukfs_fuse.Clients.Simulation.Calls.{calls, Sim-mount, Sim-session_registered, Sim-yield}
use ukfs_fuse.Clients.Simulation.Tests.{single_tests}
use ukfs_fuse.Clients.Simulation.Directories.{directory_tests}

module _ {S T : Type 0} (p : Posix S) (q : Posix T) (view : S → T) (r : Refines p q view) where
  data Sims : List (M S (Unit {0})) → List (M T (Unit {0})) → Type 0 where
    sims_nil : Sims [] []
    sims_cons :
        {m : M S (Unit {0})} {n : M T (Unit {0})} {ms : List (M S (Unit {0}))}
        {ns : List (M T (Unit {0}))}
        → Sim view m n
        → Sims ms ns
        → Sims (m ∷ ms) (n ∷ ns)

  Sim-run_tests :
      {ms : List (M S (Unit {0}))} {ns : List (M T (Unit {0}))}
      → Sims ms ns
      → Sim view (run_tests p ms) (run_tests q ns)
  unfolding run_tests
  Sim-run_tests sims_nil = Sim-pure tt
  Sim-run_tests (sims_cons h hs) = Sim-then h (Sim-run_tests hs)

  Sims-all_tests : (f : ℕ) → Sims (all_tests p f) (all_tests q f)
  unfolding all_tests
  Sims-all_tests f = search (sims_nil, sims_cons, single_tests, directory_tests) depth 60 fits 3000

  Sim-summary : Sim view (summary p) (summary q)
  unfolding summary
  Sim-summary = record {
    sim = λ s. (Sim-cond (ltb 0 s.test_failed) (Sim-pure 1) (Sim-pure 0)).sim s;
  }

  Sim-mount_and_test : (f : ℕ) → Sim view (mount_and_test p f) (mount_and_test q f)
  unfolding mount_and_test
  Sim-mount_and_test f = Sim-bind (Sim-mount p q view r _ _ _) (λ ret.
      Sim-if_failed ret (Sim-pure 1) (λ _. Sim-then (Sim-run_tests (Sims-all_tests f)) Sim-summary))

  pub Sim-wait_session : (n : ℕ) → Sim view (wait_session p n) (wait_session q n)
  unfolding wait_session
  Sim-wait_session zero = Sim-blocked
  Sim-wait_session (suc n) =
      Sim-bind (Sim-session_registered p q view r)
        (λ b. Sim-cond b (Sim-pure tt) (Sim-then (Sim-yield p q view r) (Sim-wait_session n)))

  pub Sim-suite_main : (n f : ℕ) → Sim view (suite_main p n f) (suite_main q n f)
  unfolding suite_main
  Sim-suite_main n f = search (calls, Sim-wait_session, Sim-mount_and_test) depth 30 fits 3000
