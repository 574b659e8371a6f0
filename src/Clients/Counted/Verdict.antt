-- ===== src/Clients/Counted/Verdict.antt =====
-- apps/fuse-correctness-test/main.c: what the exit status of the suite says.
use ukfs_fuse.Common.{
  ℕ, zero, suc, ◌<◌, ◌≡◌, refl, arith, true, false, ltb, List, [], ◌∷◌, length, Bool-cases, inl,
  inr, Returns,
}
use ukfs_fuse.Clients.{
  Posix, Suite, M, ◌>>=◌, ◌>>◌, pure, sys, run, if_failed, cond, Ret, done, failed,
}
use ukfs_fuse.Clients.Main.{
  backend_argv, wait_session, all_tests, run_tests, summary, mount_and_test, suite_main,
}
use ukfs_fuse.Clients.Counted.{HasEnds, Adds, counted, Returns-go_on, Returns-mono, Adds-pure}
use ukfs_fuse.Clients.Counted.Calls.{counted_calls}
use ukfs_fuse.Clients.Counted.Streams.{counted_streams}

-- The backend has registered its session after fewer than so many yields.
pub data Settles {S : Type 0} (p : Posix S) : ℕ → S → Type 0 where
  now : {n : ℕ} {s : S} → (p.session_registered s).0 ≡ true → Settles p (suc n) s
  later :
      {n : ℕ} {s : S}
      → (p.session_registered s).0 ≡ false
      → Settles p n (p.yield (p.session_registered s).1)
      → Settles p (suc n) s

-- What `main` returns, beside what it has counted.
pub data IsVerdict {S : Type 0} : ℕ → Suite S → Type 0 where
  unmounted : {s : Suite S} → counted s ≡ 0 → IsVerdict 1 s
  all_passed : {s : Suite S} → s.test_passed ≡ 24 → s.test_failed ≡ 0 → IsVerdict 0 s
  some_failed : {s : Suite S} → counted s ≡ 24 → 0 < s.test_failed → IsVerdict 1 s

-- Each part of a list counts one test.
data EachOne {S : Type 0} : List (M S (Unit {0})) → Type 0 where
  no_test : EachOne []
  one_more :
      {t : M S (Unit {0})} {ts : List (M S (Unit {0}))} → Adds 1 t → EachOne ts → EachOne (t ∷ ts)

module _ {S : Type 0} (p : Posix S) where
  run_tests-Adds : (ts : List (M S (Unit {0}))) → EachOne ts → Adds (length ts) (run_tests p ts)
  unfolding run_tests ◌>>◌ ◌>>=◌
  run_tests-Adds [] e = Adds-pure tt
  run_tests-Adds (t ∷ ts) (one_more h hs) =
      let rest = run_tests-Adds ts hs in
      record {
        returns = λ s b.
            Returns-go_on (t s) (λ _. run_tests p ts) _ _ (h.returns s (omega (arith, b)))
              (λ _ u e.
                Returns-mono (run_tests p ts u) (rest.returns u (omega (arith, e, b)))
                  (λ _ e'. omega (arith, e, e')));
      }

  all_tests-EachOne : (fuel : ℕ) → HasEnds p fuel → EachOne (all_tests p fuel)
  unfolding all_tests
  all_tests-EachOne fuel ends =
      search (one_more, no_test, counted_calls, counted_streams) depth 60 fits 3000

  -- The loop that waits for the session ends.
  wait_session-Returns :
      (n : ℕ) (s : Suite S)
      → Settles p n s.os
      → Returns
          (wait_session p n s)
          (λ (_, t). (t.test_passed ≡ s.test_passed) × (t.test_failed ≡ s.test_failed))
  unfolding wait_session ◌>>=◌ ◌>>◌ sys run pure cond
  wait_session-Returns zero s h = elim h [ ]
  wait_session-Returns (suc n) s (now e) = rw e (refl, refl)
  wait_session-Returns (suc n) s (later e h) =
      rw e (wait_session-Returns n (record s { os = p.yield (p.session_registered s.os).1 }) h)

  summary-IsVerdict :
      (s : Suite S) → counted s ≡ 24 → Returns (summary p s) (λ (r, t). IsVerdict r t)
  unfolding summary cond pure
  summary-IsVerdict s c = elim (Bool-cases (ltb 0 s.test_failed)) [
    | inl e ↦ rw e (some_failed c (ground arith))
    | inr e ↦ rw e (all_passed (ground arith) (ground arith))
  ]

  module _ (rounds fuel : ℕ) (ends : HasEnds p fuel) where
    after_mount :
        (r : Ret (Unit {0})) (s : Suite S)
        → counted s ≡ 0
        → Returns
            (if_failed r (pure 1) (λ _. run_tests p (all_tests p fuel) >> summary p) s)
            (λ (r, t). IsVerdict r t)
    unfolding if_failed pure ◌>>◌ ◌>>=◌ all_tests
    after_mount (failed e) s c = unmounted c
    after_mount (done _) s c =
        Returns-go_on (run_tests p (all_tests p fuel) s) (λ _. summary p) _ _
          ((run_tests-Adds (all_tests p fuel) (all_tests-EachOne fuel ends)).returns s
            (omega (arith, c)))
          (λ _ t e. summary-IsVerdict t (omega (arith, e, c)))

    mount_and_test-IsVerdict :
        (s : Suite S) → counted s ≡ 0 → Returns (mount_and_test p fuel s) (λ (r, t). IsVerdict r t)
    unfolding mount_and_test ◌>>=◌ sys
    mount_and_test-IsVerdict s c = after_mount _ _ c

    -- Where the thread of the backend is created, the session is registered within the rounds of
    -- waiting, and every directory stream ends within its fuel, the main of the correctness tests,
    -- its counters at 0, returns, whatever else the system calls return: 1 with no test counted; or
    -- 0 with 24 tests passed and none failed; or 1 with 24 tests counted of which one or more have
    -- failed.
    pub suite_main-IsVerdict :
        (os : S)
        → (p.thread_create backend_argv os).0 ≡ true
        → Settles p rounds (p.thread_add (p.thread_create backend_argv os).1)
        → Returns
            (suite_main p rounds fuel (record { os = os; test_passed = 0; test_failed = 0 }))
            (λ (r, t). IsVerdict r t)
    unfolding suite_main ◌>>◌ ◌>>=◌ sys run cond
    suite_main-IsVerdict os created settles =
        let s : Suite S = record {
          os = p.thread_add (p.thread_create backend_argv os).1;
          test_passed = 0;
          test_failed = 0;
        } in
        rw created (
          Returns-go_on (wait_session p rounds s) (λ _. mount_and_test p fuel) _ _
            (wait_session-Returns rounds s settles)
            (λ _ t (a, b). mount_and_test-IsVerdict t (omega (arith, a, b))))
