-- ===== src/Clients/Balance/Whole.antt =====
-- apps/fuse-correctness-test/main.c: the whole suite closes what it opens, whatever the calls return.
use ukfs_fuse.Common.{
  ℕ, zero, suc, ◌<◌, ◌≡◌, refl, sym, subst, ◌∙◌, arith, true, List, [], ◌∷◌, ltb, Exec, ok, blocked,
  fault, Returns,
}
use ukfs_fuse.Clients.{Posix, Suite, M, Ret, done, failed, DirEntry, root_path}
use ukfs_fuse.Clients.Balance.{
  Tracked, track, count_open, Ends, Owes, Owes-then, Owes-pure, Owes-cond, Owes-test_pass,
  Owes-test_fail, Owes-bind, Owes-after_close, Owes-if_failed, Owes-if_null,
}
use ukfs_fuse.Clients.Balance.Calls.{
  owed_calls, Owes-readdir, Owes-opendir, Owes-closedir, Owes-mount, Owes-session_registered,
  Owes-yield,
}
use ukfs_fuse.Clients.Balance.Tests.{owed_tests}
use ukfs_fuse.Clients.Counted.{HasEnds}
use ukfs_fuse.Clients.Counted.Verdict.{Settles, now, later, suite_main-IsVerdict}
use ukfs_fuse.Clients.Listing.{
  Found, scan_entries, test_readdir_contents, check_entry, check_entries, test_readdir_ino, drain,
  open_and_close, test_readdir_repeated,
}
use ukfs_fuse.Clients.Main.{
  backend_argv, wait_session, all_tests, run_tests, summary, mount_and_test, suite_main,
}

module _ {S : Type 0} (p : Posix S) where
  Owes-blocked : {A : Type 0} → Owes {A = A} 0 (λ (s : Suite (Tracked S)). blocked)
  Owes-blocked = record { owes = λ s. tt }

  Owes-fault : {A : Type 0} → Owes {A = A} 0 (λ (s : Suite (Tracked S)). fault)
  Owes-fault = record { owes = λ s. tt }

  Owes-scan_entries : (f dp : ℕ) (n : Found) → Owes 0 (scan_entries (track p) f dp n)
  unfolding scan_entries
  Owes-scan_entries zero dp n = Owes-blocked
  Owes-scan_entries (suc f) dp n = search (owed_calls, Owes-scan_entries f dp) depth 40 fits 8000

  Owes-check_entry : (de : DirEntry) → Owes 0 (check_entry (track p) de)
  unfolding check_entry
  Owes-check_entry de = search owed_calls depth 40 fits 8000

  Owes-check_entries : (f dp err : ℕ) → Owes 0 (check_entries (track p) f dp err)
  unfolding check_entries
  Owes-check_entries zero dp err = Owes-blocked
  Owes-check_entries (suc f) dp err =
      search (owed_calls, Owes-check_entry, Owes-check_entries f dp) depth 40 fits 8000

  Owes-drain : (f dp : ℕ) → Owes 0 (drain (track p) f dp)
  unfolding drain
  Owes-drain zero dp = Owes-blocked
  Owes-drain (suc f) dp =
      Owes-bind (Owes-readdir p dp) (λ de. Owes-if_null de (Owes-pure tt) (λ _. Owes-drain f dp))

  Owes-open_and_close : (f n : ℕ) → Owes 0 (open_and_close (track p) f n)
  unfolding open_and_close
  Owes-open_and_close f zero = Owes-test_pass
  Owes-open_and_close f (suc n) = Owes-opendir p root_path Owes-test_fail (λ dp.
      Owes-then (Owes-drain f dp) (Owes-after_close (Owes-closedir p dp) (Owes-open_and_close f n)))

  Owes-test_readdir_contents : (f : ℕ) → Owes 0 (test_readdir_contents (track p) f)
  unfolding test_readdir_contents
  Owes-test_readdir_contents f = search (owed_calls, Owes-scan_entries) depth 40 fits 8000

  Owes-test_readdir_ino : (f : ℕ) → Owes 0 (test_readdir_ino (track p) f)
  unfolding test_readdir_ino
  Owes-test_readdir_ino f = search (owed_calls, Owes-check_entries) depth 40 fits 8000

  Owes-test_readdir_repeated : (f : ℕ) → Owes 0 (test_readdir_repeated (track p) f)
  unfolding test_readdir_repeated
  Owes-test_readdir_repeated f = Owes-open_and_close f 3

  data NoneOwes : List (M (Tracked S) (Unit {0})) → Type 0 where
    no_test : NoneOwes []
    one_more :
        {t : M (Tracked S) (Unit {0})} {ts : List (M (Tracked S) (Unit {0}))}
        → Owes 0 t
        → NoneOwes ts
        → NoneOwes (t ∷ ts)

  Owes-run_tests :
      (ts : List (M (Tracked S) (Unit {0}))) → NoneOwes ts → Owes 0 (run_tests (track p) ts)
  unfolding run_tests
  Owes-run_tests [] no_test = Owes-pure tt
  Owes-run_tests (t ∷ ts) (one_more h hs) = Owes-then h (Owes-run_tests ts hs)

  all_tests-NoneOwes : (f : ℕ) → NoneOwes (all_tests (track p) f)
  unfolding all_tests
  all_tests-NoneOwes f =
      search
        (
          no_test, one_more, owed_tests, Owes-test_readdir_contents, Owes-test_readdir_ino,
          Owes-test_readdir_repeated,
        )
        depth 60 fits 3000

  Owes-summary : Owes 0 (summary (track p))
  unfolding summary
  Owes-summary = record {
    owes = λ s. (Owes-cond (ltb 0 s.test_failed) (Owes-pure 1) (Owes-pure 0)).owes s;
  }

  Owes-mount_and_test : (f : ℕ) → Owes 0 (mount_and_test (track p) f)
  unfolding mount_and_test
  Owes-mount_and_test f =
      let tests = Owes-run_tests (all_tests (track p) f) (all_tests-NoneOwes f) in
      Owes-bind (Owes-mount p _ _ _)
        (λ r. Owes-if_failed r (Owes-pure 1) (λ _. Owes-then tests Owes-summary))

  Owes-wait_session : (n : ℕ) → Owes 0 (wait_session (track p) n)
  unfolding wait_session
  Owes-wait_session zero = Owes-blocked
  Owes-wait_session (suc n) =
      Owes-bind (Owes-session_registered p)
        (λ b. Owes-cond b (Owes-pure tt) (Owes-then (Owes-yield p) (Owes-wait_session n)))

  Owes-suite_main : (n f : ℕ) → Owes 0 (suite_main (track p) n f)
  unfolding suite_main
  Owes-suite_main n f =
      search (owed_calls, Owes-wait_session, Owes-mount_and_test, Owes-fault) depth 40 fits 8000

  count_open-inner :
      (t : Tracked S) (x : Ret ℕ × S)
      → ((count_open t x).0 ≡ x.0) × ((count_open t x).1.inner ≡ x.1)
  count_open-inner t (done fd, s) = (refl, refl)
  count_open-inner t (failed e, s) = (refl, refl)

  track-HasEnds : {fuel : ℕ} → HasEnds p fuel → HasEnds (track p) fuel
  track-HasEnds {fuel} ends = record {
    left = λ t dp. ends.left t.inner dp;
    left-opendir = λ path t dp h.
        let same = count_open-inner t (p.opendir path t.inner) in
        subst (λ s. ends.left s dp < fuel) (sym same.1)
          (ends.left-opendir path t.inner dp (sym same.0 ∙ h));
    left-readdir = λ t dp de h. ends.left-readdir t.inner dp de h;
    left-stat = λ path t dp. ends.left-stat path t.inner dp;
  }

  track-Settles : {n : ℕ} (t : Tracked S) → Settles p n t.inner → Settles (track p) n t
  track-Settles {n = zero} t h = elim h [ ]
  track-Settles {n = suc n} t (now e) = now e
  track-Settles {n = suc n} t (later e h) = later e (track-Settles _ h)

  -- The state of a run that has just begun.
  abbrev pub from : S → Suite (Tracked S)
  from os = record {
    os = record { inner = os; opened = 0; closed = 0 };
    test_passed = 0;
    test_failed = 0;
  }

  ended_balanced :
      (s : Suite (Tracked S)) (x : Exec (ℕ × Suite (Tracked S)))
      (P : ℕ × Suite (Tracked S) → Type 0)
      → s.os.opened ≡ s.os.closed
      → Ends 0 s x
      → Returns x P
      → Returns x (λ (r, t). t.os.closed ≡ t.os.opened)
  ended_balanced s (ok (a, t)) P b e r = omega (arith, b, e)
  ended_balanced s blocked P b e r = absurd r
  ended_balanced s fault P b e r = absurd r

  -- Where the thread of the backend is created, the session is registered within the rounds of
  -- waiting, and every directory stream ends within its fuel, the main of the correctness tests
  -- returns having called close and closedir as often as an open or opendir of its own has
  -- succeeded, whatever else the system calls return.
  pub suite_main-balanced :
      (rounds fuel : ℕ)
      → HasEnds p fuel
      → (os : S) → (p.thread_create backend_argv os).0 ≡ true
      → Settles p rounds (p.thread_add (p.thread_create backend_argv os).1)
      → Returns (suite_main (track p) rounds fuel (from os)) (λ (r, t). t.os.closed ≡ t.os.opened)
  suite_main-balanced rounds fuel ends os created settles =
      ended_balanced (from os) (suite_main (track p) rounds fuel (from os)) _ refl
        ((Owes-suite_main rounds fuel).owes (from os))
        (suite_main-IsVerdict (track p) rounds fuel (track-HasEnds ends) (from os).os created
          (track-Settles _ settles))
