-- ===== src/Clients/Simulation/Directories.antt =====
-- apps/fuse-correctness-test/main.c: the tests over directories, over two systems of which one
-- refines the other.
use ukfs_fuse.Common.{ℕ, zero, suc}
use ukfs_fuse.Clients.{Posix, root_path, DirEntry}
use ukfs_fuse.Clients.Simulation.{
  Refines, Sim, Sim-pure, Sim-then, Sim-test_fail, Sim-bind, Sim-if_failed, Sim-if_null,
  Sim-blocked, Sim-test_pass,
}
use ukfs_fuse.Clients.Listing.{
  Found, scan_entries, test_readdir_contents, check_entry, check_entries, test_readdir_ino, drain,
  open_and_close, test_readdir_repeated,
}
use ukfs_fuse.Clients.Simulation.Calls.{calls, Sim-readdir, Sim-opendir, Sim-closedir}

module _ {S T : Type 0} (p : Posix S) (q : Posix T) (view : S → T) (r : Refines p q view) where
  pub Sim-scan_entries :
      (f dp : ℕ) (n : Found) → Sim view (scan_entries p f dp n) (scan_entries q f dp n)
  unfolding scan_entries
  Sim-scan_entries zero dp n = Sim-blocked
  Sim-scan_entries (suc f) dp n = search (calls, Sim-scan_entries f dp) depth 30 fits 3000

  pub Sim-check_entry : (de : DirEntry) → Sim view (check_entry p de) (check_entry q de)
  unfolding check_entry
  Sim-check_entry de = search calls depth 30 fits 3000

  pub Sim-check_entries :
      (f dp err : ℕ) → Sim view (check_entries p f dp err) (check_entries q f dp err)
  unfolding check_entries
  Sim-check_entries zero dp err = Sim-blocked
  Sim-check_entries (suc f) dp err =
      search (calls, Sim-check_entry, Sim-check_entries f dp) depth 30 fits 3000

  pub Sim-drain : (f dp : ℕ) → Sim view (drain p f dp) (drain q f dp)
  unfolding drain
  Sim-drain zero dp = Sim-blocked
  Sim-drain (suc f) dp =
      Sim-bind (Sim-readdir p q view r dp)
        (λ de. Sim-if_null de (Sim-pure tt) (λ _. Sim-drain f dp))

  pub Sim-open_and_close : (f n : ℕ) → Sim view (open_and_close p f n) (open_and_close q f n)
  unfolding open_and_close
  Sim-open_and_close f zero = Sim-test_pass
  Sim-open_and_close f (suc n) = Sim-bind (Sim-opendir p q view r root_path) (λ dp.
      Sim-if_failed dp Sim-test_fail (λ dp.
        Sim-then (Sim-drain f dp) (Sim-then (Sim-closedir p q view r dp) (Sim-open_and_close f n))))

  pub Sim-test_readdir_contents :
      (f : ℕ) → Sim view (test_readdir_contents p f) (test_readdir_contents q f)
  unfolding test_readdir_contents
  Sim-test_readdir_contents f = search (calls, Sim-scan_entries) depth 30 fits 3000

  pub Sim-test_readdir_ino : (f : ℕ) → Sim view (test_readdir_ino p f) (test_readdir_ino q f)
  unfolding test_readdir_ino
  Sim-test_readdir_ino f = search (calls, Sim-check_entries) depth 30 fits 3000

  pub Sim-test_readdir_repeated :
      (f : ℕ) → Sim view (test_readdir_repeated p f) (test_readdir_repeated q f)
  unfolding test_readdir_repeated
  Sim-test_readdir_repeated f = Sim-open_and_close f 3

pub ruleset directory_tests =
    (Sim-test_readdir_contents, Sim-test_readdir_ino, Sim-test_readdir_repeated)
