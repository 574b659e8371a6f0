-- ===== src/Clients/Simulation/Calls.antt =====
-- The calls of the suite over two systems of which one refines the other.
use ukfs_fuse.Common.{ℕ, List}
use ukfs_fuse.Clients.{Posix, sys, run, Shift, Whence}
use ukfs_fuse.Clients.Simulation.{
  Refines, Sim, over, ended, Sim-sys, Sim-run, Sim-pure, Sim-cond, Sim-then, Sim-test_fail,
  Sim-bind, Sim-if_failed, Sim-if_null, Sim-blocked, Sim-test_pass, sims,
}

module _ {S T : Type 0} (p : Posix S) (q : Posix T) (view : S → T) (r : Refines p q view) where
  pub Sim-stat : (path : List ℕ) → Sim view (sys (p.stat path)) (sys (q.stat path))
  Sim-stat path = Sim-sys _ _ (r.stat_as path)

  pub Sim-fstat : (fd : ℕ) → Sim view (sys (p.fstat fd)) (sys (q.fstat fd))
  Sim-fstat fd = Sim-sys _ _ (r.fstat_as fd)

  pub Sim-open_rdonly :
      (path : List ℕ) → Sim view (sys (p.open_rdonly path)) (sys (q.open_rdonly path))
  Sim-open_rdonly path = Sim-sys _ _ (r.open_as path)

  pub Sim-close : (fd : ℕ) → Sim view (run (p.close fd)) (run (q.close fd))
  Sim-close fd = Sim-run _ _ (r.close_as fd)

  pub Sim-read : (fd n : ℕ) → Sim view (sys (p.read fd n)) (sys (q.read fd n))
  Sim-read fd n = Sim-sys _ _ (r.read_as fd n)

  pub Sim-pread : (fd n off : ℕ) → Sim view (sys (p.pread fd n off)) (sys (q.pread fd n off))
  Sim-pread fd n off = Sim-sys _ _ (r.pread_as fd n off)

  pub Sim-lseek :
      (fd : ℕ) (by : Shift) (w : Whence) → Sim view (sys (p.lseek fd by w)) (sys (q.lseek fd by w))
  Sim-lseek fd by w = Sim-sys _ _ (r.lseek_as fd by w)

  pub Sim-opendir : (path : List ℕ) → Sim view (sys (p.opendir path)) (sys (q.opendir path))
  Sim-opendir path = Sim-sys _ _ (r.opendir_as path)

  pub Sim-readdir : (dp : ℕ) → Sim view (sys (p.readdir dp)) (sys (q.readdir dp))
  Sim-readdir dp = Sim-sys _ _ (r.readdir_as dp)

  pub Sim-closedir : (dp : ℕ) → Sim view (run (p.closedir dp)) (run (q.closedir dp))
  Sim-closedir dp = Sim-run _ _ (r.closedir_as dp)

  pub Sim-access :
      (path : List ℕ) (mode : ℕ) → Sim view (sys (p.access path mode)) (sys (q.access path mode))
  Sim-access path mode = Sim-sys _ _ (r.access_as path mode)

  pub Sim-thread_create :
      (argv : List (List ℕ)) → Sim view (sys (p.thread_create argv)) (sys (q.thread_create argv))
  Sim-thread_create argv = Sim-sys _ _ (r.create_as argv)

  pub Sim-thread_add : Sim view (run p.thread_add) (run q.thread_add)
  Sim-thread_add = Sim-run _ _ r.add_as

  pub Sim-session_registered : Sim view (sys p.session_registered) (sys q.session_registered)
  Sim-session_registered = Sim-sys _ _ r.registered_as

  pub Sim-yield : Sim view (run p.yield) (run q.yield)
  Sim-yield = Sim-run _ _ r.yield_as

  pub Sim-mount :
      (source path fstype : List ℕ)
      → Sim view (sys (p.mount source path fstype)) (sys (q.mount source path fstype))
  Sim-mount source path fstype = Sim-sys _ _ (r.mount_as source path fstype)

pub ruleset calls = (
  sims, Sim-stat, Sim-fstat, Sim-open_rdonly, Sim-close, Sim-read, Sim-pread, Sim-lseek,
  Sim-opendir, Sim-readdir, Sim-closedir, Sim-access, Sim-thread_create, Sim-thread_add,
  Sim-session_registered, Sim-yield, Sim-mount,
)
