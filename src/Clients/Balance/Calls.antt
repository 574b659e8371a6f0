-- ===== src/Clients/Balance/Calls.antt =====
-- The calls of the suite over a system that counts what is opened and closed.
use ukfs_fuse.Common.{ℕ, suc, List, arith}
use ukfs_fuse.Clients.{Posix, M, ◌>>=◌, sys, run, if_failed, Shift, Whence}
use ukfs_fuse.Clients.Balance.{Tracked, track, Owes, Owes-same, Owes-run, Owes-open, owed}

module _ {S : Type 0} (p : Posix S) where
  pub Owes-stat : (path : List ℕ) → Owes 0 (sys ((track p).stat path))
  Owes-stat path = Owes-same (p.stat path)

  pub Owes-fstat : (fd : ℕ) → Owes 0 (sys ((track p).fstat fd))
  Owes-fstat fd = Owes-same (p.fstat fd)

  pub Owes-close : (fd : ℕ) → Owes 1 (run ((track p).close fd))
  Owes-close fd = Owes-run (p.close fd)

  pub Owes-read : (fd n : ℕ) → Owes 0 (sys ((track p).read fd n))
  Owes-read fd n = Owes-same (p.read fd n)

  pub Owes-pread : (fd n off : ℕ) → Owes 0 (sys ((track p).pread fd n off))
  Owes-pread fd n off = Owes-same (p.pread fd n off)

  pub Owes-lseek : (fd : ℕ) (by : Shift) (w : Whence) → Owes 0 (sys ((track p).lseek fd by w))
  Owes-lseek fd by w = Owes-same (p.lseek fd by w)

  pub Owes-readdir : (dp : ℕ) → Owes 0 (sys ((track p).readdir dp))
  Owes-readdir dp = Owes-same (p.readdir dp)

  pub Owes-closedir : (dp : ℕ) → Owes 1 (run ((track p).closedir dp))
  Owes-closedir dp = Owes-run (p.closedir dp)

  pub Owes-access : (path : List ℕ) (mode : ℕ) → Owes 0 (sys ((track p).access path mode))
  Owes-access path mode = Owes-same (p.access path mode)

  pub Owes-thread_create : (argv : List (List ℕ)) → Owes 0 (sys ((track p).thread_create argv))
  Owes-thread_create argv = Owes-same (p.thread_create argv)

  pub Owes-session_registered : Owes 0 (sys ((track p).session_registered))
  Owes-session_registered = Owes-same p.session_registered

  pub Owes-mount : (source path fstype : List ℕ) → Owes 0 (sys ((track p).mount source path fstype))
  Owes-mount source path fstype = Owes-same (p.mount source path fstype)

  pub Owes-open_rdonly :
      {B : Type 0} {n : ℕ} (path : List ℕ) {m : M (Tracked S) B} {k : ℕ → M (Tracked S) B}
      → Owes n m
      → ((fd : ℕ) → Owes (suc n) (k fd))
      → Owes n (sys ((track p).open_rdonly path) >>= λ r. if_failed r m k)
  unfolding if_failed
  Owes-open_rdonly path {m} {k} h g =
      Owes-open (p.open_rdonly path) (λ r. if_failed r m k) (λ e. h) g

  pub Owes-opendir :
      {B : Type 0} {n : ℕ} (path : List ℕ) {m : M (Tracked S) B} {k : ℕ → M (Tracked S) B}
      → Owes n m
      → ((fd : ℕ) → Owes (suc n) (k fd))
      → Owes n (sys ((track p).opendir path) >>= λ r. if_failed r m k)
  unfolding if_failed
  Owes-opendir path {m} {k} h g = Owes-open (p.opendir path) (λ r. if_failed r m k) (λ e. h) g

  pub Owes-thread_add : Owes 0 (run (track p).thread_add)
  unfolding run
  Owes-thread_add = record { owes = λ s. omega arith }

  pub Owes-yield : Owes 0 (run (track p).yield)
  unfolding run
  Owes-yield = record { owes = λ s. omega arith }

pub ruleset owed_calls = (
  owed, Owes-stat, Owes-fstat, Owes-close, Owes-read, Owes-pread, Owes-lseek, Owes-readdir,
  Owes-closedir, Owes-access, Owes-thread_create, Owes-session_registered, Owes-mount,
  Owes-open_rdonly, Owes-opendir, Owes-thread_add, Owes-yield,
)
