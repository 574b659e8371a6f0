-- ===== src/Clients/Simulation.antt =====
-- apps/fuse-correctness-test/main.c over two systems of which one refines the other: the suite does
-- the same on both.
pub mod Calls
pub mod Tests
pub mod Directories
pub mod Whole
use ukfs_fuse.Common.{
  ℕ, ◌≡◌, refl, ap, ◌∙◌, Bool, true, false, List, Option, none, some, Exec, ok, blocked, fault,
}
use ukfs_fuse.Request.{Stat}
use ukfs_fuse.Clients.{
  Posix, Suite, M, go_on, ◌>>=◌, ◌>>◌, pure, sys, run, if_failed, if_null, cond, test_pass,
  test_fail, Ret, done, failed, Shift, Whence, DirEntry,
}

-- A result, with the state as the other system has it.
abbrev pub seen : {S T A : Type 0} → (S → T) → A × S → A × T
seen view (a, s) = (a, view s)

-- Each call of `p` returns what the same call of `q` returns, from states and to states that
-- correspond.
pub record Refines {S T : Type 0} (p : Posix S) (q : Posix T) (view : S → T) : Type 0 where
  pub stat_as : (path : List ℕ) (s : S) → seen view (p.stat path s) ≡ q.stat path (view s)
  pub fstat_as : (fd : ℕ) (s : S) → seen view (p.fstat fd s) ≡ q.fstat fd (view s)
  pub open_as :
      (path : List ℕ) (s : S) → seen view (p.open_rdonly path s) ≡ q.open_rdonly path (view s)
  pub close_as : (fd : ℕ) (s : S) → view (p.close fd s) ≡ q.close fd (view s)
  pub read_as : (fd n : ℕ) (s : S) → seen view (p.read fd n s) ≡ q.read fd n (view s)
  pub pread_as : (fd n off : ℕ) (s : S) → seen view (p.pread fd n off s) ≡ q.pread fd n off (view s)
  pub lseek_as :
      (fd : ℕ) (by : Shift) (w : Whence) (s : S)
      → seen view (p.lseek fd by w s) ≡ q.lseek fd by w (view s)
  pub opendir_as : (path : List ℕ) (s : S) → seen view (p.opendir path s) ≡ q.opendir path (view s)
  pub readdir_as : (dp : ℕ) (s : S) → seen view (p.readdir dp s) ≡ q.readdir dp (view s)
  pub closedir_as : (dp : ℕ) (s : S) → view (p.closedir dp s) ≡ q.closedir dp (view s)
  pub access_as :
      (path : List ℕ) (mode : ℕ) (s : S)
      → seen view (p.access path mode s) ≡ q.access path mode (view s)
  pub create_as :
      (argv : List (List ℕ)) (s : S)
      → seen view (p.thread_create argv s) ≡ q.thread_create argv (view s)
  pub add_as : (s : S) → view (p.thread_add s) ≡ q.thread_add (view s)
  pub registered_as : (s : S) → seen view (p.session_registered s) ≡ q.session_registered (view s)
  pub yield_as : (s : S) → view (p.yield s) ≡ q.yield (view s)
  pub mount_as :
      (source path fstype : List ℕ) (s : S)
      → seen view (p.mount source path fstype s) ≡ q.mount source path fstype (view s)

-- A system does what it does.
pub Refines-refl : {S : Type 0} (p : Posix S) → Refines p p (λ s. s)
Refines-refl p = record {
  stat_as = λ path s. refl;
  fstat_as = λ fd s. refl;
  open_as = λ path s. refl;
  close_as = λ fd s. refl;
  read_as = λ fd n s. refl;
  pread_as = λ fd n off s. refl;
  lseek_as = λ fd by w s. refl;
  opendir_as = λ path s. refl;
  readdir_as = λ dp s. refl;
  closedir_as = λ dp s. refl;
  access_as = λ path mode s. refl;
  create_as = λ argv s. refl;
  add_as = λ s. refl;
  registered_as = λ s. refl;
  yield_as = λ s. refl;
  mount_as = λ source path fstype s. refl;
}

module _ {S T : Type 0} (view : S → T) where
  -- The state of the suite over the other system.
  abbrev pub over : Suite S → Suite T
  over s = record { os = view s.os; test_passed = s.test_passed; test_failed = s.test_failed }

  abbrev pub ended : {A : Type 0} → Exec (A × Suite S) → Exec (A × Suite T)
  ended (ok (a, s)) = ok (a, over s)
  ended blocked = blocked
  ended fault = fault

-- The part ends alike over the two systems.
pub record Sim {S T A : Type 0} (view : S → T) (m : M S A) (n : M T A) : Type 0 where
  pub sim : (s : Suite S) → ended view (m s) ≡ n (over view s)

module _ {S T : Type 0} {view : S → T} where
  go_on-Sim :
      {A B : Type 0} (x : Exec (A × Suite S)) (k : A → M S B) (l : A → M T B)
      → ((a : A) → Sim view (k a) (l a))
      → ended view (go_on x k) ≡ go_on (ended view x) l
  go_on-Sim (ok (a, s)) k l h = (h a).sim s
  go_on-Sim blocked k l h = refl
  go_on-Sim fault k l h = refl

  pub Sim-bind :
      {A B : Type 0} {m : M S A} {n : M T A} {k : A → M S B} {l : A → M T B}
      → Sim view m n
      → ((a : A) → Sim view (k a) (l a))
      → Sim view (m >>= k) (n >>= l)
  unfolding ◌>>=◌
  Sim-bind {m} {n} {k} {l} h g = record {
    sim = λ s. go_on-Sim (m s) k l g ∙ ap (λ x. go_on x l) (h.sim s);
  }

  pub Sim-then :
      {A B : Type 0} {m : M S A} {n : M T A} {k : M S B} {l : M T B}
      → Sim view m n
      → Sim view k l
      → Sim view (m >> k) (n >> l)
  unfolding ◌>>◌
  Sim-then h g = Sim-bind h (λ _. g)

  pub Sim-pure : {A : Type 0} (a : A) → Sim view (pure a) (pure a)
  unfolding pure
  Sim-pure a = record { sim = λ s. refl }

  pub Sim-tt : Sim view (pure {S = S} tt) (pure {S = T} tt)
  Sim-tt = Sim-pure tt

  pub Sim-blocked : {A : Type 0} → Sim {A = A} view (λ _. blocked) (λ _. blocked)
  Sim-blocked = record { sim = λ s. refl }

  pub Sim-fault : {A : Type 0} → Sim {A = A} view (λ _. fault) (λ _. fault)
  Sim-fault = record { sim = λ s. refl }

  pub Sim-sys :
      {A : Type 0} (f : S → A × S) (g : T → A × T)
      → ((s : S) → seen view (f s) ≡ g (view s))
      → Sim view (sys f) (sys g)
  unfolding sys
  Sim-sys f g h = record {
    sim = λ s. ap (λ (a, t). ok (a, record (over view s) { os = t })) (h s.os);
  }

  pub Sim-run :
      (f : S → S) (g : T → T) → ((s : S) → view (f s) ≡ g (view s)) → Sim view (run f) (run g)
  unfolding run
  Sim-run f g h = record { sim = λ s. ap (λ t. ok (tt, record (over view s) { os = t })) (h s.os) }

  pub Sim-test_pass : Sim view test_pass test_pass
  unfolding test_pass
  Sim-test_pass = record { sim = λ s. refl }

  pub Sim-test_fail : Sim view test_fail test_fail
  unfolding test_fail
  Sim-test_fail = record { sim = λ s. refl }

  pub Sim-if_failed :
      {A B : Type 0} (r : Ret A) {m : M S B} {n : M T B} {k : A → M S B} {l : A → M T B}
      → Sim view m n
      → ((a : A) → Sim view (k a) (l a))
      → Sim view (if_failed r m k) (if_failed r n l)
  unfolding if_failed
  Sim-if_failed (done a) h g = g a
  Sim-if_failed (failed e) h g = h

  pub Sim-if_null :
      {A B : Type 0} (r : Option A) {m : M S B} {n : M T B} {k : A → M S B} {l : A → M T B}
      → Sim view m n
      → ((a : A) → Sim view (k a) (l a))
      → Sim view (if_null r m k) (if_null r n l)
  unfolding if_null
  Sim-if_null none h g = h
  Sim-if_null (some a) h g = g a

  pub Sim-cond :
      {A : Type 0} (b : Bool) {m k : M S A} {n l : M T A}
      → Sim view m n
      → Sim view k l
      → Sim view (cond b m k) (cond b n l)
  unfolding cond
  Sim-cond true h g = h
  Sim-cond false h g = g

pub ruleset sims = (
  Sim-bind, Sim-then, Sim-pure, Sim-tt, Sim-blocked, Sim-fault, Sim-test_pass, Sim-test_fail,
  Sim-if_failed, Sim-if_null, Sim-cond,
)
