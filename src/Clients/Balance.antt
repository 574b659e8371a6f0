-- ===== src/Clients/Balance.antt =====
-- apps/fuse-correctness-test/main.c: what is opened and closed, counted by a system that wraps
-- another one.
pub mod Calls
pub mod Tests
pub mod Whole
use ukfs_fuse.Common.{
  ℕ, zero, suc, ◌+◌, ◌≡◌, refl, arith, Bool, true, false, Option, none, some, List, Exec, ok,
  blocked, fault,
}
use ukfs_fuse.Request.{Stat}
use ukfs_fuse.Clients.{
  Posix, Suite, M, go_on, ◌>>=◌, ◌>>◌, pure, sys, run, if_failed, if_null, cond, test_pass,
  test_fail, Ret, done, failed, Shift, Whence,
}

-- A system, the descriptors and streams that were opened, and the calls of close and closedir.
pub record Tracked (S : Type 0) : Type 0 where
  pub inner : S
  pub opened : ℕ
  pub closed : ℕ

module _ {S : Type 0} where
  abbrev pub same_counts : {A : Type 0} → Tracked S → A × S → A × Tracked S
  same_counts t (a, s) = (a, record t { inner = s })

  abbrev pub count_open : Tracked S → Ret ℕ × S → Ret ℕ × Tracked S
  count_open t (done fd, s) = (done fd, record t { inner = s; opened = suc t.opened })
  count_open t (failed e, s) = (failed e, record t { inner = s })

  abbrev pub count_close : Tracked S → S → Tracked S
  count_close t s = record t { inner = s; closed = suc t.closed }

  abbrev pub track : Posix S → Posix (Tracked S)
  track p = record {
    stat = λ path t. same_counts t (p.stat path t.inner);
    fstat = λ fd t. same_counts t (p.fstat fd t.inner);
    open_rdonly = λ path t. count_open t (p.open_rdonly path t.inner);
    close = λ fd t. count_close t (p.close fd t.inner);
    read = λ fd n t. same_counts t (p.read fd n t.inner);
    pread = λ fd n off t. same_counts t (p.pread fd n off t.inner);
    lseek = λ fd by w t. same_counts t (p.lseek fd by w t.inner);
    opendir = λ path t. count_open t (p.opendir path t.inner);
    readdir = λ dp t. same_counts t (p.readdir dp t.inner);
    closedir = λ dp t. count_close t (p.closedir dp t.inner);
    access = λ path mode t. same_counts t (p.access path mode t.inner);
    thread_create = λ argv t. same_counts t (p.thread_create argv t.inner);
    thread_add = λ t. record t { inner = p.thread_add t.inner };
    session_registered = λ t. same_counts t (p.session_registered t.inner);
    yield = λ t. record t { inner = p.yield t.inner };
    mount = λ source path fstype t. same_counts t (p.mount source path fstype t.inner);
  }

  -- From `t` to `u`, `n` more were closed than opened.
  abbrev pub Closes : ℕ → Tracked S → Tracked S → Type 0
  Closes n t u = u.closed + t.opened ≡ t.closed + u.opened + n

  -- The same where the part of the suite comes to an end.
  abbrev pub Ends : {A : Type 0} → ℕ → Suite (Tracked S) → Exec (A × Suite (Tracked S)) → Type 0
  Ends n s (ok (a, t)) = Closes n s.os t.os
  Ends n s blocked = Unit {0}
  Ends n s fault = Unit {0}

pub record Owes {S A : Type 0} (n : ℕ) (m : M (Tracked S) A) : Type 0 where
  pub owes : (s : Suite (Tracked S)) → Ends n s (m s)

module _ {S : Type 0} where
  go_on-Ends :
      {A B : Type 0} (i j n : ℕ) (s : Suite (Tracked S)) (x : Exec (A × Suite (Tracked S)))
      (k : A → M (Tracked S) B)
      → i + j ≡ n
      → Ends i s x
      → ((a : A) → Owes j (k a))
      → Ends n s (go_on x k)
  go_on-Ends {B = B} i j n s (ok (a, t)) k e h g = after (k a t) ((g a).owes t)
    where
      after : (y : Exec (B × Suite (Tracked S))) → Ends j t y → Ends n s y
      after (ok (b, u)) e' = omega (arith, h, e, e')
      after blocked e' = tt
      after fault e' = tt
  go_on-Ends i j n s blocked k e h g = tt
  go_on-Ends i j n s fault k e h g = tt

  pub Owes-bind :
      {A B : Type 0} {n : ℕ} {m : M (Tracked S) A} {k : A → M (Tracked S) B}
      → Owes 0 m
      → ((a : A) → Owes n (k a))
      → Owes n (m >>= k)
  unfolding ◌>>=◌
  Owes-bind {n} {m} {k} h g = record {
    owes = λ s. go_on-Ends 0 n n s (m s) k (omega arith) (h.owes s) g;
  }

  pub Owes-then :
      {A B : Type 0} {n : ℕ} {m : M (Tracked S) A} {k : M (Tracked S) B}
      → Owes 0 m
      → Owes n k
      → Owes n (m >> k)
  unfolding ◌>>◌
  Owes-then h g = Owes-bind h (λ _. g)

  -- A call that closes, and what comes after it.
  pub Owes-after_close :
      {A B : Type 0} {n : ℕ} {m : M (Tracked S) A} {k : M (Tracked S) B}
      → Owes 1 m
      → Owes n k
      → Owes (suc n) (m >> k)
  unfolding ◌>>◌ ◌>>=◌
  Owes-after_close {n} {m} {k} h g = record {
    owes = λ s. go_on-Ends 1 n (suc n) s (m s) (λ _. k) (omega arith) (h.owes s) (λ _. g);
  }

  pub Owes-pure : {A : Type 0} (a : A) → Owes 0 (pure {S = Tracked S} a)
  unfolding pure
  Owes-pure a = record { owes = λ s. omega arith }

  pub Owes-test_pass : Owes 0 (test_pass {S = Tracked S})
  unfolding test_pass
  Owes-test_pass = record { owes = λ s. omega arith }

  pub Owes-test_fail : Owes 0 (test_fail {S = Tracked S})
  unfolding test_fail
  Owes-test_fail = record { owes = λ s. omega arith }

  pub Owes-if_failed :
      {A B : Type 0} {n : ℕ} (r : Ret A) {m : M (Tracked S) B} {k : A → M (Tracked S) B}
      → Owes n m
      → ((a : A) → Owes n (k a))
      → Owes n (if_failed r m k)
  unfolding if_failed
  Owes-if_failed (done a) h g = g a
  Owes-if_failed (failed e) h g = h

  pub Owes-if_null :
      {A B : Type 0} {n : ℕ} (r : Option A) {m : M (Tracked S) B} {k : A → M (Tracked S) B}
      → Owes n m
      → ((a : A) → Owes n (k a))
      → Owes n (if_null r m k)
  unfolding if_null
  Owes-if_null none h g = h
  Owes-if_null (some a) h g = g a

  pub Owes-cond :
      {A : Type 0} {n : ℕ} (b : Bool) {m k : M (Tracked S) A}
      → Owes n m
      → Owes n k
      → Owes n (cond b m k)
  unfolding cond
  Owes-cond true h g = h
  Owes-cond false h g = g

  -- A call that neither opens nor closes, and one that closes.
  pub Owes-same : {A : Type 0} (f : S → A × S) → Owes 0 (sys (λ t. same_counts t (f t.inner)))
  unfolding sys
  Owes-same f = record { owes = λ s. omega arith }

  pub Owes-run : (f : S → S) → Owes 1 (run (λ t. count_close t (f t.inner)))
  unfolding run
  Owes-run f = record { owes = λ s. omega arith }

  one_opened :
      {B : Type 0} (n : ℕ) (s u : Suite (Tracked S)) (y : Exec (B × Suite (Tracked S)))
      → u.os.closed ≡ s.os.closed
      → u.os.opened ≡ suc s.os.opened
      → Ends (suc n) u y
      → Ends n s y
  one_opened n s u (ok (b, v)) c o e = omega (arith, c, o, e)
  one_opened n s u blocked c o e = tt
  one_opened n s u fault c o e = tt

  none_opened :
      {B : Type 0} (n : ℕ) (s u : Suite (Tracked S)) (y : Exec (B × Suite (Tracked S)))
      → u.os.closed ≡ s.os.closed
      → u.os.opened ≡ s.os.opened
      → Ends n u y
      → Ends n s y
  none_opened n s u (ok (b, v)) c o e = omega (arith, c, o, e)
  none_opened n s u blocked c o e = tt
  none_opened n s u fault c o e = tt

  opened-Ends :
      {B : Type 0} (n : ℕ) (s : Suite (Tracked S)) (x : Ret ℕ × S) (k : Ret ℕ → M (Tracked S) B)
      → ((e : ℕ) → Owes n (k (failed e)))
      → ((fd : ℕ) → Owes (suc n) (k (done fd)))
      → Ends n s (k (count_open s.os x).0 (record s { os = (count_open s.os x).1 }))
  opened-Ends n s (done fd, t) k h g =
      let u : Suite (Tracked S) = record s { os = (count_open s.os (done fd, t)).1 } in
      one_opened n s u (k (done fd) u) refl refl ((g fd).owes u)
  opened-Ends n s (failed e, t) k h g =
      let u : Suite (Tracked S) = record s { os = (count_open s.os (failed e, t)).1 } in
      none_opened n s u (k (failed e) u) refl refl ((h e).owes u)

  -- Opening: what follows owes one more, unless the call has failed.
  pub Owes-open :
      {B : Type 0} {n : ℕ} (f : S → Ret ℕ × S) (k : Ret ℕ → M (Tracked S) B)
      → ((e : ℕ) → Owes n (k (failed e)))
      → ((fd : ℕ) → Owes (suc n) (k (done fd)))
      → Owes n (sys (λ t. count_open t (f t.inner)) >>= k)
  unfolding sys ◌>>=◌
  Owes-open {n = n} f k h g = record { owes = λ s. opened-Ends n s (f s.os.inner) k h g }

pub ruleset owed = (
  Owes-bind, Owes-then, Owes-after_close, Owes-pure, Owes-test_pass, Owes-test_fail, Owes-if_failed,
  Owes-if_null, Owes-cond,
)
