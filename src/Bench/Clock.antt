-- ===== src/Bench/Clock.antt =====
-- apps/fuse-perf-test/main.c: with a clock that does not run backwards the samples are parts of the
-- time that passes, and the benchmarks report on all of them.
use ukfs_fuse.Common.{
  ℕ, zero, suc, ◌+◌, ◌^◌, ◌≤◌, ◌<◌, ◌≡◌, refl, ap, subst, arith, List, [], ◌∷◌, length, Exec, ok,
  blocked, fault, ◌>>=◌, Returns,
}
use ukfs_fuse.Clients.{Posix, Shift, Whence}
use ukfs_fuse.Clients.Counted.{Returns-mono}
use ukfs_fuse.Bench.{Statistics}
use ukfs_fuse.Bench.Sorted.{sum}
use ukfs_fuse.Bench.Stats.{IsSummary}
use ukfs_fuse.Bench.Loops.{Machine, timed, sample, repeat}

-- `now` is the time-stamp counter, which does not wrap, and which no call turns back.
pub record HasClock {S : Type 0} (m : Machine S) (p : Posix S) : Type 0 where
  pub now : S → ℕ
  pub no_wrap : (s : S) → now s < 2 ^ 64
  pub rdtsc-now : (s : S) → (m.rdtsc s).0 ≡ now s
  pub after_rdtsc : (s : S) → now s ≤ now (m.rdtsc s).1
  pub after_stat : (path : List ℕ) (s : S) → now s ≤ now (p.stat path s).1
  pub after_open : (path : List ℕ) (s : S) → now s ≤ now (p.open_rdonly path s).1
  pub after_close : (fd : ℕ) (s : S) → now s ≤ now (p.close fd s)
  pub after_read : (fd n : ℕ) (s : S) → now s ≤ now (p.read fd n s).1
  pub after_pread : (fd n off : ℕ) (s : S) → now s ≤ now (p.pread fd n off s).1
  pub after_lseek : (fd : ℕ) (by : Shift) (w : Whence) (s : S) → now s ≤ now (p.lseek fd by w s).1
  pub after_opendir : (path : List ℕ) (s : S) → now s ≤ now (p.opendir path s).1
  pub after_readdir : (dp : ℕ) (s : S) → now s ≤ now (p.readdir dp s).1
  pub after_closedir : (dp : ℕ) (s : S) → now s ≤ now (p.closedir dp s)

pub Returns-bind :
    {A B : Type 0} (x : Exec A) (f : A → Exec B) (P : A → Type 0) (Q : B → Type 0)
    → Returns x P
    → ((a : A) → P a → Returns (f a) Q)
    → Returns (x >>= f) Q
Returns-bind (ok a) f P Q h g = g a h
Returns-bind blocked f P Q h g = absurd h
Returns-bind fault f P Q h g = absurd h

-- What has returned has a result.
pub Returns-ok :
    {A : Type 0} (x : Exec A) (P : A → Type 0) → Returns x P → (a : A) × (x ≡ ok a) × P a
Returns-ok (ok a) P h = (a, refl, h)
Returns-ok blocked P h = absurd h
Returns-ok fault P h = absurd h

module _ {S : Type 0} (m : Machine S) (p : Posix S) (clock : HasClock m p) where
  -- The work ends, and the clock has not gone back.
  abbrev pub Ticks : (S → Exec S) → Type 0
  Ticks work = (s : S) → Returns (work s) (λ t. clock.now s ≤ clock.now t)

  pub repeat-Ticks : (n : ℕ) (work : S → Exec S) → Ticks work → Ticks (repeat m n work)
  unfolding repeat
  repeat-Ticks zero work h s = omega arith
  repeat-Ticks (suc n) work h s = Returns-bind (work s) (repeat m n work) _ _ (h s) (λ t e.
      Returns-mono (repeat m n work t) (repeat-Ticks n work h t) (λ u e'. omega (arith, e, e')))

  -- Samples taken between two states: behind what comes in front of a round and the first reading, the
  -- work ends; a sample is the time from the first reading to the second, behind the work.
  pub data Sampled (before : S → S) (work : S → Exec S) : ℕ → S → List ℕ → S → Type 0 where
    no_sample : {s : S} → Sampled before work zero s [] s
    then_sample :
        {n x : ℕ} {s t u : S} {xs : List ℕ}
        → work (m.rdtsc (before s)).1 ≡ ok t
        → x + clock.now (before s) ≡ clock.now t
        → Sampled before work n (m.rdtsc t).1 xs u
        → Sampled before work (suc n) s (x ∷ xs) u

  timed-now :
      (work : S → Exec S) (s : S)
      → Ticks work
      → Returns (timed m work s) (λ (x, v).
        (t : S) × (work (m.rdtsc s).1 ≡ ok t)
        × (x + clock.now s ≡ clock.now t)
        × (v ≡ (m.rdtsc t).1))
  unfolding timed
  timed-now work s h =
      let (t, e, later) = Returns-ok (work (m.rdtsc s).1) _ (h (m.rdtsc s).1) in
      rw e (
        t,
        refl,
        omega (
          arith,
          later,
          clock.rdtsc-now s,
          clock.rdtsc-now t,
          clock.after_rdtsc s,
          clock.no_wrap t,
        ),
        refl,
      )

  -- Samples of so many rounds, which fit in the time between two states.
  pub record Taken (before : S → S) (work : S → Exec S) (n : ℕ) (s : S) (x : List ℕ × S)
      : Type 0 where
    pub many : length x.0 ≡ n
    pub in_time : sum x.0 + clock.now s ≤ clock.now x.1
    pub each : Sampled before work n s x.0 x.1

  pub sample-Taken :
      (n : ℕ) (before : S → S) (work : S → Exec S)
      → ((s : S) → clock.now s ≤ clock.now (before s))
      → Ticks work
      → (s : S) → Returns (sample m n before work s) (Taken before work n s)
  unfolding sample
  sample-Taken zero before work b h s = record {
    many = refl;
    in_time = omega arith;
    each = no_sample;
  }
  sample-Taken (suc n) before work b h s =
      Returns-bind (timed m work (before s)) _ _ _ (timed-now work (before s) h)
        (λ (x, v) (t, e, d, k).
          Returns-bind (sample m n before work v) _ _ _ (sample-Taken n before work b h v)
            (λ (xs, u) r. record {
              many = ap suc r.many;
              in_time = omega (arith, d, ap clock.now k, clock.after_rdtsc t, r.in_time, b s);
              each = then_sample e d (subst (λ w. Sampled before work n w xs u) k r.each);
            }))

  -- A run of a benchmark: `k` rounds of a warmup, and the statistics of `n` samples.
  pub data Ran (k n : ℕ) (warmup : S → Exec S) (before : S → S) (work : S → Exec S) (s : S)
      : Statistics → S → Type 0 where
    ran :
        {r : Statistics} {t u : S} {xs : List ℕ}
        → repeat m k warmup s ≡ ok t
        → Sampled before work n t xs u
        → IsSummary xs r
        → r.samples ≡ n
        → Ran k n warmup before work s r u
