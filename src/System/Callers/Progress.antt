-- ===== src/System/Callers/Progress.antt =====
-- Many callers: nobody waits for ever.
use ukfs_fuse.Common.{
  ℕ, suc, ◌⊎◌, inl, inr, ◌+◌, ◌≤◌, ◌<◌, ◌≡◌, refl, sym, ap, ◌∙◌, arith, Option, none, some, List,
  [], ◌∷◌, length, ok-injective, dec_lt, replicate, Mem,
}
use ukfs_fuse.Request.{Request}
use ukfs_fuse.Queue.Family.{get_elem?, weigh, weigh-set}
use ukfs_fuse.Daemon.{Buffer}
use ukfs_fuse.Daemon.Loop.{serve}
use ukfs_fuse.Libfuse.{Session}
use ukfs_fuse.System.Callers.{
  Caller, idle, waiting, Office, Works, pops, serves, wakes, Reach, Serves, Run, stopped,
  then_works, held_by, times, steps_left, work,
}
use ukfs_fuse.System.Callers.Owed.{held_by_self, pop_popped, pop_first}
use ukfs_fuse.System.Callers.Invariant.{
  IsConsistent, IsServed, served, Fine, absent, resting, queued, answered, load, Fine-owed, Fine-at,
  Reach-IsConsistent, Works-IsConsistent,
}

-- An element that weighs something.
weigh-pos :
    {A : Type 0} (w : A → ℕ) (xs : List A)
    → 0 < weigh w xs
    → (i : ℕ) × (x : A) × (get_elem? xs i ≡ some x) × (0 < w x)
weigh-pos w [] h = absurd (omega (arith, h))
weigh-pos w (x ∷ xs) h = elim (dec_lt 0 (w x)) [
  | yes p ↦ (0, x, refl, p)
  | no np ↦ let (i, y, e, p) = weigh-pos w xs (omega (arith, h, np)) in (suc i, y, e, p)
]

steps_waiting : (a now : Request) → now.done ≡ 0 → steps_left (waiting a now) ≡ 2
steps_waiting a now h = rw h refl

steps_served : (a now : Request) (n : ℕ) → now.done ≡ suc n → steps_left (waiting a now) ≡ 1
steps_served a now n h = rw h (ground arith)

steps_some : (a now : Request) → 0 < steps_left (waiting a now)
steps_some a now = ground arith

-- Without steps left, nobody waits.
all_idle : (cs : List Caller) → weigh steps_left cs ≡ 0 → cs ≡ replicate (length cs) idle
all_idle [] e = refl
all_idle (idle ∷ cs) e = ap (λ ds. idle ∷ ds) (all_idle cs (omega (arith, e)))
all_idle (waiting a now ∷ cs) e = absurd (omega (arith, e, steps_some a now))

module _ (se : Session) (Fits : Request → Type 0) (Good : Buffer → Mem → Type 0)
    (keeps : Serves se Fits Good) where
  -- A request that has been served has its semaphore up.
  served_up : {a now : Request} → Fits a → a.done ≡ 0 → IsServed se Fits Good a now → now.done ≡ 1
  served_up {a} {now} fits fresh (served b b' m m' g h) =
      let (b1, r1, m1, k, up, good) = keeps.answers b m a g fits in
      let same = ap (λ x. x.1.done) (ok-injective (sym k ∙ h)) in omega (arith, same, up, fresh)

  -- Each step does a piece of the work that is left.
  Works-work :
      {s t : Office} → IsConsistent se Fits Good s → Works se Fits s t → work s ≡ suc (work t)
  Works-work {s} c (pops i e k) =
      let (rest, h, same) = pop_first i s.queue _ s.queue.head c.unlocked c.counted refl k in
      omega (arith, ap length h, ap (λ q. length q.head) same)
  Works-work {s} c (serves i {asked} {now} {now'} e at h) =
      let mine = ap (held_by i) e ∙ held_by_self i in
      let (one, same, fits, fresh) =
        Fine-owed se Fits Good (Fine-at se Fits Good s i c at) (omega (arith, mine)) in
      let up =
        served_up fits fresh
          (served s.b _ s.m _ c.good (ap (λ r. serve se s.b r s.m) (sym same) ∙ h)) in
      omega (
        arith,
        weigh-set steps_left s.callers i (waiting asked now) (waiting asked now') at,
        steps_waiting asked now (ap (λ r. r.done) same ∙ fresh),
        steps_served asked now' 0 up,
      )
  Works-work {s} c (wakes i n {asked} {now} at h) = omega (
    arith,
    weigh-set steps_left s.callers i (waiting asked now) idle at,
    steps_served asked now n h,
  )

  -- What can be done for a caller that waits, with nothing in the queue or in service.
  wake_up :
      (s : Office) (i : ℕ) (c : Caller)
      → load s i ≡ 0
      → Fine se Fits Good (some c) (load s i)
      → get_elem? s.callers i ≡ some c
      → 0 < steps_left c
      → (t : Office) × Works se Fits s t
  wake_up s i c none_owed (resting e) at h = absurd (omega (arith, h))
  wake_up s i c none_owed (queued a e fits d) at h = absurd (omega (arith, e, none_owed))
  wake_up s i c none_owed (answered e fits d x) at h = (_, wakes i 0 at (served_up fits d x))

  serve_next :
      (s : Office) (i : ℕ) (o : Option Caller)
      → IsConsistent se Fits Good s
      → s.serving ≡ some i
      → get_elem? s.callers i ≡ o
      → Fine se Fits Good o (load s i)
      → (t : Office) × Works se Fits s t
  serve_next s i o c e at (absent z) = absurd (omega (arith, z, ap (held_by i) e, held_by_self i))
  serve_next s i o c e at (resting z) = absurd (omega (arith, z, ap (held_by i) e, held_by_self i))
  serve_next s i o c e at (answered z fits d x) =
      absurd (omega (arith, z, ap (held_by i) e, held_by_self i))
  serve_next s i o c e at (queued a z fits d) =
      let (b', r', m', k, up, good) = keeps.answers s.b s.m a c.good fits in (_, serves i e at k)

  -- Where work is left, a step can be taken.
  progress :
      (s : Office) (o : Option ℕ) (head : List ℕ)
      → IsConsistent se Fits Good s
      → s.serving ≡ o
      → s.queue.head ≡ head
      → 0 < work s
      → (t : Office) × Works se Fits s t
  progress s (some i) head c e h w = serve_next s i (get_elem? s.callers i) c e refl (c.each i)
  progress s none (i ∷ rest) c e h w =
      (_, pops i e (pop_popped i rest s.queue c.unlocked c.counted h))
  progress s none [] c e h w =
      let empty = ap length h in
      let (i, x, at, p) = weigh-pos steps_left s.callers (omega (arith, w, empty)) in
      wake_up s i x (omega (arith, ap (held_by i) e, ap (times i) h))
        (Fine-at se Fits Good s i c at) at p

  Run-work :
      {n : ℕ} {s t : Office}
      → IsConsistent se Fits Good s
      → Run se Fits n s t
      → IsConsistent se Fits Good t × (work s ≡ n + work t)
  Run-work c stopped = (c, omega arith)
  Run-work c (then_works h r) =
      let (c', e) = Run-work (Works-IsConsistent se Fits Good keeps h c) r in
      (c', omega (arith, e, Works-work c h))

  -- Where the daemon answers every request that fits, raising its semaphore once, and what is known
  -- of its buffer and of the heap stays true, from every state that any number of callers and the
  -- daemon can reach, a run of the daemon and of the callers that it wakes, in any order of their
  -- steps and with nothing new submitted, takes at most as many steps as there is work left, and
  -- either can go on, or has taken exactly as many and leaves no caller waiting.
  pub Run-ends :
      {s t : Office} {n : ℕ}
      → Reach se Fits Good s
      → Run se Fits n s t
      → (n ≤ work s)
        × (((u : Office) × Works se Fits t u)
            ⊎ ((n ≡ work s) × (t.callers ≡ replicate (length t.callers) idle)))
  Run-ends {s} {t} {n} reached r =
      let (c, e) = Run-work (Reach-IsConsistent se Fits Good keeps reached) r in
      (
        omega (arith, e),
        elim (dec_lt 0 (work t)) [
          | yes left ↦ inl (progress t t.serving t.queue.head c refl refl left)
          | no done_ ↦ inr (omega (arith, e, done_), all_idle t.callers (omega (arith, done_)))
        ],
      )
