-- ===== src/System/Callers/Invariant.antt =====
-- Many callers: each request is queued once, or in service, or answered.
use ukfs_fuse.Common.{
  ℕ, zero, suc, ◌+◌, ◌%◌, ◌^◌, ◌<◌, ◌≡◌, ◌≢◌, refl, sym, ap, subst, ◌∙◌, arith, false, Option, none,
  some, List, [], ◌∷◌, ◌++◌, length, length-append, ok, ok-injective, ℕ_discrete, Mem, replicate,
}
use ukfs_fuse.Request.{Request, new_request}
use ukfs_fuse.Queue.{fuse_ukfs_queue_init}
use ukfs_fuse.Queue.Family.{get_elem?, set, get_elem?-set_self}
use ukfs_fuse.Daemon.{Buffer}
use ukfs_fuse.Daemon.Loop.{serve}
use ukfs_fuse.Libfuse.{Session}
use ukfs_fuse.System.Callers.{
  Caller, idle, waiting, Office, Submits, submit, allocates, releases, Works, pops, serves, wakes,
  Reach, opened, submits, works, Serves, times, held_by,
}
use ukfs_fuse.System.Callers.Owed.{
  get_elem?-set_ne, times-append, held_by_self, held_by_ne, pushed, push_pushed, popped, pop_first,
}

-- What the daemon still owes to a caller.
abbrev pub load : Office → ℕ → ℕ
load s i = times i s.queue.head + held_by i s.serving

module _ (se : Session) (Fits : Request → Type 0) (Good : Buffer → Mem → Type 0) where
  -- The request as it is now is what the daemon has made of the one that was submitted.
  pub data IsServed (asked now : Request) : Type 0 where
    served :
        (b b' : Buffer) (m m' : Mem)
        → Good b m
        → serve se b asked m ≡ ok (b', now, m')
        → IsServed asked now

  -- A caller, and how often the daemon owes it something.
  pub data Fine : Option Caller → ℕ → Type 0 where
    absent : {n : ℕ} → n ≡ 0 → Fine none n
    resting : {n : ℕ} → n ≡ 0 → Fine (some idle) n
    queued : {n : ℕ} (a : Request) → n ≡ 1 → Fits a → a.done ≡ 0 → Fine (some (waiting a a)) n
    answered :
        {n : ℕ} {a now : Request}
        → n ≡ 0
        → Fits a
        → a.done ≡ 0
        → IsServed a now
        → Fine (some (waiting a now)) n

  pub record IsConsistent (s : Office) : Type 0 where
    pub unlocked : s.queue.locked ≡ false
    pub counted : s.queue.count ≡ length s.queue.head
    pub good : Good s.b s.m
    pub each : (i : ℕ) → Fine (get_elem? s.callers i) (load s i)

  -- Only the load counts.
  Fine-load : {o : Option Caller} {n n' : ℕ} → n ≡ n' → Fine o n → Fine o n'
  Fine-load {o} e f = subst (λ k. Fine o k) e f

  pub Fine-idle : {n : ℕ} → Fine (some idle) n → n ≡ 0
  Fine-idle (resting e) = e

  -- One caller has changed.
  others :
      (s : Office) (c : Caller) (i : ℕ) (x : Caller) (l : ℕ → ℕ)
      → get_elem? s.callers i ≡ some x
      → ((j : ℕ) → Fine (get_elem? s.callers j) (load s j))
      → Fine (some c) (l i)
      → ((j : ℕ) → i ≢ j → load s j ≡ l j)
      → (j : ℕ) → Fine (get_elem? (set s.callers i c) j) (l j)
  others s c i x l at each mine same j = elim (ℕ_discrete i j) [
    | yes e ↦
        subst (λ k. Fine (get_elem? (set s.callers i c) k) (l k)) e
          (subst (λ o. Fine o (l i)) (sym (get_elem?-set_self s.callers i x c at)) mine)
    | no ne ↦
        subst (λ o. Fine o (l j)) (sym (get_elem?-set_ne s.callers i j c ne))
          (Fine-load (same j ne) (each j))
  ]

  -- A caller that the daemon owes something has its request as it submitted it.
  pub Fine-owed :
      {a now : Request} {n : ℕ}
      → Fine (some (waiting a now)) n
      → 0 < n
      → (n ≡ 1) × (now ≡ a) × Fits a × (a.done ≡ 0)
  Fine-owed (queued a e fits d) h = (e, refl, fits, d)
  Fine-owed (answered e fits d s) h = absurd (omega (arith, e, h))

  -- A caller whose semaphore is up is owed nothing: its request has been served.
  pub Fine-done :
      {a now : Request} {n k : ℕ}
      → Fine (some (waiting a now)) n
      → now.done ≡ suc k
      → (n ≡ 0) × IsServed a now
  Fine-done (queued a e fits d) h = absurd (omega (arith, d, h))
  Fine-done (answered e fits d s) h = (e, s)

  -- A caller that is known.
  pub Fine-at :
      (s : Office) (i : ℕ) {c : Caller}
      → IsConsistent s
      → get_elem? s.callers i ≡ some c
      → Fine (some c) (load s i)
  Fine-at s i c at = subst (λ o. Fine o (load s i)) at (c.each i)

  module _ (keeps : Serves se Fits Good) where
    submit-IsConsistent :
        (s : Office) (i unique : ℕ) (r : Request)
        → IsConsistent s
        → get_elem? s.callers i ≡ some idle
        → Fits r
        → r.done ≡ 0
        → IsConsistent (record s {
          callers = set s.callers i (waiting r r);
          queue = pushed i s.queue;
          unique = unique;
        })
    submit-IsConsistent s i unique r c at fits fresh =
        let l : ℕ → ℕ = λ j. times j (s.queue.head ++ i ∷ []) + held_by j s.serving in
        let more : (j : ℕ) → l j ≡ load s j + held_by j (some i) =
          λ j. omega (arith, times-append j s.queue.head (i ∷ [])) in
        record {
          unlocked = c.unlocked;
          counted = omega (arith, c.counted, length-append s.queue.head (i ∷ []));
          good = c.good;
          each =
              others s (waiting r r) i idle l at c.each
                (queued r (omega (arith, more i, held_by_self i, Fine-idle (Fine-at s i c at))) fits
                  fresh)
                (λ j ne. omega (arith, more j, held_by_ne i j ne));
        }

    pop-IsConsistent :
        (s : Office) (i : ℕ) (rest : List ℕ)
        → IsConsistent s
        → s.serving ≡ none
        → s.queue.head ≡ i ∷ rest
        → IsConsistent (record s { serving = some i; queue = popped rest })
    pop-IsConsistent s i rest c e h = record {
      unlocked = refl;
      counted = refl;
      good = c.good;
      each = λ j.
          let all = ap (λ xs. times j xs) h in
          let free_ = ap (held_by j) e in Fine-load (omega (arith, all, free_)) (c.each j);
    }

    serve-IsConsistent :
        (s : Office) (i : ℕ) (a now now' : Request) (b' : Buffer) (m' : Mem)
        → IsConsistent s
        → s.serving ≡ some i
        → get_elem? s.callers i ≡ some (waiting a now)
        → serve se s.b now s.m ≡ ok (b', now', m')
        → IsConsistent (record s {
          callers = set s.callers i (waiting a now');
          serving = none;
          b = b';
          m = m';
        })
    serve-IsConsistent s i a now now' b' m' c e at h =
        let mine = ap (held_by i) e ∙ held_by_self i in
        let (one, same, fits, fresh) = Fine-owed (Fine-at s i c at) (omega (arith, mine)) in
        let served_as : serve se s.b a s.m ≡ ok (b', now', m') =
          ap (λ r. serve se s.b r s.m) (sym same) ∙ h in
        let (b1, r1, m1, k, up, good) = keeps.answers s.b s.m a c.good fits in
        let equal = ok-injective (sym k ∙ served_as) in
        record {
          unlocked = c.unlocked;
          counted = c.counted;
          good = subst (λ x. Good x.0 x.2) equal good;
          each =
              others s (waiting a now') i (waiting a now) (λ j. times j s.queue.head + 0) at c.each
                (answered (omega (arith, one, mine)) fits fresh
                  (served s.b b' s.m m' c.good served_as))
                (λ j ne. omega (arith, ap (held_by j) e, held_by_ne i j ne));
        }

    wake-IsConsistent :
        (s : Office) (i n : ℕ) (a now : Request)
        → IsConsistent s
        → get_elem? s.callers i ≡ some (waiting a now)
        → now.done ≡ suc n
        → IsConsistent (record s { callers = set s.callers i idle })
    wake-IsConsistent s i n a now c at h = record {
      unlocked = c.unlocked;
      counted = c.counted;
      good = c.good;
      each =
          others s idle i (waiting a now) (load s) at c.each
            (resting (Fine-done (Fine-at s i c at) h).0) (λ j ne. refl);
    }

    Submits-IsConsistent : {s t : Office} → Submits se Fits s t → IsConsistent s → IsConsistent t
    Submits-IsConsistent {s} (submit i opcode input at fits e) c =
        let r = new_request opcode s.unique input in
        let same = ok-injective (sym (push_pushed i s.queue c.unlocked) ∙ e) in
        subst
          (λ q. IsConsistent (record s {
            callers = set s.callers i (waiting r r);
            queue = q;
            unique = (s.unique + 1) % 2 ^ 64;
          }))
          same (submit-IsConsistent s i ((s.unique + 1) % 2 ^ 64) r c at fits refl)
    Submits-IsConsistent {s} allocates c = record {
      unlocked = c.unlocked;
      counted = c.counted;
      good = keeps.after_malloc s.b s.m c.good;
      each = c.each;
    }
    Submits-IsConsistent {s} releases c = record {
      unlocked = c.unlocked;
      counted = c.counted;
      good = keeps.after_free s.b s.m c.good;
      each = c.each;
    }

    pub Works-IsConsistent : {s t : Office} → Works se Fits s t → IsConsistent s → IsConsistent t
    Works-IsConsistent {s} (pops i e k) c =
        let (rest, h, same) = pop_first i s.queue _ s.queue.head c.unlocked c.counted refl k in
        subst (λ q. IsConsistent (record s { serving = some i; queue = q })) (sym same)
          (pop-IsConsistent s i rest c e h)
    Works-IsConsistent {s} (serves i e at h) c = serve-IsConsistent s i _ _ _ _ _ c e at h
    Works-IsConsistent {s} (wakes i n at h) c = wake-IsConsistent s i n _ _ c at h

    idle_at : (n i : ℕ) → Fine (get_elem? (replicate n idle) i) 0
    idle_at zero i = absent refl
    idle_at (suc n) zero = resting refl
    idle_at (suc n) (suc i) = idle_at n i

    pub Reach-IsConsistent : {s : Office} → Reach se Fits Good s → IsConsistent s
    unfolding fuse_ukfs_queue_init
    Reach-IsConsistent (opened n unique g) = record {
      unlocked = refl;
      counted = refl;
      good = g;
      each = λ i. idle_at n i;
    }
    Reach-IsConsistent (submits r h) = Submits-IsConsistent h (Reach-IsConsistent r)
    Reach-IsConsistent (works r h) = Works-IsConsistent h (Reach-IsConsistent r)

    -- Where the daemon answers every request that fits, raising its semaphore once, and what is
    -- known of its buffer and of the heap stays true, in every state that any number of callers and
    -- the daemon can reach, a waiting caller whose semaphore is up has in its request what the
    -- daemon has made of the very request that this caller submitted.
    pub own_answer :
        {s : Office} {a now : Request} (i n : ℕ)
        → Reach se Fits Good s
        → get_elem? s.callers i ≡ some (waiting a now)
        → now.done ≡ suc n
        → IsServed a now
    own_answer {s} i n r at h = (Fine-done (Fine-at s i (Reach-IsConsistent r) at) h).1
