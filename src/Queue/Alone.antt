-- ===== src/Queue/Alone.antt =====
-- libs/ukfusefs/fuse_queue.c: a thread that is not interrupted runs its operation to the result
-- that the functions of `Queue` compute.
use ukfs_fuse.Common.{
  ℕ, subst, sym, inl, inr, ◌∙◌, Bool-cases, ◌≡◌, refl, ap, some, [], ◌∷◌, ◌++◌, arith, ok,
}
use ukfs_fuse.Queue.{Queue, fuse_ukfs_queue_push, fuse_ukfs_queue_pop}
use ukfs_fuse.Queue.Family.{get_elem?, set, get_elem?-set_self}
use ukfs_fuse.Queue.Threads.{
  Shared, Pc, idle, Move, System, call_push, lock_push, insert_tail, unlock_push, up, call_pop,
  down, lock_pop, remove_head, unlock_pop,
}

module _ {ℓ} {A : Type ℓ} where
  -- Moves of one thread, one after the other.
  pub data Moves (s : Shared A) (p : Pc A) : Shared A → Pc A → Type ℓ where
    done : Moves s p s p
    then_move : {m m' : Shared A} {q q' : Pc A} → Moves s p m q → Move m q m' q' → Moves s p m' q'

  -- Steps of the system in which thread `i` moves each time.
  pub data StepsOf (i : ℕ) (s : System A) : System A → Type ℓ where
    here : StepsOf i s s
    next :
        {t : System A} {p p' : Pc A} {m : Shared A}
        → StepsOf i s t
        → get_elem? t.threads i ≡ some p
        → Move t.shared p m p'
        → StepsOf i s (record { shared = m; threads = set t.threads i p' })

  -- Moves of thread `i` are steps of the system.
  Moves-Steps :
      {s : System A} (i : ℕ) {p q : Pc A} {m : Shared A}
      → get_elem? s.threads i ≡ some p
      → Moves s.shared p m q
      → (t : System A) × StepsOf i s t × (t.shared ≡ m) × (get_elem? t.threads i ≡ some q)
  Moves-Steps {s} i h done = (s, here, refl, h)
  Moves-Steps i {q = q'} {m = m'} h (then_move {m} {q} mvs mv) =
      let (t, st, e, at) = Moves-Steps i h mvs in
      (
        record { shared = m'; threads = set t.threads i q' },
        next st at (subst (λ x. Move x q m' q') (sym e) mv),
        refl,
        get_elem?-set_self t.threads i q q' at,
      )

  module _ (s : System A) (i : ℕ) (idles : get_elem? s.threads i ≡ some idle) where
    abbrev Ends : Queue A → Type ℓ
    Ends q =
        (t : System A) × StepsOf i s t × (t.shared.queue ≡ q) × (get_elem? t.threads i ≡ some idle)

    -- From any state in which thread i is idle and the mutex is free, a run in which thread i makes
    -- every step leads to the queue that fuse_ukfs_queue_push computes, and thread i is idle again.
    pub push_alone :
        (req : A) (q : Queue A) → fuse_ukfs_queue_push req s.shared.queue ≡ ok q → Ends q
    unfolding fuse_ukfs_queue_push
    push_alone req q h = elim (Bool-cases s.shared.locked) [
      | inl shut ↦ ground (arith, h, shut)
      | inr free ↦
          let (t, st, e, at) = Moves-Steps i idles (
            then_move
              (then_move
                (then_move (then_move (then_move done (call_push req)) (lock_push free))
                  insert_tail)
                unlock_push)
              up) in
          (t, st, ap (λ (m : Shared A). m.queue) e ∙ ground (arith, h, free), at)
    ]

    -- From any state in which thread i is idle, the mutex is free and a request is there, a run in
    -- which thread i makes every step leads to the queue that fuse_ukfs_queue_pop computes, with
    -- the request it returns unlinked, and thread i is idle again.
    pub pop_alone :
        (req : A) (q : Queue A)
        → fuse_ukfs_queue_pop s.shared.queue ≡ ok (req, q)
        → (t : System A) × StepsOf i s t
          × (t.shared.queue ≡ q)
          × (t.shared.removed ≡ s.shared.removed ++ req ∷ [])
          × (get_elem? t.threads i ≡ some idle)
    unfolding fuse_ukfs_queue_pop
    pop_alone req q h = elim (Bool-cases s.shared.locked) [
      | inl shut ↦ ground (arith, h, shut)
      | inr free ↦
          let (t, st, e, at) = Moves-Steps i idles (
            then_move
              (then_move
                (then_move (then_move (then_move done call_pop) (down (ground (arith, h, free))))
                  (lock_pop free))
                (remove_head {req = req} {rest = q.head} (ground (arith, h, free))))
              unlock_pop) in
          (
            t,
            st,
            ap (λ (m : Shared A). m.queue) e ∙ (ground (arith, h, free)),
            ap (λ (m : Shared A). m.removed) e,
            at,
          )
    ]
