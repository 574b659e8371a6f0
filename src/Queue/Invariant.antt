-- ===== src/Queue/Invariant.antt =====
-- What every interleaving of the queue's operations keeps.
use ukfs_fuse.Common.{
  ℕ, zero, suc, ◌+◌, ◌≤◌, ◌≡◌, refl, ap, ◌∙◌, some, Bool, true, false, List, [], ◌∷◌, ◌++◌,
  append_assoc, arith, length, length-append, replicate,
}
use ukfs_fuse.Queue.{fuse_ukfs_queue_init}
use ukfs_fuse.Queue.Family.{get_elem?, set, weigh, weigh-set, le-weigh}
use ukfs_fuse.Queue.Threads.{
  Shared, Pc, idle, push_locked, push_linked, push_unlocked, pop_claimed, pop_locked, pop_taken,
  crashed, Move, lock_push, insert_tail, unlock_push, down, lock_pop, remove_head, assert_fails,
  unlock_pop, System, Step, pick, init, Reach, start, later,
}

module _ {ℓ} {A : Type ℓ} where
  -- The thread holds the mutex.
  abbrev pub holds : Pc A → ℕ
  holds (push_locked _) = 1
  holds push_linked = 1
  holds pop_locked = 1
  holds (pop_taken _) = 1
  holds _ = 0

  -- A request in the list that the semaphore does not count: its `up` is still to come, or its
  -- `down` is done.
  abbrev pub uncounted : Pc A → ℕ
  uncounted push_linked = 1
  uncounted push_unlocked = 1
  uncounted pop_claimed = 1
  uncounted pop_locked = 1
  uncounted _ = 0

  abbrev pub dead : Pc A → ℕ
  dead crashed = 1
  dead _ = 0

abbrev pub flag : Bool → ℕ
flag true = 1
flag false = 0

module _ {ℓ} {A : Type ℓ} where
  pub record Inv (s : System A) : Type ℓ where
    pub exclusive : weigh holds s.threads ≡ flag s.shared.locked
    pub counted : length s.shared.head ≡ s.shared.count + weigh uncounted s.threads
    pub alive : weigh dead s.threads ≡ 0
    pub order : s.shared.inserted ≡ s.shared.removed ++ s.shared.head

  -- What the sums over the threads become when one thread goes from `p` to `p'`.
  record Counts (ps qs : List (Pc A)) (p p' : Pc A) : Type ℓ where
    holding : weigh holds qs + holds p ≡ weigh holds ps + holds p'
    waiting : weigh uncounted qs + uncounted p ≡ weigh uncounted ps + uncounted p'
    dying : weigh dead qs + dead p ≡ weigh dead ps + dead p'
    held : holds p ≤ weigh holds ps
    claimed : uncounted p ≤ weigh uncounted ps

  counts :
      (ps : List (Pc A)) (i : ℕ) {p : Pc A} (p' : Pc A)
      → get_elem? ps i ≡ some p
      → Counts ps (set ps i p') p p'
  counts ps i {p} p' h = record {
    holding = weigh-set holds ps i p p' h;
    waiting = weigh-set uncounted ps i p p' h;
    dying = weigh-set dead ps i p p' h;
    held = le-weigh holds ps i p h;
    claimed = le-weigh uncounted ps i p h;
  }

  module _ {s : System A} (inv : Inv s) where
    open inv use {exclusive, counted, alive, order}

    Move-exclusive :
        {p p' : Pc A} {m : Shared A} {ps : List (Pc A)}
        → Move s.shared p m p'
        → Counts s.threads ps p p'
        → weigh holds ps ≡ flag m.locked
    Move-exclusive (lock_push g) c = ground arith
    Move-exclusive (lock_pop g) c = ground arith
    Move-exclusive unlock_push c = ground arith
    Move-exclusive unlock_pop c = ground arith
    Move-exclusive (assert_fails g) c = absurd (omega (arith, ap length g))
    Move-exclusive mv c = ground arith

    Move-counted :
        {p p' : Pc A} {m : Shared A} {ps : List (Pc A)}
        → Move s.shared p m p'
        → Counts s.threads ps p p'
        → length m.head ≡ m.count + weigh uncounted ps
    Move-counted (insert_tail {req}) c = omega (arith, length-append s.shared.head (req ∷ []))
    Move-counted (down g) c = ground arith
    Move-counted (remove_head g) c = ground (arith, ap length g)
    Move-counted (assert_fails g) c = absurd (omega (arith, ap length g))
    Move-counted mv c = ground arith

    -- The assertion finds the list empty in no state that keeps the count.
    Move-alive :
        {p p' : Pc A} {m : Shared A} {ps : List (Pc A)}
        → Move s.shared p m p'
        → Counts s.threads ps p p'
        → weigh dead ps ≡ 0
    Move-alive (assert_fails g) c = absurd (omega (arith, ap length g))
    Move-alive mv c = ground arith

    Move-order :
        {p p' : Pc A} {m : Shared A} → Move s.shared p m p' → m.inserted ≡ m.removed ++ m.head
    Move-order (insert_tail {req}) =
        ap (λ (l : List A). l ++ req ∷ []) order ∙ append_assoc s.shared.removed s.shared.head _
    Move-order (remove_head {req} {rest} g) =
        rw (append_assoc s.shared.removed (req ∷ []) rest) (rw (← g) order)
    Move-order mv = order

  -- Every step of every thread keeps the invariant.
  pub Step-Inv : {s t : System A} → Step s t → Inv s → Inv t
  Step-Inv {s} (pick i {p' = q} h mv) inv =
      let c = counts s.threads i q h in
      record {
        exclusive = Move-exclusive inv mv c;
        counted = Move-counted inv mv c;
        alive = Move-alive inv mv c;
        order = Move-order inv mv;
      }

  weigh-replicate : (w : Pc A → ℕ) (n : ℕ) → w idle ≡ 0 → weigh w (replicate n idle) ≡ 0
  weigh-replicate w zero h = refl
  weigh-replicate w (suc n) h = omega (arith, h, weigh-replicate w n h)

  Inv-init : (n : ℕ) → Inv (init n)
  unfolding fuse_ukfs_queue_init init
  Inv-init n = record {
    exclusive = weigh-replicate holds n refl;
    counted = omega (arith, weigh-replicate uncounted n refl);
    alive = weigh-replicate dead n refl;
    order = refl;
  }

  pub Reach-Inv : {n : ℕ} {s : System A} → Reach n s → Inv s
  Reach-Inv {n} start = Inv-init n
  Reach-Inv (later r st) = Step-Inv st (Reach-Inv r)
