-- ===== src/System/Callers/Owed.antt =====
-- Many callers: what a push and a pop do to the queue and to what the daemon owes.
use ukfs_fuse.Common.{
  ℕ, zero, suc, ◌+◌, ◌≡◌, ◌≢◌, refl, sym, ap, ◌∙◌, arith, false, some, List, [], ◌∷◌, ◌++◌, length,
  Exec, ok, blocked, ok-injective,
}
use ukfs_fuse.Queue.{Queue, fuse_ukfs_queue_push, fuse_ukfs_queue_pop, remove_first}
use ukfs_fuse.Queue.Family.{get_elem?, set}
use ukfs_fuse.System.Callers.{times, held_by}

module _ {ℓ} {A : Type ℓ} where
  pub get_elem?-set_ne :
      (xs : List A) (i j : ℕ) (y : A) → i ≢ j → get_elem? (set xs i y) j ≡ get_elem? xs j
  get_elem?-set_ne [] i j y h = refl
  get_elem?-set_ne (x ∷ xs) zero zero y h = absurd (h refl)
  get_elem?-set_ne (x ∷ xs) zero (suc j) y h = refl
  get_elem?-set_ne (x ∷ xs) (suc i) zero y h = refl
  get_elem?-set_ne (x ∷ xs) (suc i) (suc j) y h = get_elem?-set_ne xs i j y (λ e. h (ap suc e))

pub times-append : (i : ℕ) (xs ys : List ℕ) → times i (xs ++ ys) ≡ times i xs + times i ys
times-append i [] ys = omega arith
times-append i (x ∷ xs) ys = ap (λ n. held_by i (some x) + n) (times-append i xs ys) ∙ omega arith

pub held_by_self : (i : ℕ) → held_by i (some i) ≡ 1
held_by_self i = ground arith

pub held_by_ne : (i j : ℕ) → i ≢ j → held_by j (some i) ≡ 0
held_by_ne i j h = ground (arith, h)

-- The queue that a push leaves.
abbrev pub pushed : ℕ → Queue ℕ → Queue ℕ
pushed i q = record q { head = q.head ++ i ∷ []; count = q.count + 1 }

pub push_pushed :
    (i : ℕ) (q : Queue ℕ) → q.locked ≡ false → fuse_ukfs_queue_push i q ≡ ok (pushed i q)
unfolding fuse_ukfs_queue_push
push_pushed i q h = rw h refl

-- The queue that a pop leaves.
abbrev pub popped : List ℕ → Queue ℕ
popped rest = record { head = rest; locked = false; count = length rest }

pub pop_popped :
    (i : ℕ) (rest : List ℕ) (q : Queue ℕ)
    → q.locked ≡ false
    → q.count ≡ length q.head
    → q.head ≡ i ∷ rest
    → fuse_ukfs_queue_pop q ≡ ok (i, popped rest)
unfolding fuse_ukfs_queue_pop remove_first
pop_popped i rest q h c e =
    let more : q.count ≡ suc (length rest) = c ∙ ap length e in
    rw (more, h, e) (ap (λ l. ok (i, record { head = rest; locked = l; count = length rest })) h)

pop_nothing : {A : Type 0} (q : Queue A) → q.count ≡ 0 → fuse_ukfs_queue_pop q ≡ blocked
unfolding fuse_ukfs_queue_pop
pop_nothing q h = rw h refl

pub pop_first :
    (i : ℕ) (q q' : Queue ℕ) (head : List ℕ)
    → q.locked ≡ false
    → q.count ≡ length q.head
    → q.head ≡ head
    → fuse_ukfs_queue_pop q ≡ ok (i, q')
    → (rest : List ℕ) × (head ≡ i ∷ rest) × (q' ≡ popped rest)
pop_first i q q' [] h c e k =
    let clash : ◌≡◌ {A = Exec (ℕ × Queue ℕ)} blocked (ok (i, q')) =
      sym (pop_nothing q (c ∙ ap length e)) ∙ k in
    absurd cc
pop_first i q q' (x ∷ rest) h c e k =
    let same = ok-injective (sym k ∙ pop_popped x rest q h c e) in
    (rest, ap (λ y. y ∷ rest) (sym (ap (λ r. r.0) same)), ap (λ r. r.1) same)
