-- ===== src/Common/Outcomes.antt =====
-- How a C operation ends, and the allocator that it calls.
use Prim.Native.Nat.{ℕ, zero, suc, ◌+◌, ◌-◌}
use mathlib.Core.Path.{◌≡◌, refl}
use native.Mathlib.Omega.{arith}
use mathlib.Core.Bool.{Bool, true, false}
use mathlib.Core.List.{List, [], ◌∷◌}

-- `blocked`: the thread waits on a semaphore that nobody raises. `fault`: a failed assertion, a
-- write past a buffer, a use of freed memory, or a cast of a reply to the wrong structure.
pub data Exec {ℓ} (A : Type ℓ) : Type ℓ where
  ok : A → Exec A
  blocked : Exec A
  fault : Exec A

infixl 5 ◌>>=◌
abbrev pub ◌>>=◌ {ℓ κ} : {A : Type ℓ} {B : Type κ} → Exec A → (A → Exec B) → Exec B
ok a >>= f = f a
blocked >>= f = blocked
fault >>= f = fault

-- A C `int` or `ssize_t`: a count, or a negative error number. `negsuc n` is -(n + 1).
pub data ℤ : Type 0 where
  pos : ℕ → ℤ
  negsuc : ℕ → ℤ

abbrev pub neg : ℕ → ℤ
neg zero = pos 0
neg (suc n) = negsuc n

-- The test `if (error)`.
abbrev pub is_nonzero : ℤ → Bool
is_nonzero (pos zero) = false
is_nonzero (pos (suc n)) = true
is_nonzero (negsuc n) = true

-- The heap as its clients see it: which of the coming requests it will refuse, and how many blocks
-- are allocated. A refusal that is not announced does not happen.
pub record Mem : Type 0 where
  pub refusals : List Bool
  pub live : ℕ

abbrev next_refused : List Bool → Bool
next_refused [] = false
next_refused (r ∷ rs) = r

abbrev later_refusals : List Bool → List Bool
later_refusals [] = []
later_refusals (r ∷ rs) = rs

-- Whether the block was given, and the heap after the call.
unfoldable pub malloc : Mem → Bool × Mem
malloc m = elim (next_refused m.refusals) [
  | true ↦ (false, record { refusals = later_refusals m.refusals; live = m.live })
  | false ↦ (true, record { refusals = later_refusals m.refusals; live = suc m.live })
]

unfoldable pub free : Mem → Mem
free m = record m { live = m.live - 1 }

-- What a malloc does to the number of blocks.
abbrev pub given : Bool → ℕ
given true = 1
given false = 0

-- The operation comes to an end, with a result that satisfies `P`.
abbrev pub Returns {ℓ} : {A : Type ℓ} → Exec A → (A → Type 0) → Type 0
Returns (ok a) P = P a
Returns blocked P = ⊥
Returns fault P = ⊥

pub malloc-live : (m : Mem) → (malloc m).1.live ≡ m.live + given (malloc m).0
unfolding malloc
malloc-live m = ground arith

-- Inversion of a bind that ends well.
pub >>=-eq-ok {ℓ κ} :
    {A : Type ℓ} {B : Type κ} (x : Exec A) (f : A → Exec B) {b : B}
    → (x >>= f) ≡ ok b
    → (a : A) × (x ≡ ok a) × (f a ≡ ok b)
>>=-eq-ok (ok a) f h = (a, refl, h)
>>=-eq-ok blocked f h = cc
>>=-eq-ok fault f h = cc

pub >>=_assoc {ℓ κ η} :
    {A : Type ℓ} {B : Type κ} {C : Type η} (x : Exec A) (f : A → Exec B) (g : B → Exec C)
    → (x >>= f >>= g) ≡ (x >>= λ a. f a >>= g)
>>=_assoc (ok a) f g = refl
>>=_assoc blocked f g = refl
>>=_assoc fault f g = refl

pub ok-injective {ℓ} : {A : Type ℓ} {a b : A} → ok a ≡ ok b → a ≡ b
ok-injective h = cc
