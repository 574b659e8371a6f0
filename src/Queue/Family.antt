-- ===== src/Queue/Family.antt =====
-- The threads of a system as a list: replacing one, and sums of weights over all.
use ukfs_fuse.Common.{
  ℕ, zero, suc, ◌+◌, ◌≤◌, ◌≡◌, ◌≢◌, refl, ap, Option, none, some, List, [], ◌∷◌, arith,
}

module _ {ℓ} {A : Type ℓ} where
  abbrev pub get_elem? : List A → ℕ → Option A
  get_elem? [] i = none
  get_elem? (x ∷ xs) zero = some x
  get_elem? (x ∷ xs) (suc i) = get_elem? xs i

  abbrev pub set : List A → ℕ → A → List A
  set [] i v = []
  set (x ∷ xs) zero v = v ∷ xs
  set (x ∷ xs) (suc i) v = x ∷ set xs i v

  abbrev pub weigh : (A → ℕ) → List A → ℕ
  weigh w [] = 0
  weigh w (x ∷ xs) = w x + weigh w xs

  -- Replacing one element changes the sum by the difference of the two weights.
  pub weigh-set :
      (w : A → ℕ) (xs : List A) (i : ℕ) (x y : A)
      → get_elem? xs i ≡ some x
      → weigh w (set xs i y) + w x ≡ weigh w xs + w y
  weigh-set w [] i x y h = cc
  weigh-set w (z ∷ xs) zero x y h = ground arith
  weigh-set w (z ∷ xs) (suc i) x y h = ground (arith, weigh-set w xs i x y h)

  pub le-weigh :
      (w : A → ℕ) (xs : List A) (i : ℕ) (x : A) → get_elem? xs i ≡ some x → w x ≤ weigh w xs
  le-weigh w [] i x h = cc
  le-weigh w (z ∷ xs) zero x h = ground arith
  le-weigh w (z ∷ xs) (suc i) x h = ground (arith, le-weigh w xs i x h)

  -- Two places weigh together at most what all do.
  pub add-le-weigh :
      (w : A → ℕ) (xs : List A) (i j : ℕ) (x y : A)
      → i ≢ j
      → get_elem? xs i ≡ some x
      → get_elem? xs j ≡ some y
      → w x + w y ≤ weigh w xs
  add-le-weigh w [] i j x y ne h k = cc
  add-le-weigh w (z ∷ xs) zero zero x y ne h k = absurd (ne refl)
  add-le-weigh w (z ∷ xs) zero (suc j) x y ne h k = ground (arith, le-weigh w xs j y k)
  add-le-weigh w (z ∷ xs) (suc i) zero x y ne h k = ground (arith, le-weigh w xs i x h)
  add-le-weigh w (z ∷ xs) (suc i) (suc j) x y ne h k =
      omega (arith, add-le-weigh w xs i j x y (λ e. ne (ap suc e)) h k)

  pub get_elem?-set_self :
      (xs : List A) (i : ℕ) (x y : A) → get_elem? xs i ≡ some x → get_elem? (set xs i y) i ≡ some y
  get_elem?-set_self [] i x y h = cc
  get_elem?-set_self (z ∷ xs) zero x y h = refl
  get_elem?-set_self (z ∷ xs) (suc i) x y h = get_elem?-set_self xs i x y h
