-- ===== src/Bench/Sorted.antt =====
-- Ascending lists of numbers, read by position.
use mathlib.Core.List.{foldr, Perm}
use mathlib.Core.List.Perm
use native.Mathlib.Nat.{mul-suc}
use ukfs_fuse.Common.{
  ℕ, zero, suc, ◌+◌, ◌*◌, ◌%◌, ◌^◌, ◌≤◌, ◌<◌, ◌≡◌, refl, ap, sym, ◌∙◌, arith, Bool, true, false,
  ltb, List, [], ◌∷◌, length, ℤ, pos, negsuc, ok, if◌then◌else◌,
}
use ukfs_fuse.Bench.{cmp_u64, get_elem, add_up}

-- A comparison says that the first is larger.
abbrev pub is_larger : ℤ → Bool
is_larger (pos zero) = false
is_larger (pos (suc n)) = true
is_larger (negsuc n) = false

pub data Ascending (cmp : ℕ → ℕ → ℤ) : List ℕ → Type 0 where
  nil : Ascending cmp []
  one : (a : ℕ) → Ascending cmp (a ∷ [])
  more :
      {a b : ℕ} {xs : List ℕ}
      → is_larger (cmp a b) ≡ false
      → Ascending cmp (b ∷ xs)
      → Ascending cmp (a ∷ b ∷ xs)

-- The comparison is one that `qsort` accepts: total, and transitive.
pub record IsComparison (cmp : ℕ → ℕ → ℤ) : Type 0 where
  pub total : (a b : ℕ) → is_larger (cmp a b) ≡ true → is_larger (cmp b a) ≡ false
  pub transitive :
      (a b c : ℕ)
      → is_larger (cmp a b) ≡ false
      → is_larger (cmp b c) ≡ false
      → is_larger (cmp a c) ≡ false

-- The standard's promise about `qsort`.
pub record Sorts (qsort : (ℕ → ℕ → ℤ) → List ℕ → List ℕ) : Type 0 where
  pub ascending :
      (cmp : ℕ → ℕ → ℤ) → IsComparison cmp → (xs : List ℕ) → Ascending cmp (qsort cmp xs)
  pub same : (cmp : ℕ → ℕ → ℤ) → IsComparison cmp → (xs : List ℕ) → Perm (qsort cmp xs) xs

pub cmp_u64-IsComparison : IsComparison cmp_u64
unfolding cmp_u64
cmp_u64-IsComparison = record {
  total = λ a b h. ground (arith, h);
  transitive = λ a b c h k. ground (arith, h, k);
}

abbrev pub sum : List ℕ → ℕ
sum = foldr ◌+◌ 0

pub sum-perm : {xs ys : List ℕ} → Perm xs ys → sum xs ≡ sum ys
sum-perm p = Perm.foldr-eq (hlevel) ◌+◌ (λ a b x. omega arith) p 0

length-foldr : (xs : List ℕ) → foldr (λ _ n. suc n) 0 xs ≡ length xs
length-foldr [] = refl
length-foldr (x ∷ xs) = ap suc (length-foldr xs)

pub length-perm : {xs ys : List ℕ} → Perm xs ys → length xs ≡ length ys
length-perm {xs} {ys} p =
    sym (length-foldr xs)
    ∙ Perm.foldr-eq (hlevel) (λ _ n. suc n) (λ a b x. refl) p 0
    ∙ length-foldr ys

-- The element at a position, 0 past the end.
abbrev pub nth : List ℕ → ℕ → ℕ
nth [] i = 0
nth (x ∷ xs) zero = x
nth (x ∷ xs) (suc i) = nth xs i

pub get_elem-ok : (xs : List ℕ) (i : ℕ) → i < length xs → get_elem xs i ≡ ok (nth xs i)
unfolding get_elem
get_elem-ok [] i h = absurd (omega arith)
get_elem-ok (x ∷ xs) zero h = refl
get_elem-ok (x ∷ xs) (suc i) h = get_elem-ok xs i (omega (arith, h))

head-le : {a b : ℕ} → is_larger (cmp_u64 a b) ≡ false → a ≤ b
unfolding cmp_u64
head-le h = ground (arith, h)

head-nth :
    (a : ℕ) (xs : List ℕ) (i : ℕ)
    → Ascending cmp_u64 (a ∷ xs)
    → i < suc (length xs)
    → a ≤ nth (a ∷ xs) i
head-nth a xs zero s h = omega arith
head-nth a [] (suc i) s h = absurd (omega arith)
head-nth a (b ∷ xs) (suc i) (more e s) h =
    omega (arith, head-le e, head-nth b xs i s (omega (arith, h)))

pub nth_mono :
    (xs : List ℕ) (i j : ℕ) → Ascending cmp_u64 xs → i ≤ j → j < length xs → nth xs i ≤ nth xs j
nth_mono [] i j s h k = absurd (omega arith)
nth_mono (a ∷ xs) zero j s h k = head-nth a xs j s k
nth_mono (a ∷ xs) (suc i) zero s h k = absurd (omega arith)
nth_mono (a ∷ []) (suc i) (suc j) s h k = absurd (omega arith)
nth_mono (a ∷ b ∷ xs) (suc i) (suc j) (more e s) h k =
    nth_mono (b ∷ xs) i j s (omega (arith, h)) (omega (arith, k))

pub add_up-sum : (acc : ℕ) (xs : List ℕ) → acc + sum xs < 2 ^ 64 → add_up acc xs ≡ acc + sum xs
unfolding add_up
add_up-sum acc [] h = omega arith
add_up-sum acc (x ∷ xs) h =
    let next : (acc + x) % 2 ^ 64 ≡ acc + x = omega (arith, h) in
    ap (λ k. add_up k xs) next ∙ omega (arith, add_up-sum (acc + x) xs (omega (arith, h)))

-- How many elements are larger than `v`, and smaller.
abbrev pub above : ℕ → List ℕ → ℕ
above v = foldr (λ x n. if ltb v x then suc n else n) 0

abbrev pub below : ℕ → List ℕ → ℕ
below v = foldr (λ x n. if ltb x v then suc n else n) 0

pub above-perm : (v : ℕ) {xs ys : List ℕ} → Perm xs ys → above v xs ≡ above v ys
above-perm v p =
    Perm.foldr-eq (hlevel) (λ x n. if ltb v x then suc n else n) (λ a b x. ground arith) p 0

pub below-perm : (v : ℕ) {xs ys : List ℕ} → Perm xs ys → below v xs ≡ below v ys
below-perm v p =
    Perm.foldr-eq (hlevel) (λ x n. if ltb x v then suc n else n) (λ a b x. ground arith) p 0

above-bound : (v : ℕ) (xs : List ℕ) → above v xs ≤ length xs
above-bound v [] = omega arith
above-bound v (x ∷ xs) = ground (arith, above-bound v xs)

-- Behind a position there are no more elements than are larger.
pub above-nth :
    (xs : List ℕ) (i : ℕ)
    → Ascending cmp_u64 xs
    → i < length xs
    → above (nth xs i) xs + i < length xs
above-nth [] i s h = absurd (omega arith)
above-nth (a ∷ xs) zero s h = ground (arith, above-bound a xs)
above-nth (a ∷ []) (suc i) s h = absurd (omega arith)
above-nth (a ∷ b ∷ xs) (suc i) (more e s) h =
    let rest = above-nth (b ∷ xs) i s (omega (arith, h)) in
    let least = head-nth a (b ∷ xs) (suc i) (more e s) h in ground (arith, rest, least)

pub below-head :
    (a : ℕ) (xs : List ℕ) (v : ℕ) → Ascending cmp_u64 (a ∷ xs) → v ≤ a → below v (a ∷ xs) ≡ 0
below-head a [] v s h = ground (arith, h)
below-head a (b ∷ xs) v (more e s) h =
    ground (arith, h, below-head b xs v s (omega (arith, h, head-le e)))

-- In front of a position there are no more elements than are smaller.
pub below-nth :
    (xs : List ℕ) (i : ℕ) → Ascending cmp_u64 xs → i < length xs → below (nth xs i) xs ≤ i
below-nth [] i s h = absurd (omega arith)
below-nth (a ∷ xs) zero s h = omega (arith, below-head a xs a s (omega arith))
below-nth (a ∷ []) (suc i) s h = absurd (omega arith)
below-nth (a ∷ b ∷ xs) (suc i) (more e s) h =
    let rest = below-nth (b ∷ xs) i s (omega (arith, h)) in ground (arith, rest)

pub sum-above : (v : ℕ) (xs : List ℕ) → above v xs ≡ 0 → sum xs ≤ v * length xs
sum-above v [] h = omega arith
sum-above v (x ∷ xs) h = ground (arith, h, sum-above v xs, mul-suc v (length xs))

pub sum-below : (v : ℕ) (xs : List ℕ) → below v xs ≡ 0 → v * length xs ≤ sum xs
sum-below v [] h = ground arith
sum-below v (x ∷ xs) h = ground (arith, h, sum-below v xs, mul-suc v (length xs))
