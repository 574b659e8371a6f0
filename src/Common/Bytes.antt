-- ===== src/Common/Bytes.antt =====
-- Little-endian fields and NUL-terminated strings in byte lists.
use native.Mathlib.Nat.{pow-suc}
use Prim.Native.Nat.{ℕ, zero, suc, ◌+◌, ◌*◌, ◌/◌, ◌%◌, ◌^◌, ◌<◌}
use mathlib.Core.Path.{◌≡◌, refl, ap}
use mathlib.Core.Logic.{◌≢◌}
use mathlib.Core.List.{List, [], ◌∷◌, ◌++◌}
use native.Mathlib.Omega.{arith}
use mathlib.Core.Bool.{false}
use native.Mathlib.Decide.{ℕ_discrete}
use ukfs_fuse.Common.Tests.{◌==◌, if◌then◌else◌}
use ukfs_fuse.Common.Lists.{length, drop}

-- The `k` bytes of an unsigned field on a little-endian machine; what does not fit is cut off.
unfoldable pub le : ℕ → ℕ → List ℕ
le zero n = []
le (suc k) n = n % 256 ∷ le k (n / 256)

-- A load of a `k`-byte unsigned field.
unfoldable pub load : ℕ → List ℕ → ℕ
load zero bs = 0
load (suc k) [] = 0
load (suc k) (b ∷ bs) = b + 256 * load k bs

pub length-le : (k n : ℕ) → length (le k n) ≡ k
unfolding le
length-le zero n = refl
length-le (suc k) n = ap suc (length-le k (n / 256))

pub load-le : (k n : ℕ) (rest : List ℕ) → n < 256 ^ k → load k (le k n ++ rest) ≡ n
unfolding load le
load-le zero n rest h = omega arith
load-le (suc k) n rest h =
    omega (arith, pow-suc 256 k, load-le k (n / 256) rest (omega (arith, pow-suc 256 k)))

pub drop-le : (k n : ℕ) (rest : List ℕ) → drop k (le k n ++ rest) ≡ rest
unfolding le
drop-le zero n rest = refl
drop-le (suc k) n rest = drop-le k (n / 256) rest

-- The bytes of a C string up to its terminator.
unfoldable pub c_string : List ℕ → List ℕ
c_string [] = []
c_string (b ∷ bs) = let rest = c_string bs in if b == 0 then [] else b ∷ rest

-- The bytes of a C string hold no terminator.
abbrev pub IsCString : List ℕ → Type 0
IsCString [] = Unit {0}
IsCString (b ∷ bs) = (b ≢ 0) × IsCString bs

pub c_string-append : (name rest : List ℕ) → IsCString name → c_string (name ++ 0 ∷ rest) ≡ name
unfolding c_string
c_string-append [] rest h = refl
c_string-append (b ∷ bs) rest h = ground (arith, c_string-append bs rest h.1)

pub c_string-IsCString : (bs : List ℕ) → IsCString (c_string bs)
unfolding c_string
c_string-IsCString [] = tt
c_string-IsCString (b ∷ bs) = elim (ℕ_discrete b 0) [
  | yes zero_byte ↦ rw zero_byte tt
  | no other ↦
      let b_other : (b == 0) ≡ false = ground (arith, other) in
      rw b_other (other, c_string-IsCString bs)
]
