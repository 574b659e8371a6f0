-- ===== src/Driver/Scatter.antt =====
-- libs/ukfusefs/ukfs-fuse.c, the loop of `fusefs_read` that spreads a reply over the buffers.
use mathlib.Core.List.{map}
use Prim.Native.Nat.{min}
use ukfs_fuse.Common.{
  ℕ, suc, ◌+◌, ◌-◌, ◌≤◌, ◌<◌, ◌≡◌, refl, sym, ap, List, [], ◌∷◌, ◌++◌, append-nil, append_assoc,
  arith, length, length-append, length-drop, length-take_of_le, take, drop, take_all, drop_all,
  take-nil, drop-nil, take-add, drop-append_of_le, drop-append_of_ge, flatten, dec_lt,
}
use ukfs_fuse.Driver.Read.{Iov, scatter}

-- The memory of the buffers, one behind the other, when `src` is copied over its start.
abbrev pub overwrite : List ℕ → List ℕ → List ℕ
overwrite mem src = take (length mem) src ++ drop (length src) mem

-- A buffer that the reply covers, then the others.
overwrite_cover :
    (b mem src : List ℕ)
    → length b ≤ length src
    → take (length b) src ++ overwrite mem (drop (length b) src) ≡ overwrite (b ++ mem) src
overwrite_cover b mem src h =
    rw
      (← append_assoc, take-add, length-drop, length-append, drop-append_of_le (length src) b mem h)

-- A buffer in which the reply ends.
overwrite_end :
    (b mem src : List ℕ)
    → length src ≤ length b
    → (src ++ drop (length src) b) ++ mem ≡ overwrite (b ++ mem) src
overwrite_end b mem src h = rw (
  take_all (length (b ++ mem)) src (omega (arith, length-append b mem)),
  drop-append_of_ge (length src) b mem h,
  append_assoc,
)

scatter_nothing : (iov : Iov) (src : List ℕ) (copied : ℕ) → scatter iov src 0 copied ≡ (iov, copied)
unfolding scatter
scatter_nothing [] src copied = refl
scatter_nothing (b ∷ iov) src copied = refl

-- The two ways in which a buffer is filled.
scatter_cover :
    (b : List ℕ) (iov : Iov) (src : List ℕ) (remaining copied : ℕ)
    → length b < remaining
    → let rest = scatter iov (drop (length b) src) (remaining - length b) (copied + length b) in
      scatter (b ∷ iov) src remaining copied ≡ (take (length b) src ∷ rest.0, rest.1)
unfolding scatter
scatter_cover b iov src remaining copied h =
    ground (arith, drop_all (length b) b, append-nil (take (length b) src))

scatter_end :
    (b : List ℕ) (iov : Iov) (src : List ℕ) (remaining copied : ℕ)
    → 0 < remaining
    → remaining ≤ length b
    → scatter (b ∷ iov) src remaining copied
      ≡ ((take remaining src ++ drop remaining b) ∷ iov, copied + remaining)
unfolding scatter
scatter_end b iov src remaining copied pos h =
    ground (arith, scatter_nothing iov (drop remaining src) (copied + remaining))

-- What the loop leaves in the buffers, and how many bytes it reports.
pub record Scattered (iov : Iov) (src : List ℕ) (copied : ℕ) (r : Iov × ℕ) : Type 0 where
  pub memory : flatten r.0 ≡ overwrite (flatten iov) src
  pub counted : r.1 ≡ copied + min (length (flatten iov)) (length src)
  pub in_bounds : map length r.0 ≡ map length iov

scatter_empty : (iov : Iov) (copied : ℕ) → Scattered iov [] copied (iov, copied)
scatter_empty iov copied = record {
  memory = sym (rw (take-nil (length (flatten iov))));
  counted = omega arith;
  in_bounds = refl;
}

Scattered-cover :
    (b : List ℕ) (iov : Iov) (src : List ℕ) (copied : ℕ) (r : Iov × ℕ)
    → length b ≤ length src
    → Scattered iov (drop (length b) src) (copied + length b) r
    → Scattered (b ∷ iov) src copied (take (length b) src ∷ r.0, r.1)
Scattered-cover b iov src copied r h s = record {
  memory = rw s.memory (overwrite_cover b (flatten iov) src h);
  counted = omega (arith, s.counted, length-append b (flatten iov), length-drop (length b) src);
  in_bounds = rw (s.in_bounds, length-take_of_le (length b) src h);
}

Scattered-end :
    (b : List ℕ) (iov : Iov) (src : List ℕ) (copied : ℕ)
    → length src ≤ length b
    → Scattered
        (b ∷ iov)
        src
        copied
        ((take (length src) src ++ drop (length src) b) ∷ iov, copied + length src)
Scattered-end b iov src copied h = record {
  memory = rw (take_all (length src) src (omega arith)) (overwrite_end b (flatten iov) src h);
  counted = omega (arith, length-append b (flatten iov));
  in_bounds = ap (λ n. n ∷ map length iov) kept;
}
  where
    kept : length (take (length src) src ++ drop (length src) b) ≡ length b
    kept = omega (
      arith,
      length-append (take (length src) src) (drop (length src) b),
      length-take_of_le (length src) src,
      length-drop (length src) b,
    )

-- The loop of fusefs_read fills the buffers in order with the reply, changes nothing behind it,
-- changes the length of no buffer, and counts the bytes it copied, which are as many as fit.
pub scatter_lem :
    (iov : Iov) (src : List ℕ) (copied : ℕ)
    → Scattered iov src copied (scatter iov src (length src) copied)
unfolding scatter
scatter_lem [] src copied = record {
  memory = sym (drop-nil (length src));
  counted = omega arith;
  in_bounds = refl;
}
scatter_lem (b ∷ iov) [] copied = scatter_empty (b ∷ iov) copied
scatter_lem (b ∷ iov) (x ∷ xs) copied = elim (dec_lt (length b) (suc (length xs))) [
  | yes more ↦ rw (scatter_cover b iov (x ∷ xs) (suc (length xs)) copied more) (
      Scattered-cover b iov (x ∷ xs) copied _ (omega arith)
        (rw length-drop at (scatter_lem iov (drop (length b) (x ∷ xs)) (copied + length b))))
  | no last ↦
      rw (scatter_end b iov (x ∷ xs) (suc (length xs)) copied (omega arith) (omega arith))
        (Scattered-end b iov (x ∷ xs) copied (omega arith))
]
