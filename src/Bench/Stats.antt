-- ===== src/Bench/Stats.antt =====
-- apps/fuse-perf-test/main.c: what print_stats prints.
use mathlib.Core.List.{Perm}
use native.Mathlib.Nat.{le-div_iff_mul-le, div-lt_iff_lt-mul, suc-mul, zero-add}
use ukfs_fuse.Common.{
  ℕ, suc, ◌+◌, ◌-◌, ◌*◌, ◌/◌, ◌^◌, ◌≤◌, ◌<◌, ◌≡◌, refl, subst, ap, ◌∙◌, arith, false, leb, List, [],
  ◌∷◌, length, ℤ, ok, Returns,
}
use ukfs_fuse.Bench.{cmp_u64, Statistics, read_stats, print_stats}
use ukfs_fuse.Bench.Sorted.{
  Ascending, Sorts, cmp_u64-IsComparison, sum, sum-perm, length-perm, nth, get_elem-ok, add_up-sum,
  above, below, above-perm, below-perm, above-nth, below-nth, below-head, sum-above, sum-below,
}

-- The sample that `i` samples stand in front of when they are in order: no more than `i` are smaller,
-- and no more than stand behind it are larger.
pub record IsRanked (xs : List ℕ) (i v : ℕ) : Type 0 where
  pub smaller : below v xs ≤ i
  pub larger : above v xs + i < length xs

-- The statistics of a list of samples: the least and the greatest sample, the percentiles by their
-- ranks, and the average, which lies between the minimum and the maximum.
pub record IsSummary (xs : List ℕ) (r : Statistics) : Type 0 where
  pub samples_are : r.samples ≡ length xs
  pub avg_is : r.avg ≡ sum xs / length xs
  pub least : IsRanked xs 0 r.min
  pub greatest : IsRanked xs (length xs - 1) r.max
  pub avg_between : (r.min ≤ r.avg) × (r.avg ≤ r.max)
  pub rank50 : IsRanked xs (length xs / 2) r.p50
  pub rank90 : IsRanked xs (length xs * 90 / 100) r.p90
  pub rank95 : IsRanked xs (length xs * 95 / 100) r.p95
  pub rank99 : IsRanked xs (length xs * 99 / 100) r.p99
  pub rank999 : IsRanked xs (length xs * 999 / 1000) r.p999

module _ (times : List ℕ) (s : Ascending cmp_u64 times) (some_sample : 0 < length times)
    (fits : sum times < 2 ^ 64) where
  -- The figures read out of the sorted array.
  abbrev figures : Statistics
  figures = record {
    samples = length times;
    avg = sum times / length times;
    min = nth times 0;
    p50 = nth times (length times / 2);
    p90 = nth times (length times * 90 / 100);
    p95 = nth times (length times * 95 / 100);
    p99 = nth times (length times * 99 / 100);
    p999 = nth times (length times * 999 / 1000);
    max = nth times (length times - 1);
  }

  read_stats-figures : read_stats times (length times) ≡ ok figures
  unfolding read_stats
  read_stats-figures =
      let n = length times in
      rw (
        get_elem-ok times 0 some_sample,
        get_elem-ok times (n - 1) (omega (arith, some_sample)),
        get_elem-ok times (n / 2) (omega (arith, some_sample)),
        get_elem-ok times (n * 90 / 100) (omega (arith, some_sample)),
        get_elem-ok times (n * 95 / 100) (omega (arith, some_sample)),
        get_elem-ok times (n * 99 / 100) (omega (arith, some_sample)),
        get_elem-ok times (n * 999 / 1000) (omega (arith, some_sample)),
        add_up-sum 0 times (omega (arith, fits)),
        zero-add,
      )

  no_smaller_lem : (xs : List ℕ) → Ascending cmp_u64 xs → below (nth xs 0) xs ≡ 0
  no_smaller_lem [] a = refl
  no_smaller_lem (x ∷ xs) a = below-head x xs x a (omega arith)

  ranked : (i : ℕ) → i < length times → IsRanked times i (nth times i)
  ranked i h = record { smaller = below-nth times i s h; larger = above-nth times i s h }

  figures-IsSummary : IsSummary times figures
  figures-IsSummary =
      let n = length times in
      let none_above : above (nth times (n - 1)) times ≡ 0 =
        omega (arith, some_sample, above-nth times (n - 1) s (omega (arith, some_sample))) in
      record {
        samples_are = refl;
        avg_is = refl;
        least = ranked 0 (omega (arith, some_sample));
        greatest = ranked (n - 1) (omega (arith, some_sample));
        avg_between = (
          (le-div_iff_mul-le some_sample).1
              (sum-below (nth times 0) times (no_smaller_lem times s)),
          omega (
            arith,
            (div-lt_iff_lt-mul {x = sum times} {y = suc (nth times (n - 1))} some_sample).1 (
                omega (
                  arith,
                  some_sample,
                  sum-above (nth times (n - 1)) times none_above,
                  suc-mul (nth times (n - 1)) n,
                )),
          ),
        );
        rank50 = ranked (n / 2) (omega (arith, some_sample));
        rank90 = ranked (n * 90 / 100) (omega (arith, some_sample));
        rank95 = ranked (n * 95 / 100) (omega (arith, some_sample));
        rank99 = ranked (n * 99 / 100) (omega (arith, some_sample));
        rank999 = ranked (n * 999 / 1000) (omega (arith, some_sample));
      }

IsRanked-perm :
    {xs ys : List ℕ} (p : Perm xs ys) (i j v : ℕ) → i ≡ j → IsRanked xs i v → IsRanked ys j v
IsRanked-perm p i j v e h = record {
  smaller = omega (arith, e, h.smaller, below-perm v p);
  larger = omega (arith, e, h.larger, above-perm v p, length-perm p);
}

-- The summary of the sorted samples is one of the samples.
IsSummary-perm : {xs ys : List ℕ} {r : Statistics} → Perm xs ys → IsSummary xs r → IsSummary ys r
IsSummary-perm {xs} {ys} {r} p h =
    let len = length-perm p in
    let total = sum-perm p in
    record {
      samples_are = h.samples_are ∙ len;
      avg_is =
          subst (λ k. r.avg ≡ sum ys / k) len (subst (λ k. r.avg ≡ k / length xs) total h.avg_is);
      least = IsRanked-perm p _ _ _ refl h.least;
      greatest = IsRanked-perm p _ _ _ (ap (λ n. n - 1) len) h.greatest;
      avg_between = h.avg_between;
      rank50 = IsRanked-perm p _ _ _ (ap (λ n. n / 2) len) h.rank50;
      rank90 = IsRanked-perm p _ _ _ (ap (λ n. n * 90 / 100) len) h.rank90;
      rank95 = IsRanked-perm p _ _ _ (ap (λ n. n * 95 / 100) len) h.rank95;
      rank99 = IsRanked-perm p _ _ _ (ap (λ n. n * 99 / 100) len) h.rank99;
      rank999 = IsRanked-perm p _ _ _ (ap (λ n. n * 999 / 1000) len) h.rank999;
    }

module _ (qsort : (ℕ → ℕ → ℤ) → List ℕ → List ℕ) (sorts : Sorts qsort) where
  -- With a qsort that gives an ascending permutation for every total and transitive comparison,
  -- print_stats prints for at least one sample, few enough that 999 times their number fits an int
  -- and with a sum below 2^64, their number n; their sum divided by n, which lies between the
  -- minimum and the maximum; and as minimum, maximum and percentiles values of which as many
  -- samples, at most, are smaller as stand in front of position 0, n - 1, n / 2, n * 90 / 100, n *
  -- 95 / 100, n * 99 / 100 and n * 999 / 1000, and no more are larger than stand behind it.
  pub print_stats-IsSummary :
      (times : List ℕ)
      → 0 < length times
      → length times * 999 < 2 ^ 31
      → sum times < 2 ^ 64
      → Returns (print_stats qsort times) (IsSummary times)
  unfolding print_stats
  print_stats-IsSummary times some_sample small fits =
      let sorted = qsort cmp_u64 times in
      let p = sorts.same cmp_u64 cmp_u64-IsComparison times in
      let s = sorts.ascending cmp_u64 cmp_u64-IsComparison times in
      let len = length-perm p in
      let nonempty : 0 < length sorted = omega (arith, some_sample, len) in
      let total : sum sorted < 2 ^ 64 = omega (arith, fits, sum-perm p) in
      let no_overflow : leb (2 ^ 31) (length times * 999) ≡ false = ground (arith, small) in
      rw no_overflow (
        subst (λ k. Returns (read_stats sorted k) (IsSummary times)) len
          (rw (read_stats-figures sorted s nonempty total)
            (IsSummary-perm p (figures-IsSummary sorted s nonempty total))))
