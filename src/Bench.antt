-- ===== src/Bench.antt =====
-- apps/fuse-perf-test/main.c: the statistics that the benchmarks print.
pub mod Sorted
pub mod Stats
pub mod Loops
pub mod Clock
pub mod Reports
pub mod Throughput
pub mod Figures
pub mod Bounds
pub mod Main
pub mod Lines
pub mod Runs
use ukfs_fuse.Common.{
  ℕ, zero, suc, ◌+◌, ◌-◌, ◌*◌, ◌/◌, ◌%◌, ◌^◌, List, [], ◌∷◌, length, ltb, leb, if◌then◌else◌, Exec,
  ok, fault, ◌>>=◌, ℤ, pos, negsuc,
}

unfoldable pub cmp_u64 : ℕ → ℕ → ℤ
cmp_u64 a b = if ltb a b then negsuc 0 else if ltb b a then pos 1 else pos 0

-- What is printed.
pub record Statistics : Type 0 where
  pub samples : ℕ
  pub avg : ℕ
  pub min : ℕ
  pub p50 : ℕ
  pub p90 : ℕ
  pub p95 : ℕ
  pub p99 : ℕ
  pub p999 : ℕ
  pub max : ℕ

-- `times[i]`; past the end is a fault.
unfoldable pub get_elem : List ℕ → ℕ → Exec ℕ
get_elem [] i = fault
get_elem (x ∷ xs) zero = ok x
get_elem (x ∷ xs) (suc i) = get_elem xs i

-- `sum += times[i]`, a `uint64_t`.
unfoldable pub add_up : ℕ → List ℕ → ℕ
add_up sum [] = sum
add_up sum (x ∷ xs) = add_up ((sum + x) % 2 ^ 64) xs

-- From the sorted array on.
unfoldable pub read_stats : List ℕ → ℕ → Exec Statistics
read_stats times count = do
  min ← get_elem times 0
  max ← get_elem times (count - 1)
  p50 ← get_elem times (count / 2)
  p90 ← get_elem times (count * 90 / 100)
  p95 ← get_elem times (count * 95 / 100)
  p99 ← get_elem times (count * 99 / 100)
  p999 ← get_elem times (count * 999 / 1000)
  ok (record {
    samples = count;
    avg = add_up 0 times / count;
    min = min;
    p50 = p50;
    p90 = p90;
    p95 = p95;
    p99 = p99;
    p999 = p999;
    max = max;
  })

module _ (qsort : (ℕ → ℕ → ℤ) → List ℕ → List ℕ) where
  -- `count`, the length, is an `int`: a product that does not fit is a fault.
  unfoldable pub print_stats : List ℕ → Exec Statistics
  print_stats times =
      let count = length times in
      if leb (2 ^ 31) (count * 999) then fault else read_stats (qsort cmp_u64 times) count
