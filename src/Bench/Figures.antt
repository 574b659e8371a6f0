-- ===== src/Bench/Figures.antt =====
-- apps/fuse-perf-test/main.c: the figures that bench_throughput makes of bytes and cycles.
use ukfs_fuse.Common.{
  ℕ, ◌⊎◌, zero, suc, ◌+◌, ◌*◌, ◌/◌, ◌%◌, ◌^◌, ◌≤◌, ◌<◌, ◌==◌, ◌≡◌, refl, inl, inr, arith, true, ltb,
  Bool-cases, ok, Returns,
}
use ukfs_fuse.Bench.Throughput.{target_bytes, Throughput, at_least_one, over, throughput}

-- Cycles in milliseconds at 3 GHz, but no less than one.
pub data IsMilliseconds (cycles : ℕ) : ℕ → Type 0 where
  less_than_one : cycles < 3000000 → IsMilliseconds cycles 1
  whole : 3000000 ≤ cycles → IsMilliseconds cycles (cycles / 3000000)

pub at_least_one-IsMilliseconds :
    (cycles : ℕ) → IsMilliseconds cycles (at_least_one (cycles / 3000000))
at_least_one-IsMilliseconds cycles = elim (Bool-cases (cycles / 3000000 == 0)) [
  | inl e ↦ rw e (less_than_one (ground (arith, e)))
  | inr e ↦ rw e (whole (ground (arith, e)))
]

pub milliseconds-positive : (cycles n : ℕ) → IsMilliseconds cycles n → 0 < n
milliseconds-positive cycles n (less_than_one h) = omega arith
milliseconds-positive cycles n (whole h) = omega (arith, h)

pub over_lem : (a d : ℕ) → 0 < d → over a d ≡ ok (a / d)
unfolding over
over_lem a zero h = absurd (omega arith)
over_lem a (suc d) h = refl

-- The figures of so many bytes in so many cycles.
pub record IsThroughput (bytes cycles : ℕ) (r : Throughput) : Type 0 where
  pub mb_is : r.mb ≡ bytes / 1048576
  pub cycles_are : r.total_cycles ≡ cycles
  pub per_byte :
      ((bytes ≡ 0) × (r.cycles_per_byte ≡ 0)) ⊎ ((0 < bytes) × (r.cycles_per_byte ≡ cycles / bytes))
  pub per_second :
      (milliseconds : ℕ) × IsMilliseconds cycles milliseconds
      × (r.mb_per_sec_approx ≡ r.mb * 1000 / milliseconds)

pub throughput-IsThroughput :
    (block bytes cycles : ℕ)
    → block < 2 ^ 31
    → bytes < target_bytes + block
    → Returns (throughput bytes cycles) (IsThroughput bytes cycles)
unfolding throughput
throughput-IsThroughput block zero cycles small h =
    let ms = at_least_one-IsMilliseconds cycles in
    rw (over_lem 0 (at_least_one (cycles / 3000000)) (milliseconds-positive cycles _ ms)) (record {
      mb_is = refl;
      cycles_are = refl;
      per_byte = inl (refl, refl);
      per_second = (at_least_one (cycles / 3000000), ms, refl);
    })
throughput-IsThroughput block (suc bytes) cycles small h =
    let ms = at_least_one-IsMilliseconds cycles in
    let some_byte : ltb 0 (suc bytes) ≡ true = ground arith in
    rw
      (
        some_byte,
        over_lem cycles (suc bytes) (omega arith),
        over_lem (suc bytes / 1048576 % 2 ^ 32 * 1000) (at_least_one (cycles / 3000000))
            (milliseconds-positive cycles _ ms),
      )
      (record {
        mb_is = omega (arith, h, small);
        cycles_are = refl;
        per_byte = inr (omega arith, refl);
        per_second = (at_least_one (cycles / 3000000), ms, refl);
      })
