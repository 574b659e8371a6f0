-- ===== src/Bench/Throughput.antt =====
-- apps/fuse-perf-test/main.c: bench_throughput.
use ukfs_fuse.Common.{
  ℕ, zero, suc, ◌+◌, ◌-◌, ◌*◌, ◌/◌, ◌%◌, ◌^◌, Bool, true, false, ltb, ◌==◌, List, [], ◌∷◌, length,
  Option, none, some, if◌then◌else◌, Exec, ok, blocked, fault, ◌>>=◌,
}
use ukfs_fuse.Clients.{Posix, Ret, done, failed}
use ukfs_fuse.Bench.Loops.{Machine}

-- "/bigfile", and 50 MB.
abbrev pub bigfile_path : List ℕ
bigfile_path = b'/' ∷ b'b' ∷ b'i' ∷ b'g' ∷ b'f' ∷ b'i' ∷ b'l' ∷ b'e' ∷ []

abbrev pub target_bytes : ℕ
target_bytes = 52428800

-- What is printed.
pub record Throughput : Type 0 where
  pub mb : ℕ
  pub total_cycles : ℕ
  pub cycles_per_byte : ℕ
  pub mb_per_sec_approx : ℕ

-- What a read has added; 0 where it has failed.
abbrev pub added : Ret (List ℕ) → ℕ
added (done buf) = length buf
added (failed e) = 0

abbrev pub at_least_one : ℕ → ℕ
at_least_one n = if n == 0 then 1 else n

-- A division. By 0 it is a fault.
unfoldable pub over : ℕ → ℕ → Exec ℕ
over a zero = fault
over a (suc d) = ok (a / suc d)

unfoldable pub throughput : ℕ → ℕ → Exec Throughput
throughput bytes_read total_cycles =
    let mb = bytes_read / 1048576 % 2 ^ 32 in
    (if ltb 0 bytes_read then over total_cycles bytes_read else ok 0) >>= λ per_byte.
    over (mb * 1000) (at_least_one (total_cycles / 3000000)) >>= λ rate. ok (record {
      mb = mb;
      total_cycles = total_cycles;
      cycles_per_byte = per_byte;
      mb_per_sec_approx = rate;
    })

module _ {S : Type 0} (m : Machine S) (p : Posix S) where
  -- `while (bytes_read < target_bytes)`, its rounds bounded.
  unfoldable pub read_loop : ℕ → ℕ → ℕ → ℕ → S → Exec (ℕ × S)
  read_loop zero fd block bytes_read s = blocked
  read_loop (suc fuel) fd block bytes_read s =
      let (n, s') = p.read fd block s in
      let rest = read_loop fuel fd block ((bytes_read + added n) % 2 ^ 64) s' in
      if ltb bytes_read target_bytes
      then (if added n == 0 then ok (bytes_read, s') else rest)
      else ok (bytes_read, s)

  -- The figures of a run, from the bytes and the cycles.
  module _ {A : Type 0} (figures : ℕ → ℕ → Exec A) where
    unfoldable pub timed_reads : ℕ → ℕ → ℕ → S → Exec (Option A × S)
    timed_reads fuel fd block s =
        let (t0, s0) = m.rdtsc s in
        read_loop fuel fd block 0 s0 >>= λ (bytes_read, s1).
        let (t1, s2) = m.rdtsc s1 in
        figures bytes_read ((t1 + 2 ^ 64 - t0) % 2 ^ 64) >>= λ r.
        ok (some r, m.dealloc (p.close fd s2))

    -- With the buffer, or without one.
    unfoldable pub with_buffer : ℕ → ℕ → ℕ → Bool × S → Exec (Option A × S)
    with_buffer fuel fd block (true, s) = timed_reads fuel fd block s
    with_buffer fuel fd block (false, s) = ok (none, p.close fd s)

    unfoldable pub opened_reads : ℕ → ℕ → Ret ℕ × S → Exec (Option A × S)
    opened_reads fuel block (done fd, s) = with_buffer fuel fd block (m.alloc block s)
    opened_reads fuel block (failed e, s) = ok (none, s)

  unfoldable pub bench_throughput : ℕ → ℕ → S → Exec (Option Throughput × S)
  bench_throughput fuel block s = opened_reads throughput fuel block (p.open_rdonly bigfile_path s)
