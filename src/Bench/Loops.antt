-- ===== src/Bench/Loops.antt =====
-- apps/fuse-perf-test/main.c: the benchmarks and main, over Unikraft's system calls and a clock.
-- apps/fuse-perf-test/linux_baseline.c has the same loops with paths for arguments.
use ukfs_fuse.Common.{
  ℕ, zero, suc, ◌+◌, ◌-◌, ◌/◌, ◌%◌, ◌^◌, Bool, true, false, List, [], ◌∷◌, Option, none, some,
  if◌then◌else◌, Exec, ok, blocked, ◌>>=◌, ℤ,
}
use ukfs_fuse.Clients.{Posix, Ret, done, failed, forward, seek_set}
use ukfs_fuse.Bench.{Statistics, print_stats}

-- `rdtsc`, and `malloc` and `free` as the benchmarks see them.
pub record Machine (S : Type 0) : Type 0 where
  pub rdtsc : S → ℕ × S
  pub alloc : ℕ → S → Bool × S
  pub dealloc : S → S

abbrev pub num_iterations : ℕ
num_iterations = 100000

-- A pointer that is not NULL.
abbrev pub is_some : {A : Type 0} → Option A → Bool
is_some none = false
is_some (some a) = true

module _ {S : Type 0} (m : Machine S) where
  -- The difference of two readings, a `uint64_t`, around a piece of work.
  unfoldable pub timed : (S → Exec S) → S → Exec (ℕ × S)
  timed work s =
      let (t0, s0) = m.rdtsc s in
      work s0 >>= λ s1. let (t1, s2) = m.rdtsc s1 in ok ((t1 + 2 ^ 64 - t0) % 2 ^ 64, s2)

  -- `samples[i] = t1 - t0` for the rounds that are left, with what comes in front of each.
  unfoldable pub sample : ℕ → (S → S) → (S → Exec S) → S → Exec (List ℕ × S)
  sample zero before work s = ok ([], s)
  sample (suc n) before work s =
      timed work (before s) >>= λ (t, s'). sample n before work s' >>= λ (ts, s''). ok (t ∷ ts, s'')

  -- The warmup.
  unfoldable pub repeat : ℕ → (S → Exec S) → S → Exec S
  repeat zero work s = ok s
  repeat (suc n) work s = work s >>= repeat n work

  module _ (p : Posix S) (qsort : (ℕ → ℕ → ℤ) → List ℕ → List ℕ) where
    unfoldable pub report : List ℕ × S → Exec (Option Statistics × S)
    report (times, s) = print_stats qsort times >>= λ r. ok (some r, s)

    -- A piece of work that comes to an end.
    abbrev pub only : (S → S) → S → Exec S
    only f s = ok (f s)

    unfoldable pub bench_stat : List ℕ → S → Exec (Option Statistics × S)
    bench_stat path s =
        let work = only (λ s. (p.stat path s).1) in
        repeat 100 work s >>= sample num_iterations (λ s. s) work >>= report

    -- `none` where the file does not open. The descriptor is closed in front of the report.
    unfoldable pub with_file :
        (ℕ → S → Exec (List ℕ × S)) → Ret ℕ × S → Exec (Option Statistics × S)
    with_file measure (done fd, s) = measure fd s >>= λ (times, s). report (times, p.close fd s)
    with_file measure (failed e, s) = ok (none, s)

    unfoldable pub pread_loop : ℕ → S → Exec (List ℕ × S)
    pread_loop fd s =
        let work = only (λ s. (p.pread fd 13 0 s).1) in
        repeat 100 work s >>= sample num_iterations (λ s. s) work

    unfoldable pub bench_pread : List ℕ → S → Exec (Option Statistics × S)
    bench_pread path s = with_file pread_loop (p.open_rdonly path s)

    unfoldable pub seq_read_loop : ℕ → S → Exec (List ℕ × S)
    seq_read_loop fd s =
        let rewind : S → S = λ s. (p.lseek fd (forward 0) seek_set s).1 in
        let reads : S → S = λ s. (p.read fd 8 (p.read fd 5 s).1).1 in
        repeat 100 (only (λ s. reads (rewind s))) s >>= sample num_iterations rewind (only reads)

    unfoldable pub bench_seq_read : List ℕ → S → Exec (Option Statistics × S)
    bench_seq_read path s = with_file seq_read_loop (p.open_rdonly path s)

    abbrev pub pread_and_close : Ret ℕ × S → S
    pread_and_close (done fd, s) = p.close fd (p.pread fd 13 0 s).1
    pread_and_close (failed e, s) = s

    unfoldable pub bench_open_read_close : List ℕ → S → Exec (Option Statistics × S)
    bench_open_read_close path s =
        sample 1000 (λ s. s) (only (λ s. pread_and_close (p.open_rdonly path s))) s >>= report

    -- `while (readdir(dp)) {}`, its rounds bounded.
    unfoldable pub read_all : ℕ → ℕ → S → Exec S
    read_all zero dp s = blocked
    read_all (suc fuel) dp s =
        let rest = read_all fuel dp (p.readdir dp s).1 in
        if is_some (p.readdir dp s).0 then rest else ok (p.readdir dp s).1

    unfoldable pub list_and_close : ℕ → Ret ℕ × S → Exec S
    list_and_close fuel (done dp, s) = read_all fuel dp s >>= λ s. ok (p.closedir dp s)
    list_and_close fuel (failed e, s) = ok s

    unfoldable pub list_once : ℕ → List ℕ → S → Exec S
    list_once fuel path s = list_and_close fuel (p.opendir path s)

    unfoldable pub bench_readdir : ℕ → List ℕ → S → Exec (Option Statistics × S)
    bench_readdir fuel path s =
        repeat 20 (list_once fuel path) s
        >>= sample (num_iterations / 10) (λ s. s) (list_once fuel path)
        >>= report
