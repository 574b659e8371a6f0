-- ===== src/Bench/Main.antt =====
-- apps/fuse-perf-test/main.c: `main`, which runs the benchmarks; and main of
-- apps/fuse-perf-test/linux_baseline.c, which runs them below a directory of the host.
use ukfs_fuse.Common.{
  ℕ, zero, suc, ◌*◌, ◌/◌, ◌%◌, ◌^◌, List, [], ◌∷◌, ◌++◌, take, Option, if◌then◌else◌, Exec, ok,
  blocked, ◌>>=◌, ℤ,
}
use ukfs_fuse.Clients.{Posix, Ret, done, failed, root_path, hello_path}
use ukfs_fuse.Clients.Main.{backend_argv, none_name, fuse_name}
use ukfs_fuse.Bench.{Statistics}
use ukfs_fuse.Bench.Loops.{
  Machine, bench_stat, bench_pread, bench_seq_read, bench_open_read_close, bench_readdir,
}
use ukfs_fuse.Bench.Throughput.{Throughput, at_least_one, over, opened_reads, bench_throughput}

-- What a benchmark prints; `A` has the figures of the throughput.
pub data Line (A : Type 0) : Type 0 where
  statistics : Option Statistics → Line A
  bandwidth : Option A → Line A

-- The exit status, what has been printed, and the system afterwards.
pub record RunResult (S A : Type 0) : Type 0 where
  pub status : ℕ
  pub printed : List (Line A)
  pub os : S

-- The figures that linux_baseline.c prints.
pub record LinuxThroughput : Type 0 where
  pub mb : ℕ
  pub total_cycles : ℕ
  pub milliseconds : ℕ
  pub mb_per_sec : ℕ

-- `mb * 1000` and the rate are `uint32_t`, as are the milliseconds where they are printed.
unfoldable pub linux_throughput : ℕ → ℕ → Exec LinuxThroughput
linux_throughput bytes_read total_cycles =
    let milliseconds = at_least_one (total_cycles / 3000000) in
    let mb = bytes_read / 1048576 % 2 ^ 32 in
    over (mb * 1000 % 2 ^ 32) milliseconds >>= λ rate. ok (record {
      mb = mb;
      total_cycles = total_cycles;
      milliseconds = milliseconds % 2 ^ 32;
      mb_per_sec = rate % 2 ^ 32;
    })

-- `snprintf` of "%s/hello" and "%s/bigfile" into an array of 256 bytes: the first 255.
abbrev pub below : List ℕ → List ℕ → List ℕ
below mountpoint name = take 255 (mountpoint ++ name)

abbrev pub hello_below : List ℕ → List ℕ
hello_below mountpoint = below mountpoint hello_path

abbrev pub bigfile_below : List ℕ → List ℕ
bigfile_below mountpoint =
    below mountpoint (b'/' ∷ b'b' ∷ b'i' ∷ b'g' ∷ b'f' ∷ b'i' ∷ b'l' ∷ b'e' ∷ [])

-- The fuel of the loops: the yields until the session is registered, the entries of a directory, and
-- the reads of a file.
pub record Fuel : Type 0 where
  pub yields : ℕ
  pub entries : ℕ
  pub reads : ℕ

module _ {S : Type 0} (m : Machine S) (p : Posix S) (qsort : (ℕ → ℕ → ℤ) → List ℕ → List ℕ)
    (fuel : Fuel) where
  -- The benchmark of a stat on the directory: the code of `bench_stat` with another path.
  unfoldable pub bench_stat_root : List ℕ → S → Exec (Option Statistics × S)
  bench_stat_root dir s = bench_stat m p qsort dir s

  module _ {A : Type 0} where
    -- A benchmark of the kind that prints statistics, and one that prints a throughput.
    abbrev pub stats_line : (S → Exec (Option Statistics × S)) → S → Exec (Line A × S)
    stats_line bench s = bench s >>= λ (r, s). ok (statistics r, s)

    abbrev pub rate_line : (S → Exec (Option A × S)) → S → Exec (Line A × S)
    rate_line bench s = bench s >>= λ (r, s). ok (bandwidth r, s)

    unfoldable pub run_benches : List (S → Exec (Line A × S)) → S → Exec (List (Line A) × S)
    run_benches [] s = ok ([], s)
    run_benches (b ∷ bs) s =
        b s >>= λ (line, s). run_benches bs s >>= λ (lines, s). ok (line ∷ lines, s)

    -- The six benchmarks in front of the throughput, on a directory and on a file.
    unfoldable pub latencies :
        List ℕ → List ℕ → List (S → Exec (Line A × S)) → List (S → Exec (Line A × S))
    latencies dir file rest =
        stats_line (bench_stat_root dir)
        ∷ stats_line (bench_stat m p qsort file)
        ∷ stats_line (bench_pread m p qsort file)
        ∷ stats_line (bench_seq_read m p qsort file)
        ∷ stats_line (bench_open_read_close m p qsort file)
        ∷ stats_line (bench_readdir m p qsort fuel.entries dir)
        ∷ rest

    -- The three blocks of the throughput.
    unfoldable pub throughputs : (ℕ → S → Exec (Option A × S)) → List (S → Exec (Line A × S))
    throughputs bench =
        rate_line (bench 4096) ∷ rate_line (bench 65536) ∷ rate_line (bench 1048576) ∷ []

    abbrev pub with_status : ℕ → List (Line A) × S → RunResult S A
    with_status n (lines, s) = record { status = n; printed = lines; os = s }

  -- `while (fuse_session_get_registered() == NULL) uk_sched_yield()`
  unfoldable pub wait_registered : ℕ → S → Exec S
  wait_registered zero s = blocked
  wait_registered (suc rounds) s =
      let (registered, s') = p.session_registered s in
      let rest = wait_registered rounds (p.yield s') in if registered then ok s' else rest

  unfoldable pub all_benches : List (S → Exec (Line Throughput × S))
  all_benches =
      latencies root_path hello_path (throughputs (λ block. bench_throughput m p fuel.reads block))

  unfoldable pub after_mount : Ret (Unit {0}) × S → Exec (RunResult S Throughput)
  after_mount (failed e, s) = ok (with_status 1 ([], s))
  after_mount (done _, s) = run_benches all_benches s >>= λ r. ok (with_status 0 r)

  unfoldable pub mount_and_bench : S → Exec (RunResult S Throughput)
  mount_and_bench s = after_mount (p.mount none_name root_path fuse_name s)

  unfoldable pub bench_main : S → Exec (RunResult S Throughput)
  bench_main s =
      let (created, s') = p.thread_create backend_argv s in
      if created
      then wait_registered fuel.yields (p.thread_add s') >>= mount_and_bench
      else ok (with_status 1 ([], s'))

  unfoldable pub linux_bench_throughput : List ℕ → ℕ → S → Exec (Option LinuxThroughput × S)
  linux_bench_throughput path block s =
      opened_reads m p linux_throughput fuel.reads block (p.open_rdonly path s)

  unfoldable pub linux_benches : List ℕ → List (S → Exec (Line LinuxThroughput × S))
  linux_benches mountpoint =
      latencies mountpoint (hello_below mountpoint)
        (throughputs (linux_bench_throughput (bigfile_below mountpoint)))

  -- The arguments are the program's name and the mount point.
  unfoldable pub linux_main : List (List ℕ) → S → Exec (RunResult S LinuxThroughput)
  linux_main (program ∷ mountpoint ∷ []) s =
      run_benches (linux_benches mountpoint) s >>= λ r. ok (with_status 0 r)
  linux_main _ s = ok (with_status 1 ([], s))
