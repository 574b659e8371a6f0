-- ===== src/Bench/Runs.antt =====
-- main of apps/fuse-perf-test/main.c and of apps/fuse-perf-test/linux_baseline.c: the whole run.
use ukfs_fuse.Common.{ℕ, ◌≢◌, ◌*◌, ◌/◌, ◌%◌, ◌^◌, ◌≡◌, true, false, List, [], ◌∷◌, ok, ℤ, length}
use ukfs_fuse.Clients.{Posix, done, failed, root_path, hello_path}
use ukfs_fuse.Clients.Main.{backend_argv, none_name, fuse_name}
use ukfs_fuse.Bench.Sorted.{Sorts}
use ukfs_fuse.Bench.Loops.{Machine}
use ukfs_fuse.Bench.Clock.{HasClock}
use ukfs_fuse.Bench.Throughput.{bigfile_path, Throughput}
use ukfs_fuse.Bench.Figures.{IsMilliseconds, IsThroughput}
use ukfs_fuse.Bench.Main.{
  Line, hello_below, bigfile_below, RunResult, LinuxThroughput, Fuel, wait_registered,
}
use ukfs_fuse.Bench.Lines.{Lines, nine_lines}

-- The figures of so many bytes in so many cycles. Neither the megabytes nor the rate are cut to 32
-- bits.
pub record IsLinuxThroughput (bytes cycles : ℕ) (r : LinuxThroughput) : Type 0 where
  pub mb_is : r.mb ≡ bytes / 1048576
  pub cycles_are : r.total_cycles ≡ cycles
  pub per_second :
      (milliseconds : ℕ) × IsMilliseconds cycles milliseconds
      × (r.milliseconds ≡ milliseconds % 2 ^ 32)
      × (r.mb_per_sec ≡ r.mb * 1000 / milliseconds)

module _ {S : Type 0} (m : Machine S) (p : Posix S) (qsort : (ℕ → ℕ → ℤ) → List ℕ → List ℕ)
    (fuel : Fuel) (s : S) where
  module _ (clock : HasClock m p) (sorts : Sorts qsort) where
    -- What a run of main of main.c, from the state `s`, may come to: the thread is not created; the
    -- mount behind the wait fails; or the benchmarks are run behind both.
    pub data IsRun : RunResult S Throughput → Type 0 where
      not_started :
          {t : S}
          → p.thread_create backend_argv s ≡ (false, t)
          → IsRun (record { status = 1; printed = []; os = t })
      not_mounted :
          {t u v : S} {e : ℕ}
          → p.thread_create backend_argv s ≡ (true, t)
          → wait_registered m p qsort fuel fuel.yields (p.thread_add t) ≡ ok u
          → p.mount none_name root_path fuse_name u ≡ (failed e, v)
          → IsRun (record { status = 1; printed = []; os = v })
      completed :
          {t u v w : S} {ls : List (Line Throughput)}
          → p.thread_create backend_argv s ≡ (true, t)
          → wait_registered m p qsort fuel fuel.yields (p.thread_add t) ≡ ok u
          → p.mount none_name root_path fuse_name u ≡ (done tt, v)
          → Lines m p clock qsort sorts fuel IsThroughput
              (nine_lines root_path hello_path bigfile_path)
              v
              ls
              w
          → IsRun (record { status = 0; printed = ls; os = w })

    -- The same for main of linux_baseline.c, which only looks at the number of its arguments.
    pub data IsLinuxRun : List (List ℕ) → RunResult S LinuxThroughput → Type 0 where
      misused :
          {argv : List (List ℕ)}
          → length argv ≢ 2
          → IsLinuxRun argv (record { status = 1; printed = []; os = s })
      measured_all :
          {program mountpoint : List ℕ} {t : S} {ls : List (Line LinuxThroughput)}
          → Lines m p clock qsort sorts fuel IsLinuxThroughput
              (nine_lines mountpoint (hello_below mountpoint) (bigfile_below mountpoint))
              s
              ls
              t
          → IsLinuxRun (program ∷ mountpoint ∷ []) (record { status = 0; printed = ls; os = t })
