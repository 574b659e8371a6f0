-- ===== src/Bench/Lines.antt =====
-- apps/fuse-perf-test: the benchmarks of a main, one after the other, and the lines that they print.
use ukfs_fuse.Common.{ℕ, ◌^◌, ◌<◌, arith, List, [], ◌∷◌, Option, Exec, ℤ, Returns}
use ukfs_fuse.Clients.{Posix}
use ukfs_fuse.Clients.Counted.{HasEnds}
use ukfs_fuse.Bench.{Statistics}
use ukfs_fuse.Bench.Sorted.{Sorts}
use ukfs_fuse.Bench.Loops.{
  Machine, bench_stat, bench_pread, bench_seq_read, bench_open_read_close, bench_readdir,
}
use ukfs_fuse.Bench.Clock.{HasClock, Returns-bind}
use ukfs_fuse.Bench.Reports.{
  StatReports, PreadReports, SeqReadReports, OpenReadCloseReports, ReaddirReports, bench-Reports,
}
use ukfs_fuse.Bench.Bounds.{IsMeasured}
use ukfs_fuse.Bench.Main.{
  Line, statistics, bandwidth, Fuel, stats_line, rate_line, run_benches, latencies, bench_stat_root,
  throughputs,
}

-- What a line is about: a benchmark and its path, or a throughput in blocks of so many bytes.
pub data Kind : Type 0 where
  on_stat : List ℕ → Kind
  on_pread : List ℕ → Kind
  on_seq_read : List ℕ → Kind
  on_open_read_close : List ℕ → Kind
  on_readdir : List ℕ → Kind
  in_blocks : List ℕ → ℕ → Kind

-- The lines of a main, in their order.
abbrev pub nine_lines : List ℕ → List ℕ → List ℕ → List Kind
nine_lines dir file big =
    on_stat dir
    ∷ on_stat file
    ∷ on_pread file
    ∷ on_seq_read file
    ∷ on_open_read_close file
    ∷ on_readdir dir
    ∷ in_blocks big 4096
    ∷ in_blocks big 65536
    ∷ in_blocks big 1048576
    ∷ []

module _ {S A : Type 0} (m : Machine S) (p : Posix S) (clock : HasClock m p)
    (qsort : (ℕ → ℕ → ℤ) → List ℕ → List ℕ) (sorts : Sorts qsort) (fuel : Fuel)
    (IsRate : ℕ → ℕ → A → Type 0) where
  -- What a benchmark that starts in the state `s` prints, and the state that it leaves.
  pub data IsLine (s : S) : Kind → Line A × S → Type 0 where
    of_stat :
        {path : List ℕ} {o : Option Statistics} {t : S}
        → StatReports m p clock qsort sorts path s (o, t)
        → IsLine s (on_stat path) (statistics o, t)
    of_pread :
        {path : List ℕ} {o : Option Statistics} {t : S}
        → PreadReports m p clock qsort sorts path s (o, t)
        → IsLine s (on_pread path) (statistics o, t)
    of_seq_read :
        {path : List ℕ} {o : Option Statistics} {t : S}
        → SeqReadReports m p clock qsort sorts path s (o, t)
        → IsLine s (on_seq_read path) (statistics o, t)
    of_open_read_close :
        {path : List ℕ} {o : Option Statistics} {t : S}
        → OpenReadCloseReports m p clock qsort sorts path s (o, t)
        → IsLine s (on_open_read_close path) (statistics o, t)
    of_readdir :
        {path : List ℕ} {o : Option Statistics} {t : S}
        → ReaddirReports m p clock qsort sorts fuel.entries path s (o, t)
        → IsLine s (on_readdir path) (statistics o, t)
    of_blocks :
        {path : List ℕ} {block : ℕ} {o : Option A} {t : S}
        → IsMeasured m p clock IsRate block (p.open_rdonly path s) (o, t)
        → IsLine s (in_blocks path block) (bandwidth o, t)

  -- Lines that are printed one after the other, each from the state that the one before leaves.
  pub data Lines : List Kind → S → List (Line A) → S → Type 0 where
    no_line : {s : S} → Lines [] s [] s
    one_line :
        {k : Kind} {ks : List Kind} {l : Line A} {ls : List (Line A)} {s t u : S}
        → IsLine s k (l, t)
        → Lines ks t ls u
        → Lines (k ∷ ks) s (l ∷ ls) u

  -- Each benchmark comes to an end and prints its line.
  pub data AllPrint : List Kind → List (S → Exec (Line A × S)) → Type 0 where
    none_left : AllPrint [] []
    prints_and :
        {k : Kind} {ks : List Kind} {b : S → Exec (Line A × S)} {bs : List (S → Exec (Line A × S))}
        → ((s : S) → Returns (b s) (IsLine s k))
        → AllPrint ks bs
        → AllPrint (k ∷ ks) (b ∷ bs)

  run_benches-Lines :
      (ks : List Kind) (bs : List (S → Exec (Line A × S))) (s : S)
      → AllPrint ks bs
      → Returns (run_benches m p qsort fuel bs s) (λ (ls, t). Lines ks s ls t)
  unfolding run_benches
  run_benches-Lines [] [] s none_left = no_line
  run_benches-Lines [] (b ∷ bs) s h = elim h [ ]
  run_benches-Lines (k ∷ ks) [] s h = elim h [ ]
  run_benches-Lines (k ∷ ks) (b ∷ bs) s (prints_and h hs) =
      Returns-bind (b s) _ _ _ (h s) (λ (l, t) e.
        Returns-bind (run_benches m p qsort fuel bs t) _ _ _ (run_benches-Lines ks bs t hs)
          (λ (ls, u) es. one_line e es))

  stats_line-IsLine :
      (k : Kind) (bench : S → Exec (Option Statistics × S)) (P : Option Statistics × S → Type 0)
      (s : S)
      → Returns (bench s) P
      → ((o : Option Statistics) (t : S) → P (o, t) → IsLine s k (statistics o, t))
      → Returns (stats_line m p qsort fuel bench s) (IsLine s k)
  stats_line-IsLine k bench P s h of_ = Returns-bind (bench s) _ _ _ h (λ (o, t) e. of_ o t e)

  module _ (ends : HasEnds p fuel.entries) where
    latencies-AllPrint :
        (dir file : List ℕ) (rest : List (S → Exec (Line A × S))) (ks : List Kind)
        → AllPrint ks rest
        → AllPrint
            (on_stat dir
              ∷ on_stat file
              ∷ on_pread file
              ∷ on_seq_read file
              ∷ on_open_read_close file
              ∷ on_readdir dir
              ∷ ks)
            (latencies m p qsort fuel dir file rest)
    unfolding latencies bench_stat_root
    latencies-AllPrint dir file rest ks h =
        let on_dir = bench-Reports m p clock qsort sorts fuel.entries ends dir in
        let on_file = bench-Reports m p clock qsort sorts fuel.entries ends file in
        prints_and
          (λ s.
            stats_line-IsLine (on_stat dir) (bench_stat m p qsort dir)
              (StatReports m p clock qsort sorts dir s) s (on_dir s).0 (λ o t e. of_stat e))
          (prints_and
            (λ s.
              stats_line-IsLine (on_stat file) (bench_stat m p qsort file)
                (StatReports m p clock qsort sorts file s) s (on_file s).0 (λ o t e. of_stat e))
            (prints_and
              (λ s.
                stats_line-IsLine (on_pread file) (bench_pread m p qsort file)
                  (PreadReports m p clock qsort sorts file s) s (on_file s).1 (λ o t e. of_pread e))
              (prints_and
                (λ s.
                  stats_line-IsLine (on_seq_read file) (bench_seq_read m p qsort file)
                    (SeqReadReports m p clock qsort sorts file s) s (on_file s).2
                    (λ o t e. of_seq_read e))
                (prints_and
                  (λ s.
                    stats_line-IsLine (on_open_read_close file)
                      (bench_open_read_close m p qsort file)
                      (OpenReadCloseReports m p clock qsort sorts file s) s (on_file s).3
                      (λ o t e. of_open_read_close e))
                  (prints_and
                    (λ s.
                      stats_line-IsLine (on_readdir dir) (bench_readdir m p qsort fuel.entries dir)
                        (ReaddirReports m p clock qsort sorts fuel.entries dir s) s (on_dir s).4
                        (λ o t e. of_readdir e))
                    h)))))

    rate_line-IsLine :
        (path : List ℕ) (block : ℕ) (bench : S → Exec (Option A × S)) (s : S)
        → Returns (bench s) (IsMeasured m p clock IsRate block (p.open_rdonly path s))
        → Returns (rate_line m p qsort fuel bench s) (IsLine s (in_blocks path block))
    rate_line-IsLine path block bench s h = Returns-bind (bench s) _ _ _ h (λ (o, t) e. of_blocks e)

    -- The benchmarks of a main, with what each of its throughputs comes to.
    pub nine-Lines :
        (dir file big : List ℕ) (bench : ℕ → S → Exec (Option A × S)) (s : S)
        → ((block : ℕ) (s : S)
            → block < 2 ^ 31
            → Returns (bench block s) (IsMeasured m p clock IsRate block (p.open_rdonly big s)))
        → Returns
            (run_benches m p qsort fuel
              (latencies m p qsort fuel dir file (throughputs m p qsort fuel bench))
              s)
            (λ (ls, t). Lines (nine_lines dir file big) s ls t)
    unfolding throughputs
    nine-Lines dir file big bench s h = run_benches-Lines (nine_lines dir file big) _ s (
        latencies-AllPrint dir file _ _ (
          prints_and (λ s. rate_line-IsLine big 4096 (bench 4096) s (h 4096 s (omega arith)))
            (prints_and (λ s. rate_line-IsLine big 65536 (bench 65536) s (h 65536 s (omega arith)))
              (prints_and
                (λ s. rate_line-IsLine big 1048576 (bench 1048576) s (h 1048576 s (omega arith)))
                none_left))))
