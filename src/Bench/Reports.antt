-- ===== src/Bench/Reports.antt =====
-- apps/fuse-perf-test/main.c: what each benchmark reports.
use ukfs_fuse.Common.{
  ℕ, zero, suc, ◌*◌, ◌/◌, ◌^◌, ◌≤◌, ◌<◌, ◌≡◌, refl, subst, sym, arith, List, Option, Option-cases,
  inl, inr, none, some, ◌∙◌, Exec, ok, ◌>>=◌, ℤ, Returns,
}
use ukfs_fuse.Clients.{Posix, Ret, done, failed, forward, seek_set}
use ukfs_fuse.Clients.Counted.{HasEnds, Returns-mono}
use ukfs_fuse.Bench.{Statistics, print_stats}
use ukfs_fuse.Bench.Sorted.{Sorts}
use ukfs_fuse.Bench.Stats.{print_stats-IsSummary}
use ukfs_fuse.Bench.Loops.{
  Machine, num_iterations, sample, repeat, report, bench_stat, with_file, pread_loop, bench_pread,
  seq_read_loop, bench_seq_read, pread_and_close, bench_open_read_close, read_all, list_and_close,
  list_once, bench_readdir,
}
use ukfs_fuse.Bench.Clock.{
  HasClock, Returns-bind, Returns-ok, Ticks, repeat-Ticks, Taken, sample-Taken, Ran, ran,
}

module _ {S : Type 0} (m : Machine S) (p : Posix S) (clock : HasClock m p)
    (qsort : (ℕ → ℕ → ℤ) → List ℕ → List ℕ) (sorts : Sorts qsort) where
  -- The statistics of a run, whose last state is left.
  pub data Reports (IsRan : Statistics → S → Type 0) : Option Statistics × S → Type 0 where
    reported : {r : Statistics} {t : S} → IsRan r t → Reports IsRan (some r, t)

  -- The same for a run on a file, which is closed behind it; nothing only if the file does not open.
  pub data FileReports (opened : Ret ℕ × S) (IsRan : ℕ → S → Statistics → S → Type 0)
      : Option Statistics × S → Type 0 where
    not_opened : {e : ℕ} {t : S} → opened ≡ (failed e, t) → FileReports opened IsRan (none, t)
    on_file :
        {fd : ℕ} {t u : S} {r : Statistics}
        → opened ≡ (done fd, t)
        → IsRan fd t r u
        → FileReports opened IsRan (some r, p.close fd u)

  -- What is measured.
  abbrev pub keep : S → S
  keep s = s

  abbrev pub stat_work : List ℕ → S → Exec S
  stat_work path s = ok (p.stat path s).1

  abbrev pub pread_work : ℕ → S → Exec S
  pread_work fd s = ok (p.pread fd 13 0 s).1

  abbrev pub rewind : ℕ → S → S
  rewind fd s = (p.lseek fd (forward 0) seek_set s).1

  abbrev pub two_reads : ℕ → S → Exec S
  two_reads fd s = ok (p.read fd 8 (p.read fd 5 s).1).1

  abbrev pub open_read_close_work : List ℕ → S → Exec S
  open_read_close_work path s = ok (pread_and_close m p qsort (p.open_rdonly path s))

  abbrev pub StatReports : List ℕ → S → Option Statistics × S → Type 0
  StatReports path s =
      Reports (Ran m p clock 100 num_iterations (stat_work path) keep (stat_work path) s)

  abbrev pub PreadReports : List ℕ → S → Option Statistics × S → Type 0
  PreadReports path s =
      FileReports (p.open_rdonly path s)
        (λ fd t. Ran m p clock 100 num_iterations (pread_work fd) keep (pread_work fd) t)

  abbrev pub SeqReadReports : List ℕ → S → Option Statistics × S → Type 0
  SeqReadReports path s = FileReports (p.open_rdonly path s) (λ fd t.
      Ran m p clock 100 num_iterations (λ s. two_reads fd (rewind fd s)) (rewind fd) (two_reads fd)
        t)

  abbrev pub OpenReadCloseReports : List ℕ → S → Option Statistics × S → Type 0
  OpenReadCloseReports path s =
      Reports (Ran m p clock 0 1000 (λ s. ok s) keep (open_read_close_work path) s)

  abbrev pub ReaddirReports : ℕ → List ℕ → S → Option Statistics × S → Type 0
  ReaddirReports fuel path s = Reports (
      Ran m p clock 20 (num_iterations / 10) (list_once m p qsort fuel path) keep
        (list_once m p qsort fuel path) s)

  -- A warmup and the samples.
  warmed :
      (k n : ℕ) (warmup : S → Exec S) (before : S → S) (work : S → Exec S)
      → Ticks m p clock warmup
      → ((s : S) → clock.now s ≤ clock.now (before s))
      → Ticks m p clock work
      → (s : S)
      → Returns
          (repeat m k warmup s >>= sample m n before work)
          (λ x. (t : S) × (repeat m k warmup s ≡ ok t) × Taken m p clock before work n t x)
  warmed k n warmup before work hw hb h s =
      let (t, e, later) =
        Returns-ok (repeat m k warmup s) _ (repeat-Ticks m p clock k warmup hw s) in
      rw e (
        Returns-mono (sample m n before work t) (sample-Taken m p clock n before work hb h t)
          (λ x taken. (t, refl, taken)))

  module _ (k n : ℕ) (warmup : S → Exec S) (before : S → S) (work : S → Exec S) (s : S)
      (some_sample : 0 < n) (small : n * 999 < 2 ^ 31) where
    report-Ran :
        (t u : S) (xs : List ℕ) (v : S)
        → repeat m k warmup s ≡ ok t
        → Taken m p clock before work n t (xs, u)
        → Returns (report m p qsort (xs, v)) (λ (o, w).
          (r : Statistics) × (o ≡ some r) × (w ≡ v) × Ran m p clock k n warmup before work s r u)
    unfolding report
    report-Ran t u xs v e taken =
        Returns-bind (print_stats qsort xs) _ _ _
          (print_stats-IsSummary qsort sorts xs (omega (arith, taken.many, some_sample))
            (subst (λ k. k * 999 < 2 ^ 31) (sym taken.many) small)
            (omega (arith, taken.in_time, clock.no_wrap u)))
          (λ r h. (r, refl, refl, ran e taken.each h (h.samples_are ∙ taken.many)))

    measured-Reports :
        Ticks m p clock warmup
        → ((s : S) → clock.now s ≤ clock.now (before s))
        → Ticks m p clock work
        → Returns
            (repeat m k warmup s >>= sample m n before work >>= report m p qsort)
            (Reports (Ran m p clock k n warmup before work s))
    measured-Reports hw hb h =
        Returns-bind (repeat m k warmup s >>= sample m n before work) _ _ _
          (warmed k n warmup before work hw hb h s)
          (λ (xs, u) (t, e, taken).
            Returns-mono (report m p qsort (xs, u)) (report-Ran t u xs u e taken)
              (λ (o, w) (r, a, b, h). as_reported o w r u a b h))
      where
        as_reported :
            (o : Option Statistics) (w : S) (r : Statistics) (u : S)
            → o ≡ some r
            → w ≡ u
            → Ran m p clock k n warmup before work s r u
            → Reports (Ran m p clock k n warmup before work s) (o, w)
        as_reported o w r u a b h = rw (a, b) (reported h)

  stat-Reports :
      (path : List ℕ) (s : S) → Returns (bench_stat m p qsort path s) (StatReports path s)
  unfolding bench_stat
  stat-Reports path s =
      measured-Reports 100 num_iterations (stat_work path) keep (stat_work path) s (omega arith)
        (omega arith) (clock.after_stat path) (λ s. omega arith) (clock.after_stat path)

  module _ (warmup : ℕ → S → Exec S) (before : ℕ → S → S) (work : ℕ → S → Exec S)
      (hw : (fd : ℕ) → Ticks m p clock (warmup fd))
      (hb : (fd : ℕ) (s : S) → clock.now s ≤ clock.now (before fd s))
      (h : (fd : ℕ) → Ticks m p clock (work fd)) where
    abbrev OnFile : Ret ℕ × S → Option Statistics × S → Type 0
    OnFile x =
        FileReports x (λ fd t. Ran m p clock 100 num_iterations (warmup fd) (before fd) (work fd) t)

    as-OnFile :
        (fd : ℕ) (s u : S) (o : Option Statistics) (w : S) (r : Statistics)
        → o ≡ some r
        → w ≡ p.close fd u
        → Ran m p clock 100 num_iterations (warmup fd) (before fd) (work fd) s r u
        → OnFile (done fd, s) (o, w)
    as-OnFile fd s u o w r a b h = rw (a, b) (on_file refl h)

    with_file-Reports :
        (x : Ret ℕ × S)
        → Returns
            (with_file m p qsort
              (λ fd s. repeat m 100 (warmup fd) s >>= sample m num_iterations (before fd) (work fd))
              x)
            (OnFile x)
    unfolding with_file
    with_file-Reports (failed e, s) = not_opened refl
    with_file-Reports (done fd, s) =
        Returns-bind (repeat m 100 (warmup fd) s >>= sample m num_iterations (before fd) (work fd))
          _ _ _
          (warmed 100 num_iterations (warmup fd) (before fd) (work fd) (hw fd) (hb fd) (h fd) s)
          (λ (xs, u) (t, e, taken).
            Returns-mono (report m p qsort (xs, p.close fd u))
              (report-Ran 100 num_iterations (warmup fd) (before fd) (work fd) s (omega arith)
                (omega arith) t u xs (p.close fd u) e taken)
              (λ (o, w) (r, a, b, h). as-OnFile fd s u o w r a b h))

  pread-Reports :
      (path : List ℕ) (s : S) → Returns (bench_pread m p qsort path s) (PreadReports path s)
  unfolding bench_pread pread_loop
  pread-Reports path s =
      with_file-Reports pread_work (λ fd. keep) pread_work (λ fd. clock.after_pread fd 13 0)
        (λ fd s. omega arith) (λ fd. clock.after_pread fd 13 0) (p.open_rdonly path s)

  seq_read-Reports :
      (path : List ℕ) (s : S) → Returns (bench_seq_read m p qsort path s) (SeqReadReports path s)
  unfolding bench_seq_read seq_read_loop
  seq_read-Reports path s =
      let rewinds : (fd : ℕ) (s : S) → clock.now s ≤ clock.now (rewind fd s) =
        λ fd. clock.after_lseek fd (forward 0) seek_set in
      let reads : (fd : ℕ) (s : S) → clock.now s ≤ clock.now (p.read fd 8 (p.read fd 5 s).1).1 =
        λ fd s. omega (arith, clock.after_read fd 5 s, clock.after_read fd 8 (p.read fd 5 s).1) in
      with_file-Reports (λ fd s. two_reads fd (rewind fd s)) rewind two_reads
        (λ fd s. omega (arith, rewinds fd s, reads fd (rewind fd s))) rewinds reads
        (p.open_rdonly path s)

  pread_and_close-now :
      (s : S) (x : Ret ℕ × S)
      → clock.now s ≤ clock.now x.1
      → clock.now s ≤ clock.now (pread_and_close m p qsort x)
  pread_and_close-now s (failed e, t) h = h
  pread_and_close-now s (done fd, t) h =
      omega (arith, h, clock.after_pread fd 13 0 t, clock.after_close fd (p.pread fd 13 0 t).1)

  open_read_close-Reports :
      (path : List ℕ) (s : S)
      → Returns (bench_open_read_close m p qsort path s) (OpenReadCloseReports path s)
  unfolding bench_open_read_close repeat
  open_read_close-Reports path s =
      measured-Reports 0 1000 (λ s. ok s) keep (open_read_close_work path) s (omega arith)
        (omega arith) (λ s. omega arith) (λ s. omega arith)
        (λ s. pread_and_close-now s (p.open_rdonly path s) (clock.after_open path s))

  module _ (fuel : ℕ) (ends : HasEnds p fuel) where
    read_all-now :
        (f dp : ℕ) (s : S)
        → ends.left s dp < f
        → Returns (read_all m p qsort f dp s) (λ t. clock.now s ≤ clock.now t)
    unfolding read_all
    read_all-now zero dp s h = absurd (omega arith)
    read_all-now (suc f) dp s h = elim (Option-cases (p.readdir dp s).0) [
      | inl e ↦ rw e (clock.after_readdir dp s)
      | inr (de, e) ↦ rw e (
          Returns-mono (read_all m p qsort f dp (p.readdir dp s).1)
            (read_all-now f dp (p.readdir dp s).1 (omega (arith, h, ends.left-readdir s dp de e)))
            (λ t e'. omega (arith, e', clock.after_readdir dp s)))
    ]

    list_and_close-now :
        (s : S) (x : Ret ℕ × S)
        → clock.now s ≤ clock.now x.1
        → ((dp : ℕ) → x.0 ≡ done dp → ends.left x.1 dp < fuel)
        → Returns (list_and_close m p qsort fuel x) (λ t. clock.now s ≤ clock.now t)
    unfolding list_and_close
    list_and_close-now s (failed e, t) o few = o
    list_and_close-now s (done dp, t) o few =
        Returns-bind (read_all m p qsort fuel dp t) _ _ _ (read_all-now fuel dp t (few dp refl))
          (λ u e. omega (arith, o, e, clock.after_closedir dp u))

    list_once-Ticks : (path : List ℕ) → Ticks m p clock (list_once m p qsort fuel path)
    unfolding list_once
    list_once-Ticks path s =
        list_and_close-now s (p.opendir path s) (clock.after_opendir path s)
          (λ dp e. ends.left-opendir path s dp e)

    readdir-Reports :
        (path : List ℕ) (s : S)
        → Returns (bench_readdir m p qsort fuel path s) (ReaddirReports fuel path s)
    unfolding bench_readdir
    readdir-Reports path s =
        measured-Reports 20 (num_iterations / 10) (list_once m p qsort fuel path) keep
          (list_once m p qsort fuel path) s (omega arith) (omega arith) (list_once-Ticks path)
          (λ s. omega arith) (list_once-Ticks path)

    pub bench-Reports :
        (path : List ℕ) (s : S)
        → Returns (bench_stat m p qsort path s) (StatReports path s)
          × Returns (bench_pread m p qsort path s) (PreadReports path s)
          × Returns (bench_seq_read m p qsort path s) (SeqReadReports path s)
          × Returns (bench_open_read_close m p qsort path s) (OpenReadCloseReports path s)
          × Returns (bench_readdir m p qsort fuel path s) (ReaddirReports fuel path s)
    bench-Reports path s = (
      stat-Reports path s,
      pread-Reports path s,
      seq_read-Reports path s,
      open_read_close-Reports path s,
      readdir-Reports path s,
    )
