-- ===== src/Examples/Benches.antt =====
-- Runs of the modelled code of apps/fuse-perf-test/main.c, with an insertion sort for qsort.
use mathlib.Core.List.{Perm}
use mathlib.Core.List.Perm
use ukfs_fuse.Common.{
  suc, true, ◌≤◌, refl, ℕ, ◌≡◌, arith, false, Bool-cases, inl, inr, List, [], ◌∷◌, ℤ, Returns,
  if◌then◌else◌,
}
use ukfs_fuse.Bench.{print_stats}
use ukfs_fuse.Bench.Sorted.{is_larger, Ascending, nil, one, more, IsComparison, Sorts}
use ukfs_fuse.Bench.Stats.{IsSummary, print_stats-IsSummary}
use ukfs_fuse.Common.{ltb, take, length-take, ◌-◌, ◌^◌, none}
use ukfs_fuse.Request.{zero_stat}
use ukfs_fuse.Hello.{hello_str}
use ukfs_fuse.Clients.{Posix, done}
use ukfs_fuse.Bench.Loops.{Machine}
use ukfs_fuse.Bench.Clock.{HasClock}
use ukfs_fuse.Bench.Throughput.{bigfile_path, bench_throughput}
use ukfs_fuse.Bench.Figures.{IsThroughput}
use ukfs_fuse.Bench.Bounds.{IsMeasured, bench_throughput-IsMeasured}
use ukfs_fuse.Bench.Main.{Fuel}
use ukfs_fuse.Clients.Counted.Verdict.{now}

module _ (cmp : ℕ → ℕ → ℤ) where
  abbrev insert : ℕ → List ℕ → List ℕ
  insert a [] = a ∷ []
  insert a (b ∷ bs) = let rest = insert a bs in if is_larger (cmp a b) then b ∷ rest else a ∷ b ∷ bs

  abbrev insertion_sort : List ℕ → List ℕ
  insertion_sort [] = []
  insertion_sort (a ∷ as_) = insert a (insertion_sort as_)

  insert-Perm : (a : ℕ) (xs : List ℕ) → Perm (insert a xs) (a ∷ xs)
  insert-Perm a [] = Perm.refl _
  insert-Perm a (b ∷ bs) = elim (Bool-cases (is_larger (cmp a b))) [
    | inl e ↦ rw e (Perm.trans (Perm.cons b (insert-Perm a bs)) (Perm.swap a b bs))
    | inr e ↦ rw e (Perm.refl _)
  ]

  sort-Perm : (xs : List ℕ) → Perm (insertion_sort xs) xs
  sort-Perm [] = Perm.refl _
  sort-Perm (a ∷ xs) = Perm.trans (insert-Perm a (insertion_sort xs)) (Perm.cons a (sort-Perm xs))

  module _ (c : IsComparison cmp) where
    insert-behind :
        (a b : ℕ) (xs : List ℕ)
        → is_larger (cmp b a) ≡ false
        → Ascending cmp (b ∷ xs)
        → Ascending cmp (insert a xs)
        → Ascending cmp (b ∷ insert a xs)
    insert-behind a b [] h s k = more h k
    insert-behind a b (x ∷ xs) h (more e s) k = elim (Bool-cases (is_larger (cmp a x))) [
      | inl l ↦ rw l (more e (rw l at k))
      | inr l ↦ rw l (more h (more l s))
    ]

    insert-Ascending : (a : ℕ) (xs : List ℕ) → Ascending cmp xs → Ascending cmp (insert a xs)
    insert-Ascending a [] s = one a
    insert-Ascending a (b ∷ []) s = elim (Bool-cases (is_larger (cmp a b))) [
      | inl e ↦ rw e (more (c.total a b e) (one a))
      | inr e ↦ rw e (more e (one b))
    ]
    insert-Ascending a (b ∷ x ∷ xs) (more h s) = elim (Bool-cases (is_larger (cmp a b))) [
      | inl e ↦
          rw e
            (insert-behind a b (x ∷ xs) (c.total a b e) (more h s) (insert-Ascending a (x ∷ xs) s))
      | inr e ↦ rw e (more e (more h s))
    ]

    sort-Ascending : (xs : List ℕ) → Ascending cmp (insertion_sort xs)
    sort-Ascending [] = nil
    sort-Ascending (a ∷ xs) = insert-Ascending a (insertion_sort xs) (sort-Ascending xs)

insertion_sort-Sorts : Sorts insertion_sort
insertion_sort-Sorts = record {
  ascending = λ cmp c xs. sort-Ascending cmp c xs;
  same = λ cmp c xs. sort-Perm cmp xs;
}

print_stats-IsSummary_example :
    Returns (print_stats insertion_sort (30 ∷ 10 ∷ 20 ∷ [])) (IsSummary (30 ∷ 10 ∷ 20 ∷ []))
print_stats-IsSummary_example =
    print_stats-IsSummary insertion_sort insertion_sort-Sorts (30 ∷ 10 ∷ 20 ∷ []) (omega arith)
      (omega arith) (omega arith)

-- A system that only counts its calls, with a clock that stops at its last value.
abbrev counting : Posix ℕ
counting = record {
  stat = λ path s. (done zero_stat, suc s);
  fstat = λ fd s. (done zero_stat, suc s);
  open_rdonly = λ path s. (done 3, suc s);
  close = λ fd s. suc s;
  read = λ fd n s. (done (take n hello_str), suc s);
  pread = λ fd n off s. (done (take n hello_str), suc s);
  lseek = λ fd by w s. (done 0, suc s);
  opendir = λ path s. (done 0, suc s);
  readdir = λ dp s. (none, suc s);
  closedir = λ dp s. suc s;
  access = λ path mode s. (done tt, suc s);
  thread_create = λ argv s. (true, suc s);
  thread_add = λ s. suc s;
  session_registered = λ s. (true, suc s);
  yield = λ s. suc s;
  mount = λ source path fstype s. (done tt, suc s);
}

abbrev reading : ℕ → ℕ
reading s = if ltb s (2 ^ 64 - 1) then s else 2 ^ 64 - 1

abbrev machine : Machine ℕ
machine = record {
  rdtsc = λ s. (reading s, suc s);
  alloc = λ n s. (true, suc s);
  dealloc = λ s. suc s;
}

reading_mono : (s : ℕ) → reading s ≤ reading (suc s)
reading_mono s = ground arith

machine-HasClock : HasClock machine counting
machine-HasClock = record {
  now = reading;
  no_wrap = λ s. ground arith;
  rdtsc-now = λ s. refl;
  after_rdtsc = reading_mono;
  after_stat = λ path. reading_mono;
  after_open = λ path. reading_mono;
  after_close = λ fd. reading_mono;
  after_read = λ fd n. reading_mono;
  after_pread = λ fd n off. reading_mono;
  after_lseek = λ fd by w. reading_mono;
  after_opendir = λ path. reading_mono;
  after_readdir = λ dp. reading_mono;
  after_closedir = λ dp. reading_mono;
}

abbrev whole_run : Fuel
whole_run = record { yields = 1; entries = 1; reads = 52428801 }

bench_throughput-IsMeasured_example : Returns (bench_throughput machine counting 52428801 4096 0) (
    IsMeasured machine counting machine-HasClock IsThroughput 4096
      (counting.open_rdonly bigfile_path 0))
bench_throughput-IsMeasured_example =
    bench_throughput-IsMeasured machine counting machine-HasClock
      (λ fd n s. length-take n hello_str) 52428801 4096 (omega arith) (omega arith) 0
