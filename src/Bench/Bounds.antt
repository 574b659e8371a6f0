-- ===== src/Bench/Bounds.antt =====
-- apps/fuse-perf-test/main.c: bench_throughput ends, and what it reports of what it has read.
use ukfs_fuse.Common.{
  ℕ, zero, suc, ◌+◌, ◌-◌, ◌%◌, ◌^◌, ◌≤◌, ◌<◌, ◌==◌, ◌≡◌, refl, subst, inl, inr, arith, Bool, true,
  false, ltb, Bool-cases, Option, none, some, Exec, ok, ◌>>=◌, Returns,
}
use ukfs_fuse.Clients.{Posix, Ret, done, failed}
use ukfs_fuse.Clients.Counted.{Returns-mono}
use ukfs_fuse.Bench.Loops.{Machine}
use ukfs_fuse.Bench.Clock.{HasClock, Returns-bind}
use ukfs_fuse.Bench.Figures.{IsThroughput, throughput-IsThroughput}
use ukfs_fuse.Bench.Throughput.{
  bigfile_path, target_bytes, added, throughput, read_loop, timed_reads, with_buffer, opened_reads,
  bench_throughput,
}

module _ {S : Type 0} (m : Machine S) (p : Posix S) (clock : HasClock m p) where
  -- Reads of a block each, one after the other from the state `s`, none of them empty, until enough
  -- bytes are there.
  pub data Reads (fd block : ℕ) (s : S) : ℕ → S → Type 0 where
    none_yet : Reads fd block s 0 s
    read_more :
        {bytes : ℕ} {t : S}
        → Reads fd block s bytes t
        → bytes < target_bytes
        → 0 < added (p.read fd block t).0
        → Reads fd block s (bytes + added (p.read fd block t).0) (p.read fd block t).1

  -- Why there is no further read, and the state afterwards.
  pub data Stops (fd block bytes : ℕ) (t : S) : S → Type 0 where
    enough : target_bytes ≤ bytes → Stops fd block bytes t t
    dry :
        bytes < target_bytes
        → added (p.read fd block t).0 ≡ 0
        → Stops fd block bytes t (p.read fd block t).1

  -- All the reads from `s` to `v`.
  pub data HasRead (fd block : ℕ) (s : S) : ℕ → S → Type 0 where
    has_read :
        {bytes : ℕ} {t v : S}
        → Reads fd block s bytes t
        → Stops fd block bytes t v
        → bytes < target_bytes + block
        → clock.now s ≤ clock.now v
        → HasRead fd block s bytes v

  module _ {A : Type 0} (IsRate : ℕ → ℕ → A → Type 0) (block : ℕ) where
    -- Nothing, without a buffer; or the figures of the bytes that were read and of the cycles that
    -- it took, with the descriptor closed and the buffer freed.
    pub data Buffered (fd : ℕ) (buffer : Bool × S) : Option A × S → Type 0 where
      unallocated : {t : S} → buffer ≡ (false, t) → Buffered fd buffer (none, p.close fd t)
      read_up :
          {bytes : ℕ} {t v : S} {r : A}
          → buffer ≡ (true, t)
          → HasRead fd block (m.rdtsc t).1 bytes v
          → IsRate bytes (clock.now v - clock.now t) r
          → Buffered fd buffer (some r, m.dealloc (p.close fd (m.rdtsc v).1))

    -- Nothing, only where the file does not open.
    pub data IsMeasured (opened : Ret ℕ × S) : Option A × S → Type 0 where
      unopened : {e : ℕ} {t : S} → opened ≡ (failed e, t) → IsMeasured opened (none, t)
      with_descriptor :
          {fd : ℕ} {t : S} {x : Option A × S}
          → opened ≡ (done fd, t)
          → Buffered fd (m.alloc block t) x
          → IsMeasured opened x

  module _ (reads : (fd n : ℕ) (s : S) → added (p.read fd n s).0 ≤ n) (fuel block : ℕ)
      (enough_fuel : target_bytes < fuel) (small : block < 2 ^ 31) where
    read_loop-HasRead :
        (rounds fd bytes : ℕ) (s t : S)
        → Reads fd block s bytes t
        → clock.now s ≤ clock.now t
        → bytes < target_bytes + block
        → target_bytes - bytes < rounds
        → Returns (read_loop m p rounds fd block bytes t) (λ (n, v). HasRead fd block s n v)
    unfolding read_loop
    read_loop-HasRead zero fd bytes s t so_far later h f = absurd (omega arith)
    read_loop-HasRead (suc rounds) fd bytes s t so_far later h f =
        elim (Bool-cases (ltb bytes target_bytes)) [
          | inr e ↦ rw e (has_read so_far (enough (ground (arith, e))) h later)
          | inl e ↦ elim (Bool-cases (added (p.read fd block t).0 == 0)) [
            | inl e' ↦
                rw (e, e')
                  (has_read so_far (dry (ground (arith, e)) (ground (arith, e'))) h
                    (omega (arith, later, clock.after_read fd block t)))
            | inr e' ↦
                let n = added (p.read fd block t).0 in
                let less : bytes < target_bytes = ground (arith, e) in
                let more : 0 < n = ground (arith, e') in
                let most = reads fd block t in
                let kept : bytes + n ≡ (bytes + n) % 2 ^ 64 = omega (arith, less, most, small) in
                rw (e, e')
                  (read_loop-HasRead rounds fd ((bytes + n) % 2 ^ 64) s (p.read fd block t).1
                    (subst (λ k. Reads fd block s k (p.read fd block t).1) kept
                      (read_more so_far less more))
                    (omega (arith, later, clock.after_read fd block t))
                    (omega (arith, less, most, kept)) (omega (arith, more, kept, f, less)))
          ]
        ]

    module _ {A : Type 0} (figures : ℕ → ℕ → Exec A) (IsRate : ℕ → ℕ → A → Type 0)
        (rated : (bytes cycles : ℕ)
          → bytes < target_bytes + block
          → Returns (figures bytes cycles) (IsRate bytes cycles)) where
      timed_reads-Buffered :
          (some_block : 0 < target_bytes + block) (fd : ℕ) (t : S)
          → Returns (timed_reads m p figures fuel fd block t) (Buffered IsRate block fd (true, t))
      unfolding timed_reads
      timed_reads-Buffered some_block fd t =
          Returns-bind (read_loop m p fuel fd block 0 (m.rdtsc t).1) _ _ _
            (read_loop-HasRead fuel fd 0 (m.rdtsc t).1 (m.rdtsc t).1 none_yet (omega arith)
              some_block (omega (arith, enough_fuel)))
            (λ (n, v) h. timed n v h)
        where
          cycles_lem :
              (v : S)
              → clock.now (m.rdtsc t).1 ≤ clock.now v
              → ((m.rdtsc v).0 + 2 ^ 64 - (m.rdtsc t).0) % 2 ^ 64 ≡ clock.now v - clock.now t
          cycles_lem v later = omega (
            arith,
            later,
            clock.rdtsc-now t,
            clock.rdtsc-now v,
            clock.after_rdtsc t,
            clock.no_wrap v,
          )

          timed :
              (n : ℕ) (v : S)
              → HasRead fd block (m.rdtsc t).1 n v
              → Returns
                  (figures n (((m.rdtsc v).0 + 2 ^ 64 - (m.rdtsc t).0) % 2 ^ 64) >>= λ r.
                    ok (some r, m.dealloc (p.close fd (m.rdtsc v).1)))
                  (Buffered IsRate block fd (true, t))
          timed n v (has_read so_far stops less later) = rw (cycles_lem v later) (
              Returns-bind (figures n (clock.now v - clock.now t)) _ _ _
                (rated n (clock.now v - clock.now t) less)
                (λ r h. read_up refl (has_read so_far stops less later) h))

      with_buffer-Buffered :
          (fd : ℕ) (buffer : Bool × S)
          → Returns (with_buffer m p figures fuel fd block buffer) (Buffered IsRate block fd buffer)
      unfolding with_buffer
      with_buffer-Buffered fd (true, t) = timed_reads-Buffered (omega arith) fd t
      with_buffer-Buffered fd (false, t) = unallocated refl

      -- Whatever the open has returned.
      pub opened_reads-IsMeasured :
          (opened : Ret ℕ × S)
          → Returns (opened_reads m p figures fuel block opened) (IsMeasured IsRate block opened)
      unfolding opened_reads
      opened_reads-IsMeasured (failed e, t) = unopened refl
      opened_reads-IsMeasured (done fd, t) =
          Returns-mono (with_buffer m p figures fuel fd block (m.alloc block t))
            (with_buffer-Buffered fd (m.alloc block t)) (λ x h. with_descriptor refl h)

    -- Where a read gives at most as many bytes as were asked for, with a block of less than 2 GiB,
    -- more rounds than 52428800, and a time-stamp counter below 2^64 that no call turns back,
    -- bench_throughput comes to an end and reports nothing, only where /bigfile does not open or
    -- the buffer is refused; or the figures, with no division by 0, of the bytes that its reads
    -- gave, one read after the other until 50 MB are there or a read gives nothing, and of the
    -- cycles that they took, and has closed the file and freed the buffer.
    pub bench_throughput-IsMeasured :
        (s : S)
        → Returns
            (bench_throughput m p fuel block s)
            (IsMeasured IsThroughput block (p.open_rdonly bigfile_path s))
    unfolding bench_throughput
    bench_throughput-IsMeasured s =
        opened_reads-IsMeasured throughput IsThroughput
          (λ bytes cycles h. throughput-IsThroughput block bytes cycles small h)
          (p.open_rdonly bigfile_path s)
