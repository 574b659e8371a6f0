-- ===== src/Clients/Counted/Streams.antt =====
-- apps/fuse-correctness-test/main.c: the tests over directories end and count themselves once, where
-- the streams come to an end.
use ukfs_fuse.Common.{
  ℕ, zero, suc, ◌+◌, ◌^◌, ◌≤◌, ◌<◌, ◌≡◌, refl, ◌∙◌, arith, List, take, Option-cases, Bool-cases,
  inl, inr, Returns, ◌∷◌, ◌==◌, if◌then◌else◌,
}
use ukfs_fuse.Request.{Stat}
use ukfs_fuse.Clients.{
  Posix, Suite, M, ◌>>=◌, ◌>>◌, pure, sys, if_failed, cond, if_null, Ret, done, failed, DirEntry,
}
use ukfs_fuse.Clients.Counted.{HasEnds, Adds, adds, counted, Returns-go_on, Returns-mono}
use ukfs_fuse.Clients.Listing.{
  is_dots, Found, note_entry, scan_entries, test_readdir_contents, check_entry, check_entries,
  test_readdir_ino, drain, open_and_close, test_readdir_repeated,
}

module _ {S : Type 0} (p : Posix S) (fuel : ℕ) (ends : HasEnds p fuel) where
  -- A loop over the stream `dp` returns within `f` rounds, and counts no test.
  abbrev Loops : {A : Type 0} → ℕ → ℕ → M S A → Type 0
  Loops f dp m =
      (s : Suite S) → ends.left s.os dp < f → Returns (m s) (λ (a, t). counted t ≡ counted s)

  scan_entries-Loops : (f dp : ℕ) (n : Found) → Loops f dp (scan_entries p f dp n)
  unfolding scan_entries ◌>>=◌ sys pure if_null
  scan_entries-Loops zero dp n s h = absurd (omega arith)
  scan_entries-Loops (suc f) dp n s h = elim (Option-cases (p.readdir dp s.os).0) [
    | inl e ↦ rw e refl
    | inr (de, e) ↦ rw e (
        scan_entries-Loops f dp (note_entry de n) (record s { os = (p.readdir dp s.os).1 })
          (omega (arith, h, ends.left-readdir s.os dp de e)))
  ]

  drain-Loops : (f dp : ℕ) → Loops f dp (drain p f dp)
  unfolding drain ◌>>=◌ sys pure if_null
  drain-Loops zero dp s h = absurd (omega arith)
  drain-Loops (suc f) dp s h = elim (Option-cases (p.readdir dp s.os).0) [
    | inl e ↦ rw e refl
    | inr (de, e) ↦ rw e (
        drain-Loops f dp (record s { os = (p.readdir dp s.os).1 })
          (omega (arith, h, ends.left-readdir s.os dp de e)))
  ]

  -- Checking an entry leaves the stream and the counters alone.
  checked :
      (r : Ret Stat) (ino dp : ℕ) (s t : Suite S)
      → counted t ≡ counted s
      → ends.left t.os dp ≤ ends.left s.os dp
      → Returns
          (if_failed {B = ℕ} r (pure 1) (λ st. pure (if ino == st.st_ino then 0 else 1)) t)
          (λ (e, u). (counted u ≡ counted s) × (ends.left u.os dp ≤ ends.left s.os dp))
  unfolding if_failed pure
  checked (done st) ino dp s t c h = (c, h)
  checked (failed e) ino dp s t c h = (c, h)

  check_entry_lem :
      (de : DirEntry) (dp : ℕ) (s : Suite S)
      → Returns
          (check_entry p de s)
          (λ (e, t). (counted t ≡ counted s) × (ends.left t.os dp ≤ ends.left s.os dp))
  unfolding check_entry ◌>>=◌ sys pure cond
  check_entry_lem de dp s =
      let path = take 63 (b'/' ∷ de.d_name) in
      let t = record s { os = (p.stat path s.os).1 } in
      elim (Bool-cases (is_dots de.d_name)) [
        | inl e ↦ rw e (refl, omega arith)
        | inr e ↦
            rw e (checked (p.stat path s.os).0 de.d_ino dp s t refl (ends.left-stat path s.os dp))
      ]

  check_entries-Loops : (f dp err : ℕ) → Loops f dp (check_entries p f dp err)
  unfolding check_entries ◌>>=◌ sys pure if_null
  check_entries-Loops zero dp err s h = absurd (omega arith)
  check_entries-Loops (suc f) dp err s h = elim (Option-cases (p.readdir dp s.os).0) [
    | inl e ↦ rw e refl
    | inr (de, e) ↦
        let t = record s { os = (p.readdir dp s.os).1 } in
        rw e (
          Returns-go_on (check_entry p de t) _ _ _ (check_entry_lem de dp t) (λ err' u (c, l).
            Returns-mono (check_entries p f dp (err + err') u)
              (check_entries-Loops f dp (err + err') u
                (omega (arith, h, l, ends.left-readdir s.os dp de e)))
              (λ _ e'. e' ∙ c)))
  ]

  -- A directory that is opened, a loop over its stream, and what comes after.
  Adds-opendir :
      {A B : Type 0} {n : ℕ} (path : List ℕ) (loop : ℕ → M S A) (k : ℕ → A → M S B) {m : M S B}
      → ((dp : ℕ) → Loops fuel dp (loop dp))
      → ((dp : ℕ) (a : A) → Adds n (k dp a))
      → Adds n m
      → Adds n (sys (p.opendir path) >>= λ r. if_failed r m (λ dp. loop dp >>= k dp))
  unfolding sys ◌>>=◌ if_failed
  Adds-opendir {n} path loop k {m} l g h = record {
    returns = λ s b.
        let t = record s { os = (p.opendir path s.os).1 } in
        opened (p.opendir path s.os).0 t (λ dp e. ends.left-opendir path s.os dp e) b;
  }
    where
      opened :
          (r : Ret ℕ) (t : Suite S)
          → ((dp : ℕ) → r ≡ done dp → ends.left t.os dp < fuel)
          → counted t + n < 2 ^ 32
          → Returns (if_failed r m (λ dp. loop dp >>= k dp) t) (λ (a, u). counted u ≡ counted t + n)
      opened (done dp) t few b =
          Returns-go_on (loop dp t) (k dp) _ _ (l dp t (few dp refl)) (λ a u e.
            Returns-mono (k dp a u) ((g dp a).returns u (omega (arith, e, b)))
              (λ _ e'. omega (arith, e, e')))
      opened (failed e) t few b = h.returns t b

  pub Adds-test_readdir_contents : Adds 1 (test_readdir_contents p fuel)
  unfolding test_readdir_contents
  Adds-test_readdir_contents =
      Adds-opendir _ _ _ (λ dp. scan_entries-Loops fuel dp _)
        (λ dp n. search adds depth 30 fits 3000) (search adds)

  pub Adds-test_readdir_ino : Adds 1 (test_readdir_ino p fuel)
  unfolding test_readdir_ino
  Adds-test_readdir_ino =
      Adds-opendir _ _ _ (λ dp. check_entries-Loops fuel dp 0)
        (λ dp n. search adds depth 30 fits 3000) (search adds)

  Adds-open_and_close : (n : ℕ) → Adds 1 (open_and_close p fuel n)
  unfolding open_and_close ◌>>◌
  Adds-open_and_close zero = search adds
  Adds-open_and_close (suc n) =
      let rest = Adds-open_and_close n in
      Adds-opendir _ _ _ (λ dp. drain-Loops fuel dp) (λ dp _. search (adds, rest)) (search adds)

  pub Adds-test_readdir_repeated : Adds 1 (test_readdir_repeated p fuel)
  unfolding test_readdir_repeated
  Adds-test_readdir_repeated = Adds-open_and_close 3

pub ruleset counted_streams =
    (Adds-test_readdir_contents, Adds-test_readdir_ino, Adds-test_readdir_repeated)
