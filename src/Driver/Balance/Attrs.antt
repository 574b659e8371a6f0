-- ===== src/Driver/Balance/Attrs.antt =====
-- libs/ukfusefs/ukfs-fuse.c: attributes cost no block of the heap, and a lookup one for a new file.
use ukfs_fuse.Common.{
  ℕ, suc, ◌&&◌, ◌+◌, ◌<◌, ◌≡◌, inl, inr, Bool, true, false, List, [], ◌∷◌, arith, length, c_string,
  Bool-cases, ◌==◌, ok, >>=-eq-ok, ℤ, Mem, malloc, malloc-live, given, free,
}
use ukfs_fuse.Request.{Request, fuse_ukfs_getattr, fuse_ukfs_lookup, lookup}
use ukfs_fuse.Driver.{FusefsFile, Channel, World, send}
use ukfs_fuse.Driver.File.{fusefs_file_alloc}
use ukfs_fuse.Driver.Attr.{
  Statx, stat_reply, getstat_reply, fusefs_getstat, child, LookupResult, stop_file, child_found,
  entry_reply, lookup_reply, lookup_name, fusefs_lookup, lookup_parent,
}
use ukfs_fuse.Driver.Balance.{IsSound, Owns, send-Owns}

-- The blocks that a result of `fusefs_lookup` keeps: the new file object.
abbrev pub kept : LookupResult → ℕ
kept (stop_file (child c) nout) = 1
kept _ = 0

module _ {S : Type 0} (ch : Channel S) (sound : IsSound ch) where
  getstat_reply-live :
      (mask : ℕ) (arg : Statx) (w : World S) (a : Request × World S) (out : ℤ × Statx × World S)
      → Owns ch sound w a
      → getstat_reply mask arg a ≡ ok out
      → out.2.mem.live ≡ w.mem.live
  unfolding getstat_reply stat_reply free
  getstat_reply-live mask arg w a out o h = ground (arith, h, o)

  -- Over a channel that hands over one block for the data of an answer, keeps no other, and gives
  -- no data with an error, however fusefs_getstat returns, as many blocks are allocated as before.
  pub fusefs_getstat-live :
      (mask : ℕ) (ff : FusefsFile) (arg : Statx) (w : World S) (out : ℤ × Statx × World S)
      → fusefs_getstat ch mask ff arg w ≡ ok out
      → out.2.mem.live ≡ w.mem.live
  unfolding fusefs_getstat
  fusefs_getstat-live mask ff arg w out h =
      let (a, e, k) = >>=-eq-ok (send ch fuse_ukfs_getattr _ w) (getstat_reply mask arg) h in
      getstat_reply-live mask arg w a out (send-Owns ch sound _ _ w a e) k

  lookup_reply-live :
      (len : ℕ) (w : World S) (a : Request × World S) (out : LookupResult × World S)
      → 0 < w.mem.live
      → Owns ch sound w a
      → lookup_reply len a ≡ ok out
      → suc out.1.mem.live ≡ w.mem.live + kept out.0
  unfolding lookup_reply entry_reply fusefs_file_alloc child_found free malloc
  lookup_reply-live len w a out pos o h = ground (arith, h, o)

  lookup_name-live :
      (ff : FusefsFile) (path : List ℕ) (w : World S) (r : Bool × Mem)
      (out : LookupResult × World S)
      → r.1.live ≡ w.mem.live + given r.0
      → lookup_name ch ff path w r ≡ ok out
      → out.1.mem.live ≡ w.mem.live + kept out.0
  unfolding lookup_name
  lookup_name-live ff path w (false, m) out l h = ground (arith, h, l)
  lookup_name-live ff path w (true, m) out l h =
      let w' : World S = record w { mem = m } in
      let (a, e, k) =
        >>=-eq-ok (send ch fuse_ukfs_lookup (lookup ff.nodeid (c_string path)) w')
          (lookup_reply (length path)) h in
      omega (
        arith,
        l,
        lookup_reply-live (length path) w' a out (omega (arith, l)) (send-Owns ch sound _ _ w' a e)
            k,
      )

  -- Over a channel that hands over one block for the data of an answer, keeps no other, and gives
  -- no data with an error, however fusefs_lookup returns, one more block is allocated than before
  -- if it made a file object, and otherwise as many.
  pub fusefs_lookup-live :
      (ff : FusefsFile) (path : List ℕ) (w : World S) (out : LookupResult × World S)
      → fusefs_lookup ch ff path w ≡ ok out
      → out.1.mem.live ≡ w.mem.live + kept out.0
  unfolding fusefs_lookup lookup_parent
  fusefs_lookup-live ff [] w out h = ground (arith, h)
  fusefs_lookup-live ff (a ∷ []) w out h = elim (Bool-cases (a == b'.')) [
    | inl dot ↦ ground (arith, h, dot)
    | inr name ↦
        lookup_name-live ff (a ∷ []) w (malloc w.mem) out (malloc-live w.mem) (rw name at h)
  ]
  fusefs_lookup-live ff (a ∷ b ∷ []) w out h = elim (Bool-cases (a == b'.' && b == b'.')) [
    | inl dots ↦ ground (arith, h, dots)
    | inr name ↦
        lookup_name-live ff (a ∷ b ∷ []) w (malloc w.mem) out (malloc-live w.mem) (rw name at h)
  ]
  fusefs_lookup-live ff (a ∷ b ∷ c ∷ rest) w out h =
      lookup_name-live ff (a ∷ b ∷ c ∷ rest) w (malloc w.mem) out (malloc-live w.mem) h
