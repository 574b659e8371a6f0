-- ===== src/Driver/File.antt =====
-- libs/ukfusefs/ukfs-fuse.c: file objects made, grafted and released.
use ukfs_fuse.Common.{
  ℕ, Bool, true, false, Option, none, some, ◌∷◌, Exec, ok, fault, ℤ, pos, neg, Mem, malloc, free,
}
use ukfs_fuse.Errno.{enosys}
use ukfs_fuse.Driver.Types.{FusefsFile, no_fh, World, acquire_ref, release_ref}

abbrev pub fresh_file : ℕ → FusefsFile
fresh_file nodeid = record { nodeid = nodeid; fh = no_fh; upref = none }

abbrev pub alloc_file : ℕ → Bool × Mem → Option FusefsFile × Mem
alloc_file nodeid (true, m) = (some (fresh_file nodeid), m)
alloc_file nodeid (false, m) = (none, m)

unfoldable pub fusefs_file_alloc : ℕ → Mem → Option FusefsFile × Mem
unfolding malloc
fusefs_file_alloc nodeid m = alloc_file nodeid (malloc m)

unfoldable pub fusefs_statfs : ℤ
fusefs_statfs = neg enosys

module _ {S : Type 0} where
  unfoldable pub release_upref : Option ℕ → World S → World S
  release_upref none w = w
  release_upref (some r) w = record w { calls = release_ref r ∷ w.calls }

  -- `obj` is the test `what & UK_FILE_RELEASE_OBJ`.
  unfoldable pub fusefs_release : FusefsFile → Bool → World S → World S
  unfolding release_upref free
  fusefs_release ff true w = let w' = release_upref ff.upref w in record w' { mem = free w'.mem }
  fusefs_release ff false w = w

  -- A second graft fails the assertion.
  unfoldable pub fusefs_graft : FusefsFile → ℕ → World S → Exec (ℤ × FusefsFile × World S)
  fusefs_graft ff ref w = elim ff.upref [
    | some r ↦ fault
    | none ↦
        ok (pos 0, record ff { upref = some ref }, record w { calls = acquire_ref ref ∷ w.calls })
  ]
