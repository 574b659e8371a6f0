-- ===== src/Driver/Attr.antt =====
-- libs/ukfusefs/ukfs-fuse.c: attributes of a file, and the lookup of a name.
use ukfs_fuse.Common.{
  ℕ, Bool, true, false, Option, none, some, List, [], ◌∷◌, length, c_string, ◌==◌, ◌&&◌,
  if◌then◌else◌, Exec, ok, fault, ◌>>=◌, ℤ, pos, neg, is_nonzero, Mem, malloc, free,
}
use ukfs_fuse.Errno.{eio, enomem}
use ukfs_fuse.Request.{
  Request, Payload, entry, attr, Stat, lookup, getattr, fuse_ukfs_lookup, fuse_ukfs_getattr,
}
use ukfs_fuse.Driver.Types.{FusefsFile, Channel, World, acquire_self, acquire_ref, freed, send}
use ukfs_fuse.Driver.File.{fusefs_file_alloc}

-- `struct uk_statx`, the fields that the driver sets.
pub record Statx : Type 0 where
  pub stx_mask : ℕ
  pub stx_mode : ℕ
  pub stx_size : ℕ
  pub stx_ino : ℕ
  pub stx_nlink : ℕ
  pub stx_uid : ℕ
  pub stx_gid : ℕ

-- The assignments of `fusefs_getstat`. `mask` is UK_STATX_MODE | UK_STATX_SIZE | UK_STATX_INO |
-- UK_STATX_NLINK, which Unikraft defines.
unfoldable pub statx_of : ℕ → Stat → Statx
statx_of mask st = record {
  stx_mask = mask;
  stx_mode = st.st_mode;
  stx_size = st.st_size;
  stx_ino = st.st_ino;
  stx_nlink = st.st_nlink;
  stx_uid = st.st_uid;
  stx_gid = st.st_gid;
}

-- What `fusefs_lookup` gives: UKFS_STOP_FILE or UKFS_STOP_MNT with the target, or an error.
pub data Target : Type 0 where
  itself : Target
  mount_point : ℕ → Target
  child : FusefsFile → Target

pub data LookupResult : Type 0 where
  stop_file : Target → (nout : ℕ) → LookupResult
  stop_mnt : Target → (nout : ℕ) → LookupResult
  failed : ℤ → LookupResult

module _ {S : Type 0} where
  unfoldable pub stat_reply :
      ℕ → Statx → Request × World S → Option Payload → Exec (ℤ × Statx × World S)
  stat_reply mask arg (req, w) none = ok (neg eio, arg, w)
  stat_reply mask arg (req, w) (some (attr st)) = ok (pos 0, statx_of mask st, freed w)
  stat_reply mask arg (req, w) (some _) = fault

  unfoldable pub getstat_reply : ℕ → Statx → Request × World S → Exec (ℤ × Statx × World S)
  getstat_reply mask arg (req, w) =
      if is_nonzero req.error
      then ok (req.error, arg, w)
      else stat_reply mask arg (req, w) req.reply_data

  unfoldable pub fusefs_getstat :
      Channel S → ℕ → FusefsFile → Statx → World S → Exec (ℤ × Statx × World S)
  fusefs_getstat ch mask ff arg w =
      send ch fuse_ukfs_getattr (getattr ff.nodeid) w >>= getstat_reply mask arg

  -- `e` is freed whether or not the child could be allocated.
  unfoldable pub child_found : ℕ → World S → Option FusefsFile × Mem → LookupResult × World S
  unfolding free
  child_found len w (some c, m) = (stop_file (child c) len, record w { mem = free m })
  child_found len w (none, m) = (failed (neg enomem), record w { mem = free m })

  unfoldable pub entry_reply : ℕ → World S → Option Payload → Exec (LookupResult × World S)
  entry_reply len w none = ok (failed (neg eio), w)
  entry_reply len w (some (entry e)) = ok (child_found len w (fusefs_file_alloc e.ino w.mem))
  entry_reply len w (some _) = fault

  -- `free(name)`, then the error, then the entry.
  unfoldable pub lookup_reply : ℕ → Request × World S → Exec (LookupResult × World S)
  lookup_reply len (req, w) =
      let w' = freed w in
      if is_nonzero req.error then ok (failed req.error, w') else entry_reply len w' req.reply_data

  unfoldable pub lookup_name :
      Channel S → FusefsFile → List ℕ → World S → Bool × Mem → Exec (LookupResult × World S)
  lookup_name ch ff path w (false, m) = ok (failed (neg enomem), record w { mem = m })
  lookup_name ch ff path w (true, m) =
      send ch fuse_ukfs_lookup (lookup ff.nodeid (c_string path)) (record w { mem = m })
      >>= lookup_reply (length path)

  -- The parent's side of "..": the grafted mount point, or the file itself.
  unfoldable pub lookup_parent : Option ℕ → World S → LookupResult × World S
  lookup_parent (some r) w =
      (stop_mnt (mount_point r) 2, record w { calls = acquire_ref r ∷ w.calls })
  lookup_parent none w = (stop_mnt itself 2, record w { calls = acquire_self ∷ w.calls })

  -- `path` holds the `len` bytes of the path; `strndup` copies them up to a NUL.
  unfoldable pub fusefs_lookup :
      Channel S → FusefsFile → List ℕ → World S → Exec (LookupResult × World S)
  unfolding lookup_parent
  fusefs_lookup ch ff [] w = ok (stop_file itself 0, record w { calls = acquire_self ∷ w.calls })
  fusefs_lookup ch ff (a ∷ []) w =
      if a == b'.'
      then ok (stop_file itself 1, record w { calls = acquire_self ∷ w.calls })
      else lookup_name ch ff (a ∷ []) w (malloc w.mem)
  fusefs_lookup ch ff (a ∷ b ∷ []) w =
      if a == b'.' && b == b'.'
      then ok (lookup_parent ff.upref w)
      else lookup_name ch ff (a ∷ b ∷ []) w (malloc w.mem)
  fusefs_lookup ch ff path w = lookup_name ch ff path w (malloc w.mem)
