-- ===== src/Driver/Dir.antt =====
-- libs/ukfusefs/ukfs-fuse.c: one directory entry at a time.
use ukfs_fuse.Common.{
  ℕ, ◌+◌, ◌%◌, ◌^◌, Option, none, some, List, length, take, drop, load, ltb, ◌==◌, if◌then◌else◌,
  Exec, ok, fault, ◌>>=◌, ℤ, pos, neg, is_nonzero,
}
use ukfs_fuse.Errno.{einval}
use ukfs_fuse.Request.{Request, Payload, bytes, readdir, fuse_ukfs_readdir}
use ukfs_fuse.Driver.Types.{FusefsFile, Channel, World, freed, send}

-- `struct uk_fs_dirent`.
pub record Dirent : Type 0 where
  pub d_ino : ℕ
  pub d_off : ℕ
  pub d_reclen : ℕ
  pub d_type : ℕ
  pub d_name : List ℕ

-- Result, cursor afterwards, and the entry written to the caller's buffer, if any.
pub record DirResult (S : Type 0) : Type 0 where
  pub ret : ℤ
  pub cursor : ℕ
  pub out : Option Dirent
  pub world : World S

-- `reclen` is UKFS_DIRENT_RECLEN, which Unikraft defines: the size of an entry by its name's length.
-- The first `struct fuse_dirent` of the reply, as a `struct uk_fs_dirent`.
unfoldable pub dirent_of : (ℕ → ℕ) → List ℕ → Dirent
dirent_of reclen data_ =
    let namelen = load 4 (drop 16 data_) in
    record {
      d_ino = load 8 data_;
      d_off = load 8 (drop 8 data_);
      d_reclen = reclen namelen % 2 ^ 16;
      d_type = load 4 (drop 20 data_) % 2 ^ 8;
      d_name = take namelen (drop 24 data_);
    }

module _ {S : Type 0} (reclen : ℕ → ℕ) where
  -- A reply too short for the structure or for its name is read past its end: a fault.
  unfoldable pub decode_reply : ℕ → ℕ → World S → List ℕ → Exec (DirResult S)
  decode_reply cursor len w data_ =
      let namelen = load 4 (drop 16 data_) in
      let size = reclen namelen in
      if ltb (length data_) 24
      then fault
      else if ltb len size
      then ok (record { ret = neg einval; cursor = cursor; out = none; world = w })
      else if ltb (length data_) (24 + namelen)
      then fault
      else ok (record {
        ret = pos size;
        cursor = load 8 (drop 8 data_);
        out = some (dirent_of reclen data_);
        world = w;
      })

  unfoldable pub dir_reply : ℕ → ℕ → World S → ℕ → Option Payload → Exec (DirResult S)
  dir_reply cursor len w reply_len none =
      ok (record { ret = pos 0; cursor = cursor; out = none; world = w })
  dir_reply cursor len w reply_len (some (bytes data_)) =
      if reply_len == 0
      then ok (record { ret = pos 0; cursor = cursor; out = none; world = freed w })
      else decode_reply cursor len (freed w) data_
  dir_reply cursor len w reply_len (some _) = fault

  unfoldable pub listdir_reply : ℕ → ℕ → Request × World S → Exec (DirResult S)
  listdir_reply cursor len (req, w) =
      if is_nonzero req.error
      then ok (record { ret = req.error; cursor = cursor; out = none; world = w })
      else dir_reply cursor len w req.reply_len req.reply_data

  unfoldable pub fusefs_listdir : Channel S → FusefsFile → ℕ → ℕ → World S → Exec (DirResult S)
  fusefs_listdir ch ff cursor len w =
      send ch fuse_ukfs_readdir (readdir ff.nodeid 0 cursor 4096) w >>= listdir_reply cursor len
