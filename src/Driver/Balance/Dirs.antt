-- ===== src/Driver/Balance/Dirs.antt =====
-- libs/ukfusefs/ukfs-fuse.c: a directory entry costs no block of the heap.
use ukfs_fuse.Common.{ℕ, ◌≡◌, arith, ok, >>=-eq-ok, free}
use ukfs_fuse.Request.{Request, fuse_ukfs_readdir}
use ukfs_fuse.Driver.{FusefsFile, Channel, World, send}
use ukfs_fuse.Driver.Dir.{DirResult, decode_reply, dir_reply, listdir_reply, fusefs_listdir}
use ukfs_fuse.Driver.Balance.{IsSound, Owns, send-Owns}

module _ {S : Type 0} (ch : Channel S) (sound : IsSound ch) where
  listdir_reply-live :
      (reclen : ℕ → ℕ) (cursor len : ℕ) (w : World S) (a : Request × World S) (out : DirResult S)
      → Owns ch sound w a
      → listdir_reply reclen cursor len a ≡ ok out
      → out.world.mem.live ≡ w.mem.live
  unfolding listdir_reply dir_reply decode_reply free
  listdir_reply-live reclen cursor len w a out o h = ground (arith, h, o)

  -- Over a channel that hands over one block for the data of an answer, keeps no other, and gives
  -- no data with an error, however fusefs_listdir returns, as many blocks are allocated as before.
  pub fusefs_listdir-live :
      (reclen : ℕ → ℕ) (ff : FusefsFile) (cursor len : ℕ) (w : World S) (out : DirResult S)
      → fusefs_listdir reclen ch ff cursor len w ≡ ok out
      → out.world.mem.live ≡ w.mem.live
  unfolding fusefs_listdir
  fusefs_listdir-live reclen ff cursor len w out h =
      let (a, e, k) =
        >>=-eq-ok (send ch fuse_ukfs_readdir _ w) (listdir_reply reclen cursor len) h in
      listdir_reply-live reclen cursor len w a out (send-Owns ch sound _ _ w a e) k
