-- ===== src/Driver/Balance/Reads.antt =====
-- libs/ukfusefs/ukfs-fuse.c: a read, and the open before it, keep the number of allocated blocks.
use ukfs_fuse.Common.{
  ℕ, ◌≡◌, ◌∙◌, inl, inr, arith, Bool-cases, ◌==◌, ok, >>=-eq-ok, ℤ, is_nonzero, free,
}
use ukfs_fuse.Request.{Request, fuse_ukfs_open, fuse_ukfs_read, opens}
use ukfs_fuse.Driver.{FusefsFile, no_fh, Channel, World, send}
use ukfs_fuse.Driver.Read.{
  Iov, ReadResult, take_fh, open_reply, fusefs_do_open, scatter_reply, read_reply, total_from,
  read_opened, after_open, fusefs_read,
}
use ukfs_fuse.Driver.Balance.{IsSound, Owns, send-Owns}

module _ {S : Type 0} (ch : Channel S) (sound : IsSound ch) where
  open_reply-live :
      (ff : FusefsFile) (w : World S) (a : Request × World S) (out : ℤ × FusefsFile × World S)
      → Owns ch sound w a
      → open_reply ff a ≡ ok out
      → out.2.mem.live ≡ w.mem.live
  unfolding open_reply take_fh free
  open_reply-live ff w a out o h = ground (arith, h, o)

  fusefs_do_open-live :
      (ff : FusefsFile) (w : World S) (out : ℤ × FusefsFile × World S)
      → fusefs_do_open ch ff w ≡ ok out
      → out.2.mem.live ≡ w.mem.live
  unfolding fusefs_do_open
  fusefs_do_open-live ff w out h =
      let (a, e, k) = >>=-eq-ok (send ch fuse_ukfs_open (opens ff.nodeid 0) w) (open_reply ff) h in
      open_reply-live ff w a out (send-Owns ch sound _ _ w a e) k

  read_reply-live :
      (ff : FusefsFile) (iov : Iov) (w : World S) (a : Request × World S) (out : ReadResult S)
      → Owns ch sound w a
      → read_reply ff iov a ≡ ok out
      → out.world.mem.live ≡ w.mem.live
  unfolding read_reply scatter_reply free
  read_reply-live ff iov w a out o h = ground (arith, h, o)

  read_opened-live :
      (ff : FusefsFile) (iov : Iov) (off : ℕ) (w : World S) (out : ReadResult S)
      → read_opened ch ff iov off w ≡ ok out
      → out.world.mem.live ≡ w.mem.live
  unfolding read_opened
  read_opened-live ff iov off w out h = elim (Bool-cases (total_from 0 iov == 0)) [
    | inl nothing ↦ ground (arith, h, nothing)
    | inr some_bytes ↦
        let (a, e, k) =
          >>=-eq-ok (send ch fuse_ukfs_read _ w) (read_reply ff iov) (rw some_bytes at h) in
        read_reply-live ff iov w a out (send-Owns ch sound _ _ w a e) k
  ]

  after_open-live :
      (iov : Iov) (off : ℕ) (w : World S) (a : ℤ × FusefsFile × World S) (out : ReadResult S)
      → a.2.mem.live ≡ w.mem.live
      → after_open ch iov off a ≡ ok out
      → out.world.mem.live ≡ w.mem.live
  unfolding after_open
  after_open-live iov off w a out o h = elim (Bool-cases (is_nonzero a.0)) [
    | inl bad ↦ ground (arith, h, bad, o)
    | inr good ↦ read_opened-live a.1 iov off a.2 out (rw good at h) ∙ o
  ]

  -- Over a channel that hands over one block for the data of an answer, keeps no other, and gives
  -- no data with an error, however fusefs_read returns, as many blocks are allocated as before.
  pub fusefs_read-live :
      (ff : FusefsFile) (iov : Iov) (off : ℕ) (w : World S) (out : ReadResult S)
      → fusefs_read ch ff iov off w ≡ ok out
      → out.world.mem.live ≡ w.mem.live
  unfolding fusefs_read
  fusefs_read-live ff iov off w out h = elim (Bool-cases (ff.fh == no_fh)) [
    | inl fresh ↦
        let (a, e, k) =
          >>=-eq-ok (fusefs_do_open ch ff w) (after_open ch iov off) (rw fresh at h) in
        after_open-live iov off w a out (fusefs_do_open-live ff w a e) k
    | inr opened ↦ read_opened-live ff iov off w out (rw opened at h)
  ]
