-- ===== src/Driver/Read.antt =====
-- libs/ukfusefs/ukfs-fuse.c: opening a file at its first read, and reading into several buffers.
use ukfs_fuse.Common.{
  ℕ, ◌+◌, ◌-◌, ◌%◌, ◌^◌, Option, none, some, List, [], ◌∷◌, ◌++◌, length, take, drop, ltb, ◌==◌,
  if◌then◌else◌, Exec, ok, fault, ◌>>=◌, ℤ, pos, neg, is_nonzero, free,
}
use ukfs_fuse.Errno.{eio}
use ukfs_fuse.Request.{
  Request, Payload, open_out, bytes, opens, read, fuse_ukfs_open, fuse_ukfs_read,
}
use ukfs_fuse.Driver.Types.{FusefsFile, no_fh, Channel, World, freed, send}

-- The contents of the buffers that an iovec names.
abbrev pub Iov : Type 0
Iov = List (List ℕ)

-- The sum of `iov_len`, as a `size_t`.
unfoldable pub total_from : ℕ → Iov → ℕ
total_from total [] = total
total_from total (b ∷ iov) = total_from ((total + length b) % 2 ^ 64) iov

-- The loop that scatters the reply: what is left of it goes to the next buffer, until it is used
-- up. The buffers afterwards, and the bytes copied.
unfoldable pub scatter : Iov → List ℕ → ℕ → ℕ → Iov × ℕ
scatter [] src remaining copied = ([], copied)
scatter (b ∷ iov) src remaining copied =
    let n = if ltb (length b) remaining then length b else remaining in
    let rest = scatter iov (drop n src) (remaining - n) (copied + n) in
    if ltb 0 remaining then ((take n src ++ drop n b) ∷ rest.0, rest.1) else (b ∷ iov, copied)

-- What `fusefs_read` leaves behind.
pub record ReadResult (S : Type 0) : Type 0 where
  pub ret : ℤ
  pub file : FusefsFile
  pub iov : Iov
  pub world : World S

module _ {S : Type 0} where
  -- The reply of an open, once its error is known to be 0. A reply of another kind is a fault.
  unfoldable pub take_fh : FusefsFile → World S → Option Payload → Exec (ℤ × FusefsFile × World S)
  unfolding free
  take_fh ff w none = ok (neg eio, ff, w)
  take_fh ff w (some (open_out fh)) = ok (pos 0, record ff { fh = fh }, freed w)
  take_fh ff w (some _) = fault

  unfoldable pub open_reply : FusefsFile → Request × World S → Exec (ℤ × FusefsFile × World S)
  open_reply ff (req, w) =
      if is_nonzero req.error then ok (req.error, ff, w) else take_fh ff w req.reply_data

  unfoldable pub fusefs_do_open : Channel S → FusefsFile → World S → Exec (ℤ × FusefsFile × World S)
  fusefs_do_open ch ff w = send ch fuse_ukfs_open (opens ff.nodeid 0) w >>= open_reply ff

  unfoldable pub scatter_reply :
      FusefsFile → Iov → World S → Request → Option Payload → Exec (ReadResult S)
  scatter_reply ff iov w req none = ok (record { ret = pos 0; file = ff; iov = iov; world = w })
  scatter_reply ff iov w req (some (bytes src)) =
      let (iov', copied) = scatter iov src req.reply_len 0 in
      ok (record { ret = pos copied; file = ff; iov = iov'; world = freed w })
  scatter_reply ff iov w req (some _) = fault

  unfoldable pub read_reply : FusefsFile → Iov → Request × World S → Exec (ReadResult S)
  read_reply ff iov (req, w) =
      if is_nonzero req.error
      then ok (record { ret = req.error; file = ff; iov = iov; world = w })
      else scatter_reply ff iov w req req.reply_data

  -- `fusefs_read` behind the lazy open. The size is cut to 32 bits.
  unfoldable pub read_opened : Channel S → FusefsFile → Iov → ℕ → World S → Exec (ReadResult S)
  read_opened ch ff iov off w =
      let total = total_from 0 iov in
      if total == 0
      then ok (record { ret = pos 0; file = ff; iov = iov; world = w })
      else send ch fuse_ukfs_read (read ff.nodeid ff.fh off (total % 2 ^ 32)) w
        >>= read_reply ff iov

  -- The error of the open, or the read itself.
  unfoldable pub after_open : Channel S → Iov → ℕ → ℤ × FusefsFile × World S → Exec (ReadResult S)
  after_open ch iov off (err, ff, w) =
      if is_nonzero err
      then ok (record { ret = err; file = ff; iov = iov; world = w })
      else read_opened ch ff iov off w

  unfoldable pub fusefs_read : Channel S → FusefsFile → Iov → ℕ → World S → Exec (ReadResult S)
  fusefs_read ch ff iov off w =
      if ff.fh == no_fh
      then fusefs_do_open ch ff w >>= after_open ch iov off
      else read_opened ch ff iov off w
