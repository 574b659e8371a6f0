-- ===== src/System/Entry.antt =====
-- A directory entry from `fuse_add_direntry` of libs/libfuse/lib/fuse_lowlevel.c, which the backends
-- call, to `fusefs_listdir` of libs/ukfusefs/ukfs-fuse.c.
use ukfs_fuse.Common.{
  ℕ, ◌+◌, ◌-◌, ◌%◌, ◌^◌, ◌≤◌, ◌<◌, ◌≡◌, refl, arith, some, List, ◌++◌, append_assoc, length,
  length-append, take, take-append_left, drop, replicate, le, load, load-le, le→ltb, ok, pos,
}
use ukfs_fuse.Hello.{direntry, entlen_padded, fuse_name_offset}
use ukfs_fuse.Driver.{World}
use ukfs_fuse.Driver.Dir.{dirent_of, decode_reply}

module _ (name : List ℕ) (ino type off : ℕ) (rest : List ℕ) where
  abbrev data_ : List ℕ
  data_ = direntry name ino type off ++ rest

  ino_at : ino < 2 ^ 64 → load 8 data_ ≡ ino
  unfolding direntry le
  ino_at h = load-le 8 ino _ h

  off_at : off < 2 ^ 64 → load 8 (drop 8 data_) ≡ off
  unfolding direntry le
  off_at h = load-le 8 off _ h

  len_at : length name < 2 ^ 32 → load 4 (drop 16 data_) ≡ length name
  unfolding direntry le
  len_at h = load-le 4 (length name) _ h

  type_at : type < 2 ^ 32 → load 4 (drop 20 data_) ≡ type
  unfolding direntry le
  type_at h = load-le 4 type _ h

  name_at : take (length name) (drop 24 data_) ≡ name
  unfolding direntry le
  name_at = rw (append_assoc name) (take-append_left (length name) name _ refl)

  data-length : 24 + length name ≤ length data_
  unfolding direntry le
  data-length =
      let pad : List ℕ = replicate (entlen_padded name - (fuse_name_offset + length name)) 0 in
      omega (arith, length-append (name ++ pad) rest, length-append name pad)

  module _ {S : Type 0} (reclen : ℕ → ℕ) (cursor len : ℕ) (w : World S) where
    -- An entry that fuse_add_direntry writes for any name shorter than 2^32, with an inode and an
    -- offset of 64 bits and a type of 32 bits, and whatever follows it, is decoded by
    -- fusefs_listdir, where the caller's buffer holds the entry, as the same name, inode and
    -- offset, the low 8 bits of the type and the low 16 bits of the length, with the cursor set to
    -- the offset.
    pub decode_reply-direntry :
        ino < 2 ^ 64
        → type < 2 ^ 32
        → off < 2 ^ 64
        → length name < 2 ^ 32
        → reclen (length name) ≤ len
        → decode_reply reclen cursor len w data_
          ≡ ok (record {
            ret = pos (reclen (length name));
            cursor = off;
            out = some (record {
              d_ino = ino;
              d_off = off;
              d_reclen = reclen (length name) % 2 ^ 16;
              d_type = type % 2 ^ 8;
              d_name = name;
            });
            world = w;
          })
    unfolding decode_reply dirent_of
    decode_reply-direntry hi ht ho hn room = rw (
      len_at hn,
      le→ltb (length data_) 24 (omega (arith, data-length)),
      le→ltb len (reclen (length name)) room,
      le→ltb (length data_) (24 + length name) data-length,
      ino_at hi,
      off_at ho,
      type_at ht,
      name_at,
    )
