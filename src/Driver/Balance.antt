-- ===== src/Driver/Balance.antt =====
-- libs/ukfusefs/ukfs-fuse.c: no operation of the driver loses or doubly frees a block of the heap.
pub mod Reads
pub mod Attrs
pub mod Dirs
pub mod Operations
use ukfs_fuse.Common.{
  ℕ, zero, suc, ◌%◌, ◌^◌, ◌+◌, ◌-◌, ◌≤◌, ◌<◌, ◌≡◌, refl, ◌∙◌, inl, inr, Bool, true, false, Option,
  none, some, List, [], ◌∷◌, arith, length, c_string, Bool-cases, if◌then◌else◌, ◌==◌, Exec, ok,
  blocked, fault, ◌>>=◌, >>=-eq-ok, ℤ, is_nonzero, Mem, malloc, malloc-live, given, free,
}
use ukfs_fuse.Request.{
  Request, Input, Payload, entry, attr, open_out, bytes, EntryParam, new_request, owned,
  fuse_ukfs_open, fuse_ukfs_read, fuse_ukfs_getattr, fuse_ukfs_lookup, fuse_ukfs_readdir, opens,
}
use ukfs_fuse.Driver.{FusefsFile, no_fh, Channel, World, wait_done, send}
use ukfs_fuse.Driver.Read.{
  Iov, ReadResult, take_fh, open_reply, fusefs_do_open, scatter, scatter_reply, read_reply,
  total_from, read_opened, after_open, fusefs_read,
}
use ukfs_fuse.Driver.File.{fusefs_file_alloc}
use ukfs_fuse.Driver.Attr.{
  Statx, stat_reply, getstat_reply, fusefs_getstat, Target, child, LookupResult, stop_file,
  child_found, entry_reply, lookup_reply, lookup_name, fusefs_lookup,
}
use ukfs_fuse.Driver.Dir.{DirResult, decode_reply, dir_reply, listdir_reply, fusefs_listdir}

-- What the driver relies on: the data of an answer is a block of the heap that the driver now owns,
-- nothing else stays allocated, and an error comes without data.
pub record IsSound {S : Type 0} (ch : Channel S) : Type 0 where
  pub balanced :
      (opcode unique : ℕ) (i : Input) (s : S) (m : Mem) (r : Request × S × Mem)
      → ch.submit (new_request opcode unique i) s m ≡ ok r
      → r.2.live ≡ m.live + owned r.0.reply_data
  pub consistent :
      (opcode unique : ℕ) (i : Input) (s : S) (m : Mem) (r : Request × S × Mem)
      → ch.submit (new_request opcode unique i) s m ≡ ok r
      → is_nonzero r.0.error ≡ true
      → r.0.reply_data ≡ none

module _ {S : Type 0} (ch : Channel S) (sound : IsSound ch) where
  abbrev pub Owns : World S → Request × World S → Type 0
  Owns w (req, w') =
      (w'.mem.live ≡ w.mem.live + owned req.reply_data)
      × (is_nonzero req.error ≡ true → req.reply_data ≡ none)

  wait_done-Owns :
      (w : World S) (r : Request × S × Mem) (a : Request × World S)
      → wait_done w r ≡ ok a
      → (a.0.reply_data ≡ r.0.reply_data) × (a.0.error ≡ r.0.error) × (a.1.mem.live ≡ r.2.live)
  unfolding wait_done
  wait_done-Owns w r a h = ground (arith, h)

  -- An answer that the driver has received.
  pub send-Owns :
      (opcode : ℕ) (i : Input) (w : World S) (a : Request × World S)
      → send ch opcode i w ≡ ok a
      → Owns w a
  unfolding send
  send-Owns opcode i w a h =
      let (r, e, k) = >>=-eq-ok (ch.submit _ w.chan w.mem) _ h in
      let (d, er, l) =
        wait_done-Owns (record w { fuse_req_unique = (w.fuse_req_unique + 1) % 2 ^ 64 }) r a k in
      (
        rw (l, d) (sound.balanced _ _ _ _ _ r e),
        λ n. d ∙ sound.consistent _ _ _ _ _ r e (rw er at n),
      )
