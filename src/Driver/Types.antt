-- ===== src/Driver/Types.antt =====
-- libs/ukfusefs/ukfs-fuse.c: the driver's file objects, its state, and the round trip of a request
-- that the operations share.
use ukfs_fuse.Common.{
  ℕ, zero, suc, ◌+◌, ◌-◌, ◌%◌, ◌^◌, Option, List, Exec, ok, blocked, ◌>>=◌, Mem, free,
}
use ukfs_fuse.Request.{Request, Input, new_request}

-- `struct fusefs_file`, without the fields that Unikraft's file layer keeps in it. The grafted
-- mount point is a reference to a file of another file system, named by a number.
pub record FusefsFile : Type 0 where
  pub nodeid : ℕ
  pub fh : ℕ
  pub upref : Option ℕ

-- `(uint64_t)-1`: not yet opened.
abbrev pub no_fh : ℕ
no_fh = 2 ^ 64 - 1

-- What goes with a request to the queue, and what comes back: the request as its owner finds it
-- when it looks again, with its semaphore still at 0 if nobody has answered.
pub record Channel (S : Type 0) : Type 0 where
  pub submit : Request → S → Mem → Exec (Request × S × Mem)

-- A call of `uk_file_acquire` or `uk_file_release`, on the file itself or on another file.
pub data FileCall : Type 0 where
  acquire_self : FileCall
  acquire_ref : ℕ → FileCall
  release_ref : ℕ → FileCall

-- `fuse_req_unique`, the heap, what lies behind the queue, and the reference calls made, the last
-- one first.
pub record World (S : Type 0) : Type 0 where
  pub fuse_req_unique : ℕ
  pub mem : Mem
  pub chan : S
  pub calls : List FileCall

module _ {S : Type 0} where
  -- The heap after a `free`.
  abbrev pub freed : World S → World S
  freed w = record w { mem = free w.mem }

  -- `uk_semaphore_down(&req.done)`.
  unfoldable pub wait_done : World S → Request × S × Mem → Exec (Request × World S)
  wait_done w (req, s, m) = elim req.done [
    | zero ↦ blocked
    | suc n ↦ ok (record req { done = n }, record w { mem = m; chan = s })
  ]

  -- The lines that every operation repeats: a zeroed request with its opcode, a fresh number and
  -- its arguments, `fuse_ukfs_queue_push`, and the wait for the answer.
  unfoldable pub send : Channel S → ℕ → Input → World S → Exec (Request × World S)
  unfolding wait_done
  send ch opcode input w =
      let w' = record w { fuse_req_unique = (w.fuse_req_unique + 1) % 2 ^ 64 } in
      ch.submit (new_request opcode w.fuse_req_unique input) w.chan w.mem >>= wait_done w'
