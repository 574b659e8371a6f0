-- ===== src/Libfuse/Answered.antt =====
-- libs/libfuse/lib/fuse_lowlevel.c: what one reply does to the request, the heap and the
-- `fuse_req_t`.
use ukfs_fuse.Common.{
  ℕ, suc, ◌+◌, ◌≤◌, ◌<◌, ◌≡◌, ◌≢◌, refl, Bool, true, false, none, some, List, arith, take, length,
  length-take_of_le, ltb, if◌then◌else◌, Exec, ok, is_nonzero, Mem, malloc, free, given,
  malloc-live, [], Bool-cases, inl, inr, ◌==◌, ◌&&◌, le→leb,
}
use ukfs_fuse.Errno.{enoent}
use ukfs_fuse.Request.{Request, Payload, entry, attr, bytes, EntryParam, Stat, owned}
use ukfs_fuse.Libfuse.Reply.{
  Call, FileInfo, fuse_free_req, fuse_reply_err, answer_copy, fuse_reply_entry, fuse_reply_attr,
  answer_open, fuse_reply_open, answer_buf, fuse_reply_buf,
}

-- The request answered once, the block of the `fuse_req_t` freed, and one block handed over with the
-- request if it has data; an error comes without data, and a length is that of the data.
pub record IsAnswered (c d : Call) : Type 0 where
  pub once : d.request.done ≡ suc c.request.done
  pub freed : d.alive ≡ false
  pub balanced : suc d.mem.live ≡ c.mem.live + owned d.request.reply_data
  pub consistent : is_nonzero d.request.error ≡ true → d.request.reply_data ≡ none
  pub sized :
      (xs : List ℕ) → d.request.reply_data ≡ some (bytes xs) → d.request.reply_len ≡ length xs

-- A call as libfuse starts it.
abbrev pub started : Request → Mem → Call
started req m = record { request = req; mem = m; alive = true }

-- The handler or reply ends, and has answered the request once.
pub data Answers (req : Request) (m : Mem) (x : Exec Call) : Type 0 where
  answers : (d : Call) → x ≡ ok d → IsAnswered (started req m) d → Answers req m x

-- Only the number of blocks counts.
pub live-Answers :
    {req : Request} {m m' : Mem} {x : Exec Call}
    → m'.live ≡ m.live
    → Answers req m' x
    → Answers req m x
live-Answers h (answers d e a) = answers d e (record {
  once = a.once;
  freed = a.freed;
  balanced = omega (arith, a.balanced, h);
  consistent = a.consistent;
  sized = a.sized;
})

pub if-Answers :
    {req : Request} {m : Mem} (test : Bool) {x y : Exec Call}
    → Answers req m x
    → Answers req m y
    → Answers req m (if test then x else y)
if-Answers true h k = h
if-Answers false h k = k

module _ (req : Request) (m : Mem) (held : 0 < m.live) where
  pub reply_err-Answers : (e : ℕ) → Answers req m (fuse_reply_err (started req m) e)
  unfolding fuse_reply_err fuse_free_req free
  reply_err-Answers e = answers _ refl (record {
    once = omega arith;
    freed = refl;
    balanced = omega arith;
    consistent = λ h. refl;
    sized = λ xs h. cc;
  })

  -- What an answer holds before the `fuse_req_t` is freed.
  record IsFilled (d : Call) : Type 0 where
    open_still : d.alive ≡ true
    raised : d.request.done ≡ suc req.done
    gained : d.mem.live ≡ m.live + owned d.request.reply_data
    paired : is_nonzero d.request.error ≡ true → d.request.reply_data ≡ none
    measured :
        (xs : List ℕ) → d.request.reply_data ≡ some (bytes xs) → d.request.reply_len ≡ length xs

  free_req-Answers : (d : Call) → IsFilled d → Answers req m (fuse_free_req d)
  unfolding fuse_free_req free
  free_req-Answers d f =
      answers (record d { mem = free d.mem; alive = false }) (ground (arith, f.open_still))
        (record {
          once = f.raised;
          freed = refl;
          balanced = omega (arith, f.gained);
          consistent = f.paired;
          sized = f.measured;
        })

  answer_copy-IsFilled :
      (p : Payload) (len : ℕ) (r : Bool × Mem)
      → ((xs : List ℕ) → p ≢ bytes xs)
      → r.1.live ≡ m.live + given r.0
      → IsFilled (answer_copy (started req m) p len r)
  unfolding answer_copy
  answer_copy-IsFilled p len (true, m') other h = record {
    open_still = refl;
    raised = omega arith;
    gained = h;
    paired = λ e. cc;
    measured = λ xs e. absurd (other xs (cc));
  }
  answer_copy-IsFilled p len (false, m') other h = record {
    open_still = refl;
    raised = omega arith;
    gained = h;
    paired = λ e. refl;
    measured = λ xs e. cc;
  }

  answer_open-IsFilled :
      (fh : ℕ) (r : Bool × Mem)
      → r.1.live ≡ m.live + given r.0
      → IsFilled (answer_open (started req m) fh r)
  unfolding answer_open
  answer_open-IsFilled fh (true, m') h = record {
    open_still = refl;
    raised = omega arith;
    gained = h;
    paired = λ e. cc;
    measured = λ xs e. cc;
  }
  answer_open-IsFilled fh (false, m') h = record {
    open_still = refl;
    raised = omega arith;
    gained = h;
    paired = λ e. refl;
    measured = λ xs e. cc;
  }

  answer_buf-IsFilled :
      (data_ : List ℕ) (size : ℕ) (r : Bool × Mem)
      → length data_ ≡ size
      → r.1.live ≡ m.live + given r.0
      → IsFilled (answer_buf (started req m) data_ size r)
  unfolding answer_buf
  answer_buf-IsFilled data_ size (true, m') fits h = record {
    open_still = refl;
    raised = omega arith;
    gained = h;
    paired = λ e. cc;
    measured = λ xs e. ground (arith, e, fits);
  }
  answer_buf-IsFilled data_ size (false, m') fits h = record {
    open_still = refl;
    raised = omega arith;
    gained = h;
    paired = λ e. refl;
    measured = λ xs e. cc;
  }

  pub reply_entry-Answers :
      (proto_minor : ℕ) (e : EntryParam)
      → Answers req m (fuse_reply_entry proto_minor (started req m) e)
  unfolding fuse_reply_entry
  reply_entry-Answers proto_minor e = elim (Bool-cases (e.ino == 0 && ltb proto_minor 4)) [
    | inl old ↦ rw old (reply_err-Answers enoent)
    | inr recent ↦ rw recent (
        free_req-Answers _
          (answer_copy-IsFilled (entry e) _ (malloc m) (λ xs e. cc) (malloc-live m)))
  ]

  pub reply_attr-Answers : (st : Stat) → Answers req m (fuse_reply_attr (started req m) st)
  unfolding fuse_reply_attr
  reply_attr-Answers st =
      free_req-Answers _ (answer_copy-IsFilled (attr st) _ (malloc m) (λ xs e. cc) (malloc-live m))

  pub reply_open-Answers : (fi : FileInfo) → Answers req m (fuse_reply_open (started req m) fi)
  unfolding fuse_reply_open
  reply_open-Answers fi = free_req-Answers _ (answer_open-IsFilled fi.fh (malloc m) (malloc-live m))

  -- A copy within the buffer.
  pub reply_buf-Answers :
      (buf : List ℕ) (size : ℕ)
      → size ≤ length buf
      → Answers req m (fuse_reply_buf (started req m) (some buf) size)
  unfolding fuse_reply_buf
  reply_buf-Answers buf size h = rw (le→leb size (length buf) h) (
      free_req-Answers _ (
        answer_buf-IsFilled (take size buf) size (malloc m) (length-take_of_le size buf h)
          (malloc-live m)))

  pub reply_nothing-Answers : Answers req m (fuse_reply_buf (started req m) none 0)
  unfolding fuse_reply_buf
  reply_nothing-Answers =
      free_req-Answers _ (answer_buf-IsFilled [] 0 (malloc m) refl (malloc-live m))
