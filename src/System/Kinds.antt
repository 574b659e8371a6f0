-- ===== src/System/Kinds.antt =====
-- The casts of `reply_data` in libs/ukfusefs/ukfs-fuse.c: the answer that
-- apps/fuse-correctness-test/hello_ll.c gives through libfuse and the daemon is the structure that the
-- driver takes it for.
use ukfs_fuse.Common.{
  ℕ, ◌+◌, ◌^◌, ◌≤◌, ◌<◌, ◌≡◌, refl, sym, ap, ◌∙◌, Bool, true, false, Option-cases, inl, inr, none,
  some, List, length, arith, Exec, ok, blocked, fault, ◌>>=◌, >>=-eq-ok, ok-injective, ℤ, pos,
  negsuc, Mem, malloc,
}
use ukfs_fuse.Request.{
  Request, Payload, entry, attr, open_out, bytes, Input, lookup, getattr, opens, read, readdir,
}
use ukfs_fuse.Daemon.{Buffer, header_size}
use ukfs_fuse.Daemon.Wire.{payload, message, opcode_of}
use ukfs_fuse.Daemon.Direct.{InRange, call_direct, start_direct}
use ukfs_fuse.Libfuse.{Call, or_else, to_off_t}
use ukfs_fuse.Libfuse.Answered.{started}
use ukfs_fuse.Libfuse.Kinds.{
  Gives, Gives-fault, Gives-blocked, Gives-if, Gives-reply_err, Gives-reply_entry, Gives-reply_attr,
  Gives-reply_open, Gives-reply_buf, Gives-freed,
}
use ukfs_fuse.Hello.{
  DirBuf, hello_ll_getattr, hello_ll_lookup, reply_buf_limited, hello_dirbuf, reply_dirbuf,
  hello_ll_readdir, hello_ll_open, hello_ll_read,
}
use ukfs_fuse.Hello.Answers.{hello_session}
use ukfs_fuse.Driver.{World, wait_done, send}
use ukfs_fuse.System.{daemon_channel}
use ukfs_fuse.System.Answer.{hello-IsReady}
use ukfs_fuse.System.Delivery.{asked_once, request_for, send-direct}

-- The structure for each kind of request: `struct fuse_entry_param`, `struct stat`,
-- `struct fuse_open_out`, or plain bytes.
pub data Fits : Input → Payload → Type 0 where
  fits_lookup : {parent : ℕ} {name : List ℕ} (e : _) → Fits (lookup parent name) (entry e)
  fits_getattr : {ino : ℕ} (st : _) → Fits (getattr ino) (attr st)
  fits_open : {ino flags : ℕ} (fh : ℕ) → Fits (opens ino flags) (open_out fh)
  fits_read : {ino fh off size : ℕ} (xs : List ℕ) → Fits (read ino fh off size) (bytes xs)
  fits_readdir : {ino fh off size : ℕ} (xs : List ℕ) → Fits (readdir ino fh off size) (bytes xs)

module _ (K : Payload → Type 0) where
  limited-Gives :
      (c : Call) (buf : List ℕ) (n : ℕ) (off : ℤ) (size : ℕ)
      → ((xs : List ℕ) → K (bytes xs))
      → Gives K (reply_buf_limited c buf n off size)
  unfolding reply_buf_limited
  limited-Gives c buf n (pos off) size k =
      Gives-if K _ (Gives-reply_buf K c _ _ k) (Gives-reply_buf K c _ _ k)
  limited-Gives c buf n (negsuc off) size k = Gives-fault K

  module _ (c : Call) (k : (xs : List ℕ) → K (bytes xs)) (off : ℤ) (size : ℕ) where
    reply_dirbuf-Gives : (b : DirBuf) (m : Mem) → Gives K (reply_dirbuf c off size (b, m))
    unfolding reply_dirbuf
    reply_dirbuf-Gives b m = elim (Option-cases b.p) [
      | inl e ↦ rw e (Gives-fault K)
      | inr (buf, e) ↦
          rw e (Gives-freed K _ (limited-Gives (record c { mem = m }) buf b.size off size k))
    ]

    dirbuf-Gives : (x : Exec (DirBuf × Mem)) → Gives K (x >>= reply_dirbuf c off size)
    dirbuf-Gives (ok (b, m)) = reply_dirbuf-Gives b m
    dirbuf-Gives blocked = Gives-blocked K
    dirbuf-Gives fault = Gives-fault K

hello-Gives : (c : Call) (i : Input) → Gives (Fits i) (call_direct hello_session c i)
unfolding hello_session or_else hello_ll_lookup hello_ll_getattr hello_ll_open hello_ll_read
    hello_ll_readdir
hello-Gives c (lookup parent name) =
    Gives-if _ _ (Gives-reply_entry _ 31 c _ (fits_lookup _)) (Gives-reply_err _ c _)
hello-Gives c (getattr ino) =
    Gives-if _ _ (Gives-reply_attr _ c _ (fits_getattr _)) (Gives-reply_err _ c _)
hello-Gives c (opens ino flags) =
    Gives-if _ _ (Gives-if _ _ (Gives-reply_open _ c _ (fits_open _)) (Gives-reply_err _ c _))
      (Gives-reply_err _ c _)
hello-Gives c (read ino fh off size) =
    Gives-if _ _ (limited-Gives _ c _ _ (to_off_t off) size fits_read) (Gives-fault _)
hello-Gives c (readdir ino fh off size) =
    Gives-if _ _ (dirbuf-Gives _ c fits_readdir (to_off_t off) size (hello_dirbuf c.mem))
      (Gives-reply_err _ c _)

nothing_there : {p : Payload} → ¬ (none ≡ some p)
nothing_there h = cc

-- What the driver gets back: the buffer with the message, and data of the kind that the handler
-- gives.
module _ (w : World Buffer) (i : Input) where
  started_kind :
      (K : Payload → Type 0) (r : Bool × Mem) (a : Request × Mem) (p : Payload)
      → ((c : Call) → Gives K (call_direct hello_session c i))
      → start_direct hello_session i (request_for w i) r ≡ ok a
      → a.0.reply_data ≡ some p
      → K p
  started_kind K (false, m) a p gives e q =
      absurd (nothing_there (ap (λ x. x.0.reply_data) (ok-injective e) ∙ q))
  started_kind K (true, m) a p gives e q =
      let c : Call = started (request_for w i) m in
      let (d, k, l) = >>=-eq-ok (call_direct hello_session c i) _ e in
      (gives c).gives d k p (ap (λ x. x.0.reply_data) (ok-injective l) ∙ q)

  waited :
      (x : Request × Buffer × Mem) (out : Request × World Buffer)
      → wait_done (asked_once w) x ≡ ok out
      → (out.0.reply_data ≡ x.0.reply_data) × (out.1.chan ≡ x.1)
  unfolding wait_done
  waited x out h = (ground (arith, h), ground (arith, h))

  module _ (req : Request) (w' : World Buffer) (h : InRange i)
      (room : length (payload i) ≤ length w.chan.body)
      (small : header_size + length (payload i) < 2 ^ 32)
      (e : send (daemon_channel hello_session) (opcode_of i) i w ≡ ok (req, w')) where
    awaited :
        (a : Request × Mem) × (start_direct hello_session i (request_for w i) (malloc w.mem) ≡ ok a)
        × (wait_done (asked_once w) (a.0, message w.chan w.fuse_req_unique i, a.1) ≡ ok (req, w'))
    awaited =
        >>=-eq-ok (start_direct hello_session i (request_for w i) (malloc w.mem)) _
          (sym (send-direct hello_session hello-IsReady w i h room small) ∙ e)

    pub send-HasKind :
        (K : Payload → Type 0) (p : Payload)
        → ((c : Call) → Gives K (call_direct hello_session c i))
        → req.reply_data ≡ some p
        → K p
    send-HasKind K p gives q =
        let (a, k, l) = awaited in
        started_kind K (malloc w.mem) a p gives k (sym (waited _ (req, w') l).0 ∙ q)

    pub send-chan : w'.chan ≡ message w.chan w.fuse_req_unique i
    send-chan = (waited _ (req, w') awaited.2).1

  -- Where a request of the driver to hello_ll whose fields are in range and that fits in the
  -- daemon's buffer comes back with data, whatever malloc refuses, the data is the structure that
  -- the driver casts it to: an entry for a lookup, attributes for a getattr, a file handle for an
  -- open, and bytes for a read or a readdir.
  pub send-Fits :
      (req : Request) (w' : World Buffer) (p : Payload)
      → InRange i
      → length (payload i) ≤ length w.chan.body
      → header_size + length (payload i) < 2 ^ 32
      → send (daemon_channel hello_session) (opcode_of i) i w ≡ ok (req, w')
      → req.reply_data ≡ some p
      → Fits i p
  send-Fits req w' p h room small e q =
      send-HasKind req w' h room small e (Fits i) p (λ c. hello-Gives c i) q

-- An open of hello_ll gives the handle 0, as libfuse has cleared the fuse_file_info.
pub open-Gives :
    (c : Call) (ino flags : ℕ)
    → Gives (λ p. p ≡ open_out 0) (call_direct hello_session c (opens ino flags))
unfolding hello_session or_else hello_ll_open
open-Gives c ino flags =
    Gives-if _ _ (Gives-if _ _ (Gives-reply_open _ c _ refl) (Gives-reply_err _ c _))
      (Gives-reply_err _ c _)
