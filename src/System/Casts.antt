-- ===== src/System/Casts.antt =====
-- The casts of `reply_data` in the operations of libs/ukfusefs/ukfs-fuse.c, with
-- apps/fuse-correctness-test/hello_ll.c behind them: none is the reason of a crash.
use ukfs_fuse.Common.{
  ℕ, ◌⊎◌, ◌≢◌, ◌+◌, ◌%◌, ◌^◌, ◌≤◌, ◌<◌, ◌≡◌, refl, Bool, true, false, Bool-cases, inl, inr, Option,
  none, some, List, length, arith, ◌==◌, if◌then◌else◌, Exec, ok, blocked, fault, ◌>>=◌, is_nonzero,
}
use ukfs_fuse.Request.{Request, Payload, Input, lookup, getattr, opens, read}
use ukfs_fuse.Daemon.{Buffer, header_size}
use ukfs_fuse.Daemon.Wire.{payload, opcode_of}
use ukfs_fuse.Daemon.Direct.{InRange}
use ukfs_fuse.Hello.Answers.{hello_session}
use ukfs_fuse.Driver.{World, freed, send}
use ukfs_fuse.System.{daemon_channel}
use ukfs_fuse.System.Kinds.{Fits, fits_lookup, fits_getattr, fits_open, fits_read, send-Fits}
use ukfs_fuse.System.Attributes.{getattr_payload}
use ukfs_fuse.System.Answer.{read_payload, open_payload}
use ukfs_fuse.Driver.{FusefsFile}
use ukfs_fuse.Driver.Attr.{
  Statx, stat_reply, getstat_reply, fusefs_getstat, entry_reply, lookup_reply, lookup_name,
}
use ukfs_fuse.Driver.Read.{
  Iov, take_fh, open_reply, fusefs_do_open, scatter_reply, read_reply, total_from, read_opened,
}
use ukfs_fuse.Common.{c_string, c_string-IsCString, length-append, [], ◌∷◌}

-- Work that crashes has crashed in one of its two parts.
pub crashed_in :
    {A B : Type 0} (x : Exec A) (f : A → Exec B)
    → (x >>= f) ≡ fault
    → (x ≡ fault) ⊎ ((a : A) × (x ≡ ok a) × (f a ≡ fault))
crashed_in (ok a) f h = inr (a, refl, h)
crashed_in blocked f h = absurd cc
crashed_in fault f h = inl refl

-- A reply that the driver takes in without a crash, as it does where the data is of the right kind.
module _ {A : Type 0} (w : World Buffer) (i : Input) (in_range : InRange i)
    (room : length (payload i) ≤ length w.chan.body)
    (small : header_size + length (payload i) < 2 ^ 32)
    (take_in : Request × World Buffer → Exec A) where
  only_behind :
      ((req : Request) (w' : World Buffer)
        → ((p : Payload) → req.reply_data ≡ some p → Fits i p)
        → take_in (req, w') ≢ fault)
      → (send (daemon_channel hello_session) (opcode_of i) i w >>= take_in) ≡ fault
      → send (daemon_channel hello_session) (opcode_of i) i w ≡ fault
  only_behind taken h =
      elim (crashed_in (send (daemon_channel hello_session) (opcode_of i) i w) take_in h) [
        | inl e ↦ e
        | inr (a, e, k) ↦
            absurd (taken a.0 a.1 (λ p q. send-Fits w i a.0 a.1 p in_range room small e q) k)
      ]

-- An error is handed on; without one the data is cast.
taken_in :
    {A : Type 0} (i : Input) (err : Bool) (x : A) (o : Option Payload)
    (cast : Option Payload → Exec A)
    → cast none ≢ fault
    → ((p : Payload) → Fits i p → cast (some p) ≢ fault)
    → ((p : Payload) → o ≡ some p → Fits i p)
    → (if err then ok x else cast o) ≢ fault
taken_in i true x o cast h k fits e = absurd cc
taken_in i false x none cast h k fits e = h e
taken_in i false x (some p) cast h k fits e = k p (fits p refl) e

module _ {S : Type 0} (req : Request) (w : World S) where
  stat_cast :
      (mask ino : ℕ) (arg : Statx) (p : Payload)
      → Fits (getattr ino) p
      → stat_reply mask arg (req, w) (some p) ≢ fault
  unfolding stat_reply
  stat_cast mask ino arg p (fits_getattr st) e = absurd cc

  stat_taken :
      (mask ino : ℕ) (arg : Statx)
      → ((p : Payload) → req.reply_data ≡ some p → Fits (getattr ino) p)
      → getstat_reply mask arg (req, w) ≢ fault
  unfolding getstat_reply stat_reply
  stat_taken mask ino arg =
      taken_in (getattr ino) (is_nonzero req.error) (req.error, arg, w) req.reply_data
        (stat_reply mask arg (req, w)) (λ e. absurd cc) (stat_cast mask ino arg)

  open_cast :
      (ff : FusefsFile) (ino flags : ℕ) (p : Payload)
      → Fits (opens ino flags) p
      → take_fh ff w (some p) ≢ fault
  unfolding take_fh
  open_cast ff ino flags p (fits_open fh) e = absurd cc

  open_taken :
      (ff : FusefsFile) (ino flags : ℕ)
      → ((p : Payload) → req.reply_data ≡ some p → Fits (opens ino flags) p)
      → open_reply ff (req, w) ≢ fault
  unfolding open_reply take_fh
  open_taken ff ino flags =
      taken_in (opens ino flags) (is_nonzero req.error) (req.error, ff, w) req.reply_data
        (take_fh ff w) (λ e. absurd cc) (open_cast ff ino flags)

  read_cast :
      (ff : FusefsFile) (iov : Iov) (ino fh off size : ℕ) (p : Payload)
      → Fits (read ino fh off size) p
      → scatter_reply ff iov w req (some p) ≢ fault
  unfolding scatter_reply
  read_cast ff iov ino fh off size p (fits_read xs) e = absurd cc

  read_taken :
      (ff : FusefsFile) (iov : Iov) (ino fh off size : ℕ)
      → ((p : Payload) → req.reply_data ≡ some p → Fits (read ino fh off size) p)
      → read_reply ff iov (req, w) ≢ fault
  unfolding read_reply scatter_reply
  read_taken ff iov ino fh off size =
      taken_in (read ino fh off size) (is_nonzero req.error) _ req.reply_data
        (scatter_reply ff iov w req) (λ e. absurd cc) (read_cast ff iov ino fh off size)

  lookup_cast :
      (len parent : ℕ) (name : List ℕ) (p : Payload)
      → Fits (lookup parent name) p
      → entry_reply len (freed w) (some p) ≢ fault
  unfolding entry_reply
  lookup_cast len parent name p (fits_lookup en) e = absurd cc

  lookup_taken :
      (len parent : ℕ) (name : List ℕ)
      → ((p : Payload) → req.reply_data ≡ some p → Fits (lookup parent name) p)
      → lookup_reply len (req, w) ≢ fault
  unfolding lookup_reply entry_reply
  lookup_taken len parent name =
      taken_in (lookup parent name) (is_nonzero req.error) _ req.reply_data
        (entry_reply len (freed w)) (λ e. absurd cc) (lookup_cast len parent name)

pub returns_well : {A : Type 0} {a : A} → ok a ≢ fault
returns_well h = cc

module _ (w : World Buffer) (room : 40 ≤ length w.chan.body)
    (small : length w.chan.body < 2 ^ 31) where
  -- The operation crashes only where its request does.
  abbrev pub OnlyBehind : {A : Type 0} → Exec A → Input → Type 0
  OnlyBehind x i = x ≡ fault → send (daemon_channel hello_session) (opcode_of i) i w ≡ fault

  pub getstat-OnlyBehind :
      (mask : ℕ) (ff : FusefsFile) (arg : Statx)
      → OnlyBehind (fusefs_getstat (daemon_channel hello_session) mask ff arg w) (getattr ff.nodeid)
  unfolding fusefs_getstat
  getstat-OnlyBehind mask ff arg =
      only_behind w (getattr ff.nodeid) tt (omega (arith, room, getattr_payload ff.nodeid))
        (omega (arith, getattr_payload ff.nodeid)) (getstat_reply mask arg)
        (λ req w' h. stat_taken req w' mask ff.nodeid arg h)

  pub open-OnlyBehind :
      (ff : FusefsFile)
      → OnlyBehind (fusefs_do_open (daemon_channel hello_session) ff w) (opens ff.nodeid 0)
  unfolding fusefs_do_open
  open-OnlyBehind ff =
      only_behind w (opens ff.nodeid 0) (omega arith) (omega (arith, room, open_payload))
        (omega (arith, open_payload)) (open_reply ff)
        (λ req w' h. open_taken req w' ff ff.nodeid 0 h)

  pub read-OnlyBehind :
      (ff : FusefsFile) (iov : Iov) (off : ℕ)
      → ff.fh < 2 ^ 64
      → off < 2 ^ 64
      → OnlyBehind
          (read_opened (daemon_channel hello_session) ff iov off w)
          (read ff.nodeid ff.fh off (total_from 0 iov % 2 ^ 32))
  unfolding read_opened
  read-OnlyBehind ff iov off f o = elim (Bool-cases (total_from 0 iov == 0)) [
    | inl empty ↦ λ h. absurd (returns_well (rw empty at h))
    | inr some_bytes ↦ λ h.
        let size = total_from 0 iov % 2 ^ 32 in
        only_behind w (read ff.nodeid ff.fh off size) (f, o, omega arith)
          (omega (arith, room, read_payload ff.fh off size))
          (omega (arith, read_payload ff.fh off size)) (read_reply ff iov)
          (λ req w' k. read_taken req w' ff iov ff.nodeid ff.fh off size k) (rw some_bytes at h)
  ]

  pub lookup-OnlyBehind :
      (ff : FusefsFile) (path : List ℕ)
      → length (c_string path) < length w.chan.body
      → OnlyBehind
          (lookup_name (daemon_channel hello_session) ff path w (true, w.mem))
          (lookup ff.nodeid (c_string path))
  unfolding lookup_name
  lookup-OnlyBehind ff path short =
      let i = lookup ff.nodeid (c_string path) in
      let long = length-append (c_string path) (0 ∷ []) in
      only_behind w i (c_string-IsCString path) (omega (arith, short, long))
        (omega (arith, short, small, long)) (lookup_reply (length path))
        (λ req w' h. lookup_taken req w' (length path) ff.nodeid (c_string path) h)
