-- ===== src/Libfuse/Messages.antt =====
-- libs/libfuse/lib/fuse_lowlevel.c: how the work on a message may end, whatever the message.
use ukfs_fuse.Common.{
  ℕ, zero, suc, ◌<◌, ◌≡◌, refl, ◌⊎◌, inl, inr, Bool, true, false, if◌then◌else◌, Exec, fault, Mem,
}
use ukfs_fuse.Request.{Request}
use ukfs_fuse.Daemon.{fuse_lookup, fuse_getattr, fuse_open, fuse_read, fuse_readdir}
use ukfs_fuse.Libfuse.{Call, has_func, or_reply_err}
use ukfs_fuse.Libfuse.Answered.{Answers, started, reply_err-Answers}

-- Either a fault, or the end with one answer: never an end without one.
abbrev pub AnswersOrFaults : Request → Mem → Exec Call → Type 0
AnswersOrFaults req m x = (x ≡ fault) ⊎ Answers req m x

-- The opcodes that the daemon sends, and those for which libfuse has no function.
pub data IsKnown : ℕ → Type 0 where
  asks_lookup : IsKnown fuse_lookup
  asks_getattr : IsKnown fuse_getattr
  asks_open : IsKnown fuse_open
  asks_read : IsKnown fuse_read
  asks_readdir : IsKnown fuse_readdir
  unknown : {op : ℕ} → has_func op ≡ false → IsKnown op

pub known_funcs :
    (has_func fuse_lookup ≡ true)
    × (has_func fuse_getattr ≡ true)
    × (has_func fuse_open ≡ true)
    × (has_func fuse_read ≡ true)
    × (has_func fuse_readdir ≡ true)
unfolding has_func
known_funcs = (refl, refl, refl, refl, refl)

-- An end with one answer; or a crash, of a read or a readdir.
pub data EndsWell (op : ℕ) (req : Request) (m : Mem) (x : Exec Call) : Type 0 where
  answered : Answers req m x → EndsWell op req m x
  crashes : (op ≡ fuse_read) ⊎ (op ≡ fuse_readdir) → x ≡ fault → EndsWell op req m x

pub may_crash :
    {op : ℕ} {req : Request} {m : Mem} {x : Exec Call}
    → (op ≡ fuse_read) ⊎ (op ≡ fuse_readdir)
    → AnswersOrFaults req m x
    → EndsWell op req m x
may_crash reads (inl e) = crashes reads e
may_crash reads (inr a) = answered a

pub if-AnswersOrFaults :
    {req : Request} {m : Mem} (test : Bool) {x y : Exec Call}
    → AnswersOrFaults req m x
    → AnswersOrFaults req m y
    → AnswersOrFaults req m (if test then x else y)
if-AnswersOrFaults true h k = h
if-AnswersOrFaults false h k = k

module _ (req : Request) (m : Mem) (held : 0 < m.live) where
  pub or_reply_err-any :
      (err : ℕ) {x : Exec Call}
      → AnswersOrFaults req m x
      → AnswersOrFaults req m (or_reply_err err (started req m) x)
  unfolding or_reply_err
  or_reply_err-any zero h = h
  or_reply_err-any (suc err) h = inr (reply_err-Answers req m held (suc err))

  pub or_reply_err-EndsWell :
      (err op : ℕ) {x : Exec Call}
      → EndsWell op req m x
      → EndsWell op req m (or_reply_err err (started req m) x)
  unfolding or_reply_err
  or_reply_err-EndsWell zero op h = h
  or_reply_err-EndsWell (suc err) op h = answered (reply_err-Answers req m held (suc err))
