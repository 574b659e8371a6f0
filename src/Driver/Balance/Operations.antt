-- ===== src/Driver/Balance/Operations.antt =====
-- libs/ukfusefs/ukfs-fuse.c: the four operations with a request of their own, together.
use ukfs_fuse.Common.{ℕ, ◌+◌, ◌≡◌, refl, List, Exec, ok, blocked, fault}
use ukfs_fuse.Driver.{FusefsFile, Channel, World}
use ukfs_fuse.Driver.Read.{Iov, fusefs_read}
use ukfs_fuse.Driver.Attr.{Statx, fusefs_getstat, fusefs_lookup}
use ukfs_fuse.Driver.Dir.{fusefs_listdir}
use ukfs_fuse.Driver.Balance.{IsSound}
use ukfs_fuse.Driver.Balance.Reads.{fusefs_read-live}
use ukfs_fuse.Driver.Balance.Attrs.{kept, fusefs_getstat-live, fusefs_lookup-live}
use ukfs_fuse.Driver.Balance.Dirs.{fusefs_listdir-live}

-- What holds of the result, if there is one.
abbrev pub IfReturned : {A : Type 0} → Exec A → (A → Type 0) → Type 0
IfReturned (ok a) P = P a
IfReturned blocked P = Unit {0}
IfReturned fault P = Unit {0}

returned_if :
    {A : Type 0} (x : Exec A) (P : A → Type 0) → ((a : A) → x ≡ ok a → P a) → IfReturned x P
returned_if (ok a) P h = h a refl
returned_if blocked P h = tt
returned_if fault P h = tt

module _ {S : Type 0} (ch : Channel S) (sound : IsSound ch) (ff : FusefsFile) (w : World S) where
  -- Over a channel that hands over one block for the data of an answer, keeps no other, and gives
  -- no data with an error, if fusefs_read, fusefs_getstat or fusefs_listdir returns then as many
  -- blocks are allocated as before, and if fusefs_lookup returns then one more where it made a file
  -- object and otherwise as many.
  pub operations-live :
      (iov : Iov) (off mask : ℕ) (arg : Statx) (path : List ℕ) (reclen : ℕ → ℕ) (cursor len : ℕ)
      → IfReturned (fusefs_read ch ff iov off w) (λ out. out.world.mem.live ≡ w.mem.live)
        × IfReturned (fusefs_getstat ch mask ff arg w) (λ out. out.2.mem.live ≡ w.mem.live)
        × IfReturned (fusefs_lookup ch ff path w) (λ out. out.1.mem.live ≡ w.mem.live + kept out.0)
        × IfReturned
            (fusefs_listdir reclen ch ff cursor len w)
            (λ out. out.world.mem.live ≡ w.mem.live)
  operations-live iov off mask arg path reclen cursor len = (
    returned_if _ _ (fusefs_read-live ch sound ff iov off w),
    returned_if _ _ (fusefs_getstat-live ch sound mask ff arg w),
    returned_if _ _ (fusefs_lookup-live ch sound ff path w),
    returned_if _ _ (fusefs_listdir-live ch sound reclen ff cursor len w),
  )
