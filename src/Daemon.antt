-- ===== src/Daemon.antt =====
-- libs/ukfusefs/fuse_daemon.c: the daemon thread. It turns a request of the driver into a FUSE
-- message in its buffer and hands that to libfuse.
mod Message
pub mod Loop
pub mod Wire
pub mod Direct
use ukfs_fuse.Common.{
  ℕ, ◌+◌, ◌-◌, ◌*◌, ◌%◌, ◌^◌, ◌≤◌, ◌<◌, ◌≡◌, refl, Bool, true, false, Option, none, some, List, [],
  ◌∷◌, ◌++◌, arith, length, drop, le, leb, ltb, ◌==◌, if◌then◌else◌, Exec, ok, blocked, fault,
  ◌>>=◌, ℤ, pos, neg, Mem, malloc, free,
}
use ukfs_fuse.Errno.{enosys, enomem}
use ukfs_fuse.Request.{
  Request, Input, lookup, getattr, opens, read, readdir, fuse_ukfs_lookup, fuse_ukfs_getattr,
  fuse_ukfs_open, fuse_ukfs_read, fuse_ukfs_readdir,
}
unfoldable pub use Message.*

-- One entry of `struct fuse_dispatch_entry`.
pub record DispatchEntry : Type 0 where
  pub ukfs_opcode : ℕ
  pub fuse_opcode : ℕ
  pub fill : Buffer → Request → Exec Buffer

unfoldable pub dispatch_table : List DispatchEntry
unfolding fill_lookup fill_getattr fill_open fill_read fill_readdir
dispatch_table =
    record { ukfs_opcode = fuse_ukfs_lookup; fuse_opcode = fuse_lookup; fill = fill_lookup }
    ∷ record { ukfs_opcode = fuse_ukfs_getattr; fuse_opcode = fuse_getattr; fill = fill_getattr }
    ∷ record { ukfs_opcode = fuse_ukfs_open; fuse_opcode = fuse_open; fill = fill_open }
    ∷ record { ukfs_opcode = fuse_ukfs_read; fuse_opcode = fuse_read; fill = fill_read }
    ∷ record { ukfs_opcode = fuse_ukfs_readdir; fuse_opcode = fuse_readdir; fill = fill_readdir }
    ∷ []

-- The search through the table: the first entry for the opcode.
unfoldable pub find_entry : List DispatchEntry → ℕ → Option DispatchEntry
find_entry [] opcode = none
find_entry (de ∷ rest) opcode = if de.ukfs_opcode == opcode then some de else find_entry rest opcode

-- The header as the loop resets it for a request.
unfoldable pub reset_header : Buffer → Request → Buffer
reset_header b req = record b {
  header = record {
    len = header_size;
    opcode = 0;
    unique = req.unique;
    nodeid = 0;
    uid = 0;
    gid = 0;
    pid = 1;
  };
}

-- The message for a request that has an entry.
unfoldable pub fill_message : DispatchEntry → Buffer → Request → Exec Buffer
fill_message de b req =
    de.fill (record b { header = record b.header { opcode = de.fuse_opcode } }) req
