-- ===== src/Request.antt =====
-- libs/ukfusefs/include/uk/fuse.h: the request that the driver and the daemon share, and the reply
-- structures that libs/libfuse/lib/fuse_lowlevel.c hangs on it.
use ukfs_fuse.Common.{ℕ, Option, none, some, List, ℤ, pos}

-- `enum fuse_ukfs_opcode`. The field is an integer: a request may carry any other number.
abbrev pub fuse_ukfs_lookup : ℕ
fuse_ukfs_lookup = 1

abbrev pub fuse_ukfs_getattr : ℕ
fuse_ukfs_getattr = 2

abbrev pub fuse_ukfs_open : ℕ
fuse_ukfs_open = 3

abbrev pub fuse_ukfs_read : ℕ
fuse_ukfs_read = 4

abbrev pub fuse_ukfs_readdir : ℕ
fuse_ukfs_readdir = 5

-- The union `in`: the arm that was written last. A name is the bytes before its terminator.
pub data Input : Type 0 where
  lookup : (parent_ino : ℕ) (name : List ℕ) → Input
  getattr : (ino : ℕ) → Input
  opens : (ino flags : ℕ) → Input
  read : (ino fh offset size : ℕ) → Input
  readdir : (ino fh offset size : ℕ) → Input

-- `struct stat`, the fields that the program sets or reads.
pub record Stat : Type 0 where
  pub st_ino : ℕ
  pub st_mode : ℕ
  pub st_nlink : ℕ
  pub st_uid : ℕ
  pub st_gid : ℕ
  pub st_size : ℕ

abbrev pub zero_stat : Stat
zero_stat = record { st_ino = 0; st_mode = 0; st_nlink = 0; st_uid = 0; st_gid = 0; st_size = 0 }

-- `struct fuse_entry_param`. The timeouts are whole numbers of seconds wherever they are set.
pub record EntryParam : Type 0 where
  pub ino : ℕ
  pub generation : ℕ
  pub attr : Stat
  pub attr_timeout : ℕ
  pub entry_timeout : ℕ

-- An entry with generation 0 that is valid for so many seconds, as is its `attr`.
abbrev pub entry_of : ℕ → ℕ → Stat → EntryParam
entry_of seconds ino st = record {
  ino = ino;
  generation = 0;
  attr = st;
  attr_timeout = seconds;
  entry_timeout = seconds;
}

-- What `reply_data` points to.
pub data Payload : Type 0 where
  entry : EntryParam → Payload
  attr : Stat → Payload
  open_out : (fh : ℕ) → Payload
  bytes : List ℕ → Payload

-- `struct fuse_ukfs_request`; `done` is the value of its semaphore.
pub record Request : Type 0 where
  pub opcode : ℕ
  pub unique : ℕ
  pub input : Input
  pub error : ℤ
  pub reply_data : Option Payload
  pub reply_len : ℕ
  pub done : ℕ

-- A request as the driver sets it up: `memset` to 0, the fields of its operation, `done` at 0.
abbrev pub new_request : ℕ → ℕ → Input → Request
new_request opcode unique input = record {
  opcode = opcode;
  unique = unique;
  input = input;
  error = pos 0;
  reply_data = none;
  reply_len = 0;
  done = 0;
}

-- Blocks that the owner of the request has to free.
abbrev pub owned : Option Payload → ℕ
owned none = 0
owned (some p) = 1
