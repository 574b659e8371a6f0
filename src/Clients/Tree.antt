-- ===== src/Clients/Tree.antt =====
-- What a POSIX system promises of the tree of apps/fuse-correctness-test/hello_ll.c when it is mounted
-- at / and read by root: a reference system for the tests, which can be run.
pub mod Ends
use ukfs_fuse.Common.{
  ℕ, zero, suc, ◌+◌, ◌-◌, Bool, true, false, not, List, [], ◌∷◌, length, take, drop, leb, ◌==◌,
  ◌&&◌, same_bytes, if◌then◌else◌, Option, none, some,
}
use ukfs_fuse.Errno.{enoent, enotdir, eisdir, einval}
use ukfs_fuse.Request.{Stat, zero_stat}
use ukfs_fuse.Hello.{hello_str, hello_name, hello_stat}
use ukfs_fuse.Clients.{
  Posix, Ret, done, failed, Whence, seek_set, seek_cur, seek_end, Shift, forward, backward,
  DirEntry, root_path, hello_path,
}

-- EBADF
abbrev pub ebadf : ℕ
ebadf = 9

-- What a descriptor stands for.
pub data File : Type 0 where
  console : File
  inode : (ino pos : ℕ) → File

-- The descriptors and the streams by number; whether the tree is mounted, whether the backend has
-- been started, and how often it still has to run before it has registered.
pub record Tree : Type 0 where
  pub files : List (Option File)
  pub streams : List (Option (List DirEntry))
  pub mounted : Bool
  pub started : Bool
  pub turns : ℕ

module _ {ℓ} {A : Type ℓ} where
  abbrev pub slot : ℕ → List (Option A) → Option A
  slot n [] = none
  slot zero (x ∷ xs) = x
  slot (suc n) (x ∷ xs) = slot n xs

  abbrev pub fill_slot : ℕ → Option A → List (Option A) → List (Option A)
  fill_slot n y [] = []
  fill_slot zero y (x ∷ xs) = y ∷ xs
  fill_slot (suc n) y (x ∷ xs) = x ∷ fill_slot n y xs

  -- The lowest number that is free, and the table with it in use.
  abbrev pub take_slot : A → List (Option A) → ℕ × List (Option A)
  take_slot a [] = (0, some a ∷ [])
  take_slot a (none ∷ xs) = (0, some a ∷ xs)
  take_slot a (some x ∷ xs) = let (n, ys) = take_slot a xs in (suc n, some x ∷ ys)

abbrev pub attributes : ℕ → Stat
attributes ino = (hello_stat ino zero_stat).0

-- The inode of a path.
abbrev pub resolve : Tree → List ℕ → Option ℕ
resolve t path =
    if not t.mounted
    then none
    else if same_bytes path root_path
    then some 1
    else if same_bytes path hello_path
    then some 2
    else none

module _ {A : Type 0} where
  -- A call on a path that has to exist.
  abbrev pub at_node : (ℕ → Tree → Ret A × Tree) → Option ℕ → Tree → Ret A × Tree
  at_node f none t = (failed enoent, t)
  at_node f (some ino) t = f ino t

  abbrev pub on_path : (ℕ → Tree → Ret A × Tree) → List ℕ → Tree → Ret A × Tree
  on_path f path t = at_node f (resolve t path) t

  -- A call on a descriptor that has to be a file of the tree.
  abbrev pub at_file : (ℕ → ℕ → Tree → Ret A × Tree) → Option File → Tree → Ret A × Tree
  at_file f none t = (failed ebadf, t)
  at_file f (some console) t = (failed einval, t)
  at_file f (some (inode ino pos)) t = f ino pos t

  abbrev pub on_file : (ℕ → ℕ → Tree → Ret A × Tree) → ℕ → Tree → Ret A × Tree
  on_file f fd t = at_file f (slot fd t.files) t

abbrev pub opened : ℕ → Tree → Ret ℕ × Tree
opened ino t =
    let (fd, files) = take_slot (inode ino 0) t.files in (done fd, record t { files = files })

-- What is stored of a file, from an offset on; a directory is not read.
abbrev pub bytes_at : ℕ → ℕ → ℕ → Ret (List ℕ)
bytes_at ino n off = if ino == 2 then done (take n (drop off hello_str)) else failed eisdir

abbrev pub advance : Ret (List ℕ) → ℕ → ℕ → ℕ → Tree → Tree
advance (done bytes) fd ino pos t = record t {
  files = fill_slot fd (some (inode ino (pos + length bytes))) t.files;
}
advance (failed e) fd ino pos t = t

abbrev pub shifted : ℕ → Shift → Ret ℕ
shifted base (forward n) = done (base + n)
shifted base (backward n) = if leb n base then done (base - n) else failed einval

-- Where an lseek leads to.
abbrev pub target : ℕ → ℕ → Shift → Whence → Ret ℕ
target ino pos shift seek_set = shifted 0 shift
target ino pos shift seek_cur = shifted pos shift
target ino pos shift seek_end = shifted (attributes ino).st_size shift

abbrev pub move_to : Ret ℕ → ℕ → ℕ → Tree → Tree
move_to (done pos) fd ino t = record t { files = fill_slot fd (some (inode ino pos)) t.files }
move_to (failed e) fd ino t = t

abbrev pub entries : List DirEntry
entries =
    record { d_name = b'.' ∷ []; d_ino = 1 }
    ∷ record { d_name = b'.' ∷ b'.' ∷ []; d_ino = 1 }
    ∷ record { d_name = hello_name; d_ino = 2 }
    ∷ []

abbrev pub stream_opened : ℕ → Tree → Ret ℕ × Tree
stream_opened ino t =
    if ino == 1
    then (let (dp, streams) = take_slot entries t.streams in
        (done dp, record t { streams = streams }))
    else (failed enotdir, t)

abbrev pub next_entry : ℕ → Tree → Option (List DirEntry) → Option DirEntry × Tree
next_entry dp t none = (none, t)
next_entry dp t (some []) = (none, t)
next_entry dp t (some (de ∷ rest)) =
    (some de, record t { streams = fill_slot dp (some rest) t.streams })

abbrev pub registered : Tree → Bool
registered t = t.started && t.turns == 0

abbrev pub tree_posix : Posix Tree
tree_posix = record {
  stat = on_path (λ ino t. (done (attributes ino), t));
  fstat = on_file (λ ino pos t. (done (attributes ino), t));
  open_rdonly = on_path opened;
  close = λ fd t. record t { files = fill_slot fd none t.files };
  read = λ fd n.
      on_file (λ ino pos t. (bytes_at ino n pos, advance (bytes_at ino n pos) fd ino pos t)) fd;
  pread = λ fd n off. on_file (λ ino pos t. (bytes_at ino n off, t)) fd;
  lseek = λ fd shift whence.
      on_file
        (λ ino pos t. (target ino pos shift whence, move_to (target ino pos shift whence) fd ino t))
        fd;
  opendir = on_path stream_opened;
  readdir = λ dp t. next_entry dp t (slot dp t.streams);
  closedir = λ dp t. record t { streams = fill_slot dp none t.streams };
  access = λ path mode. on_path (λ ino t. (done tt, t)) path;
  thread_create = λ argv t. (true, t);
  thread_add = λ t. record t { started = true };
  session_registered = λ t. (registered t, t);
  yield = λ t. record t { turns = t.turns - 1 };
  mount = λ source path fstype t.
      if registered t then (done tt, record t { mounted = true }) else (failed einval, t);
}

-- The system when the tests start: three descriptors are the console's, two and a
-- stream are free, and the backend will have
-- registered its session when it has run `turns` times.
abbrev pub boot : ℕ → Tree
boot turns = record {
  files = some console ∷ some console ∷ some console ∷ none ∷ none ∷ [];
  streams = none ∷ [];
  mounted = false;
  started = false;
  turns = turns;
}
