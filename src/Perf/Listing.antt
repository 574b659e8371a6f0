-- ===== src/Perf/Listing.antt =====
-- apps/fuse-perf-test/linux_hello_ll.c: hello_ll_readdir, whose offsets are positions in a table.
use ukfs_fuse.Common.{
  ℕ, suc, ◌+◌, ◌%◌, ◌^◌, ◌≤◌, ◌<◌, ◌==◌, ◌≡◌, ◌∙◌, arith, false, ltb, leb, List, [], ◌∷◌, ◌++◌,
  length, drop, some, if◌then◌else◌, Exec, ok, fault, pos,
}
use ukfs_fuse.Errno.{enotdir}
use ukfs_fuse.Libfuse.{Call, FileInfo}
use ukfs_fuse.Hello.{hello_name, direntry, entlen_padded}
use ukfs_fuse.Perf.{bigfile_name}
use ukfs_fuse.Perf.Linux.{Replies}
use ukfs_fuse.Driver.{World}
use ukfs_fuse.Driver.Dir.{decode_reply}
use ukfs_fuse.System.Entry.{decode_reply-direntry}

-- A row of `entries`; `kind` is what `fuse_add_direntry` keeps of the mode, 4 for S_IFDIR and 8 for
-- S_IFREG.
pub record LinuxEntry : Type 0 where
  pub name : List ℕ
  pub ino : ℕ
  pub kind : ℕ

abbrev pub linux_entries : List LinuxEntry
linux_entries =
    record { name = b'.' ∷ []; ino = 1; kind = 4 }
    ∷ record { name = b'.' ∷ b'.' ∷ []; ino = 1; kind = 4 }
    ∷ record { name = hello_name; ino = 2; kind = 8 }
    ∷ record { name = bigfile_name; ino = 3; kind = 8 }
    ∷ []

-- The loop from entry `i` on: the bytes that are written behind `position` and kept. The four
-- entries take 128 bytes of the 4096.
unfoldable pub add_entries : ℕ → ℕ → ℕ → List LinuxEntry → List ℕ
add_entries size i position [] = []
add_entries size i position (e ∷ es) =
    let entsize = entlen_padded e.name in
    let rest = add_entries size (suc i) (position + entsize) es in
    if ltb size (position + entsize) then [] else direntry e.name e.ino e.kind (i + 1) ++ rest

-- `(int)off` is the low 32 bits of the offset, with a sign.
abbrev pub int_of : ℕ → ℕ
int_of off = off % 2 ^ 32

unfoldable pub linux_dirents : ℕ → ℕ → List ℕ
linux_dirents size i = add_entries size i 0 (drop i linux_entries)

-- In front of the table is a fault.
unfoldable pub linux_ll_readdir : Replies → Call → ℕ → ℕ → ℕ → FileInfo → Exec Call
linux_ll_readdir r c ino size off fi =
    if ino == 1
    then (if leb (2 ^ 31) (int_of off)
        then fault
        else r.reply_buf c (some (linux_dirents size (int_of off)))
            (length (linux_dirents size (int_of off))))
    else r.reply_err c enotdir

-- The entry at a position of the table.
pub data LinuxEntryAt : ℕ → LinuxEntry → Type 0 where
  at_dot : LinuxEntryAt 0 (record { name = b'.' ∷ []; ino = 1; kind = 4 })
  at_dot_dot : LinuxEntryAt 1 (record { name = b'.' ∷ b'.' ∷ []; ino = 1; kind = 4 })
  at_hello : LinuxEntryAt 2 (record { name = hello_name; ino = 2; kind = 8 })
  at_bigfile : LinuxEntryAt 3 (record { name = bigfile_name; ino = 3; kind = 8 })

add_entries-first :
    (size i : ℕ) (e : LinuxEntry) (es : List LinuxEntry)
    → entlen_padded e.name ≤ size
    → add_entries size i 0 (e ∷ es)
      ≡ direntry e.name e.ino e.kind (i + 1)
        ++ add_entries size (suc i) (0 + entlen_padded e.name) es
unfolding add_entries
add_entries-first size i e es h =
    let room : ltb size (0 + entlen_padded e.name) ≡ false = ground (arith, h) in rw room

-- A reply begins with the entry at its offset, whose own offset is the next position.
starts_with_entry :
    (size i : ℕ) (e : LinuxEntry)
    → LinuxEntryAt i e
    → 32 ≤ size
    → (rest : List ℕ) × (linux_dirents size i ≡ direntry e.name e.ino e.kind (i + 1) ++ rest)
unfolding linux_dirents
starts_with_entry size i e at_dot h = (_, add_entries-first size 0 e _ h)
starts_with_entry size i e at_dot_dot h = (_, add_entries-first size 1 e _ h)
starts_with_entry size i e at_hello h = (_, add_entries-first size 2 e _ h)
starts_with_entry size i e at_bigfile h = (_, add_entries-first size 3 e _ h)

sizes :
    {i : ℕ} {e : LinuxEntry}
    → LinuxEntryAt i e
    → (e.ino < 2 ^ 64)
      × (e.kind < 2 ^ 32)
      × (i + 1 < 2 ^ 64)
      × (length e.name < 2 ^ 32)
      × (e.kind % 2 ^ 8 ≡ e.kind)
sizes at_dot = omega arith
sizes at_dot_dot = omega arith
sizes at_hello = omega arith
sizes at_bigfile = omega arith

module _ {S : Type 0} (reclen : ℕ → ℕ) (len : ℕ) (w : World S) where
  -- For a size of at least 32, the bytes with which hello_ll_readdir of the Linux baseline answers
  -- at the position of an entry of its table are decoded by fusefs_listdir, where the caller's
  -- buffer holds the entry, as that entry with its name, inode and type, and the cursor moves to
  -- the next position.
  pub linux_dirents-decode :
      (size i : ℕ) (e : LinuxEntry)
      → LinuxEntryAt i e
      → 32 ≤ size
      → reclen (length e.name) ≤ len
      → decode_reply reclen i len w (linux_dirents size i)
        ≡ ok (record {
          ret = pos (reclen (length e.name));
          cursor = i + 1;
          out = some (record {
            d_ino = e.ino;
            d_off = i + 1;
            d_reclen = reclen (length e.name) % 2 ^ 16;
            d_type = e.kind;
            d_name = e.name;
          });
          world = w;
        })
  linux_dirents-decode size i e at h room =
      let (rest, starts) = starts_with_entry size i e at h in
      let (ino_fits, kind_fits, off_fits, name_fits, kind_low) = sizes at in
      rw starts (
        decode_reply-direntry e.name e.ino e.kind (i + 1) rest reclen i len w ino_fits kind_fits
          off_fits name_fits room
        ∙ rw kind_low)
