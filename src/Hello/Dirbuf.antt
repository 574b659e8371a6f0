-- ===== src/Hello/Dirbuf.antt =====
-- apps/fuse-correctness-test/hello_ll.c, the growing directory buffer, and `fuse_add_direntry` of
-- libs/libfuse/lib/fuse_lowlevel.c that fills it.
use ukfs_fuse.Common.{
  ℕ, ◌+◌, ◌-◌, ◌*◌, ◌/◌, Bool, true, false, Option, none, some, List, ◌++◌, length, replicate, le,
  ltb, if◌then◌else◌, Exec, ok, fault, Mem, malloc,
}

-- FUSE_NAME_OFFSET and FUSE_DIRENT_ALIGN
abbrev pub fuse_name_offset : ℕ
fuse_name_offset = 24

abbrev pub fuse_dirent_align : ℕ → ℕ
fuse_dirent_align x = (x + 7) / 8 * 8

abbrev pub entlen_padded : List ℕ → ℕ
entlen_padded name = fuse_dirent_align (fuse_name_offset + length name)

-- The bytes that `fuse_add_direntry` writes where they fit: `struct fuse_dirent`, the name, zeros.
unfoldable pub direntry : List ℕ → ℕ → ℕ → ℕ → List ℕ
direntry name ino type off =
    le 8 ino
    ++ (le 8 off
        ++ (le 4 (length name)
            ++ (le 4 type
                ++ (name ++ replicate (entlen_padded name - (fuse_name_offset + length name)) 0))))

-- `struct dirbuf`; `none` is NULL.
pub record DirBuf : Type 0 where
  pub p : Option (List ℕ)
  pub size : ℕ

-- `realloc(p, size)`: whether it succeeds, and the heap. A refused growth leaves the old block
-- allocated, and `b->p` no longer points to it.
unfoldable pub realloc : Option (List ℕ) → Mem → Bool × Mem
unfolding malloc
realloc none m = malloc m
realloc (some old) m = let (given, m') = malloc m in (given, record m' { live = m.live })

-- The entry behind the old ones, with the new size as its offset and `st_mode` 0. Without a block
-- the first entry is dropped, and a later one goes through a wild pointer or behind unset bytes.
unfoldable pub place_entry : DirBuf → List ℕ → ℕ → ℕ → Bool × Mem → Exec (DirBuf × Mem)
unfolding direntry
place_entry b name ino size (true, m) = elim b.p [
  | some old ↦ ok (record { p = some (old ++ direntry name ino 0 size); size = size }, m)
  | none ↦
      if ltb 0 b.size
      then fault
      else ok (record { p = some (direntry name ino 0 size); size = size }, m)
]
place_entry b name ino size (false, m) =
    if ltb 0 b.size then fault else ok (record { p = none; size = size }, m)

unfoldable pub dirbuf_add : DirBuf → List ℕ → ℕ → Mem → Exec (DirBuf × Mem)
unfolding realloc place_entry
dirbuf_add b name ino m = place_entry b name ino (b.size + entlen_padded name) (realloc b.p m)
