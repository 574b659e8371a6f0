-- ===== src/Clients/Tree/Ends.antt =====
-- The directory streams of the reference system come to an end.
use ukfs_fuse.Common.{
  ℕ, zero, suc, ◌<◌, ◌≡◌, refl, arith, Option, none, some, Option-cases, inl, inr, List, [], ◌∷◌,
  length,
}
use ukfs_fuse.Clients.{done, DirEntry}
use ukfs_fuse.Clients.Counted.{HasEnds}
use ukfs_fuse.Clients.Tree.{
  Tree, tree_posix, slot, fill_slot, take_slot, resolve, entries, stream_opened, next_entry,
}

module _ {ℓ} {A : Type ℓ} where
  slot-take_slot :
      (a : A) (xs : List (Option A)) → slot (take_slot a xs).0 (take_slot a xs).1 ≡ some a
  slot-take_slot a [] = refl
  slot-take_slot a (none ∷ xs) = refl
  slot-take_slot a (some x ∷ xs) = slot-take_slot a xs

  slot-fill_slot :
      (n : ℕ) (a y : A) (xs : List (Option A))
      → slot n xs ≡ some a
      → slot n (fill_slot n (some y) xs) ≡ some y
  slot-fill_slot n a y [] h = cc
  slot-fill_slot zero a y (x ∷ xs) h = refl
  slot-fill_slot (suc n) a y (x ∷ xs) h = slot-fill_slot n a y xs h

abbrev remaining : Option (List DirEntry) → ℕ
remaining none = 0
remaining (some es) = length es

opened_ends :
    (ino : ℕ) (t : Tree) (dp : ℕ)
    → (stream_opened ino t).0 ≡ done dp
    → remaining (slot dp (stream_opened ino t).1.streams) < 4
opened_ends ino t dp h = ground (arith, slot-take_slot entries t.streams)

entry_read :
    (dp : ℕ) (t : Tree) (es : Option (List DirEntry)) (de : DirEntry)
    → slot dp t.streams ≡ es
    → (next_entry dp t es).0 ≡ some de
    → remaining (slot dp (next_entry dp t es).1.streams) < remaining es
entry_read dp t none de e h = cc
entry_read dp t (some []) de e h = cc
entry_read dp t (some (x ∷ xs)) de e h =
    rw (slot-fill_slot dp (x ∷ xs) xs t.streams e) (omega arith)

pub tree_posix-HasEnds : HasEnds tree_posix 4
tree_posix-HasEnds = record {
  left = λ t dp. remaining (slot dp t.streams);
  left-opendir = λ path t dp h. elim (Option-cases (resolve t path)) [
    | inl e ↦ ground (arith, h, e)
    | inr (ino, e) ↦ ground (arith, h, e, opened_ends ino t dp)
  ];
  left-readdir = λ t dp de h. entry_read dp t (slot dp t.streams) de refl h;
  left-stat = λ path t dp. ground arith;
}
