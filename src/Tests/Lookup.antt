-- ===== src/Tests/Lookup.antt =====
-- Looking up a name in a directory of an ext2 volume at concrete inputs.
use saxon_os.Prelude.{
  ℕ, ◌≢◌, ap, ◌∙◌, List, zero, suc, [], ◌∷◌, ◌<◌, ◌≤◌, ◌+◌, ◌≡◌, refl, arith, inr, ◌==◌,
  if◌then◌else◌, none,
}
use saxon_os.Common.Strings.{strncmp_from, strncmp}
use saxon_os.Fs.Ext2.{addr_of_block, Sector, inode_table, read_inode}
use saxon_os.Fs.Ext2.Lookup.{de_inode, entry_size, name_length, ext2_lookup}
use saxon_os.Fs.Ext2.Lookup.Entries.{Entry, IsEntry, find_entry}
use saxon_os.Fs.Ext2.Lookup.Directory.{
  answer, LaidOut, listing, IsDirectory, ext2_lookup-find_entry,
}
use saxon_os.Fs.Ext2.Read.Fill.{inode_block}
use saxon_os.Tests.Ext2.{volume}

-- The bytes at the offsets of a list; the others are 0.
abbrev sparse : List (ℕ × ℕ) → Sector
sparse [] o = 0
sparse (b ∷ bs) o = if o == b.0 then b.1 else sparse bs o

-- Inode 2 is a directory with block 30: sector 60 holds the entries ".", "a" and "b", and sector 61
-- one that is not in use.
abbrev root_sector : Sector
root_sector = sparse (
    (0, 2)
    ∷ (4, 12)
    ∷ (6, 1)
    ∷ (8, 46)
    ∷ (12, 1)
    ∷ (16, 12)
    ∷ (18, 1)
    ∷ (20, 97)
    ∷ (24, 1)
    ∷ (28, 232)
    ∷ (29, 1)
    ∷ (30, 1)
    ∷ (32, 98)
    ∷ [])

abbrev tree : ℕ → Sector
tree n =
    if n == 4
    then sparse ((8, 5) ∷ [])
    else if n == 10
    then sparse ((1, 0x80) ∷ (129, 0x41) ∷ (133, 4) ∷ (168, 30) ∷ [])
    else if n == 60
    then root_sector
    else sparse ((5, 2) ∷ [])

abbrev root_bytes : ℕ → ℕ
root_bytes i = tree 10 (i + 128)

abbrev letter : (inode size c : ℕ) → Entry
letter inode size c = record { inode = inode; size = size; name_size = 1; name = λ j. c }

abbrev unused : Entry
unused = record { inode = 0; size = 512; name_size = 0; name = λ j. 0 }

abbrev tree_entries : ℕ → List Entry
tree_entries n =
    if n == 60 then letter 2 12 46 ∷ letter 1 12 97 ∷ letter 1 488 98 ∷ [] else unused ∷ []

letter-IsEntry :
    (de inode size c : ℕ)
    → de_inode root_sector de ≡ inode
    → entry_size root_sector de ≡ size
    → name_length root_sector de ≡ 1
    → root_sector (de + 8) ≡ c
    → 9 ≤ size
    → IsEntry root_sector de (letter inode size c)
letter-IsEntry de inode size c i z l n h = record {
  inode_is = i;
  size_is = z;
  length_is = l;
  name_is = λ j p. let same : de + 8 + j ≡ de + 8 = omega arith in ap root_sector same ∙ n;
  holds = omega arith;
}

root-LaidOut : LaidOut tree tree_entries 2 60
root-LaidOut = (
  (
    letter-IsEntry 0 2 12 46 refl refl refl refl (omega arith),
    omega arith,
    (
      letter-IsEntry 12 1 12 97 refl refl refl refl (omega arith),
      omega arith,
      (letter-IsEntry 24 1 488 98 refl refl refl refl (omega arith), omega arith, omega arith),
    ),
  ),
  (
    (
      record {
        inode_is = refl;
        size_is = refl;
        length_is = refl;
        name_is = λ j p. absurd (omega arith);
        holds = omega arith;
      },
      omega arith,
      omega arith,
    ),
    tt,
  ),
)

root-IsDirectory : IsDirectory tree tree_entries volume (inode_block root_bytes) 12 1 0
root-IsDirectory = record { few = omega arith; in_use = used; ends = inr refl; laid_out = laid }
  where
    used : (j : ℕ) → j < 1 → inode_block root_bytes (0 + j) ≢ 0
    used zero q e = omega arith
    used (suc j) q e = omega arith

    laid :
        (j : ℕ)
        → j < 1
        → LaidOut tree tree_entries 2 (addr_of_block volume (inode_block root_bytes (0 + j)))
    laid zero q = root-LaidOut
    laid (suc j) q = absurd (omega arith)

ext2_lookup-find_entry_example :
    ext2_lookup tree 64 volume 2 (λ j. 97) 1
    ≡ answer tree volume
        (find_entry (λ j. 97) 1 (listing tree tree_entries volume (inode_block root_bytes) 1 0))
unfolding read_inode inode_table
ext2_lookup-find_entry_example =
    ext2_lookup-find_entry tree tree_entries 64 (omega arith) volume (λ j. 97) 1 1024 (omega arith)
      2 root_bytes refl (omega arith) (λ e. omega arith) refl 1 root-IsDirectory (omega arith)

-- The last entry of a sector is not found.
lookup_last :
    find_entry (λ j. 98) 1 (listing tree tree_entries volume (inode_block root_bytes) 1 0) ≡ none
unfolding strncmp strncmp_from
lookup_last = refl
