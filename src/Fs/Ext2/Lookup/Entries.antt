-- ===== src/Fs/Ext2/Lookup/Entries.antt =====
-- The loop of `ext2_lookup` over a sector against the list of the entries in it.
use saxon_os.Prelude.{
  ◌*◌, ℕ, zero, suc, ◌+◌, ◌^◌, ◌<◌, ◌≤◌, ◌≡◌, refl, ap, ◌∙◌, arith, ltb, leb, ◌==◌, ◌&&◌, not, u32,
  if◌then◌else◌, true, false, Bool, Bool-cases, inl, inr, Option, none, some, List, [], ◌∷◌, ok,
  length,
}
use saxon_os.Common.Strings.{Bytes, strncmp, strncmp-agree}
use saxon_os.Fs.Ext2.{Sector, sector_size}
use saxon_os.Fs.Ext2.Lookup.{entry_size, de_name, Scan, at_end, found_at, scan_entries}

-- An entry of a directory. `name` begins with `name_size` bytes.
pub record Entry : Type 0 where
  pub inode : ℕ
  pub size : ℕ
  pub name_size : ℕ
  pub name : Bytes

-- The entry stands at an offset: its inode in 4 bytes, its size in 2, the length of its name in
-- one, and after one more the name.
pub record IsEntry (s : Sector) (de : ℕ) (e : Entry) : Type 0 where
  pub inode_is : s de + s (de + 1) * 2 ^ 8 + s (de + 2) * 2 ^ 16 + s (de + 3) * 2 ^ 24 ≡ e.inode
  pub size_is : s (de + 4) + s (de + 5) * 2 ^ 8 ≡ e.size
  pub length_is : s (de + 6) ≡ e.name_size
  pub name_is : (j : ℕ) → j < e.name_size → s (de + 8 + j) ≡ e.name j
  pub holds : 8 + e.name_size ≤ e.size

-- The entries fill the sector from an offset on; the last may reach into the next sector.
abbrev pub Layout : Sector → (de : ℕ) → List Entry → Type 0
Layout s de [] = ⊥
Layout s de (e ∷ []) = IsEntry s de e × (de + 8 ≤ sector_size) × (sector_size ≤ de + e.size)
Layout s de (e ∷ (f ∷ es)) =
    IsEntry s de e × (de + e.size < sector_size) × Layout s (de + e.size) (f ∷ es)

-- The entry is in use and has the name.
abbrev pub named : Bytes → (len : ℕ) → Entry → Bool
named filename len e =
    not (e.inode == 0) && ((e.name_size == len) && (strncmp filename e.name len == 0))

-- The first entry of a list that is in use and has the name.
abbrev pub find_entry : Bytes → (len : ℕ) → List Entry → Option ℕ
find_entry filename len [] = none
find_entry filename len (e ∷ es) =
    if named filename len e then some e.inode else find_entry filename len es

-- The entries but the last.
abbrev pub but_last : List Entry → List Entry
but_last [] = []
but_last (e ∷ []) = []
but_last (e ∷ (f ∷ es)) = e ∷ but_last (f ∷ es)

abbrev pub sizes : List Entry → ℕ
sizes [] = 0
sizes (e ∷ es) = e.size + sizes es

-- What the loop over a sector ends in, if it finds an inode, and if it finds none.
abbrev pub scanned : (size : ℕ) → Option ℕ → Scan
scanned size (some inode) = found_at inode
scanned size none = at_end size

module _ (s : Sector) (filename : Bytes) (len size_low : ℕ) (small : size_low < 2 ^ 32) where
  -- The last entry is not looked at.
  last_entry :
      (rounds de size : ℕ)
      → de + 8 ≤ sector_size
      → sector_size ≤ de + entry_size s de
      → scan_entries (suc rounds) s filename len size_low de size ≡ ok (at_end size)
  unfolding scan_entries
  last_entry rounds de size low high =
      let inside : ltb sector_size (de + 6) ≡ false = ground arith in
      let last : leb sector_size (de + entry_size s de) ≡ true = ground arith in
      rw (inside, last) refl

  -- Another entry is found, or the loop goes on behind it.
  entry_round :
      (rounds de size : ℕ)
      → (e : Entry) → IsEntry s de e
      → de + e.size < sector_size
      → size + e.size ≤ size_low
      → scan_entries (suc rounds) s filename len size_low de size ≡ (
          if named filename len e
          then ok (found_at e.inode)
          else scan_entries rounds s filename len size_low (de + e.size) (size + e.size))
  unfolding scan_entries
  entry_round rounds de size e i within enough =
      let l = i.holds in
      let z = i.size_is in
      let inside : ltb sector_size (de + 6) ≡ false = ground arith in
      let more : leb sector_size (de + e.size) ≡ false = ground arith in
      let inside' : ltb sector_size (de + 7) ≡ false = ground arith in
      let goes : ltb size_low (u32 (size + e.size)) ≡ false = ground arith in
      let exact : u32 (size + e.size) ≡ size + e.size = omega arith in
      rw (z, i.inode_is, i.length_is, inside, more, inside', goes, exact)
        (elim (Bool-cases (e.inode == 0)) [
          | inl unused ↦ rw unused refl
          | inr used ↦ elim (Bool-cases (e.name_size == len)) [
            | inl same ↦
                let n : e.name_size ≡ len = ground arith in
                let buffer : ltb sector_size (de + 8 + len) ≡ false = ground arith in
                let name : strncmp filename (de_name s de) len ≡ strncmp filename e.name len =
                  strncmp-agree filename (de_name s de) e.name len
                    (λ j p. i.name_is j (omega arith)) in
                rw (used, same, buffer, name) refl
            | inr other ↦ rw (used, other) refl
          ]
        ])

  -- A sector whose entries fill it is searched for the first entry in use that has the name, among
  -- all but the last; `size` grows by the sizes of the entries that are passed.
  pub scan_entries-scanned :
      (rounds : ℕ)
      → (es : List Entry) → (de size : ℕ) → Layout s de es
      → length es ≤ rounds
      → size + sizes (but_last es) ≤ size_low
      → scan_entries rounds s filename len size_low de size
        ≡ ok (scanned (size + sizes (but_last es)) (find_entry filename len (but_last es)))
  scan_entries-scanned rounds [] de size l enough low = absurd l
  scan_entries-scanned zero (e ∷ es) de size l enough low = absurd (omega arith)
  scan_entries-scanned (suc rounds) (e ∷ []) de size l enough low =
      let z = l.0.size_is in
      let inside = l.1 in
      let last = l.2 in
      last_entry rounds de size l.1 (omega arith) ∙ ap (λ n. ok (at_end n)) (omega arith)
  scan_entries-scanned (suc rounds) (e ∷ (f ∷ es)) de size l enough low =
      let rest =
        scan_entries-scanned rounds (f ∷ es) (de + e.size) (size + e.size) l.2 (omega arith)
          (omega arith) in
      let total : size + e.size + sizes (but_last (f ∷ es))
          ≡ size + (e.size + sizes (but_last (f ∷ es))) =
        omega arith in
      entry_round rounds de size e l.0 l.1 (omega arith)
      ∙ elim (Bool-cases (named filename len e)) [
        | inl hit ↦ rw hit refl
        | inr miss ↦
            rw miss
              (rest ∙ ap (λ n. ok (scanned n (find_entry filename len (but_last (f ∷ es))))) total)
      ]
