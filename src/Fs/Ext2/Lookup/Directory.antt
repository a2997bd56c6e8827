-- ===== src/Fs/Ext2/Lookup/Directory.antt =====
-- `ext2_lookup` against the list of a directory's entries.
use saxon_os.Prelude.{
  ℕ, zero, suc, ◌+◌, ◌*◌, ◌/◌, ◌^◌, ◌<◌, ◌≤◌, ◌≡◌, ◌≢◌, refl, ap, subst, sym, ◌∙◌, arith, ◌==◌,
  ◌||◌, u32, true, false, Bool-cases, inl, inr, ◌⊎◌, Option, none, some, List, [], ◌∷◌, ◌++◌,
  Outcome, ok, ◌>>=◌, length,
}
use saxon_os.Common.Strings.{Bytes}
use saxon_os.Fs.Ext2.{Ext2, Sector, sector_size, addr_of_block, le32, read_inode}
use saxon_os.Fs.Ext2.Read.Fill.{inode_block}
use saxon_os.Fs.Ext2.Lookup.{
  Scan, Found, at_end, not_found, found_at, scan_on, scan_sectors, scan_blocks, fill_result,
  ext2_lookup,
}
use saxon_os.Fs.Ext2.Lookup.Entries.{
  Entry, Layout, named, find_entry, but_last, sizes, scanned, scan_entries-scanned,
}

-- A sector has room for 64 entries.
Layout-length :
    (s : Sector) (de : ℕ) (es : List Entry) → Layout s de es → de + 8 * length es ≤ sector_size
Layout-length s de [] l = absurd l
Layout-length s de (e ∷ []) l = let inside = l.1 in omega arith
Layout-length s de (e ∷ (f ∷ es)) l =
    let holds = l.0.holds in omega (arith, Layout-length s (de + e.size) (f ∷ es) l.2)

-- The first of two results.
abbrev first_of : Option ℕ → Option ℕ → Option ℕ
first_of (some n) o = some n
first_of none o = o

find_entry-append :
    (filename : Bytes) (len : ℕ) (xs ys : List Entry)
    → find_entry filename len (xs ++ ys)
      ≡ first_of (find_entry filename len xs) (find_entry filename len ys)
find_entry-append filename len [] ys = refl
find_entry-append filename len (x ∷ xs) ys = elim (Bool-cases (named filename len x)) [
  | inl hit ↦ rw hit refl
  | inr miss ↦ rw miss (find_entry-append filename len xs ys)
]

sizes-append : (xs ys : List Entry) → sizes (xs ++ ys) ≡ sizes xs + sizes ys
sizes-append [] ys = omega arith
sizes-append (x ∷ xs) ys = omega (arith, sizes-append xs ys)

-- What is searched after a list of entries.
module _ (filename : Bytes) (len : ℕ) where
  abbrev searched : (size : ℕ) → List Entry → Scan
  searched size es = scanned (size + sizes es) (find_entry filename len es)

  -- `conclude` is what the search ends in.
  scan_on-searched :
      (o : Outcome Scan) (rest : ℕ → Outcome Scan) (size : ℕ) (xs ys : List Entry)
      → (conclude : Option ℕ → Scan) → ((n : ℕ) → conclude (some n) ≡ found_at n)
      → o ≡ ok (searched size xs)
      → rest (size + sizes xs) ≡ ok (conclude (find_entry filename len ys))
      → (o >>= scan_on rest) ≡ ok (conclude (find_entry filename len (xs ++ ys)))
  scan_on-searched o rest size xs ys conclude hit e f =
      ap (λ o. o >>= scan_on rest) e
      ∙ (go (find_entry filename len xs)
          ∙ ap (λ p. ok (conclude p)) (sym (find_entry-append filename len xs ys)))
    where
      go :
          (p : Option ℕ)
          → scan_on rest (scanned (size + sizes xs) p)
            ≡ ok (conclude (first_of p (find_entry filename len ys)))
      go none = f
      go (some n) = ap ok (sym (hit n))

-- What the search of a directory ends in.
abbrev pub concluded : Option ℕ → Scan
concluded none = not_found
concluded (some n) = found_at n

-- What the caller is to get for an entry's inode: its number, and the size and the permissions that
-- lie in it at the bytes 4 to 7 and 0 to 1. If there is no entry, the result is -1.
abbrev pub answer : (sector : ℕ → Sector) → Ext2 → Option ℕ → Outcome (Option Found)
answer sector g none = ok none
answer sector g (some n) = read_inode sector g n >>= λ bytes. ok (
    some (record {
      i_no = n;
      size = bytes 4 + bytes 5 * 2 ^ 8 + bytes 6 * 2 ^ 16 + bytes 7 * 2 ^ 24;
      permissions = bytes 0 + bytes 1 * 2 ^ 8;
    }))

fill_result-answer :
    (sector : ℕ → Sector) (g : Ext2) (o : Option ℕ)
    → fill_result sector g (concluded o) ≡ answer sector g o
unfolding fill_result
fill_result-answer sector g none = refl
fill_result-answer sector g (some n) = refl

module _ (sector : ℕ → Sector) (entries : ℕ → List Entry) where
  -- `left` sectors from sector `n` on are filled by entries.
  abbrev pub LaidOut : (left n : ℕ) → Type 0
  LaidOut zero n = Unit
  LaidOut (suc left) n = Layout (sector n) 0 (entries n) × LaidOut left (u32 (n + 1))

  -- Their entries, but for the last of each sector.
  abbrev pub block_listing : (left n : ℕ) → List Entry
  block_listing zero n = []
  block_listing (suc left) n = but_last (entries n) ++ block_listing left (u32 (n + 1))

  module _ (g : Ext2) (block : ℕ → ℕ) where
    -- The entries of `b` blocks from block `i` on.
    abbrev pub listing : (b i : ℕ) → List Entry
    listing zero i = []
    listing (suc b) i =
        block_listing (g.block_size / sector_size) (addr_of_block g (block i)) ++ listing b (i + 1)

    -- `b` direct blocks from block `i` on are in use and filled by entries, and behind them the
    -- search of `left` blocks is at its end.
    pub record IsDirectory (left b i : ℕ) : Type 0 where
      pub few : b ≤ left
      pub in_use : (j : ℕ) → j < b → block (i + j) ≢ 0
      pub ends : (b ≡ left) ⊎ (block (i + b) ≡ 0)
      pub laid_out :
          (j : ℕ) → j < b → LaidOut (g.block_size / sector_size) (addr_of_block g (block (i + j)))

    IsDirectory-suc : (left b i : ℕ) → IsDirectory (suc left) (suc b) i → IsDirectory left b (i + 1)
    IsDirectory-suc left b i d = record {
      few = let f = d.few in omega arith;
      in_use = λ j q e. d.in_use (suc j) (omega arith) (ap block (omega arith) ∙ e);
      ends = elim (d.ends) [
        | inl all ↦ inl (omega arith)
        | inr unused ↦ inr (ap block (omega arith) ∙ unused)
      ];
      laid_out = λ j q.
          subst (λ n. LaidOut (g.block_size / sector_size) (addr_of_block g (block n)))
            (omega arith) (d.laid_out (suc j) (omega arith));
    }

  module _ (rounds : ℕ) (enough : 64 ≤ rounds) (g : Ext2) (filename : Bytes) (len size_low : ℕ)
      (small : size_low < 2 ^ 32) where
    scan_sectors-searched :
        (left n size : ℕ)
        → LaidOut left n
        → size + sizes (block_listing left n) ≤ size_low
        → scan_sectors sector rounds g filename len size_low left n size
          ≡ ok (searched filename len size (block_listing left n))
    unfolding scan_sectors
    scan_sectors-searched zero n size l low = ap (λ z. ok (at_end z)) (omega arith)
    scan_sectors-searched (suc left) n size l low =
        let total = sizes-append (but_last (entries n)) (block_listing left (u32 (n + 1))) in
        scan_on-searched filename len _
          (scan_sectors sector rounds g filename len size_low left (u32 (n + 1))) size
          (but_last (entries n)) (block_listing left (u32 (n + 1)))
          (scanned (size + sizes (block_listing (suc left) n))) (λ k. refl)
          (scan_entries-scanned (sector n) filename len size_low small rounds (entries n) 0 size
            (l.0) (omega (arith, Layout-length (sector n) 0 (entries n) (l.0))) (omega arith))
          (scan_sectors-searched left (u32 (n + 1)) (size + sizes (but_last (entries n))) (l.1)
              (omega arith)
            ∙ ap (λ z. ok (scanned z (find_entry filename len (block_listing left (u32 (n + 1))))))
                (omega arith))

    scan_blocks-listing :
        (block : ℕ → ℕ)
        → (left b i size : ℕ) → IsDirectory g block left b i
        → size + sizes (listing g block b i) ≤ size_low
        → scan_blocks sector rounds g filename len size_low block left i size
          ≡ ok (concluded (find_entry filename len (listing g block b i)))
    unfolding scan_blocks
    scan_blocks-listing block zero zero i size d low = refl
    scan_blocks-listing block zero (suc b) i size d low = let f = d.few in absurd (omega arith)
    scan_blocks-listing block (suc left) zero i size d low =
        let stop : (block i == 0) ≡ true = unused (d.ends) in rw stop refl
      where
        unused : (0 ≡ suc left) ⊎ (block (i + 0) ≡ 0) → (block i == 0) ≡ true
        unused (inl none_left) = absurd (omega arith)
        unused (inr e) = let f : block i ≡ block (i + 0) = ap block (omega arith) in ground arith
    scan_blocks-listing block (suc left) (suc b) i size d low =
        let first = addr_of_block g (block i) in
        let here = block_listing (g.block_size / sector_size) first in
        let total = sizes-append here (listing g block b (i + 1)) in
        let used : block i ≢ 0 = λ e. d.in_use 0 (omega arith) (ap block (omega arith) ∙ e) in
        let goes : (block i == 0) ≡ false = ground arith in
        rw goes (
          scan_on-searched filename len _ _ size here (listing g block b (i + 1)) concluded
            (λ n. refl)
            (scan_sectors-searched (g.block_size / sector_size) first size
              (subst (λ n. LaidOut (g.block_size / sector_size) (addr_of_block g (block n)))
                (omega arith) (d.laid_out 0 (omega arith)))
              (omega arith))
            (scan_blocks-listing block left b (i + 1) (size + sizes here)
              (IsDirectory-suc g block left b i d) (omega arith)))

    -- `ext2_lookup` of a name that is not empty, in a directory with any type or permission whose
    -- blocks are filled by entries, as far as its size says at least: it looks for the first entry
    -- in use that has the name, among all entries but the last of each sector. It returns that
    -- entry's inode number with the size and the permissions at their places in that inode; if
    -- there is no such entry, -1.
    pub ext2_lookup-find_entry :
        (dir : ℕ)
        → (bytes : ℕ → ℕ) → read_inode sector g dir ≡ ok bytes
        → len ≢ 0
        → bytes 0 + bytes 1 * 2 ^ 8 ≢ 0
        → le32 bytes 4 ≡ size_low
        → (b : ℕ) → IsDirectory g (inode_block bytes) 12 b 0
        → sizes (listing g (inode_block bytes) b 0) ≤ size_low
        → ext2_lookup sector rounds g dir filename len
          ≡ answer sector g (find_entry filename len (listing g (inode_block bytes) b 0))
    unfolding ext2_lookup
    ext2_lookup-find_entry dir bytes loaded some_name some_type is_size b d low =
        let goes : ((len == 0) || (bytes 0 + bytes 1 * 2 ^ 8 == 0)) ≡ false = ground arith in
        rw (loaded, goes, is_size)
          (ap (λ o. o >>= fill_result sector g)
              (scan_blocks-listing (inode_block bytes) 12 b 0 0 d (omega arith))
            ∙ fill_result-answer sector g _)
