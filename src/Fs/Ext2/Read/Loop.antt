-- ===== src/Fs/Ext2/Read/Loop.antt =====
-- The loops of `ext2_read` against a list of sectors.
use mathlib.Core.List.{append_assoc, append-nil}
use saxon_os.Prelude.{
  ℕ, zero, suc, ◌+◌, ◌-◌, ◌/◌, ◌^◌, ◌<◌, ◌≤◌, ◌≡◌, ◌≢◌, refl, ap, sym, ◌∙◌, arith, ◌==◌, u32,
  if◌then◌else◌, List, [], ◌++◌,
}
use saxon_os.Fs.Devfs.{chars_of, copied}
use saxon_os.Fs.Ext2.{Ext2, Sector, sector_size, addr_of_block}
use saxon_os.Fs.Ext2.Read.{Reading, read_sector}

-- The sectors that `count` bytes take.
abbrev pub sectors_of : ℕ → ℕ
sectors_of count = (count + 511) / sector_size

abbrev pub sectors_per_block : Ext2 → ℕ
sectors_per_block g = g.block_size / sector_size

module _ (sector : ℕ → Sector) (g : Ext2) (block : ℕ → ℕ) where
  -- The bytes of the next `n` sectors, each of a block of its own: the first is sector `k` of block
  -- `i`, the one after it sector `k + 1` of block `i + 1`, and so on, with 0 behind the last sector
  -- of a block.
  unfoldable pub listed : (n k i offset count : ℕ) → List ℕ
  listed zero k i offset count = []
  listed (suc n) k i offset count =
      copied (sector (u32 (addr_of_block g (block i) + k))) offset (chars_of count)
      ++ listed n (if k + 1 == sectors_per_block g then 0 else k + 1) (i + 1) 0
          (count - chars_of count)

  -- The offset is used up by the first sector.
  abbrev cleared : (n offset : ℕ) → ℕ
  cleared zero offset = offset
  cleared (suc n) offset = 0

  -- What the loops leave when nothing is left to read.
  abbrev pub after : (n k : ℕ) → Reading → Reading
  after n k s = record {
    i = s.i + n;
    offset = cleared n s.offset;
    count = 0;
    off = s.off + s.count;
    read = s.read + s.count;
    stored = s.stored ++ listed n k s.i s.offset s.count;
  }

  -- `n` sectors are left to read, all of direct blocks that are in use.
  pub record Readable (n : ℕ) (s : Reading) : Type 0 where
    pub whole : n ≡ sectors_of s.count
    pub direct : s.i + n ≤ 12
    pub inside : s.offset + chars_of s.count ≤ sector_size
    pub in_use : (j : ℕ) → j < n → block (s.i + j) ≢ 0
    pub off_fits : s.off + s.count < 2 ^ 32
    pub read_fits : s.read + s.count < 2 ^ 32

  pub Readable-step :
      (n k : ℕ) → (s : Reading) → Readable (suc n) s → Readable n (read_sector sector g block k s)
  Readable-step n k s r =
      let w = r.whole in
      let d = r.direct in
      let o = r.off_fits in
      let f = r.read_fits in
      record {
        whole = ground arith;
        direct = omega arith;
        inside = ground arith;
        in_use = λ j q. λ e. r.in_use (suc j) (omega arith) (ap block (omega arith) ∙ e);
        off_fits = ground arith;
        read_fits = ground arith;
      }

  pub Readable-some : (n : ℕ) → (s : Reading) → Readable (suc n) s → 0 < s.count
  Readable-some n s r = let w = r.whole in omega arith

  pub Readable-none : (s : Reading) → Readable 0 s → s.count ≡ 0
  Readable-none s r = let w = r.whole in omega arith

  pub after-zero : (k : ℕ) → (s : Reading) → s.count ≡ 0 → after 0 k s ≡ s
  unfolding listed
  after-zero k s e = λ t. record {
    i = i_same t;
    offset = s.offset;
    count = sym e t;
    off = off_same t;
    read = read_same t;
    stored = append-nil s.stored t;
  }
    where
      i_same : s.i + 0 ≡ s.i
      i_same = omega arith

      off_same : s.off + s.count ≡ s.off
      off_same = omega arith

      read_same : s.read + s.count ≡ s.read
      read_same = omega arith

  pub after-step :
      (n k : ℕ)
      → (s : Reading) → Readable (suc n) s
      → after n (if k + 1 == sectors_per_block g then 0 else k + 1) (read_sector sector g block k s)
        ≡ after (suc n) k s
  unfolding listed
  after-step n k s r = λ t. record {
    i = i_same t;
    offset = offset_same n t;
    count = 0;
    off = off_same t;
    read = read_same t;
    stored =
        append_assoc s.stored
          (copied (sector (u32 (addr_of_block g (block s.i) + k))) s.offset (chars_of s.count))
          (listed n (if k + 1 == sectors_per_block g then 0 else k + 1) (s.i + 1) 0
            (s.count - chars_of s.count))
          t;
  }
    where
      i_same : s.i + 1 + n ≡ s.i + suc n
      i_same = omega arith

      offset_same : (n : ℕ) → cleared n 0 ≡ 0
      offset_same zero = refl
      offset_same (suc n) = refl

      off_same : u32 (s.off + chars_of s.count) + (s.count - chars_of s.count) ≡ s.off + s.count
      off_same = let f = r.off_fits in ground arith

      read_same : u32 (s.read + chars_of s.count) + (s.count - chars_of s.count) ≡ s.read + s.count
      read_same = let f = r.read_fits in ground arith
