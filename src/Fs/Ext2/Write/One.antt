-- ===== src/Fs/Ext2/Write/One.antt =====
-- `ext2_write` within one sector.
use saxon_os.Prelude.{
  ℕ, zero, suc, ◌+◌, ◌-◌, ◌*◌, ◌^◌, ◌&&◌, Bool, if◌then◌else◌, ◌/◌, ◌%◌, ◌<◌, ◌≤◌, ◌≡◌, ◌≢◌, refl,
  ap, sym, ◌∙◌, arith, ltb, leb, ◌==◌, ◌||◌, not, u32, bit_and, true, false, ok, ◌>>=◌,
}
use saxon_os.Common.Strings.{strcmp-zero}
use saxon_os.Common.Words.{write32}
use saxon_os.Mm.Heap.{Heap, kfree}
use saxon_os.Fs.Devfs.{Blocks, chars_of, store_chars}
use saxon_os.Fs.Ext2.{Ext2, sector_size, addr_of_block}
use saxon_os.Fs.Ext2.Read.{
  type_permissions, direct_block, type_reg_file, ext2_name, VfsInode, fill_inode,
}
use saxon_os.Fs.Ext2.Read.Fill.{inode_block, direct_block-fill_inode, type_permissions-fill_inode}
use saxon_os.Fs.Ext2.Read.Loop.{sectors_per_block}
use saxon_os.Fs.Ext2.Read.File.{Opened}
use saxon_os.Fs.Ext2.Write.{
  Writing, write_sector, write_sectors, write_direct, WriteResult, sector_of_inode, mark_dirty,
  exit, ext2_write,
}

-- The loops' variables at the start.
abbrev begun : (count off : ℕ) → Blocks → Writing
begun count off b = record {
  i = off / sector_size;
  offset = off % sector_size;
  count = count;
  off = off;
  wrote = 0;
  given = 0;
  blocks = b;
}

module _ (src : ℕ → ℕ) (g : Ext2) (block : ℕ → ℕ) where
  -- The only round over the sectors of a block.
  write_sectors-one :
      (left : ℕ)
      → (s : Writing) → s.count ≢ 0
      → s.i < 12
      → s.offset + s.count ≤ sector_size
      → write_sectors src g block (suc left) 0 s ≡ ok (write_sector src g block 0 s)
  unfolding write_sectors
  write_sectors-one left s some few fits =
      let more : (s.count == 0) ≡ false = ground arith in
      let inside : (leb 12 s.i || ltb sector_size (s.offset + chars_of s.count)) ≡ false =
        ground arith in
      rw (more, inside) (stop left)
    where
      stop :
          (left : ℕ)
          → write_sectors src g block left (0 + 1) (write_sector src g block 0 s)
            ≡ ok (write_sector src g block 0 s)
      stop zero = refl
      stop (suc left) =
          let done : (s.count - chars_of s.count == 0) ≡ true = ground arith in rw done refl

  write_direct-one :
      (rounds : ℕ)
      → (s : Writing) → 0 < sectors_per_block g
      → s.count ≢ 0
      → s.i + 1 < 12
      → s.offset + s.count ≤ sector_size
      → block s.i ≢ 0
      → block (s.i + 1) ≡ 0
      → write_direct src g block (suc (suc rounds)) s ≡ ok (write_sector src g block 0 s)
  unfolding write_direct
  write_direct-one rounds s some count few fits used last =
      let inside : leb 12 s.i ≡ false = ground arith in
      let goes : (block s.i == 0) ≡ false = ground arith in
      let inside' : leb 12 (s.i + 1) ≡ false = ground arith in
      let stops : (block (s.i + 1) == 0) ≡ true = ground arith in
      rw (inside, goes)
        (ap (λ o. o >>= write_direct src g block (suc rounds)) (first (sectors_per_block g) some)
          ∙ rw (inside', stops) refl)
    where
      first : (n : ℕ) → 0 < n → write_sectors src g block n 0 s ≡ ok (write_sector src g block 0 s)
      first zero none = absurd (omega arith)
      first (suc left) more = write_sectors-one left s count (omega arith) fits

-- The heap with the copy of the inode.
abbrev pub filled : (ptr : ℕ) → (bytes : ℕ → ℕ) → Heap → Heap
filled ptr bytes h = record h { mem = fill_inode ptr bytes h.mem }

-- A write of `count` bytes of `src` at the offset `off` of a file, within one sector of a block.
module _ (g : Ext2) (inode : ℕ) (bytes : ℕ → ℕ) (b : Blocks) (src : ℕ → ℕ) (count off : ℕ) where
  -- The sector of the file that holds the range, by the size of its blocks.
  abbrev pub range_sector : ℕ
  range_sector = g.block_size / 512 * inode_block bytes (off / 512) % 2 ^ 32

  -- Whether a byte of a sector lies in the range.
  abbrev pub in_range : (n o : ℕ) → Bool
  in_range n o = (n == range_sector) && (leb (off % 512) o && ltb o (off % 512 + count))

  -- What is left of it, with a copy of the inode at `ptr` of a heap.
  pub record WroteOne (ptr : ℕ) (h' : Heap) (w : WriteResult) : Type 0 where
    pub all : w.result ≡ count
    pub moved : w.off ≡ off + count
    pub freed :
        w.heap
        ≡ kfree ptr (record h' { mem = write32 (fill_inode ptr bytes h'.mem) (ptr + 4) count })
    pub bytes_stored :
        (n o : ℕ)
        → w.blocks.sector n o ≡ (if in_range n o then src (o - off % 512) else b.sector n o)
    pub marked :
        (n : ℕ)
        → w.blocks.dirty n ≡ (n == range_sector) || (n == sector_of_inode b g inode) || b.dirty n

module _ {rounds : ℕ} {g : Ext2} {inode : VfsInode} {count off : ℕ} (b : Blocks) {h h' : Heap}
    {ptr : ℕ} {bytes : ℕ → ℕ}
    (o : Opened b.sector (suc (suc rounds)) g inode count off h h' ptr bytes) (src : ℕ → ℕ) where
  ext2_write-opened : ext2_write (suc (suc rounds)) src g inode count off b h ≡ (
      write_direct src g
        (direct_block (filled ptr bytes h').mem ptr)
        (suc (suc rounds))
        (begun count off b)
      >>= λ s. ok (exit g inode.i_no ptr b (filled ptr bytes h') s))
  unfolding ext2_write
  ext2_write-opened =
      let e = o.before_end in
      let f = o.size_fits in
      let p = o.plain in
      let goes : (leb inode.size (u32 (off + count)) || not (bit_and inode.flags 1 == 0)) ≡ false =
        ground arith in
      let r = o.regular in
      let a_file : (bit_and (type_permissions (fill_inode ptr bytes h'.mem) ptr) type_reg_file == 0)
          ≡ false =
        ap (λ t. bit_and t type_reg_file == 0) (type_permissions-fill_inode h'.mem ptr bytes)
        ∙ ground arith in
      rw (strcmp-zero (suc rounds) inode.fs_name ext2_name, goes, o.allocated, o.loaded, a_file)
        refl

  module _ (block_size_pos : 0 < sectors_per_block g) (some : count ≢ 0)
      (few : off / sector_size + 1 < 12) (fits : off % sector_size + count ≤ sector_size)
      (used : inode_block bytes (off / sector_size) ≢ 0)
      (last : inode_block bytes (off / sector_size + 1) ≡ 0) where
    -- The sector of the file that holds the range.
    abbrev pub target : ℕ
    target = u32 (addr_of_block g (inode_block bytes (off / sector_size)) + 0)

    agree : (i : ℕ) → i < 12 → direct_block (filled ptr bytes h').mem ptr i ≡ inode_block bytes i
    agree i q = direct_block-fill_inode h'.mem ptr bytes i q

    -- The outcome by the operations that store and mark.
    pub ext2_write-stored :
        ext2_write (suc (suc rounds)) src g inode count off b h
        ≡ ok (record {
          result = count;
          off = off + count;
          heap =
              kfree ptr (record h' { mem = write32 (fill_inode ptr bytes h'.mem) (ptr + 4) count });
          blocks =
              mark_dirty
                (sector_of_inode b g inode.i_no)
                (store_chars src target (off % sector_size) count b);
        })
    ext2_write-stored =
        ext2_write-opened
        ∙ (ap (λ l. l >>= λ s. ok (exit g inode.i_no ptr b (filled ptr bytes h') s))
              (write_direct-one src g (direct_block (filled ptr bytes h').mem ptr) rounds
                (begun count off b) block_size_pos some few fits
                (λ e. used (sym (agree (off / sector_size) (omega arith)) ∙ e))
                (agree (off / sector_size + 1) few ∙ last))
            ∙ λ t. ok (record {
              result = all t;
              off = moved t;
              heap =
                  kfree ptr
                    (record h' { mem = write32 (fill_inode ptr bytes h'.mem) (ptr + 4) (all t) });
              blocks = mark_dirty (sector_of_inode b g inode.i_no) (
                  store_chars (λ j. src (zero_add j t))
                    (u32 (addr_of_block g (agree (off / sector_size) (omega arith) t) + 0))
                    (off % sector_size) (whole t) b);
            }))
      where
        zero_add : (j : ℕ) → 0 + j ≡ j
        zero_add j = omega arith

        whole : chars_of count ≡ count
        whole = ground arith

        all : u32 (0 + chars_of count) ≡ count
        all = let w = whole in omega arith

        moved : u32 (off + chars_of count) ≡ off + count
        moved = let w = whole in let e = o.before_end in let f = o.size_fits in omega arith
