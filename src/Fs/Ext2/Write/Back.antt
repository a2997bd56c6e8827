-- ===== src/Fs/Ext2/Write/Back.antt =====
-- `ext2_read` of what `ext2_write` wrote.
use mathlib.Core.List.{append-nil}
use saxon_os.Prelude.{
  ℕ, suc, ◌+◌, ◌-◌, ◌/◌, ◌%◌, ◌<◌, ◌≤◌, ◌≡◌, ◌≢◌, refl, ap, subst, sym, ◌∙◌, arith, ltb, leb, ◌==◌,
  ◌&&◌, true, false, Bool-cases, inl, inr, Outcome, ok, panic, fault, hang,
}
use saxon_os.Mm.Heap.{Heap, kmalloc, kfree}
use saxon_os.Fs.Devfs.{Blocks, chars_of, store_chars, copied}
use saxon_os.Fs.Devfs.Read.{copied-agree}
use saxon_os.Fs.Ext2.{
  Ext2, Sector, sector_size, addr_of_block, bg_of_inode, inode_index, inode_sector, inode_table,
  read_inode,
}
use saxon_os.Fs.Ext2.Inode.{table_of_inode}
use saxon_os.Fs.Ext2.Read.{inode_bytes, VfsInode, fill_inode, ext2_read}
use saxon_os.Fs.Ext2.Read.Fill.{inode_block}
use saxon_os.Fs.Ext2.Read.Loop.{sectors_per_block, listed, Readable}
use saxon_os.Fs.Ext2.Read.File.{started, Opened, ext2_read-listed}
use saxon_os.Fs.Ext2.Write.{WriteResult, sector_of_inode, ext2_write}
use saxon_os.Fs.Ext2.Write.One.{target, ext2_write-stored}

-- `read_inode` reads the sector of the group's descriptor and that of the inode.
read_inode-agree :
    (s s' : ℕ → Sector) (g : Ext2) (inode : ℕ)
    → s' (addr_of_block g g.bgd_addr) ≡ s (addr_of_block g g.bgd_addr)
    → s' (inode_sector g (table_of_inode s g inode) (inode_index g inode))
      ≡ s (inode_sector g (table_of_inode s g inode) (inode_index g inode))
    → read_inode s' g inode ≡ read_inode s g inode
unfolding read_inode inode_table
read_inode-agree s s' g inode e f = elim (Bool-cases (ltb (bg_of_inode g inode) 16)) [
  | inl few ↦ rw (few, e, f) refl
  | inr many ↦ rw many refl
]

module _ (src : ℕ → ℕ) (b : Blocks) (place offset count : ℕ) where
  store_chars-elsewhere :
      (n : ℕ) → n ≢ place → (store_chars src place offset count b).sector n ≡ b.sector n
  unfolding store_chars
  store_chars-elsewhere n ne = λ t o. at o t
    where
      at : (o : ℕ) → (store_chars src place offset count b).sector n o ≡ b.sector n o
      at o = let other : (n == place) ≡ false = ground arith in rw other refl

  copied-store_chars :
      copied ((store_chars src place offset count b).sector place) offset count ≡ copied src 0 count
  unfolding store_chars
  copied-store_chars =
      copied-agree ((store_chars src place offset count b).sector place) src offset 0 count
        (λ i below.
          let here : ((place == place)
                && (leb offset (offset + i) && ltb (offset + i) (offset + count)))
              ≡ true =
            ground arith in
          let at : offset + i - offset ≡ 0 + i = omega arith in rw here (ap src at))

module _ {rounds : ℕ} {g : Ext2} {inode : VfsInode} {count off : ℕ} (b : Blocks) {h h' : Heap}
    {ptr : ℕ} {bytes : ℕ → ℕ}
    (o : Opened b.sector (suc (suc rounds)) g inode count off h h' ptr bytes) (src : ℕ → ℕ)
    (some_block : 0 < sectors_per_block g) (some : count ≢ 0) (few : off / sector_size + 1 < 12)
    (fits : off % sector_size + count ≤ sector_size)
    (used : inode_block bytes (off / sector_size) ≢ 0)
    (last : inode_block bytes (off / sector_size + 1) ≡ 0) where
  abbrev place : ℕ
  place = target b o src some_block some few fits used last

  abbrev blocks' : Blocks
  blocks' = store_chars src place (off % sector_size) count b

  reopened :
      (apart : place ≢ sector_of_inode b g inode.i_no)
      → (apart' : place ≢ addr_of_block g g.bgd_addr) → (k k' : Heap) → (ptr' : ℕ)
      → kmalloc (suc (suc rounds)) inode_bytes k ≡ ok (ptr', k')
      → Opened blocks'.sector (suc (suc rounds)) g inode count off k k' ptr' bytes
  reopened apart apart' k k' ptr' given = record {
    before_end = o.before_end;
    size_fits = o.size_fits;
    plain = o.plain;
    allocated = given;
    loaded =
        read_inode-agree b.sector blocks'.sector g inode.i_no
          (store_chars-elsewhere src b place (off % sector_size) count _ (λ e. apart' (sym e)))
          (store_chars-elsewhere src b place (off % sector_size) count _ (λ e. apart (sym e)))
        ∙ o.loaded;
    regular = o.regular;
  }

  one-Readable : Readable blocks'.sector g (inode_block bytes) 1 (started count off)
  one-Readable = record {
    whole = omega arith;
    direct = omega arith;
    inside = ground arith;
    in_use = λ j q e. used (ap (inode_block bytes) (omega arith) ∙ e);
    off_fits = let e = o.before_end in let f = o.size_fits in omega arith;
    read_fits = let e = o.before_end in let f = o.size_fits in omega arith;
  }

  listed_back :
      listed blocks'.sector g (inode_block bytes) 1 0 (off / sector_size) (off % sector_size) count
      ≡ copied src 0 count
  unfolding listed
  listed_back =
      append-nil _
      ∙ (ap (λ n. copied (blocks'.sector place) (off % sector_size) n) whole
          ∙ copied-store_chars src b place (off % sector_size) count)
    where
      whole : chars_of count ≡ count
      whole = ground arith

  -- After a write within one sector of a direct block in use, behind which there is none in use, a
  -- read of the same range finds the bytes that were written, if there is memory for its copy of
  -- the inode, and if the sector is neither that of the inode nor that of the group descriptors.
  pub ext2_read-ext2_write :
      (w : WriteResult)
      → ext2_write (suc (suc rounds)) src g inode count off b h ≡ ok w
      → (k' : Heap) → (ptr' : ℕ) → kmalloc (suc (suc rounds)) inode_bytes w.heap ≡ ok (ptr', k')
      → place ≢ sector_of_inode b g inode.i_no
      → place ≢ addr_of_block g g.bgd_addr
      → ext2_read w.blocks.sector (suc (suc rounds)) g inode count off w.heap
        ≡ ok (record {
          result = count;
          stored = copied src 0 count;
          off = off + count;
          heap = kfree ptr' (record k' { mem = fill_inode ptr' bytes k'.mem });
        })
  ext2_read-ext2_write w e k' ptr' given apart apart' =
      subst
        (λ s.
          ext2_read s (suc (suc rounds)) g inode count off w.heap
          ≡ ok (record {
            result = count;
            stored = copied src 0 count;
            off = off + count;
            heap = kfree ptr' (record k' { mem = fill_inode ptr' bytes k'.mem });
          }))
        (ap written_sectors
          (sym (ext2_write-stored b o src some_block some few fits used last) ∙ e))
        (ext2_read-listed (reopened apart apart' w.heap k' ptr' given) 1 one-Readable some_block
            (omega arith) (inr last)
          ∙ ap
              (λ xs. ok (record {
                result = count;
                stored = xs;
                off = off + count;
                heap = kfree ptr' (record k' { mem = fill_inode ptr' bytes k'.mem });
              }))
              listed_back)
    where
      written_sectors : Outcome WriteResult → ℕ → Sector
      written_sectors (ok w) = w.blocks.sector
      written_sectors panic = b.sector
      written_sectors fault = b.sector
      written_sectors hang = b.sector
