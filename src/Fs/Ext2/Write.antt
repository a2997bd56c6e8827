-- ===== src/Fs/Ext2/Write.antt =====
-- src/fs/ext2/ext2.c: `ext2_write` and `change_file_size`. They write to the blocks in the cache,
-- and `ext2_write` to its copy of the inode in the kernel heap.
pub mod One
pub mod Back
use saxon_os.Prelude.{
  ℕ, zero, suc, ◌+◌, ◌-◌, ◌*◌, ◌/◌, ◌%◌, ◌^◌, ltb, leb, ◌==◌, ◌&&◌, ◌||◌, not, bit_and, u32,
  if◌then◌else◌, true, Outcome, ok, panic, fault, hang, ◌>>=◌,
}
use saxon_os.Common.Strings.{strcmp}
use saxon_os.Common.Words.{write32}
use saxon_os.Mm.Heap.{Heap, kmalloc, kfree}
use saxon_os.Fs.Devfs.{Blocks, chars_of, store_chars}
use saxon_os.Fs.Ext2.{
  Ext2, sector_size, addr_of_block, inode_index, real_inode_block, inode_sector, inode_offset,
  bg_of_inode, inode_table, read_inode,
}
use saxon_os.Fs.Ext2.Inode.{table_of_inode}
use saxon_os.Fs.Ext2.Read.{
  inode_bytes, type_permissions, direct_block, type_reg_file, minus_one, ext2_name, VfsInode,
  fill_inode,
}

-- The variables of the loop, with the number of bytes taken from the caller's buffer, and the
-- blocks.
pub record Writing : Type 0 where
  pub i : ℕ
  pub offset : ℕ
  pub count : ℕ
  pub off : ℕ
  pub wrote : ℕ
  pub given : ℕ
  pub blocks : Blocks

pub record WriteResult : Type 0 where
  pub result : ℕ
  pub off : ℕ
  pub heap : Heap
  pub blocks : Blocks

module _ (src : ℕ → ℕ) (g : Ext2) (block : ℕ → ℕ) where
  -- One round over the sectors of a block.
  abbrev pub write_sector : (k : ℕ) → Writing → Writing
  write_sector k s =
      let chars = chars_of s.count in
      record {
        i = s.i + 1;
        offset = 0;
        count = s.count - chars;
        off = u32 (s.off + chars);
        wrote = u32 (s.wrote + chars);
        given = s.given + chars;
        blocks =
            store_chars (λ j. src (s.given + j)) (u32 (addr_of_block g (block s.i) + k)) s.offset
              chars s.blocks;
      }

  unfoldable pub write_sectors : (left k : ℕ) → Writing → Outcome Writing
  write_sectors zero k s = ok s
  write_sectors (suc left) k s =
      let rest = write_sectors left (k + 1) (write_sector k s) in
      if s.count == 0
      then ok s
      else if leb 12 s.i || ltb sector_size (s.offset + chars_of s.count)
      then fault
      else rest

  -- The loop over the direct blocks. It has no bound: behind the last of them, it leaves the array.
  unfoldable pub write_direct : (rounds : ℕ) → Writing → Outcome Writing
  write_direct zero s = hang
  write_direct (suc rounds) s =
      let rest = write_sectors (g.block_size / sector_size) 0 s >>= write_direct rounds in
      if leb 12 s.i then fault else if block s.i == 0 then ok s else rest

-- The number of the sector that `read_inode` returns the buffer of.
abbrev pub sector_of_inode : Blocks → Ext2 → ℕ → ℕ
sector_of_inode b g inode = inode_sector g (table_of_inode b.sector g inode) (inode_index g inode)

abbrev pub mark_dirty : ℕ → Blocks → Blocks
mark_dirty n b = record b { dirty = λ m. if m == n then true else b.dirty m }

-- What follows the label `exit`. The new size goes to the copy of the inode, which is freed.
abbrev pub exit : Ext2 → (inode ptr : ℕ) → Blocks → Heap → Writing → WriteResult
exit g inode ptr b copy s = record {
  result = s.wrote;
  off = s.off;
  heap = kfree ptr (record copy { mem = write32 copy.mem (ptr + 4) s.wrote });
  blocks = mark_dirty (sector_of_inode b g inode) s.blocks;
}

unfoldable pub ext2_write :
    (rounds : ℕ) (src : ℕ → ℕ)
    → (g : Ext2) → (inode : VfsInode) → (count off : ℕ) → Blocks
    → Heap
    → Outcome WriteResult
ext2_write rounds src g inode count off b h = strcmp rounds inode.fs_name ext2_name >>= λ differ.
    if not (differ == 0)
    then panic
    else if leb inode.size (u32 (off + count)) || not (bit_and inode.flags 1 == 0)
    then ok (record { result = minus_one; off = off; heap = h; blocks = b })
    else (kmalloc rounds inode_bytes h >>= λ a. read_inode b.sector g inode.i_no >>= λ bytes.
        let m = fill_inode a.0 bytes a.1.mem in
        let copy = record a.1 { mem = m } in
        if bit_and (type_permissions m a.0) type_reg_file == 0
        then ok (record { result = minus_one; off = off; heap = copy; blocks = b })
        else (write_direct src g (direct_block m a.0) rounds (record {
          i = off / sector_size;
          offset = off % sector_size;
          count = count;
          off = off;
          wrote = 0;
          given = 0;
          blocks = b;
        })
            >>= λ s. ok (exit g inode.i_no a.0 b copy s)))

-- The size of an inode, in the sector that `REAL_INODE_BLOCK` names. The four bytes are written
-- behind the buffer if the inode's offset is too near its end.
pub change_file_size : (inode size : ℕ) → Ext2 → Blocks → Outcome Blocks
change_file_size inode size g b =
    let offset = inode_offset g (inode_index g inode) in
    if (g.inodes_per_group == 0) || (g.inodes_per_block == 0) || (g.block_size == 0)
    then fault
    else (inode_table b.sector g (bg_of_inode g inode) >>= λ table.
        let place = real_inode_block g table (inode_index g inode) in
        if ltb sector_size (offset + 8)
        then fault
        else ok (
            mark_dirty place (record b {
              sector = λ n o.
                  if n == place then write32 (b.sector n) (offset + 4) size o else b.sector n o;
            })))
