-- ===== src/Fs/Ext2/Read.antt =====
-- src/fs/ext2/ext2.c: `ext2_read`. The private copy of the inode lies in the kernel heap; the
-- caller's buffer is the list of the bytes stored there. What the function prints is left out.
pub mod Loop
pub mod Ends
pub mod Fill
pub mod File
pub mod Runs
use saxon_os.Prelude.{
  ℕ, zero, suc, ◌+◌, ◌-◌, ◌*◌, ◌/◌, ◌%◌, ◌^◌, ltb, leb, ◌==◌, ◌&&◌, ◌||◌, not, bit_and, u32,
  if◌then◌else◌, List, [], ◌++◌, Outcome, ok, panic, fault, hang, ◌>>=◌,
}
use saxon_os.Common.Memory.{Memory, within}
use saxon_os.Common.Strings.{Bytes, strcmp}
use saxon_os.Common.Words.{read32}
use saxon_os.Mm.Heap.{Heap, kmalloc, kfree}
use saxon_os.Fs.Devfs.{chars_of, copied}
use saxon_os.Fs.Ext2.{Ext2, Sector, sector_size, addr_of_block, read_inode}

-- `sizeof(ext2_inode_t)`.
abbrev pub inode_bytes : ℕ
inode_bytes = 128

-- Fields of an `ext2_inode_t` at an address.
abbrev pub type_permissions : Memory → ℕ → ℕ
type_permissions m p = m p + m (p + 1) * 2 ^ 8

abbrev pub direct_block : Memory → (p i : ℕ) → ℕ
direct_block m p i = read32 m (p + 40 + 4 * i)

abbrev pub type_reg_file : ℕ
type_reg_file = 0x8000

-- -1 as an `ssize_t`.
abbrev pub minus_one : ℕ
minus_one = 2 ^ 32 - 1

-- "ext2", with zeros behind it.
abbrev pub ext2_name : Bytes
ext2_name i =
    if i == 0 then 101 else if i == 1 then 120 else if i == 2 then 116 else if i == 3 then 50 else 0

-- The fields of `struct inode` that are read, and the name of its file system.
pub record VfsInode : Type 0 where
  pub i_no : ℕ
  pub size : ℕ
  pub flags : ℕ
  pub fs_name : Bytes

-- The variables of the loop, and the bytes stored.
pub record Reading : Type 0 where
  pub i : ℕ
  pub offset : ℕ
  pub count : ℕ
  pub off : ℕ
  pub read : ℕ
  pub stored : List ℕ

pub record ReadResult : Type 0 where
  pub result : ℕ
  pub stored : List ℕ
  pub off : ℕ
  pub heap : Heap

-- The loop of `read_inode` that copies the inode to `dest`.
abbrev pub fill_inode : (dest : ℕ) → (bytes : ℕ → ℕ) → Memory → Memory
fill_inode dest bytes m a = if within dest inode_bytes a then bytes (a - dest) else m a

-- The loop over the sectors of a block, from sector `k` on, of which `left` are left. An `i` behind
-- the direct blocks is a fault, as is a copy from behind the end of the buffer.
module _ (sector : ℕ → Sector) (g : Ext2) (block : ℕ → ℕ) where
  -- One round.
  abbrev pub read_sector : (k : ℕ) → Reading → Reading
  read_sector k s =
      let chars = chars_of s.count in
      record {
        i = s.i + 1;
        offset = 0;
        count = s.count - chars;
        off = u32 (s.off + chars);
        read = u32 (s.read + chars);
        stored = s.stored ++ copied (sector (u32 (addr_of_block g (block s.i) + k))) s.offset chars;
      }

  unfoldable pub read_sectors : (left k : ℕ) → Reading → Outcome Reading
  read_sectors zero k s = ok s
  read_sectors (suc left) k s =
      let rest = read_sectors left (k + 1) (read_sector k s) in
      if s.count == 0
      then ok s
      else if leb 12 s.i || ltb sector_size (s.offset + chars_of s.count)
      then fault
      else rest

  -- The loop over the direct blocks.
  unfoldable pub read_direct : (rounds : ℕ) → Reading → Outcome Reading
  read_direct zero s = hang
  read_direct (suc rounds) s =
      let rest = read_sectors (g.block_size / sector_size) 0 s >>= read_direct rounds in
      if ltb s.i 12 && not (block s.i == 0) then rest else ok s

-- The end of `ext2_read`: the copy of the inode is freed.
abbrev pub ended : (ptr : ℕ) → Heap → Reading → ReadResult
ended ptr copy s = record { result = s.read; stored = s.stored; off = s.off; heap = kfree ptr copy }

-- `inode->flags & 0xF000 != TYPE_REG_FILE` tests the lowest flag.
unfoldable pub ext2_read :
    (sector : ℕ → Sector) (rounds : ℕ)
    → (g : Ext2) → (inode : VfsInode) → (count off : ℕ) → Heap
    → Outcome ReadResult
ext2_read sector rounds g inode count off h = strcmp rounds inode.fs_name ext2_name >>= λ differ.
    if not (differ == 0)
    then panic
    else if leb inode.size (u32 (off + count)) || not (bit_and inode.flags 1 == 0)
    then ok (record { result = minus_one; stored = []; off = off; heap = h })
    else (kmalloc rounds inode_bytes h >>= λ a. read_inode sector g inode.i_no >>= λ bytes.
        let m = fill_inode a.0 bytes a.1.mem in
        let copy = record a.1 { mem = m } in
        if bit_and (type_permissions m a.0) type_reg_file == 0
        then ok (record { result = minus_one; stored = []; off = off; heap = copy })
        else (read_direct sector g (direct_block m a.0) rounds (record {
          i = off / sector_size;
          offset = off % sector_size;
          count = count;
          off = off;
          read = 0;
          stored = [];
        })
            >>= λ s. ok (ended a.0 copy s)))
