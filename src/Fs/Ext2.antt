-- ===== src/Fs/Ext2.antt =====
-- src/fs/ext2/ext2.c and its header: the geometry of a file system, and where its inodes lie. The
-- sectors come through the buffer cache; here `sector n` stands for the 512 bytes that `get_block`
-- returns for block `n` of the device.
pub mod Geometry
pub mod Inode
pub mod Parse
pub mod Read
pub mod Lookup
pub mod Write
pub mod Super
use saxon_os.Prelude.{
  ℕ, ◌+◌, ◌-◌, ◌*◌, ◌/◌, ◌%◌, ◌^◌, ◌<<◌, u32, bit_and, ltb, leb, ◌==◌, ◌||◌, not, if◌then◌else◌,
  Bool, true, false, Outcome, ok, panic, fault, ◌>>=◌,
}
use saxon_os.Common.Words.{ceiling_div}

abbrev pub Sector : Type 0
Sector = ℕ → ℕ

abbrev pub sector_size : ℕ
sector_size = 512

-- The fields of `ext2_superblock_t` and `ext2_extended_superblock_t` that the driver reads.
pub record Superblock : Type 0 where
  pub inode_count : ℕ
  pub block_count : ℕ
  pub block_size : ℕ
  pub fragment_size : ℕ
  pub blocks_per_group : ℕ
  pub inodes_per_group : ℕ
  pub ext2_signature : ℕ
  pub major_version : ℕ
  pub inode_size : ℕ
  pub required_features : ℕ

-- The static variables of the driver.
pub record Ext2 : Type 0 where
  pub block_size : ℕ
  pub fragment_size : ℕ
  pub inode_count : ℕ
  pub block_count : ℕ
  pub blocks_per_group : ℕ
  pub inodes_per_group : ℕ
  pub block_group_count : ℕ
  pub bgd_addr : ℕ
  pub inode_size : ℕ
  pub inodes_per_block : ℕ
  pub dir_has_typefield : Bool

-- The variable `inode_size`, by the major version.
abbrev pub inode_size_of : Superblock → ℕ
inode_size_of sb = if leb 1 sb.major_version then sb.inode_size else 128

-- The variables that `ext2_parse_superblock` sets.
abbrev pub parsed : Superblock → Ext2
parsed sb =
    let block_size = u32 (0x400 << sb.block_size) in
    record {
      block_size = block_size;
      fragment_size = u32 (0x400 << sb.fragment_size);
      inode_count = sb.inode_count;
      block_count = sb.block_count;
      blocks_per_group = sb.blocks_per_group;
      inodes_per_group = sb.inodes_per_group;
      block_group_count = ceiling_div sb.block_count sb.blocks_per_group;
      bgd_addr = if block_size == 0x400 then 2 else 1;
      inode_size = inode_size_of sb;
      inodes_per_block = block_size / inode_size_of sb;
      dir_has_typefield = not (bit_and sb.required_features 2 == 0);
    }

-- `ext2_parse_superblock` on the superblock that it has read. A division by zero is a fault.
unfoldable pub ext2_parse_superblock : Superblock → Outcome Ext2
ext2_parse_superblock sb =
    if not (sb.ext2_signature == 0xEF53)
    then panic
    else if (sb.blocks_per_group == 0) || (inode_size_of sb == 0)
    then fault
    else ok (parsed sb)

-- The macros of the header. An inode's number is an unsigned number from 1 on.
abbrev pub bg_of_inode : Ext2 → ℕ → ℕ
bg_of_inode g inode = (inode + 2 ^ 32 - 1) % 2 ^ 32 / g.inodes_per_group

abbrev pub inode_index : Ext2 → ℕ → ℕ
inode_index g inode = (inode + 2 ^ 32 - 1) % 2 ^ 32 % g.inodes_per_group

abbrev pub block_of_inode : Ext2 → ℕ → ℕ
block_of_inode g index = u32 (index * g.inode_size) / g.block_size

abbrev pub addr_of_block : Ext2 → ℕ → ℕ
addr_of_block g block = u32 (g.block_size / sector_size * block)

-- `inode_size * (index % inodes_per_block)`
abbrev pub byte_in_block : Ext2 → ℕ → ℕ
byte_in_block g index = u32 (g.inode_size * (index % g.inodes_per_block))

-- `REAL_INODE_BLOCK`, for the inode table at block `table`. `ADDR_OF_BLOCK` does not put its
-- argument in parentheses, so the factor is applied to `table` only.
abbrev pub real_inode_block : Ext2 → (table index : ℕ) → ℕ
real_inode_block g table index = u32 (
    g.block_size / sector_size * table
    + block_of_inode g index
    + byte_in_block g index / sector_size)

-- The sector that `read_inode` gets, for the inode table at block `table`.
abbrev pub inode_sector : Ext2 → (table index : ℕ) → ℕ
inode_sector g table index =
    u32
      (addr_of_block g (u32 (table + block_of_inode g index)) + byte_in_block g index / sector_size)

-- `INODE_OFFSET`
abbrev pub inode_offset : Ext2 → ℕ → ℕ
inode_offset g index = byte_in_block g index % sector_size

-- A `uint32_t` at an offset of a sector.
abbrev pub le32 : Sector → ℕ → ℕ
le32 s o = s o + s (o + 1) * 2 ^ 8 + s (o + 2) * 2 ^ 16 + s (o + 3) * 2 ^ 24

module _ (sector : ℕ → Sector) where
  -- `bgdt_entries[group].inode_table`; the table is the one sector that `read_bgd_table` keeps,
  -- with room for 16 descriptors of 32 bytes.
  unfoldable pub inode_table : Ext2 → ℕ → Outcome ℕ
  inode_table g group =
      if ltb group 16
      then ok (le32 (sector (addr_of_block g g.bgd_addr)) (group * 32 + 8))
      else fault

  -- `sizeof(ext2_inode_t)` bytes from the inode's offset in its sector. The copy leaves the buffer
  -- if the inode does not end within the sector.
  unfoldable pub read_inode : Ext2 → ℕ → Outcome (ℕ → ℕ)
  read_inode g inode =
      if (g.inodes_per_group == 0) || (g.inodes_per_block == 0) || (g.block_size == 0)
      then fault
      else (inode_table g (bg_of_inode g inode) >>= λ table.
          let index = inode_index g inode in
          let offset = inode_offset g index in
          if ltb sector_size (offset + 128)
          then fault
          else ok (λ i. sector (inode_sector g table index) (i + offset)))
