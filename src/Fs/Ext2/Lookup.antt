-- ===== src/Fs/Ext2/Lookup.antt =====
-- src/fs/ext2/ext2.c: `ext2_lookup`. The caller's inode gets the number, the size and the
-- permissions that are returned; with none of them the function returns -1.
pub mod Entries
pub mod Directory
use saxon_os.Prelude.{
  ℕ, zero, suc, ◌+◌, ◌-◌, ◌*◌, ◌/◌, ◌^◌, ltb, leb, ◌==◌, ◌&&◌, ◌||◌, not, Bool, u32, if◌then◌else◌,
  Option, none, some, Outcome, ok, fault, hang, ◌>>=◌,
}
use saxon_os.Common.Strings.{Bytes, strncmp}
use saxon_os.Fs.Ext2.{Ext2, Sector, sector_size, addr_of_block, le32, read_inode}
use saxon_os.Fs.Ext2.Read.Fill.{inode_block}

-- The fields of the `ext2_directory_entry_t` at an offset of a sector, and the bytes behind it.
abbrev pub de_inode : Sector → ℕ → ℕ
de_inode s de = le32 s de

abbrev pub entry_size : Sector → ℕ → ℕ
entry_size s de = s (de + 4) + s (de + 5) * 2 ^ 8

abbrev pub name_length : Sector → ℕ → ℕ
name_length s de = s (de + 6)

abbrev pub de_name : Sector → ℕ → Bytes
de_name s de j = s (de + 8 + j)

-- What the loop over the entries of a sector ends in: at the end of the sector, with the sum of the
-- sizes so far; behind the end of the directory; or at the entry with the name, of which it keeps
-- the inode's number.
pub data Scan : Type 0 where
  at_end : (size : ℕ) → Scan
  not_found : Scan
  found_at : (inode : ℕ) → Scan

-- The fields of the inode that is found.
pub record Found : Type 0 where
  pub i_no : ℕ
  pub size : ℕ
  pub permissions : ℕ

-- `strncmp` leaves the buffer if all bytes up to its end agree.
abbrev pub leaves_buffer : Sector → (de : ℕ) → Bytes → (len : ℕ) → Bool
leaves_buffer s de filename len =
    ltb sector_size (de + 8 + len)
    && (strncmp filename (de_name s de) (sector_size - (de + 8)) == 0)

-- The loop over the entries of a sector. The test reads the entry's size, which is a fault behind
-- the end of the buffer. `len` is the length of the name.
unfoldable pub scan_entries :
    (rounds : ℕ) → (s : Sector) → (filename : Bytes) → (len size_low de size : ℕ) → Outcome Scan
scan_entries zero s filename len size_low de size = hang
scan_entries (suc rounds) s filename len size_low de size =
    let length = entry_size s de in
    let rest = scan_entries rounds s filename len size_low (de + length) (u32 (size + length)) in
    let onward = if ltb size_low (u32 (size + length)) then ok not_found else rest in
    if ltb sector_size (de + 6)
    then fault
    else if leb sector_size (de + length)
    then ok (at_end size)
    else if de_inode s de == 0
    then onward
    else if ltb sector_size (de + 7)
    then fault
    else if not (name_length s de == len)
    then onward
    else if leaves_buffer s de filename len
    then fault
    else if strncmp filename (de_name s de) len == 0
    then ok (found_at (de_inode s de))
    else onward

-- What follows the loop over a sector or a block.
abbrev pub scan_on : (ℕ → Outcome Scan) → Scan → Outcome Scan
scan_on rest (at_end size) = rest size
scan_on rest not_found = ok not_found
scan_on rest (found_at inode) = ok (found_at inode)

module _ (sector : ℕ → Sector) (rounds : ℕ) (g : Ext2) (filename : Bytes) (len size_low : ℕ) where
  -- The loop over the sectors of a block, from sector `n` on, of which `left` are left. The source
  -- counts them in 8 bits, so a block has fewer than 256.
  unfoldable pub scan_sectors : (left n size : ℕ) → Outcome Scan
  scan_sectors zero n size = ok (at_end size)
  scan_sectors (suc left) n size =
      scan_entries rounds (sector n) filename len size_low 0 size
      >>= scan_on (scan_sectors left (u32 (n + 1)))

  -- The loop over the direct blocks, from block `i` on, of which `left` are left.
  unfoldable pub scan_blocks : (block : ℕ → ℕ) → (left i size : ℕ) → Outcome Scan
  scan_blocks block zero i size = ok not_found
  scan_blocks block (suc left) i size =
      let rest =
        scan_sectors (g.block_size / sector_size) (addr_of_block g (block i)) size
        >>= scan_on (scan_blocks block left (i + 1)) in
      if block i == 0 then ok not_found else rest

-- The caller's inode after the search.
unfoldable pub fill_result : (sector : ℕ → Sector) → Ext2 → Scan → Outcome (Option Found)
fill_result sector g (at_end size) = ok none
fill_result sector g not_found = ok none
fill_result sector g (found_at inode) = read_inode sector g inode >>= λ bytes.
    ok
      (some (record { i_no = inode; size = le32 bytes 4; permissions = bytes 0 + bytes 1 * 2 ^ 8 }))

-- `inode.type_permissions && TYPE_DIRECTORY` asks only for any type or permission.
unfoldable pub ext2_lookup :
    (sector : ℕ → Sector) (rounds : ℕ)
    → Ext2
    → (dir : ℕ) → (filename : Bytes) → (len : ℕ) → Outcome (Option Found)
ext2_lookup sector rounds g dir filename len = read_inode sector g dir >>= λ bytes.
    if (len == 0) || (bytes 0 + bytes 1 * 2 ^ 8 == 0)
    then ok none
    else (scan_blocks sector rounds g filename len (le32 bytes 4) (inode_block bytes) 12 0 0
        >>= fill_result sector g)
