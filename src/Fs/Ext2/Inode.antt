-- ===== src/Fs/Ext2/Inode.antt =====
-- `read_inode` against the bytes of the disk.
use saxon_os.Prelude.{
  ℕ, ◌+◌, ◌*◌, ◌/◌, ◌%◌, ◌^◌, ◌<◌, ◌≡◌, refl, u32, ap, ◌∙◌, subst, arith, ltb, ◌==◌, false, true,
  ok,
}
use native.Mathlib.Nat as Nat
use saxon_os.Fs.Ext2.{
  Ext2, Sector, sector_size, bg_of_inode, inode_index, addr_of_block, inode_sector, inode_offset,
  le32, inode_table, read_inode,
}
use saxon_os.Fs.Ext2.Geometry.{IsGeometry, Fits, inode_offset-le, inode_sector-place}

-- The block of the inode table that the group descriptor of an inode gives.
abbrev pub table_of_inode : (ℕ → Sector) → Ext2 → ℕ → ℕ
table_of_inode sector g inode =
    le32 (sector (addr_of_block g g.bgd_addr)) (bg_of_inode g inode * 32 + 8)

module _ (disk : ℕ → ℕ) where
  -- The word of four bytes at a place of the disk.
  abbrev pub word_on : ℕ → ℕ
  word_on a = disk a + disk (a + 1) * 2 ^ 8 + disk (a + 2) * 2 ^ 16 + disk (a + 3) * 2 ^ 24

  -- The field `inode_table` of the descriptor of a group, in the block of the descriptors.
  abbrev pub table_on : Ext2 → (group : ℕ) → ℕ
  table_on g group = word_on (g.bgd_addr * g.block_size + group * 32 + 8)

module _ (sector : ℕ → Sector) where
  -- The read of an inode whose geometry is right ends in the bytes at its offset.
  runs :
      (g : Ext2)
      → IsGeometry g
      → (inode : ℕ) → bg_of_inode g inode < 16
      → inode_offset g (inode_index g inode) + 128 < 513
      → read_inode sector g inode
        ≡ ok (λ i.
          sector
            (inode_sector g (table_of_inode sector g inode) (inode_index g inode))
            (i + inode_offset g (inode_index g inode)))
  unfolding read_inode inode_table
  runs g v inode few within =
      let some_inodes = v.some_inodes in
      let some_group = v.some_group in
      let guard_group : (g.inodes_per_group == 0) ≡ false = ground arith in
      let guard_inodes : (g.inodes_per_block == 0) ≡ false = ground arith in
      let some_block : 0 < g.block_size =
        subst (λ b. 0 < b) v.inodes (Nat.mul-pos v.some_inodes v.some_bytes) in
      let guard_block : (g.block_size == 0) ≡ false = ground arith in
      let guard_few : ltb (bg_of_inode g inode) 16 ≡ true = ground arith in
      let guard_within : ltb sector_size (inode_offset g (inode_index g inode) + 128) ≡ false =
        ground arith in
      simp (guard_group, guard_inodes, guard_block, guard_few, guard_within)

  -- The bytes by the sector and the offset that the macros compute.
  read_inode-place :
      (g : Ext2)
      → IsGeometry g
      → (inode : ℕ) → bg_of_inode g inode < 16
      → Fits g (table_of_inode sector g inode) (inode_index g inode)
      → (disk : ℕ → ℕ) → ((n o : ℕ) → o < sector_size → sector n o ≡ disk (n * sector_size + o))
      → (bytes : ℕ → ℕ) × (read_inode sector g inode ≡ ok bytes)
        × ((i : ℕ)
            → i < 128
            → bytes i
              ≡ disk (
                  table_of_inode sector g inode * g.block_size
                  + inode_index g inode * g.inode_size
                  + i))
  read_inode-place g v inode few f disk agrees =
      let index = inode_index g inode in
      let table = table_of_inode sector g inode in
      let within = inode_offset-le g v index in
      (
        _,
        runs g v inode few (omega arith),
        λ i below.
            agrees (inode_sector g table index) (i + inode_offset g index) (omega arith)
            ∙ ap disk (
                shift (inode_sector g table index * sector_size) (inode_offset g index) i
                ∙ ap (λ n. n + i) (inode_sector-place g v index table f)),
      )
    where
      shift : (a b i : ℕ) → a + (i + b) ≡ a + b + i
      shift a b i = omega arith

  module _ (disk : ℕ → ℕ)
      (agrees : (n o : ℕ) → o < sector_size → sector n o ≡ disk (n * sector_size + o)) where
    byte_on :
        (n o a : ℕ)
        → n * sector_size + o ≡ a
        → (j : ℕ) → o + j < sector_size
        → sector n (o + j) ≡ disk (a + j)
    byte_on n o a e j p = agrees n (o + j) p ∙ ap disk (omega arith)

    le32-word_on :
        (n o a : ℕ)
        → n * sector_size + o ≡ a
        → o + 3 < sector_size
        → le32 (sector n) o ≡ word_on disk a
    le32-word_on n o a e p =
        let first : sector n o ≡ disk a = agrees n o (omega arith) ∙ ap disk e in
        rw
          (
            first,
            byte_on n o a e 1 (omega arith),
            byte_on n o a e 2 (omega arith),
            byte_on n o a e 3 p,
          )
          refl

    module _ (g : Ext2) (v : IsGeometry g) (k : ℕ) (number : k + 1 < 2 ^ 32)
        (few : k / g.inodes_per_group < 16)
        (near : g.block_size / sector_size * g.bgd_addr < 2 ^ 32) where
      group_same : bg_of_inode g (k + 1) ≡ k / g.inodes_per_group
      group_same = ap (λ n. n / g.inodes_per_group) (omega arith)

      index_same : inode_index g (k + 1) ≡ k % g.inodes_per_group
      index_same = ap (λ n. n % g.inodes_per_group) (omega arith)

      first_byte : addr_of_block g g.bgd_addr * sector_size ≡ g.bgd_addr * g.block_size
      first_byte = flip (g.block_size / sector_size) g.bgd_addr near v.sectors
        where
          flip : (q d : ℕ) {bs : ℕ} → q * d < 2 ^ 32 → bs ≡ q * 512 → u32 (q * d) * 512 ≡ d * bs
          flip q d h e = rw e (omega arith)

      table_same : table_of_inode sector g (k + 1) ≡ table_on disk g (k / g.inodes_per_group)
      table_same = rw group_same (
          le32-word_on (addr_of_block g g.bgd_addr) (k / g.inodes_per_group * 32 + 8) _
            (omega (arith, first_byte)) (omega arith))

      -- On a file system of whole sectors and whole inodes, for inode `k + 1`, of one of the first
      -- 16 groups, where the descriptors and the inode lie below 2 ^ 32 sectors, `read_inode`
      -- returns 128 bytes: those of the disk from the inode's place on. That is in the table that
      -- the group's descriptor on the disk names, at the inode's index in the group.
      pub read_inode-disk :
          Fits g (table_on disk g (k / g.inodes_per_group)) (k % g.inodes_per_group)
          → (bytes : ℕ → ℕ) × (read_inode sector g (k + 1) ≡ ok bytes)
            × ((i : ℕ)
                → i < 128
                → bytes i
                  ≡ disk (
                      table_on disk g (k / g.inodes_per_group) * g.block_size
                      + k % g.inodes_per_group * g.inode_size
                      + i))
      read_inode-disk f =
          let placed =
            read_inode-place g v (k + 1) (rw group_same few) (rw (table_same, index_same) f) disk
              agrees in
          (placed.0, placed.1, λ i p. placed.2 i p ∙ ap disk (rw (table_same, index_same) refl))
