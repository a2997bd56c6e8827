-- ===== src/Fs/Ext2/Geometry.antt =====
-- The sector and the offset of an inode, against its place in the inode table.
use saxon_os.Prelude.{
  ℕ, ◌+◌, ◌*◌, ◌/◌, ◌%◌, ◌^◌, ◌≤◌, ◌<◌, ◌≡◌, arith, ap, sym, ◌∙◌, subst, ap₂, u32,
}
use saxon_os.Fs.Ext2.{
  Ext2, sector_size, block_of_inode, addr_of_block, byte_in_block, inode_sector, inode_offset,
}
use native.Mathlib.Nat as Nat

-- Blocks are whole sectors and hold whole inodes, of a multiple of 128 bytes.
pub record IsGeometry (g : Ext2) : Type 0 where
  pub sectors : g.block_size ≡ g.block_size / sector_size * sector_size
  pub inodes : g.inodes_per_block * g.inode_size ≡ g.block_size
  pub some_inodes : 0 < g.inodes_per_block
  pub inode_unit : g.inode_size ≡ g.inode_size / 128 * 128
  pub some_bytes : 0 < g.inode_size
  pub some_group : 0 < g.inodes_per_group
  pub small_size : g.block_size < 2 ^ 32

-- The inode at an index of the table lies below 2 ^ 32 sectors.
pub record Fits (g : Ext2) (table index : ℕ) : Type 0 where
  pub small_index : index * g.inode_size < 2 ^ 32
  pub small_block : table + index / g.inodes_per_block < 2 ^ 32
  pub small_sector : g.block_size / sector_size * (table + index / g.inodes_per_block + 1) < 2 ^ 32

-- `u32` on a number that fits.
u32-lt : {x : ℕ} → x < 2 ^ 32 → u32 x ≡ x
u32-lt h = Nat.mod-eq_of_lt h

split_index : (i ipb isz bs : ℕ) → ipb * isz ≡ bs → i * isz ≡ i / ipb * bs + isz * (i % ipb)
split_index i ipb isz bs e =
    ap (λ j. j * isz) (sym (Nat.div-add-mod i ipb))
    ∙ (shape (i / ipb) (i % ipb) ∙ ap (λ b. i / ipb * b + isz * (i % ipb)) e)
  where
    shape : (q r : ℕ) → (ipb * q + r) * isz ≡ q * (ipb * isz) + isz * r
    shape q r = omega arith

rest-lt : (i ipb isz bs : ℕ) → ipb * isz ≡ bs → 0 < ipb → 0 < isz → isz * (i % ipb) < bs
rest-lt i ipb isz bs e some_inodes some_bytes =
    subst (λ b. isz * (i % ipb) < b) (Nat.mul_comm isz ipb ∙ e)
      (Nat.mul-lt-mul_of_pos_left (Nat.mod-lt i some_inodes) some_bytes)

quotient : (q x bs n : ℕ) → 0 < bs → x < bs → n ≡ q * bs + x → n / bs ≡ q
quotient q x bs n some below e =
    ap (λ m. m / bs) e
    ∙ (Nat.mul-add-div_right some q x ∙ (ap (λ z. q + z) (Nat.div-eq_of_lt below) ∙ omega arith))

-- Sector `k * b + x / 512`, byte `x % 512`, of blocks of `k` sectors.
place : (k b x : ℕ) → (k * b + x / 512) * 512 + x % 512 ≡ k * 512 * b + x
place k b x = omega arith

module _ (g : Ext2) (v : IsGeometry g) (index : ℕ) where
  rest_below : g.inode_size * (index % g.inodes_per_block) < g.block_size
  rest_below =
      rest-lt index g.inodes_per_block g.inode_size g.block_size v.inodes v.some_inodes v.some_bytes

  byte-rest : byte_in_block g index ≡ g.inode_size * (index % g.inodes_per_block)
  byte-rest = u32-lt (Nat.lt_trans rest_below v.small_size)

  -- An inode ends within its sector.
  pub inode_offset-le : inode_offset g index + 128 ≤ sector_size
  inode_offset-le =
      subst (λ x. x % 512 + 128 ≤ 512)
        (sym (byte-rest ∙ ap (λ s. s * (index % g.inodes_per_block)) v.inode_unit))
        (aligned (g.inode_size / 128) (index % g.inodes_per_block))
    where
      aligned : (k r : ℕ) → k * 128 * r % 512 + 128 ≤ 512
      aligned k r = omega arith

  module _ (table : ℕ) (f : Fits g table index) where
    block : block_of_inode g index ≡ index / g.inodes_per_block
    block =
        ap (λ x. x / g.block_size) (u32-lt f.small_index)
        ∙ quotient (index / g.inodes_per_block) (g.inode_size * (index % g.inodes_per_block))
            g.block_size (index * g.inode_size) (Nat.lt_of_le_of_lt (omega arith) rest_below)
            rest_below (split_index index g.inodes_per_block g.inode_size g.block_size v.inodes)

    -- The sector that the macros compute does not wrap.
    sector_lem :
        inode_sector g table index
        ≡ g.block_size / sector_size * (table + index / g.inodes_per_block)
          + g.inode_size * (index % g.inodes_per_block) / sector_size
    sector_lem =
        ap₂ (λ b x. u32 (addr_of_block g (u32 (table + b)) + x / sector_size)) block byte-rest
        ∙ wraps (g.block_size / sector_size) (table + index / g.inodes_per_block)
            (g.inode_size * (index % g.inodes_per_block)) f.small_block f.small_sector
            (subst (λ b. g.inode_size * (index % g.inodes_per_block) < b) v.sectors rest_below)
      where
        wraps :
            (k b x : ℕ)
            → b < 2 ^ 32
            → k * (b + 1) < 2 ^ 32
            → x < k * 512
            → u32 (u32 (k * u32 b) + x / 512) ≡ k * b + x / 512
        wraps k b x small_b small below =
            ap (λ c. u32 (u32 (k * c) + x / 512)) (u32-lt small_b) ∙ omega arith

    -- The sector and the offset that the macros compute for an inode are those of its first byte,
    -- by the place of its table and its index in the table.
    pub inode_sector-place :
        inode_sector g table index * sector_size + inode_offset g index
        ≡ table * g.block_size + index * g.inode_size
    inode_sector-place =
        ap₂ (λ s x. s * 512 + x % 512) sector_lem byte-rest
        ∙ (place (g.block_size / sector_size) (table + index / g.inodes_per_block)
              (g.inode_size * (index % g.inodes_per_block))
            ∙ (ap
                  (λ b.
                    b * (table + index / g.inodes_per_block)
                    + g.inode_size * (index % g.inodes_per_block))
                  (sym v.sectors)
                ∙ (regroup g.block_size table (index / g.inodes_per_block)
                      (g.inode_size * (index % g.inodes_per_block))
                    ∙ ap (λ z. table * g.block_size + z)
                        (sym (
                          split_index index g.inodes_per_block g.inode_size g.block_size
                            v.inodes)))))
      where
        regroup : (bs t q x : ℕ) → bs * (t + q) + x ≡ t * bs + (q * bs + x)
        regroup bs t q x = omega arith
