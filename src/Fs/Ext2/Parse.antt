-- ===== src/Fs/Ext2/Parse.antt =====
-- The geometry that a super block gives.
use saxon_os.Prelude.{
  ℕ, ◌+◌, ◌*◌, ◌/◌, ◌^◌, u32, ◌<<◌, ltb, leb, ◌==◌, ◌&&◌, if◌then◌else◌, Bool, true,
}
use saxon_os.Fs.Ext2.{Ext2}

-- Blocks of `bs` bytes are sectors and hold inodes of `size` bytes.
abbrev fits_blocks : (bs size : ℕ) → Bool
fits_blocks bs size =
    (bs == bs / 512 * 512)
    && ((bs / size * size == bs)
        && (ltb 0 (bs / size) && ((size == size / 128 * 128) && (ltb 0 size && ltb bs (2 ^ 32)))))

-- For blocks of 1024 to 65536 bytes and inodes of powers of two.
abbrev sizes_fit : ℕ → ℕ → Bool
sizes_fit b j = if leb j (b + 3) then fits_blocks (u32 (0x400 << b)) (128 * 2 ^ j) else true
