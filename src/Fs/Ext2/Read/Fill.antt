-- ===== src/Fs/Ext2/Read/Fill.antt =====
-- The fields of an inode's copy in memory.
use saxon_os.Prelude.{ℕ, ◌+◌, ◌-◌, ◌*◌, ◌^◌, ◌<◌, ◌≡◌, refl, arith, true}
use saxon_os.Common.Memory.{Memory, within}
use saxon_os.Common.Words.{read32}
use saxon_os.Fs.Ext2.{le32}
use saxon_os.Fs.Ext2.Read.{inode_bytes, type_permissions, direct_block, fill_inode}

-- The direct blocks in the bytes of an inode.
abbrev pub inode_block : (ℕ → ℕ) → ℕ → ℕ
inode_block bytes i = le32 bytes (40 + 4 * i)

pub direct_block-fill_inode :
    (m : Memory) (p : ℕ) (bytes : ℕ → ℕ) (i : ℕ)
    → i < 12
    → direct_block (fill_inode p bytes m) p i ≡ inode_block bytes i
unfolding read32
direct_block-fill_inode m p bytes i few =
    rw
      (
        at (p + 40 + 4 * i) (40 + 4 * i) (omega arith) (omega arith),
        at (p + 40 + 4 * i + 1) (40 + 4 * i + 1) (omega arith) (omega arith),
        at (p + 40 + 4 * i + 2) (40 + 4 * i + 2) (omega arith) (omega arith),
        at (p + 40 + 4 * i + 3) (40 + 4 * i + 3) (omega arith) (omega arith),
      )
      refl
  where
    at : (a o : ℕ) → a ≡ p + o → o < inode_bytes → fill_inode p bytes m a ≡ bytes o
    at a o e below =
        let here : within p inode_bytes a ≡ true = ground arith in
        let place : a - p ≡ o = omega arith in rw (here, place) refl

pub type_permissions-fill_inode :
    (m : Memory) (p : ℕ) (bytes : ℕ → ℕ)
    → type_permissions (fill_inode p bytes m) p ≡ bytes 0 + bytes 1 * 2 ^ 8
type_permissions-fill_inode m p bytes =
    let first : within p inode_bytes p ≡ true = ground arith in
    let second : within p inode_bytes (p + 1) ≡ true = ground arith in
    let low : p - p ≡ 0 = omega arith in
    let high : p + 1 - p ≡ 1 = omega arith in rw (first, second, low, high) refl
