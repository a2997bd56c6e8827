-- ===== src/Fs/Ext2/Super.antt =====
-- src/fs/ext2/ext2.c: `ext2_read_inode` and `ext2_read_super`. Tables of operations, types and
-- super blocks are addresses.
pub mod Runs
use saxon_os.Prelude.{ℕ, ◌+◌, ◌*◌, ◌^◌, ◌==◌, if◌then◌else◌, Outcome, ok, ◌>>=◌}
use saxon_os.Common.Memory.{Memory}
use saxon_os.Common.Words.{read32, write32}
use saxon_os.Mm.Heap.{Heap, kmalloc, kfree}
use saxon_os.Fs.Vfs.{Vfs}
use saxon_os.Fs.Vfs.Mount.{SuperBlock, type_of_super}
use saxon_os.Fs.Ext2.{Ext2, Sector, Superblock, ext2_parse_superblock, read_inode}
use saxon_os.Fs.Ext2.Read.{inode_bytes, ext2_name, fill_inode}

-- A `uint16_t` in memory.
abbrev pub half : Memory → ℕ → ℕ
half m a = m a + m (a + 1) * 2 ^ 8

-- The fields of `struct inode` that `ext2_read_inode` sets, and the number.
pub record NodeFields : Type 0 where
  pub i_no : ℕ
  pub size : ℕ
  pub i_ops : ℕ
  pub i_sb : ℕ
  pub gid : ℕ
  pub uid : ℕ

-- The copy of the inode is never filled: the fields are what the heap held there before.
pub ext2_read_inode :
    (rounds ext2_inode_ops super_block : ℕ) → NodeFields → Heap → Outcome (NodeFields × Heap)
ext2_read_inode rounds ext2_inode_ops super_block dest h =
    let d = record dest { i_ops = ext2_inode_ops; i_sb = super_block } in
    if dest.i_no == 0
    then ok (d, h)
    else (kmalloc rounds inode_bytes h >>= λ a. ok (
      record d {
        size = read32 a.1.mem (a.0 + 4);
        gid = half a.1.mem (a.0 + 24);
        uid = half a.1.mem (a.0 + 2);
      },
      kfree a.0 a.1,
    ))

-- `sizeof(struct inode)`.
abbrev pub node_bytes : ℕ
node_bytes = 52

-- The writes to the root's inode, from the copy at `tmp` of its inode on the disk.
abbrev pub fill_root : (tmp root : ℕ) → Memory → Memory
fill_root tmp root m =
    let m1 = write32 m (root + 4) 2 in
    let m2 = write32 m1 (root + 8) (read32 m1 (tmp + 4)) in
    let m3 = write32 m2 (root + 20) (half m2 (tmp + 24)) in
    let m4 = write32 m3 (root + 24) (half m3 (tmp + 2)) in
    write32 m4 (root + 28) (read32 m4 (tmp + 32))

-- `raw` is the super block on the disk.
unfoldable pub ext2_read_super :
    (sector : ℕ → Sector) (rounds : ℕ)
    → Vfs
    → (raw : Superblock) → (ext2_super_operations : ℕ) → SuperBlock
    → (dev : ℕ) → Heap
    → Outcome (Ext2 × SuperBlock × Heap)
ext2_read_super sector rounds s raw ext2_super_operations sb dev h =
    ext2_parse_superblock raw >>= λ g. kmalloc rounds inode_bytes h >>= λ a.
    read_inode sector g 2 >>= λ bytes.
    let copy = record a.1 { mem = fill_inode a.0 bytes a.1.mem } in
    kmalloc rounds node_bytes copy >>= λ r. type_of_super rounds s sb ext2_name 4 >>= λ fs_type.
    ok (
      g,
      record { dev = dev; fs_type = fs_type; sb_ops = ext2_super_operations; root = r.0 },
      kfree a.0 (record r.1 { mem = fill_root a.0 r.0 r.1.mem }),
    )
