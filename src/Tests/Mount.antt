-- ===== src/Tests/Mount.antt =====
-- Mounting an ext2 volume at a concrete input.
use saxon_os.Prelude.{ℕ, ◌+◌, ◌≡◌, refl, none, ok}
use saxon_os.Common.Memory.{memset}
use saxon_os.Common.Words.{read32, write32}
use saxon_os.Mm.Heap.{Heap, kheap_init, kmalloc, kmalloc_alligned, alligned_from, occupy, split}
use saxon_os.Fs.Vfs.{Vfs}
use saxon_os.Fs.Ext2.{Ext2, Superblock, ext2_parse_superblock, parsed, inode_table, read_inode}
use saxon_os.Fs.Ext2.Read.{ext2_name, fill_inode}
use saxon_os.Fs.Vfs.Mount.{SuperBlock}
use saxon_os.Fs.Ext2.Super.{ext2_read_super}
use saxon_os.Fs.Ext2.Super.Runs.{Mounts, ext2_read_super-Mounts}
use saxon_os.Tests.Ext2.{sectors, boot, taken, heap_of, boot-Run, boot_le}

abbrev raw : Superblock
raw = record {
  inode_count = 64;
  block_count = 256;
  block_size = 0;
  fragment_size = 0;
  blocks_per_group = 256;
  inodes_per_group = 64;
  ext2_signature = 0xEF53;
  major_version = 0;
  inode_size = 128;
  required_features = 2;
}

-- The type is at address 9.
abbrev no_types : Vfs
no_types = record { file_systems = 0; types = λ p. record { name = ext2_name; next = 0 } }

abbrev new_super : SuperBlock
new_super = record { dev = 0; fs_type = 9; sb_ops = 0; root = 0 }

-- Inode 2 lies in sector 10 too.
abbrev root_data : ℕ → ℕ
root_data i = sectors 0 10 (i + 128)

abbrev with_copy : Heap
with_copy = record taken { mem = fill_inode 32 root_data taken.mem }

abbrev with_root : Heap
with_root = heap_of (kmalloc 512 52 with_copy)

second_call : kmalloc 512 52 with_copy ≡ ok (176, with_root)
unfolding kmalloc kmalloc_alligned alligned_from occupy split kheap_init read32 write32 memset
second_call = refl

first_call : kmalloc 512 128 boot ≡ ok (32, taken)
unfolding kmalloc kmalloc_alligned alligned_from occupy split kheap_init read32 write32 memset
first_call = refl

ext2_read_super-Mounts_example :
    (r : Ext2 × SuperBlock × Heap) × (ext2_read_super
        (sectors 0)
        512
        no_types
        raw
        7
        new_super
        3
        boot
      ≡ ok r)
    × (r.1.root ≡ 176)
    × (r.1.fs_type ≡ 9)
    × Mounts (λ p. none) r
unfolding ext2_parse_superblock read_inode inode_table
ext2_read_super-Mounts_example =
    ext2_read_super-Mounts (sectors 0) 512 no_types raw 7 new_super 3 boot-Run boot_le (parsed raw)
      refl 32 taken first_call root_data refl 176 with_root second_call 9 refl
