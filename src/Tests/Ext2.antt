-- ===== src/Tests/Ext2.antt =====
-- Reading files of an ext2 volume at concrete inputs.
use saxon_os.Prelude.{
  ℕ, zero, suc, [], ◌∷◌, ◌<◌, ◌≤◌, ◌+◌, ◌≡◌, refl, arith, inr, ◌==◌, ◌%◌, if◌then◌else◌, true, none,
  Outcome, ok, panic, fault, hang, Returns,
}
use saxon_os.Common.Memory.{Memory, memset}
use saxon_os.Common.Words.{read32, write32}
use saxon_os.Mm.Heap.{
  Heap, kheap_init, kmalloc, kmalloc_alligned, alligned_from, occupy, split, kfree,
}
use saxon_os.Mm.Heap.Run.{Run, booted}
use saxon_os.Fs.Ext2.{Ext2, Sector, inode_table, read_inode}
use saxon_os.Fs.Ext2.Read.{VfsInode, fill_inode, ext2_name, ext2_read}
use saxon_os.Fs.Ext2.Read.Loop.{listed, Readable}
use saxon_os.Fs.Ext2.Read.Fill.{inode_block}
use saxon_os.Fs.Ext2.Read.File.{started, Opened, ext2_read-listed, ext2_read-hang}
use saxon_os.Fs.Ext2.Read.Runs.{Leaves, ext2_read-Run}

-- Blocks of 1024 bytes with 8 inodes of 128 bytes.
abbrev pub volume : Ext2
volume = record {
  block_size = 1024;
  fragment_size = 1024;
  inode_count = 64;
  block_count = 256;
  blocks_per_group = 256;
  inodes_per_group = 64;
  block_group_count = 1;
  bgd_addr = 2;
  inode_size = 128;
  inodes_per_block = 8;
  dir_has_typefield = true;
}

-- The inode table is block 5, and its first inode that of a regular file, whose first block is 20.
abbrev pub sectors : (second : ℕ) → ℕ → Sector
sectors second n o =
    if n == 4
    then (if o == 8 then 5 else 0)
    else if n == 10
    then (if o == 1 then 0x80 else if o == 40 then 20 else if o == 44 then second else 0)
    else o % 256

abbrev pub inode_data : (second : ℕ) → ℕ → ℕ
inode_data second i = sectors second 10 (i + 0)

abbrev pub hello : VfsInode
hello = record { i_no = 1; size = 100; flags = 0; fs_name = ext2_name }

abbrev blank : Memory
blank a = 0

abbrev pub boot : Heap
boot = kheap_init 16 512 blank

abbrev pub heap_of : Outcome (ℕ × Heap) → Heap
heap_of (ok r) = r.1
heap_of panic = boot
heap_of fault = boot
heap_of hang = boot

abbrev pub taken : Heap
taken = heap_of (kmalloc 512 128 boot)

-- Bytes 5 to 7 of the file.
pub hello-Opened :
    (second : ℕ) → Opened (sectors second) 512 volume hello 3 5 boot taken 32 (inode_data second)
unfolding kmalloc kmalloc_alligned alligned_from occupy split kheap_init read32 write32 memset
    read_inode inode_table
hello-Opened second = record {
  before_end = omega arith;
  size_fits = omega arith;
  plain = refl;
  allocated = refl;
  loaded = refl;
  regular = λ e. omega arith;
}

hello-Readable :
    (second : ℕ)
    → Readable (sectors second) volume (inode_block (inode_data second)) 1 (started 3 5)
hello-Readable second = record {
  whole = refl;
  direct = omega arith;
  inside = omega arith;
  in_use = λ j q e. used j q e;
  off_fits = omega arith;
  read_fits = omega arith;
}
  where
    used : (j : ℕ) → j < 1 → inode_block (inode_data second) (0 + j) ≡ 0 → ⊥
    used zero q e = omega arith
    used (suc j) q e = omega arith

-- The second block is not in use.
ext2_read-listed_example :
    ext2_read (sectors 0) 512 volume hello 3 5 boot
    ≡ ok (record {
      result = 3;
      stored = listed (sectors 0) volume (inode_block (inode_data 0)) 1 0 0 5 3;
      off = 8;
      heap = kfree 32 (record taken { mem = fill_inode 32 (inode_data 0) taken.mem });
    })
ext2_read-listed_example =
    ext2_read-listed (hello-Opened 0) 1 (hello-Readable 0) (omega arith) (omega arith) (inr refl)

-- The bytes stored.
hello_stored : listed (sectors 0) volume (inode_block (inode_data 0)) 1 0 0 5 3 ≡ 5 ∷ 6 ∷ 7 ∷ []
unfolding listed
hello_stored = refl

-- The second block is in use.
ext2_read-hang_example : ext2_read (sectors 21) 512 volume hello 3 5 boot ≡ hang
ext2_read-hang_example =
    ext2_read-hang (hello-Opened 21) 1 (hello-Readable 21) (omega arith) (omega arith) (omega arith)
      (λ e. omega arith)

pub boot-Run : Run boot (λ p. none)
boot-Run = booted 16 512 blank (omega arith) (omega arith) (omega arith) refl

pub boot_le : boot.heap_end ≤ 512
unfolding kheap_init
boot_le = omega arith

ext2_read-Run_example :
    Returns (Leaves (λ p. none)) (ext2_read (sectors 0) 512 volume hello 3 5 boot)
ext2_read-Run_example = ext2_read-Run (sectors 0) 512 volume hello 3 5 boot-Run boot_le
