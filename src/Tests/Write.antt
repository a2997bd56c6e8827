-- ===== src/Tests/Write.antt =====
-- Writing to a file of an ext2 volume at concrete inputs, and reading it back.
use saxon_os.Prelude.{ℕ, ◌+◌, ◌≡◌, refl, arith, false, ok}
use saxon_os.Common.Memory.{memset}
use saxon_os.Common.Words.{read32, write32}
use saxon_os.Mm.Heap.{
  Heap, kheap_init, kmalloc, kmalloc_alligned, alligned_from, occupy, split, kfree, kfree_block,
  absorb_prev, absorb_next, absorb,
}
use saxon_os.Fs.Devfs.{Blocks, store_chars, copied}
use saxon_os.Fs.Ext2.Read.{ext2_read, fill_inode}
use saxon_os.Fs.Ext2.Write.{WriteResult, mark_dirty}
use saxon_os.Fs.Ext2.Write.One.{ext2_write-stored}
use saxon_os.Fs.Ext2.Write.Back.{ext2_read-ext2_write}
use saxon_os.Tests.Ext2.{volume, sectors, hello, inode_data, taken, heap_of, hello-Opened}

abbrev cached : Blocks
cached = record { sector = sectors 0; dirty = λ n. false }

-- The letters "A", "B", "C" and so on.
abbrev letters : ℕ → ℕ
letters i = 65 + i

abbrev wrote : WriteResult
wrote = record {
  result = 3;
  off = 8;
  heap = kfree 32 (record taken { mem = write32 (fill_inode 32 (inode_data 0) taken.mem) 36 3 });
  blocks = mark_dirty 10 (store_chars letters 40 5 3 cached);
}

abbrev again : Heap
again = heap_of (kmalloc 512 128 wrote.heap)

again_call : kmalloc 512 128 wrote.heap ≡ ok (32, again)
unfolding kmalloc kmalloc_alligned alligned_from occupy split kheap_init read32 write32 memset kfree
    kfree_block absorb_prev absorb_next absorb
again_call = refl

ext2_read-ext2_write_example :
    ext2_read wrote.blocks.sector 512 volume hello 3 5 wrote.heap
    ≡ ok (record {
      result = 3;
      stored = copied letters 0 3;
      off = 8;
      heap = kfree 32 (record again { mem = fill_inode 32 (inode_data 0) again.mem });
    })
ext2_read-ext2_write_example =
    ext2_read-ext2_write cached (hello-Opened 0) letters (omega arith) (omega arith) (omega arith)
      (omega arith) (λ e. omega arith) refl wrote
      (ext2_write-stored cached (hello-Opened 0) letters (omega arith) (omega arith) (omega arith)
        (omega arith) (λ e. omega arith) refl)
      again 32 again_call (λ e. omega arith) (λ e. omega arith)
