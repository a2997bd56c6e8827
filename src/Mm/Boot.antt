-- ===== src/Mm/Boot.antt =====
-- The part of `kernel_main` in src/kernel.c that sets up the memory: the map of frames, paging, and
-- the heap on fifteen new pages.
pub mod Pages
pub mod Layout
use saxon_os.Prelude.{ℕ, zero, suc, ◌+◌, u32, Outcome, ok, ◌>>=◌}
use saxon_os.Common.Memory.{Memory}
use saxon_os.Mm.Frame.{init_frames}
use saxon_os.Mm.Paging.{Paging, init_paging, kalloc_page}
use saxon_os.Mm.Heap.{Heap, kheap_init}

-- `table` is the address of the kernel's page table.
module _ (table : ℕ) where
  -- Calls of `kalloc_page` whose result is not used.
  unfoldable pub kalloc_pages : ℕ → Paging → Outcome Paging
  kalloc_pages zero s = ok s
  kalloc_pages (suc n) s = kalloc_page table s >>= λ r. kalloc_pages n r.1

  unfoldable pub boot_memory :
      (end_kernel memupper_size : ℕ) → Memory → Paging → Outcome (Heap × Paging)
  boot_memory end_kernel memupper_size m s =
      init_frames end_kernel memupper_size s.frames >>= λ frames.
      init_paging table end_kernel (record s { frames = frames }) >>= λ paging.
      kalloc_page table paging >>= λ r.
      kalloc_pages 14 r.1 >>= λ paged. ok (kheap_init r.0 (u32 (r.0 + 0xF000)) m, paged)
