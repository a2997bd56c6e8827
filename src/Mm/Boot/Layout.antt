-- ===== src/Mm/Boot/Layout.antt =====
-- The heap of the boot lies on fifteen pages that are mapped one behind the other.
use saxon_os.Prelude.{
  ℕ, zero, suc, ◌+◌, ◌*◌, ◌/◌, ◌%◌, ◌^◌, ◌≤◌, ◌<◌, ◌≡◌, refl, arith, u32, ok, none,
}
use saxon_os.Common.Memory.{Memory}
use saxon_os.Mm.Frame.{map_words}
use saxon_os.Mm.Frame.Boot.{kernel_frames, init_frames-kalloc_frame}
use saxon_os.Mm.Paging.{Paging, kernel_virtual_base, get_phys_addr}
use saxon_os.Mm.Paging.Entry.{page_addr}
use saxon_os.Mm.Heap.{kheap_init}
use saxon_os.Mm.Heap.Run.{Run, booted}
use saxon_os.Mm.Boot.{kalloc_pages, boot_memory}
use saxon_os.Mm.Boot.Pages.{
  IsImage, init_paging-IsImage, kalloc_page-IsImage, IsImage-get_phys_addr,
}

module _ (table total : ℕ) (aligned : table % 0x1000 ≡ 0) (low : kernel_virtual_base ≤ table)
    (high : table < 2 ^ 32) where
  kalloc_pages-IsImage :
      (k n j : ℕ) (s : Paging)
      → IsImage table total n s
      → n + k ≡ j
      → j ≤ total
      → j < 1024
      → (s' : Paging) × (kalloc_pages table k s ≡ ok s') × IsImage table total j s'
  unfolding kalloc_pages
  kalloc_pages-IsImage zero n j s v e room few =
      (s, refl, let same : j ≡ n = omega arith in rw same v)
  kalloc_pages-IsImage (suc k) n j s v e room few =
      let (s', called, v') =
        kalloc_page-IsImage table total aligned low high n s v (omega arith) (omega arith)
          (omega arith) in
      let (s'', ran, v'') = kalloc_pages-IsImage k (n + 1) j s' v' (omega arith) room few in
      (s'', rw called ran, v'')

-- What the memory is after the boot: the image and fifteen pages behind it are mapped, frame by
-- frame, and the heap is a new one on those pages.
abbrev pub Booted : (table end_kernel memupper_size : ℕ) → Memory → Paging → Type 0
Booted table end_kernel memupper_size m s =
    let n = kernel_frames end_kernel in
    (paged : Paging) × (boot_memory table end_kernel memupper_size m s
      ≡ ok (kheap_init (page_addr n) (page_addr (n + 15)) m, paged))
    × IsImage table (memupper_size / 4) (n + 15) paged
    × Run (kheap_init (page_addr n) (page_addr (n + 15)) m) (λ p. none)
    × ((a : ℕ) → a < (n + 15) * 0x1000 → get_phys_addr (kernel_virtual_base + a) paged ≡ ok a)

-- With a page table that lies on a page of its own above the base, a frame map and a table that are
-- zero, frames for the kernel's image and fifteen pages more, as many frames at most as the map has
-- bits, and a table of more entries than that, the boot succeeds. It leaves exactly the frames of
-- the image and fifteen more in use; page `i` of the table is frame `i` for each of them, and no
-- other page is present. Every address in them translates to the one that lies the base lower. The
-- heap is a new one that spans the fifteen pages behind the image, and starts a run.
pub boot_memory-Booted :
    (table end_kernel memupper_size : ℕ) (m : Memory) (s : Paging)
    → table % 0x1000 ≡ 0
    → kernel_virtual_base ≤ table
    → table < 2 ^ 32
    → ((w : ℕ) → s.frames.frame_map w ≡ 0)
    → ((i : ℕ) → i < 1024 → s.tables table i ≡ 0)
    → kernel_frames end_kernel + 15 < 1024
    → kernel_frames end_kernel + 15 ≤ memupper_size / 4
    → memupper_size / 4 ≤ map_words * 32
    → Booted table end_kernel memupper_size m s
unfolding boot_memory
boot_memory-Booted table end_kernel memupper_size m s aligned low high blank empty few room fits =
    let n = kernel_frames end_kernel in
    let total = memupper_size / 4 in
    let (frames, _, framed, prefix, _, _) =
      init_frames-kalloc_frame end_kernel memupper_size s.frames blank (omega arith) fits in
    let (s0, started, v0) =
      init_paging-IsImage table total end_kernel (record s { frames = frames }) (omega arith) prefix
        empty low high in
    let (s1, first, v1) =
      kalloc_page-IsImage table total aligned low high n s0 v0 (omega arith) (omega arith)
        (omega arith) in
    let (s2, others, v2) =
      kalloc_pages-IsImage table total aligned low high 14 (n + 1) (n + 15) s1 v1 (omega arith) room
        few in
    let end : u32 (page_addr n + 0xF000) ≡ page_addr (n + 15) = omega arith in
    (
      s2,
      rw (framed, started, first, others, end) refl,
      v2,
      booted (page_addr n) (page_addr (n + 15)) m (omega arith) (omega arith) (omega arith)
          (omega arith),
      IsImage-get_phys_addr table total aligned low high (n + 15) s2 v2 (omega arith) few,
    )
