-- ===== src/Mm/Paging.antt =====
-- src/mm/paging.c: the kernel's page directory and its one page table. Loading the directory into
-- the processor (`loadPageDir`) is an instruction and has no counterpart here.
pub mod Entry
pub mod Alloc
use saxon_os.Prelude.{
  ℕ, zero, suc, ◌+◌, ◌-◌, ◌*◌, ◌/◌, ◌%◌, ◌^◌, ◌>>◌, bit_and, bit_or, u32, ltb, ◌==◌, if◌then◌else◌,
  Outcome, ok, panic, fault, ◌>>=◌, Bool, not, ◌&&◌,
}
use saxon_os.Mm.Frame.{Frames, kalloc_frame, kfree_frame, first_free_frame}
use saxon_os.Common.Words.{sub32}

abbrev pub kernel_virtual_base : ℕ
kernel_virtual_base = 0xC0000000

-- `KERNEL_VIRTUAL_BASE >> 22`
abbrev pub kernel_page_number : ℕ
kernel_page_number = 768

pub record Paging : Type 0 where
  pub frames : Frames
  -- `kernel_page_dir.pd_entry`
  pub pd_entry : ℕ → ℕ
  -- The entries of the page table at a virtual address.
  pub tables : ℕ → ℕ → ℕ
  pub next_free_page : ℕ

abbrev pub set_entry : (ℕ → ℕ → ℕ) → ℕ → ℕ → ℕ → (ℕ → ℕ → ℕ)
set_entry tables a i v b j = if (a == b) && (i == j) then v else tables b j

abbrev pub page_present : ℕ → Bool
page_present entry = not (bit_and entry 0x01 == 0)

-- `(frame | 3 | 4)`: present, writable, for users.
abbrev pub user_page : ℕ → ℕ
user_page frame = bit_or (bit_or frame 3) 4

-- `table` is the address of `first_page_table`, which the linker chooses.
module _ (table : ℕ) where
  unfoldable pub map_image : ℕ → ℕ → (ℕ → ℕ → ℕ) → ℕ → ℕ → ℕ
  map_image zero i tables = tables
  map_image (suc n) i tables =
      map_image n (i + 1) (set_entry tables table i (user_page (i * 0x1000)))

  unfoldable pub init_paging : ℕ → Paging → Outcome Paging
  init_paging end_kernel s =
      let first_free_page = first_free_frame end_kernel in
      if ltb 1024 (first_free_page / 0x1000)
      then fault
      else ok (record {
        frames = s.frames;
        pd_entry = λ i.
            if i == kernel_page_number
            then user_page (sub32 table kernel_virtual_base)
            else if ltb i 1024
            then 0x00000002
            else s.pd_entry i;
        tables = map_image (first_free_page / 0x1000) 0 s.tables;
        next_free_page = u32 (first_free_page + kernel_virtual_base);
      })

  -- The loop of `find_free_page` over the 1024 entries.
  unfoldable pub find_free_page : ℕ → ℕ → (ℕ → ℕ) → Outcome ℕ
  find_free_page zero i pt = panic
  find_free_page (suc left) i pt =
      let rest = find_free_page left (i + 1) pt in
      if page_present (pt i) then rest else ok (u32 (i * 0x1000 + kernel_virtual_base))

  -- What `kalloc_page` does once it has a frame.
  unfoldable pub page_for : Paging → ℕ × Frames → Outcome (ℕ × Paging)
  page_for s (frame, frames) =
      let index = sub32 s.next_free_page kernel_virtual_base / 0x1000 in
      if ltb index 1024
      then (let tables = set_entry s.tables table index (user_page frame) in
          find_free_page 1024 0 (tables table) >>= λ free.
          ok (
            s.next_free_page,
            record s { frames = frames; tables = tables; next_free_page = free },
          ))
      else fault

  unfoldable pub kalloc_page : Paging → Outcome (ℕ × Paging)
  kalloc_page s = kalloc_frame s.frames >>= page_for s

-- The address of the page table that a directory entry points to.
abbrev pub table_of : ℕ → ℕ
table_of entry = u32 (bit_and entry 0xFFFFF000 + kernel_virtual_base)

-- `virtual_addr >> 12 & 0x03FF`
abbrev pub pt_index : ℕ → ℕ
pt_index virtual_addr = bit_and (virtual_addr >> 12) 0x03FF

unfoldable pub get_phys_addr : ℕ → Paging → Outcome ℕ
get_phys_addr virtual_addr s =
    let entry = s.pd_entry (virtual_addr >> 22) in
    let page = s.tables (table_of entry) (pt_index virtual_addr) in
    if page_present entry
    then (if page_present page
        then ok (u32 (bit_and page 0xFFFFF000 + bit_and virtual_addr 0xFFF))
        else panic)
    else panic

unfoldable pub kfree_page : ℕ → Paging → Outcome Paging
kfree_page virtual_addr s = get_phys_addr virtual_addr s >>= λ phys_addr.
    kfree_frame phys_addr s.frames >>= λ frames. ok (record s {
      frames = frames;
      tables =
          set_entry s.tables (table_of (s.pd_entry (virtual_addr >> 22))) (pt_index virtual_addr) 0;
      next_free_page = virtual_addr;
    })

-- `memset` of a page table's 4096 bytes.
abbrev pub clear_table : (ℕ → ℕ → ℕ) → ℕ → (ℕ → ℕ → ℕ)
clear_table tables a b j = if (a == b) && ltb j 1024 then 0 else tables b j

pub alloc_page_table : (virtual_addr flags : ℕ) → Paging → Outcome (ℕ × Paging)
alloc_page_table virtual_addr flags s =
    if s.pd_entry (virtual_addr >> 22) == 0
    then (kalloc_frame s.frames >>= λ r. ok (
      virtual_addr,
      record s {
        frames = r.1;
        pd_entry = λ i. if i == virtual_addr >> 22 then bit_or r.0 flags else s.pd_entry i;
        tables = clear_table s.tables (bit_or r.0 kernel_virtual_base);
      },
    ))
    else ok (virtual_addr, s)
