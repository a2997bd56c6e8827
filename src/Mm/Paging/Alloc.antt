-- ===== src/Mm/Paging/Alloc.antt =====
-- `kalloc_page` maps a new frame at the free page.
use saxon_os.Prelude.{
  ℕ, ◌+◌, ◌-◌, ◌*◌, ◌/◌, ◌%◌, ◌^◌, ◌≤◌, ◌<◌, ◌≡◌, ◌≢◌, ◌⊎◌, refl, ap, sym, subst, ◌∙◌, arith, true,
  false, ◌>>◌, ltb, bit_and_mask, u32, Outcome, ok, panic, ◌>>=◌,
}
use saxon_os.Mm.Frame.{Frames, map_words}
use saxon_os.Mm.Frame.Alloc.{IsMap, IsOpen, Alloc, allocated, exhausted, Marked, kalloc_frame-Alloc}
use saxon_os.Mm.Paging.{
  Paging, kernel_virtual_base, kernel_page_number, page_present, user_page, table_of, pt_index,
  set_entry, sub32, page_for, kalloc_page, get_phys_addr,
}
use saxon_os.Mm.Paging.Entry.{
  user_page-frame, page_present-odd, frame_of, pt_index_lem, page_addr, FreePage, free_page,
  all_present, find_free_page-FreePage,
}

-- The kernel's page table lies on a page of its own above the base, the directory points to it,
-- and the next free page is page `free` of the table, which is not present.
pub record IsPaging (table free : ℕ) (s : Paging) : Type 0 where
  pub map : IsMap s.frames
  pub table_aligned : table % 0x1000 ≡ 0
  pub table_low : kernel_virtual_base ≤ table
  pub table_high : table < 2 ^ 32
  pub directory : s.pd_entry kernel_page_number ≡ user_page (table - kernel_virtual_base)
  pub next_page : s.next_free_page ≡ page_addr free
  pub free_low : free < 1024
  pub not_present : page_present (s.tables table free) ≡ false

-- Frame `n` is mapped at page `free`, and all else is as it was.
pub record Mapped (table free n : ℕ) (s s' : Paging) : Type 0 where
  pub new_frame : Marked s.frames s'.frames n
  pub translation :
      (off : ℕ) → off < 0x1000 → get_phys_addr (page_addr free + off) s' ≡ ok (n * 0x1000 + off)
  pub others : (a j : ℕ) → (a ≢ table) ⊎ (j ≢ free) → s'.tables a j ≡ s.tables a j
  pub next_free : ℕ
  pub valid : IsPaging table next_free s'

-- What `kalloc_page` ends in.
pub data PageAlloc (table free : ℕ) (s : Paging) : Outcome (ℕ × Paging) → Type 0 where
  mapped :
      {s' : Paging} (n : ℕ)
      → Mapped table free n s s'
      → PageAlloc table free s (ok (page_addr free, s'))
  out_of_frames :
      ((j : ℕ) → j < s.frames.nframes → ¬ IsOpen s.frames j) → PageAlloc table free s panic
  out_of_pages :
      {entries : ℕ → ℕ}
      → ((k : ℕ) → k ≢ free → entries k ≡ s.tables table k)
      → ((k : ℕ) → k < 1024 → page_present (entries k) ≡ true)
      → PageAlloc table free s panic

-- A translation through entries that are present.
pub get_phys_addr-mapped :
    (va : ℕ) (s : Paging) {e p : ℕ}
    → s.pd_entry (va >> 22) ≡ e
    → page_present e ≡ true
    → s.tables (table_of e) (pt_index va) ≡ p
    → page_present p ≡ true
    → p < 2 ^ 32
    → get_phys_addr va s ≡ ok (u32 (p / 0x1000 * 0x1000 + va % 0x1000))
unfolding get_phys_addr
get_phys_addr-mapped va s {p} he pe hp pp small =
    rw (he, pe, hp, pp, frame_of p small, bit_and_mask 12 va) refl

module _ (table free : ℕ) (s : Paging) (v : IsPaging table free s) where
  pub directory_entry : s.pd_entry kernel_page_number ≡ table - kernel_virtual_base + 7
  directory_entry =
      let pages : table - kernel_virtual_base ≡ (table - kernel_virtual_base) / 0x1000 * 0x1000 =
        omega (arith, v.table_aligned, v.table_low) in
      v.directory
      ∙ ap user_page pages
      ∙ user_page-frame ((table - kernel_virtual_base) / 0x1000)
      ∙ omega (arith, v.table_aligned)

  pub table_of_directory : table_of (s.pd_entry kernel_page_number) ≡ table
  table_of_directory =
      rw
        (
          directory_entry,
          frame_of (table - kernel_virtual_base + 7) (omega (arith, v.table_high, v.table_low)),
        )
        (omega (arith, v.table_aligned, v.table_low, v.table_high))

  pub index : sub32 s.next_free_page kernel_virtual_base / 0x1000 ≡ free
  index = rw v.next_page (omega (arith, v.free_low))

  module _ (n : ℕ) (f : Frames) (marked : Marked s.frames f n) where
    after : ℕ → Paging
    after next = record {
      frames = f;
      pd_entry = s.pd_entry;
      tables = set_entry s.tables table free (user_page (n * 0x1000));
      next_free_page = page_addr next;
    }

    small_frame : n < map_words * 32
    small_frame = omega (arith, v.map.fits, marked.in_range)

    translated :
        (next off : ℕ)
        → off < 0x1000
        → get_phys_addr (page_addr free + off) (after next) ≡ ok (n * 0x1000 + off)
    unfolding after
    translated next off h =
        get_phys_addr-mapped (page_addr free + off) (after next) directory_here present_directory
          page_here present_page (omega (arith, small_frame))
        ∙ ap ok (omega (arith, small_frame))
      where
        directory_here : s.pd_entry ((page_addr free + off) >> 22) ≡ table - kernel_virtual_base + 7
        directory_here =
            let number : (page_addr free + off) >> 22 ≡ kernel_page_number =
              omega (arith, v.free_low) in
            ap s.pd_entry number ∙ directory_entry

        present_directory : page_present (table - kernel_virtual_base + 7) ≡ true
        present_directory = page_present-odd _ ∙ ground (arith, v.table_aligned, v.table_low)

        page_here :
            set_entry s.tables table free
              (user_page (n * 0x1000))
              (table_of (table - kernel_virtual_base + 7))
              (pt_index (page_addr free + off))
            ≡ n * 0x1000 + 7
        page_here =
            let same_table : table_of (table - kernel_virtual_base + 7) ≡ table =
              sym (ap table_of directory_entry) ∙ table_of_directory in
            let same_index : pt_index (page_addr free + off) ≡ free =
              pt_index_lem _ ∙ omega (arith, v.free_low) in
            rw (same_table, same_index, user_page-frame n) (ground arith)

        present_page : page_present (n * 0x1000 + 7) ≡ true
        present_page = page_present-odd _ ∙ ground arith

    after-Mapped :
        (next : ℕ)
        → next < 1024
        → page_present (set_entry s.tables table free (user_page (n * 0x1000)) table next) ≡ false
        → Mapped table free n s (after next)
    unfolding after
    after-Mapped next low absent = record {
      new_frame = marked;
      translation = translated next;
      others = λ a j d. ground arith;
      next_free = next;
      valid = record {
        map = marked.IsMap-new;
        table_aligned = v.table_aligned;
        table_low = v.table_low;
        table_high = v.table_high;
        directory = v.directory;
        next_page = refl;
        free_low = low;
        not_present = absent;
      };
    }

    PageAlloc-search :
        {r : Outcome ℕ}
        → FreePage (set_entry s.tables table free (user_page (n * 0x1000)) table) 0 r
        → PageAlloc table free s (
            r >>= λ next. ok (
              s.next_free_page,
              record s {
                frames = f;
                tables = set_entry s.tables table free (user_page (n * 0x1000));
                next_free_page = next;
              },
            ))
    unfolding after
    PageAlloc-search (free_page j p q absent rest) =
        subst (λ page. PageAlloc table free s (ok (page, after j))) (sym v.next_page)
          (mapped n (after-Mapped j q absent))
    PageAlloc-search (all_present rest) =
        out_of_pages (λ k ne. ground arith) (λ k p. rest k (omega arith) p)

  PageAlloc-frame :
      {r : Outcome (ℕ × Frames)}
      → Alloc s.frames r
      → PageAlloc table free s (r >>= page_for table s)
  unfolding page_for
  PageAlloc-frame (allocated n marked) =
      let low : ltb free 1024 ≡ true = ground (arith, v.free_low) in
      rw (index, low) (PageAlloc-search n _ marked (find_free_page-FreePage _ table 1024 0 refl))
  PageAlloc-frame (exhausted taken) = out_of_frames taken

  -- With a page table that has a free page, `kalloc_page` panics only if no frame has the marks of
  -- its word from its own upwards clear, or if every other page is present too. Otherwise it
  -- returns the address of that page; a frame that was free is marked as used, and no other frame's
  -- mark changes; every address in the page translates to the address at the same offset in that
  -- frame; no other entry of a page table changes; and the allocator has found its next free page.
  pub kalloc_page-PageAlloc : PageAlloc table free s (kalloc_page table s)
  unfolding kalloc_page
  kalloc_page-PageAlloc = PageAlloc-frame (kalloc_frame-Alloc s.frames v.map)
