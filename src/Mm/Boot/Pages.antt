-- ===== src/Mm/Boot/Pages.antt =====
-- The pages after the boot: page `i` is frame `i`, and those in use are the first ones.
use saxon_os.Prelude.{
  ℕ, zero, suc, ◌+◌, ◌-◌, ◌*◌, ◌/◌, ◌%◌, ◌^◌, ◌≤◌, ◌<◌, ◌≡◌, ◌∙◌, refl, ap, arith, ◌==◌, ◌&&◌, ◌>>◌,
  ltb, leb, true, false, if◌then◌else◌, Bool-cases, inl, inr, min, Outcome, u32, ok, two_pow_le,
}
use saxon_os.Mm.Frame.{mark, first_free_frame}
use saxon_os.Mm.Frame.Boot.{
  IsPrefix, kernel_frames, first_free_frame-kernel_frames, kalloc_frame-prefix,
}
use saxon_os.Mm.Paging.{
  Paging, kernel_virtual_base, kernel_page_number, page_present, user_page, pt_index, set_entry,
  map_image, init_paging, find_free_page, page_for, kalloc_page, get_phys_addr,
}
use saxon_os.Mm.Paging.Entry.{
  user_page-frame, page_present-odd, pt_index_lem, page_addr, find_free_page-FreePage, FreePage,
  free_page, all_present,
}
use saxon_os.Mm.Paging.Alloc.{
  IsPaging, directory_entry, table_of_directory, index, get_phys_addr-mapped,
}
use saxon_os.Common.Words.{sub32}

-- The first `n` of `total` frames are in use, and page `i` of the kernel's table is frame `i` for
-- `i` below `n`; no other page is present, and page `n` is the next one.
pub record IsImage (table total n : ℕ) (s : Paging) : Type 0 where
  pub prefix : IsPrefix total n s.frames
  pub directory : s.pd_entry kernel_page_number ≡ user_page (table - kernel_virtual_base)
  pub present : (i : ℕ) → i < n → s.tables table i ≡ user_page (i * 0x1000)
  pub absent : (i : ℕ) → n ≤ i → i < 1024 → page_present (s.tables table i) ≡ false
  pub next_page : s.next_free_page ≡ page_addr n

present_page : (i : ℕ) → page_present (user_page (i * 0x1000)) ≡ true
present_page i = ap page_present (user_page-frame i) ∙ (page_present-odd _ ∙ ground arith)

-- The search finds entry `j` if it is the first that is not present.
FreePage-first :
    {pt : ℕ → ℕ}
    → {r : Outcome ℕ} → FreePage pt 0 r
    → (j : ℕ) → j < 1024
    → ((i : ℕ) → i < j → page_present (pt i) ≡ true)
    → page_present (pt j) ≡ false
    → r ≡ ok (page_addr j)
FreePage-first (free_page k p q absent rest) j few before here = elim (Bool-cases (k == j)) [
  | inl same ↦ let e : k ≡ j = ground arith in rw e refl
  | inr other ↦ elim (Bool-cases (ltb k j)) [
    | inl below ↦ let clash = before k (ground arith) in ground arith
    | inr above ↦ let clash = rest j (omega arith) (ground arith) in ground arith
  ]
]
FreePage-first (all_present rest) j few before here =
    let clash = rest j (omega arith) few in ground arith

module _ (table total : ℕ) where
  map_image_lem :
      (n i : ℕ) (tables : ℕ → ℕ → ℕ) (j : ℕ)
      → map_image table n i tables table j
        ≡ (if leb i j && ltb j (i + n) then user_page (j * 0x1000) else tables table j)
  unfolding map_image
  map_image_lem zero i tables j = ground arith
  map_image_lem (suc n) i tables j =
      map_image_lem n (i + 1) (set_entry tables table i (user_page (i * 0x1000))) j
      ∙ elim (Bool-cases (i == j)) [
        | inl here ↦ let e : i ≡ j = ground arith in rw e (ground arith)
        | inr other ↦ ground arith
      ]

  pub init_paging-IsImage :
      (end_kernel : ℕ) (s : Paging)
      → kernel_frames end_kernel < 1024
      → IsPrefix total (kernel_frames end_kernel) s.frames
      → ((i : ℕ) → i < 1024 → s.tables table i ≡ 0)
      → kernel_virtual_base ≤ table
      → table < 2 ^ 32
      → (s' : Paging) × (init_paging table end_kernel s ≡ ok s')
        × IsImage table total (kernel_frames end_kernel) s'
  unfolding init_paging
  init_paging-IsImage end_kernel s few p blank low high = (
    started,
    rw (image, pages, small) refl,
    record {
      prefix = p;
      directory = ap user_page (omega (arith, low, high));
      present = λ i h. map_image_lem (kernel_frames end_kernel) 0 s.tables i ∙ ground arith;
      absent = λ i h few'.
          let entry : map_image table (kernel_frames end_kernel) 0 s.tables table i ≡ 0 =
            map_image_lem (kernel_frames end_kernel) 0 s.tables i ∙ ground (arith, blank i few') in
          ap page_present entry;
      next_page = omega (arith, few);
    },
  )
    where
      started : Paging
      started = record {
        frames = s.frames;
        pd_entry = λ i.
            if i == kernel_page_number
            then user_page (sub32 table kernel_virtual_base)
            else if ltb i 1024
            then 0x00000002
            else s.pd_entry i;
        tables = map_image table (kernel_frames end_kernel) 0 s.tables;
        next_free_page = u32 (kernel_frames end_kernel * 0x1000 + kernel_virtual_base);
      }

      image : first_free_frame end_kernel ≡ kernel_frames end_kernel * 0x1000
      image = first_free_frame-kernel_frames end_kernel

      pages : kernel_frames end_kernel * 0x1000 / 0x1000 ≡ kernel_frames end_kernel
      pages = omega arith

      small : ltb 1024 (kernel_frames end_kernel) ≡ false
      small = ground arith

  module _ (aligned : table % 0x1000 ≡ 0) (low : kernel_virtual_base ≤ table)
      (high : table < 2 ^ 32) (n : ℕ) (s : Paging) (v : IsImage table total n s)
      (some_frames : 0 < total) where
    image-IsPaging : n < 1024 → IsPaging table n s
    image-IsPaging few = record {
      map = record {
        some_frames = omega (arith, v.prefix.total_frames);
        fits = v.prefix.fits;
        words = λ w.
            rw (v.prefix.words w)
              (omega (arith, two_pow_le (min (n - 32 * w) 32) 32 (omega arith)));
      };
      table_aligned = aligned;
      table_low = low;
      table_high = high;
      directory = v.directory;
      next_page = v.next_page;
      free_low = few;
      not_present = v.absent n (omega arith) few;
    }

    abbrev after : ℕ → ℕ
    after = set_entry s.tables table n (user_page (n * 0x1000)) table

    present_after : (i : ℕ) → i < n + 1 → after i ≡ user_page (i * 0x1000)
    present_after i h = elim (Bool-cases (n == i)) [
      | inl here ↦ let e : n ≡ i = ground arith in rw e (ground arith)
      | inr other ↦ ground (arith, v.present i (ground arith))
    ]

    absent_after : (i : ℕ) → n + 1 ≤ i → i < 1024 → page_present (after i) ≡ false
    absent_after i h few =
        let other : after i ≡ s.tables table i = ground arith in
        ap page_present other ∙ v.absent i (omega arith) few

    pub kalloc_page-IsImage :
        n < total
        → n + 1 < 1024
        → (s' : Paging) × (kalloc_page table s ≡ ok (page_addr n, s'))
          × IsImage table total (n + 1) s'
    unfolding kalloc_page page_for
    kalloc_page-IsImage room few =
        let (called, p) = kalloc_frame-prefix total n s.frames v.prefix room in
        let here = index table n s (image-IsPaging (omega arith)) in
        let low_index : ltb n 1024 ≡ true = ground arith in
        (
          mapped_image,
          rw (called, here, low_index, found) (ap (λ a. ok (a, mapped_image)) v.next_page),
          record {
            prefix = p;
            directory = v.directory;
            present = present_after;
            absent = absent_after;
            next_page = refl;
          },
        )
      where
        mapped_image : Paging
        mapped_image = record {
          frames = mark s.frames n;
          pd_entry = s.pd_entry;
          tables = set_entry s.tables table n (user_page (n * 0x1000));
          next_free_page = page_addr (n + 1);
        }

        found :
            find_free_page table 1024 0 (set_entry s.tables table n (user_page (n * 0x1000)) table)
            ≡ ok (page_addr (n + 1))
        found =
            FreePage-first (find_free_page-FreePage _ table 1024 0 refl) (n + 1) few
              (λ i h. ap page_present (present_after i h) ∙ present_page i)
              (absent_after (n + 1) (omega arith) few)

    -- Every address in the first pages translates to the one as far above zero.
    pub IsImage-get_phys_addr :
        n < 1024 → (a : ℕ) → a < n * 0x1000 → get_phys_addr (kernel_virtual_base + a) s ≡ ok a
    IsImage-get_phys_addr few a h =
        let v' = image-IsPaging few in
        let entry = user_page-frame (a / 0x1000) in
        let number : (kernel_virtual_base + a) >> 22 ≡ kernel_page_number = omega arith in
        let page : pt_index (kernel_virtual_base + a) ≡ a / 0x1000 = pt_index_lem _ ∙ omega arith in
        let same_table = table_of_directory table n s v' in
        get_phys_addr-mapped (kernel_virtual_base + a) s (ap s.pd_entry number)
          (ap page_present (directory_entry table n s v')
            ∙ (page_present-odd _ ∙ ground (arith, aligned, low)))
          (rw (same_table, page) (v.present (a / 0x1000) (omega arith))) (present_page (a / 0x1000))
          (rw entry (omega arith))
        ∙ ap ok (rw entry (omega arith))
