-- ===== src/Tests/Mm.antt =====
-- Frames and pages: src/mm/frame.c and src/mm/paging.c.
use saxon_os.Prelude.{◌+◌, ◌*◌, refl, arith, ltb, ◌==◌, if◌then◌else◌}
use saxon_os.Mm.Frame.{Frames, kalloc_frame, kfree_frame}
use saxon_os.Mm.Frame.Alloc.{IsMap, Alloc, kalloc_frame-Alloc}
use saxon_os.Mm.Frame.Free.{Freed, kfree_frame-Freed}
use saxon_os.Mm.Boot.Layout.{Booted, boot_memory-Booted}
use saxon_os.Mm.Paging.{Paging, kalloc_page, user_page}
use saxon_os.Mm.Paging.Alloc.{IsPaging, PageAlloc, kalloc_page-PageAlloc}

-- Frames 0 and 2 of 64 are in use.
abbrev two_used : Frames
two_used = record { nframes = 64; frame_map = λ w. if w == 0 then 5 else 0 }

two_used-IsMap : IsMap two_used
two_used-IsMap = record { some_frames = omega arith; fits = omega arith; words = λ w. ground arith }

kalloc_frame-Alloc_example : Alloc two_used (kalloc_frame two_used)
kalloc_frame-Alloc_example = kalloc_frame-Alloc two_used two_used-IsMap

kfree_frame-Freed_example : Freed two_used 2 (kfree_frame (2 * 0x1000 + 7) two_used)
kfree_frame-Freed_example = kfree_frame-Freed two_used two_used-IsMap 2 7 (omega arith)

-- All frames are free, their number is not known yet.
abbrev blank : Frames
blank = record { nframes = 0; frame_map = λ w. 0 }

abbrev blank_paging : Paging
blank_paging = record { frames = blank; pd_entry = λ i. 0; tables = λ a j. 0; next_free_page = 0 }

boot_memory-Booted_example : Booted 0xC0107000 0xC0123456 4096 (λ a. 7) blank_paging
boot_memory-Booted_example =
    boot_memory-Booted 0xC0107000 0xC0123456 4096 (λ a. 7) blank_paging refl (omega arith)
      (omega arith) (λ w. refl) (λ i h. refl) (omega arith) (omega arith) (omega arith)

-- Pages 0 and 1 are present, the table lies behind them.
abbrev two_pages : Paging
two_pages = record {
  frames = two_used;
  pd_entry = λ i. if i == 768 then user_page 0x5000 else 2;
  tables = λ a j. if ltb j 2 then user_page (j * 0x1000) else 2;
  next_free_page = 0xC0002000;
}

two_pages-IsPaging : IsPaging 0xC0005000 2 two_pages
two_pages-IsPaging = record {
  map = two_used-IsMap;
  table_aligned = refl;
  table_low = omega arith;
  table_high = omega arith;
  directory = refl;
  next_page = refl;
  free_low = omega arith;
  not_present = refl;
}

kalloc_page-PageAlloc_example : PageAlloc 0xC0005000 2 two_pages (kalloc_page 0xC0005000 two_pages)
kalloc_page-PageAlloc_example = kalloc_page-PageAlloc 0xC0005000 2 two_pages two_pages-IsPaging
