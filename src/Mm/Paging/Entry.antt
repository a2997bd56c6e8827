-- ===== src/Mm/Paging/Entry.antt =====
-- Entries of a page table: a frame's address with flags, and the search for one that is not
-- present.
use saxon_os.Prelude.{
  ℕ, zero, suc, ◌+◌, ◌*◌, ◌/◌, ◌%◌, ◌^◌, ◌≤◌, ◌<◌, ◌≡◌, arith, true, false, ◌==◌, bit_and, bit_or,
  bit_or_step, bit_or_high, bit_and_high, bit_and_mask, u32, Outcome, ok, panic, Bool-cases, inl,
  inr,
}
use saxon_os.Mm.Paging.{kernel_virtual_base, page_present, user_page, pt_index, find_free_page}

pub user_page-frame : (n : ℕ) → user_page (n * 0x1000) ≡ n * 0x1000 + 7
user_page-frame n =
    rw (bit_or_high 12 n 3 (omega arith))
      (omega (arith, bit_or_step (n * 2 ^ 12 + 3) 4, bit_or_step ((n * 2 ^ 12 + 3) / 2) 2, last))
  where
    last : bit_or ((n * 2 ^ 12 + 3) / 2 / 2) 1 ≡ n * 2 ^ 10 + 1
    last =
        let quarter : (n * 2 ^ 12 + 3) / 2 / 2 ≡ n * 2 ^ 10 = omega arith in
        rw quarter (bit_or_high 10 n 1 (omega arith))

pub page_present-odd : (e : ℕ) → page_present e ≡ (e % 2 == 1)
page_present-odd e = rw (bit_and_mask 1 e) (ground arith)

pub frame_of : (e : ℕ) → e < 2 ^ 32 → bit_and e 0xFFFFF000 ≡ e / 0x1000 * 0x1000
frame_of e h = omega (arith, bit_and_high 12 e 0xFFFFF, bit_and_mask 20 (e / 2 ^ 12))

pub pt_index_lem : (va : ℕ) → pt_index va ≡ va / 0x1000 % 0x400
pt_index_lem va = bit_and_mask 10 (va / 2 ^ 12)

-- The virtual address of page `i` of the kernel's 4 MB.
abbrev pub page_addr : ℕ → ℕ
page_addr i = kernel_virtual_base + i * 0x1000

-- The first entry from `i` on that is not present, or none.
pub data FreePage (pt : ℕ → ℕ) (i : ℕ) : Outcome ℕ → Type 0 where
  free_page :
      (j : ℕ)
      → i ≤ j
      → j < 1024
      → page_present (pt j) ≡ false
      → ((k : ℕ) → i ≤ k → k < j → page_present (pt k) ≡ true)
      → FreePage pt i (ok (page_addr j))
  all_present : ((k : ℕ) → i ≤ k → k < 1024 → page_present (pt k) ≡ true) → FreePage pt i panic

module _ (pt : ℕ → ℕ) where
  present_from :
      (i n : ℕ)
      → page_present (pt i) ≡ true
      → ((k : ℕ) → i + 1 ≤ k → k < n → page_present (pt k) ≡ true)
      → (k : ℕ) → i ≤ k
      → k < n
      → page_present (pt k) ≡ true
  present_from i n here rest k p q = elim (Bool-cases (i == k)) [
    | inl same ↦ let e : k ≡ i = ground arith in rw e here
    | inr other ↦ rest k (ground arith) q
  ]

  FreePage-weaken :
      (i : ℕ) {r : Outcome ℕ} → page_present (pt i) ≡ true → FreePage pt (i + 1) r → FreePage pt i r
  FreePage-weaken i here (free_page j p q f rest) =
      free_page j (omega arith) q f (present_from i j here rest)
  FreePage-weaken i here (all_present rest) = all_present (present_from i 1024 here rest)

  -- The search of `find_free_page`, from entry `i` with `left` entries to go.
  pub find_free_page-FreePage :
      (table left i : ℕ) → i + left ≡ 1024 → FreePage pt i (find_free_page table left i pt)
  unfolding find_free_page
  find_free_page-FreePage table zero i e = all_present (λ k p q. absurd (omega arith))
  find_free_page-FreePage table (suc left) i e = elim (Bool-cases (page_present (pt i))) [
    | inl here ↦
        rw here (FreePage-weaken i here (find_free_page-FreePage table left (i + 1) (omega arith)))
    | inr free ↦
        let address : u32 (i * 0x1000 + kernel_virtual_base) ≡ page_addr i = omega arith in
        rw (free, address)
          (free_page i (omega arith) (omega arith) free (λ k p q. absurd (omega arith)))
  ]
