-- ===== src/Terminal/Scroll.antt =====
-- The loops of the scrolling: what each cell holds afterwards.
use saxon_os.Prelude.{
  ℕ, zero, suc, ◌+◌, ◌-◌, ◌*◌, ◌≤◌, ◌<◌, ◌≡◌, refl, arith, ltb, leb, ◌==◌, ◌&&◌, if◌then◌else◌,
  true,
}
use saxon_os.Terminal.{Terminal, vga_width, vga_height, store, fill, copy_row, copy_rows, scroll}

-- The cells below `k` hold what stood one row further down.
abbrev Shifted : ℕ → (ℕ → ℕ) → (ℕ → ℕ) → Type 0
Shifted k before after = (i : ℕ) → after i ≡ (if ltb i k then before (i + 80) else before i)

pub fill_lem :
    (n i v : ℕ) (b : ℕ → ℕ) (j : ℕ) → fill n i v b j ≡ (if leb i j && ltb j (i + n) then v else b j)
unfolding fill
fill_lem zero i v b j = ground arith
fill_lem (suc n) i v b j = ground (arith, fill_lem n (i + 1) v (store b i v) j)

module _ (before : ℕ → ℕ) where
  -- The first cell of a row may have been written already, as the cell behind the row above.
  copy_row-first :
      (k i : ℕ) (b : ℕ → ℕ)
      → i ≤ k
      → k ≤ i + 1
      → Shifted k before b
      → Shifted (i + 1) before (store b i (b (i + vga_width)))
  copy_row-first k i b p q h j = ground (arith, h (i + 80), h j)

  copy_row-Shifted :
      (n i k : ℕ) (b : ℕ → ℕ) → i + n ≡ k → Shifted i before b → Shifted k before (copy_row n i b)
  unfolding copy_row
  copy_row-Shifted zero i k b e h j = let same : k ≡ i = omega arith in rw same (h j)
  copy_row-Shifted (suc n) i k b e h j =
      copy_row-Shifted n (i + 1) k _ (omega arith)
        (copy_row-first i i b (omega arith) (omega arith) h) j

  row_from :
      (k i : ℕ) (b : ℕ → ℕ)
      → i ≤ k
      → k ≤ i + 1
      → Shifted k before b
      → Shifted (i + 81) before (copy_row 81 i b)
  unfolding copy_row
  row_from k i b p q h =
      copy_row-Shifted 80 (i + 1) (i + 81) _ (omega arith) (copy_row-first k i b p q h)

  copy_rows-Shifted :
      (n y k : ℕ) (b : ℕ → ℕ)
      → y * 80 ≤ k
      → k ≤ y * 80 + 1
      → 0 < n
      → Shifted k before b
      → Shifted ((y + n) * 80 + 1) before (copy_rows n y b)
  unfolding copy_rows
  copy_rows-Shifted zero y k b p q pos h j = absurd (omega arith)
  copy_rows-Shifted (suc zero) y k b p q pos h j =
      let e : (y + 1) * 80 + 1 ≡ y * 80 + 81 = omega arith in rw e (row_from k (y * 80) b p q h j)
  copy_rows-Shifted (suc (suc n)) y k b p q pos h j =
      let e : (y + suc (suc n)) * 80 + 1 ≡ (y + 1 + suc n) * 80 + 1 = omega arith in
      rw e (
        copy_rows-Shifted (suc n) (y + 1) (y * 80 + 81) _ (omega arith) (omega arith) (omega arith)
          (row_from k (y * 80) b p q h) j)

-- When the cursor has left the last row, scrolling moves every row up by one, blanks the last row,
-- and sets the cursor to its start. It also blanks cell 2000, the first one behind the screen, and
-- changes no other.
pub scroll_lem :
    (t : Terminal)
    → t.row ≡ vga_height
    → ((scroll t).row ≡ vga_height - 1)
      × ((scroll t).column ≡ 0)
      × ((i : ℕ)
          → (scroll t).buffer i
            ≡ (if ltb i 1920 then t.buffer (i + 80) else if ltb i 2001 then 0 else t.buffer i))
unfolding scroll
scroll_lem t e =
    let left : (t.row == vga_height) ≡ true = ground arith in
    let moved = copy_rows-Shifted t.buffer 24 0 0 t.buffer in
    (
      rw left (omega arith),
      rw left refl,
      λ i.
          rw (left, fill_lem)
            (ground (arith, moved (omega arith) (omega arith) (omega arith) (λ j. ground arith) i)),
    )
