-- ===== src/Terminal/Cursor.antt =====
-- The cursor stays on the screen, and the terminal writes nowhere else.
use saxon_os.Prelude.{ℕ, ◌≤◌, ◌<◌, ◌≡◌, refl, ◌∙◌, arith, List, [], ◌∷◌, ◌==◌, Bool-cases, inl, inr}
use saxon_os.Terminal.{
  Terminal, vga_width, vga_height, put, scroll, terminal_putentryat, terminal_putchar,
  terminal_write,
}
use saxon_os.Terminal.Scroll.{scroll_lem}

pub record IsCursor (t : Terminal) : Type 0 where
  pub row_on_screen : t.row < vga_height
  pub column_on_screen : t.column < vga_width

-- The video memory behind cell 2000 is as it was.
abbrev pub SameBehind : Terminal → Terminal → Type 0
SameBehind t u = (i : ℕ) → 2001 ≤ i → u.buffer i ≡ t.buffer i

-- Before the scrolling the cursor may have left the last row, at its first column.
record Put (t u : Terminal) : Type 0 where
  row_near : u.row ≤ vga_height
  column_on_screen : u.column < vga_width
  same : SameBehind t u

put-Put : (c : ℕ) (t : Terminal) → IsCursor t → Put t (put c t)
unfolding put terminal_putentryat
put-Put c t h = record {
  row_near = ground arith;
  column_on_screen = ground arith;
  same = λ i p. ground arith;
}

scroll-IsCursor : (t u : Terminal) → Put t u → IsCursor (scroll u) × SameBehind t (scroll u)
unfolding scroll
scroll-IsCursor t u p = elim (Bool-cases (u.row == vga_height)) [
  | inl left ↦
      let (row, column, cells) = scroll_lem u (ground arith) in
      (
        record { row_on_screen = omega (arith, row); column_on_screen = omega (arith, column) },
        λ i h. ground (arith, cells i, p.same i),
      )
  | inr inside ↦ rw inside (
    record { row_on_screen = ground (arith, p.row_near); column_on_screen = p.column_on_screen },
    p.same,
  )
]

-- From a cursor on the screen, `terminal_putchar` of any byte leaves the cursor on the screen, and
-- changes no cell behind cell 2000 of the video memory.
pub terminal_putchar-IsCursor :
    (c : ℕ) (t : Terminal)
    → IsCursor t
    → IsCursor (terminal_putchar c t) × SameBehind t (terminal_putchar c t)
unfolding terminal_putchar
terminal_putchar-IsCursor c t h = scroll-IsCursor t (put c t) (put-Put c t h)

-- So does the printing of any text.
pub terminal_write-IsCursor :
    (text : List ℕ) (t : Terminal)
    → IsCursor t
    → IsCursor (terminal_write text t) × SameBehind t (terminal_write text t)
unfolding terminal_write
terminal_write-IsCursor [] t h = (h, λ i p. refl)
terminal_write-IsCursor (c ∷ cs) t h =
    let (next, same) = terminal_putchar-IsCursor c t h in
    let (last, rest) = terminal_write-IsCursor cs (terminal_putchar c t) next in
    (last, λ i p. rest i p ∙ same i p)
