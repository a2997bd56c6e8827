-- ===== src/Terminal.antt =====
-- src/kernel.c, lines 27 to 170: the VGA text terminal, 25 rows of 80 cells of 16 bits.
pub mod Scroll
pub mod Cursor
pub mod Hex
use saxon_os.Prelude.{
  ℕ, zero, suc, ◌+◌, ◌-◌, ◌*◌, ◌/◌, ◌%◌, ◌^◌, ◌<<◌, ◌>>◌, bit_and, bit_or, u8, u16, u32, ltb, ◌==◌,
  if◌then◌else◌, List, [], ◌∷◌, get_or,
}

abbrev pub vga_width : ℕ
vga_width = 80

abbrev pub vga_height : ℕ
vga_height = 25

-- The globals `terminal_row`, `terminal_column` and `terminal_color`, and the video memory.
pub record Terminal : Type 0 where
  pub row : ℕ
  pub column : ℕ
  pub color : ℕ
  pub buffer : ℕ → ℕ

-- `terminal_buffer[i] = v`.
abbrev pub store : (ℕ → ℕ) → ℕ → ℕ → ℕ → ℕ
store b i v j = if j == i then v else b j

pub vga_entry_color : ℕ → ℕ → ℕ
vga_entry_color fg bg = u8 (bit_or fg (bg << 4))

pub vga_entry : ℕ → ℕ → ℕ
vga_entry uc color = u16 (bit_or uc (color << 8))

-- Stores the same cell at `i` and the `n - 1` places after it.
pub fill : ℕ → ℕ → ℕ → (ℕ → ℕ) → ℕ → ℕ
fill zero i v b = b
fill (suc n) i v b = fill n (i + 1) v (store b i v)

-- The two loops of `terminal_initialize` visit the indices 0 to 1999 in order.
pub terminal_initialize : (ℕ → ℕ) → Terminal
terminal_initialize memory =
    let color = vga_entry_color 7 0 in
    record {
      row = 0;
      column = 0;
      color = color;
      buffer = fill (vga_height * vga_width) 0 (vga_entry 0x20 color) memory;
    }

pub terminal_setcolor : ℕ → Terminal → Terminal
terminal_setcolor color t = record t { color = color }

pub terminal_putentryat : (c color x y : ℕ) → Terminal → Terminal
terminal_putentryat c color x y t = record t {
  buffer = store t.buffer (y * vga_width + x) (vga_entry c color);
}

-- `for (x = ...; x <= VGA_WIDTH; x++) buffer[y*80 + x] = buffer[(y+1)*80 + x]`, at index `i` of
-- the row, with `n` rounds left.
pub copy_row : ℕ → ℕ → (ℕ → ℕ) → ℕ → ℕ
copy_row zero i b = b
copy_row (suc n) i b = copy_row n (i + 1) (store b i (b (i + vga_width)))

pub copy_rows : ℕ → ℕ → (ℕ → ℕ) → ℕ → ℕ
copy_rows zero y b = b
copy_rows (suc n) y b = copy_rows n (y + 1) (copy_row (vga_width + 1) (y * vga_width) b)

-- The end of `terminal_putchar`, when the cursor has left the last row.
pub scroll : Terminal → Terminal
scroll t =
    if t.row == vga_height
    then record t {
      row = t.row - 1;
      column = 0;
      buffer =
          fill (vga_width + 1) ((vga_height - 1) * vga_width) 0
            (copy_rows (vga_height - 1) 0 t.buffer);
    }
    else t

-- The cases of `terminal_putchar` before the scrolling: a line feed, a backspace, any other byte.
pub put : ℕ → Terminal → Terminal
put c t =
    if c == 10
    then record t { row = t.row + 1; column = 0 }
    else if c == 8
    then (if ltb 0 t.column
        then record t {
          column = t.column - 1;
          buffer = store t.buffer (t.row * vga_width + (t.column - 1)) 0;
        }
        else t)
    else let t' = terminal_putentryat c t.color t.column t.row t in
      if t.column + 1 == vga_width
      then record t' { column = 0; row = t.row + 1 }
      else record t' { column = t.column + 1 }

pub terminal_putchar : ℕ → Terminal → Terminal
terminal_putchar c t = scroll (put c t)

-- `terminal_write` on the bytes `data[0]` to `data[size - 1]`.
pub terminal_write : List ℕ → Terminal → Terminal
terminal_write [] t = t
terminal_write (c ∷ cs) t = terminal_write cs (terminal_putchar c t)

-- `"0123456789ABCDEF"`
abbrev pub hex : List ℕ
hex =
    b'0' ∷ b'1' ∷ b'2' ∷ b'3' ∷ b'4' ∷ b'5' ∷ b'6' ∷ b'7' ∷ b'8' ∷ b'9' ∷ b'A' ∷ b'B' ∷ b'C' ∷ b'D'
    ∷ b'E' ∷ b'F' ∷ []

pub hex_digit : ℕ → ℕ
hex_digit n = get_or hex n 0

-- The parameter is a `char`, of which only the eight bits matter.
pub terminal_printhex : ℕ → Terminal → Terminal
terminal_printhex key t =
    terminal_putchar (hex_digit (bit_and key 0x0F))
      (terminal_putchar (hex_digit (bit_and key 0xF0 >> 4)) t)

pub terminal_printhex16 : ℕ → Terminal → Terminal
terminal_printhex16 key t =
    terminal_printhex (u8 (bit_and key 0x00FF)) (terminal_printhex (u8 (bit_and key 0xFF00 >> 8)) t)

pub terminal_printhex32 : ℕ → Terminal → Terminal
terminal_printhex32 key t =
    terminal_printhex16 (u16 (bit_and key 0x0000FFFF))
      (terminal_printhex16 (u16 (bit_and key 0xFFFF0000 >> 16)) t)
