-- ===== src/Terminal/Hex.antt =====
-- The hexadecimal printing of numbers.
use saxon_os.Prelude.{
  ℕ, zero, suc, ◌/◌, ◌%◌, ◌^◌, ◌<◌, ◌≡◌, refl, ap, ap₂, arith, List, [], ◌∷◌, ◌++◌, ◌>>◌, bit_and,
  bit_and_mask, bit_and_high, u8, u16,
}
use saxon_os.Terminal.{
  Terminal, hex_digit, terminal_putchar, terminal_write, terminal_printhex, terminal_printhex16,
  terminal_printhex32,
}

-- The last `n` hexadecimal digits of a number as characters, the most significant one first.
abbrev pub hex_digits : ℕ → ℕ → List ℕ
hex_digits zero k = []
hex_digits (suc n) k = hex_digit (k / 16 ^ n % 16) ∷ hex_digits n k

high_byte : (k : ℕ) → k < 2 ^ 16 → u8 (bit_and k 0xFF00 >> 8) ≡ k / 2 ^ 8
high_byte k h = omega (arith, bit_and_high 8 k 0xFF, bit_and_mask 8 (k / 2 ^ 8))

high_half : (k : ℕ) → k < 2 ^ 32 → u16 (bit_and k 0xFFFF0000 >> 16) ≡ k / 2 ^ 16
high_half k h = omega (arith, bit_and_high 16 k 0xFFFF, bit_and_mask 16 (k / 2 ^ 16))

low_byte : (k : ℕ) → u8 (bit_and k 0x00FF) ≡ k % 2 ^ 8
low_byte k = omega (arith, bit_and_mask 8 k)

low_half : (k : ℕ) → u16 (bit_and k 0x0000FFFF) ≡ k % 2 ^ 16
low_half k = omega (arith, bit_and_mask 16 k)

high_digit : (k : ℕ) → k < 2 ^ 8 → bit_and k 0xF0 >> 4 ≡ k / 16 ^ 1 % 16
high_digit k h = omega (arith, bit_and_high 4 k 0xF, bit_and_mask 4 (k / 2 ^ 4))

low_digit : (k : ℕ) → bit_and k 0x0F ≡ k / 16 ^ 0 % 16
low_digit k = omega (arith, bit_and_mask 4 k)

pub printhex-hex_digits :
    (k : ℕ) (t : Terminal) → k < 2 ^ 8 → terminal_printhex k t ≡ terminal_write (hex_digits 2 k) t
unfolding terminal_printhex terminal_write
printhex-hex_digits k t h = rw (high_digit k h, low_digit k)

pub terminal_write-append :
    (xs ys : List ℕ) (t : Terminal)
    → terminal_write ys (terminal_write xs t) ≡ terminal_write (xs ++ ys) t
unfolding terminal_write
terminal_write-append [] ys t = refl
terminal_write-append (x ∷ xs) ys t = terminal_write-append xs ys (terminal_putchar x t)

-- Equal digits give equal characters.
two_digits :
    {a b c d : ℕ} → a ≡ c → b ≡ d → hex_digit a ∷ hex_digit b ∷ [] ≡ hex_digit c ∷ hex_digit d ∷ []
two_digits p q = rw (p, q)

four_digits :
    {a b c d : ℕ} (k : ℕ)
    → a ≡ k / 16 ^ 3 % 16
    → b ≡ k / 16 ^ 2 % 16
    → c ≡ k / 16 ^ 1 % 16
    → d ≡ k / 16 ^ 0 % 16
    → hex_digit a ∷ hex_digit b ∷ hex_digit c ∷ hex_digit d ∷ [] ≡ hex_digits 4 k
four_digits k p q r s = ap₂ ◌++◌ (two_digits p q) (two_digits r s)

printhex16-hex_digits :
    (k : ℕ) (t : Terminal)
    → k < 2 ^ 16
    → terminal_printhex16 k t ≡ terminal_write (hex_digits 4 k) t
unfolding terminal_printhex16
printhex16-hex_digits k t h =
    rw
      (
        high_byte k h,
        low_byte k,
        printhex-hex_digits (k / 2 ^ 8) t (omega arith),
        printhex-hex_digits (k % 2 ^ 8) _ (omega arith),
        terminal_write-append,
      )
      (ap (λ ds. terminal_write ds t)
        (four_digits k (omega arith) (omega arith) (omega arith) (omega arith)))

eight_digits : (k : ℕ) → hex_digits 4 (k / 2 ^ 16) ++ hex_digits 4 (k % 2 ^ 16) ≡ hex_digits 8 k
eight_digits k =
    ap₂ ◌++◌
      (ap₂ ◌++◌ (two_digits (omega arith) (omega arith)) (two_digits (omega arith) (omega arith)))
      (ap₂ ◌++◌ (two_digits (omega arith) (omega arith)) (two_digits (omega arith) (omega arith)))

-- For every 32-bit number, `terminal_printhex32` prints its eight hexadecimal digits, the most
-- significant one first, and `terminal_printhex16` and `terminal_printhex` print the four and the
-- two digits of its low 16 and its low 8 bits.
pub terminal_printhex32-hex_digits :
    (k : ℕ) (t : Terminal)
    → k < 2 ^ 32
    → (terminal_printhex32 k t ≡ terminal_write (hex_digits 8 k) t)
      × (terminal_printhex16 (k % 2 ^ 16) t ≡ terminal_write (hex_digits 4 (k % 2 ^ 16)) t)
      × (terminal_printhex (k % 2 ^ 8) t ≡ terminal_write (hex_digits 2 (k % 2 ^ 8)) t)
unfolding terminal_printhex32
terminal_printhex32-hex_digits k t h = (
  rw
      (
        high_half k h,
        low_half k,
        printhex16-hex_digits (k / 2 ^ 16) t (omega arith),
        printhex16-hex_digits (k % 2 ^ 16) _ (omega arith),
        terminal_write-append,
      )
      (ap (λ ds. terminal_write ds t) (eight_digits k)),
  printhex16-hex_digits (k % 2 ^ 16) t (omega arith),
  printhex-hex_digits (k % 2 ^ 8) t (omega arith),
)
