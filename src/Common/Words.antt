-- ===== src/Common/Words.antt =====
-- Numbers of 32 bits in a memory of bytes, the lowest byte first.
use saxon_os.Prelude.{ℕ, ◌+◌, ◌*◌, ◌/◌, ◌%◌, ◌^◌, ◌<◌, ◌≤◌, ◌≡◌, arith, ◌⊎◌, ◌-◌, u32}
use saxon_os.Common.Memory.{Memory, write8}

unfoldable pub read32 : Memory → ℕ → ℕ
read32 m a = m a + m (a + 1) * 2 ^ 8 + m (a + 2) * 2 ^ 16 + m (a + 3) * 2 ^ 24

unfoldable pub write32 : Memory → ℕ → ℕ → Memory
write32 m a v =
    write8
      (write8 (write8 (write8 m a (v % 2 ^ 8)) (a + 1) (v / 2 ^ 8 % 2 ^ 8)) (a + 2)
        (v / 2 ^ 16 % 2 ^ 8))
      (a + 3) (v / 2 ^ 24 % 2 ^ 8)

pub read32-write32 : (m : Memory) (a v : ℕ) → v < 2 ^ 32 → read32 (write32 m a v) a ≡ v
unfolding read32 write32
read32-write32 m a v h =
    let bytes : v % 2 ^ 8
          + v / 2 ^ 8 % 2 ^ 8 * 2 ^ 8
          + v / 2 ^ 16 % 2 ^ 8 * 2 ^ 16
          + v / 2 ^ 24 % 2 ^ 8 * 2 ^ 24
        ≡ v =
      omega arith in
    ground arith

-- A write leaves the bytes outside its four.
pub write32_outside : (m : Memory) (a v b : ℕ) → (b < a) ⊎ (a + 4 ≤ b) → write32 m a v b ≡ m b
unfolding write32
write32_outside m a v b h = ground arith

pub read32-write32_ne :
    (m : Memory) (a v b : ℕ) → (b + 4 ≤ a) ⊎ (a + 4 ≤ b) → read32 (write32 m a v) b ≡ read32 m b
unfolding read32
read32-write32_ne m a v b h = ground (
  arith,
  write32_outside m a v b,
  write32_outside m a v (b + 1),
  write32_outside m a v (b + 2),
  write32_outside m a v (b + 3),
)

-- A byte written outside a number leaves it.
pub read32-write8_ne :
    (m : Memory) (a v b : ℕ) → (a < b) ⊎ (b + 4 ≤ a) → read32 (write8 m a v) b ≡ read32 m b
unfolding read32
read32-write8_ne m a v b h = ground arith

-- A number is that of its four bytes.
pub read32-agree :
    (m m' : Memory) (a : ℕ) → ((b : ℕ) → a ≤ b → b < a + 4 → m' b ≡ m b) → read32 m' a ≡ read32 m a
unfolding read32
read32-agree m m' a h = ground (
  arith,
  h a (omega arith) (omega arith),
  h (a + 1) (omega arith) (omega arith),
  h (a + 2) (omega arith) (omega arith),
  h (a + 3) (omega arith) (omega arith),
)

-- `CEILING_DIV(x, y)`, that is `(1 + ((x - 1) / y))`, on unsigned numbers.
abbrev pub ceiling_div : ℕ → ℕ → ℕ
ceiling_div x y = u32 (1 + (x + 2 ^ 32 - 1) % 2 ^ 32 / y)

-- A difference of 32 bits.
abbrev pub sub32 : ℕ → ℕ → ℕ
sub32 a b = (a + 2 ^ 32 - b) % 2 ^ 32
