-- ===== src/Prelude/Bits.antt =====
-- Shifts, masks and the `|` of disjoint fields as arithmetic. The native bit operations have no
-- laws at variables but the recursion on binary digits that they stand for.
use Prim.Native.Nat.{
  ℕ, zero, suc, ◌+◌, ◌-◌, ◌*◌, ◌/◌, ◌%◌, ◌^◌, ◌≤◌, ◌<◌, min, max, bit_and, bit_or, digits,
  bit_and-bitwise, bit_or-bitwise,
}
use mathlib.Core.Path.{◌≡◌, refl, ap, ◌∙◌}
use mathlib.Core.Logic.{◌≢◌}
use native.Mathlib.Omega.{arith}
use native.Mathlib.Nat.{pow-suc, one-le-pow, div-div-eq-div-mul}

-- `x << k` and `x >> k` on unsigned values; a cast or an assignment cuts the width.
infixl 75 ◌<<◌ ◌>>◌
abbrev pub ◌<<◌ : ℕ → ℕ → ℕ
x << k = x * 2 ^ k

abbrev pub ◌>>◌ : ℕ → ℕ → ℕ
x >> k = x / 2 ^ k

abbrev pub u8 : ℕ → ℕ
u8 x = x % 2 ^ 8

abbrev pub u16 : ℕ → ℕ
u16 x = x % 2 ^ 16

abbrev pub u32 : ℕ → ℕ
u32 x = x % 2 ^ 32

-- More fuel than the first number gives the same digits.
module _ (base : ℕ → ℕ) (join : ℕ → ℕ → ℕ) where
  digits_enough : (k n x y : ℕ) → x ≤ k → k ≤ n → digits base join n x y ≡ digits base join k x y
  digits_enough (suc k) (suc n) (suc x) y low more =
      rw (digits_enough k n (suc x / 2) (y / 2) (omega arith) (omega arith))
  digits_enough (suc k) (suc n) zero y low more = refl
  digits_enough (suc k) zero x y low more = absurd (omega arith)
  digits_enough zero n (suc x) y low more = absurd (omega arith)
  digits_enough zero (suc n) zero y low more = refl
  digits_enough zero zero zero y low more = refl

-- The lowest digit of `&` and of `|`.
pub bit_and_step : (x y : ℕ) → bit_and x y ≡ min (x % 2) (y % 2) + 2 * bit_and (x / 2) (y / 2)
bit_and_step zero y = omega (arith, bit_and-bitwise 0 y, bit_and-bitwise 0 (y / 2))
bit_and_step (suc x) y =
    let half = suc x / 2 in
    omega (
      arith,
      digits_enough (λ _. 0) min half x half (y / 2) (omega arith) (omega arith),
      bit_and-bitwise half (y / 2),
      bit_and-bitwise (suc x) y,
    )

pub bit_or_step : (x y : ℕ) → bit_or x y ≡ max (x % 2) (y % 2) + 2 * bit_or (x / 2) (y / 2)
bit_or_step zero y = omega (arith, bit_or-bitwise 0 y, bit_or-bitwise 0 (y / 2))
bit_or_step (suc x) y =
    let half = suc x / 2 in
    omega (
      arith,
      digits_enough (λ rest. rest) max half x half (y / 2) (omega arith) (omega arith),
      bit_or-bitwise half (y / 2),
      bit_or-bitwise (suc x) y,
    )

pub bit_or-zero_left : (b : ℕ) → bit_or 0 b ≡ b
bit_or-zero_left b = bit_or-bitwise 0 b

pub bit_and-zero_left : (b : ℕ) → bit_and 0 b ≡ 0
bit_and-zero_left b = bit_and-bitwise 0 b

-- Both by recursion on a bound of the number.
zeros : (n x : ℕ) → x ≤ n → (bit_or x 0 ≡ x) × (bit_and x 0 ≡ 0)
zeros (suc n) (suc x) low =
    let (same, none) = zeros n (suc x / 2) (omega arith) in
    (omega (arith, same, bit_or_step (suc x) 0), omega (arith, none, bit_and_step (suc x) 0))
zeros zero (suc x) low = absurd (omega arith)
zeros n zero low = (refl, refl)

pub bit_or-zero : (x : ℕ) → bit_or x 0 ≡ x
bit_or-zero x = (zeros x x (omega arith)).0

pub bit_and-zero : (x : ℕ) → bit_and x 0 ≡ 0
bit_and-zero x = (zeros x x (omega arith)).1

pow_suc_times : (q k : ℕ) → q * 2 ^ suc k ≡ 2 * (q * 2 ^ k)
pow_suc_times q k = omega (arith, ap (λ (t : ℕ). q * t) (pow-suc 2 k))

-- `(q << k) | r` is a sum when `r` fits into `k` bits, in either order.
pub bit_or_high : (k q r : ℕ) → r < 2 ^ k → bit_or (q * 2 ^ k) r ≡ q * 2 ^ k + r
bit_or_high zero q r h = ground (arith, bit_or-zero q)
bit_or_high (suc k) q r h =
    ground (
      arith,
      bit_or_step (q * 2 ^ suc k) r,
      pow_suc_times q k,
      bit_or_high k q (r / 2) (omega arith),
    )

pub bit_or_low : (k q r : ℕ) → r < 2 ^ k → bit_or r (q * 2 ^ k) ≡ q * 2 ^ k + r
bit_or_low zero q r h = ground (arith, bit_or-zero_left q)
bit_or_low (suc k) q r h =
    ground (
      arith,
      bit_or_step r (q * 2 ^ suc k),
      pow_suc_times q k,
      bit_or_low k q (r / 2) (omega arith),
    )

mask_parts : (k q r : ℕ) → r < 2 ^ k → bit_and (q * 2 ^ k + r) (2 ^ k - 1) ≡ r
mask_parts zero q r h = rw bit_and-zero (omega arith)
mask_parts (suc k) q r h = ground (
  arith,
  bit_and_step (q * 2 ^ suc k + r) (2 ^ suc k - 1),
  pow_suc_times q k,
  pow-suc 2 k,
  mask_parts k q (r / 2) (omega arith),
)

-- A mask of `k` low ones is the remainder.
pub bit_and_mask : (k a : ℕ) → bit_and a (2 ^ k - 1) ≡ a % 2 ^ k
bit_and_mask k a = ground (arith, one-le-pow k 2, mask_parts k (a / 2 ^ k) (a % 2 ^ k))

-- A mask of ones above `k` zeros acts on the quotient.
pub bit_and_high : (k a m : ℕ) → bit_and a (m * 2 ^ k) ≡ bit_and (a / 2 ^ k) m * 2 ^ k
bit_and_high zero a m =
    let same_mask : m * 2 ^ 0 ≡ m = omega arith in
    let same_word : a / 2 ^ 0 ≡ a = omega arith in rw (same_mask, same_word) (omega arith)
bit_and_high (suc k) a m = ground (
  arith,
  bit_and_step a (m * 2 ^ suc k),
  pow_suc_times m k,
  bit_and_high k (a / 2) m,
  pow_suc_times (bit_and (a / 2 / 2 ^ k) m) k,
  div-div-eq-div-mul a 2 (2 ^ k),
  pow-suc 2 k,
)

-- Bit `k` of a number, counted from the lowest.
unfoldable pub bit : ℕ → ℕ → ℕ
bit w zero = w % 2
bit w (suc k) = bit (w / 2) k

pub bit-bit_or : (a b k : ℕ) → bit (bit_or a b) k ≡ max (bit a k) (bit b k)
unfolding bit
bit-bit_or a b zero = omega (arith, bit_or_step a b)
bit-bit_or a b (suc k) =
    let halved : bit_or a b / 2 ≡ bit_or (a / 2) (b / 2) = omega (arith, bit_or_step a b) in
    rw halved (bit-bit_or (a / 2) (b / 2) k)

pub bit-zero : (k : ℕ) → bit 0 k ≡ 0
unfolding bit
bit-zero zero = refl
bit-zero (suc k) = bit-zero k

pub bit-two_pow : (n : ℕ) → bit (2 ^ n) n ≡ 1
unfolding bit
bit-two_pow zero = refl
bit-two_pow (suc n) =
    let halved : 2 ^ suc n / 2 ≡ 2 ^ n = omega (arith, pow-suc 2 n) in rw halved (bit-two_pow n)

pub bit-two_pow_ne : (n k : ℕ) → n ≢ k → bit (2 ^ n) k ≡ 0
unfolding bit
bit-two_pow_ne zero zero h = absurd (h refl)
bit-two_pow_ne zero (suc k) h = bit-zero k
bit-two_pow_ne (suc n) zero h = omega (arith, pow-suc 2 n)
bit-two_pow_ne (suc n) (suc k) h =
    let halved : 2 ^ suc n / 2 ≡ 2 ^ n = omega (arith, pow-suc 2 n) in
    rw halved (bit-two_pow_ne n k (λ e. h (ap suc e)))

pub bit-le-one : (w k : ℕ) → bit w k ≤ 1
unfolding bit
bit-le-one w zero = omega arith
bit-le-one w (suc k) = bit-le-one (w / 2) k

half_shift : (w k : ℕ) → w / 2 / 2 ^ k ≡ w / 2 ^ suc k
half_shift w k =
    let doubled : 2 * 2 ^ k ≡ 2 ^ suc k = omega (arith, pow-suc 2 k) in
    div-div-eq-div-mul w 2 (2 ^ k) ∙ ap (λ (t : ℕ). w / t) doubled

-- The bits of a number from the `k`-th on are clear exactly if shifting it by `k` gives 0.
pub bit_of_shifted : (w k j : ℕ) → w / 2 ^ k ≡ 0 → k ≤ j → bit w j ≡ 0
unfolding bit
bit_of_shifted w zero j h p = let e : w ≡ 0 = omega (arith, h) in rw e (bit-zero j)
bit_of_shifted w (suc k) zero h p = absurd (omega arith)
bit_of_shifted w (suc k) (suc j) h p = bit_of_shifted (w / 2) k j (half_shift w k ∙ h) (omega arith)

pub bit_or-lt : (n a b : ℕ) → a < 2 ^ n → b < 2 ^ n → bit_or a b < 2 ^ n
bit_or-lt zero a b p q =
    let e : a ≡ 0 = omega arith in let f : b ≡ 0 = omega arith in rw (e, f) (omega arith)
bit_or-lt (suc n) a b p q = omega (
  arith,
  bit_or_step a b,
  pow-suc 2 n,
  bit_or-lt n (a / 2) (b / 2) (omega (arith, pow-suc 2 n)) (omega (arith, pow-suc 2 n)),
)

pub two_pow_lt : (k n : ℕ) → k < n → 2 ^ k < 2 ^ n
two_pow_lt k zero h = absurd (omega arith)
two_pow_lt zero (suc n) h = omega (arith, pow-suc 2 n, one-le-pow n 2 (omega arith))
two_pow_lt (suc k) (suc n) h = omega (arith, pow-suc 2 n, pow-suc 2 k, two_pow_lt k n (omega arith))

pub two_pow_le : (k n : ℕ) → k ≤ n → 2 ^ k ≤ 2 ^ n
two_pow_le zero n h = one-le-pow n 2 (omega arith)
two_pow_le (suc k) zero h = absurd (omega arith)
two_pow_le (suc k) (suc n) h = omega (arith, pow-suc 2 n, pow-suc 2 k, two_pow_le k n (omega arith))
