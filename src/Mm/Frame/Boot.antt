-- ===== src/Mm/Frame/Boot.antt =====
-- The map as the boot leaves it: the frames of the kernel's image, and then one after the other.
use saxon_os.Prelude.{
  ℕ, zero, suc, ◌+◌, ◌-◌, ◌*◌, ◌/◌, ◌%◌, ◌^◌, ◌≤◌, ◌<◌, ◌<<◌, ◌>>◌, u32, ◌≡◌, refl, sym, ap, ◌∙◌,
  arith, ◌==◌, ltb, true, false, Bool-cases, inl, inr, ok, bit_or, bit_or_low, min, bit_and_high,
  bit_and_mask, two_pow_lt, two_pow_le,
}
use native.Mathlib.Nat.{div-eq_of_lt, one-le-pow, pow-suc}
use saxon_os.Mm.Frame.{
  Frames, map_words, map_rounds, word_at, find_frame, mark, kalloc_frame, reserve_frames,
  first_free_frame, init_frames, clear_bytes,
}

-- A word of which the lowest `k` bits are set, or all of them.
abbrev pub low_ones : ℕ → ℕ
low_ones k = 2 ^ min k 32 - 1

-- Exactly the first `n` of `total` frames are in use.
pub record IsPrefix (total n : ℕ) (s : Frames) : Type 0 where
  pub total_frames : s.nframes ≡ total
  pub fits : s.nframes ≤ map_words * 32
  pub words : (w : ℕ) → s.frame_map w ≡ low_ones (n - 32 * w)

quotient_positive : (a b : ℕ) → 0 < b → b ≤ a → (a / b == 0) ≡ false
quotient_positive a b p q = grind arith

quotient_zero : (a b : ℕ) → a < b → (a / b == 0) ≡ true
quotient_zero a b h = rw (div-eq_of_lt h)

module _ (total n : ℕ) (s : Frames) (p : IsPrefix total n s) where
  taken_below : (i : ℕ) → i < n → (s.frame_map (i / 32) >> (i % 32) == 0) ≡ false
  taken_below i h = rw (p.words (i / 32)) (
      quotient_positive _ (2 ^ (i % 32)) (one-le-pow (i % 32) 2 (omega arith))
        (omega (arith, two_pow_lt (i % 32) (min (n - 32 * (i / 32)) 32) (omega arith))))

  clear_at : (s.frame_map (n / 32) >> (n % 32) == 0) ≡ true
  clear_at =
      let here : min (n - 32 * (n / 32)) 32 ≡ n % 32 = omega arith in
      rw (p.words (n / 32), here)
        (quotient_zero _ (2 ^ (n % 32)) (omega (arith, one-le-pow (n % 32) 2 (omega arith))))

  readable : (i : ℕ) → i < s.nframes → word_at s (i / 32) ≡ ok (s.frame_map (i / 32))
  unfolding word_at
  readable i h = let low : i / 32 < map_words = omega (arith, p.fits) in ground arith

  find_frame-prefix :
      (rounds i : ℕ) → i ≤ n → n < s.nframes → n < i + rounds → find_frame rounds s i ≡ ok n
  unfolding find_frame
  find_frame-prefix zero i a b c = absurd (omega arith)
  find_frame-prefix (suc rounds) i a b c = elim (Bool-cases (i == n)) [
    | inl reached ↦ let e : i ≡ n = ground arith in rw (e, readable n b, clear_at)
    | inr before ↦
        let more : (i == u32 (s.nframes + 2 ^ 32 - 1)) ≡ false = ground (arith, p.fits) in
        rw (readable i (omega arith), taken_below i (ground arith), more)
          (find_frame-prefix rounds (i + 1) (ground arith) b (omega arith))
  ]

  next_word : (w : ℕ) → (mark s n).frame_map w ≡ low_ones (n + 1 - 32 * w)
  next_word w = elim (Bool-cases (w == n / 32)) [
    | inl here ↦ rw here (here_word w (ground arith))
    | inr other ↦
        let same : min (n - 32 * w) 32 ≡ min (n + 1 - 32 * w) 32 = ground arith in
        rw (other, p.words w, same)
  ]
    where
      here_word :
          (w : ℕ)
          → w ≡ n / 32
          → u32 (bit_or (s.frame_map (n / 32)) (1 << (n % 32))) ≡ low_ones (n + 1 - 32 * w)
      here_word w e =
          let old : min (n - 32 * (n / 32)) 32 ≡ n % 32 = omega arith in
          let new : min (n + 1 - 32 * w) 32 ≡ suc (n % 32) = omega arith in
          let some_ones = one-le-pow (n % 32) 2 (omega arith) in
          rw (p.words (n / 32), old, new, bit_or_low (n % 32) 1 (2 ^ (n % 32) - 1) (omega arith))
            (omega (arith, pow-suc 2 (n % 32), two_pow_le (suc (n % 32)) 32 (omega arith)))

  pub kalloc_frame-prefix :
      n < total → (kalloc_frame s ≡ ok (n * 0x1000, mark s n)) × IsPrefix total (n + 1) (mark s n)
  unfolding kalloc_frame
  kalloc_frame-prefix h =
      let address : u32 (n * 0x1000) ≡ n * 0x1000 = omega (arith, p.fits, p.total_frames) in
      (
        rw (
          find_frame-prefix map_rounds 0 (omega arith) (omega (arith, p.total_frames))
              (omega (arith, p.fits, p.total_frames)),
          address,
        ),
        record { total_frames = p.total_frames; fits = p.fits; words = next_word },
      )

reserve_frames-prefix :
    (total k n j : ℕ) (s : Frames)
    → IsPrefix total n s
    → n + k ≡ j
    → j ≤ total
    → (s' : Frames) × (reserve_frames k s ≡ ok s') × IsPrefix total j s'
unfolding reserve_frames
reserve_frames-prefix total zero n j s p e h =
    (s, refl, let same : j ≡ n = omega arith in rw same p)
reserve_frames-prefix total (suc k) n j s p e h =
    let (called, p') = kalloc_frame-prefix total n s p (omega arith) in
    let (s', ran, p'') = reserve_frames-prefix total k (n + 1) j (mark s n) p' (omega arith) h in
    (s', rw called ran, p'')

-- The frames of the image: 16 MB at most, since the mask keeps bits 12 to 23 of the end.
abbrev pub kernel_frames : ℕ → ℕ
kernel_frames end_kernel = end_kernel / 0x1000 % 0x1000 + 1

pub first_free_frame-kernel_frames : (e : ℕ) → first_free_frame e ≡ kernel_frames e * 0x1000
first_free_frame-kernel_frames e =
    omega (arith, bit_and_high 12 e 0xFFF, bit_and_mask 12 (e / 0x1000))

-- On a map that is all zero, with memory for the image and at most as many frames as the map has
-- bits, `init_frames` succeeds and leaves exactly the frames of the image in use. The allocation
-- after it succeeds, returns the first frame behind the image, and leaves exactly one more in use.
pub init_frames-kalloc_frame :
    (end_kernel mem_size : ℕ) (s : Frames)
    → ((w : ℕ) → s.frame_map w ≡ 0)
    → kernel_frames end_kernel < mem_size / 4
    → mem_size / 4 ≤ map_words * 32
    → (s' s'' : Frames) × (init_frames end_kernel mem_size s ≡ ok s')
      × IsPrefix (mem_size / 4) (kernel_frames end_kernel) s'
      × (kalloc_frame s' ≡ ok (first_free_frame end_kernel, s''))
      × IsPrefix (mem_size / 4) (kernel_frames end_kernel + 1) s''
unfolding init_frames
init_frames-kalloc_frame end_kernel mem_size s blank room fits =
    let image = first_free_frame-kernel_frames end_kernel in
    let (s', ran, p) =
      reserve_frames-prefix (mem_size / 4) (kernel_frames end_kernel) 0 (kernel_frames end_kernel)
        start empty (omega arith) (omega arith) in
    let (called, p') = kalloc_frame-prefix (mem_size / 4) (kernel_frames end_kernel) s' p room in
    (
      s',
      mark s' (kernel_frames end_kernel),
      entered ∙ ran,
      p,
      called ∙ ap (λ a. ok (a, mark s' (kernel_frames end_kernel))) (sym image),
      p',
    )
  where
    start : Frames
    start = record {
      nframes = mem_size / 4;
      frame_map = clear_bytes (mem_size / 4 / 8) s.frame_map;
    }

    entered : init_frames end_kernel mem_size s ≡ reserve_frames (kernel_frames end_kernel) start
    entered =
        let small : ltb (4 * map_words) (mem_size / 4 / 8) ≡ false = ground arith in
        let count : first_free_frame end_kernel / 0x1000 ≡ kernel_frames end_kernel =
          omega (arith, first_free_frame-kernel_frames end_kernel) in
        rw small (ap (λ n. reserve_frames n start) count)

    empty : IsPrefix (mem_size / 4) 0 start
    empty = record { total_frames = refl; fits = fits; words = λ w. ground (arith, blank w) }
