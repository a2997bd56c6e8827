-- ===== src/Mm/Frame/Alloc.antt =====
-- What one call of `kalloc_frame` does to a map whose words fit 32 bits.
use saxon_os.Prelude.{
  ℕ, zero, suc, ◌+◌, ◌-◌, ◌*◌, ◌/◌, ◌%◌, ◌^◌, ◌≤◌, ◌<◌, ◌<<◌, ◌>>◌, u32, ◌≡◌, ◌≢◌, ap, true, arith,
  Bool-cases, inl, inr, ◌⊎◌, ◌==◌, if◌then◌else◌, Outcome, ok, panic, ◌>>=◌, bit_or, max, bit,
  bit-bit_or, bit-two_pow, bit-two_pow_ne, bit-le-one, bit_of_shifted, bit_or-lt, two_pow_lt,
}
use saxon_os.Mm.Frame.{Frames, map_words, map_rounds, word_at, find_frame, mark, kalloc_frame}

-- The mark of frame `j`: 1 if it is in use.
abbrev pub used : Frames → ℕ → ℕ
used s j = bit (s.frame_map (j / 32)) (j % 32)

-- The number of frames fits the map, and every word fits 32 bits.
pub record IsMap (s : Frames) : Type 0 where
  pub some_frames : 0 < s.nframes
  pub fits : s.nframes ≤ map_words * 32
  pub words : (w : ℕ) → s.frame_map w < 2 ^ 32

-- All bits from frame `j`'s upwards in its word are clear.
abbrev pub IsOpen : Frames → ℕ → Type 0
IsOpen s j = s.frame_map (j / 32) >> (j % 32) ≡ 0

-- The first open frame from `i` on, or none.
pub data Search (s : Frames) (i : ℕ) : Outcome ℕ → Type 0 where
  found :
      (n : ℕ)
      → i ≤ n
      → n < s.nframes
      → IsOpen s n
      → ((j : ℕ) → i ≤ j → j < n → ¬ IsOpen s j)
      → Search s i (ok n)
  full : ((j : ℕ) → i ≤ j → j < s.nframes → ¬ IsOpen s j) → Search s i panic

-- The new map, when frame `n` has been allocated.
pub record Marked (s s' : Frames) (n : ℕ) : Type 0 where
  pub in_range : n < s.nframes
  pub was_free : used s n ≡ 0
  pub now_used : used s' n ≡ 1
  pub others : (j : ℕ) → j ≢ n → used s' j ≡ used s j
  pub IsMap-new : IsMap s'

pub data Alloc (s : Frames) : Outcome (ℕ × Frames) → Type 0 where
  allocated : {s' : Frames} (n : ℕ) → Marked s s' n → Alloc s (ok (n * 0x1000, s'))
  exhausted : ((j : ℕ) → j < s.nframes → ¬ IsOpen s j) → Alloc s panic

module _ (s : Frames) where
  not-IsOpen_from :
      (i n : ℕ)
      → ¬ IsOpen s i
      → ((j : ℕ) → i + 1 ≤ j → j < n → ¬ IsOpen s j)
      → (j : ℕ) → i ≤ j
      → j < n
      → ¬ IsOpen s j
  not-IsOpen_from i n taken rest j p q = elim (at_or_after) [
    | inl e ↦ rw (← e) taken
    | inr later ↦ rest j later q
  ]
    where
      at_or_after : (i ≡ j) ⊎ (i + 1 ≤ j)
      at_or_after = omega arith

  Search-weaken : (i : ℕ) {r : Outcome ℕ} → ¬ IsOpen s i → Search s (i + 1) r → Search s i r
  Search-weaken i taken (found n p q o rest) =
      found n (omega arith) q o (not-IsOpen_from i n taken rest)
  Search-weaken i taken (full rest) = full (not-IsOpen_from i s.nframes taken rest)

module _ (s : Frames) (m : IsMap s) where
  word_at-ok : (i : ℕ) → i < s.nframes → word_at s (i / 32) ≡ ok (s.frame_map (i / 32))
  unfolding word_at
  word_at-ok i h = let low : i / 32 < map_words = omega (arith, m.fits) in ground arith

  Search-suc :
      (i : ℕ) (r : Outcome ℕ)
      → i < s.nframes
      → ¬ IsOpen s i
      → (i + 1 < s.nframes → Search s (i + 1) r)
      → Search s i (if i == u32 (s.nframes + 2 ^ 32 - 1) then panic else r)
  Search-suc i r h taken rest = elim (Bool-cases (i == u32 (s.nframes + 2 ^ 32 - 1))) [
    | inl last ↦ rw last (
        full (
          not-IsOpen_from s i s.nframes taken
            λ j p q. absurd (ground (arith, m.fits, m.some_frames))))
    | inr more ↦ rw more (Search-weaken s i taken (rest (ground (arith, m.fits, m.some_frames))))
  ]

  find_frame-Search :
      (rounds i : ℕ) → i < s.nframes → s.nframes ≤ i + rounds → Search s i (find_frame rounds s i)
  unfolding find_frame
  find_frame-Search zero i h enough = absurd (omega arith)
  find_frame-Search (suc rounds) i h enough =
      rw (word_at-ok i h) (elim (Bool-cases (s.frame_map (i / 32) >> (i % 32) == 0)) [
        | inl clear ↦
            rw clear (found i (omega arith) h (ground arith) (λ j p q. absurd (omega arith)))
        | inr taken ↦ rw taken (
            Search-suc i (find_frame rounds s (i + 1)) h (λ e. ground arith)
              (λ more. find_frame-Search rounds (i + 1) more (omega arith)))
      ])

  module _ (n : ℕ) (in_range : n < s.nframes) (clear : IsOpen s n) where
    marked_word-lt : bit_or (s.frame_map (n / 32)) (1 << (n % 32)) < 2 ^ 32
    marked_word-lt =
        bit_or-lt 32 _ _ (m.words (n / 32)) (omega (arith, two_pow_lt (n % 32) 32 (omega arith)))

    bit_of_mark :
        (k : ℕ)
        → bit (u32 (bit_or (s.frame_map (n / 32)) (1 << (n % 32)))) k
          ≡ max (bit (s.frame_map (n / 32)) k) (bit (2 ^ (n % 32)) k)
    bit_of_mark k =
        let narrow : u32 (bit_or (s.frame_map (n / 32)) (1 << (n % 32)))
            ≡ bit_or (s.frame_map (n / 32)) (1 << (n % 32)) =
          omega (arith, marked_word-lt) in
        let one : 1 << (n % 32) ≡ 2 ^ (n % 32) = omega arith in
        rw (narrow, bit-bit_or) (ap (λ t. max (bit (s.frame_map (n / 32)) k) (bit t k)) one)

    used-mark_other : (j : ℕ) → j ≢ n → used (mark s n) j ≡ used s j
    used-mark_other j ne = elim (Bool-cases (j / 32 == n / 32)) [
      | inl same ↦
          let e : j / 32 ≡ n / 32 = ground arith in
          rw (same, bit_of_mark (j % 32), e)
            (omega (arith, bit-two_pow_ne (n % 32) (j % 32) (λ k. ne (omega arith))))
      | inr other ↦ rw other
    ]

    mark-Marked : Marked s (mark s n) n
    mark-Marked = record {
      in_range = in_range;
      was_free = bit_of_shifted _ (n % 32) (n % 32) clear (omega arith);
      now_used =
          let same : (n / 32 == n / 32) ≡ true = ground arith in
          rw (same, bit_of_mark (n % 32))
            (omega (arith, bit-two_pow (n % 32), bit-le-one (s.frame_map (n / 32)) (n % 32)));
      others = used-mark_other;
      IsMap-new = record {
        some_frames = m.some_frames;
        fits = m.fits;
        words = λ w. ground (arith, m.words w);
      };
    }

  Alloc-Search :
      {r : Outcome ℕ} → Search s 0 r → Alloc s (r >>= λ i. ok (u32 (i * 0x1000), mark s i))
  Alloc-Search (found n p q o rest) =
      let address : u32 (n * 0x1000) ≡ n * 0x1000 = omega (arith, m.fits) in
      rw address (allocated n (mark-Marked n q o))
  Alloc-Search (full rest) = exhausted (λ j p. rest j (omega arith) p)

  -- On a map of at least one frame that fits `frame_map`, `kalloc_frame` always finishes. Either it
  -- returns the address of a frame below `nframes` that was free, marks that frame as used, leaves
  -- the mark of every other frame and keeps the map well formed; or it panics, and then no frame
  -- has all marks of its word from its own upwards clear.
  pub kalloc_frame-Alloc : Alloc s (kalloc_frame s)
  unfolding kalloc_frame
  kalloc_frame-Alloc =
      Alloc-Search (find_frame-Search map_rounds 0 m.some_frames (omega (arith, m.fits)))
