-- ===== src/Mm/Frame/Free.antt =====
-- What `kfree_frame` does: it clears a whole word of the map, the marks of 32 frames.
use saxon_os.Prelude.{
  ℕ, ◌+◌, ◌*◌, ◌/◌, ◌%◌, ◌<◌, ◌≤◌, ◌≡◌, arith, ◌==◌, ltb, true, Bool-cases, inl, inr, if◌then◌else◌,
  Outcome, ok, panic, bit_and, bit_and-zero, bit-zero, ◌<<◌,
}
use saxon_os.Mm.Frame.{Frames, map_words, update, kfree_frame}
use saxon_os.Mm.Frame.Alloc.{used, IsMap}

-- What a call of `kfree_frame` with the address of frame `n` ends in.
pub data Freed (s : Frames) (n : ℕ) : Outcome Frames → Type 0 where
  cleared :
      (s' : Frames)
      → n < s.nframes
      → ((j : ℕ) → used s' j ≡ (if j / 32 == n / 32 then 0 else used s j))
      → IsMap s'
      → Freed s n (ok s')
  refused : s.nframes ≤ n → Freed s n panic

module _ (s : Frames) (m : IsMap s) where
  cleared_map : ℕ → Frames
  cleared_map n = record s {
    frame_map = update s.frame_map (n / 32) (bit_and (s.frame_map (n / 32)) (0 << n));
  }

  cleared_word : (n : ℕ) → bit_and (s.frame_map (n / 32)) (0 << n) ≡ 0
  cleared_word n = let nothing : 0 << n ≡ 0 = omega arith in rw nothing (bit_and-zero _)

  used-cleared : (n j : ℕ) → used (cleared_map n) j ≡ (if j / 32 == n / 32 then 0 else used s j)
  unfolding cleared_map
  used-cleared n j = elim (Bool-cases (j / 32 == n / 32)) [
    | inl same ↦ rw (same, cleared_word n) (bit-zero (j % 32))
    | inr other ↦ rw other
  ]

  cleared-IsMap : (n : ℕ) → IsMap (cleared_map n)
  unfolding cleared_map
  cleared-IsMap n = record {
    some_frames = m.some_frames;
    fits = m.fits;
    words = λ w. ground (arith, m.words w, cleared_word n);
  }

  -- Given any address within frame `n`, `kfree_frame` panics if there is no such frame. Otherwise
  -- it keeps the map well formed and marks as free every frame that shares the map word of frame
  -- `n`, that is all `j` with `j / 32 = n / 32`, and leaves the marks of all others.
  pub kfree_frame-Freed : (n off : ℕ) → off < 0x1000 → Freed s n (kfree_frame (n * 0x1000 + off) s)
  unfolding kfree_frame cleared_map
  kfree_frame-Freed n off h =
      let number : (n * 0x1000 + off) / 0x1000 ≡ n = omega arith in
      rw number (elim (Bool-cases (ltb n s.nframes)) [
        | inl inside ↦
            let low : ltb (n / 32) map_words ≡ true = ground (arith, m.fits) in
            rw (inside, low)
              (cleared (cleared_map n) (ground arith) (used-cleared n) (cleared-IsMap n))
        | inr outside ↦ rw outside (refused (ground arith))
      ])
