-- ===== src/Fs/Devfs/Read.antt =====
-- What a read from a block device stores.
use saxon_os.Prelude.{
  ℕ, zero, suc, ◌+◌, ◌-◌, ◌*◌, ◌/◌, ◌%◌, ◌^◌, ◌<◌, ◌≤◌, ◌≡◌, refl, ap, ap₂, subst, ◌∙◌, arith, ltb,
  leb, ◌==◌, ◌||◌, if◌then◌else◌, true, false, Bool-cases, inl, inr, [], ◌∷◌, ◌++◌, u32, ok, fault,
}
use saxon_os.Fs.Devfs.{block_size, copied, chars_of, read_blocks, bdev_read}

-- Copies from places that agree are equal.
pub copied-agree :
    (f g : ℕ → ℕ) (p q n : ℕ)
    → ((i : ℕ) → i < n → f (p + i) ≡ g (q + i))
    → copied f p n ≡ copied g q n
copied-agree f g p q zero same = refl
copied-agree f g p q (suc n) same =
    ap₂ (λ x xs. x ∷ xs) (ap f (omega arith) ∙ (same 0 (omega arith) ∙ ap g (omega arith)))
      (copied-agree f g (p + 1) (q + 1) n
        (λ i below. ap f (omega arith) ∙ (same (i + 1) (omega arith) ∙ ap g (omega arith))))

copied-append : (f : ℕ → ℕ) (p m n : ℕ) → copied f p m ++ copied f (p + m) n ≡ copied f p (m + n)
copied-append f p zero n = ap₂ (λ q k. copied f q k) (omega arith) (omega arith)
copied-append f p (suc m) n =
    let tail = copied-append f (p + 1) m n in
    let place : p + 1 + m ≡ p + suc m = omega arith in
    let number : suc m + n ≡ suc (m + n) = omega arith in
    rw number (ap (λ xs. f p ∷ xs) (rw (← place) tail))

module _ (sector : ℕ → ℕ → ℕ) (disk : ℕ → ℕ)
    (agrees : (n o : ℕ) → o < block_size → sector n o ≡ disk (n * block_size + o)) where
  copied-sector :
      (block offset n : ℕ)
      → offset + n ≤ block_size
      → copied (sector block) offset n ≡ copied disk (block * block_size + offset) n
  copied-sector block offset n within =
      copied-agree (sector block) disk offset (block * block_size + offset) n
        (λ i below. agrees block (offset + i) (omega arith) ∙ ap disk (omega arith))

  -- One round that stays within the block.
  read_round :
      (rounds block offset count : ℕ)
      → 0 < count
      → count < 2 ^ 31
      → block * block_size + offset + count < 2 ^ 32
      → offset + chars_of count ≤ block_size
      → read_blocks sector rounds
          (block + 1)
          0
          (count - chars_of count)
          (block * block_size + offset + chars_of count)
        ≡ ok (
          copied disk (block * block_size + offset + chars_of count) (count - chars_of count),
          block * block_size + offset + count,
        )
      → read_blocks sector (suc rounds) block offset count (block * block_size + offset)
        ≡ ok (copied disk (block * block_size + offset) count, block * block_size + offset + count)
  unfolding read_blocks
  read_round rounds block offset count some few small within rest =
      let start = block * block_size + offset in
      let chars = chars_of count in
      let low : chars ≤ count = ground arith in
      let goes_on : ((count == 0) || leb (2 ^ 31) count) ≡ false = ground arith in
      let fits : ltb block_size (offset + chars) ≡ false = ground arith in
      let next : u32 (block + 1) ≡ block + 1 = omega arith in
      let after : u32 (start + chars) ≡ start + chars = omega arith in
      let all : chars + (count - chars) ≡ count = omega arith in
      rw (goes_on, fits, next, after, rest)
        (ap (λ xs. ok (xs, start + count))
          (ap (λ xs. xs ++ copied disk (start + chars) (count - chars))
              (copied-sector block offset chars within)
            ∙ (copied-append disk start chars (count - chars) ∙ ap (λ n. copied disk start n) all)))

  -- A read of nothing.
  nothing_left :
      (rounds block offset pos : ℕ)
      → read_blocks sector (suc rounds) block offset 0 pos ≡ ok ([], pos)
  unfolding read_blocks
  nothing_left rounds block offset pos = refl

  -- A read that ends in its first block.
  last_round :
      (rounds block offset count : ℕ)
      → 0 < count
      → offset + count ≤ block_size
      → block * block_size + offset + count < 2 ^ 32
      → read_blocks sector (suc (suc rounds)) block offset count (block * block_size + offset)
        ≡ ok (copied disk (block * block_size + offset) count, block * block_size + offset + count)
  last_round rounds block offset count some within small =
      let whole : chars_of count ≡ count = ground arith in
      let none_left : count - count ≡ 0 = omega arith in
      read_round (suc rounds) block offset count some (omega arith) small (rw whole within) (
        rw (whole, none_left)
          (nothing_left rounds (block + 1) 0 (block * block_size + offset + count)))

  -- From the start of a block on nothing spills.
  read_blocks-copied :
      (rounds block count : ℕ)
      → count < rounds
      → count < 2 ^ 31
      → block * block_size + count < 2 ^ 32
      → read_blocks sector rounds block 0 count (block * block_size + 0)
        ≡ ok (copied disk (block * block_size + 0) count, block * block_size + 0 + count)
  read_blocks-copied zero block count enough few small = absurd (omega arith)
  read_blocks-copied (suc rounds) block zero enough few small =
      nothing_left rounds block 0 _ ∙ ap (λ p. ok ([], p)) (omega arith)
  read_blocks-copied (suc zero) block (suc count) enough few small = absurd (omega arith)
  read_blocks-copied (suc (suc rounds)) block (suc count) enough few small =
      elim (Bool-cases (ltb block_size (suc count))) [
        | inr short ↦
            last_round rounds block 0 (suc count) (omega arith) (ground arith) (omega arith)
        | inl long ↦
            let full : chars_of (suc count) ≡ block_size = ground arith in
            let here : block * block_size + 0 + block_size ≡ (block + 1) * block_size + 0 =
              omega arith in
            let end : (block + 1) * block_size + 0 + (suc count - block_size)
                ≡ block * block_size + 0 + suc count =
              ground arith in
            let rest =
              read_blocks-copied (suc rounds) (block + 1) (suc count - block_size) (ground arith)
                (ground arith) (ground arith) in
            read_round (suc rounds) block 0 (suc count) (omega arith) few (omega arith)
              (ground arith)
              (rw (full, here)
                (rest
                  ∙ ap
                      (λ p.
                        ok (copied disk ((block + 1) * block_size + 0) (suc count - block_size), p))
                      end))
      ]

  -- A first copy that does not fit into its block.
  spilled :
      (rounds block offset count pos : ℕ)
      → 0 < count
      → count < 2 ^ 31
      → ltb block_size (offset + chars_of count) ≡ true
      → read_blocks sector (suc rounds) block offset count pos ≡ fault
  unfolding read_blocks
  spilled rounds block offset count pos some few spills =
      let goes_on : ((count == 0) || leb (2 ^ 31) count) ≡ false = ground arith in
      rw (goes_on, spills) refl

  -- A first copy that fits: either it starts a block, or it is the only one.
  within_blocks :
      (rounds block offset count : ℕ)
      → 0 < count
      → count < suc (suc rounds)
      → count < 2 ^ 31
      → block * block_size + offset + count < 2 ^ 32
      → ltb block_size (offset + chars_of count) ≡ false
      → read_blocks sector (suc (suc rounds)) block offset count (block * block_size + offset)
        ≡ ok (copied disk (block * block_size + offset) count, block * block_size + offset + count)
  within_blocks rounds block zero count some enough few small fits =
      read_blocks-copied (suc (suc rounds)) block count enough few (omega arith)
  within_blocks rounds block (suc offset) count some enough few small fits =
      last_round rounds block (suc offset) count some (ground arith) small

  -- For every position and count that fit their widths, with a round for each byte: the read copies
  -- `count` bytes of the device from the position on, and moves the position behind them. But if
  -- what it takes from the first block, `count` bytes or 512, does not fit behind the position's
  -- offset in that block, it reads behind the end of the block's buffer.
  pub bdev_read-disk :
      (rounds count pos : ℕ)
      → count < rounds
      → count < 2 ^ 31
      → pos + count < 2 ^ 32
      → bdev_read sector rounds count pos ≡ (
          if ltb block_size (pos % block_size + chars_of count)
          then fault
          else ok (copied disk pos count, pos + count))
  unfolding bdev_read
  bdev_read-disk zero count pos enough few small = absurd (omega arith)
  bdev_read-disk (suc rounds) zero pos enough few small =
      let inside : ltb block_size (pos % block_size + 0) ≡ false = ground arith in
      rw inside (nothing_left rounds _ _ pos ∙ ap (λ p. ok ([], p)) (omega arith))
  bdev_read-disk (suc zero) (suc count) pos enough few small = absurd (omega arith)
  bdev_read-disk (suc (suc rounds)) (suc count) pos enough few small =
      let count = suc count in
      let split : pos / block_size * block_size + pos % block_size ≡ pos = omega arith in
      elim (Bool-cases (ltb block_size (pos % block_size + chars_of count))) [
        | inl spills ↦ rw spills (spilled (suc rounds) _ _ count pos (omega arith) few spills)
        | inr fits ↦ rw fits (
            subst
              (λ p.
                read_blocks sector (suc (suc rounds)) (pos / block_size) (pos % block_size) count p
                ≡ ok (copied disk p count, p + count))
              split
              (within_blocks rounds (pos / block_size) (pos % block_size) count (omega arith) enough
                few (omega arith) fits))
      ]
