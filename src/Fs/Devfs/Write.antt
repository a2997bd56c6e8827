-- ===== src/Fs/Devfs/Write.antt =====
-- What a write to a block device stores.
use saxon_os.Prelude.{
  ℕ, zero, suc, ◌+◌, ◌-◌, ◌*◌, ◌/◌, ◌%◌, ◌^◌, ◌<◌, ◌≤◌, ◌≡◌, refl, ap, ap₂, subst, ◌∙◌, arith, ltb,
  leb, ◌==◌, ◌||◌, if◌then◌else◌, true, false, Bool, Bool-cases, ◌⊎◌, inl, inr, u32, ok, fault,
}
use saxon_os.Common.Memory.{within}
use saxon_os.Fs.Devfs.{
  block_size, chars_of, copied, Blocks, store_chars, write_blocks, bdev_write, bdev_read,
}
use saxon_os.Fs.Devfs.Read.{copied-agree, bdev_read-disk}
use saxon_os.Fs.Devfs.Store.{Written, store_chars-Written, Written-refl, Written-trans}

-- What the loop ends in.
abbrev Stores : (src : ℕ → ℕ) → (rounds block offset count pos : ℕ) → Blocks → Type 0
Stores src rounds block offset count pos s =
    (s' : Blocks) × (write_blocks rounds src block offset count pos s ≡ ok (s', pos + count))
    × Written src pos count s s'

nothing_left :
    (src : ℕ → ℕ)
    → (rounds block offset pos : ℕ) → (s : Blocks) → Stores src (suc rounds) block offset 0 pos s
unfolding write_blocks
nothing_left src rounds block offset pos s =
    (s, ap (λ p. ok (s, p)) (omega arith), Written-refl src pos s)

-- One round that stays within the block, and the rest.
write_round :
    (src : ℕ → ℕ)
    → (rounds block offset count : ℕ) → (s : Blocks) → 0 < count
    → count < 2 ^ 31
    → block * block_size + offset + count < 2 ^ 32
    → offset + chars_of count ≤ block_size
    → Stores
        (λ i. src (chars_of count + i))
        rounds
        (block + 1)
        0
        (count - chars_of count)
        (block * block_size + offset + chars_of count)
        (store_chars src block offset (chars_of count) s)
    → Stores src (suc rounds) block offset count (block * block_size + offset) s
unfolding write_blocks
write_round src rounds block offset count s some few small fits rest =
    let start = block * block_size + offset in
    let chars = chars_of count in
    let low : chars ≤ count = ground arith in
    let goes_on : ((count == 0) || leb (2 ^ 31) count) ≡ false = ground arith in
    let inside : ltb block_size (offset + chars) ≡ false = ground arith in
    let next : u32 (block + 1) ≡ block + 1 = omega arith in
    let after : u32 (start + chars) ≡ start + chars = omega arith in
    let all : chars + (count - chars) ≡ count = omega arith in
    let end : start + chars + (count - chars) ≡ start + count = omega arith in
    (
      rest.0,
      rw (goes_on, inside, next, after) (rest.1 ∙ ap (λ p. ok (rest.0, p)) end),
      rw (← all) (
          Written-trans src start chars (count - chars) s (store_chars src block offset chars s)
            rest.0 (store_chars-Written src block offset chars s (ground arith) fits) rest.2),
    )

-- A write that ends in its first block.
last_round :
    (src : ℕ → ℕ)
    → (rounds block offset count : ℕ) → (s : Blocks) → 0 < count
    → offset + count ≤ block_size
    → block * block_size + offset + count < 2 ^ 32
    → Stores src (suc (suc rounds)) block offset count (block * block_size + offset) s
last_round src rounds block offset count s some fits small =
    let whole : chars_of count ≡ count = ground arith in
    let none_left : count - count ≡ 0 = omega arith in
    write_round src (suc rounds) block offset count s some (omega arith) small (rw whole fits) (
      rw (whole, none_left)
        (nothing_left (λ i. src (count + i)) rounds (block + 1) 0
          (block * block_size + offset + count) (store_chars src block offset count s)))

-- From the start of a block on nothing spills.
write_blocks-Stores :
    (rounds : ℕ)
    → (src : ℕ → ℕ) → (block count : ℕ) → (s : Blocks) → count < rounds
    → count < 2 ^ 31
    → block * block_size + count < 2 ^ 32
    → Stores src rounds block 0 count (block * block_size + 0) s
write_blocks-Stores zero src block count s enough few small = absurd (omega arith)
write_blocks-Stores (suc rounds) src block zero s enough few small =
    nothing_left src rounds block 0 (block * block_size + 0) s
write_blocks-Stores (suc zero) src block (suc count) s enough few small = absurd (omega arith)
write_blocks-Stores (suc (suc rounds)) src block (suc count) s enough few small =
    elim (Bool-cases (ltb block_size (suc count))) [
      | inr short ↦
          last_round src rounds block 0 (suc count) s (omega arith) (ground arith) (omega arith)
      | inl long ↦
          let full : chars_of (suc count) ≡ block_size = ground arith in
          let here : block * block_size + 0 + block_size ≡ (block + 1) * block_size + 0 =
            omega arith in
          write_round src (suc rounds) block 0 (suc count) s (omega arith) few (omega arith)
            (ground arith)
            (rw (full, here)
              (write_blocks-Stores (suc rounds) (λ i. src (block_size + i)) (block + 1)
                (suc count - block_size) (store_chars src block 0 block_size s) (ground arith)
                (ground arith) (ground arith)))
    ]

within_blocks :
    (src : ℕ → ℕ)
    → (rounds block offset count : ℕ) → (s : Blocks) → 0 < count
    → count < suc (suc rounds)
    → count < 2 ^ 31
    → block * block_size + offset + count < 2 ^ 32
    → ltb block_size (offset + chars_of count) ≡ false
    → Stores src (suc (suc rounds)) block offset count (block * block_size + offset) s
within_blocks src rounds block zero count s some enough few small fits =
    write_blocks-Stores (suc (suc rounds)) src block count s enough few (omega arith)
within_blocks src rounds block (suc offset) count s some enough few small fits =
    last_round src rounds block (suc offset) count s some (ground arith) small

-- What is taken for the first block does not fit behind the position's offset in it.
abbrev pub spills : (pos count : ℕ) → Bool
spills pos count = ltb block_size (pos % block_size + chars_of count)

write_inside :
    (rounds : ℕ)
    → (src : ℕ → ℕ) → (count pos : ℕ) → (s : Blocks) → count < rounds
    → count < 2 ^ 31
    → pos + count < 2 ^ 32
    → spills pos count ≡ false
    → Stores src rounds (pos / block_size) (pos % block_size) count pos s
write_inside zero src count pos s enough few small fits = absurd (omega arith)
write_inside (suc rounds) src zero pos s enough few small fits = nothing_left src rounds _ _ pos s
write_inside (suc zero) src (suc count) pos s enough few small fits = absurd (omega arith)
write_inside (suc (suc rounds)) src (suc count) pos s enough few small fits =
    let split : pos / block_size * block_size + pos % block_size ≡ pos = omega arith in
    subst (λ p. Stores src (suc (suc rounds)) (pos / block_size) (pos % block_size) (suc count) p s)
      split
      (within_blocks src rounds (pos / block_size) (pos % block_size) (suc count) s (omega arith)
        enough few (omega arith) fits)

write_spilled :
    (rounds : ℕ)
    → (src : ℕ → ℕ) → (block offset count pos : ℕ) → (s : Blocks) → 0 < count
    → count < 2 ^ 31
    → ltb block_size (offset + chars_of count) ≡ true
    → write_blocks (suc rounds) src block offset count pos s ≡ fault
unfolding write_blocks
write_spilled rounds src block offset count pos s some few over =
    let goes_on : ((count == 0) || leb (2 ^ 31) count) ≡ false = ground arith in
    rw (goes_on, over) refl

module _ (rounds : ℕ) (src : ℕ → ℕ) (count pos : ℕ) (s : Blocks) (enough : count < rounds)
    (few : count < 2 ^ 31) (small : pos + count < 2 ^ 32) where
  -- For every position and count that fit their widths, with a round for each byte: a write stores
  -- `count` bytes of `src` from the position on, marks exactly their blocks, changes no other byte,
  -- and moves the position behind them. But if what it stores in the first block, `count` bytes or
  -- 512, does not fit behind the position's offset in that block, it stores behind the end of its
  -- buffer.
  pub bdev_write-Written :
      ((spills pos count ≡ true) × (bdev_write rounds src count pos s ≡ fault))
      ⊎ ((spills pos count ≡ false)
          × ((s' : Blocks) × (bdev_write rounds src count pos s ≡ ok (s', pos + count))
              × Written src pos count s s'))
  unfolding bdev_write
  bdev_write-Written = elim (Bool-cases (spills pos count)) [
    | inl over ↦ inl (over, over_end rounds enough over)
    | inr fits ↦ inr (fits, write_inside rounds src count pos s enough few small fits)
  ]
    where
      over_end :
          (rounds : ℕ)
          → count < rounds
          → spills pos count ≡ true
          → write_blocks rounds src (pos / block_size) (pos % block_size) count pos s ≡ fault
      over_end zero enough over = absurd (omega arith)
      over_end (suc rounds) enough over =
          write_spilled rounds src (pos / block_size) (pos % block_size) count pos s (ground arith)
            few over

  -- A read of the bytes that were written, in the blocks that the write leaves, stores what was
  -- written.
  pub bdev_read-bdev_write :
      spills pos count ≡ false
      → (s' : Blocks) × (bdev_write rounds src count pos s ≡ ok (s', pos + count))
        × (bdev_read s'.sector rounds count pos ≡ ok (copied src 0 count, pos + count))
  unfolding bdev_write
  bdev_read-bdev_write fits =
      let w = write_inside rounds src count pos s enough few small fits in
      let s' = w.0 in
      let disk : ℕ → ℕ = λ a. s'.sector (a / block_size) (a % block_size) in
      let agrees : (n o : ℕ) → o < block_size → s'.sector n o ≡ disk (n * block_size + o) =
        λ n o below. ap₂ s'.sector (omega arith) (omega arith) in
      let read = bdev_read-disk s'.sector disk agrees rounds count pos enough few small in
      let same : copied disk pos count ≡ copied src 0 count =
        copied-agree disk src pos 0 count (λ i below. stored s' w.2 i below) in
      let out =
        read
        ∙ (ap (λ b. if b then fault else ok (copied disk pos count, pos + count)) fits
            ∙ ap (λ xs. ok (xs, pos + count)) same) in
      (s', w.1, out)
    where
      stored :
          (s' : Blocks)
          → Written src pos count s s'
          → (i : ℕ) → i < count
          → s'.sector ((pos + i) / block_size) ((pos + i) % block_size) ≡ src (0 + i)
      stored s' w i below =
          let n = (pos + i) / block_size in
          let o = (pos + i) % block_size in
          let test : within pos count (n * block_size + o) ≡ true = ground arith in
          let place : n * block_size + o - pos ≡ 0 + i = omega arith in
          w.bytes n o (omega arith) ∙ rw (test, place) refl
