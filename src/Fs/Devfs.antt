-- ===== src/Fs/Devfs.antt =====
-- src/fs/devfs/devfs.c: reading from and writing to a block device. The blocks come through the
-- buffer cache; `sector n` stands for the 512 bytes that `get_block` returns for block `n` of the
-- device.
pub mod Read
pub mod Inode
pub mod Store
pub mod Write
use saxon_os.Prelude.{
  ℕ, zero, suc, ◌+◌, ◌-◌, ◌/◌, ◌%◌, ◌^◌, ltb, leb, ◌==◌, ◌||◌, ◌&&◌, Bool, true, if◌then◌else◌,
  List, [], ◌∷◌, ◌++◌, u32, Outcome, ok, fault, hang, ◌>>=◌,
}

abbrev pub block_size : ℕ
block_size = 512

-- The bytes that a loop copies from `n` places of `source`, from `start` on.
abbrev pub copied : (source : ℕ → ℕ) → (start n : ℕ) → List ℕ
copied source start zero = []
copied source start (suc n) = source start ∷ copied source (start + 1) n

-- `(count < BLOCK_SIZE) ? count : BLOCK_SIZE`
abbrev pub chars_of : ℕ → ℕ
chars_of count = if ltb count block_size then count else block_size

module _ (sector : ℕ → ℕ → ℕ) where
  -- The loop `while (count > 0)`, with what it stores from `dest` on and the new `*pos`. `count` is
  -- an `int`, from 2 ^ 31 on a negative one. A copy from behind the end of the buffer is a fault.
  pub read_blocks : (rounds block offset count pos : ℕ) → Outcome (List ℕ × ℕ)
  read_blocks zero block offset count pos = hang
  read_blocks (suc rounds) block offset count pos =
      let chars = chars_of count in
      let rest = read_blocks rounds (u32 (block + 1)) 0 (count - chars) (u32 (pos + chars)) in
      if (count == 0) || leb (2 ^ 31) count
      then ok ([], pos)
      else if ltb block_size (offset + chars)
      then fault
      else (rest >>= λ r. ok (copied (sector block) offset chars ++ r.0, r.1))

  -- The bytes read are as many as are stored, so the result is their number.
  pub bdev_read : (rounds count pos : ℕ) → Outcome (List ℕ × ℕ)
  bdev_read rounds count pos = read_blocks rounds (pos / block_size) (pos % block_size) count pos

-- The blocks in the cache: their bytes, and whether they are marked to be written to the device.
pub record Blocks : Type 0 where
  pub sector : ℕ → ℕ → ℕ
  pub dirty : ℕ → Bool

-- What one round of the loop of `bdev_write` stores in a block: `n` bytes of `src` from `offset`
-- on.
unfoldable pub store_chars : (src : ℕ → ℕ) → (block offset n : ℕ) → Blocks → Blocks
store_chars src block offset n s = record {
  sector = λ b o.
      if (b == block) && (leb offset o && ltb o (offset + n))
      then src (o - offset)
      else s.sector b o;
  dirty = λ b. if b == block then true else s.dirty b;
}

-- The loop `while (count > 0)`, with the new `*pos`. A store_chars behind the end of the buffer is
-- a fault.
pub write_blocks :
    (rounds : ℕ) → (src : ℕ → ℕ) → (block offset count pos : ℕ) → Blocks → Outcome (Blocks × ℕ)
write_blocks zero src block offset count pos s = hang
write_blocks (suc rounds) src block offset count pos s =
    let chars = chars_of count in
    let rest =
      write_blocks rounds (λ i. src (chars + i)) (u32 (block + 1)) 0 (count - chars)
        (u32 (pos + chars)) (store_chars src block offset chars s) in
    if (count == 0) || leb (2 ^ 31) count
    then ok (s, pos)
    else if ltb block_size (offset + chars)
    then fault
    else rest

pub bdev_write : (rounds : ℕ) → (src : ℕ → ℕ) → (count pos : ℕ) → Blocks → Outcome (Blocks × ℕ)
bdev_write rounds src count pos s =
    write_blocks rounds src (pos / block_size) (pos % block_size) count pos s
