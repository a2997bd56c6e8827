-- ===== src/Fs/Devfs/Store.antt =====
-- What one round of a write to a block device stores, and what two in a row do.
use saxon_os.Prelude.{
  ℕ, ◌+◌, ◌-◌, ◌*◌, ◌<◌, ◌≤◌, ◌≡◌, refl, ap, ◌∙◌, arith, ltb, leb, ◌==◌, ◌&&◌, if◌then◌else◌, true,
  false, Bool, Bool-cases, inl, inr,
}
use saxon_os.Common.Memory.{within}
use saxon_os.Fs.Devfs.{block_size, Blocks, store_chars}

-- A byte of block `n` is among the `count` bytes of the device from `pos` on.
abbrev pub touches : (pos count n : ℕ) → Bool
touches pos count n =
    ltb 0 count && (ltb (n * block_size) (pos + count) && ltb pos (n * block_size + block_size))

-- The `count` bytes of the device from `pos` on are those of `src`, all others are as before, and
-- the blocks of those bytes are marked.
pub record Written (src : ℕ → ℕ) (pos count : ℕ) (s s' : Blocks) : Type 0 where
  pub bytes :
      (n o : ℕ)
      → o < block_size
      → s'.sector n o ≡ (
          if within pos count (n * block_size + o)
          then src (n * block_size + o - pos)
          else s.sector n o)
  pub marks : (n : ℕ) → s'.dirty n ≡ (if touches pos count n then true else s.dirty n)

-- One round.
pub store_chars-Written :
    (src : ℕ → ℕ)
    → (block offset n : ℕ) → (s : Blocks) → 0 < n
    → offset + n ≤ block_size
    → Written src (block * block_size + offset) n s (store_chars src block offset n s)
unfolding store_chars
store_chars-Written src block offset n s some fits = record {
  bytes = λ b o below. elim (Bool-cases (b == block)) [
    | inl here ↦
        let test : within (block * block_size + offset) n (b * block_size + o)
            ≡ (leb offset o && ltb o (offset + n)) =
          ground arith in
        let place : b * block_size + o - (block * block_size + offset) ≡ o - offset =
          ground arith in
        rw (here, test, place) refl
    | inr other ↦
        let test : within (block * block_size + offset) n (b * block_size + o) ≡ false =
          ground arith in
        rw (other, test) refl
  ];
  marks = λ b.
      let test : touches (block * block_size + offset) n b ≡ (b == block) = ground arith in
      rw test refl;
}

-- A write of nothing, and a write behind another.
pub Written-refl : (src : ℕ → ℕ) → (pos : ℕ) → (s : Blocks) → Written src pos 0 s s
Written-refl src pos s = record {
  bytes = λ b o below.
      let test : within pos 0 (b * block_size + o) ≡ false = ground arith in rw test refl;
  marks = λ b. refl;
}

pub Written-trans :
    (src : ℕ → ℕ)
    → (pos c d : ℕ) → (s s' s'' : Blocks) → Written src pos c s s'
    → Written (λ i. src (c + i)) (pos + c) d s' s''
    → Written src pos (c + d) s s''
Written-trans src pos c d s s' s'' u v = record {
  bytes = λ b o below.
      let a = b * block_size + o in
      elim (Bool-cases (within (pos + c) d a)) [
        | inl second ↦
            let all : within pos (c + d) a ≡ true = ground arith in
            let place : c + (a - (pos + c)) ≡ a - pos = ground arith in
            v.bytes b o below ∙ rw (second, all) (ap src place)
        | inr not_second ↦
            let all : within pos (c + d) a ≡ within pos c a = ground arith in
            v.bytes b o below ∙ rw (not_second, all) (u.bytes b o below)
      ];
  marks = λ b. elim (Bool-cases (touches (pos + c) d b)) [
    | inl second ↦
        let all : touches pos (c + d) b ≡ true = ground arith in v.marks b ∙ rw (second, all) refl
    | inr not_second ↦
        let all : touches pos (c + d) b ≡ touches pos c b = ground arith in
        v.marks b ∙ rw (not_second, all) (u.marks b)
  ];
}
