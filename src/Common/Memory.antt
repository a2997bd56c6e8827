-- ===== src/Common/Memory.antt =====
-- `memset`, `memcpy` and `memmove` of src/common.c, on a memory of bytes at addresses.
use saxon_os.Prelude.{
  ℕ, zero, suc, ◌+◌, ◌-◌, ◌≤◌, ◌≡◌, refl, arith, ltb, leb, ◌==◌, ◌&&◌, if◌then◌else◌, ◌⊎◌, true,
  false, Bool, Bool-cases, inl, inr, ◌∙◌,
}

abbrev pub Memory : Type 0
Memory = ℕ → ℕ

abbrev pub write8 : Memory → ℕ → ℕ → Memory
write8 m a v b = if b == a then v else m b

unfoldable pub memset : (dest value count : ℕ) → Memory → Memory
memset dest value zero m = m
memset dest value (suc count) m = memset (dest + 1) value count (write8 m dest value)

pub memcpy : (dest src count : ℕ) → Memory → Memory
memcpy dest src zero m = m
memcpy dest src (suc count) m = memcpy (dest + 1) (src + 1) count (write8 m dest (m src))

-- `tmp` is where the function's array of `n` bytes lies on the stack.
pub memmove : (tmp dest src n : ℕ) → Memory → Memory
memmove tmp dest src n m = memcpy dest tmp n (memcpy tmp src n m)

abbrev pub Apart : ℕ → ℕ → ℕ → Type 0
Apart a b n = (a + n ≤ b) ⊎ (b + n ≤ a)

-- Address `a` is one of the `n` addresses from `start` on.
abbrev pub within : ℕ → ℕ → ℕ → Bool
within start n a = leb start a && ltb a (start + n)

-- `memset` fills exactly its `count` bytes.
pub memset_lem :
    (dest value count : ℕ) (m : Memory) (a : ℕ)
    → memset dest value count m a ≡ (if within dest count a then value else m a)
unfolding memset
memset_lem dest value zero m a = ground arith
memset_lem dest value (suc count) m a =
    ground (arith, memset_lem (dest + 1) value count (write8 m dest value) a)

-- One round of the loop, and the rest of it: the byte at `a` comes from `from` or stays.
memcpy_round :
    (dest src count : ℕ) (m : Memory) (a r : ℕ)
    → (dest ≤ src) ⊎ (src + suc count ≤ dest)
    → r ≡ (
        if within (dest + 1) count a
        then write8 m dest (m src) (src + 1 + (a - (dest + 1)))
        else write8 m dest (m src) a)
    → r ≡ (if within dest (suc count) a then m (src + (a - dest)) else m a)
memcpy_round dest src count m a r h e = elim (Bool-cases (a == dest)) [
  | inl first ↦
      let at : a ≡ dest = ground arith in
      let before : within (dest + 1) count a ≡ false = ground arith in
      let inside : within dest (suc count) a ≡ true = ground arith in
      let start : src + (a - dest) ≡ src = omega arith in
      rw (inside, start) (e ∙ rw (before, first) refl)
  | inr later ↦ elim (Bool-cases (within (dest + 1) count a)) [
    | inl rest ↦
        let inside : within dest (suc count) a ≡ true = ground arith in
        let place : src + 1 + (a - (dest + 1)) ≡ src + (a - dest) = ground arith in
        let untouched : (src + (a - dest) == dest) ≡ false = ground arith in
        rw inside (e ∙ rw (rest, place, untouched) refl)
    | inr out ↦
        let outside : within dest (suc count) a ≡ false = ground arith in
        rw outside (e ∙ rw (out, later) refl)
  ]
]

-- If the destination does not begin inside the source, `memcpy` leaves in its `count` bytes what
-- the source held before, and changes no other byte.
pub memcpy_lem :
    (dest src count : ℕ) (m : Memory)
    → (dest ≤ src) ⊎ (src + count ≤ dest)
    → (a : ℕ)
    → memcpy dest src count m a ≡ (if within dest count a then m (src + (a - dest)) else m a)
unfolding memcpy
memcpy_lem dest src zero m h a =
    let nowhere : within dest 0 a ≡ false = ground arith in rw nowhere refl
memcpy_lem dest src (suc count) m h a =
    memcpy_round dest src count m a _ h
      (memcpy_lem (dest + 1) (src + 1) count (write8 m dest (m src)) (omega arith) a)

-- With its array apart from both regions, `memmove` leaves in the destination what the source held
-- before, however the two overlap, and changes nothing else but the array.
pub memmove_lem :
    (tmp dest src n : ℕ) (m : Memory)
    → Apart tmp src n
    → Apart tmp dest n
    → (a : ℕ) → within tmp n a ≡ false
    → memmove tmp dest src n m a ≡ (if within dest n a then m (src + (a - dest)) else m a)
unfolding memmove
memmove_lem tmp dest src n m p q a out =
    let away : (dest ≤ tmp) ⊎ (tmp + n ≤ dest) = omega arith in
    let there : (tmp ≤ src) ⊎ (src + n ≤ tmp) = omega arith in
    ground (
      arith,
      memcpy_lem dest tmp n (memcpy tmp src n m) away a,
      memcpy_lem tmp src n m there (tmp + (a - dest)),
      memcpy_lem tmp src n m there a,
    )
