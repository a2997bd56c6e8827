-- ===== src/Mm/Heap/Malloc.antt =====
-- Taking a block: the first that is free and large enough, without what it does not need.
use saxon_os.Prelude.{
  ℕ, ◌+◌, ◌-◌, ◌<◌, ◌≤◌, ◌≡◌, ◌≢◌, refl, arith, ◌==◌, ◌⊎◌, inl, inr, if◌then◌else◌, true, false,
  Bool-cases, ap, ◌∙◌, leb, u32,
}
use saxon_os.Common.Memory.{Memory}
use saxon_os.Mm.Heap.{header_size, used, size_of, set_used, split}
use saxon_os.Mm.Heap.Blocks.{
  IsHeap, KeepsBytes, addr-Off, addr-end, addr-Same, addr-eq, marked_heap,
}
use saxon_os.Mm.Heap.Header.{Same, size_of-set_used}
use saxon_os.Mm.Heap.Cut.{cut_heap, cut_addr, cut-below, cut-tail, cut-above}
use saxon_os.Mm.Heap.Tail.{tail-Off, cut_outside, used-cut, used-tail, size_of-cut}

-- Block `j` of a heap is a block of another, with the same bytes and the same field `used`.
pub record Kept {start end : ℕ} {m m' : Memory} (v : IsHeap start end m) (j : ℕ)
    (v' : IsHeap start end m') : Type 0 where
  pub block : ℕ
  pub kept_lt : block < v'.count
  pub place : v'.addr block ≡ v.addr j
  pub reach : v'.addr (block + 1) ≡ v.addr (j + 1)
  pub state : used m' (v'.addr block) ≡ used m (v.addr j)

-- Block `i` of a heap is taken for `size` bytes in another, which has the other blocks and at most
-- one more, a free one behind these bytes.
pub record Occupied {start end : ℕ} {m : Memory} (v : IsHeap start end m) (i size : ℕ) (m' : Memory)
    : Type 0 where
  pub heap : IsHeap start end m'
  pub index_lt : i < heap.count
  pub place : heap.addr i ≡ v.addr i
  pub taken : used m' (v.addr i) ≡ 1
  pub enough : size ≤ size_of m' (v.addr i)
  pub others : (j : ℕ) → j < v.count → j ≢ i → Kept v j heap
  pub blocks :
      (j : ℕ)
      → j < heap.count
      → ((k : ℕ) × (k < v.count) × (heap.addr j ≡ v.addr k))
        ⊎ ((heap.addr j ≡ v.addr i + header_size + size) × (used m' (heap.addr j) ≡ 0))
  pub bytes : (j : ℕ) → j < v.count → j ≢ i → KeepsBytes v j m'

module _ {start end : ℕ} {m : Memory} (v : IsHeap start end m) (i size : ℕ) (p : i < v.count) where
  -- The field `used` is none of a block's bytes.
  marked_bytes :
      (m' : Memory)
      → (j : ℕ) → j < v.count
      → (a : ℕ) → v.addr j + header_size ≤ a
      → a < v.addr (j + 1)
      → set_used m' (v.addr i) 1 a ≡ m' a
  marked_bytes m' j q a low high = let off = addr-Off v j q a low high i p in ground arith

  taken_whole : size ≤ size_of m (v.addr i) → Occupied v i size (set_used m (v.addr i) 1)
  taken_whole le = record {
    heap = marked_heap v (v.addr i) 1 (λ j q. addr-Same v i j p q);
    index_lt = p;
    place = refl;
    taken = ground arith;
    enough = rw (size_of-set_used m (v.addr i) 1 (v.addr i) (inl refl)) le;
    others = λ j q ne. record {
      block = j;
      kept_lt = q;
      place = refl;
      reach = refl;
      state = other j q ne;
    };
    blocks = λ j q. inl (j, q, refl);
    bytes = λ j q ne a low high. marked_bytes m j q a low high;
  }
    where
      other :
          (j : ℕ)
          → j < v.count
          → j ≢ i
          → used (set_used m (v.addr i) 1) (v.addr j) ≡ used m (v.addr j)
      other j q ne =
          let e : (v.addr j == v.addr i) ≡ false = addr-eq v j i q p ∙ ground arith in rw e refl

  module _ (room : size + header_size + 1 ≤ size_of m (v.addr i)) where
    -- The number of an old block, and of a new one.
    place_of : ℕ → ℕ
    place_of j = if leb j i then j else j + 1

    cut_place : (j : ℕ) → cut_addr v i size p room (place_of j) ≡ v.addr j
    unfolding place_of
    cut_place j = elim (Bool-cases (leb j i)) [
      | inl below ↦ rw below (cut-below v i size p room j (ground arith))
      | inr above ↦ rw above (cut-above v i size p room (j + 1) j (ground arith) refl)
    ]

    cut_reach : (j : ℕ) → j ≢ i → cut_addr v i size p room (place_of j + 1) ≡ v.addr (j + 1)
    unfolding place_of
    cut_reach j ne = elim (Bool-cases (leb j i)) [
      | inl below ↦ rw below (cut-below v i size p room (j + 1) (ground arith))
      | inr above ↦ rw above (cut-above v i size p room (j + 1 + 1) (j + 1) (ground arith) refl)
    ]

    abbrev piece : Memory
    piece = split m (v.addr i) size

    marked_used :
        (j : ℕ)
        → j < v.count
        → j ≢ i
        → used (set_used piece (v.addr i) 1) (v.addr j) ≡ used m (v.addr j)
    marked_used j q ne =
        let e : (v.addr j == v.addr i) ≡ false = addr-eq v j i q p ∙ ground arith in
        rw e (used-cut v i size p room j q)

    marked_same : (j : ℕ) → j < v.count + 1 → Same (v.addr i) (cut_addr v i size p room j)
    marked_same j q =
        at (cut-below v i size p room i (omega arith))
          (addr-Same (cut_heap v i size p room) i j (omega arith) q)
      where
        at : {a a' b : ℕ} → a' ≡ a → Same a' b → Same a b
        at e s = omega arith

    marked_tail : used (set_used piece (v.addr i) 1) (v.addr i + header_size + size) ≡ 0
    marked_tail =
        let apart : (v.addr i + header_size + size == v.addr i) ≡ false = ground arith in
        rw apart (used-tail v i size p room)

    cut_blocks :
        (j : ℕ)
        → j < v.count + 1
        → ((k : ℕ) × (k < v.count) × (cut_addr v i size p room j ≡ v.addr k))
          ⊎ ((cut_addr v i size p room j ≡ v.addr i + header_size + size)
              × (used (set_used piece (v.addr i) 1) (cut_addr v i size p room j) ≡ 0))
    cut_blocks j q = elim (three) [
      | inl below ↦ inl (j, omega arith, cut-below v i size p room j below)
      | inr (inl new) ↦
          let at = cut-tail v i size p room j new in
          inr (at, ap (used (set_used piece (v.addr i) 1)) at ∙ marked_tail)
      | inr (inr above) ↦
          inl (j - 1, omega arith, cut-above v i size p room j (j - 1) (omega arith) (omega arith))
    ]
      where
        three : (j ≤ i) ⊎ (j ≡ i + 1) ⊎ (i + 1 < j)
        three = omega arith

    taken_part : Occupied v i size (set_used piece (v.addr i) 1)
    unfolding place_of
    taken_part = record {
      heap = marked_heap (cut_heap v i size p room) (v.addr i) 1 marked_same;
      index_lt = omega arith;
      place = cut-below v i size p room i (omega arith);
      taken = ground arith;
      enough =
          let same : (i == i) ≡ true = ground arith in
          rw
            (
              size_of-set_used piece (v.addr i) 1 (v.addr i) (inl refl),
              size_of-cut v i size p room i p,
              same,
            )
            (omega arith);
      others = λ j q ne. record {
        block = place_of j;
        kept_lt = ground arith;
        place = cut_place j;
        reach = cut_reach j ne;
        state = ap (used (set_used piece (v.addr i) 1)) (cut_place j) ∙ marked_used j q ne;
      };
      blocks = cut_blocks;
      bytes = λ j q ne a low high.
          marked_bytes piece j q a low high
          ∙ cut_outside v i size p room a (tail-Off v i size p room j q ne a low high)
              (addr-Off v j q a low high);
    }

  -- The end of both allocators, for a block that is larger than the request.
  pub occupied :
      size < size_of m (v.addr i)
      → Occupied v i size (set_used (split m (v.addr i) size) (v.addr i) 1)
  unfolding split
  occupied lt = elim (Bool-cases (leb (size + header_size + 1) (size_of m (v.addr i)))) [
    | inl room ↦ taken_part (ground arith)
    | inr tight ↦
        let tight' : leb (u32 (size + header_size + 1)) (size_of m (v.addr i)) ≡ false =
          exact ∙ tight in
        rw tight' (taken_whole (omega arith))
  ]
    where
      exact :
          leb (u32 (size + header_size + 1)) (size_of m (v.addr i))
          ≡ leb (size + header_size + 1) (size_of m (v.addr i))
      exact =
          ap (λ s. leb s (size_of m (v.addr i)))
            (omega (arith, v.sizes i p, addr-end v i p, v.in_memory, lt))
