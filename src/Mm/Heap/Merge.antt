-- ===== src/Mm/Heap/Merge.antt =====
-- A heap in which a block has absorbed the one behind it is a heap with one block less.
use saxon_os.Prelude.{
  ℕ, ◌+◌, ◌-◌, ◌<◌, ◌≤◌, ◌≡◌, refl, arith, ◌==◌, ◌⊎◌, inl, inr, if◌then◌else◌, true, false, ap, ◌∙◌,
}
use saxon_os.Common.Memory.{Memory}
use saxon_os.Mm.Heap.{header_size, prev, next, size_of}
use saxon_os.Mm.Heap.Blocks.{IsHeap}
use saxon_os.Mm.Heap.Joined.{size_of-merged, next-merged, prev-merged, merged, old}

module _ {start end : ℕ} {m : Memory} (v : IsHeap start end m) (i : ℕ)
    (inner : i + 1 < v.count) where
  pub old-lt : (j : ℕ) → j < v.count - 1 → (old v i inner) j < v.count
  old-lt j p = ground arith

  pub addr-below : (j : ℕ) → j ≤ i → v.addr ((old v i inner) j) ≡ v.addr j
  addr-below j p = ap v.addr (ground arith)

  pub addr-above : (j : ℕ) → i < j → v.addr ((old v i inner) j) ≡ v.addr (j + 1)
  addr-above j p = ap v.addr (ground arith)

  pub merged_sizes :
      (j : ℕ)
      → j < v.count - 1
      → v.addr ((old v i inner) j)
          + header_size
          + size_of (merged v i inner) (v.addr ((old v i inner) j))
        ≡ v.addr ((old v i inner) (j + 1))
  merged_sizes j p = elim (three) [
    | inl below ↦
        let other : (j == i) ≡ false = ground arith in
        rw
          (
            addr-below j (omega arith),
            addr-below (j + 1) (omega arith),
            size_of-merged v i inner j (omega arith),
            other,
          )
          (v.sizes j (omega arith))
    | inr (inl here) ↦
        let same : (j == i) ≡ true = ground arith in
        let e : v.addr j ≡ v.addr i = ap v.addr here in
        let e2 : v.addr (j + 1) ≡ v.addr (i + 1) = ap v.addr (omega arith) in
        let e3 : v.addr (j + 1 + 1) ≡ v.addr (i + 1 + 1) = ap v.addr (omega arith) in
        rw
          (
            addr-below j (omega arith),
            addr-above (j + 1) (omega arith),
            size_of-merged v i inner j (omega arith),
            same,
            e,
            e3,
          )
          (omega (arith, v.sizes i (omega arith), v.sizes (i + 1) inner))
    | inr (inr above) ↦
        let other : (j + 1 == i) ≡ false = ground arith in
        rw
          (
            addr-above j above,
            addr-above (j + 1) (omega arith),
            size_of-merged v i inner (j + 1) (omega arith),
            other,
          )
          (v.sizes (j + 1) (omega arith))
  ]
    where
      three : (j < i) ⊎ (j ≡ i) ⊎ (i < j)
      three = omega arith

  pub merged_nexts :
      (j : ℕ)
      → j < v.count - 1
      → next (merged v i inner) (v.addr ((old v i inner) j))
        ≡ (if j + 1 == v.count - 1 then 0 else v.addr ((old v i inner) (j + 1)))
  merged_nexts j p = elim (three) [
    | inl below ↦
        let other : (j == i) ≡ false = ground arith in
        let more : (j + 1 == v.count - 1) ≡ false = ground arith in
        let more' : (j + 1 == v.count) ≡ false = ground arith in
        rw
          (
            addr-below j (omega arith),
            addr-below (j + 1) (omega arith),
            next-merged v i inner j (omega arith),
            other,
            more,
            v.nexts j (omega arith),
            more',
          )
          refl
    | inr (inl here) ↦
        let same : (j == i) ≡ true = ground arith in
        let last : (j + 1 == v.count - 1) ≡ (i + 1 + 1 == v.count) = ground arith in
        let e3 : v.addr (j + 1 + 1) ≡ v.addr (i + 1 + 1) = ap v.addr (omega arith) in
        rw
          (
            addr-below j (omega arith),
            addr-above (j + 1) (omega arith),
            next-merged v i inner j (omega arith),
            same,
            last,
            e3,
          )
          refl
    | inr (inr above) ↦
        let other : (j + 1 == i) ≡ false = ground arith in
        let last : (j + 1 == v.count - 1) ≡ (j + 1 + 1 == v.count) = ground arith in
        rw
          (
            addr-above j above,
            addr-above (j + 1) (omega arith),
            next-merged v i inner (j + 1) (omega arith),
            other,
            last,
            v.nexts (j + 1) (omega arith),
          )
          refl
  ]
    where
      three : (j < i) ⊎ (j ≡ i) ⊎ (i < j)
      three = omega arith

  pub merged_prevs :
      (j : ℕ)
      → j < v.count - 1
      → prev (merged v i inner) (v.addr ((old v i inner) j))
        ≡ (if j == 0 then 0 else v.addr ((old v i inner) (j - 1)))
  merged_prevs j p = elim (three) [
    | inl below ↦
        let other : (j == i + 1 + 1) ≡ false = ground arith in
        rw
          (
            addr-below j below,
            addr-below (j - 1) (omega arith),
            prev-merged v i inner j (omega arith),
            other,
          )
          (v.prevs j (omega arith))
    | inr (inl here) ↦
        let same : (j + 1 == i + 1 + 1) ≡ true = ground arith in
        let inside : (j == 0) ≡ false = ground arith in
        let e : v.addr (j - 1) ≡ v.addr i = ap v.addr (omega arith) in
        rw
          (
            addr-above j (omega arith),
            addr-below (j - 1) (omega arith),
            prev-merged v i inner (j + 1) (omega arith),
            same,
            inside,
            e,
          )
          refl
    | inr (inr above) ↦
        let other : (j + 1 == i + 1 + 1) ≡ false = ground arith in
        let inside : (j == 0) ≡ false = ground arith in
        let inside' : (j + 1 == 0) ≡ false = ground arith in
        let e : v.addr (j + 1 - 1) ≡ v.addr (j - 1 + 1) = ap v.addr (omega arith) in
        rw
          (
            addr-above j (omega arith),
            addr-above (j - 1) (omega arith),
            prev-merged v i inner (j + 1) (omega arith),
            other,
            inside,
            v.prevs (j + 1) (omega arith),
            inside',
            e,
          )
          refl
  ]
    where
      three : (j ≤ i) ⊎ (j ≡ i + 1) ⊎ (i + 1 < j)
      three = omega arith

  abbrev pub merged_heap : IsHeap start end (merged v i inner)
  merged_heap = record {
    addr = λ j. v.addr ((old v i inner) j);
    count = v.count - 1;
    some_block = omega arith;
    starts = addr-below 0 (omega arith) ∙ v.starts;
    ends = addr-above (v.count - 1) (omega arith) ∙ (ap v.addr (omega arith) ∙ v.ends);
    sizes = merged_sizes;
    nexts = merged_nexts;
    prevs = merged_prevs;
    not_null = v.not_null;
    in_memory = v.in_memory;
  }
