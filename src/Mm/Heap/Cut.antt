-- ===== src/Mm/Heap/Cut.antt =====
-- A heap of which a block is split is a heap with one block more.
use saxon_os.Prelude.{
  ℕ, ◌+◌, ◌-◌, ◌<◌, ◌≤◌, ◌≡◌, refl, arith, ◌==◌, ◌⊎◌, inl, inr, if◌then◌else◌, true, false, ap, ◌∙◌,
  leb,
}
use saxon_os.Common.Memory.{Memory}
use saxon_os.Mm.Heap.{header_size, prev, next, size_of}
use saxon_os.Mm.Heap.Blocks.{IsHeap}
use saxon_os.Mm.Heap.Tail.{
  size_of-cut, next-cut, prev-cut, size_of-tail, next-tail, prev-tail, cut, tail,
}

module _ {start end : ℕ} {m : Memory} (v : IsHeap start end m) (i size : ℕ) (p : i < v.count)
    (room : size + header_size + 1 ≤ size_of m (v.addr i)) where
  abbrev pub cut_addr : ℕ → ℕ
  cut_addr j =
      if leb j i then v.addr j else if j == i + 1 then (tail v i size p room) else v.addr (j - 1)

  pub cut-below : (j : ℕ) → j ≤ i → cut_addr j ≡ v.addr j
  cut-below j h = let e : leb j i ≡ true = ground arith in rw e refl

  pub cut-tail : (j : ℕ) → j ≡ i + 1 → cut_addr j ≡ (tail v i size p room)
  cut-tail j h =
      let e : leb j i ≡ false = ground arith in
      let e' : (j == i + 1) ≡ true = ground arith in rw (e, e') refl

  pub cut-above : (j k : ℕ) → i < k → j ≡ k + 1 → cut_addr j ≡ v.addr k
  cut-above j k h g =
      let e : leb j i ≡ false = ground arith in
      let e' : (j == i + 1) ≡ false = ground arith in
      let e3 : v.addr (j - 1) ≡ v.addr k = ap v.addr (omega arith) in rw (e, e') e3

  cut_places : (j : ℕ) → (j < i) ⊎ (j ≡ i) ⊎ (j ≡ i + 1) ⊎ (i + 1 < j)
  cut_places j = omega arith

  pub cut_sizes :
      (j : ℕ)
      → j < v.count + 1
      → cut_addr j + header_size + size_of (cut v i size p room) (cut_addr j) ≡ cut_addr (j + 1)
  cut_sizes j q = elim (cut_places j) [
    | inl below ↦
        let other : (j == i) ≡ false = ground arith in
        rw
          (
            cut-below j (omega arith),
            cut-below (j + 1) (omega arith),
            size_of-cut v i size p room j (omega arith),
            other,
          )
          (v.sizes j (omega arith))
    | inr (inl here) ↦
        let same : (j == i) ≡ true = ground arith in
        let e : v.addr j ≡ v.addr i = ap v.addr here in
        rw
          (
            cut-below j (omega arith),
            cut-tail (j + 1) (omega arith),
            size_of-cut v i size p room j (omega arith),
            same,
            e,
          )
          refl
    | inr (inr (inl new)) ↦
        rw
          (
            cut-tail j new,
            cut-above (j + 1) j (omega arith) refl,
            size_of-tail v i size p room,
            new,
          )
          (omega (arith, v.sizes i p))
    | inr (inr (inr after)) ↦
        let other : (j - 1 == i) ≡ false = ground arith in
        let e : v.addr (j - 1 + 1) ≡ v.addr j = ap v.addr (omega arith) in
        rw
          (
            cut-above j (j - 1) (omega arith) (omega arith),
            cut-above (j + 1) j (omega arith) refl,
            size_of-cut v i size p room (j - 1) (omega arith),
            other,
          )
          (v.sizes (j - 1) (omega arith) ∙ e)
  ]

  pub cut_nexts :
      (j : ℕ)
      → j < v.count + 1
      → next (cut v i size p room) (cut_addr j)
        ≡ (if j + 1 == v.count + 1 then 0 else cut_addr (j + 1))
  cut_nexts j q = elim (cut_places j) [
    | inl below ↦
        let other : (j == i) ≡ false = ground arith in
        let more : (j + 1 == v.count + 1) ≡ false = ground arith in
        let more' : (j + 1 == v.count) ≡ false = ground arith in
        rw
          (
            cut-below j (omega arith),
            cut-below (j + 1) (omega arith),
            next-cut v i size p room j (omega arith),
            other,
            more,
            v.nexts j (omega arith),
            more',
          )
          refl
    | inr (inl here) ↦
        let same : (j == i) ≡ true = ground arith in
        let more : (j + 1 == v.count + 1) ≡ false = ground arith in
        rw
          (
            cut-below j (omega arith),
            cut-tail (j + 1) (omega arith),
            next-cut v i size p room j (omega arith),
            same,
            more,
          )
          refl
    | inr (inr (inl new)) ↦
        let last : (j + 1 == v.count + 1) ≡ (i + 1 == v.count) = ground arith in
        rw
          (
            cut-tail j new,
            cut-above (j + 1) j (omega arith) refl,
            next-tail v i size p room,
            last,
            new,
          )
          refl
    | inr (inr (inr after)) ↦
        let other : (j - 1 == i) ≡ false = ground arith in
        let last : (j + 1 == v.count + 1) ≡ (j - 1 + 1 == v.count) = ground arith in
        let e : v.addr (j - 1 + 1) ≡ v.addr j = ap v.addr (omega arith) in
        rw
          (
            cut-above j (j - 1) (omega arith) (omega arith),
            cut-above (j + 1) j (omega arith) refl,
            next-cut v i size p room (j - 1) (omega arith),
            other,
            last,
            v.nexts (j - 1) (omega arith),
            e,
          )
          refl
  ]

  pub cut_prevs :
      (j : ℕ)
      → j < v.count + 1
      → prev (cut v i size p room) (cut_addr j) ≡ (if j == 0 then 0 else cut_addr (j - 1))
  cut_prevs j q = elim (places) [
    | inl below ↦
        let other : (j == i + 1) ≡ false = ground arith in
        rw
          (
            cut-below j below,
            cut-below (j - 1) (omega arith),
            prev-cut v i size p room j (omega arith),
            other,
          )
          (v.prevs j (omega arith))
    | inr (inl new) ↦
        let inside : (j == 0) ≡ false = ground arith in
        let e : v.addr (j - 1) ≡ v.addr i = ap v.addr (omega arith) in
        rw (cut-tail j new, cut-below (j - 1) (omega arith), prev-tail v i size p room, inside, e)
          refl
    | inr (inr (inl second)) ↦
        let inside : (j == 0) ≡ false = ground arith in
        let same : (j - 1 == i + 1) ≡ true = ground arith in
        rw
          (
            cut-above j (j - 1) (omega arith) (omega arith),
            cut-tail (j - 1) (omega arith),
            prev-cut v i size p room (j - 1) (omega arith),
            inside,
            same,
          )
          refl
    | inr (inr (inr after)) ↦
        let inside : (j == 0) ≡ false = ground arith in
        let inside' : (j - 1 == 0) ≡ false = ground arith in
        let other : (j - 1 == i + 1) ≡ false = ground arith in
        rw
          (
            cut-above j (j - 1) (omega arith) (omega arith),
            cut-above (j - 1) (j - 1 - 1) (omega arith) (omega arith),
            prev-cut v i size p room (j - 1) (omega arith),
            inside,
            other,
            v.prevs (j - 1) (omega arith),
            inside',
          )
          refl
  ]
    where
      places : (j ≤ i) ⊎ (j ≡ i + 1) ⊎ (j ≡ i + 1 + 1) ⊎ (i + 1 + 1 < j)
      places = omega arith

  abbrev pub cut_heap : IsHeap start end (cut v i size p room)
  cut_heap = record {
    addr = cut_addr;
    count = v.count + 1;
    some_block = omega arith;
    starts = cut-below 0 (omega arith) ∙ v.starts;
    ends = cut-above (v.count + 1) v.count p refl ∙ v.ends;
    sizes = cut_sizes;
    nexts = cut_nexts;
    prevs = cut_prevs;
    not_null = v.not_null;
    in_memory = v.in_memory;
  }
