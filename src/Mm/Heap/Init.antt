-- ===== src/Mm/Heap/Init.antt =====
-- `kheap_init`: one free block.
use saxon_os.Prelude.{
  ℕ, ◌+◌, ◌^◌, ◌<◌, ◌≤◌, ◌≡◌, refl, arith, ◌==◌, if◌then◌else◌, true, false, inl, ◌∙◌, ◌%◌,
}
use saxon_os.Common.Memory.{Memory, memset}
use saxon_os.Common.Words.{sub32}
use saxon_os.Mm.Heap.{
  Heap, header_size, used, prev, next, size_of, set_used, set_prev, set_next, set_size, kheap_init,
}
use saxon_os.Mm.Heap.Header.{
  size_of-set_size, next-set_next, prev-set_prev, next-set_size, prev-set_size, prev-set_next,
  used-set_size, used-set_next, used-set_prev,
}
use saxon_os.Mm.Heap.Blocks.{IsHeap}
use saxon_os.Mm.Heap.Search.{Aligned}

-- A heap of one block, which is free.
pub record Fresh (start end : ℕ) (h : Heap) : Type 0 where
  pub bounds : (h.heap_start ≡ start) × (h.heap_end ≡ end) × (h.first ≡ start)
  pub heap : IsHeap h.heap_start h.heap_end h.mem
  pub one_block : heap.count ≡ 1
  pub free : used h.mem (heap.addr 0) ≡ 0
  pub aligned : Aligned heap

module _ (start end : ℕ) (m : Memory) (p : 0 < start) (room : start + header_size ≤ end)
    (q : end < 2 ^ 32) (al : start % 4 ≡ 0) where
  -- From an aligned start that is not null, with room for a header and below 4 GiB, `kheap_init`
  -- makes a heap of one free block.
  pub kheap_init-Fresh : Fresh start end (kheap_init start end m)
  unfolding kheap_init
  kheap_init-Fresh =
      let m1 = set_used (memset start 0 (sub32 end start) m) start 0 in
      let m2 = set_prev m1 start 0 in
      let m3 = set_next m2 start 0 in
      let z = sub32 (sub32 end start) header_size in
      let one : (i : ℕ) → i < 1 → (i == 0) ≡ true = λ i h. ground arith in
      let two : (i : ℕ) → i < 1 → (i + 1 == 0) ≡ false = λ i h. ground arith in
      let last : (i : ℕ) → i < 1 → (i + 1 == 1) ≡ true = λ i h. ground arith in
      let same : (start == start) ≡ true = ground arith in
      let size : size_of (set_size m3 start z) start ≡ z =
        size_of-set_size m3 start z start (omega arith) (inl refl) ∙ rw same refl in
      let after : next (set_size m3 start z) start ≡ 0 =
        next-set_size m3 start z start (inl refl)
        ∙ (next-set_next m2 start 0 start (omega arith) (inl refl) ∙ rw same refl) in
      let before : prev (set_size m3 start z) start ≡ 0 =
        prev-set_size m3 start z start (inl refl)
        ∙ (prev-set_next m2 start 0 start (inl refl)
            ∙ (prev-set_prev m1 start 0 start (omega arith) (inl refl) ∙ rw same refl)) in
      let free : used (set_size m3 start z) start ≡ 0 =
        used-set_size m3 start z start (inl refl)
        ∙ (used-set_next m2 start 0 start (inl refl)
            ∙ (used-set_prev m1 start 0 start (inl refl) ∙ rw same refl)) in
      record {
        bounds = (refl, refl, refl);
        heap = record {
          addr = λ i. if i == 0 then start else end;
          count = 1;
          some_block = omega arith;
          starts = refl;
          ends = refl;
          sizes = λ i h. rw (one i h, two i h, size) (omega arith);
          nexts = λ i h. rw (one i h, last i h) after;
          prevs = λ i h. rw (one i h) before;
          not_null = p;
          in_memory = q;
        };
        one_block = refl;
        free = free;
        aligned = λ i h. rw (one i h) (omega arith);
      }
