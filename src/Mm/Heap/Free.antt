-- ===== src/Mm/Heap/Free.antt =====
-- Freeing a block: the free block before it absorbs it, and the result absorbs the free block
-- behind.
use saxon_os.Prelude.{
  ℕ, ◌+◌, ◌-◌, ◌<◌, ◌≡◌, refl, sym, arith, ◌==◌, inl, inr, if◌then◌else◌, false, Bool-cases, ap,
  ◌∙◌,
}
use saxon_os.Common.Memory.{Memory}
use saxon_os.Mm.Heap.{
  Heap, header_size, used, prev, next, set_used, absorb, absorb_prev, absorb_next, kfree_block,
  kfree,
}
use saxon_os.Common.Words.{sub32}
use saxon_os.Mm.Heap.Blocks.{
  IsHeap, KeepsBytes, addr-Off, addr-lt, addr-pos, addr-Same, addr-eq, marked_heap,
}
use saxon_os.Mm.Heap.Merge.{merged_heap, addr-below, old-lt}
use saxon_os.Mm.Heap.Joined.{merged_outside, old, used-merged}
use saxon_os.Mm.Heap.Inside.{Inside, Coarser, Coarser-refl, Inside-trans, merged-Coarser, Begins}

-- A heap after a step of `kfree_block`, with the free block that the step is at.
record After {start end : ℕ} {m : Memory} (v : IsHeap start end m) (m' : Memory) (b : ℕ)
    : Type 0 where
  heap : IsHeap start end m'
  index : ℕ
  index_lt : index < heap.count
  index_is : b ≡ heap.addr index
  free : used m' b ≡ 0
  coarser : Coarser v heap
  begins : Begins v heap
  bytes : (j : ℕ) → j < v.count → KeepsBytes v j m'

stay :
    {start end : ℕ}
    → {m : Memory} → (v : IsHeap start end m) → (i : ℕ) → i < v.count
    → used m (v.addr i) ≡ 0
    → After v m (v.addr i)
stay v i p f = record {
  heap = v;
  index = i;
  index_lt = p;
  index_is = refl;
  free = f;
  coarser = Coarser-refl v;
  begins = λ k q. (k, q, refl);
  bytes = λ j q a low high. refl;
}

merge :
    {start end : ℕ}
    → {m : Memory} → (v : IsHeap start end m) → (i : ℕ) → (inner : i + 1 < v.count)
    → used m (v.addr i) ≡ 0
    → used m (v.addr (i + 1)) ≡ 0
    → After v (absorb m (v.addr i) (v.addr (i + 1))) (v.addr i)
merge v i inner f g = record {
  heap = merged_heap v i inner;
  index = i;
  index_lt = omega arith;
  index_is = sym (addr-below v i inner i (omega arith));
  free = used-merged v i inner i (omega arith) ∙ f;
  coarser = merged-Coarser v i inner f g;
  begins = λ k q. (old v i inner k, old-lt v i inner k q, refl);
  bytes = λ j q a low high. merged_outside v i inner a (addr-Off v j q a low high);
}

module _ {start end : ℕ} {m : Memory} (v : IsHeap start end m) (i : ℕ) where
  absorb_prev-After :
      i < v.count
      → used m (v.addr i) ≡ 0
      → After v (absorb_prev m (v.addr i)).0 (absorb_prev m (v.addr i)).1
  unfolding absorb_prev
  absorb_prev-After p f = elim (Bool-cases (i == 0)) [
    | inl first ↦
        let none : prev m (v.addr i) ≡ 0 = v.prevs i p ∙ rw first refl in rw none (stay v i p f)
    | inr later ↦
        let here : v.addr (i - 1 + 1) ≡ v.addr i = ap v.addr (ground arith) in
        let before : prev m (v.addr i) ≡ v.addr (i - 1) = v.prevs i p ∙ rw later refl in
        let nz : (v.addr (i - 1) == 0) ≡ false = addr_ne (i - 1) (omega arith) in
        elim (Bool-cases (used m (v.addr (i - 1)) == 0)) [
          | inl free ↦
              rw (before, nz, free, ← here)
                (merge v (i - 1) (ground arith) (ground arith) (rw here f))
          | inr taken ↦ rw (before, nz, taken) (stay v i p f)
        ]
  ]
    where
      addr_ne : (j : ℕ) → j < v.count → (v.addr j == 0) ≡ false
      addr_ne j q = ground (arith, addr-pos v j q)

  absorb_next-After :
      i < v.count → used m (v.addr i) ≡ 0 → After v (absorb_next m (v.addr i)) (v.addr i)
  unfolding absorb_next
  absorb_next-After p f = elim (Bool-cases (i + 1 == v.count)) [
    | inl last ↦
        let none : next m (v.addr i) ≡ 0 = v.nexts i p ∙ rw last refl in rw none (stay v i p f)
    | inr more ↦
        let behind : next m (v.addr i) ≡ v.addr (i + 1) = v.nexts i p ∙ rw more refl in
        let nz : (v.addr (i + 1) == 0) ≡ false = addr_ne (i + 1) (ground arith) in
        elim (Bool-cases (used m (v.addr (i + 1)) == 0)) [
          | inl free ↦ rw (behind, nz, free) (merge v i (ground arith) f (ground arith))
          | inr taken ↦ rw (behind, nz, taken) (stay v i p f)
        ]
  ]
    where
      addr_ne : (j : ℕ) → j < v.count → (v.addr j == 0) ≡ false
      addr_ne j q = ground (arith, addr-pos v j q)

  absorb_next-at : (b : ℕ) → b ≡ v.addr i → i < v.count → used m b ≡ 0 → After v (absorb_next m b) b
  absorb_next-at b e p f = rw e (absorb_next-After p (ap (used m) (sym e) ∙ f))

-- The heap after both steps, with the block that `kfree_block` was called for.
record Freed {start end : ℕ} {m : Memory} (v : IsHeap start end m) (i : ℕ) (m' : Memory)
    : Type 0 where
  heap : IsHeap start end m'
  inside : (j : ℕ) → j < v.count → Inside v j (if j == i then 0 else used m (v.addr j)) heap
  begins : Begins v heap
  bytes : (j : ℕ) → j < v.count → KeepsBytes v j m'

module _ {start end : ℕ} {m : Memory} (v : IsHeap start end m) (i : ℕ) (p : i < v.count) where
  cleared-Inside :
      {m' : Memory}
      → (v' : IsHeap start end m') → (j : ℕ) → j < v.count
      → Inside
          (marked_heap v (v.addr i) 0 (λ j q. addr-Same v i j p q))
          j
          (used (set_used m (v.addr i) 0) (v.addr j))
          v'
      → Inside v j (if j == i then 0 else used m (v.addr j)) v'
  cleared-Inside v' j q c =
      let state : used (set_used m (v.addr i) 0) (v.addr j)
          ≡ (if j == i then 0 else used m (v.addr j)) =
        ap (λ e. if e then 0 else used m (v.addr j)) (addr-eq v j i q p) in
      rw (← state) (record {
        block = c.block;
        inside_lt = c.inside_lt;
        below = c.below;
        above = c.above;
        state = c.state;
        whole = c.whole;
      })

  cleared_bytes : (j : ℕ) → j < v.count → KeepsBytes v j (set_used m (v.addr i) 0)
  cleared_bytes j q a low high = let off = addr-Off v j q a low high i p in ground arith

  freed : Freed v i (kfree_block (v.addr i) m)
  unfolding kfree_block
  freed =
      let cleared = marked_heap v (v.addr i) 0 (λ j q. addr-Same v i j p q) in
      let free : used (set_used m (v.addr i) 0) (v.addr i) ≡ 0 = ground arith in
      let a = absorb_prev-After cleared i p free in
      let b = absorb_next-at a.heap a.index _ a.index_is a.index_lt a.free in
      record {
        heap = b.heap;
        inside = λ j q. cleared-Inside b.heap j q (
            Inside-trans cleared a.heap b.heap j (used (set_used m (v.addr i) 0) (v.addr j))
              (a.coarser j q) b.coarser);
        begins = λ k q. let s = b.begins k q in let t = a.begins s.0 s.1 in (t.0, t.1, s.2 ∙ t.2);
        bytes = λ j q c low high.
            let k = a.coarser j q in
            let below = k.below in
            let above = k.above in
            b.bytes k.block k.inside_lt c (omega arith) (omega arith)
            ∙ (a.bytes j q c low high ∙ cleared_bytes j q c low high);
      }

-- `kfree` on the address that `kmalloc` returned for block `i`.
module _ (h : Heap) (v : IsHeap h.heap_start h.heap_end h.mem) (i : ℕ) (p : i < v.count) where
  kfree-shape : (kfree (v.addr i + header_size) h).mem ≡ kfree_block (v.addr i) h.mem
  unfolding kfree
  kfree-shape =
      let e : sub32 (v.addr i + header_size) header_size ≡ v.addr i =
        omega (arith, addr-lt v i p, v.in_memory) in
      ap (λ b. kfree_block b h.mem) e

  kfree-Freed : Freed v i (kfree (v.addr i + header_size) h).mem
  kfree-Freed = rw kfree-shape (freed v i p)

  -- The heap afterwards.
  pub freed_heap : IsHeap h.heap_start h.heap_end (kfree (v.addr i + header_size) h).mem
  freed_heap = kfree-Freed.heap

  -- Block `i` lies in a free block, every other free block lies in a free block, and every other
  -- used block is as before.
  pub kfree-Inside :
      (j : ℕ) → j < v.count → Inside v j (if j == i then 0 else used h.mem (v.addr j)) freed_heap
  unfolding freed_heap
  kfree-Inside j q = kfree-Freed.inside j q

  -- Every block begins where one began.
  pub freed_heap-Begins :
      (k : ℕ) → k < freed_heap.count → (j : ℕ) × (j < v.count) × (freed_heap.addr k ≡ v.addr j)
  unfolding freed_heap
  freed_heap-Begins k q = kfree-Freed.begins k q

  -- The bytes of every block stay, those of block `i` too.
  pub kfree_bytes : (j : ℕ) → j < v.count → KeepsBytes v j (kfree (v.addr i + header_size) h).mem
  kfree_bytes j q = kfree-Freed.bytes j q
