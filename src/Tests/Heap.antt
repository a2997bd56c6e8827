-- ===== src/Tests/Heap.antt =====
-- The kernel heap at concrete inputs.
use saxon_os.Prelude.{
  ℕ, zero, suc, ◌+◌, ◌<◌, ◌≤◌, ◌≡◌, refl, arith, ◌⊎◌, ◌==◌, if◌then◌else◌, some, none, false, ap,
  ltb, leb, ◌&&◌, Outcome, ok, panic, fault, hang,
}
use saxon_os.Common.Memory.{Memory, memset}
use saxon_os.Common.Words.{read32, write32}
use saxon_os.Mm.Heap.{
  kfree, Heap, kheap_init, kmalloc, kmalloc_alligned, alligned_from, occupy, split, used,
}
use saxon_os.Mm.Heap.Blocks.{IsHeap}
use saxon_os.Mm.Heap.Search.{Allocates, kmalloc-Allocates}
use saxon_os.Mm.Heap.Inside.{Inside}
use saxon_os.Mm.Heap.Free.{freed_heap, kfree-Inside}
use saxon_os.Mm.Heap.Init.{Fresh, kheap_init-Fresh}
use saxon_os.Mm.Heap.Run.{set_live, Run, booted, took, wrote, Outside}
use saxon_os.Mm.Heap.Live.{Run-disjoint, Run-kmalloc_fresh}
use saxon_os.Mm.Heap.Keeps.{Run-kmalloc_keeps, Run-kfree_keeps}

abbrev blank : Memory
blank a = 0

abbrev fresh : Heap
fresh = kheap_init 16 96 blank

fresh_heap : Fresh 16 96 fresh
fresh_heap = kheap_init-Fresh 16 96 blank (omega arith) (omega arith) (omega arith) refl

-- The heap of an outcome.
abbrev heap_of : Outcome (ℕ × Heap) → Heap
heap_of (ok r) = r.1
heap_of panic = fresh
heap_of fault = fresh
heap_of hang = fresh

abbrev one : Heap
one = heap_of (kmalloc 96 8 fresh)

abbrev two : Heap
two = heap_of (kmalloc 96 12 one)

first_call : kmalloc 96 8 fresh ≡ ok (32, one)
unfolding kmalloc kmalloc_alligned alligned_from occupy split kheap_init read32 write32 memset
first_call = refl

second_call : kmalloc 96 12 one ≡ ok (56, two)
unfolding kmalloc kmalloc_alligned alligned_from occupy split kheap_init read32 write32 memset
second_call = refl

kmalloc-Allocates_example : Allocates fresh fresh_heap.heap 8 panic (kmalloc 96 8 fresh)
unfolding kheap_init
kmalloc-Allocates_example =
    kmalloc-Allocates fresh fresh_heap.heap 96 refl (omega (arith, fresh_heap.one_block)) 8
      (omega arith) fresh_heap.aligned

below_three : (P : ℕ → Type 0) → P 0 → P 1 → P 2 → (i : ℕ) → i < 3 → P i
below_three P a b c zero h = a
below_three P a b c (suc zero) h = b
below_three P a b c (suc (suc zero)) h = c
below_three P a b c (suc (suc (suc i))) h = absurd (omega arith)

-- Two blocks are taken, the third is free.
two_blocks : IsHeap two.heap_start two.heap_end two.mem
unfolding kmalloc kmalloc_alligned alligned_from occupy split kheap_init read32 write32 memset
two_blocks = record {
  addr = λ i. if i == 0 then 16 else if i == 1 then 40 else if i == 2 then 68 else 96;
  count = 3;
  some_block = omega arith;
  starts = refl;
  ends = refl;
  sizes = below_three _ refl refl refl;
  nexts = below_three _ refl refl refl;
  prevs = below_three _ refl refl refl;
  not_null = omega arith;
  in_memory = omega arith;
}

is_block : (i : ℕ) → i < 3 → i < two_blocks.count
unfolding two_blocks
is_block i h = h

-- Block 1 is freed, and block 0 is still the same.
kfree-Inside_example :
    Inside two_blocks 0
      (used two.mem (two_blocks.addr 0))
      (freed_heap two two_blocks 1 (is_block 1 (omega arith)))
kfree-Inside_example =
    kfree-Inside two two_blocks 1 (is_block 1 (omega arith)) 0 (is_block 0 (omega arith))

boot : Run fresh (λ p. none)
boot = booted 16 96 blank (omega arith) (omega arith) (omega arith) refl

first-Run : Run one (set_live (λ p. none) 32 (some 8))
unfolding kheap_init
first-Run = took fresh (λ p. none) boot 96 8 32 one (omega arith) refl first_call

one_le : one.heap_end ≤ 96
unfolding kmalloc kmalloc_alligned alligned_from occupy split kheap_init read32 write32 memset
one_le = omega arith

Run-kmalloc_fresh_example : set_live (λ p. none) 32 (some 8) 56 ≡ none
Run-kmalloc_fresh_example = Run-kmalloc_fresh first-Run 96 12 56 two one_le refl second_call

second-Run : Run two (set_live (set_live (λ p. none) 32 (some 8)) 56 (some 12))
second-Run =
    took one (set_live (λ p. none) 32 (some 8)) first-Run 96 12 56 two one_le refl second_call

-- The second client fills its bytes with 7.
abbrev filled : Memory
filled a = if leb 56 a && ltb a 68 then 7 else two.mem a

filled-Outside : Outside 56 12 two.mem filled
filled-Outside a h =
    let out : (leb 56 a && ltb a 68) ≡ false = ground arith in
    ap (λ b. if b then 7 else two.mem a) out

Run-disjoint_example : (32 + 8 ≤ 56) ⊎ (56 + 12 ≤ 32)
Run-disjoint_example =
    Run-disjoint
      (wrote two (set_live (set_live (λ p. none) 32 (some 8)) 56 (some 12)) second-Run 56 12 refl
        filled filled-Outside)
      32 56 8 12 refl refl (omega arith)

-- The second call keeps the first client's bytes.
Run-kmalloc_keeps_example : two.mem 33 ≡ one.mem 33
Run-kmalloc_keeps_example =
    Run-kmalloc_keeps first-Run 96 12 56 two one_le refl second_call 32 8 refl 33 (omega arith)
      (omega arith)

-- The first client's bytes are freed, the second's stay.
Run-kfree_keeps_example : (kfree 32 two).mem 57 ≡ two.mem 57
Run-kfree_keeps_example =
    Run-kfree_keeps second-Run 32 8 refl 56 12 refl 57 (omega arith) (omega arith)
