-- ===== src/Mm/Heap/Blocks.antt =====
-- The heap as a sequence of blocks that fill it.
use saxon_os.Prelude.{
  ℕ, zero, suc, ◌+◌, ◌-◌, ◌^◌, ◌<◌, ◌≤◌, ◌≡◌, ◌≢◌, arith, ◌==◌, ◌⊎◌, inl, inr, if◌then◌else◌, false,
  Bool-cases, ap,
}
use saxon_os.Common.Memory.{Memory}
use saxon_os.Mm.Heap.{header_size, prev, next, size_of, set_used}
use saxon_os.Mm.Heap.Header.{Off, Apart, Same, next-set_used, prev-set_used, size_of-set_used}

-- Block `i` of `count` lies at `addr i`, and its bytes reach to `addr (i + 1)`. The pointers of its
-- header lead to its neighbours, and are null at both ends.
pub record IsHeap (start end : ℕ) (m : Memory) : Type 0 where
  pub addr : ℕ → ℕ
  pub count : ℕ
  pub some_block : 0 < count
  pub starts : addr 0 ≡ start
  pub ends : addr count ≡ end
  pub sizes : (i : ℕ) → i < count → addr i + header_size + size_of m (addr i) ≡ addr (i + 1)
  pub nexts : (i : ℕ) → i < count → next m (addr i) ≡ (if i + 1 == count then 0 else addr (i + 1))
  pub prevs : (i : ℕ) → i < count → prev m (addr i) ≡ (if i == 0 then 0 else addr (i - 1))
  pub not_null : 0 < start
  pub in_memory : end < 2 ^ 32

module _ {start end : ℕ} {m : Memory} (v : IsHeap start end m) where
  -- Blocks stand in the order of their addresses, each behind the header of the one before.
  pub addr-le : (i j : ℕ) → i < j → j ≤ v.count → v.addr i + header_size ≤ v.addr j
  addr-le i zero p q = absurd (omega arith)
  addr-le i (suc j) p q = elim (Bool-cases (i == j)) [
    | inl here ↦
        let e : v.addr i ≡ v.addr j = ap v.addr (ground arith) in
        let next : v.addr (j + 1) ≡ v.addr (suc j) = ap v.addr (omega arith) in
        omega (arith, v.sizes j (omega arith))
    | inr before ↦
        let next : v.addr (j + 1) ≡ v.addr (suc j) = ap v.addr (omega arith) in
        omega (arith, v.sizes j (omega arith), addr-le i j (ground arith) (omega arith))
  ]

  -- The bytes of a block end before each block behind it.
  pub addr-reach : (i j : ℕ) → i < j → j < v.count → v.addr (i + 1) ≤ v.addr j
  addr-reach i j p q = elim (Bool-cases (i + 1 == j)) [
    | inl here ↦ let e : v.addr (i + 1) ≡ v.addr j = ap v.addr (ground arith) in omega arith
    | inr before ↦ omega (arith, addr-le (i + 1) j (ground arith) (omega arith))
  ]

  -- The bytes of a block lie in no header.
  pub addr-Off :
      (j : ℕ)
      → j < v.count
      → (a : ℕ) → v.addr j + header_size ≤ a
      → a < v.addr (j + 1)
      → (k : ℕ) → k < v.count
      → Off a (v.addr k)
  addr-Off j p a low high k q = elim (three) [
    | inl below ↦ inr (omega (arith, addr-le k j below (omega arith)))
    | inr (inl here) ↦ let e : v.addr k ≡ v.addr j = ap v.addr here in inr (omega arith)
    | inr (inr above) ↦ inl (omega (arith, addr-reach j k above q))
  ]
    where
      three : (k < j) ⊎ (k ≡ j) ⊎ (j < k)
      three = omega arith

  pub addr-lt : (i : ℕ) → i < v.count → v.addr i + header_size ≤ end
  addr-lt i p = omega (arith, addr-le i v.count p (omega arith), v.ends)

  pub addr-end : (i : ℕ) → i < v.count → v.addr (i + 1) ≤ end
  addr-end i p = elim (Bool-cases (i + 1 == v.count)) [
    | inl last ↦
        let e : v.addr (i + 1) ≡ v.addr v.count = ap v.addr (ground arith) in omega (arith, v.ends)
    | inr more ↦ omega (arith, addr-lt (i + 1) (ground arith))
  ]

  pub addr-pos : (i : ℕ) → i < v.count → 0 < v.addr i
  addr-pos zero p = omega (arith, v.starts, v.not_null)
  addr-pos (suc i) p = omega (arith, addr-le 0 (suc i) (omega arith) (omega arith))

  pub addr-Apart : (i j : ℕ) → i < v.count → j < v.count → i ≢ j → Apart (v.addr i) (v.addr j)
  addr-Apart i j p q ne = elim (order) [
    | inl below ↦ inl (addr-le i j below (omega arith))
    | inr above ↦ inr (addr-le j i above (omega arith))
  ]
    where
      order : (i < j) ⊎ (j < i)
      order = omega arith

  pub addr-Same : (i j : ℕ) → i < v.count → j < v.count → Same (v.addr i) (v.addr j)
  addr-Same i j p q = elim (Bool-cases (i == j)) [
    | inl here ↦ inl (ap v.addr (ground arith))
    | inr other ↦ inr (addr-Apart i j p q (ground arith))
  ]

  -- Addresses are equal exactly where the numbers of the blocks are.
  pub addr-eq : (i j : ℕ) → i < v.count → j < v.count → (v.addr i == v.addr j) ≡ (i == j)
  addr-eq i j p q = elim (Bool-cases (i == j)) [
    | inl here ↦ let e : v.addr i ≡ v.addr j = ap v.addr (ground arith) in rw here (ground arith)
    | inr other ↦ rw other (apart_ne (addr-Apart i j p q (ground arith)))
  ]
    where
      apart_ne : Apart (v.addr i) (v.addr j) → (v.addr i == v.addr j) ≡ false
      apart_ne a = ground arith

-- The bytes of block `j` are the same in another memory.
abbrev pub KeepsBytes :
    {start end : ℕ} → {m : Memory} → IsHeap start end m → (j : ℕ) → (m' : Memory) → Type 0
KeepsBytes {start} {end} {m} v j m' =
    (a : ℕ) → v.addr j + header_size ≤ a → a < v.addr (j + 1) → m' a ≡ m a

-- The heap with the field `used` of a block written.
module _ {start end : ℕ} {m : Memory} (v : IsHeap start end m) (b u : ℕ)
    (same : (j : ℕ) → j < v.count → Same b (v.addr j)) where
  abbrev pub marked_heap : IsHeap start end (set_used m b u)
  marked_heap = record {
    addr = v.addr;
    count = v.count;
    some_block = v.some_block;
    starts = v.starts;
    ends = v.ends;
    sizes = λ j q. rw (size_of-set_used m b u (v.addr j) (same j q)) (v.sizes j q);
    nexts = λ j q. rw (next-set_used m b u (v.addr j) (same j q)) (v.nexts j q);
    prevs = λ j q. rw (prev-set_used m b u (v.addr j) (same j q)) (v.prevs j q);
    not_null = v.not_null;
    in_memory = v.in_memory;
  }
