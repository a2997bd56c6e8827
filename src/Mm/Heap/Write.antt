-- ===== src/Mm/Heap/Write.antt =====
-- The kernel heap when a client writes to the bytes that it was given.
use saxon_os.Prelude.{
  ℕ, ◌+◌, ◌<◌, ◌≤◌, ◌≡◌, ◌≢◌, refl, arith, ◌⊎◌, inl, inr, ◌∙◌, some, Bool-cases, ◌==◌, ap,
}
use saxon_os.Common.Memory.{Memory}
use saxon_os.Common.Words.{read32, read32-agree}
use saxon_os.Mm.Heap.{Heap, header_size, used}
use saxon_os.Mm.Heap.Blocks.{IsHeap, addr-le, addr-reach}
use saxon_os.Mm.Heap.Run.{Live, Outside, Tenant, Sound, move}

module _ {start end : ℕ} {m : Memory} (v : IsHeap start end m) (p n : ℕ) (m' : Memory)
    (outside : Outside p n m m') where
  -- The bytes of a tenant hold no header.
  no_header :
      Tenant v p n
      → (j : ℕ) → j < v.count
      → (a : ℕ) → v.addr j ≤ a
      → a < v.addr j + header_size
      → m' a ≡ m a
  no_header t j lt a low high = elim (Bool-cases (j == t.index)) [
    | inl here ↦
        let e : v.addr j ≡ v.addr t.index = ap v.addr (ground arith) in
        let at = t.at in outside a (omega arith)
    | inr other ↦ elim (order (ground arith)) [
      | inl below ↦
          let at = t.at in
          let before = addr-le v j t.index below (omega (arith, t.index_lt)) in
          outside a (omega arith)
      | inr above ↦
          let e = t.enough in
          let behind = addr-reach v t.index j above lt in outside a (omega arith)
    ]
  ]
    where
      order : j ≢ t.index → (j < t.index) ⊎ (t.index < j)
      order ne = omega arith

  written_heap : Tenant v p n → IsHeap start end m'
  written_heap t = record {
    addr = v.addr;
    count = v.count;
    some_block = v.some_block;
    starts = v.starts;
    ends = v.ends;
    sizes = λ j q. rw (field j q 12 (omega arith)) (v.sizes j q);
    nexts = λ j q. field j q 8 (omega arith) ∙ v.nexts j q;
    prevs = λ j q. field j q 4 (omega arith) ∙ v.prevs j q;
    not_null = v.not_null;
    in_memory = v.in_memory;
  }
    where
      field :
          (j : ℕ)
          → j < v.count
          → (o : ℕ) → o + 4 ≤ header_size
          → read32 m' (v.addr j + o) ≡ read32 m (v.addr j + o)
      field j q o within =
          read32-agree m m' (v.addr j + o)
            (λ a low high. no_header t j q a (omega arith) (omega arith))

-- The step of a client that writes to its bytes.
pub wrote-Sound :
    {h : Heap}
    → {live : Live} → Sound h live
    → (p n : ℕ) → live p ≡ some n
    → (m' : Memory) → Outside p n h.mem m'
    → Sound (record h { mem = m' }) live
unfolding written_heap
wrote-Sound {h} {live} s p n l m' outside =
    let writer = s.tenants p n l in
    let v' = written_heap s.heap p n m' outside writer in
    let same : (j : ℕ) → j < s.heap.count → used m' (s.heap.addr j) ≡ used h.mem (s.heap.addr j) =
      λ j q.
        no_header s.heap p n m' outside writer j q (s.heap.addr j) (omega arith) (omega arith) in
    record {
      heap = v';
      first_is = s.first_is;
      aligned = s.aligned;
      tenants = λ q k e.
          let t = s.tenants q k e in
          move s.heap v' t t.index t.index_lt refl refl (same t.index t.index_lt ∙ t.taken);
    }
