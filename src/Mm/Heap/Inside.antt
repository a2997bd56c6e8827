-- ===== src/Mm/Heap/Inside.antt =====
-- Heaps whose blocks lie in the blocks of another, as after a merge of two free ones.
use saxon_os.Prelude.{ℕ, ◌+◌, ◌-◌, ◌<◌, ◌≤◌, ◌≡◌, refl, sym, arith, ◌⊎◌, inl, inr, ap, ◌∙◌}
use saxon_os.Common.Memory.{Memory}
use saxon_os.Mm.Heap.{used}
use saxon_os.Mm.Heap.Blocks.{IsHeap, addr-le}
use saxon_os.Mm.Heap.Merge.{merged_heap, addr-below, addr-above, old-lt}
use saxon_os.Mm.Heap.Joined.{old, used-merged}

-- The bytes of block `j` of a heap lie in a block of another heap whose field `used` is `u`; if `u`
-- is not 0, they are the bytes of that block.
pub record Inside {start end : ℕ} {m m' : Memory} (v : IsHeap start end m) (j u : ℕ)
    (v' : IsHeap start end m') : Type 0 where
  pub block : ℕ
  pub inside_lt : block < v'.count
  pub below : v'.addr block ≤ v.addr j
  pub above : v.addr (j + 1) ≤ v'.addr (block + 1)
  pub state : used m' (v'.addr block) ≡ u
  pub whole : (u ≡ 0) ⊎ ((v'.addr block ≡ v.addr j) × (v'.addr (block + 1) ≡ v.addr (j + 1)))

-- All blocks of a heap lie in blocks of another, with their fields `used`.
abbrev pub Coarser :
    {start end : ℕ} → {m m' : Memory} → IsHeap start end m → IsHeap start end m' → Type 0
Coarser {start} {end} {m} v v' = (j : ℕ) → j < v.count → Inside v j (used m (v.addr j)) v'

pub Coarser-refl : {start end : ℕ} → {m : Memory} → (v : IsHeap start end m) → Coarser v v
Coarser-refl v j p = record {
  block = j;
  inside_lt = p;
  below = omega arith;
  above = omega arith;
  state = refl;
  whole = inr (refl, refl);
}

pub Inside-trans :
    {start end : ℕ} {m m' m'' : Memory}
    → (v : IsHeap start end m) → (v' : IsHeap start end m') → (v'' : IsHeap start end m'')
    → (j u : ℕ) → Inside v j u v'
    → Coarser v' v''
    → Inside v j u v''
Inside-trans v v' v'' j u a c =
    let b = c a.block a.inside_lt in
    record {
      block = b.block;
      inside_lt = b.inside_lt;
      below = omega (arith, a.below, b.below);
      above = omega (arith, a.above, b.above);
      state = b.state ∙ a.state;
      whole = elim (a.whole) [
        | inl free ↦ inl free
        | inr exact ↦ elim (b.whole) [
          | inl free ↦ inl (sym a.state ∙ free)
          | inr exact' ↦ inr (exact'.0 ∙ exact.0, exact'.1 ∙ exact.1)
        ]
      ];
    }

-- Two free blocks become one.
module _ {start end : ℕ} {m : Memory} (v : IsHeap start end m) (i : ℕ)
    (inner : i + 1 < v.count) where
  -- Block `k` afterwards holds block `j`.
  merged-Inside :
      used m (v.addr i) ≡ 0
      → (j k : ℕ) → k < v.count - 1
      → v.addr (old v i inner k) ≤ v.addr j
      → v.addr (j + 1) ≤ v.addr (old v i inner (k + 1))
      → used m (v.addr (old v i inner k)) ≡ used m (v.addr j)
      → (used m (v.addr j) ≡ 0)
        ⊎ ((v.addr (old v i inner k) ≡ v.addr j)
            × (v.addr (old v i inner (k + 1)) ≡ v.addr (j + 1)))
      → Inside v j (used m (v.addr j)) (merged_heap v i inner)
  merged-Inside free j k lt below above same whole = record {
    block = k;
    inside_lt = lt;
    below = below;
    above = above;
    state = used-merged v i inner (old v i inner k) (old-lt v i inner k lt) ∙ same;
    whole = whole;
  }

  pub merged-Coarser :
      used m (v.addr i) ≡ 0 → used m (v.addr (i + 1)) ≡ 0 → Coarser v (merged_heap v i inner)
  merged-Coarser f g j p = elim (four) [
    | inl before ↦
        let at : v.addr (old v i inner j) ≡ v.addr j = addr-below v i inner j (omega arith) in
        let behind : v.addr (old v i inner (j + 1)) ≡ v.addr (j + 1) =
          addr-below v i inner (j + 1) (omega arith) in
        merged-Inside f j j (omega arith) (omega arith) (omega arith) (ap (used m) at)
          (inr (at, behind))
    | inr (inl first) ↦
        let at : v.addr (old v i inner j) ≡ v.addr j = addr-below v i inner j (omega arith) in
        let behind : v.addr (old v i inner (j + 1)) ≡ v.addr (j + 1 + 1) =
          addr-above v i inner (j + 1) (omega arith) in
        merged-Inside f j j (omega arith) (omega arith)
          (omega (arith, addr-le v (j + 1) (j + 1 + 1) (omega arith) (omega arith)))
          (ap (used m) at) (inl (ap (λ n. used m (v.addr n)) first ∙ f))
    | inr (inr (inl second)) ↦
        let at : v.addr (old v i inner i) ≡ v.addr i = addr-below v i inner i (omega arith) in
        let behind : v.addr (old v i inner (i + 1)) ≡ v.addr (j + 1) =
          addr-above v i inner (i + 1) (omega arith) ∙ ap v.addr (omega arith) in
        let free : used m (v.addr j) ≡ 0 = ap (λ n. used m (v.addr n)) second ∙ g in
        merged-Inside f j i (omega arith) (omega (arith, addr-le v i j (omega arith) (omega arith)))
          (omega arith) (ap (used m) at ∙ (f ∙ sym free)) (inl free)
    | inr (inr (inr after)) ↦
        let at : v.addr (old v i inner (j - 1)) ≡ v.addr j =
          addr-above v i inner (j - 1) (omega arith) ∙ ap v.addr (omega arith) in
        let behind : v.addr (old v i inner (j - 1 + 1)) ≡ v.addr (j + 1) =
          addr-above v i inner (j - 1 + 1) (omega arith) ∙ ap v.addr (omega arith) in
        merged-Inside f j (j - 1) (omega arith) (omega arith) (omega arith) (ap (used m) at)
          (inr (at, behind))
  ]
    where
      four : (j < i) ⊎ (j ≡ i) ⊎ (j ≡ i + 1) ⊎ (i + 1 < j)
      four = omega arith

-- All blocks of a heap begin where blocks of another begin.
abbrev pub Begins :
    {start end : ℕ} → {m m' : Memory} → IsHeap start end m → IsHeap start end m' → Type 0
Begins v v' = (k : ℕ) → k < v'.count → (j : ℕ) × (j < v.count) × (v'.addr k ≡ v.addr j)
