-- ===== src/Mm/Heap/Joined.antt =====
-- The headers of a heap of which a block has absorbed the one behind it.
use saxon_os.Prelude.{
  ℕ, ◌+◌, ◌^◌, ◌<◌, ◌≡◌, refl, arith, ◌==◌, ◌⊎◌, inl, inr, if◌then◌else◌, false, Bool-cases, leb,
}
use saxon_os.Common.Memory.{Memory}
use saxon_os.Mm.Heap.{header_size, used, prev, next, size_of, absorb}
use saxon_os.Mm.Heap.Header.{Off, Same}
use saxon_os.Mm.Heap.Blocks.{IsHeap, addr-lt, addr-end, addr-pos, addr-Same, addr-eq}
use saxon_os.Mm.Heap.Absorb.{
  Absorbs, absorb_outside, used-absorb, next-absorb, size_of-absorb, prev-absorb,
}

module _ {start end : ℕ} {m : Memory} (v : IsHeap start end m) (i : ℕ)
    (inner : i + 1 < v.count) where
  -- What block `i + 1` points to.
  abbrev pub behind : ℕ
  behind = if i + 1 + 1 == v.count then 0 else v.addr (i + 1 + 1)

  behind-Same : (j : ℕ) → j < v.count → (behind ≡ 0) ⊎ Same behind (v.addr j)
  behind-Same j p = elim (Bool-cases (i + 1 + 1 == v.count)) [
    | inl last ↦ inl (rw last refl)
    | inr more ↦ inr (rw more (addr-Same v (i + 1 + 1) j (ground arith) p))
  ]

  behind-lt : behind < 2 ^ 32
  behind-lt = elim (Bool-cases (i + 1 + 1 == v.count)) [
    | inl last ↦ rw last (omega arith)
    | inr more ↦ rw more (omega (arith, addr-lt v (i + 1 + 1) (ground arith), v.in_memory))
  ]

  fits : size_of m (v.addr i) + (header_size + size_of m (v.addr (i + 1))) < 2 ^ 32
  fits =
      omega (
        arith,
        v.sizes i (omega arith),
        v.sizes (i + 1) inner,
        addr-end v (i + 1) inner,
        v.in_memory,
      )

  Absorbs-at : (j : ℕ) → j < v.count → Absorbs m (v.addr i) (v.addr (i + 1)) behind (v.addr j)
  Absorbs-at j p = record {
    pq = addr-Same v i (i + 1) (omega arith) inner;
    pb = addr-Same v i j (omega arith) p;
    nb = behind-Same j p;
    n_is = v.nexts (i + 1) inner;
    n_fits = behind-lt;
    p_fits = omega (arith, addr-lt v i (omega arith), v.in_memory);
    fits = fits;
  }

  -- The memory after the merge.
  abbrev pub merged : Memory
  merged = absorb m (v.addr i) (v.addr (i + 1))

  -- A byte of no header stays.
  pub merged_outside : (a : ℕ) → ((j : ℕ) → j < v.count → Off a (v.addr j)) → merged a ≡ m a
  merged_outside a off =
      absorb_outside (Absorbs-at i (omega arith)) a (off i (omega arith))
        (elim (Bool-cases (i + 1 + 1 == v.count)) [
          | inl last ↦ inl (rw last refl)
          | inr more ↦ inr (rw more (off (i + 1 + 1) (ground arith)))
        ])

  -- The number of a block before the merge.
  abbrev pub old : ℕ → ℕ
  old j = if leb j i then j else j + 1

  module _ (j : ℕ) (p : j < v.count) where
    pub used-merged : used merged (v.addr j) ≡ used m (v.addr j)
    used-merged = used-absorb (Absorbs-at j p)

    pub size_of-merged : size_of merged (v.addr j) ≡ (
        if j == i
        then size_of m (v.addr i) + (header_size + size_of m (v.addr (i + 1)))
        else size_of m (v.addr j))
    size_of-merged = rw (← addr-eq v j i p (omega arith)) (size_of-absorb (Absorbs-at j p))

    pub next-merged : next merged (v.addr j) ≡ (if j == i then behind else next m (v.addr j))
    next-merged = rw (← addr-eq v j i p (omega arith)) (next-absorb (Absorbs-at j p))

    pub prev-merged :
        prev merged (v.addr j) ≡ (if j == i + 1 + 1 then v.addr i else prev m (v.addr j))
    prev-merged = elim (Bool-cases (i + 1 + 1 == v.count)) [
      | inl last ↦
          let b0 : behind ≡ 0 = rw last refl in
          let here : (j == i + 1 + 1) ≡ false = ground arith in
          rw (prev-absorb (Absorbs-at j p), b0, here) refl
      | inr more ↦
          let b0 : behind ≡ v.addr (i + 1 + 1) = rw more refl in
          let nz : (v.addr (i + 1 + 1) == 0) ≡ false =
            pos_ne (addr-pos v (i + 1 + 1) (ground arith)) in
          rw (prev-absorb (Absorbs-at j p), b0, nz, addr-eq v j (i + 1 + 1) p (ground arith)) refl
    ]
      where
        pos_ne : {a : ℕ} → 0 < a → (a == 0) ≡ false
        pos_ne h = ground arith
