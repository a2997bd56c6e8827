-- ===== src/Mm/Heap/Tail.antt =====
-- The headers of a heap of which a block is split.
use saxon_os.Prelude.{
  ℕ, ◌+◌, ◌-◌, ◌<◌, ◌≤◌, ◌≡◌, ◌≢◌, refl, arith, ◌==◌, ◌⊎◌, inl, inr, if◌then◌else◌, true, false,
  Bool-cases, ap, ◌∙◌,
}
use saxon_os.Common.Memory.{Memory}
use saxon_os.Mm.Heap.{header_size, used, prev, next, size_of, split}
use saxon_os.Mm.Heap.Header.{Off, Apart, Same}
use saxon_os.Mm.Heap.Blocks.{IsHeap, addr-le, addr-reach, addr-end, addr-pos, addr-Same, addr-eq}
use saxon_os.Mm.Heap.Split.{
  Splits, split_outside, used-split, next-split, size_of-split, prev-split,
}

module _ {start end : ℕ} {m : Memory} (v : IsHeap start end m) (i size : ℕ) (p : i < v.count)
    (room : size + header_size + 1 ≤ size_of m (v.addr i)) where
  abbrev pub cut : Memory
  cut = split m (v.addr i) size

  -- The header of the new block.
  abbrev pub tail : ℕ
  tail = v.addr i + header_size + size

  abbrev pub rest : ℕ
  rest = size_of m (v.addr i) - size - header_size

  abbrev pub behind : ℕ
  behind = if i + 1 == v.count then 0 else v.addr (i + 1)

  pub tail-Apart : (j : ℕ) → j < v.count → Apart tail (v.addr j)
  tail-Apart j q = elim (three) [
    | inl below ↦ inr (omega (arith, addr-le v j i below (omega arith)))
    | inr (inl here) ↦ let e : v.addr j ≡ v.addr i = ap v.addr here in inr (omega arith)
    | inr (inr above) ↦ inl (tail_below (v.addr j) (addr-reach v i j above q))
  ]
    where
      three : (j < i) ⊎ (j ≡ i) ⊎ (i < j)
      three = omega arith

      tail_below : (a : ℕ) → v.addr (i + 1) ≤ a → tail + header_size ≤ a
      tail_below a le = omega (arith, v.sizes i p)

  -- The new header lies in block `i`.
  pub tail-Off :
      (j : ℕ)
      → j < v.count
      → j ≢ i
      → (a : ℕ) → v.addr j + header_size ≤ a
      → a < v.addr (j + 1)
      → Off a tail
  tail-Off j q ne a low high = elim (two) [
    | inl below ↦ inl (omega (arith, addr-reach v j i below p))
    | inr above ↦ inr (omega (arith, addr-reach v i j above q, v.sizes i p))
  ]
    where
      two : (j < i) ⊎ (i < j)
      two = omega arith

  pub tail_ne : (j : ℕ) → j < v.count → (v.addr j == tail) ≡ false
  tail_ne j q = apart (v.addr j) (tail-Apart j q)
    where
      apart : (a : ℕ) → Apart tail a → (a == tail) ≡ false
      apart a h = ground arith

  cut_at :
      (b : ℕ)
      → Same tail b
      → Same (v.addr i) b
      → (behind ≡ 0) ⊎ Same behind b
      → Splits m (v.addr i) size tail rest behind b
  cut_at b tb rb nb = record {
    t_is = refl;
    z_is = omega arith;
    some_rest = omega arith;
    r_fits = omega (arith, v.sizes i p, addr-end v i p, v.in_memory);
    n_is = v.nexts i p;
    n_fits = elim (Bool-cases (i + 1 == v.count)) [
      | inl last ↦ rw last (omega arith)
      | inr more ↦ rw more (omega (arith, addr-end v i p, v.in_memory))
    ];
    tb = tb;
    rb = rb;
    nb = nb;
  }

  old_at : (j : ℕ) → j < v.count → Splits m (v.addr i) size tail rest behind (v.addr j)
  old_at j q =
      cut_at (v.addr j) (inr (tail-Apart j q)) (addr-Same v i j p q)
        (elim (Bool-cases (i + 1 == v.count)) [
          | inl last ↦ inl (rw last refl)
          | inr more ↦ inr (rw more (addr-Same v (i + 1) j (ground arith) q))
        ])

  tail_at : Splits m (v.addr i) size tail rest behind tail
  tail_at = cut_at tail (inl refl) (inr (omega arith)) (elim (Bool-cases (i + 1 == v.count)) [
    | inl last ↦ inl (rw last refl)
    | inr more ↦ inr (rw more (flip (tail-Apart (i + 1) (ground arith))))
  ])
    where
      flip : {a b : ℕ} → Apart a b → Same b a
      flip (inl h) = inr (inr h)
      flip (inr h) = inr (inl h)

  -- A byte of no header stays.
  pub cut_outside : (a : ℕ) → Off a tail → ((j : ℕ) → j < v.count → Off a (v.addr j)) → cut a ≡ m a
  cut_outside a ot off =
      split_outside tail_at a ot (off i p) (elim (Bool-cases (i + 1 == v.count)) [
        | inl last ↦ inl (rw last refl)
        | inr more ↦ inr (rw more (off (i + 1) (ground arith)))
      ])

  -- The headers of the blocks afterwards.
  module _ (j : ℕ) (q : j < v.count) where
    pub used-cut : used cut (v.addr j) ≡ used m (v.addr j)
    used-cut = used-split (old_at j q) ∙ rw (tail_ne j q) refl

    pub size_of-cut : size_of cut (v.addr j) ≡ (if j == i then size else size_of m (v.addr j))
    size_of-cut = rw (size_of-split (old_at j q), tail_ne j q, addr-eq v j i q p) refl

    pub next-cut : next cut (v.addr j) ≡ (if j == i then tail else next m (v.addr j))
    next-cut = rw (next-split (old_at j q), tail_ne j q, addr-eq v j i q p) refl

    pub prev-cut : prev cut (v.addr j) ≡ (if j == i + 1 then tail else prev m (v.addr j))
    prev-cut = elim (Bool-cases (i + 1 == v.count)) [
      | inl last ↦
          let b0 : behind ≡ 0 = rw last refl in
          let here : (j == i + 1) ≡ false = ground arith in
          rw (prev-split (old_at j q), tail_ne j q, b0, here) refl
      | inr more ↦
          let b0 : behind ≡ v.addr (i + 1) = rw more refl in
          let nz : (v.addr (i + 1) == 0) ≡ false = pos_ne (addr-pos v (i + 1) (ground arith)) in
          rw (prev-split (old_at j q), tail_ne j q, b0, nz, addr-eq v j (i + 1) q (ground arith))
            refl
    ]
      where
        pos_ne : {a : ℕ} → 0 < a → (a == 0) ≡ false
        pos_ne h = ground arith

  tail_same : (tail == tail) ≡ true
  tail_same = ground arith

  tail_above : (tail == v.addr i) ≡ false
  tail_above = ground arith

  pub used-tail : used cut tail ≡ 0
  used-tail = rw (used-split tail_at, tail_same) refl

  pub size_of-tail : size_of cut tail ≡ rest
  size_of-tail = rw (size_of-split tail_at, tail_above, tail_same) refl

  pub next-tail : next cut tail ≡ behind
  next-tail = rw (next-split tail_at, tail_above, tail_same) refl

  pub prev-tail : prev cut tail ≡ v.addr i
  prev-tail = elim (Bool-cases (i + 1 == v.count)) [
    | inl last ↦ let b0 : behind ≡ 0 = rw last refl in rw (prev-split tail_at, b0, tail_same) refl
    | inr more ↦
        let b0 : behind ≡ v.addr (i + 1) = rw more refl in
        let ne : (tail == v.addr (i + 1)) ≡ false =
          flip (v.addr (i + 1)) (tail_ne (i + 1) (ground arith)) in
        rw (prev-split tail_at, b0, ne, tail_same) (ground arith)
  ]
    where
      flip : (a : ℕ) → (a == tail) ≡ false → (tail == a) ≡ false
      flip a h = ground arith
