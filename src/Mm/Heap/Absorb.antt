-- ===== src/Mm/Heap/Absorb.antt =====
-- A block that absorbs the one behind it.
use saxon_os.Prelude.{
  not, ◌&&◌, ℕ, ◌+◌, ◌^◌, ◌<◌, ◌≡◌, refl, arith, ◌==◌, ◌⊎◌, inl, inr, if◌then◌else◌, true, false,
  Bool-cases, ap, ◌∙◌, u32,
}
use saxon_os.Common.Memory.{Memory}
use saxon_os.Common.Words.{write32_outside}
use saxon_os.Mm.Heap.{header_size, used, prev, next, size_of, set_prev, set_next, set_size, absorb}
use saxon_os.Mm.Heap.Header.{
  Off, Same, size_of-set_size, next-set_next, prev-set_prev, next-set_prev, size_of-set_prev,
  used-set_prev, used-set_next, prev-set_next, size_of-set_next, used-set_size, prev-set_size,
  next-set_size,
}

-- Block `p` can absorb block `q`, which is in front of block `n` or, if `n` is null, the last one;
-- and `b` is a block's header.
pub record Absorbs (m : Memory) (p q n b : ℕ) : Type 0 where
  pub pq : Same p q
  pub pb : Same p b
  pub nb : (n ≡ 0) ⊎ Same n b
  pub n_is : next m q ≡ n
  pub n_fits : n < 2 ^ 32
  pub p_fits : p < 2 ^ 32
  pub fits : size_of m p + (header_size + size_of m q) < 2 ^ 32

-- The header at `b` afterwards.
module _ {m : Memory} {p q n b : ℕ} (c : Absorbs m p q n b) where
  open c use {pq, pb, nb, n_is, n_fits, p_fits, fits}

  m1 : Memory
  m1 = set_size m p (u32 (size_of m p + (header_size + size_of m q)))

  m2 : Memory
  m2 = set_next m1 p n

  absorb_shape : absorb m p q ≡ (if n == 0 then m2 else set_prev m2 n p)
  unfolding absorb m1 m2
  absorb_shape =
      let behind : next (set_size m p (u32 (size_of m p + (header_size + size_of m q)))) q ≡ n =
        next-set_size m p _ q pq ∙ n_is in
      rw behind refl

  used-m2 : used m2 b ≡ used m b
  unfolding m1 m2
  used-m2 = used-set_next m1 p n b pb ∙ used-set_size m p _ b pb

  prev-m2 : prev m2 b ≡ prev m b
  unfolding m1 m2
  prev-m2 = prev-set_next m1 p n b pb ∙ prev-set_size m p _ b pb

  next-m2 : next m2 b ≡ (if b == p then n else next m b)
  unfolding m1 m2
  next-m2 =
      next-set_next m1 p n b n_fits pb
      ∙ ap (λ x. if b == p then n else x) (next-set_size m p _ b pb)

  size-m2 :
      size_of m2 b ≡ (if b == p then size_of m p + (header_size + size_of m q) else size_of m b)
  unfolding m1 m2
  size-m2 =
      let exact : u32 (size_of m p + (header_size + size_of m q))
          ≡ size_of m p + (header_size + size_of m q) =
        omega arith in
      size_of-set_next m1 p n b pb
      ∙ (size_of-set_size m p _ b (omega arith) pb
          ∙ ap (λ x. if b == p then x else size_of m b) exact)

  absorb_cases :
      (P : Memory → Type 0)
      → ((n == 0) ≡ true → P m2)
      → ((n == 0) ≡ false → Same n b → P (set_prev m2 n p))
      → P (absorb m p q)
  absorb_cases P last inner = elim (Bool-cases (n == 0)) [
    | inl e ↦ rw (absorb_shape, e) (last e)
    | inr e ↦
        rw (absorb_shape, e) (inner e (elim (nb) [ inl z ↦ absurd (ground arith) | inr s ↦ s ]))
  ]

  m2_outside : (a : ℕ) → Off a p → m2 a ≡ m a
  unfolding m1 m2
  m2_outside a off =
      write32_outside m1 (p + 8) n a (omega arith)
      ∙ write32_outside m (p + 12) (u32 (size_of m p + (header_size + size_of m q))) a (omega arith)

  -- Only headers are written.
  pub absorb_outside : (a : ℕ) → Off a p → (n ≡ 0) ⊎ Off a n → absorb m p q a ≡ m a
  absorb_outside a off behind = elim (Bool-cases (n == 0)) [
    | inl e ↦ rw (absorb_shape, e) (m2_outside a off)
    | inr e ↦
        rw (absorb_shape, e) (write32_outside m2 (n + 4) p a (ground arith) ∙ m2_outside a off)
  ]

  pub used-absorb : used (absorb m p q) b ≡ used m b
  used-absorb =
      absorb_cases (λ m'. used m' b ≡ used m b) (λ e. used-m2)
        (λ e s. used-set_prev m2 n p b s ∙ used-m2)

  pub next-absorb : next (absorb m p q) b ≡ (if b == p then n else next m b)
  next-absorb =
      absorb_cases (λ m'. next m' b ≡ (if b == p then n else next m b)) (λ e. next-m2)
        (λ e s. next-set_prev m2 n p b s ∙ next-m2)

  pub size_of-absorb :
      size_of (absorb m p q) b
      ≡ (if b == p then size_of m p + (header_size + size_of m q) else size_of m b)
  size_of-absorb =
      absorb_cases
        (λ m'.
          size_of m' b
          ≡ (if b == p then size_of m p + (header_size + size_of m q) else size_of m b))
        (λ e. size-m2) (λ e s. size_of-set_prev m2 n p b s ∙ size-m2)

  pub prev-absorb : prev (absorb m p q) b ≡ (if not (n == 0) && (b == n) then p else prev m b)
  prev-absorb =
      absorb_cases (λ m'. prev m' b ≡ (if not (n == 0) && (b == n) then p else prev m b))
        (λ e. rw e prev-m2)
        (λ e s. rw e (prev-set_prev m2 n p b p_fits s ∙ ap (λ x. if b == n then p else x) prev-m2))
