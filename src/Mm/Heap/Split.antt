-- ===== src/Mm/Heap/Split.antt =====
-- A block of which the end is cut off as a block of its own.
use saxon_os.Prelude.{
  ℕ, ◌+◌, ◌^◌, ◌<◌, ◌≡◌, refl, arith, ◌==◌, ◌⊎◌, inl, inr, if◌then◌else◌, true, false, Bool-cases,
  ap, ◌∙◌, leb, u32, not, ◌&&◌,
}
use saxon_os.Common.Memory.{Memory}
use saxon_os.Common.Words.{sub32, write32_outside}
use saxon_os.Mm.Heap.{
  header_size, used, prev, next, size_of, set_used, set_prev, set_next, set_size, split,
}
use saxon_os.Mm.Heap.Header.{
  Off, Same, size_of-set_size, next-set_next, prev-set_prev, next-set_prev, size_of-set_prev,
  used-set_prev, used-set_next, prev-set_next, size_of-set_next, used-set_size, prev-set_size,
  next-set_size, next-set_used, prev-set_used, size_of-set_used,
}

-- Block `r`, in front of block `n` or, if `n` is null, the last one, is cut behind `size` bytes,
-- and `z` bytes remain behind the header at `t`; `b` is a block's header, that of `t` included.
pub record Splits (m : Memory) (r size t z n b : ℕ) : Type 0 where
  pub t_is : t ≡ r + header_size + size
  pub z_is : size_of m r ≡ size + header_size + z
  pub some_rest : 0 < z
  pub r_fits : r + header_size + size_of m r < 2 ^ 32
  pub n_is : next m r ≡ n
  pub n_fits : n < 2 ^ 32
  pub tb : Same t b
  pub rb : Same r b
  pub nb : (n ≡ 0) ⊎ Same n b

module _ {m : Memory} {r size t z n b : ℕ} (c : Splits m r size t z n b) where
  open c use {t_is, z_is, some_rest, r_fits, n_is, n_fits, tb, rb, nb}

  -- The header of the new block, all but the pointer behind it to it.
  lower : Memory
  lower = set_next (set_prev (set_size (set_used m t 0) t z) t r) t n

  upper : Memory → Memory
  upper m' = set_next (set_size m' r size) r t

  r_lt : r < 2 ^ 32
  r_lt = omega arith

  z_lt : z < 2 ^ 32
  z_lt = omega arith

  t_lt : t < 2 ^ 32
  t_lt = omega arith

  size_lt : size < 2 ^ 32
  size_lt = omega arith

  split_shape : split m r size ≡ upper (if n == 0 then lower else set_prev lower n t)
  unfolding split lower upper
  split_shape =
      let ht : u32 (r + header_size + size) ≡ t = omega arith in
      let rt : Same t r = inr (omega arith) in
      let m1 = set_used m t 0 in
      let hz : sub32 (sub32 (size_of m1 r) size) header_size ≡ z =
        ap (λ x. sub32 (sub32 x size) header_size) (size_of-set_used m t 0 r rt) ∙ omega arith in
      let m3 = set_prev (set_size m1 t z) t r in
      let hn : next m3 r ≡ n =
        next-set_prev (set_size m1 t z) t r r rt
        ∙ (next-set_size m1 t z r rt ∙ (next-set_used m t 0 r rt ∙ n_is)) in
      let h4 : next (set_next m3 t n) t ≡ n =
        next-set_next m3 t n t n_fits (inl refl) ∙ ground arith in
      let room : leb (u32 (size + header_size + 1)) (size_of m r) ≡ true = ground arith in
      rw (ht, hz, hn, h4, room) refl

  used-lower : used lower b ≡ (if b == t then 0 else used m b)
  unfolding lower
  used-lower = used-set_next _ t n b tb ∙ (used-set_prev _ t r b tb ∙ used-set_size _ t z b tb)

  size-lower : size_of lower b ≡ (if b == t then z else size_of m b)
  unfolding lower
  size-lower =
      size_of-set_next _ t n b tb
      ∙ (size_of-set_prev _ t r b tb
          ∙ (size_of-set_size _ t z b z_lt tb
              ∙ ap (λ x. if b == t then z else x) (size_of-set_used m t 0 b tb)))

  prev-lower : prev lower b ≡ (if b == t then r else prev m b)
  unfolding lower
  prev-lower =
      prev-set_next _ t n b tb
      ∙ (prev-set_prev _ t r b r_lt tb
          ∙ ap (λ x. if b == t then r else x) (prev-set_size _ t z b tb ∙ prev-set_used m t 0 b tb))

  next-lower : next lower b ≡ (if b == t then n else next m b)
  unfolding lower
  next-lower =
      next-set_next _ t n b n_fits tb
      ∙ ap (λ x. if b == t then n else x)
          (next-set_prev _ t r b tb ∙ (next-set_size _ t z b tb ∙ next-set_used m t 0 b tb))

  -- The last two writes.
  module _ (m' : Memory) where
    used-upper : used (upper m') b ≡ used m' b
    unfolding upper
    used-upper = used-set_next _ r t b rb ∙ used-set_size m' r size b rb

    prev-upper : prev (upper m') b ≡ prev m' b
    unfolding upper
    prev-upper = prev-set_next _ r t b rb ∙ prev-set_size m' r size b rb

    size-upper : size_of (upper m') b ≡ (if b == r then size else size_of m' b)
    unfolding upper
    size-upper = size_of-set_next _ r t b rb ∙ size_of-set_size m' r size b size_lt rb

    next-upper : next (upper m') b ≡ (if b == r then t else next m' b)
    unfolding upper
    next-upper =
        next-set_next _ r t b t_lt rb
        ∙ ap (λ x. if b == r then t else x) (next-set_size m' r size b rb)

  split_cases :
      (P : Memory → Type 0)
      → ((n == 0) ≡ true → P (upper lower))
      → ((n == 0) ≡ false → Same n b → P (upper (set_prev lower n t)))
      → P (split m r size)
  split_cases P last inner = elim (Bool-cases (n == 0)) [
    | inl e ↦ rw (split_shape, e) (last e)
    | inr e ↦
        rw (split_shape, e) (inner e (elim (nb) [ inl z ↦ absurd (ground arith) | inr s ↦ s ]))
  ]

  lower_outside : (a : ℕ) → Off a t → lower a ≡ m a
  unfolding lower
  lower_outside a off =
      write32_outside _ (t + 8) n a (omega arith)
      ∙ (write32_outside _ (t + 4) r a (omega arith)
          ∙ (write32_outside _ (t + 12) z a (omega arith) ∙ ground arith))

  upper_outside : (m' : Memory) → (a : ℕ) → Off a r → upper m' a ≡ m' a
  unfolding upper
  upper_outside m' a off =
      write32_outside _ (r + 8) t a (omega arith) ∙ write32_outside _ (r + 12) size a (omega arith)

  -- Only headers are written.
  pub split_outside : (a : ℕ) → Off a t → Off a r → (n ≡ 0) ⊎ Off a n → split m r size a ≡ m a
  split_outside a ot or on = elim (Bool-cases (n == 0)) [
    | inl e ↦ rw (split_shape, e) (upper_outside lower a or ∙ lower_outside a ot)
    | inr e ↦
        rw (split_shape, e)
          (upper_outside (set_prev lower n t) a or
            ∙ (write32_outside lower (n + 4) t a (ground arith) ∙ lower_outside a ot))
  ]

  pub used-split : used (split m r size) b ≡ (if b == t then 0 else used m b)
  used-split =
      split_cases (λ m'. used m' b ≡ (if b == t then 0 else used m b))
        (λ e. used-upper lower ∙ used-lower)
        (λ e s. used-upper (set_prev lower n t) ∙ (used-set_prev lower n t b s ∙ used-lower))

  pub size_of-split :
      size_of (split m r size) b ≡ (if b == r then size else if b == t then z else size_of m b)
  size_of-split =
      split_cases
        (λ m'. size_of m' b ≡ (if b == r then size else if b == t then z else size_of m b))
        (λ e. size-upper lower ∙ ap (λ x. if b == r then size else x) size-lower)
        (λ e s.
          size-upper (set_prev lower n t)
          ∙ ap (λ x. if b == r then size else x) (size_of-set_prev lower n t b s ∙ size-lower))

  pub next-split : next (split m r size) b ≡ (if b == r then t else if b == t then n else next m b)
  next-split =
      split_cases (λ m'. next m' b ≡ (if b == r then t else if b == t then n else next m b))
        (λ e. next-upper lower ∙ ap (λ x. if b == r then t else x) next-lower)
        (λ e s.
          next-upper (set_prev lower n t)
          ∙ ap (λ x. if b == r then t else x) (next-set_prev lower n t b s ∙ next-lower))

  pub prev-split :
      prev (split m r size) b
      ≡ (if not (n == 0) && (b == n) then t else if b == t then r else prev m b)
  prev-split =
      split_cases
        (λ m'. prev m' b ≡ (if not (n == 0) && (b == n) then t else if b == t then r else prev m b))
        (λ e. rw e (prev-upper lower ∙ prev-lower))
        (λ e s. rw e (
          prev-upper (set_prev lower n t)
          ∙ (prev-set_prev lower n t b t_lt s ∙ ap (λ x. if b == n then t else x) prev-lower)))
