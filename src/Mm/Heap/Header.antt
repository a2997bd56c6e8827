-- ===== src/Mm/Heap/Header.antt =====
-- The fields of a header after a write to a field of the same header or of one apart from it.
use saxon_os.Prelude.{ℕ, ◌+◌, ◌^◌, ◌<◌, ◌≤◌, ◌≡◌, refl, arith, ◌⊎◌, if◌then◌else◌, ◌==◌}
use saxon_os.Common.Memory.{Memory}
use saxon_os.Common.Words.{read32-write32, read32-write32_ne, read32-write8_ne, write32_outside}
use saxon_os.Mm.Heap.{
  header_size, used, prev, next, size_of, set_used, set_prev, set_next, set_size,
}

-- Two headers are one, or do not overlap.
abbrev pub Apart : ℕ → ℕ → Type 0
Apart a b = (a + header_size ≤ b) ⊎ (b + header_size ≤ a)

abbrev pub Same : ℕ → ℕ → Type 0
Same a b = (a ≡ b) ⊎ Apart a b

-- A byte of no header at an address.
abbrev pub Off : (a b : ℕ) → Type 0
Off a b = (a < b) ⊎ (b + header_size ≤ a)

module _ (m : Memory) (a v b : ℕ) (fits : v < 2 ^ 32) (s : Same a b) where
  pub size_of-set_size : size_of (set_size m a v) b ≡ (if b == a then v else size_of m b)
  size_of-set_size =
      ground (arith, read32-write32 m (a + 12) v, read32-write32_ne m (a + 12) v (b + 12))

  pub next-set_next : next (set_next m a v) b ≡ (if b == a then v else next m b)
  next-set_next = ground (arith, read32-write32 m (a + 8) v, read32-write32_ne m (a + 8) v (b + 8))

  pub prev-set_prev : prev (set_prev m a v) b ≡ (if b == a then v else prev m b)
  prev-set_prev = ground (arith, read32-write32 m (a + 4) v, read32-write32_ne m (a + 4) v (b + 4))

module _ (m : Memory) (a v b : ℕ) (s : Same a b) where
  pub used-set_used : used (set_used m a v) b ≡ (if b == a then v else used m b)
  used-set_used = refl

  pub next-set_used : next (set_used m a v) b ≡ next m b
  next-set_used = read32-write8_ne m a v (b + 8) (omega arith)

  pub prev-set_used : prev (set_used m a v) b ≡ prev m b
  prev-set_used = read32-write8_ne m a v (b + 4) (omega arith)

  pub size_of-set_used : size_of (set_used m a v) b ≡ size_of m b
  size_of-set_used = read32-write8_ne m a v (b + 12) (omega arith)

  pub used-set_prev : used (set_prev m a v) b ≡ used m b
  used-set_prev = write32_outside m (a + 4) v b (omega arith)

  pub next-set_prev : next (set_prev m a v) b ≡ next m b
  next-set_prev = read32-write32_ne m (a + 4) v (b + 8) (omega arith)

  pub size_of-set_prev : size_of (set_prev m a v) b ≡ size_of m b
  size_of-set_prev = read32-write32_ne m (a + 4) v (b + 12) (omega arith)

  pub used-set_next : used (set_next m a v) b ≡ used m b
  used-set_next = write32_outside m (a + 8) v b (omega arith)

  pub prev-set_next : prev (set_next m a v) b ≡ prev m b
  prev-set_next = read32-write32_ne m (a + 8) v (b + 4) (omega arith)

  pub size_of-set_next : size_of (set_next m a v) b ≡ size_of m b
  size_of-set_next = read32-write32_ne m (a + 8) v (b + 12) (omega arith)

  pub used-set_size : used (set_size m a v) b ≡ used m b
  used-set_size = write32_outside m (a + 12) v b (omega arith)

  pub prev-set_size : prev (set_size m a v) b ≡ prev m b
  prev-set_size = read32-write32_ne m (a + 12) v (b + 4) (omega arith)

  pub next-set_size : next (set_size m a v) b ≡ next m b
  next-set_size = read32-write32_ne m (a + 12) v (b + 8) (omega arith)
