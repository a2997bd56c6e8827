-- ===== src/Mm/Heap/Run.antt =====
-- Runs of the kernel heap: from `kheap_init` on, calls of `kmalloc` and of `kfree` on what it
-- returned, and writes of its clients to the bytes they were given.
use saxon_os.Prelude.{
  ℕ, zero, suc, ◌+◌, ◌^◌, ◌<◌, ◌≤◌, ◌≡◌, ◌≢◌, sym, arith, ◌==◌, if◌then◌else◌, true, false,
  Bool-cases, ◌⊎◌, inl, inr, ap, ◌∙◌, ◌%◌, Option, some, none, ok,
}
use saxon_os.Common.Memory.{Memory}
use saxon_os.Mm.Heap.{Heap, header_size, used, kheap_init, kmalloc, kfree}
use saxon_os.Mm.Heap.Blocks.{IsHeap, addr-le, addr-eq}
use saxon_os.Mm.Heap.Search.{Aligned}

-- The sizes that were asked for, at the pointers that were returned and not yet freed.
abbrev pub Live : Type 0
Live = ℕ → Option ℕ

abbrev pub set_live : Live → ℕ → Option ℕ → Live
set_live live p o q = if q == p then o else live q

-- Two memories agree but in the `n` bytes from `p` on.
abbrev pub Outside : (p n : ℕ) (m m' : Memory) → Type 0
Outside p n m m' = (a : ℕ) → (a < p) ⊎ (p + n ≤ a) → m' a ≡ m a

-- A heap after a run, with the pointers that are live then. Sizes are multiples of 4.
pub data Run : Heap → Live → Type 0 where
  booted :
      (start end : ℕ)
      → (m : Memory) → 0 < start
      → start + header_size ≤ end
      → end < 2 ^ 32
      → start % 4 ≡ 0
      → Run (kheap_init start end m) (λ p. none)
  took :
      (h : Heap)
      → (live : Live) → Run h live
      → (rounds size ptr : ℕ) → (h' : Heap) → h.heap_end ≤ rounds
      → size % 4 ≡ 0
      → kmalloc rounds size h ≡ ok (ptr, h')
      → Run h' (set_live live ptr (some size))
  gave :
      (h : Heap)
      → (live : Live) → Run h live
      → (ptr size : ℕ) → live ptr ≡ some size
      → Run (kfree ptr h) (set_live live ptr none)
  wrote :
      (h : Heap)
      → (live : Live) → Run h live
      → (ptr size : ℕ) → live ptr ≡ some size
      → (m' : Memory) → Outside ptr size h.mem m'
      → Run (record h { mem = m' }) live

pub set_live_cases :
    (live : Live)
    → (p : ℕ) → (o : Option ℕ) → (q n : ℕ) → set_live live p o q ≡ some n
    → ((q ≡ p) × (o ≡ some n)) ⊎ ((q ≢ p) × (live q ≡ some n))
set_live_cases live p o q n e = elim (Bool-cases (q == p)) [
  | inl here ↦ inl (ground arith, now here e)
  | inr other ↦ inr (ground arith, old other e)
]
  where
    now : (q == p) ≡ true → set_live live p o q ≡ some n → o ≡ some n
    now h e = ap (λ b. if b then o else live q) (sym h) ∙ e

    old : (q == p) ≡ false → set_live live p o q ≡ some n → live q ≡ some n
    old h e = ap (λ b. if b then o else live q) (sym h) ∙ e

-- A used block holds the bytes of a live pointer.
pub record Tenant {start end : ℕ} {m : Memory} (v : IsHeap start end m) (p s : ℕ) : Type 0 where
  pub index : ℕ
  pub index_lt : index < v.count
  pub at : p ≡ v.addr index + header_size
  pub taken : used m (v.addr index) ≡ 1
  pub enough : p + s ≤ v.addr (index + 1)

pub record Sound (h : Heap) (live : Live) : Type 0 where
  pub heap : IsHeap h.heap_start h.heap_end h.mem
  pub first_is : h.first ≡ h.heap_start
  pub aligned : Aligned heap
  pub tenants : (p s : ℕ) → live p ≡ some s → Tenant heap p s

-- A heap has fewer blocks than bytes.
pub count_bound : {start end : ℕ} → {m : Memory} → (v : IsHeap start end m) → v.count < end
count_bound v = omega (arith, below v.count (omega arith), v.ends, v.starts, v.not_null)
  where
    below : (i : ℕ) → i ≤ v.count → v.addr 0 + i ≤ v.addr i
    below zero p = omega arith
    below (suc i) p = omega (arith, below i (omega arith), addr-le v i (suc i) (omega arith) p)

module _ {start end : ℕ} {m : Memory} (v : IsHeap start end m) where
  -- The pointer of a tenant tells its block.
  pub Tenant-index :
      {p s : ℕ}
      → (t : Tenant v p s) → (k : ℕ) → k < v.count
      → p ≡ v.addr k + header_size
      → t.index ≡ k
  Tenant-index t k lt e =
      let at = t.at in let same = addr-eq v t.index k t.index_lt lt in ground arith

  -- A tenant whose block is kept stays.
  pub move :
      {m' : Memory}
      → (v' : IsHeap start end m') → {p s : ℕ} → (t : Tenant v p s) → (block : ℕ) → block < v'.count
      → v'.addr block ≡ v.addr t.index
      → v'.addr (block + 1) ≡ v.addr (t.index + 1)
      → used m' (v'.addr block) ≡ 1
      → Tenant v' p s
  move v' t block lt place reach taken = record {
    index = block;
    index_lt = lt;
    at = t.at ∙ ap (λ a. a + header_size) (sym place);
    taken = taken;
    enough = omega (arith, t.enough);
  }
