-- ===== src/Mm/Heap/Live.antt =====
-- What holds after every run of the kernel heap.
use mathlib.Core.Option.{some-injective, none-ne-some}
use saxon_os.Prelude.{
  ℕ, ◌+◌, ◌<◌, ◌≤◌, ◌≡◌, ◌≢◌, refl, sym, arith, ◌==◌, if◌then◌else◌, true, false, ◌⊎◌, inl, inr, ap,
  subst, ◌∙◌, ◌%◌, Option, some, none, ok, panic,
}
use saxon_os.Common.Memory.{Memory}
use saxon_os.Mm.Heap.{Heap, header_size, used, size_of, kmalloc, kfree}
use saxon_os.Mm.Heap.Blocks.{addr-reach}
use saxon_os.Mm.Heap.Malloc.{Occupied}
use saxon_os.Mm.Heap.Search.{Allocates, fits, allocated, kmalloc-Allocates, Occupied-Aligned}
use saxon_os.Mm.Heap.Free.{freed_heap, kfree-Inside, freed_heap-Begins}
use saxon_os.Mm.Heap.Init.{kheap_init-Fresh}
use saxon_os.Mm.Heap.Write.{wrote-Sound}
use saxon_os.Mm.Heap.Run.{
  Live, set_live, Run, booted, took, gave, wrote, set_live_cases, Tenant, Sound, count_bound,
  Tenant-index, move,
}

-- The step of `kmalloc`: the new pointer was not live.
module _ {h : Heap} {live : Live} (s : Sound h live) (size : ℕ) (four : size % 4 ≡ 0) where
  pub vacant :
      (k : ℕ)
      → k < s.heap.count
      → fits h.mem size (s.heap.addr k) ≡ true
      → (p n : ℕ) → live p ≡ some n
      → p ≢ s.heap.addr k + header_size
  vacant k lt fit p n l e =
      let t = s.tenants p n l in
      let same : used h.mem (s.heap.addr t.index) ≡ used h.mem (s.heap.addr k) =
        ap (λ j. used h.mem (s.heap.addr j)) (Tenant-index s.heap t k lt e) in
      let taken = t.taken in ground arith

  not_live : (p : ℕ) → ((n : ℕ) → live p ≢ some n) → live p ≡ none
  not_live p h = go (live p) h
    where
      go : (o : Option ℕ) → ((n : ℕ) → o ≢ some n) → o ≡ none
      go none h = refl
      go (some n) h = absurd (h n refl)

  -- The heap after the block is taken.
  taken-Sound :
      (k : ℕ)
      → k < s.heap.count
      → fits h.mem size (s.heap.addr k) ≡ true
      → (m' : Memory) → Occupied s.heap k size m'
      → Sound (record h { mem = m' }) (set_live live (s.heap.addr k + header_size) (some size))
  taken-Sound k lt fit m' o = record {
    heap = o.heap;
    first_is = s.first_is;
    aligned = Occupied-Aligned s.heap k size o lt four s.aligned;
    tenants = λ p n e. elim (set_live_cases live (s.heap.addr k + header_size) (some size) p n e) [
      | inl here ↦ newcomer p n (here.0) (here.1)
      | inr other ↦
          let t = s.tenants p n (other.1) in
          let apart : t.index ≢ k =
            λ same. other.0 (t.at ∙ ap (λ j. s.heap.addr j + header_size) same) in
          let kept = o.others t.index t.index_lt apart in
          move s.heap o.heap t kept.block kept.kept_lt kept.place kept.reach (kept.state ∙ t.taken)
    ];
  }
    where
      newcomer :
          (p n : ℕ) → p ≡ s.heap.addr k + header_size → some size ≡ some n → Tenant o.heap p n
      newcomer p n e f = record {
        index = k;
        index_lt = o.index_lt;
        at = e ∙ ap (λ a. a + header_size) (sym o.place);
        taken = ap (used m') o.place ∙ o.taken;
        enough =
            let asked : size ≡ n = some-injective size n f in
            let whole = o.heap.sizes k o.index_lt in
            let long : size_of m' (o.heap.addr k) ≡ size_of m' (s.heap.addr k) =
              ap (size_of m') o.place in
            omega (arith, o.enough, o.place);
      }

  -- What a call that succeeds returns.
  given :
      (ptr : ℕ)
      → (h' : Heap) → Allocates h s.heap size panic (ok (ptr, h'))
      → Sound h' (set_live live ptr (some size)) × (live ptr ≡ none)
  given _ _ (allocated k lt good before m' o) = (
    taken-Sound k lt good m' o,
    not_live (s.heap.addr k + header_size)
        (λ n e. vacant k lt good (s.heap.addr k + header_size) n e refl),
  )

  kmalloc-given :
      (rounds ptr : ℕ)
      → (h' : Heap) → h.heap_end ≤ rounds
      → kmalloc rounds size h ≡ ok (ptr, h')
      → Sound h' (set_live live ptr (some size)) × (live ptr ≡ none)
  kmalloc-given rounds ptr h' enough e = given ptr h' (
      subst (Allocates h s.heap size panic) e (
        kmalloc-Allocates h s.heap rounds s.first_is (omega (arith, count_bound s.heap)) size
          (omega arith) s.aligned))

-- The step of `kfree`.
module _ {h : Heap} {live : Live} (s : Sound h live) (i : ℕ) (lt : i < s.heap.count) where
  freed-Tenant :
      (p n : ℕ)
      → (t : Tenant s.heap p n) → p ≢ s.heap.addr i + header_size
      → Tenant (freed_heap h s.heap i lt) p n
  freed-Tenant p n t ne =
      let apart : t.index ≢ i = λ same. ne (t.at ∙ ap (λ j. s.heap.addr j + header_size) same) in
      let other : (t.index == i) ≡ false = ground arith in
      let held : (if t.index == i then 0 else used h.mem (s.heap.addr t.index)) ≡ 1 =
        rw other t.taken in
      let c = kfree-Inside h s.heap i lt t.index t.index_lt in
      elim (c.whole) [
        | inl free ↦ absurd (omega arith)
        | inr exact ↦
            move s.heap (freed_heap h s.heap i lt) t c.block c.inside_lt exact.0 exact.1
              (c.state ∙ held)
      ]

  freed-Sound :
      Sound
        (kfree (s.heap.addr i + header_size) h)
        (set_live live (s.heap.addr i + header_size) none)
  unfolding kfree
  freed-Sound = record {
    heap = freed_heap h s.heap i lt;
    first_is = s.first_is;
    aligned = λ k q. let b = freed_heap-Begins h s.heap i lt k q in rw (b.2) (s.aligned b.0 b.1);
    tenants = λ p n e. elim (set_live_cases live (s.heap.addr i + header_size) none p n e) [
      | inl here ↦ absurd (none-ne-some n (here.1))
      | inr other ↦ freed-Tenant p n (s.tenants p n (other.1)) (other.0)
    ];
  }

pub Run-Sound : {h : Heap} → {live : Live} → Run h live → Sound h live
Run-Sound (booted start end m p room q four) =
    let f = kheap_init-Fresh start end m p room q four in
    record {
      heap = f.heap;
      first_is = f.bounds.2 ∙ sym f.bounds.0;
      aligned = f.aligned;
      tenants = λ p n e. absurd (none-ne-some n e);
    }
Run-Sound (took h live r rounds size ptr h' enough four e) =
    (kmalloc-given (Run-Sound r) size four rounds ptr h' enough e).0
Run-Sound (gave h live r ptr size l) =
    let s = Run-Sound r in
    let t = s.tenants ptr size l in
    subst (λ p. Sound (kfree p h) (set_live live p none)) (sym t.at)
      (freed-Sound s t.index t.index_lt)
Run-Sound (wrote h live r ptr size l m' outside) = wrote-Sound (Run-Sound r) ptr size l m' outside

-- After a run, the bytes that were asked for at two pointers that are live do not overlap.
pub Run-disjoint :
    {h : Heap}
    → {live : Live} → Run h live
    → (p q m n : ℕ) → live p ≡ some m
    → live q ≡ some n
    → p ≢ q
    → (p + m ≤ q) ⊎ (q + n ≤ p)
Run-disjoint r p q m n a b ne =
    let s = Run-Sound r in
    let t = s.tenants p m a in
    let u = s.tenants q n b in
    let apart : t.index ≢ u.index =
      λ same. ne (t.at ∙ (ap (λ j. s.heap.addr j + header_size) same ∙ sym u.at)) in
    elim (order t.index u.index apart) [
      | inl below ↦
          inl (omega (arith, t.enough, u.at, addr-reach s.heap t.index u.index below u.index_lt))
      | inr above ↦
          inr (omega (arith, u.enough, t.at, addr-reach s.heap u.index t.index above t.index_lt))
    ]
  where
    order : (i j : ℕ) → i ≢ j → (i < j) ⊎ (j < i)
    order i j ne = omega arith

-- After a run, a `kmalloc` of a multiple of 4 returns no pointer that is live.
pub Run-kmalloc_fresh :
    {h : Heap}
    → {live : Live} → Run h live
    → (rounds size ptr : ℕ) → (h' : Heap) → h.heap_end ≤ rounds
    → size % 4 ≡ 0
    → kmalloc rounds size h ≡ ok (ptr, h')
    → live ptr ≡ none
Run-kmalloc_fresh r rounds size ptr h' enough four e =
    (kmalloc-given (Run-Sound r) size four rounds ptr h' enough e).1
