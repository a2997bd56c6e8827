-- ===== src/Mm/Heap/Keeps.antt =====
-- The bytes behind the pointers that are live, when the kernel heap takes and frees blocks.
use saxon_os.Prelude.{refl, ℕ, ◌+◌, ◌<◌, ◌≤◌, ◌≡◌, ◌≢◌, arith, ap, subst, ◌∙◌, ◌%◌, some, ok, panic}
use saxon_os.Common.Memory.{Memory}
use saxon_os.Mm.Heap.{Heap, header_size, kmalloc, kfree}
use saxon_os.Mm.Heap.Blocks.{IsHeap, KeepsBytes}
use saxon_os.Mm.Heap.Search.{Allocates, allocated, kmalloc-Allocates}
use saxon_os.Mm.Heap.Free.{kfree_bytes}
use saxon_os.Mm.Heap.Run.{Live, Run, Tenant, Sound, count_bound}
use saxon_os.Mm.Heap.Live.{vacant, Run-Sound}

-- A tenant's bytes are its block's.
Tenant-bytes :
    {start end : ℕ}
    → {m m' : Memory} → (v : IsHeap start end m) → {p n : ℕ} → (t : Tenant v p n)
    → KeepsBytes v t.index m'
    → (a : ℕ) → p ≤ a
    → a < p + n
    → m' a ≡ m a
Tenant-bytes v t keeps a low high =
    let at = t.at in let e = t.enough in keeps a (omega arith) (omega arith)

module _ {h : Heap} {live : Live} (s : Sound h live) (p n : ℕ) (l : live p ≡ some n) (a : ℕ)
    (low : p ≤ a) (high : a < p + n) where
  allocated_bytes :
      (size ptr : ℕ)
      → size % 4 ≡ 0
      → (h' : Heap) → Allocates h s.heap size panic (ok (ptr, h'))
      → h'.mem a ≡ h.mem a
  allocated_bytes size _ four _ (allocated k lt good before m' o) =
      let t = s.tenants p n l in
      let apart : t.index ≢ k = λ same.
        vacant s size four k lt good p n l (t.at ∙ ap (λ j. s.heap.addr j + header_size) same) in
      Tenant-bytes s.heap t (o.bytes t.index t.index_lt apart) a low high

  freed_bytes : (ptr size : ℕ) → live ptr ≡ some size → (kfree ptr h).mem a ≡ h.mem a
  freed_bytes ptr size f =
      let t = s.tenants p n l in
      let u = s.tenants ptr size f in
      rw (u.at) (
        Tenant-bytes s.heap t (kfree_bytes h s.heap u.index u.index_lt t.index t.index_lt) a low
          high)

-- After a run, a `kmalloc` of a multiple of 4 changes no byte that was asked for at a pointer that
-- is live.
pub Run-kmalloc_keeps :
    {h : Heap}
    → {live : Live} → Run h live
    → (rounds size ptr : ℕ) → (h' : Heap) → h.heap_end ≤ rounds
    → size % 4 ≡ 0
    → kmalloc rounds size h ≡ ok (ptr, h')
    → (p n : ℕ) → live p ≡ some n
    → (a : ℕ) → p ≤ a
    → a < p + n
    → h'.mem a ≡ h.mem a
Run-kmalloc_keeps {h} r rounds size ptr h' enough four e p n l a low high =
    let s = Run-Sound r in
    allocated_bytes s p n l a low high size ptr four h' (
      subst (Allocates h s.heap size panic) e (
        kmalloc-Allocates h s.heap rounds s.first_is (omega (arith, count_bound s.heap)) size
          (omega arith) s.aligned))

-- After a run, a `kfree` of a pointer that is live changes no byte that was asked for at a pointer
-- that is live, the freed one included.
pub Run-kfree_keeps :
    {h : Heap}
    → {live : Live} → Run h live
    → (ptr size : ℕ) → live ptr ≡ some size
    → (p n : ℕ) → live p ≡ some n
    → (a : ℕ) → p ≤ a
    → a < p + n
    → (kfree ptr h).mem a ≡ h.mem a
Run-kfree_keeps r ptr size f p n l a low high =
    freed_bytes (Run-Sound r) p n l a low high ptr size f

-- `kmalloc` keeps the end of the heap.
pub Run-kmalloc_end :
    {h : Heap}
    → {live : Live} → Run h live
    → (rounds size ptr : ℕ) → (h' : Heap) → h.heap_end ≤ rounds
    → size % 4 ≡ 0
    → kmalloc rounds size h ≡ ok (ptr, h')
    → h'.heap_end ≡ h.heap_end
Run-kmalloc_end {h} r rounds size ptr h' enough four e =
    let s = Run-Sound r in
    end_of s.heap ptr h' (
      subst (Allocates h s.heap size panic) e (
        kmalloc-Allocates h s.heap rounds s.first_is (omega (arith, count_bound s.heap)) size
          (omega arith) s.aligned))
  where
    end_of :
        (v : IsHeap h.heap_start h.heap_end h.mem)
        → (ptr : ℕ) → (h' : Heap) → Allocates h v size panic (ok (ptr, h'))
        → h'.heap_end ≡ h.heap_end
    end_of v _ _ (allocated k lt good before m' o) = refl
