-- ===== src/Mm/Heap/Search.antt =====
-- The loops of `kmalloc` and `kmalloc_alligned`, and the calls as a whole.
use saxon_os.Prelude.{
  ℕ, zero, suc, ◌+◌, ◌<◌, ◌≤◌, ◌≡◌, ◌≢◌, refl, sym, arith, ◌==◌, inl, inr, if◌then◌else◌, true,
  false, Bool, Bool-cases, ap, ◌∙◌, ltb, u32, ◌&&◌, ◌%◌, Outcome, ok, panic, ◌>>=◌,
}
use saxon_os.Common.Memory.{Memory}
use saxon_os.Mm.Heap.{
  Heap, header_size, used, size_of, occupy, first_fit, alligned_from, kmalloc, kmalloc_alligned,
}
use saxon_os.Mm.Heap.Blocks.{IsHeap, addr-end, addr-pos}
use saxon_os.Mm.Heap.Malloc.{Occupied, occupied}

-- A block is free and larger than a request.
abbrev pub fits : Memory → (size block : ℕ) → Bool
fits m size block = ltb size (size_of m block) && (used m block == 0)

-- The address of the bytes of every block is a multiple of 4.
abbrev pub Aligned : {start end : ℕ} → {m : Memory} → IsHeap start end m → Type 0
Aligned v = (i : ℕ) → i < v.count → (v.addr i + header_size) % 4 ≡ 0

-- What a search from block `i` on finds.
data Searched {start end : ℕ} {m : Memory} (v : IsHeap start end m) (size i : ℕ) : ℕ → Type 0 where
  found :
      (k : ℕ)
      → i ≤ k
      → k < v.count
      → fits m size (v.addr k) ≡ true
      → ((j : ℕ) → i ≤ j → j < k → fits m size (v.addr j) ≡ false)
      → Searched v size i (v.addr k)
  missing : ((j : ℕ) → i ≤ j → j < v.count → fits m size (v.addr j) ≡ false) → Searched v size i 0

module _ {start end : ℕ} {m : Memory} (v : IsHeap start end m) (size : ℕ) where
  -- The pointer to block `i`, null behind the last one.
  abbrev cursor : ℕ → ℕ
  cursor i = if i == v.count then 0 else v.addr i

  -- A block that does not fit is passed.
  pass :
      (i r : ℕ) → fits m size (v.addr i) ≡ false → Searched v size (i + 1) r → Searched v size i r
  pass i r bad (found k ge lt good before) =
      found k (omega arith) lt good (λ j a b. earlier j (omega arith) b before)
    where
      earlier :
          (j : ℕ)
          → i ≤ j
          → j < k
          → ((j : ℕ) → i + 1 ≤ j → j < k → fits m size (v.addr j) ≡ false)
          → fits m size (v.addr j) ≡ false
      earlier j a b before = elim (Bool-cases (i == j)) [
        | inl e ↦ ap (λ n. fits m size (v.addr n)) (ground arith) ∙ bad
        | inr e ↦ before j (ground arith) b
      ]
  pass i r bad (missing none) = missing (λ j a b. later j a b)
    where
      later : (j : ℕ) → i ≤ j → j < v.count → fits m size (v.addr j) ≡ false
      later j a b = elim (Bool-cases (i == j)) [
        | inl e ↦ ap (λ n. fits m size (v.addr n)) (ground arith) ∙ bad
        | inr e ↦ none j (ground arith) b
      ]

  pos : (i : ℕ) → i < v.count → (v.addr i == 0) ≡ false
  pos i p = let h = addr-pos v i p in ground arith

  first_fit-Searched :
      (rounds i : ℕ)
      → i ≤ v.count
      → v.count < i + rounds
      → (r : ℕ) × (first_fit rounds m (cursor i) size ≡ ok r) × Searched v size i r
  unfolding first_fit
  first_fit-Searched zero i le enough = absurd (omega arith)
  first_fit-Searched (suc rounds) i le enough = elim (Bool-cases (i == v.count)) [
    | inl end ↦ rw end (0, refl, missing (λ j a b. absurd (ground arith)))
    | inr more ↦
        let rest = first_fit-Searched rounds (i + 1) (ground arith) (omega arith) in
        let lt : i < v.count = ground arith in
        elim (Bool-cases (fits m size (v.addr i))) [
          | inl good ↦
              rw (more, pos i lt, good)
                (v.addr i, refl, found i (omega arith) lt good (λ j a b. absurd (omega arith)))
          | inr bad ↦
              rw (more, pos i lt, bad, v.nexts i lt) (rest.0, rest.1, pass i rest.0 bad rest.2)
        ]
  ]

  alligned_from-first_fit :
      (rounds i : ℕ)
      → Aligned v
      → i ≤ v.count
      → alligned_from rounds m (cursor i) size 4
        ≡ (first_fit rounds m (cursor i) size >>= λ b. ok (m, b))
  unfolding first_fit alligned_from
  alligned_from-first_fit zero i al le = refl
  alligned_from-first_fit (suc rounds) i al le = elim (Bool-cases (i == v.count)) [
    | inl end ↦ rw end refl
    | inr more ↦
        let rest = alligned_from-first_fit rounds (i + 1) al (ground arith) in
        let lt : i < v.count = ground arith in
        let start : u32 (v.addr i + header_size) % 4 ≡ 0 =
          omega (arith, addr-end v i lt, v.sizes i lt, v.in_memory, al i lt) in
        let fit : (u32 (v.addr i + header_size) % 4 == 0) ≡ true = ground arith in
        elim (Bool-cases (used m (v.addr i) == 0)) [
          | inl free ↦ elim (Bool-cases (ltb size (size_of m (v.addr i)))) [
            | inl large ↦ rw (more, pos i lt, free, fit, large) refl
            | inr small ↦ rw (more, pos i lt, free, fit, small, v.nexts i lt) rest
          ]
          | inr taken ↦ elim (Bool-cases (ltb size (size_of m (v.addr i)))) [
            | inl large ↦ rw (more, pos i lt, taken, large, v.nexts i lt) rest
            | inr small ↦ rw (more, pos i lt, taken, small, v.nexts i lt) rest
          ]
        ]
  ]

-- What an allocation of `size` bytes gives: the address of the first block that is free and larger,
-- with the heap in which it is taken, or `failure` if there is none.
pub data Allocates (h : Heap) (v : IsHeap h.heap_start h.heap_end h.mem) (size : ℕ)
    (failure : Outcome (ℕ × Heap)) : Outcome (ℕ × Heap) → Type 0 where
  allocated :
      (k : ℕ)
      → k < v.count
      → fits h.mem size (v.addr k) ≡ true
      → ((j : ℕ) → j < k → fits h.mem size (v.addr j) ≡ false)
      → (m' : Memory) → Occupied v k size m'
      → Allocates h v size failure (ok (v.addr k + header_size, record h { mem = m' }))
  exhausted :
      ((j : ℕ) → j < v.count → fits h.mem size (v.addr j) ≡ false)
      → Allocates h v size failure failure

module _ (h : Heap) (v : IsHeap h.heap_start h.heap_end h.mem) (size : ℕ)
    (failure : Outcome (ℕ × Heap)) where
  finish :
      (r : ℕ)
      → Searched v size 0 r
      → Allocates h v size failure (if r == 0 then failure else ok (occupy r size h))
  unfolding occupy
  finish r (found k ge lt good before) =
      let address : u32 (v.addr k + header_size) ≡ v.addr k + header_size =
        omega (arith, addr-end v k lt, v.sizes k lt, v.in_memory) in
      rw (pos v size k lt, address)
        (allocated k lt good (λ j b. before j (omega arith) b) _
          (occupied v k size lt (ground arith)))
  finish r (missing none) = exhausted (λ j b. none j (omega arith) b)

  start : cursor v size 0 ≡ v.addr 0
  start = let e : (0 == v.count) ≡ false = ne v.some_block in rw e refl
    where
      ne : {n : ℕ} → 0 < n → (0 == n) ≡ false
      ne p = ground arith

  from_first : h.first ≡ h.heap_start → h.first ≡ cursor v size 0
  from_first f = f ∙ (sym v.starts ∙ sym start)

  search :
      (rounds : ℕ)
      → h.first ≡ h.heap_start
      → v.count < rounds
      → (r : ℕ) × (first_fit rounds h.mem h.first size ≡ ok r) × Searched v size 0 r
  search rounds f enough =
      let s = first_fit-Searched v size rounds 0 (omega arith) (omega arith) in
      (s.0, ap (λ b. first_fit rounds h.mem b size) (from_first f) ∙ s.1, s.2)

  alligned_search :
      (rounds : ℕ)
      → h.first ≡ h.heap_start
      → v.count < rounds
      → Aligned v
      → (r : ℕ) × (alligned_from rounds h.mem h.first size 4 ≡ ok (h.mem, r)) × Searched v size 0 r
  alligned_search rounds f enough al =
      let s = search rounds f enough in
      let e =
        ap (λ b. alligned_from rounds h.mem b size 4) (from_first f)
        ∙ (alligned_from-first_fit v size rounds 0 al (omega arith)
            ∙ ap (λ b. first_fit rounds h.mem b size >>= λ b. ok (h.mem, b))
                (sym (from_first f))) in
      (s.0, e ∙ ap (λ o. o >>= λ b. ok (h.mem, b)) s.1, s.2)

-- A call for one byte, and a call for any other number of bytes.
module _ (h : Heap) (v : IsHeap h.heap_start h.heap_end h.mem) (rounds : ℕ)
    (f : h.first ≡ h.heap_start) (enough : v.count < rounds) where
  pub kmalloc_byte : Allocates h v 1 (ok (0, h)) (kmalloc rounds 1 h)
  unfolding kmalloc
  kmalloc_byte =
      let s = search h v 1 (ok (0, h)) rounds f enough in
      rw (s.1) (finish h v 1 (ok (0, h)) s.0 s.2)

  -- On a heap whose blocks' bytes are aligned to 4, and with more rounds than blocks, a request of
  -- any size but 1 takes the first free block that is larger. The heap is well formed afterwards:
  -- it has the block taken, with room for the request, every other block with its field `used` and
  -- its bytes, and no block but these and a free one right behind the request. If no free block is
  -- larger, the kernel panics.
  pub kmalloc-Allocates :
      (size : ℕ) → size ≢ 1 → Aligned v → Allocates h v size panic (kmalloc rounds size h)
  unfolding kmalloc kmalloc_alligned
  kmalloc-Allocates size ne al =
      let other : (size == 1) ≡ false = ground arith in
      let s = alligned_search h v size panic rounds f enough al in
      rw (other, s.1) (finish h v size panic s.0 s.2)

-- Multiples of 4 keep the addresses multiples of 4.
pub Occupied-Aligned :
    {start end : ℕ}
    → {m m' : Memory} → (v : IsHeap start end m) → (k size : ℕ) → (o : Occupied v k size m')
    → k < v.count
    → size % 4 ≡ 0
    → Aligned v
    → Aligned o.heap
Occupied-Aligned v k size o lt four al j p = elim (o.blocks j p) [
  | inl old ↦ rw (old.2) (al old.0 old.1)
  | inr new ↦ rw (new.0) (omega (arith, al k lt))
]
