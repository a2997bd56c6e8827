-- ===== src/Mm/Heap.antt =====
-- src/mm/heap.c: the kernel heap, a list of blocks of which each has a header of 16 bytes in front
-- of its bytes. The headers lie in the memory, byte by byte. `rounds` bounds the loops over the
-- list.
pub mod Header
pub mod Blocks
pub mod Split
pub mod Tail
pub mod Cut
pub mod Malloc
pub mod Search
pub mod Absorb
pub mod Joined
pub mod Merge
pub mod Inside
pub mod Free
pub mod Init
pub mod Run
pub mod Write
pub mod Live
pub mod Keeps
use saxon_os.Prelude.{
  ℕ, zero, suc, ◌+◌, ◌*◌, ◌%◌, ltb, leb, ◌==◌, ◌&&◌, ◌||◌, not, if◌then◌else◌, u32, Outcome, ok,
  panic, fault, hang, ◌>>=◌,
}
use saxon_os.Common.Memory.{Memory, write8, memset, memcpy}
use saxon_os.Common.Words.{read32, write32, ceiling_div, sub32}

pub record Heap : Type 0 where
  pub heap_start : ℕ
  pub heap_end : ℕ
  pub heap_size : ℕ
  pub first : ℕ
  pub mem : Memory

-- `sizeof(mem_block_t)`: a byte and three of padding, two pointers and the size.
abbrev pub header_size : ℕ
header_size = 16

-- The fields of the header at an address.
abbrev pub used : Memory → ℕ → ℕ
used m b = m b

abbrev pub prev : Memory → ℕ → ℕ
prev m b = read32 m (b + 4)

abbrev pub next : Memory → ℕ → ℕ
next m b = read32 m (b + 8)

abbrev pub size_of : Memory → ℕ → ℕ
size_of m b = read32 m (b + 12)

abbrev pub set_used : Memory → ℕ → ℕ → Memory
set_used m b v = write8 m b v

abbrev pub set_prev : Memory → ℕ → ℕ → Memory
set_prev m b v = write32 m (b + 4) v

abbrev pub set_next : Memory → ℕ → ℕ → Memory
set_next m b v = write32 m (b + 8) v

abbrev pub set_size : Memory → ℕ → ℕ → Memory
set_size m b v = write32 m (b + 12) v

unfoldable pub kheap_init : (start end : ℕ) → Memory → Heap
kheap_init start end m =
    let heap_size = sub32 end start in
    let cleared = memset start 0 heap_size m in
    record {
      heap_start = start;
      heap_end = end;
      heap_size = heap_size;
      first = start;
      mem =
          set_size (set_next (set_prev (set_used cleared start 0) start 0) start 0) start
            (sub32 heap_size header_size);
    }

-- The loop of `kmalloc` for one byte; 0 if no block fits.
unfoldable pub first_fit : (rounds : ℕ) → Memory → (block size : ℕ) → Outcome ℕ
first_fit zero m block size = hang
first_fit (suc rounds) m block size =
    let rest = first_fit rounds m (next m block) size in
    if block == 0
    then ok 0
    else if ltb size (size_of m block) && (used m block == 0)
    then ok block
    else rest

-- The block that is cut off behind the first `size` bytes of a block, if there is room for one.
unfoldable pub split : Memory → (result size : ℕ) → Memory
split m result size =
    let tmp = u32 (result + header_size + size) in
    let m1 = set_used m tmp 0 in
    let m2 = set_size m1 tmp (sub32 (sub32 (size_of m1 result) size) header_size) in
    let m3 = set_prev m2 tmp result in
    let m4 = set_next m3 tmp (next m3 result) in
    let m5 = if next m4 tmp == 0 then m4 else set_prev m4 (next m4 tmp) tmp in
    if leb (u32 (size + header_size + 1)) (size_of m result)
    then set_next (set_size m5 result size) result tmp
    else m

-- The end of both allocators.
unfoldable pub occupy : (result size : ℕ) → Heap → ℕ × Heap
occupy result size h =
    (u32 (result + header_size), record h { mem = set_used (split h.mem result size) result 1 })

-- What the loop of `kmalloc_alligned` does to a free block whose bytes are not aligned: its header
-- moves up, and the block before it, if there is one, takes the gap. The fields `used` and `size`
-- of the new header are not written.
pub shift : Memory → (block alligned_addr : ℕ) → Memory × ℕ
shift m block alligned_addr =
    let old_next = next m block in
    let m1 = set_next m block (sub32 alligned_addr header_size) in
    let m2 = set_size m1 block (sub32 (sub32 (next m1 block) block) header_size) in
    let p = prev m2 block in
    let m3 = set_size m2 p (u32 (size_of m2 p + (size_of m2 block + header_size))) in
    let m4 = set_next m3 (prev m3 block) (next m3 block) in
    let m5 = if p == 0 then m2 else m4 in
    let b = if p == 0 then block else prev m4 block in
    let m6 = set_prev m5 (next m5 b) b in
    let result = next m6 b in
    let m7 = set_next m6 result old_next in
    (if old_next == 0 then m7 else set_prev m7 old_next result, result)

unfoldable pub alligned_from :
    (rounds : ℕ) → Memory → (block size allignment : ℕ) → Outcome (Memory × ℕ)
alligned_from zero m block size allignment = hang
alligned_from (suc rounds) m block size allignment =
    let rest = alligned_from rounds m (next m block) size allignment in
    let start = u32 (block + header_size) in
    let alligned_addr = u32 (ceiling_div start allignment * allignment) in
    let end = u32 (start + size_of m block) in
    if block == 0
    then ok (m, 0)
    else if not (used m block == 0)
    then rest
    else if allignment == 0
    then fault
    else if start % allignment == 0
    then (if ltb size (size_of m block) then ok (m, block) else rest)
    else if ltb end (u32 (alligned_addr + size))
    then rest
    else if leb (u32 (size + header_size)) (sub32 end alligned_addr)
    then ok (shift m block alligned_addr)
    else rest

unfoldable pub kmalloc_alligned : (rounds size allignment : ℕ) → Heap → Outcome (ℕ × Heap)
kmalloc_alligned rounds size allignment h =
    alligned_from rounds h.mem h.first size allignment >>= λ r.
    if r.1 == 0 then panic else ok (occupy r.1 size (record h { mem = r.0 }))

unfoldable pub kmalloc : (rounds size : ℕ) → Heap → Outcome (ℕ × Heap)
kmalloc rounds size h =
    if not (size == 1)
    then kmalloc_alligned rounds size 4 h
    else (first_fit rounds h.mem h.first size >>= λ result.
        if result == 0 then ok (0, h) else ok (occupy result size h))

-- Block `q`, behind block `p`, becomes part of it.
unfoldable pub absorb : Memory → (p q : ℕ) → Memory
absorb m p q =
    let m1 = set_size m p (u32 (size_of m p + (header_size + size_of m q))) in
    let n = next m1 q in let m2 = set_next m1 p n in if n == 0 then m2 else set_prev m2 n p

-- Both steps of `kfree_block`: a free block before the block absorbs it, then the result absorbs a
-- free block behind it.
unfoldable pub absorb_prev : Memory → ℕ → Memory × ℕ
absorb_prev m block =
    let p = prev m block in
    if not (p == 0) && (used m p == 0) then (absorb m p block, p) else (m, block)

unfoldable pub absorb_next : Memory → ℕ → Memory
absorb_next m block =
    let n = next m block in if not (n == 0) && (used m n == 0) then absorb m block n else m

unfoldable pub kfree_block : ℕ → Memory → Memory
kfree_block block m = let (m1, b) = absorb_prev (set_used m block 0) block in absorb_next m1 b

-- The body of `kfree` is that of `kfree_block` on the header in front of the pointer.
unfoldable pub kfree : ℕ → Heap → Heap
kfree ptr h = record h { mem = kfree_block (sub32 ptr header_size) h.mem }

-- `tmp` is where the function's array lies on the stack.
pub krealloc : (rounds tmp ptr size : ℕ) → Heap → Outcome (ℕ × Heap)
krealloc rounds tmp ptr size h =
    let old_block = sub32 ptr header_size in
    let old_size = size_of h.mem old_block in
    let saved = kfree_block old_block (memcpy tmp ptr old_size h.mem) in
    if ptr == 0
    then kmalloc rounds size h
    else if size == 0
    then ok (0, kfree ptr h)
    else (kmalloc rounds size (record h { mem = saved }) >>= λ r.
        let new_block = u32 (r.0 + header_size) in
        ok (new_block, record r.1 { mem = memcpy new_block ptr old_size r.1.mem }))

pub kcalloc : (rounds nmemb size : ℕ) → Heap → Outcome (ℕ × Heap)
kcalloc rounds nmemb size h =
    if (nmemb == 0) || (size == 0)
    then ok (0, h)
    else (kmalloc rounds (u32 (size * nmemb)) h >>= λ r. ok (u32 (r.0 + header_size), r.1))
