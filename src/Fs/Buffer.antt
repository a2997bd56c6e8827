-- ===== src/Fs/Buffer.antt =====
-- src/fs/devfs/buffer.c: the buffer cache, and `find_bdev` and `add_bdev` of src/fs/devfs/devfs.c.
-- The number that `get_block` prints when it finds a block is left out. `rounds` bounds each loop.
pub mod Reuse
use saxon_os.Prelude.{
  ℕ, zero, suc, ◌+◌, ◌-◌, ◌*◌, ◌%◌, ◌^◌, ltb, ◌==◌, ◌&&◌, not, if◌then◌else◌, Bool, true, false,
  u32, u8, bit_and, List, [], ◌∷◌, Outcome, ok, fault, hang, ◌>>=◌,
}
use saxon_os.Prelude.Io.{Device, Trace}
use saxon_os.Mm.Heap.{Heap, kmalloc}
use saxon_os.Drivers.Ata.{Bdev, ata_read_sects_28_pio, ata_write_sects_28_pio}

-- An address, 0 for the null pointer.
abbrev pub Ptr : Type 0
Ptr = ℕ

-- `bdev_t`, with the fields that the driver reads together.
pub record DeviceNode : Type 0 where
  pub minor : ℕ
  pub bdev : Bdev
  pub next_bdev : Ptr

pub record BufferHead : Type 0 where
  pub flags : ℕ
  pub block_num : ℕ
  pub dirty : Bool
  pub dev : ℕ
  pub count : ℕ
  pub next : Ptr
  pub prev : Ptr
  pub next_free : Ptr
  pub prev_free : Ptr
  pub buff : ℕ → ℕ

-- The variables of both files, the structures at their addresses, and the accesses to ports so far.
pub record Cache : Type 0 where
  pub block_head : Ptr
  pub bdevs : Ptr → DeviceNode
  pub buff_head : ℕ → Ptr
  pub mru_buff : Ptr
  pub lru_buff : Ptr
  pub heads : Ptr → BufferHead
  pub trace : Trace

-- A change to the structure at an address.
abbrev pub update : Ptr → (BufferHead → BufferHead) → Cache → Cache
update p f c = record c { heads = λ q. if q == p then f (c.heads q) else c.heads q }

-- The loop of `find_bdev`. Where it finds nothing the function ends without a result: a fault.
unfoldable pub find_bdev_from :
    (rounds : ℕ) → (Ptr → DeviceNode) → (device : ℕ) → Ptr → Outcome Bdev
find_bdev_from zero bdevs device p = hang
find_bdev_from (suc rounds) bdevs device p =
    let rest = find_bdev_from rounds bdevs device (bdevs p).next_bdev in
    if p == 0
    then fault
    else if bit_and device 0xFF == (bdevs p).minor
    then ok (bdevs p).bdev
    else rest

unfoldable pub find_bdev : (rounds : ℕ) → Cache → (device : ℕ) → Outcome Bdev
find_bdev rounds c device = find_bdev_from rounds c.bdevs device c.block_head

-- `(BLOCK_DEV << 8) | 0`
pub add_bdev : Ptr → Cache → ℕ × Cache
add_bdev p c = (3 * 2 ^ 8, record c { block_head = p })

-- The bytes of a buffer after a list of them is stored from its start on.
pub loaded : List ℕ → (ℕ → ℕ) → ℕ → ℕ
loaded [] old i = old i
loaded (x ∷ xs) old zero = x
loaded (x ∷ xs) old (suc i) = loaded xs (λ j. old (suc j)) i

-- `sizeof(struct buffer_head)` and `MAX_BUFFER`.
abbrev pub buffer_bytes : ℕ
buffer_bytes = 544

abbrev pub max_buffer : ℕ
max_buffer = 100

-- The loop of `init_buffer`, with `left` buffers to go, and the last buffer. The headers of the
-- heap and the structures lie apart, so both are kept side by side.
pub chain_buffers :
    (rounds left : ℕ) → (current : Ptr) → Cache → Heap → Outcome (Ptr × Cache × Heap)
chain_buffers rounds zero current c h = ok (current, c, h)
chain_buffers rounds (suc left) current c h = kmalloc rounds buffer_bytes h >>= λ a.
    chain_buffers rounds left a.0
      (update a.0 (λ g. record g { prev = current; prev_free = current })
        (update current (λ g. record g { next = a.0; next_free = a.0 }) c))
      a.1

pub init_buffer : (rounds : ℕ) → Cache → Heap → Outcome (Cache × Heap)
init_buffer rounds c h = kmalloc rounds buffer_bytes h >>= λ a.
    let lists : ℕ → Ptr = λ i. if i == 0 then a.0 else if ltb i 256 then 0 else c.buff_head i in
    chain_buffers rounds (max_buffer - 1) a.0
      (update a.0 (λ g. record g { prev = 0; prev_free = 0 })
        (record c { buff_head = lists; lru_buff = a.0 }))
      a.1
    >>= λ r. ok (record r.1 { mru_buff = r.0 }, r.2)

module _ (rounds : ℕ) (d : Device) where
  -- `ata_write_sects_28_pio(...->buff, 1, find_bdev(device), block)`, and the flag cleared.
  pub write_back : Ptr → (device block : ℕ) → Cache → Outcome Cache
  write_back p device block c = find_bdev rounds c device >>= λ b.
      ata_write_sects_28_pio rounds d
        (λ i. (c.heads p).buff (2 * i) + (c.heads p).buff (2 * i + 1) * 2 ^ 8) 1 b block c.trace
      >>= λ t. ok (update p (λ h. record h { dirty = false }) (record c { trace = t }))

  -- A block that is found and that nobody uses leaves the list of free blocks.
  pub take_free : Ptr → (block device : ℕ) → Cache → Outcome Cache
  take_free p block device c =
      let h = c.heads p in
      let c1 =
        if h.prev_free == 0
        then c
        else update h.prev_free (λ g. record g { next_free = h.next_free }) c in
      let after = (c1.heads p).next_free in
      let before = (c1.heads p).prev_free in
      let c2 = if after == 0 then c1 else update after (λ g. record g { prev_free = before }) c1 in
      let c3 = update p (λ g. record g { next_free = 0; prev_free = 0 }) c2 in
      if (c3.heads p).dirty then write_back p device block c3 else ok c3

  -- The loop of `get_block`: the address of the block, or null.
  pub find_block : (left : ℕ) → Cache → (block device : ℕ) → Ptr → Outcome Ptr
  find_block zero c block device p = hang
  find_block (suc left) c block device p =
      let rest = find_block left c block device (c.heads p).next in
      if p == 0
      then ok 0
      else if ((c.heads p).block_num == block) && ((c.heads p).dev == device)
      then ok p
      else rest

  -- The least recently used free block, read in for another block.
  pub recycle : (block device : ℕ) → Cache → Outcome (Ptr × Cache)
  recycle block device c =
      let p = c.lru_buff in
      let lru = (c.heads p).next_free in
      let c1 = record c { lru_buff = lru } in
      let c2 = if lru == 0 then c1 else update lru (λ g. record g { prev_free = 0 }) c1 in
      let h = c2.heads p in
      let bucket = bit_and block 0xFF in
      let cleaned = if h.dirty then write_back p h.dev h.block_num c2 else ok c2 in
      if p == 0
      then fault
      else (cleaned >>= λ c3. find_bdev rounds c3 device >>= λ b.
          ata_read_sects_28_pio rounds d 1 b block c3.trace >>= λ r.
          let first = c3.buff_head bucket in
          let c4 =
            update p
              (λ g. record g {
                count = u32 (g.count + 1);
                block_num = block;
                dev = device;
                buff = loaded r.0 g.buff;
                next = first;
              })
              (record c3 { trace = r.1 }) in
          let c5 = if first == 0 then c4 else update first (λ g. record g { prev = p }) c4 in
          ok (
            p,
            update p (λ g. record g { next_free = 0; prev_free = 0; prev = 0 })
                (record c5 { buff_head = λ n. if n == bucket then p else c5.buff_head n }),
          ))

  pub get_block : (block device : ℕ) → Cache → Outcome (Ptr × Cache)
  get_block block device c =
      find_block rounds c block device (c.buff_head (bit_and block 0xFF)) >>= λ p.
      if p == 0
      then recycle block device c
      else ((if (c.heads p).count == 0 then take_free p block device c else ok c) >>= λ c1.
          ok (p, update p (λ g. record g { count = u32 (g.count + 1) }) c1))

-- The class of a block is 1, `CLASS_DIR`, for directories.
pub put_block : Ptr → Cache → Outcome Cache
put_block p c =
    let h = c.heads p in
    if ltb 1 h.count
    then ok (update p (λ g. record g { count = g.count - 1 }) c)
    else if h.flags == 1
    then (if c.mru_buff == 0
        then fault
        else ok
            (record (update p (λ g. record g { prev_free = c.mru_buff })
              (update c.mru_buff (λ g. record g { next_free = p }) c)) { mru_buff = p }))
    else if c.lru_buff == 0
    then fault
    else ok
        (record (update p (λ g. record g { next_free = c.lru_buff })
          (update c.lru_buff (λ g. record g { prev_free = p }) c)) { lru_buff = p })
