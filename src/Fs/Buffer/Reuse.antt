-- ===== src/Fs/Buffer/Reuse.antt =====
-- A buffer that is put back and got again is still the first free one.
use saxon_os.Prelude.{
  ℕ, suc, ◌+◌, ◌≡◌, ◌≢◌, refl, ap, ◌∙◌, arith, ◌==◌, if◌then◌else◌, true, false, bit_and, List, ok,
  u32,
}
use saxon_os.Prelude.Io.{Device, Trace}
use saxon_os.Drivers.Ata.{Bdev, ata_read_sects_28_pio}
use saxon_os.Fs.Buffer.{
  BufferHead, Cache, update, find_bdev, loaded, find_block, recycle, get_block, put_block,
}

-- Block `b` was read into the buffer at `p`, which one reader uses; another buffer is free.
pub record InUse (c : Cache) (p b device : ℕ) : Type 0 where
  pub some_buffer : p ≢ 0
  pub some_free : c.lru_buff ≢ 0
  pub other_free : c.lru_buff ≢ p
  pub one_reader : (c.heads p).count ≡ 1
  pub plain : (c.heads p).flags ≡ 0
  pub holds : (c.heads p).block_num ≡ b
  pub of_device : (c.heads p).dev ≡ device
  pub clean : (c.heads p).dirty ≡ false
  pub listed : c.buff_head (bit_and b 0xFF) ≡ p

update-heads :
    (p : ℕ) → (f : BufferHead → BufferHead) → (c : Cache) → (update p f c).heads p ≡ f (c.heads p)
update-heads p f c = let p_p : (p == p) ≡ true = ground arith in rw p_p refl

-- A block that is the first of its list and in use is found.
hit :
    (rounds : ℕ)
    → (d : Device) → (c : Cache) → (p b device : ℕ) → (p == 0) ≡ false
    → c.buff_head (bit_and b 0xFF) ≡ p
    → (c.heads p).block_num ≡ b
    → (c.heads p).dev ≡ device
    → ((c.heads p).count == 0) ≡ false
    → get_block (suc rounds) d b device c
      ≡ ok (p, update p (λ g. record g { count = u32 (g.count + 1) }) c)
unfolding get_block find_block
hit rounds d c p b device some listed holds of_device busy =
    let same : (b == b) ≡ true = ground arith in
    let same' : (device == device) ≡ true = ground arith in
    rw (listed, some, holds, of_device, same, same', some, busy) refl

-- A block whose list is empty goes into the first free buffer.
miss :
    (rounds : ℕ)
    → (d : Device) → (c : Cache) → (p b device : ℕ) → (bd : Bdev) → (xs : List ℕ) → (t : Trace)
    → (p == 0) ≡ false
    → c.buff_head (bit_and b 0xFF) ≡ 0
    → c.lru_buff ≡ p
    → ((c.heads p).next_free == 0) ≡ false
    → (p == (c.heads p).next_free) ≡ false
    → (c.heads p).dirty ≡ false
    → find_bdev (suc rounds) c device ≡ ok bd
    → ata_read_sects_28_pio (suc rounds) d 1 bd b c.trace ≡ ok (xs, t)
    → (c' : Cache) × (get_block (suc rounds) d b device c ≡ ok (p, c'))
      × ((c'.heads p).block_num ≡ b)
      × ((c'.heads p).buff ≡ loaded xs (c.heads p).buff)
unfolding get_block find_block recycle find_bdev
miss rounds d c p b device bd xs t some empty lru more other clean found read =
    let p_p : (p == p) ≡ true = ground arith in
    let n = (c.heads p).next_free in
    let c2 = update n (λ g. record g { prev_free = 0 }) (record c { lru_buff = n; trace = t }) in
    let c4 =
      update p
        (λ g. record g {
          count = u32 (g.count + 1);
          block_num = b;
          dev = device;
          buff = loaded xs g.buff;
          next = 0;
        })
        c2 in
    let c5 =
      update p (λ g. record g { next_free = 0; prev_free = 0; prev = 0 })
        (record c4 { buff_head = λ k. if k == bit_and b 0xFF then p else c.buff_head k }) in
    (
      c5,
      rw (empty, lru, some, more, other, clean, found, read, empty) refl,
      rw p_p refl,
      rw (p_p, other) refl,
    )

module _ {c : Cache} {p b device : ℕ} (u : InUse c p b device) where
  p_some : (p == 0) ≡ false
  p_some = let h = u.some_buffer in ground arith

  lru_some : (c.lru_buff == 0) ≡ false
  lru_some = let h = u.some_free in ground arith

  p_lru : (p == c.lru_buff) ≡ false
  p_lru = let h = u.other_free in ground arith

  lru_p : (c.lru_buff == p) ≡ false
  lru_p = let h = u.other_free in ground arith

  p_p : (p == p) ≡ true
  p_p = ground arith

  -- The cache after `put_block`: nothing but the list of free blocks changes.
  abbrev put_back : Cache
  put_back =
      record (update p (λ g. record g { next_free = c.lru_buff })
        (update c.lru_buff (λ g. record g { prev_free = p }) c)) { lru_buff = p }

  put_block-put_back : put_block p c ≡ ok put_back
  unfolding put_block
  put_block-put_back = rw (u.one_reader, u.plain, lru_some) refl

  head-put_back : put_back.heads p ≡ record (c.heads p) { next_free = c.lru_buff }
  head-put_back = rw (p_p, p_lru) refl

  abbrev got : Cache
  got = update p (λ g. record g { count = u32 (g.count + 1) }) put_back

  get_block-put_back :
      (rounds : ℕ) → (d : Device) → get_block (suc rounds) d b device put_back ≡ ok (p, got)
  get_block-put_back rounds d =
      hit rounds d put_back p b device p_some u.listed
        (ap (λ h. h.block_num) head-put_back ∙ u.holds)
        (ap (λ h. h.dev) head-put_back ∙ u.of_device)
        (ap (λ h. h.count == 0) head-put_back ∙ ap (λ n. n == 0) u.one_reader)

  -- There are two readers then, by the count.
  head-got : got.heads p ≡ record (put_back.heads p) { count = 2 }
  head-got =
      update-heads p (λ g. record g { count = u32 (g.count + 1) }) put_back
      ∙ ap (λ n. record (put_back.heads p) { count = n })
          (ap (λ h. u32 (h.count + 1)) head-put_back ∙ ap (λ n. u32 (n + 1)) u.one_reader)

-- A block is in use, put back, and in use again. The reader of another block of the device, whose
-- list is empty, then gets the same buffer, with the other block's bytes: `put_block` leaves the
-- count at 1, so that `get_block` does not take the buffer off the list of free ones.
pub get_block-put_block :
    (rounds : ℕ)
    → (d : Device) → (c : Cache) → (p b b' device : ℕ) → (bd : Bdev) → (xs : List ℕ) → (t : Trace)
    → InUse c p b device
    → c.buff_head (bit_and b' 0xFF) ≡ 0
    → find_bdev (suc rounds) c device ≡ ok bd
    → ata_read_sects_28_pio (suc rounds) d 1 bd b' c.trace ≡ ok (xs, t)
    → (c1 c2 c3 : Cache) × (put_block p c ≡ ok c1)
      × (get_block (suc rounds) d b device c1 ≡ ok (p, c2))
      × ((c2.heads p).count ≡ 2)
      × (get_block (suc rounds) d b' device c2 ≡ ok (p, c3))
      × ((c3.heads p).block_num ≡ b')
      × ((c3.heads p).buff ≡ loaded xs (c.heads p).buff)
unfolding find_bdev
get_block-put_block rounds d c p b b' device bd xs t u empty found read =
    let next_of : ((got u).heads p).next_free ≡ c.lru_buff =
      ap (λ h. h.next_free) (head-got u) ∙ ap (λ h. h.next_free) (head-put_back u) in
    let m =
      miss rounds d (got u) p b' device bd xs t (p_some u) empty refl
        (ap (λ n. n == 0) next_of ∙ lru_some u) (ap (λ n. p == n) next_of ∙ p_lru u)
        (ap (λ h. h.dirty) (head-got u) ∙ (ap (λ h. h.dirty) (head-put_back u) ∙ u.clean)) found
        read in
    let buff_of : ((got u).heads p).buff ≡ (c.heads p).buff =
      ap (λ h. h.buff) (head-got u) ∙ ap (λ h. h.buff) (head-put_back u) in
    (
      put_back u,
      got u,
      m.0,
      put_block-put_back u,
      get_block-put_back u rounds d,
      ap (λ h. h.count) (head-got u),
      m.1,
      m.2,
      m.3 ∙ ap (loaded xs) buff_of,
    )
