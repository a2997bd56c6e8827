-- ===== src/Tests/Buffer.antt =====
-- The buffer cache at concrete inputs.
use saxon_os.Prelude.{
  ℕ, ◌≡◌, refl, arith, ◌==◌, if◌then◌else◌, false, List, [], Outcome, ok, panic, fault, hang,
}
use saxon_os.Prelude.Io.{Device, Trace}
use saxon_os.Drivers.Ata.{Bdev, poll, ata_read_sects_28_pio}
use saxon_os.Fs.Buffer.{BufferHead, Cache, loaded, find_bdev, find_bdev_from, get_block, put_block}
use saxon_os.Fs.Buffer.Reuse.{InUse, get_block-put_block}

-- A drive that is always ready.
abbrev ready : Device
ready t e = 0x50

abbrev drive : Bdev
drive = record { start_lba = 63; slave_bit = 0; base = 0x1F0; dev_ctl = 0x3F6 }

abbrev free_head : BufferHead
free_head = record {
  flags = 0;
  block_num = 0;
  dirty = false;
  dev = 0;
  count = 0;
  next = 0;
  prev = 0;
  next_free = 0;
  prev_free = 0;
  buff = λ i. 0;
}

-- Block 5 is in the buffer at 1, the buffer at 2 is free.
abbrev cache : Cache
cache = record {
  block_head = 1;
  bdevs = λ p. record { minor = 0; bdev = drive; next_bdev = 0 };
  buff_head = λ n. if n == 5 then 1 else 0;
  mru_buff = 2;
  lru_buff = 2;
  heads =
      λ p. if p == 1 then record free_head { block_num = 5; dev = 768; count = 1 } else free_head;
  trace = [];
}

cache-InUse : InUse cache 1 5 768
cache-InUse = record {
  some_buffer = omega arith;
  some_free = omega arith;
  other_free = omega arith;
  one_reader = refl;
  plain = refl;
  holds = refl;
  of_device = refl;
  clean = refl;
  listed = refl;
}

abbrev result_of : Outcome (List ℕ × Trace) → List ℕ × Trace
result_of (ok r) = r
result_of panic = ([], [])
result_of fault = ([], [])
result_of hang = ([], [])

abbrev sector_6 : List ℕ × Trace
sector_6 = result_of (ata_read_sects_28_pio 1 ready 1 drive 6 [])

sector_6-read : ata_read_sects_28_pio 1 ready 1 drive 6 [] ≡ ok (sector_6.0, sector_6.1)
unfolding ata_read_sects_28_pio poll
sector_6-read = refl

get_block-put_block_example :
    (c1 c2 c3 : Cache) × (put_block 1 cache ≡ ok c1)
    × (get_block 1 ready 5 768 c1 ≡ ok (1, c2))
    × ((c2.heads 1).count ≡ 2)
    × (get_block 1 ready 6 768 c2 ≡ ok (1, c3))
    × ((c3.heads 1).block_num ≡ 6)
    × ((c3.heads 1).buff ≡ loaded sector_6.0 (cache.heads 1).buff)
unfolding find_bdev find_bdev_from
get_block-put_block_example =
    get_block-put_block 0 ready cache 1 5 6 768 drive sector_6.0 sector_6.1 cache-InUse refl refl
      sector_6-read
