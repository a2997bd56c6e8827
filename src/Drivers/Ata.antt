-- ===== src/Drivers/Ata.antt =====
-- src/drivers/ata.c: reads and writes of sectors by programmed input and output, with 28-bit
-- addresses. The bytes that the driver echoes to the terminal are left out.
pub mod TaskFile
pub mod Transfer
pub mod Older
use saxon_os.Prelude.{
  ℕ, zero, suc, ◌+◌, ◌-◌, ◌*◌, ◌/◌, ◌%◌, ◌^◌, ◌<<◌, ◌>>◌, bit_and, bit_or, u8, u16, u32, ltb, ◌==◌,
  ◌&&◌, ◌||◌, not, if◌then◌else◌, Bool, true, Outcome, ok, panic, fault, hang, ◌>>=◌, List, [], ◌∷◌,
}
use saxon_os.Prelude.Io.{Device, Trace, outb, outw, inb, inw}

-- The fields of `bdev_t` that the driver reads.
pub record Bdev : Type 0 where
  pub start_lba : ℕ
  pub slave_bit : ℕ
  pub base : ℕ
  pub dev_ctl : ℕ

-- A port number, `base + REG_...` as a `uint16_t`.
abbrev pub reg : Bdev → ℕ → ℕ
reg dev r = u16 (dev.base + r)

-- `((dev->slave_bit) ? 0xF0 : 0xE0) | ((real_lba >> 24) & 0x0F)`
unfoldable pub device_select : Bdev → ℕ → ℕ
device_select dev real_lba =
    bit_or (if dev.slave_bit == 0 then 0xE0 else 0xF0) (bit_and (real_lba >> 24) 0x0F)

-- The writes that address a transfer and start its command.
unfoldable pub command : Bdev → (sect_count real_lba cmd : ℕ) → Trace → Trace
command dev sect_count real_lba cmd t = outb (reg dev 7) cmd (
    outb (reg dev 5) (u8 (real_lba >> 16)) (
      outb (reg dev 4) (u8 (real_lba >> 8)) (
        outb (reg dev 3) (u8 real_lba) (
          outb (reg dev 2) sect_count
            (outb (reg dev 1) 0x00 (outb (reg dev 6) (device_select dev real_lba) t))))))

-- The device is busy, and reports no error.
abbrev pub waiting : ℕ → Bool
waiting status = (bit_and status 0x80 == 0x80) && not (bit_and status 0x01 == 0x01)

-- `status = inb(...)`, and the loop that repeats it.
unfoldable pub poll : ℕ → Device → Bdev → Trace → Outcome (ℕ × Trace)
poll zero d dev t = hang
poll (suc rounds) d dev t =
    let (status, t') = inb d (reg dev 7) t in
    let rest = poll rounds d dev t' in if waiting status then rest else ok (status, t')

-- `((sect_count == 0) ? 256 : sect_count) * 256`
abbrev pub word_count : ℕ → ℕ
word_count sect_count = (if sect_count == 0 then 256 else sect_count) * 256

-- The loop of a read, with `left` words to go: the low byte of each word comes first.
unfoldable pub read_words : ℕ → Device → Bdev → Trace → List ℕ × Trace
read_words zero d dev t = ([], t)
read_words (suc left) d dev t =
    let (tmp, t1) = inw d (u16 dev.base) t in
    let (rest, t2) = read_words left d dev t1 in (u8 tmp ∷ u8 (tmp >> 8) ∷ rest, t2)

-- The bytes that are stored from `dest` on, and the accesses.
unfoldable pub ata_read_sects_28_pio :
    ℕ → Device → (sect_count : ℕ) → Bdev → (rel_lba : ℕ) → Trace → Outcome (List ℕ × Trace)
ata_read_sects_28_pio rounds d sect_count dev rel_lba t =
    let real_lba = u32 (rel_lba + dev.start_lba) in
    poll rounds d dev (command dev sect_count real_lba 0x20 t) >>= λ r.
    if not (bit_and r.0 0x01 == 0) then panic else ok (read_words (word_count sect_count) d dev r.1)

-- The loop of a write over the words at `src`.
pub write_words : ℕ → (ℕ → ℕ) → ℕ → Bdev → Trace → Trace
write_words zero ptr i dev t = t
write_words (suc left) ptr i dev t =
    write_words left ptr (i + 1) dev (outw (u16 dev.base) (ptr i) t)

-- `ptr i` is the word at `src + 2 * i`.
pub ata_write_sects_28_pio :
    ℕ → Device → (ℕ → ℕ) → (sect_count : ℕ) → Bdev → (rel_lba : ℕ) → Trace → Outcome Trace
ata_write_sects_28_pio rounds d ptr sect_count dev rel_lba t =
    let real_lba = u32 (rel_lba + dev.start_lba) in
    poll rounds d dev (command dev sect_count real_lba 0x30 t) >>= λ r.
    if not (bit_and r.0 0x01 == 0)
    then panic
    else ok (write_words (word_count sect_count) ptr 0 dev r.1)

-- `status & 0x01 || status & 0x50` ends in a panic.
pub ata_flush_cache : ℕ → Device → Bdev → Trace → Outcome Trace
ata_flush_cache rounds d dev t =
    let t1 = outb (reg dev 7) 0xE7 (outb (reg dev 6) (bit_or 0xA0 (dev.slave_bit << 4)) t) in
    let (first, t2) = inb d (reg dev 7) t1 in
    let polled = if waiting first then poll rounds d dev t2 else ok (first, t2) in
    if first == 0
    then ok t2
    else polled >>= λ r.
        if not (bit_and r.0 0x01 == 0) || not (bit_and r.0 0x50 == 0) then panic else ok r.1

pub ata_soft_reset : Device → Trace → Trace
ata_soft_reset d t =
    let (old_value, t1) = inw d 0x3F6 t in
    outw 0x3F6 old_value (outw 0x3F6 (bit_or old_value 0x04) t1)

pub data DeviceType : Type 0 where
  unknown patapi satapi pata sata : DeviceType

-- The signature in the middle and the high address register.
pub device_type : (cl ch : ℕ) → DeviceType
device_type cl ch =
    if (cl == 0x14) && (ch == 0xEB)
    then patapi
    else if (cl == 0x69) && (ch == 0x96)
    then satapi
    else if (cl == 0) && (ch == 0)
    then pata
    else if (cl == 0x3c) && (ch == 0xc3)
    then sata
    else unknown

pub detect_device_type : Device → ℕ → Bdev → Trace → DeviceType × Trace
detect_device_type d slave_bit dev t =
    let t1 = outb (reg dev 6) (bit_or 0xA0 (slave_bit << 4)) (ata_soft_reset d t) in
    let t2 = (inb d dev.dev_ctl t1).1 in
    let t3 = (inb d dev.dev_ctl t2).1 in
    let t4 = (inb d dev.dev_ctl t3).1 in
    let t5 = (inb d dev.dev_ctl t4).1 in
    let (cl, t6) = inb d (reg dev 4) t5 in
    let (ch, t7) = inb d (reg dev 5) t6 in (device_type cl ch, t7)
