-- ===== src/Drivers/Ata/Older.antt =====
-- src/drivers/ata.c: the transfers that the rest of the kernel no longer calls.
use saxon_os.Prelude.{
  ℕ, zero, suc, ◌+◌, ◌>>◌, bit_and, u8, u32, ◌==◌, if◌then◌else◌, Outcome, ok, hang, ◌>>=◌, List,
  [], ◌∷◌,
}
use saxon_os.Prelude.Io.{Device, Trace, outb, outw, inb, inw}
use saxon_os.Drivers.Ata.{
  Bdev, command, poll, word_count, write_words, device_select, ata_flush_cache,
}

-- The index is a `uint16_t`, so for 256 sectors, a count of 0, it never reaches the number of
-- words.
pub ata_write_28_pio :
    ℕ → Device → (ℕ → ℕ) → (sect_count : ℕ) → Bdev → (rel_lba : ℕ) → Trace → Outcome Trace
ata_write_28_pio rounds d ptr sect_count dev rel_lba t =
    let addressed = command dev sect_count (u32 (rel_lba + dev.start_lba)) 0x30 t in
    if sect_count == 0
    then hang
    else ata_flush_cache rounds d dev (write_words (word_count sect_count) ptr 0 dev addressed)

-- The writes to the first controller that address one sector and start a command.
abbrev pub command_first : Bdev → (lba cmd : ℕ) → Trace → Trace
command_first dev lba cmd t = outb 0x1F7 cmd (
    outb 0x1F6 (device_select dev lba) (
      outb 0x1F5 (u8 (lba >> 16))
        (outb 0x1F4 (u8 (lba >> 8)) (outb 0x1F3 (u8 lba) (outb 0x1F2 0x01 (outb 0x1F1 0x00 t))))))

-- `while (!(inb(0x1F0 + REG_CMD_PORT) & 0x08)) {}`
pub wait_data : (rounds : ℕ) → Device → Trace → Outcome Trace
wait_data zero d t = hang
wait_data (suc rounds) d t =
    let (status, t') = inb d 0x1F7 t in
    let rest = wait_data rounds d t' in if bit_and status 0x08 == 0 then rest else ok t'

-- The words that are stored, and the accesses.
pub read_first : (left : ℕ) → Device → Trace → List ℕ × Trace
read_first zero d t = ([], t)
read_first (suc left) d t =
    let (word, t1) = inw d 0x1F0 t in let (rest, t2) = read_first left d t1 in (word ∷ rest, t2)

-- The command that is sent is that which identifies the drive. What is stored is also printed.
pub ata_read_sect_lba28_pio :
    (rounds : ℕ) → Device → Bdev → (lba : ℕ) → Trace → Outcome (List ℕ × Trace)
ata_read_sect_lba28_pio rounds d dev lba t =
    wait_data rounds d (command_first dev lba 0xEC t) >>= λ t1. ok (read_first 256 d t1)

pub write_first : (left : ℕ) → (src : ℕ → ℕ) → (i : ℕ) → Trace → Trace
write_first zero src i t = t
write_first (suc left) src i t = write_first left src (i + 1) (outw 0x1F0 (src i) t)

pub ata_write_sect_lba28_pio :
    (rounds : ℕ) → Device → (src : ℕ → ℕ) → Bdev → (lba : ℕ) → Trace → Outcome Trace
ata_write_sect_lba28_pio rounds d src dev lba t =
    wait_data rounds d (command_first dev lba 0x30 t) >>= λ t1. ok (write_first 256 src 0 t1)

pub prepare_disk_read : (rounds : ℕ) → Device → Bdev → (lba sect_count : ℕ) → Trace → Outcome Trace
prepare_disk_read rounds d dev lba sect_count t =
    poll rounds d dev (command dev sect_count lba 0x20 t) >>= λ r. ok r.1
