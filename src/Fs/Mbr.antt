-- ===== src/Fs/Mbr.antt =====
-- src/fs/mbr.c: where the first partition of a disk starts.
pub mod Entry
use saxon_os.Prelude.{ℕ, zero, suc, ◌+◌, ◌==◌, if◌then◌else◌, u16, Outcome, ok, ◌>>=◌}
use saxon_os.Prelude.Io.{Device, Trace, inw}
use saxon_os.Drivers.Ata.{Bdev, command, poll}

-- The loop over the 256 words of the sector, with `left` of them to go.
pub read_entry : (left i : ℕ) → Device → Bdev → (start_lba : ℕ) → Trace → ℕ × Trace
read_entry zero i d dev start_lba t = (start_lba, t)
read_entry (suc left) i d dev start_lba t =
    let (tmp, t1) = inw d (u16 dev.base) t in
    read_entry left (i + 1) d dev (if i == 227 then tmp else start_lba) t1

pub parse_mbr : ℕ → Device → Bdev → Trace → Outcome (Bdev × Trace)
parse_mbr rounds d dev t = poll rounds d dev (command dev 1 dev.start_lba 0x20 t) >>= λ r.
    let (start_lba, t1) = read_entry 256 0 d dev dev.start_lba r.1 in
    ok (record dev { start_lba = start_lba }, t1)
