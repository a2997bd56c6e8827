-- ===== src/Drivers/Ata/TaskFile.antt =====
-- The registers that address a transfer.
use saxon_os.Prelude.{
  ℕ, ◌+◌, ◌*◌, ◌/◌, ◌%◌, ◌^◌, ◌<◌, ◌≡◌, refl, arith, ◌==◌, if◌then◌else◌, bit_and_mask, bit_or_high,
  ◌>>◌, u8, ◌∷◌, Bool-cases, inl, inr,
}
use saxon_os.Prelude.Io.{Trace, wr8}
use saxon_os.Drivers.Ata.{Bdev, reg, device_select, command}

-- The 28-bit address that a drive takes from its four registers.
abbrev pub lba_of : (low mid high select : ℕ) → ℕ
lba_of low mid high select = low + mid * 2 ^ 8 + high * 2 ^ 16 + select % 16 * 2 ^ 24

-- The drive's number and the mode bits in the select register.
abbrev pub drive_of : ℕ → ℕ
drive_of select = select / 16

device_select-value :
    (dev : Bdev) (lba : ℕ)
    → device_select dev lba ≡ (if dev.slave_bit == 0 then 0xE0 else 0xF0) + lba / 2 ^ 24 % 16
unfolding device_select
device_select-value dev lba = elim (Bool-cases (dev.slave_bit == 0)) [
  | inl master ↦
      rw (master, bit_and_mask 4 (lba / 2 ^ 24))
        (bit_or_high 4 14 (lba / 2 ^ 24 % 16) (omega arith))
  | inr slave ↦
      rw (slave, bit_and_mask 4 (lba / 2 ^ 24)) (bit_or_high 4 15 (lba / 2 ^ 24 % 16) (omega arith))
]

-- For every address below 2 ^ 28 and every byte as sector count, the seven writes go to the drive's
-- registers in order, the command last. The four address registers hold exactly the address, and
-- the select register picks the master or the slave by the device's slave bit.
pub command-lba_of :
    (dev : Bdev) (sect_count lba cmd : ℕ) (t : Trace)
    → sect_count < 256
    → cmd < 256
    → lba < 2 ^ 28
    → (low mid high select : ℕ) × (command dev sect_count lba cmd t
        ≡ wr8 (reg dev 7) cmd
          ∷ wr8 (reg dev 5) high
          ∷ wr8 (reg dev 4) mid
          ∷ wr8 (reg dev 3) low
          ∷ wr8 (reg dev 2) sect_count
          ∷ wr8 (reg dev 1) 0
          ∷ wr8 (reg dev 6) select
          ∷ t)
      × (lba_of low mid high select ≡ lba)
      × (drive_of select ≡ (if dev.slave_bit == 0 then 14 else 15))
unfolding command
command-lba_of dev sect_count lba cmd t p q h =
    let select = device_select-value dev lba in
    (
      u8 (u8 lba),
      u8 (u8 (lba >> 8)),
      u8 (u8 (lba >> 16)),
      u8 (device_select dev lba),
      (let c : cmd % 2 ^ 8 ≡ cmd = omega arith in
          let n : sect_count % 2 ^ 8 ≡ sect_count = omega arith in rw (c, n) refl),
      ground (arith, select),
      ground (arith, select),
    )
