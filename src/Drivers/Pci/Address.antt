-- ===== src/Drivers/Pci/Address.antt =====
-- The fields of a configuration address do not overlap.
use saxon_os.Prelude.{
  ℕ, ◌+◌, ◌*◌, ◌/◌, ◌^◌, ◌<◌, ◌≡◌, arith, bit_and, bit_or, bit_or_high, bit_or_low, bit_and_high,
  bit_and_mask,
}
use saxon_os.Drivers.Pci.{config_address}

-- A function of a device on a bus, and a byte of its 256.
pub record IsPlace (bus device func offset : ℕ) : Type 0 where
  pub buses : bus < 256
  pub devices : device < 32
  pub funcs : func < 8
  pub offsets : offset < 256

aligned : (offset : ℕ) → offset < 256 → bit_and offset 0xfc ≡ offset / 4 * 4
aligned offset h = omega (arith, bit_and_high 2 offset 0x3f, bit_and_mask 6 (offset / 4))

-- For every existing place the address that is written to 0xCF8 is the sum of the enable bit, the
-- bus, the device, the function and the offset rounded down to a multiple of four, each in bits
-- of its own.
pub config_address-fields :
    (bus device func offset : ℕ)
    → IsPlace bus device func offset
    → config_address bus device func offset
      ≡ 2 ^ 31 + bus * 2 ^ 16 + device * 2 ^ 11 + func * 2 ^ 8 + offset / 4 * 4
unfolding config_address
config_address-fields bus device func offset p =
    rw
      (
        aligned offset p.offsets,
        bit_or_high 16 bus (device * 2 ^ 11) (omega arith),
        high_part,
        bit_or_high 8 (bus * 2 ^ 8 + device * 2 ^ 3 + func) (offset / 4 * 4) (omega arith),
        bit_or_low 31 1 ((bus * 2 ^ 8 + device * 2 ^ 3 + func) * 2 ^ 8 + offset / 4 * 4)
            (omega arith),
      )
      (omega arith)
  where
    high_part :
        bit_or (bus * 2 ^ 16 + device * 2 ^ 11) (func * 2 ^ 8)
        ≡ (bus * 2 ^ 8 + device * 2 ^ 3 + func) * 2 ^ 8
    high_part =
        let left : bus * 2 ^ 16 + device * 2 ^ 11 ≡ (bus * 2 ^ 5 + device) * 2 ^ 11 = omega arith in
        rw (left, bit_or_high 11 (bus * 2 ^ 5 + device) (func * 2 ^ 8) (omega arith)) (omega arith)
