-- ===== src/Drivers/Pci/Read.antt =====
-- What the reads return behind a bridge that decodes the address.
use saxon_os.Prelude.{
  ℕ, ◌+◌, ◌*◌, ◌/◌, ◌%◌, ◌^◌, ◌<◌, ◌≡◌, ◌∙◌, sym, ap, arith, bit_and, bit_and_high, bit_and_mask,
  u8, u16, u32, ◌∷◌,
}
use saxon_os.Prelude.Io.{Device, Trace, wr32, rd32}
use saxon_os.Drivers.Pci.{
  read_half, pci_config_read_double, pci_config_read_word, pci_config_read_byte,
  fill_device_descriptor,
}
use saxon_os.Drivers.Pci.Address.{IsPlace, config_address-fields}

-- The configuration space: the 64 double words of each function.
abbrev pub ConfigSpace : Type 0
ConfigSpace = (bus device func register : ℕ) → ℕ

-- The bridge answers at the data port with the double word that was addressed last.
abbrev pub Decodes : Device → ConfigSpace → Type 0
Decodes d conf =
    (t : Trace) (bus device func register : ℕ)
    → IsPlace bus device func (register * 4)
    → d (wr32 0xCF8 (2 ^ 31 + bus * 2 ^ 16 + device * 2 ^ 11 + func * 2 ^ 8 + register * 4) ∷ t)
        (rd32 0xCFC)
      ≡ conf bus device func register

-- The 16 bits at an offset, which the reads align to an even number.
abbrev pub half_word : ConfigSpace → (bus device func offset : ℕ) → ℕ
half_word conf bus device func offset =
    u16 (u32 (conf bus device func (offset / 4)) / 2 ^ (offset / 2 % 2 * 16))

module _ (d : Device) (conf : ConfigSpace) (dec : Decodes d conf) where
  read_half-half_word :
      (bus device func offset : ℕ)
      → IsPlace bus device func offset
      → (t : Trace)
      → (read_half d bus device func offset t).0 ≡ half_word conf bus device func offset
  unfolding read_half
  read_half-half_word bus device func offset p t =
      let small : (2 ^ 31 + bus * 2 ^ 16 + device * 2 ^ 11 + func * 2 ^ 8 + offset / 4 * 4) % 2 ^ 32
          ≡ 2 ^ 31 + bus * 2 ^ 16 + device * 2 ^ 11 + func * 2 ^ 8 + offset / 4 * 4 =
        omega (arith, p.buses, p.devices, p.funcs, p.offsets) in
      let place : IsPlace bus device func (offset / 4 * 4) = record {
        buses = p.buses;
        devices = p.devices;
        funcs = p.funcs;
        offsets = omega (arith, p.offsets);
      } in
      let half : bit_and offset 2 * 8 ≡ offset / 2 % 2 * 16 =
        omega (arith, bit_and_high 1 offset 1, bit_and_mask 1 (offset / 2)) in
      rw
        (
          config_address-fields bus device func offset p,
          small,
          dec t bus device func (offset / 4) place,
          half,
        )
        (bit_and_mask 16 _)

  -- Behind a bridge that decodes addresses, for every existing place: a word read returns the 16
  -- bits at the offset rounded down to an even number; a byte read returns the low 8 of these 16,
  -- also at an odd offset; and a double word read returns the same 16 bits as a word read.
  pub pci_config_reads :
      (bus device func offset : ℕ)
      → IsPlace bus device func offset
      → (t : Trace)
      → ((pci_config_read_word d bus device func offset t).0
          ≡ half_word conf bus device func offset)
        × ((pci_config_read_byte d bus device func offset t).0
            ≡ u8 (half_word conf bus device func offset))
        × ((pci_config_read_double d bus device func offset t).0
            ≡ half_word conf bus device func offset)
  unfolding pci_config_read_word pci_config_read_byte pci_config_read_double
  pci_config_reads bus device func offset p t =
      let e = read_half-half_word bus device func offset p t in
      (ap u16 e ∙ omega arith, ap u8 e, ap u16 e ∙ omega arith)

  -- So a descriptor never holds the class code: its class is a copy of the subclass, which stands
  -- one byte lower, and its interface a copy of the revision.
  pub fill_device_descriptor-class :
      (bus device func : ℕ)
      → IsPlace bus device func 0
      → (t : Trace)
      → let r = (fill_device_descriptor d bus device func t).0 in
        (r.class_id ≡ r.subclass_id)
        × (r.interface_id ≡ r.revision)
        × (r.vendor_id ≡ u16 (conf bus device func 0))
        × (r.class_id ≡ u8 (conf bus device func 2 / 2 ^ 16))
  unfolding fill_device_descriptor
  fill_device_descriptor-class bus device func p t = (
    byte_at 0x0B (omega arith) _ ∙ sym (byte_at 0x0A (omega arith) _),
    byte_at 0x09 (omega arith) _ ∙ sym (byte_at 0x08 (omega arith) _),
    (pci_config_reads bus device func 0 p t).0 ∙ omega arith,
    byte_at 0x0B (omega arith) _ ∙ omega arith,
  )
    where
      byte_at :
          (offset : ℕ)
          → offset < 256
          → (u : Trace)
          → (pci_config_read_byte d bus device func offset u).0
            ≡ u8 (half_word conf bus device func offset)
      byte_at offset h u =
          let place : IsPlace bus device func offset = record {
            buses = p.buses;
            devices = p.devices;
            funcs = p.funcs;
            offsets = h;
          } in
          (pci_config_reads bus device func offset place u).1
