-- ===== src/Drivers/Pci.antt =====
-- src/drivers/pci.c: reads of the PCI configuration space through ports 0xCF8 and 0xCFC.
pub mod Address
pub mod Read
use saxon_os.Prelude.{ℕ, ◌+◌, ◌*◌, ◌/◌, ◌%◌, ◌^◌, ◌<<◌, ◌>>◌, bit_and, bit_or, u8, u16, u32}
use saxon_os.Prelude.Io.{Device, Trace, outl, inl}

pub record PciDev : Type 0 where
  pub interrupt : ℕ
  pub bus : ℕ
  pub dev : ℕ
  pub func : ℕ
  pub vendor_id : ℕ
  pub dev_id : ℕ
  pub class_id : ℕ
  pub subclass_id : ℕ
  pub interface_id : ℕ
  pub revision : ℕ

-- `(lbus << 16) | (ldevice << 11) | (lfunc << 8) | (offset & 0xfc) | 0x80000000`
pub config_address : (bus device func offset : ℕ) → ℕ
config_address bus device func offset = u32 (
    bit_or (bit_or (bit_or (bit_or (bus << 16) (device << 11)) (func << 8)) (bit_and offset 0xfc))
      0x80000000)

-- The part that the three reads share: the address is written, and half of the answer is kept.
pub read_half : Device → (bus device func offset : ℕ) → Trace → ℕ × Trace
read_half d bus device func offset t =
    let (v, t') = inl d 0xCFC (outl 0xCF8 (config_address bus device func offset) t) in
    (bit_and (v >> (bit_and offset 2 * 8)) 0xffff, t')

-- The variable `tmp` is a `uint16_t`, also here where 32 bits are returned.
pub pci_config_read_double : Device → (bus device func offset : ℕ) → Trace → ℕ × Trace
pci_config_read_double d bus device func offset t =
    let (v, t') = read_half d bus device func offset t in (u16 v, t')

pub pci_config_read_word : Device → (bus device func offset : ℕ) → Trace → ℕ × Trace
pci_config_read_word d bus device func offset t =
    let (v, t') = read_half d bus device func offset t in (u16 v, t')

pub pci_config_read_byte : Device → (bus device func offset : ℕ) → Trace → ℕ × Trace
pci_config_read_byte d bus device func offset t =
    let (v, t') = read_half d bus device func offset t in (u8 v, t')

pub pci_get_vendor : Device → (bus slot : ℕ) → Trace → ℕ × Trace
pci_get_vendor d bus slot = pci_config_read_word d bus slot 0 0

pub pci_get_device : Device → (bus slot : ℕ) → Trace → ℕ × Trace
pci_get_device d bus slot = pci_config_read_word d bus slot 0 2

pub pci_get_status : Device → (bus slot : ℕ) → Trace → ℕ × Trace
pci_get_status d bus slot = pci_config_read_word d bus slot 0 4

pub pci_get_command : Device → (bus slot : ℕ) → Trace → ℕ × Trace
pci_get_command d bus slot = pci_config_read_word d bus slot 0 6

pub pci_get_bar : Device → (bus slot bar : ℕ) → Trace → ℕ × Trace
pci_get_bar d bus slot bar = pci_config_read_word d bus slot 0 bar

-- `port_base` is left uninitialised by the code and is no field here.
pub fill_device_descriptor : Device → (bus device function : ℕ) → Trace → PciDev × Trace
fill_device_descriptor d bus device function t =
    let (vendor_id, t1) = pci_config_read_word d bus device function 0x00 t in
    let (dev_id, t2) = pci_config_read_word d bus device function 0x02 t1 in
    let (class_id, t3) = pci_config_read_byte d bus device function 0x0B t2 in
    let (subclass_id, t4) = pci_config_read_byte d bus device function 0x0A t3 in
    let (interface_id, t5) = pci_config_read_byte d bus device function 0x09 t4 in
    let (revision, t6) = pci_config_read_byte d bus device function 0x08 t5 in
    let (interrupt, t7) = pci_config_read_double d bus device function 0x3C t6 in
    (
      record {
        interrupt = interrupt;
        bus = bus;
        dev = device;
        func = function;
        vendor_id = vendor_id;
        dev_id = dev_id;
        class_id = class_id;
        subclass_id = subclass_id;
        interface_id = interface_id;
        revision = revision;
      },
      t7,
    )
