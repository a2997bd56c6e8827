-- ===== src/Tests/Drivers.antt =====
-- The drivers, with devices that answer as the hypotheses on the hardware say.
use saxon_os.Prelude.{
  ℕ, zero, suc, ltb, ◌+◌, ◌*◌, ◌/◌, ◌%◌, ◌^◌, ◌≡◌, ◌∙◌, refl, ap, arith, ◌==◌, if◌then◌else◌, ok,
  true, u32, [], ◌∷◌,
}
use saxon_os.Prelude.Io.{Device, Trace, inb, wr8, rd8, rd16, wr32, rd32}
use saxon_os.Drivers.Keyboard.{key, keyboard_table_uk, keyboard_handler, keyboard_handler-key}
use saxon_os.Terminal.{Terminal, terminal_putchar}
use saxon_os.Drivers.Rtc.{Clock, read_rtc}
use saxon_os.Drivers.Rtc.Decode.{IsMoment, hour_read}
use saxon_os.Drivers.Rtc.Read.{Selects, Shows, read_rtc-Shows}
use saxon_os.Drivers.Pci.{config_address}
use saxon_os.Drivers.Pci.Address.{IsPlace, config_address-fields}
use saxon_os.Drivers.Pci.Read.{ConfigSpace, Decodes}
use saxon_os.Drivers.Ata.{Bdev, reg, command, ata_read_sects_28_pio}
use saxon_os.Fs.Mbr.{parse_mbr}
use saxon_os.Fs.Mbr.Entry.{parse_mbr-Serves}
use saxon_os.Drivers.Ata.Transfer.{reads, Serves, bytes_of, ata_read_sects_28_pio-Serves}

-- 26 September 2017, noon and 59 seconds.
abbrev noon : Clock
noon = record { second = 59; minute = 0; hour = 12; day = 26; month = 9; year = 2017; century = 0 }

noon-IsMoment : IsMoment noon
noon-IsMoment = record {
  seconds = omega arith;
  minutes = omega arith;
  hours = omega arith;
  days = omega arith;
  months = omega arith;
  from_year = omega arith;
  to_year = omega arith;
}

-- The registers of a clock with decimal digits and 12 hours that shows noon, with the interrupt of
-- `rtc_install`.
abbrev noon_registers : ℕ → ℕ
noon_registers r =
    if r == 0x00
    then 0x59
    else if r == 0x02
    then 0x00
    else if r == 0x04
    then 0x92
    else if r == 0x07
    then 0x26
    else if r == 0x08
    then 0x09
    else if r == 0x09
    then 0x17
    else if r == 0x0A
    then 0x26
    else if r == 0x0B
    then 0x40
    else 0xFF

abbrev noon_clock : Device
noon_clock (wr8 port r ∷ t) (rd8 p) = noon_registers r
noon_clock t e = 0

noon_clock-Selects : Selects noon_clock noon_registers
noon_clock-Selects t r = refl

noon_registers-Shows : Shows true true noon noon_registers
noon_registers-Shows = record {
  second = refl;
  minute = refl;
  hour = refl;
  day = refl;
  month = refl;
  year = refl;
  register_a = refl;
  register_b = record { small = omega arith; values = refl; hours = refl };
}

read_rtc-Shows_example :
    (t' : Trace) × (read_rtc 1 noon_clock 0 noon []
      ≡ ok (record noon { hour = hour_read true noon.hour; century = noon.century }, t'))
read_rtc-Shows_example =
    read_rtc-Shows noon_clock noon_registers noon_clock-Selects true true noon noon-IsMoment
      noon_registers-Shows 0 noon []

-- The byte at offset 9 of function 2 of device 3 on bus 1.
odd_byte-IsPlace : IsPlace 1 3 2 9
odd_byte-IsPlace = record {
  buses = omega arith;
  devices = omega arith;
  funcs = omega arith;
  offsets = omega arith;
}

config_address-fields_example :
    config_address 1 3 2 9 ≡ 2 ^ 31 + 1 * 2 ^ 16 + 3 * 2 ^ 11 + 2 * 2 ^ 8 + 9 / 4 * 4
config_address-fields_example = config_address-fields 1 3 2 9 odd_byte-IsPlace

-- A configuration space that depends on the register alone.
abbrev some_space : ConfigSpace
some_space bus device func register = 0x01028086 + register * 0x10101

abbrev bridge : Device
bridge (wr32 port address ∷ t) (rd32 p) = 0x01028086 + address / 4 % 64 * 0x10101
bridge t e = 0

bridge-Decodes : Decodes bridge some_space
bridge-Decodes t bus device func register p =
    let low = p.offsets in
    let field : (2 ^ 31 + bus * 2 ^ 16 + device * 2 ^ 11 + func * 2 ^ 8 + register * 4) / 4 % 64
        ≡ register =
      omega arith in
    ap (λ r. 0x01028086 + r * 0x10101) field

start-IsPlace : IsPlace 1 3 2 0
start-IsPlace = record {
  buses = omega arith;
  devices = omega arith;
  funcs = omega arith;
  offsets = omega arith;
}

-- The slave of the first bus, with a partition at sector 2048.
abbrev slave : Bdev
slave = record { start_lba = 2048; slave_bit = 1; base = 0x1F0; dev_ctl = 0x3F6 }

-- A drive whose words are their own places.
unfoldable words_read : Trace → ℕ
words_read (rd16 port ∷ t) = suc (words_read t)
words_read t = 0

abbrev counter : Device
counter t (rd16 port) = words_read t % 2 ^ 16
counter t (rd8 port) = 0x58
counter t e = 0

words_read-reads : (i : ℕ) (t : Trace) → words_read (reads i slave t) ≡ i + words_read t
unfolding words_read
words_read-reads zero t = omega arith
words_read-reads (suc i) t = words_read-reads i (rd16 _ ∷ t) ∙ omega arith

abbrev asked : Trace
asked = command slave 1 (u32 (5 + slave.start_lba)) 0x20 []

counter-Serves : Serves counter slave (λ i. i % 2 ^ 16) (rd8 (reg slave 7) ∷ asked)
unfolding words_read
counter-Serves i =
    ap (λ n. n % 2 ^ 16) (words_read-reads i (rd8 (reg slave 7) ∷ asked) ∙ omega arith)

ata_read_sects_28_pio-Serves_example :
    ata_read_sects_28_pio 1 counter (1 % 2 ^ 8) slave 5 []
    ≡ ok (bytes_of (λ i. i % 2 ^ 16) 0 (1 * 256), reads (1 * 256) slave (rd8 (reg slave 7) ∷ asked))
ata_read_sects_28_pio-Serves_example =
    ata_read_sects_28_pio-Serves 0 counter 1 slave 5 (λ i. i % 2 ^ 16) [] (omega arith)
      (omega arith) (λ j. omega arith) refl counter-Serves

-- The command that reads the first sector of the device.
abbrev asked_mbr : Trace
asked_mbr = command slave 1 slave.start_lba 0x20 []

counter-Serves_mbr : Serves counter slave (λ i. i % 2 ^ 16) (rd8 (reg slave 7) ∷ asked_mbr)
unfolding words_read
counter-Serves_mbr i =
    ap (λ n. n % 2 ^ 16) (words_read-reads i (rd8 (reg slave 7) ∷ asked_mbr) ∙ omega arith)

parse_mbr-Serves_example :
    parse_mbr 1 counter slave []
    ≡ ok
        (record slave { start_lba = 227 % 2 ^ 16 }, reads 256 slave (rd8 (reg slave 7) ∷ asked_mbr))
parse_mbr-Serves_example =
    parse_mbr-Serves 0 counter slave (λ i. i % 2 ^ 16) 0x58 [] (λ j. omega arith) (omega arith) refl
      counter-Serves_mbr

-- The controller has the code of the key "a".
abbrev key_a : Device
key_a t e = 0x1E

abbrev screen : Terminal
screen = record { row = 0; column = 0; color = 7; buffer = λ i. 0 }

keyboard_handler-key_example :
    keyboard_handler 1 key_a [] screen
    ≡ ok (
      if ltb 0x1E 128 then terminal_putchar (key keyboard_table_uk 0x1E) screen else screen,
      (inb key_a 0x60 (inb key_a 0x60 []).1).1,
    )
keyboard_handler-key_example = keyboard_handler-key 0 key_a [] screen 0x1E (omega arith) (λ t. refl)
