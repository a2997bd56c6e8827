-- ===== src/Drivers/Keyboard.antt =====
-- src/drivers/keyboard.c: what a key press prints.
use saxon_os.Prelude.{
  ℕ, zero, suc, ◌%◌, ◌^◌, ◌/◌, ◌<◌, ◌≡◌, ◌≢◌, refl, ◌∙◌, sym, arith, ltb, ◌==◌, if◌then◌else◌,
  false, Bool-cases, inl, inr, bit_and, bit_and_high, List, [], ◌∷◌, Outcome, ok, hang, ◌>>=◌,
}
use saxon_os.Prelude.Io.{Device, Trace, outb, inb, rd8}
use saxon_os.Terminal.{Terminal, terminal_putchar}
use saxon_os.Cpu.Irq.{Routines, irq_install_handler, irq_uninstall_handler}

-- `keyboard_table_uk`; the places behind the list are 0.
abbrev pub keyboard_table_uk : List ℕ
keyboard_table_uk =
    0 ∷ 27 ∷ 49 ∷ 50 ∷ 51 ∷ 52 ∷ 53 ∷ 54 ∷ 55 ∷ 56 ∷ 57 ∷ 48 ∷ 45 ∷ 61 ∷ 8 ∷ 9 ∷ 113 ∷ 119 ∷ 101
    ∷ 114 ∷ 116 ∷ 121 ∷ 117 ∷ 105 ∷ 111 ∷ 112 ∷ 91 ∷ 93 ∷ 10 ∷ 0 ∷ 97 ∷ 115 ∷ 100 ∷ 102 ∷ 103 ∷ 104
    ∷ 106 ∷ 107 ∷ 108 ∷ 59 ∷ 39 ∷ 96 ∷ 0 ∷ 92 ∷ 122 ∷ 120 ∷ 99 ∷ 118 ∷ 98 ∷ 110 ∷ 109 ∷ 44 ∷ 46 ∷ 47
    ∷ 0 ∷ 42 ∷ 0 ∷ 32 ∷ 0 ∷ 0 ∷ 0 ∷ 0 ∷ 0 ∷ 0 ∷ 0 ∷ 0 ∷ 0 ∷ 0 ∷ 0 ∷ 0 ∷ 0 ∷ 0 ∷ 0 ∷ 0 ∷ 45 ∷ 0 ∷ 0
    ∷ 0 ∷ 43 ∷ []

pub key : List ℕ → ℕ → ℕ
key [] i = 0
key (c ∷ cs) zero = c
key (c ∷ cs) (suc i) = key cs i

-- The number of the handler stands for its address.
pub keyboard_install : (keyboard_handler : ℕ) → Routines → Outcome Routines
keyboard_install keyboard_handler r = irq_install_handler 1 keyboard_handler r

pub keyboard_uninstall : Routines → Outcome Routines
keyboard_uninstall r = irq_uninstall_handler 1 r

pub set_typematic : (rounds : ℕ) → Device → (typematic : ℕ) → Trace → Outcome Trace
set_typematic zero d typematic t = hang
set_typematic (suc rounds) d typematic t =
    let (answer, t1) = inb d 0x60 (outb 0x60 typematic (outb 0x6A 0xF3 t)) in
    let rest = set_typematic rounds d typematic t1 in if answer == 0xFE then rest else ok t1

-- The loop of the handler: a byte that is not 0 is read once more, and if it is still not 0 it
-- counts.
pub read_scancode : (rounds : ℕ) → Device → Trace → Outcome (ℕ × Trace)
read_scancode zero d t = hang
read_scancode (suc rounds) d t =
    let (first, t1) = inb d 0x60 t in
    let (scancode, t2) = inb d 0x60 t1 in
    let rest = read_scancode rounds d t1 in
    let rest' = read_scancode rounds d t2 in
    if first == 0 then rest else if scancode == 0 then rest' else ok (scancode, t2)

pub keyboard_handler : (rounds : ℕ) → Device → Trace → Terminal → Outcome (Terminal × Trace)
keyboard_handler rounds d t s = read_scancode rounds d t >>= λ r.
    ok (if bit_and r.0 0x80 == 0 then terminal_putchar (key keyboard_table_uk r.0) s else s, r.1)

-- The bit that tells a release from a press.
released : (code : ℕ) → code < 2 ^ 8 → (bit_and code 0x80 == 0) ≡ ltb code 128
released code p = elim (Bool-cases (ltb code 128)) [
  | inl press ↦
      let high : code / 2 ^ 7 ≡ 0 = ground arith in
      let test : bit_and code 128 ≡ 0 = bit_and_high 7 code 1 ∙ rw high refl in rw test (sym press)
  | inr release ↦
      let high : code / 2 ^ 7 ≡ 1 = ground arith in
      let test : bit_and code 128 ≡ 128 = bit_and_high 7 code 1 ∙ rw high refl in
      rw test (sym release)
]

-- The controller has a code: every read of its port gives it. The handler then ends after one round
-- of two reads. A press prints the character that the table has at the code, also if that is 0, and
-- a release changes nothing on the screen.
pub keyboard_handler-key :
    (rounds : ℕ)
    → (d : Device) → (t : Trace) → (s : Terminal) → (code : ℕ) → code ≢ 0
    → ((t' : Trace) → (inb d 0x60 t').0 ≡ code)
    → keyboard_handler (suc rounds) d t s
      ≡ ok (
        if ltb code 128 then terminal_putchar (key keyboard_table_uk code) s else s,
        (inb d 0x60 (inb d 0x60 t).1).1,
      )
unfolding keyboard_handler read_scancode
keyboard_handler-key rounds d t s code some has =
    let ne : (code == 0) ≡ false = ground arith in
    let below : code < 2 ^ 8 = byte (d t (rd8 0x60)) (has t) in
    rw (has t, has (rd8 0x60 ∷ t), ne, released code below) refl
  where
    byte : (a : ℕ) → a % 2 ^ 8 ≡ code → code < 2 ^ 8
    byte a e = omega arith
