-- ===== src/Cpu/Idt.antt =====
-- src/idt.c and `irq_install` of src/irq.c: the gates of the interrupt descriptor table.
use saxon_os.Prelude.{
  ℕ, zero, suc, ◌+◌, ◌-◌, ◌*◌, ◌/◌, ◌^◌, ◌<◌, ◌≤◌, ◌≡◌, arith, ltb, leb, ◌==◌, ◌&&◌, ◌||◌, Bool,
  true, false, refl, Bool-cases, inl, inr, if◌then◌else◌, bit_and, bit_or, bit_and_mask, ◌>>◌, u8,
  u16,
}
use saxon_os.Prelude.Io.{Trace, outb}

pub record IdtEntry : Type 0 where
  pub base_lo : ℕ
  pub sel : ℕ
  pub always0 : ℕ
  pub flags : ℕ
  pub base_hi : ℕ

-- `struct idt_entry idt[256]`; a gate's number is a `uint8_t`, so no write lies outside.
abbrev pub Idt : Type 0
Idt = ℕ → IdtEntry

pub idt_entry : (base sel flags : ℕ) → IdtEntry
idt_entry base sel flags = record {
  base_lo = u16 (bit_and base 0xFFFF);
  base_hi = u16 (bit_and (base >> 16) 0xFFFF);
  sel = sel;
  always0 = 0;
  flags = u8 (bit_or flags 0x60);
}

pub idt_set_gate : (num base sel flags : ℕ) → Idt → Idt
idt_set_gate num base sel flags idt i = if i == u8 num then idt_entry base sel flags else idt i

-- The calls of `idt_set_gate` for consecutive numbers, with the handlers of an assembler table.
pub set_gates : (count first : ℕ) → (ℕ → ℕ) → Idt → Idt
set_gates zero first handler idt = idt
set_gates (suc n) first handler idt =
    set_gates n (first + 1) handler (idt_set_gate first (handler first) 0x08 0x8E idt)

abbrev pub zero_entry : IdtEntry
zero_entry = record { base_lo = 0; sel = 0; always0 = 0; flags = 0; base_hi = 0 }

-- `isr n` is the address of the assembler routine `isrn`.
pub idt_install : (ℕ → ℕ) → Idt
idt_install isr = set_gates 32 0 isr (λ _. zero_entry)

pub irq_remap : Trace → Trace
irq_remap t = outb 0xA1 0x0 (
    outb 0x21 0x0 (
      outb 0xA1 0x01 (
        outb 0x21 0x01 (
          outb 0xA1 0x02 (
            outb 0x21 0x04
              (outb 0xA1 0x28 (outb 0x21 0x20 (outb 0xA0 0x11 (outb 0x20 0x11 t)))))))))

-- `irq n` is the address of `irqn`, for n from 0 to 15 and for 96.
pub irq_install : (ℕ → ℕ) → Idt → Trace → Idt × Trace
irq_install irq idt t =
    (idt_set_gate 128 (irq 96) 0x08 0xEE (set_gates 16 32 (λ n. irq (n - 32)) idt), irq_remap t)

-- The routine that a gate leads to.
abbrev pub base_of : IdtEntry → ℕ
base_of e = e.base_lo + e.base_hi * 2 ^ 16

idt_entry-base : (base sel flags : ℕ) → base < 2 ^ 32 → base_of (idt_entry base sel flags) ≡ base
unfolding idt_entry
idt_entry-base base sel flags h =
    omega (arith, bit_and_mask 16 base, bit_and_mask 16 (base / 2 ^ 16))

set_gates_lem :
    (n first : ℕ) (handler : ℕ → ℕ) (idt : Idt) (i : ℕ)
    → first + n ≤ 256
    → set_gates n first handler idt i
      ≡ (if leb first i && ltb i (first + n) then idt_entry (handler i) 0x08 0x8E else idt i)
unfolding set_gates idt_set_gate
set_gates_lem zero first handler idt i h = ground arith
set_gates_lem (suc n) first handler idt i h = ground (
  arith,
  set_gates_lem n (first + 1) handler (idt_set_gate first (handler first) 0x08 0x8E idt) i,
)

-- The table that the boot leaves, by the entries that are made.
installed : (isr irq : ℕ → ℕ) → ℕ → IdtEntry
installed isr irq i =
    if i == 128
    then idt_entry (irq 96) 0x08 0xEE
    else if ltb i 32
    then idt_entry (isr i) 0x08 0x8E
    else if ltb i 48
    then idt_entry (irq (i - 32)) 0x08 0x8E
    else zero_entry

irq_install-entries :
    (isr irq : ℕ → ℕ) (t : Trace) (i : ℕ)
    → (irq_install irq (idt_install isr) t).0 i ≡ installed isr irq i
unfolding irq_install idt_install idt_set_gate installed
irq_install-entries isr irq t i = ground (
  arith,
  set_gates_lem 16 32 (λ n. irq (n - 32)) (set_gates 32 0 isr (λ _. zero_entry)) i (omega arith),
  set_gates_lem 32 0 isr (λ _. zero_entry) i (omega arith),
)

-- The routine that a vector is to lead to.
abbrev pub routine : (isr irq : ℕ → ℕ) → ℕ → ℕ
routine isr irq i =
    if i == 128 then irq 96 else if ltb i 32 then isr i else if ltb i 48 then irq (i - 32) else 0

abbrev pub in_use : ℕ → Bool
in_use i = ltb i 48 || (i == 128)

-- What the processor reads from a gate that leads to a routine in segment 8: a present 32-bit
-- interrupt gate that users may call. A gate that is not set is all zero.
pub record Leads (used : Bool) (address : ℕ) (e : IdtEntry) : Type 0 where
  pub target : base_of e ≡ address
  pub low : e.base_lo < 2 ^ 16
  pub segment : e.sel ≡ (if used then 0x08 else 0)
  pub gate_flags : e.flags ≡ (if used then 0xEE else 0)
  pub no_bits : e.always0 ≡ 0

idt_entry-Leads :
    (address flags : ℕ)
    → address < 2 ^ 32
    → u8 (bit_or flags 0x60) ≡ 0xEE
    → Leads true address (idt_entry address 0x08 flags)
unfolding idt_entry
idt_entry-Leads address flags h e = record {
  target = unfold idt_entry in idt_entry-base address 0x08 flags h;
  low = omega arith;
  segment = refl;
  gate_flags = e;
  no_bits = refl;
}

installed-Leads :
    (isr irq : ℕ → ℕ) (i : ℕ)
    → ((j : ℕ) → isr j < 2 ^ 32)
    → ((j : ℕ) → irq j < 2 ^ 32)
    → Leads (in_use i) (routine isr irq i) (installed isr irq i)
unfolding installed
installed-Leads isr irq i p q = elim (Bool-cases (i == 128)) [
  | inl call ↦
      let used : in_use i ≡ true = ground arith in
      rw (used, call) (idt_entry-Leads (irq 96) 0xEE (q 96) refl)
  | inr other ↦ elim (Bool-cases (ltb i 32)) [
    | inl exception ↦
        let used : in_use i ≡ true = ground arith in
        rw (used, other, exception) (idt_entry-Leads (isr i) 0x8E (p i) refl)
    | inr above ↦ elim (Bool-cases (ltb i 48)) [
      | inl line ↦
          let used : in_use i ≡ true = ground arith in
          rw (used, other, above, line) (idt_entry-Leads (irq (i - 32)) 0x8E (q (i - 32)) refl)
      | inr unused ↦
          let free : in_use i ≡ false = ground arith in
          rw (free, other, above, unused)
            (record {
              target = refl;
              low = omega arith;
              segment = refl;
              gate_flags = refl;
              no_bits = refl;
            })
    ]
  ]
]

-- With routines at 32-bit addresses, after `idt_install` and `irq_install` the address that the
-- processor reads from the gate of each of the 32 exceptions is that of its routine, from the
-- vectors 32 to 47 those of the 16 interrupt lines' routines, and from vector 128 that of the
-- system call's. These gates are present, in the kernel's code segment and open to users; every
-- other gate is zero.
pub irq_install-installed :
    (isr irq : ℕ → ℕ) (t : Trace) (i : ℕ)
    → ((j : ℕ) → isr j < 2 ^ 32)
    → ((j : ℕ) → irq j < 2 ^ 32)
    → Leads (in_use i) (routine isr irq i) ((irq_install irq (idt_install isr) t).0 i)
irq_install-installed isr irq t i p q =
    rw (irq_install-entries isr irq t i) (installed-Leads isr irq i p q)
