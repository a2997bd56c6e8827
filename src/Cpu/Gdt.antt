-- ===== src/Cpu/Gdt.antt =====
-- src/gdt.c and src/tss.c: segment descriptors, and the task state segment.
use saxon_os.Prelude.{
  ℕ, ◌+◌, ◌*◌, ◌/◌, ◌%◌, ◌^◌, ◌<◌, ◌≡◌, refl, arith, ltb, ◌==◌, if◌then◌else◌, bit_and, bit_or,
  bit_and_mask, bit_and_high, bit_or_low, ◌>>◌, u8, u16, u32, Outcome, ok, fault, ◌>>=◌,
}

pub record GdtEntry : Type 0 where
  pub limit_low : ℕ
  pub base_low : ℕ
  pub base_middle : ℕ
  pub access : ℕ
  pub granularity : ℕ
  pub base_high : ℕ

-- `ENTRY_COUNT`, the length of the array `gdt`.
abbrev pub entry_count : ℕ
entry_count = 3

abbrev pub Gdt : Type 0
Gdt = ℕ → GdtEntry

pub gdt_entry : (base limit access gran : ℕ) → GdtEntry
gdt_entry base limit access gran = record {
  base_low = u16 (bit_and base 0xFFFF);
  base_middle = u8 (bit_and (base >> 16) 0xFF);
  base_high = u8 (bit_and (base >> 24) 0xFF);
  limit_low = u16 (bit_and limit 0xFFFF);
  granularity = u8 (bit_or (u8 (bit_and (limit >> 16) 0x0F)) (bit_and gran 0xF0));
  access = access;
}

pub gdt_set_gate : (num base limit access gran : ℕ) → Gdt → Outcome Gdt
gdt_set_gate num base limit access gran gdt =
    if ltb num entry_count
    then ok (λ i. if i == num then gdt_entry base limit access gran else gdt i)
    else fault

-- The fields of `struct tss_struct` that the code sets; all others are cleared.
pub record Tss : Type 0 where
  pub esp0 : ℕ
  pub ss0 : ℕ
  pub cs : ℕ
  pub data_segments : ℕ
  pub iomap_base : ℕ

-- `sizeof(struct tss_struct)`
abbrev pub tss_size : ℕ
tss_size = 104

-- `address` is where `tss_entry` lies, and `esp` the stack pointer.
pub write_tss : (address esp : ℕ) → Gdt → Outcome (Gdt × Tss)
write_tss address esp gdt = gdt_set_gate 5 address (u32 (address + tss_size)) 0xE9 0x00 gdt >>= λ g.
    ok
      (g, record { esp0 = esp; ss0 = 0x10; cs = 0x0B; data_segments = 0x13; iomap_base = tss_size })

pub set_kernel_stack : ℕ → Tss → Tss
set_kernel_stack stack t = record t { esp0 = stack }

pub gdt_install : (address esp : ℕ) → Gdt → Outcome (Gdt × Tss)
gdt_install address esp gdt = do
  g ← gdt_set_gate 0 0 0 0 0 gdt
  g ← gdt_set_gate 1 0 0xFFFFFFFF 0x9A 0xCF g
  g ← gdt_set_gate 2 0 0xFFFFFFFF 0x92 0xCF g
  g ← gdt_set_gate 3 0 0xFFFFFFFF 0xFA 0xCF g
  g ← gdt_set_gate 4 0 0xFFFFFFFF 0xF2 0xCF g
  write_tss address esp g

-- How the processor puts a descriptor together.
abbrev pub base_of : GdtEntry → ℕ
base_of e = e.base_low + e.base_middle * 2 ^ 16 + e.base_high * 2 ^ 24

abbrev pub limit_of : GdtEntry → ℕ
limit_of e = e.limit_low + e.granularity % 16 * 2 ^ 16

granularity_value :
    (limit gran : ℕ)
    → gran < 256
    → u8 (bit_or (u8 (bit_and (limit >> 16) 0x0F)) (bit_and gran 0xF0))
      ≡ gran / 16 * 16 + limit / 2 ^ 16 % 16
granularity_value limit gran h =
    let high : bit_and gran 0xF0 ≡ gran / 16 * 2 ^ 4 =
      omega (arith, bit_and_high 4 gran 0xF, bit_and_mask 4 (gran / 16)) in
    let low : u8 (bit_and (limit >> 16) 0x0F) ≡ limit / 2 ^ 16 % 16 =
      omega (arith, bit_and_mask 4 (limit / 2 ^ 16)) in
    rw (high, low, bit_or_low 4 (gran / 16) (limit / 2 ^ 16 % 16) (omega arith)) (omega arith)

-- A descriptor holds the whole 32-bit base, the low 20 bits of the limit, the access byte, and the
-- high four bits of the granularity, in the places where the processor looks for them.
pub gdt_entry-fields :
    (base limit access gran : ℕ)
    → base < 2 ^ 32
    → gran < 256
    → let e = gdt_entry base limit access gran in
      (base_of e ≡ base)
      × (limit_of e ≡ limit % 2 ^ 20)
      × (e.access ≡ access)
      × (e.granularity / 16 ≡ gran / 16)
unfolding gdt_entry
gdt_entry-fields base limit access gran h g = (
  omega
      (arith, bit_and_mask 16 base, bit_and_mask 8 (base / 2 ^ 16), bit_and_mask 8 (base / 2 ^ 24)),
  omega (arith, granularity_value limit gran g, bit_and_mask 16 limit),
  refl,
  omega (arith, granularity_value limit gran g),
)

-- Whatever the addresses and the table before, `gdt_install` writes outside the array `gdt`: it has
-- room for three descriptors, and six are installed.
pub gdt_install-fault : (address esp : ℕ) (gdt : Gdt) → gdt_install address esp gdt ≡ fault
unfolding gdt_install gdt_set_gate
gdt_install-fault address esp gdt = refl
