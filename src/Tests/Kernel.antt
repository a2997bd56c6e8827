-- ===== src/Tests/Kernel.antt =====
-- The terminal, the processor's tables, the interrupts, the timer and the system calls.
use saxon_os.Prelude.{
  ◌++◌, ℕ, ◌+◌, ◌-◌, ◌*◌, ◌/◌, ◌%◌, ◌^◌, ◌≡◌, ◌≢◌, refl, arith, ltb, if◌then◌else◌, ok, some, none,
  [], ◌∷◌,
}
use saxon_os.Prelude.Io.{Trace, outb}
use saxon_os.Terminal.{Terminal, vga_height, scroll, terminal_putchar, terminal_write}
use saxon_os.Terminal.Scroll.{scroll_lem}
use saxon_os.Terminal.Cursor.{
  IsCursor, SameBehind, terminal_putchar-IsCursor, terminal_write-IsCursor,
}
use saxon_os.Terminal.Hex.{hex_digits}
use saxon_os.Cpu.Fault.{returned, stopped, problem, fault_handler, details, fault_handler-details}
use saxon_os.Cpu.Gdt.{Gdt, gdt_entry, base_of, limit_of, gdt_entry-fields}
use saxon_os.Cpu.Idt.{idt_install, irq_install, routine, in_use, Leads, irq_install-installed}
use saxon_os.Cpu.Irq.{
  Routines, irq_install_handler, irq_uninstall_handler, irq_handler, call, commands,
  irq_handler-install,
}
use saxon_os.Drivers.Rtc.{Clock}
use saxon_os.Userspace.Time.{seconds_of, seconds_of-month_end}
use saxon_os.Userspace.Syscall.{Kernel, Dispatched, syscall_handler, syscall_handler-dispatch}

-- A screen with the cursor at its last cell, where cell `i` holds `i`.
abbrev full_screen : Terminal
full_screen = record { row = 24; column = 79; color = 7; buffer = λ i. i }

full_screen-IsCursor : IsCursor full_screen
full_screen-IsCursor = record { row_on_screen = omega arith; column_on_screen = omega arith }

abbrev past_screen : Terminal
past_screen = record { row = 25; column = 0; color = 7; buffer = λ i. i }

scroll_lem_example :
    ((scroll past_screen).row ≡ vga_height - 1)
    × ((scroll past_screen).column ≡ 0)
    × ((i : ℕ)
        → (scroll past_screen).buffer i ≡ (
            if ltb i 1920
            then past_screen.buffer (i + 80)
            else if ltb i 2001
            then 0
            else past_screen.buffer i))
scroll_lem_example = scroll_lem past_screen refl

terminal_putchar-IsCursor_example :
    IsCursor (terminal_putchar 10 full_screen)
    × SameBehind full_screen (terminal_putchar 10 full_screen)
terminal_putchar-IsCursor_example = terminal_putchar-IsCursor 10 full_screen full_screen-IsCursor

terminal_write-IsCursor_example :
    IsCursor (terminal_write (65 ∷ 10 ∷ 66 ∷ []) full_screen)
    × SameBehind full_screen (terminal_write (65 ∷ 10 ∷ 66 ∷ []) full_screen)
terminal_write-IsCursor_example =
    terminal_write-IsCursor (65 ∷ 10 ∷ 66 ∷ []) full_screen full_screen-IsCursor

fault_handler-details_example : fault_handler 0xBEEF 14 0xC0101234 full_screen ≡ (
    if ltb 14 32
    then stopped
        (terminal_write (problem ++ hex_digits 2 14 ++ details 0xBEEF 14 0xC0101234) full_screen)
    else returned full_screen)
fault_handler-details_example =
    fault_handler-details 0xBEEF 14 0xC0101234 full_screen (omega arith) (omega arith)

gdt_entry-fields_example :
    let e = gdt_entry 0xC0101234 0xFFFFF 0x92 0xCF in
    (base_of e ≡ 0xC0101234)
    × (limit_of e ≡ 0xFFFFF % 2 ^ 20)
    × (e.access ≡ 0x92)
    × (e.granularity / 16 ≡ 0xCF / 16)
gdt_entry-fields_example = gdt_entry-fields 0xC0101234 0xFFFFF 0x92 0xCF (omega arith) (omega arith)

abbrev no_gates : Gdt
no_gates i = gdt_entry 0 0 0 0

-- The routines of the exceptions and of the interrupts, by their addresses.
abbrev isr : ℕ → ℕ
isr i = 0xC0101000 + i * 16

abbrev irq : ℕ → ℕ
irq i = 0xC0102000 + i * 16

irq_install-installed_example :
    Leads
      (in_use 33)
      (routine (λ n. isr (n % 32)) (λ n. irq (n % 97)) 33)
      ((irq_install (λ n. irq (n % 97)) (idt_install (λ n. isr (n % 32))) []).0 33)
irq_install-installed_example =
    irq_install-installed (λ n. isr (n % 32)) (λ n. irq (n % 97)) [] 33 (λ j. omega arith)
      (λ j. omega arith)

-- A handler that reads its address out at port 0x60.
abbrev run : ℕ → Trace → Trace
run handler t = outb 0x60 handler t

abbrev no_routines : Routines
no_routines i = none

irq_handler-install_example :
    (installed removed : Routines) × (irq_install_handler 9 5 no_routines ≡ ok installed)
    × (irq_handler run installed (9 + 32) [] ≡ ok (some 5, commands 9 (run 5 [])))
    × ((other : ℕ) → other ≢ 9 → installed other ≡ no_routines other)
    × (irq_uninstall_handler 9 installed ≡ ok removed)
    × (irq_handler run removed (9 + 32) [] ≡ ok (none, commands 9 []))
    × (irq_handler run installed 0x80 [] ≡ ok (no_routines 96, call run (no_routines 96) []))
irq_handler-install_example = irq_handler-install run 9 5 no_routines [] (omega arith)

abbrev morning : Clock
morning = record {
  second = 7;
  minute = 30;
  hour = 8;
  day = 26;
  month = 9;
  year = 2017;
  century = 0;
}

abbrev evening : Clock
evening = record morning { hour = 20; second = 9 }

seconds_of-month_end_example :
    seconds_of (record morning { day = 31 })
    ≡ seconds_of (record morning { day = 1; month = morning.month + 1 })
seconds_of-month_end_example = seconds_of-month_end morning

abbrev running : Kernel
running = record { terminal = full_screen; clock = morning; text = 72 ∷ 105 ∷ []; tloc = some 0 }

syscall_handler-dispatch_example : Dispatched running 13 (syscall_handler 13 running)
syscall_handler-dispatch_example = syscall_handler-dispatch 13 running
