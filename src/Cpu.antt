-- ===== src/Cpu.antt =====
-- The tables that the processor reads, src/gdt.c, src/tss.c and src/idt.c, the interrupt dispatch
-- of src/irq.c, and the timer of src/drivers/timer.c.
pub mod Gdt
pub mod Idt
pub mod Fault
pub mod Irq
pub mod Timer
