-- ===== src/Cpu/Timer.antt =====
-- src/drivers/timer.c: the tick counter, and the rate of the interval timer.
use saxon_os.Prelude.{
  ℕ, ◌+◌, ◌*◌, ◌/◌, ◌%◌, ◌^◌, ◌<◌, ◌≤◌, ◌≡◌, ap₂, arith, ◌==◌, if◌then◌else◌, false, bit_and,
  bit_and_mask, ◌>>◌, u32, Outcome, ok, fault, ◌∷◌,
}
use saxon_os.Prelude.Io.{Trace, wr8, outb}
use saxon_os.Cpu.Irq.{Routines, irq_install_handler}

-- The counter `jiffies`.
pub timer_handler : ℕ → ℕ
timer_handler jiffies = u32 (jiffies + 1)

-- The number of the handler stands for its address.
pub timer_install : (timer_handler : ℕ) → Routines → Outcome Routines
timer_install timer_handler r = irq_install_handler 0 timer_handler r

-- A division by zero is a processor fault.
pub timer_set_interval : ℕ → Trace → Outcome Trace
timer_set_interval hz t =
    let divisor = 1193180 / hz in
    if hz == 0
    then fault
    else ok (outb 0x40 (divisor >> 8) (outb 0x40 (bit_and divisor 0xFF) (outb 0x43 0x36 t)))

-- The number of ticks of 1193180 Hz between two interrupts after the two bytes.
abbrev pub reload : ℕ → ℕ → ℕ
reload low high = low + high * 2 ^ 8

divisor_largest :
    (hz : ℕ) → 0 < hz → (1193180 / hz * hz ≤ 1193180) × (1193180 < (1193180 / hz + 1) * hz)
divisor_largest hz h = (grind arith, grind arith)

divisor_fits : (hz : ℕ) → 19 ≤ hz → 1193180 / hz < 2 ^ 16
divisor_fits hz h =
    let bound = (divisor_largest hz (omega arith)).0 in
    let step : 1193180 / hz * 19 ≤ 1193180 / hz * hz = grind arith in omega arith

-- For every rate from 19 Hz up the timer is sent the command and then the low and the high byte of
-- a divisor that fits 16 bits: the largest one that makes the rate at least the one asked for.
pub timer_set_interval-reload :
    (hz : ℕ) (t : Trace)
    → 19 ≤ hz
    → (low high : ℕ) × (timer_set_interval hz t
        ≡ ok (wr8 0x40 high ∷ wr8 0x40 low ∷ wr8 0x43 0x36 ∷ t))
      × (reload low high < 2 ^ 16)
      × (reload low high * hz ≤ 1193180)
      × (1193180 < (reload low high + 1) * hz)
unfolding timer_set_interval
timer_set_interval-reload hz t h =
    let split : reload (1193180 / hz % 2 ^ 8) (1193180 / hz / 2 ^ 8) ≡ 1193180 / hz = omega arith in
    let some_rate : (hz == 0) ≡ false = ground arith in
    (
      1193180 / hz % 2 ^ 8,
      1193180 / hz / 2 ^ 8,
      rw (some_rate, bit_and_mask 8 (1193180 / hz))
          (ap₂ (λ high low. ok (wr8 0x40 high ∷ wr8 0x40 low ∷ wr8 0x43 0x36 ∷ t))
            (omega (arith, divisor_fits hz h)) (omega arith)),
      omega (arith, divisor_fits hz h),
      rw split (divisor_largest hz (omega arith)).0,
      rw split (divisor_largest hz (omega arith)).1,
    )
