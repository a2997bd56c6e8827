-- ===== src/Cpu/Irq.antt =====
-- src/irq.c: the table of installed handlers, and the dispatch of an interrupt.
use saxon_os.Prelude.{
  ℕ, ◌+◌, ◌-◌, ◌%◌, ◌^◌, ◌<◌, ◌≡◌, ◌≢◌, refl, true, false, ◌∙◌, arith, ltb, leb, ◌==◌, ◌&&◌, not,
  if◌then◌else◌, u8, Option, none, some, Outcome, ok, fault, ◌∷◌,
}
use saxon_os.Prelude.Io.{Trace, wr8, outb}

-- `irq_routines[256]`: `none` is the null pointer, and a handler is known by its address.
abbrev pub Routines : Type 0
Routines = ℕ → Option ℕ

pub irq_install_handler : (irq handler : ℕ) → Routines → Outcome Routines
irq_install_handler irq handler routines =
    if ltb irq 256 then ok (λ i. if i == irq then some handler else routines i) else fault

pub irq_uninstall_handler : ℕ → Routines → Outcome Routines
irq_uninstall_handler irq routines =
    if ltb irq 256 then ok (λ i. if i == irq then none else routines i) else fault

-- The end-of-interrupt commands that follow the handler.
pub end_of_interrupt : ℕ → Trace → Trace
end_of_interrupt int_no t =
    let t1 = if leb 40 (u8 int_no) && not (int_no == 0x80) then outb 0xA0 0x20 t else t in
    if int_no == 0x80 then t1 else outb 0x20 0x20 t1

-- The handler's own accesses, if there is a handler.
abbrev pub call : (ℕ → Trace → Trace) → Option ℕ → Trace → Trace
call run none t = t
call run (some handler) t = run handler t

-- The handler that is called, if any, and the accesses to ports. `run` is what a handler does to
-- the ports; the index `int_no - 32` is a `uint32_t`.
pub irq_handler : (ℕ → Trace → Trace) → Routines → ℕ → Trace → Outcome (Option ℕ × Trace)
irq_handler run routines int_no t =
    let index = (int_no + 2 ^ 32 - 32) % 2 ^ 32 in
    if ltb index 256
    then ok (routines index, end_of_interrupt int_no (call run (routines index) t))
    else fault

-- The commands that the two interrupt controllers need for line `line`: the second one serves the
-- lines from 8 on, and is chained to the first.
abbrev pub commands : ℕ → Trace → Trace
commands line t = if leb 8 line then wr8 0x20 0x20 ∷ wr8 0xA0 0x20 ∷ t else wr8 0x20 0x20 ∷ t

end_of_interrupt-commands :
    (line : ℕ) (t : Trace) → line < 16 → end_of_interrupt (line + 32) t ≡ commands line t
unfolding end_of_interrupt
end_of_interrupt-commands line t h = ground arith

irq_handler-line :
    (run : ℕ → Trace → Trace) (line : ℕ) (routines : Routines) (t : Trace)
    → line < 16
    → irq_handler run routines (line + 32) t
      ≡ ok (routines line, commands line (call run (routines line) t))
unfolding irq_handler
irq_handler-line run line routines t h =
    let fits : ltb line 256 ≡ true = ground arith in
    let index : (line + 32 + 2 ^ 32 - 32) % 2 ^ 32 ≡ line = omega arith in
    rw (index, fits, end_of_interrupt-commands line _ h) refl

-- After a handler has been installed for one of the 16 lines, its interrupt runs that handler and
-- then acknowledges the line at the controllers that serve it; every other line keeps its routine,
-- and after an uninstall the interrupt is acknowledged without a handler. A system call, vector
-- 128, runs routine 96 if there is one, and acknowledges nothing.
pub irq_handler-install :
    (run : ℕ → Trace → Trace) (line handler : ℕ) (routines : Routines) (t : Trace)
    → line < 16
    → (installed removed : Routines) × (irq_install_handler line handler routines ≡ ok installed)
      × (irq_handler run installed (line + 32) t ≡ ok (some handler, commands line (run handler t)))
      × ((other : ℕ) → other ≢ line → installed other ≡ routines other)
      × (irq_uninstall_handler line installed ≡ ok removed)
      × (irq_handler run removed (line + 32) t ≡ ok (none, commands line t))
      × (irq_handler run installed 0x80 t ≡ ok (routines 96, call run (routines 96) t))
unfolding irq_install_handler irq_uninstall_handler
irq_handler-install run line handler routines t h =
    let fits : ltb line 256 ≡ true = ground arith in
    let same : (line == line) ≡ true = ground arith in
    let apart : (96 == line) ≡ false = ground arith in
    let installed : Routines = λ i. if i == line then some handler else routines i in
    let removed : Routines = λ i. if i == line then none else installed i in
    (
      installed,
      removed,
      rw fits refl,
      irq_handler-line run line installed t h ∙ rw same refl,
      (λ other ne. ground arith),
      rw fits refl,
      irq_handler-line run line removed t h ∙ rw same refl,
      unfold irq_handler end_of_interrupt in rw apart refl,
    )
