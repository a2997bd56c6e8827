-- ===== src/Userspace/Syscall.antt =====
-- src/userspace/syscall.c, sys_read.c and sys_write.c: the dispatch of a system call.
use saxon_os.Prelude.{
  ℕ, zero, suc, ◌≢◌, ◌≡◌, sym, subst, Bool-cases, inl, inr, true, false, [], ◌∷◌, ◌>>=◌, fault,
  hang, ◌||◌, every_below, every_below_at, Bool, refl, arith, leb, ◌==◌, if◌then◌else◌, Option,
  none, some, Outcome, ok, panic, List,
}
use saxon_os.Terminal.{Terminal, terminal_write}
use saxon_os.Drivers.Rtc.{Clock}
use saxon_os.Userspace.Time.{sys_time, time_of, stored_time, sys_time-stored}

pub data Call : Type 0 where
  sys_read sys_write sys_time_call : Call

-- `syscall_count`, the length of the table.
abbrev pub syscall_count : ℕ
syscall_count = 21

-- The 21 entries of the table `syscalls`; `none` is a null entry.
abbrev pub syscalls : List (Option Call)
syscalls =
    some sys_read
    ∷ some sys_write
    ∷ none
    ∷ none
    ∷ none
    ∷ none
    ∷ none
    ∷ none
    ∷ none
    ∷ none
    ∷ none
    ∷ none
    ∷ none
    ∷ some sys_time_call
    ∷ none
    ∷ none
    ∷ none
    ∷ none
    ∷ none
    ∷ none
    ∷ none
    ∷ []

-- A read of `syscalls[n]`; behind the end of the table it is a fault.
pub entry_at : List (Option Call) → ℕ → Outcome (Option Call)
entry_at [] n = fault
entry_at (c ∷ cs) zero = ok c
entry_at (c ∷ cs) (suc n) = entry_at cs n

-- What a call can see and change: the terminal, the clock, the string that `ebx` points to, and
-- the time that it points to, if it is not null.
pub record Kernel : Type 0 where
  pub terminal : Terminal
  pub clock : Clock
  pub text : List ℕ
  pub tloc : Option ℕ

-- `sys_read` calls `kpanic`; `sys_write` prints and returns 0.
pub run_call : Call → Kernel → Outcome (ℕ × Kernel)
run_call sys_read k = panic
run_call sys_write k = ok (0, record k { terminal = terminal_write k.text k.terminal })
run_call sys_time_call k =
    let (ret, tloc) = sys_time k.clock k.tloc in ok (ret, record k { tloc = tloc })

-- What follows the read of the entry.
abbrev pub run_entry : ℕ → Kernel → Option Call → Outcome (ℕ × Kernel)
run_entry eax k none = ok (eax, k)
run_entry eax k (some c) = run_call c k

-- The call that register `eax` selects; the result is the new `eax`.
pub syscall_handler : ℕ → Kernel → Outcome (ℕ × Kernel)
syscall_handler eax k =
    let called = entry_at syscalls eax >>= run_entry eax k in
    if leb syscall_count eax then ok (eax, k) else called

-- The numbers that the user's stubs `syscall_sys_read`, `syscall_sys_write` and
-- `syscall_sys_time` put into `eax`, by `DEFN_SYSCALL`.
pub stub_number : Call → ℕ
stub_number sys_read = 0
stub_number sys_write = 1
stub_number sys_time_call = 1

-- What a system call does, by its number.
pub data Dispatched (k : Kernel) : ℕ → Outcome (ℕ × Kernel) → Type 0 where
  reads : Dispatched k 0 panic
  writes : Dispatched k 1 (ok (0, record k { terminal = terminal_write k.text k.terminal }))
  takes_time :
      Dispatched k 13
        (ok (time_of k.clock, record k { tloc = stored_time (time_of k.clock) k.tloc }))
  ignored : {eax : ℕ} → eax ≢ 0 → eax ≢ 1 → eax ≢ 13 → Dispatched k eax (ok (eax, k))

abbrev is_null : Outcome (Option Call) → Bool
is_null (ok none) = true
is_null (ok (some c)) = false
is_null panic = false
is_null fault = false
is_null hang = false

null-entry : (o : Outcome (Option Call)) → is_null o ≡ true → o ≡ ok none
null-entry (ok none) e = refl
null-entry (ok (some c)) e = absurd (ground arith)
null-entry panic e = absurd (ground arith)
null-entry fault e = absurd (ground arith)
null-entry hang e = absurd (ground arith)

abbrev listed : ℕ → Bool
listed n = (n == 0) || (n == 1) || (n == 13)

null_entries : every_below 21 (λ n. listed n || is_null (entry_at syscalls n)) ≡ true
unfolding every_below entry_at
null_entries = refl

handler-ignored : (eax : ℕ) (k : Kernel) → listed eax ≡ false → syscall_handler eax k ≡ ok (eax, k)
unfolding syscall_handler
handler-ignored eax k other = elim (Bool-cases (leb syscall_count eax)) [
  | inl behind ↦ rw behind refl
  | inr inside ↦
      let clear = every_below_at 21 _ null_entries eax (ground arith) in
      let here : is_null (entry_at syscalls eax) ≡ true = ground (arith, other, clear) in
      rw (inside, null-entry (entry_at syscalls eax) here) refl
]

-- For every value of `eax` the handler stays inside its table: 0 panics, 1 prints the text and
-- returns 0, 13 returns the clock's time, and stores it if the pointer is not null. Any other
-- number, also one behind the table, leaves `eax` and everything else as it is.
pub syscall_handler-dispatch : (eax : ℕ) (k : Kernel) → Dispatched k eax (syscall_handler eax k)
unfolding syscall_handler entry_at run_call
syscall_handler-dispatch eax k = elim (Bool-cases (listed eax)) [
  | inr other ↦
      subst (Dispatched k eax) (sym (handler-ignored eax k other))
        (ignored (ground arith) (ground arith) (ground arith))
  | inl called ↦ elim (Bool-cases (eax == 0)) [
    | inl first ↦ let e : eax ≡ 0 = ground arith in rw e reads
    | inr later ↦ elim (Bool-cases (eax == 1)) [
      | inl second ↦ let e : eax ≡ 1 = ground arith in rw e writes
      | inr last ↦
          let e : eax ≡ 13 = ground arith in rw (e, sys_time-stored k.clock k.tloc) takes_time
    ]
  ]
]

-- The stub for the time passes the number of `sys_write`: it prints the text at its argument, and
-- returns 0 instead of the time.
pub syscall_handler-stubs :
    (k : Kernel)
    → (syscall_handler (stub_number sys_write) k ≡ run_call sys_write k)
      × (syscall_handler (stub_number sys_read) k ≡ run_call sys_read k)
      × (syscall_handler (stub_number sys_time_call) k ≡ run_call sys_write k)
unfolding syscall_handler entry_at stub_number
syscall_handler-stubs k = (refl, refl, refl)
