-- ===== src/Tests/Tasks.antt =====
-- The threads: src/task.c.
use saxon_os.Prelude.{
  ℕ, ◌+◌, ◌*◌, ◌%◌, ◌≡◌, refl, arith, ltb, ◌==◌, if◌then◌else◌, [], ◌∷◌, u32, ok, Outcome,
}
use saxon_os.Mm.Frame.{kalloc_frame, find_frame, word_at, kfree_frame}
use saxon_os.Mm.Paging.{
  Paging, user_page, kalloc_page, kfree_page, page_for, find_free_page, get_phys_addr,
}
use saxon_os.Task.{Ptr, Registers, Tasks, assign, kthread_create}
use saxon_os.Task.Ring.{IsRing, preempts, preempts-IsRing, kthread_create-IsRing}

abbrev no_registers : Registers
no_registers = record {
  eax = 0;
  ebx = 0;
  ecx = 0;
  edx = 0;
  esi = 0;
  edi = 0;
  esp = 0;
  ebp = 0;
  eip = 0;
  eflags = 0;
  cr3 = 0;
}

-- Pages 0 and 1 are present, and frames 0 and 1 are in use.
abbrev two_present : Paging
two_present = record {
  frames = record { nframes = 64; frame_map = λ w. if w == 0 then 3 else 0 };
  pd_entry = λ i. if i == 768 then user_page 0x5000 else 2;
  tables = λ a j. if ltb j 2 then user_page (j * 0x1000) else 2;
  next_free_page = 0xC0002000;
}

-- The main thread at 100 and two more, of which the last one runs.
abbrev three : ℕ → Ptr
three i = 100 + i * 10

abbrev three_tasks : Tasks
three_tasks = record {
  last_thread = 120;
  running_thread = 120;
  regs = λ p. no_registers;
  virtual_addr = λ p. 0xC0001000;
  next = λ p. if p == 120 then 0 else p + 10;
  flags = 0x202;
  page_dir = 0;
  paging = two_present;
}

three_tasks-IsRing : IsRing 100 three 3 three_tasks
three_tasks-IsRing = record {
  some_thread = omega arith;
  first = refl;
  last = refl;
  links = λ i below. ground arith;
  distinct = λ i j p q e. omega arith;
}

preempts-IsRing_example :
    ((preempts 100 (no_registers ∷ no_registers ∷ []) three_tasks).running_thread
      ≡ three ((2 + 2) % 3))
    × IsRing 100 three 3 (preempts 100 (no_registers ∷ no_registers ∷ []) three_tasks)
preempts-IsRing_example =
    preempts-IsRing 100 three 3 three_tasks 2 (no_registers ∷ no_registers ∷ []) three_tasks-IsRing
      (omega arith) refl

-- The pages that a call leaves, or those from before it.
abbrev paging_after : Outcome (ℕ × Paging) → Paging
paging_after (ok r) = r.1
paging_after r = two_present

taken :
    kalloc_page 0xC0005000 two_present
    ≡ ok (0xC0002000, paging_after (kalloc_page 0xC0005000 two_present))
unfolding kalloc_page kalloc_frame find_frame word_at page_for find_free_page
taken = refl

kthread_create-IsRing_example :
    (s' : Tasks) × (kthread_create 100 0xC0005000 130 7 no_registers three_tasks ≡ ok s')
    × IsRing 100 (assign three 3 130) (3 + 1) s'
    × (s'.running_thread ≡ assign three 3 130 ((2 + 1) % (3 + 1)))
    × ((s'.regs 130).esp ≡ u32 (0xC0002000 + 0x1000))
    × ((s'.regs 130).eip ≡ 7)
kthread_create-IsRing_example =
    kthread_create-IsRing 0xC0005000 100 three 3 2 130 7 0xC0002000 no_registers three_tasks
      (paging_after (kalloc_page 0xC0005000 two_present)) three_tasks-IsRing (omega arith) refl
      (λ j below e. omega arith) taken

abbrev freed_paging : Outcome Paging → Paging
freed_paging (ok p) = p
freed_paging r = two_present

freed : kfree_page 0xC0001000 two_present ≡ ok (freed_paging (kfree_page 0xC0001000 two_present))
unfolding kfree_page kfree_frame get_phys_addr
freed = refl
