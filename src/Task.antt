-- ===== src/Task.antt =====
-- src/task.c: the list of kernel threads and the switch from one to the next. A thread is known by
-- its address; `now` is what the processor's registers hold when `switch_task` saves them.
pub mod Ring
use saxon_os.Prelude.{
  ℕ, zero, suc, ◌+◌, ◌==◌, if◌then◌else◌, List, [], ◌∷◌, u32, Outcome, ok, fault, hang, ◌>>=◌,
}
use saxon_os.Mm.Paging.{Paging, kalloc_page, kfree_page}

-- An address, 0 for the null pointer.
abbrev pub Ptr : Type 0
Ptr = ℕ

pub record Registers : Type 0 where
  pub eax : ℕ
  pub ebx : ℕ
  pub ecx : ℕ
  pub edx : ℕ
  pub esi : ℕ
  pub edi : ℕ
  pub esp : ℕ
  pub ebp : ℕ
  pub eip : ℕ
  pub eflags : ℕ
  pub cr3 : ℕ

-- The static variables, the fields of the threads, and the pages that their stacks come from.
pub record Tasks : Type 0 where
  pub last_thread : Ptr
  pub running_thread : Ptr
  pub regs : Ptr → Registers
  pub virtual_addr : Ptr → ℕ
  pub next : Ptr → Ptr
  pub flags : ℕ
  pub page_dir : ℕ
  pub paging : Paging

abbrev pub assign {ℓ} : {A : Type ℓ} → (Ptr → A) → Ptr → A → Ptr → A
assign f p v q = if q == p then v else f q

-- `main` is the address of `main_thread`.
module _ (main : Ptr) where
  pub init_tasking : (eflags cr3 : ℕ) → Tasks → Tasks
  init_tasking eflags cr3 s = record s {
    regs = assign s.regs main (record (s.regs main) { cr3 = cr3; eflags = eflags });
    flags = eflags;
    page_dir = cr3;
    next = assign s.next main 0;
    running_thread = main;
    last_thread = main;
  }

  pub preempt : Registers → Tasks → Tasks
  preempt now s = record s {
    running_thread = if s.running_thread == s.last_thread then main else s.next s.running_thread;
    regs = assign s.regs s.running_thread now;
  }

  -- The new thread's fields, and its place at the end of the list. The register `ebp` keeps what it
  -- was.
  abbrev pub add_thread : (task entry page : ℕ) → Paging → Tasks → Tasks
  add_thread task entry page paging s = record s {
    regs = assign s.regs task (record {
      eax = 0;
      ebx = 0;
      ecx = 0;
      edx = 0;
      esi = 0;
      edi = 0;
      esp = u32 (page + 0x1000);
      ebp = (s.regs task).ebp;
      eip = entry;
      eflags = s.flags;
      cr3 = s.page_dir;
    });
    virtual_addr = assign s.virtual_addr task page;
    paging = paging;
    next = assign (assign s.next task 0) s.last_thread task;
    last_thread = task;
  }

  -- `table` is the address of the kernel's page table.
  pub kthread_create : (table task entry : ℕ) → Registers → Tasks → Outcome Tasks
  kthread_create table task entry now s =
      kalloc_page table s.paging >>= λ r. ok (preempt now (add_thread task entry r.0 r.1 s))

  -- The loop of `kthread_join`, from `tmp` on. Reading the null pointer's `next` is a
  -- fault.
  pub unlink : ℕ → (thread tmp : Ptr) → Tasks → Outcome Tasks
  unlink zero thread tmp s = hang
  unlink (suc rounds) thread tmp s =
      let s' = record s { next = assign s.next tmp (s.next thread); last_thread = tmp } in
      let rest = unlink rounds thread (s'.next tmp) s' in
      if tmp == 0
      then fault
      else if s.next tmp == thread
      then ok s
      else if thread == 0
      then fault
      else rest

  pub kthread_join : ℕ → Ptr → Tasks → Outcome Tasks
  kthread_join rounds thread s = unlink rounds thread main s >>= λ s1.
      kfree_page (s1.virtual_addr thread) s1.paging >>= λ paging. ok (record s1 { paging = paging })
