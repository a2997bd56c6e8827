-- ===== src/Task/Ring.antt =====
-- The threads take turns, in the order of their creation.
use saxon_os.Prelude.{
  ℕ, suc, ◌+◌, ◌-◌, ◌%◌, ◌<◌, ◌≡◌, ◌≢◌, refl, sym, ap, ◌∙◌, arith, ◌==◌, ==_iff, true, false,
  Bool-cases, inl, inr, List, [], ◌∷◌, length, u32, ok,
}
use native.Mathlib.Nat as Nat
use saxon_os.Mm.Paging.{Paging, kalloc_page, kfree_page}
use saxon_os.Task.{
  Ptr, Registers, Tasks, assign, preempt, add_thread, kthread_create, unlink, kthread_join,
}

-- The list has `n` threads, `thread 0` to `thread (n - 1)`, from `main_thread` to `last_thread`.
pub record IsRing (main : Ptr) (thread : ℕ → Ptr) (n : ℕ) (s : Tasks) : Type 0 where
  pub some_thread : 0 < n
  pub first : thread 0 ≡ main
  pub last : s.last_thread ≡ thread (n - 1)
  pub links : (i : ℕ) → i + 1 < n → s.next (thread i) ≡ thread (i + 1)
  pub distinct : (i j : ℕ) → i < n → j < n → thread i ≡ thread j → i ≡ j

-- A run of switches, with what the registers held at each.
abbrev pub preempts : (main : Ptr) → List Registers → Tasks → Tasks
preempts main [] s = s
preempts main (now ∷ later) s = preempts main later (preempt main now s)

same : (a : ℕ) → (a == a) ≡ true
same a = ground arith

module _ (main : Ptr) (thread : ℕ → Ptr) (n : ℕ) where
  not_last :
      (s : Tasks) (i : ℕ) (p : Ptr)
      → IsRing main thread n s
      → i < n
      → p ≡ thread i
      → (i == n - 1) ≡ false
      → (p == s.last_thread) ≡ false
  not_last s i p v below running before = elim (Bool-cases (p == s.last_thread)) [
    | inr apart ↦ apart
    | inl equal ↦
        let place : i ≡ n - 1 =
          v.distinct i (n - 1) below (omega arith)
            (sym running ∙ ((==_iff _ _).0 equal ∙ v.last)) in
        absurd (ground arith)
  ]

  -- The next thread after the last one is the first.
  preempt-next :
      (s : Tasks) (i : ℕ) (now : Registers)
      → IsRing main thread n s
      → i < n
      → s.running_thread ≡ thread i
      → (preempt main now s).running_thread ≡ thread ((i + 1) % n)
  unfolding preempt
  preempt-next s i now v below running = elim (Bool-cases (i == n - 1)) [
    | inl at_end ↦
        let ends : (s.running_thread == s.last_thread) ≡ true =
          rw (running, v.last, (==_iff i (n - 1)).0 at_end) (same (thread (n - 1))) in
        let wrapped : (i + 1) % n ≡ 0 =
          let full : i + 1 ≡ n = ground arith in rw full (Nat.mod_self n) in
        rw (ends, wrapped) (sym v.first)
    | inr before ↦
        let ends : (s.running_thread == s.last_thread) ≡ false =
          not_last s i s.running_thread v below running before in
        let onward : (i + 1) % n ≡ i + 1 = Nat.mod-eq_of_lt (ground arith) in
        rw (ends, onward) (ap s.next running ∙ v.links i (ground arith))
  ]

  preempt-IsRing :
      (s : Tasks) (now : Registers)
      → IsRing main thread n s
      → IsRing main thread n (preempt main now s)
  unfolding preempt
  preempt-IsRing s now v = record {
    some_thread = v.some_thread;
    first = v.first;
    last = v.last;
    links = v.links;
    distinct = v.distinct;
  }

  -- From a list of `n` threads of which thread `i` runs, `k` switches make thread `i + k` run,
  -- counted round the list, and keep the list. So between two turns of a thread every other has
  -- one.
  pub preempts-IsRing :
      (s : Tasks) (i : ℕ) (ws : List Registers)
      → IsRing main thread n s
      → i < n
      → s.running_thread ≡ thread i
      → ((preempts main ws s).running_thread ≡ thread ((i + length ws) % n))
        × IsRing main thread n (preempts main ws s)
  preempts-IsRing s i [] v below running =
      let here : (i + 0) % n ≡ i = Nat.mod-eq_of_lt (omega arith) ∙ omega arith in
      (running ∙ ap thread (sym here), v)
  preempts-IsRing s i (now ∷ later) v below running =
      let (turn, ring) =
        preempts-IsRing (preempt main now s) ((i + 1) % n) later (preempt-IsRing s now v)
          (Nat.mod-lt (i + 1) v.some_thread) (preempt-next s i now v below running) in
      let place : ((i + 1) % n + length later) % n ≡ (i + suc (length later)) % n =
        Nat.mod-add-mod (i + 1) n (length later) ∙ ap (λ k. k % n) (omega arith) in
      (turn ∙ ap thread place, ring)

module _ (main : Ptr) (thread : ℕ → Ptr) (n : ℕ) (task : Ptr) (s s' : Tasks)
    (v : IsRing main thread n s) (fresh : (j : ℕ) → j < n → thread j ≢ task)
    (last_is : s'.last_thread ≡ task)
    (next_is : s'.next ≡ assign (assign s.next task 0) s.last_thread task) where
  old_thread : (i : ℕ) → i < n → assign thread n task i ≡ thread i
  old_thread i below = let old : (i == n) ≡ false = ground arith in rw old refl

  new_thread : (i : ℕ) → i ≡ n → assign thread n task i ≡ task
  new_thread i e = let new : (i == n) ≡ true = ground arith in rw new refl

  appended_links :
      (i : ℕ) → i + 1 < n + 1 → s'.next (assign thread n task i) ≡ assign thread n task (i + 1)
  appended_links i below = elim (Bool-cases (i == n - 1)) [
    | inl at_end ↦
        let here : i ≡ n - 1 = (==_iff i (n - 1)).0 at_end in
        let found : (thread i == s.last_thread) ≡ true =
          rw (v.last, here) (same (thread (n - 1))) in
        rw (next_is, old_thread i (omega arith), new_thread (i + 1) (omega arith), found) refl
    | inr before ↦
        let inner : i + 1 < n = ground arith in
        let apart : (thread i == s.last_thread) ≡ false =
          not_last main thread n s i (thread i) v (omega arith) refl before in
        let other : (thread i == task) ≡ false = let ne = fresh i (omega arith) in ground arith in
        rw (next_is, old_thread i (omega arith), old_thread (i + 1) inner, apart, other)
          (v.links i inner)
  ]

  appended_distinct :
      (i j : ℕ) → i < n + 1 → j < n + 1 → assign thread n task i ≡ assign thread n task j → i ≡ j
  appended_distinct i j p q e = elim (Bool-cases (i == n)) [
    | inl i_new ↦ elim (Bool-cases (j == n)) [
      | inl j_new ↦ ground arith
      | inr j_old ↦ absurd (
          fresh j (ground arith)
            (sym (old_thread j (ground arith)) ∙ (sym e ∙ new_thread i ((==_iff i n).0 i_new))))
    ]
    | inr i_old ↦ elim (Bool-cases (j == n)) [
      | inl j_new ↦ absurd (
          fresh i (ground arith)
            (sym (old_thread i (ground arith)) ∙ (e ∙ new_thread j ((==_iff j n).0 j_new))))
      | inr j_old ↦
          v.distinct i j (ground arith) (ground arith)
            (sym (old_thread i (ground arith)) ∙ (e ∙ old_thread j (ground arith)))
    ]
  ]

  -- The list after a thread has been appended.
  appended-IsRing : IsRing main (assign thread n task) (n + 1) s'
  appended-IsRing = record {
    some_thread = omega arith;
    first = old_thread 0 v.some_thread ∙ v.first;
    last = last_is ∙ sym (new_thread (n + 1 - 1) (omega arith));
    links = appended_links;
    distinct = appended_distinct;
  }

-- With a list of `n` threads of which thread `i` runs, and a page for its stack, `kthread_create`
-- appends a thread that is not on the list, sets its stack pointer to the end of the page and its
-- first instruction to its entry, and switches once: thread `i + 1` of the longer list runs, which
-- is the new thread if the last one has created it.
pub kthread_create-IsRing :
    (table : ℕ) (main : Ptr) (thread : ℕ → Ptr) (n i task entry page : ℕ) (now : Registers)
    (s : Tasks) (paging : Paging)
    → IsRing main thread n s
    → i < n
    → s.running_thread ≡ thread i
    → ((j : ℕ) → j < n → thread j ≢ task)
    → kalloc_page table s.paging ≡ ok (page, paging)
    → (s' : Tasks) × (kthread_create main table task entry now s ≡ ok s')
      × IsRing main (assign thread n task) (n + 1) s'
      × (s'.running_thread ≡ assign thread n task ((i + 1) % (n + 1)))
      × ((s'.regs task).esp ≡ u32 (page + 0x1000))
      × ((s'.regs task).eip ≡ entry)
unfolding kthread_create preempt
kthread_create-IsRing table main thread n i task entry page now s paging v below running fresh got =
    let added = add_thread main task entry page paging s in
    let ring = appended-IsRing main thread n task s added v fresh refl refl in
    let old : (i == n) ≡ false = ground arith in
    let other : (task == s.running_thread) ≡ false = let ne = fresh i below in ground arith in
    let itself : (task == task) ≡ true = same task in
    (
      preempt main now added,
      rw got refl,
      preempt-IsRing main (assign thread n task) (n + 1) added now ring,
      preempt-next main (assign thread n task) (n + 1) added i now ring (omega arith)
          (rw old running),
      rw (other, itself) refl,
      rw (other, itself) refl,
    )

-- A join of the first thread behind the main one frees its stack's page and leaves it on the list:
-- the loop that unlinks ends before its first round.
pub kthread_join-IsRing :
    (main : Ptr) (thread : ℕ → Ptr) (n rounds : ℕ) (s : Tasks) (paging : Paging)
    → IsRing main thread n s
    → 1 < n
    → main ≢ 0
    → kfree_page (s.virtual_addr (thread 1)) s.paging ≡ ok paging
    → (s' : Tasks) × (kthread_join main (suc rounds) (thread 1) s ≡ ok s')
      × (s'.paging ≡ paging)
      × IsRing main thread n s'
unfolding kthread_join unlink
kthread_join-IsRing main thread n rounds s paging v some ne freed =
    let valid : (main == 0) ≡ false = ground arith in
    let next : s.next main ≡ thread 1 = ap s.next (sym v.first) ∙ v.links 0 some in
    let found : (thread 1 == thread 1) ≡ true = same (thread 1) in
    let s' = record s { paging = paging } in
    (
      s',
      rw (valid, next, found, freed) refl,
      refl,
      record {
        some_thread = v.some_thread;
        first = v.first;
        last = v.last;
        links = v.links;
        distinct = v.distinct;
      },
    )
