-- ===== src/Fs/Ext2/Super/Runs.antt =====
-- What `ext2_read_super` leaves of the kernel heap.
use saxon_os.Prelude.{
  ℕ, ◌+◌, ◌≤◌, ◌≡◌, ◌≢◌, refl, ap, subst, sym, ◌∙◌, arith, ◌==◌, true, false, Bool-cases, inl, inr,
  Option, some, none, ok,
}
use mathlib.Core.Option.{none-ne-some}
use saxon_os.Common.Memory.{Memory}
use saxon_os.Common.Words.{write32_outside}
use saxon_os.Mm.Heap.{Heap, kmalloc, kfree}
use saxon_os.Mm.Heap.Run.{Live, set_live, Run, took, gave, wrote, Outside}
use saxon_os.Mm.Heap.Live.{Run-kmalloc_fresh}
use saxon_os.Mm.Heap.Keeps.{Run-kmalloc_end}
use saxon_os.Fs.Vfs.{Vfs}
use saxon_os.Fs.Vfs.Mount.{SuperBlock, type_of_super}
use saxon_os.Fs.Ext2.{Ext2, Sector, Superblock, ext2_parse_superblock, read_inode}
use saxon_os.Fs.Ext2.Read.{ext2_name, inode_bytes, fill_inode}
use saxon_os.Fs.Ext2.Read.Runs.{fill_inode-Outside}
use saxon_os.Fs.Ext2.Super.{node_bytes, fill_root, ext2_read_super}

fill_root-Outside : (m : Memory) (tmp root : ℕ) → Outside root node_bytes m (fill_root tmp root m)
fill_root-Outside m tmp root a h =
    write32_outside _ (root + 28) _ a (omega arith)
    ∙ (write32_outside _ (root + 24) _ a (omega arith)
        ∙ (write32_outside _ (root + 20) _ a (omega arith)
            ∙ (write32_outside _ (root + 8) _ a (omega arith)
                ∙ write32_outside m (root + 4) 2 a (omega arith))))

set_live_self : (live : Live) (p n : ℕ) → set_live live p (some n) p ≡ some n
set_live_self live p n = let same : (p == p) ≡ true = ground arith in rw same refl

set_live_other : (live : Live) (p q : ℕ) (o : Option ℕ) → q ≢ p → set_live live p o q ≡ live q
set_live_other live p q o ne = let other : (q == p) ≡ false = ground arith in rw other refl

-- The first of two pointers is given back.
first_back :
    (live : Live) (p q m n : ℕ)
    → live p ≡ none
    → p ≢ q
    → set_live (set_live (set_live live p (some m)) q (some n)) p none ≡ set_live live q (some n)
first_back live p q m n fresh apart = λ t k. at k t
  where
    at :
        (k : ℕ)
        → set_live (set_live (set_live live p (some m)) q (some n)) p none k
          ≡ set_live live q (some n) k
    at k = elim (Bool-cases (k == p)) [
      | inl here ↦
          let e : k ≡ p = ground arith in
          let away : (k == q) ≡ false = ground arith in rw (here, away) (sym (ap live e ∙ fresh))
      | inr other ↦ rw other refl
    ]

-- The root's inode is the one pointer that is live besides those that were.
abbrev pub Mounts : Live → Ext2 × SuperBlock × Heap → Type 0
Mounts live r = (live r.1.root ≡ none) × Run r.2 (set_live live r.1.root (some node_bytes))

module _ (sector : ℕ → Sector) (rounds : ℕ) (s : Vfs) (raw : Superblock) (ext2_super_operations : ℕ)
    (sb : SuperBlock) (dev : ℕ) {h : Heap} {live : Live} (run : Run h live)
    (enough : h.heap_end ≤ rounds) where
  -- Both allocations have succeeded.
  module _ (tmp : ℕ) (h1 : Heap) (e1 : kmalloc rounds inode_bytes h ≡ ok (tmp, h1)) (bytes : ℕ → ℕ)
      (root : ℕ) (h2 : Heap)
      (e2 : kmalloc rounds node_bytes (record h1 { mem = fill_inode tmp bytes h1.mem })
        ≡ ok (root, h2)) where
    with_tmp : Live
    with_tmp = set_live live tmp (some inode_bytes)

    copy-Run : Run (record h1 { mem = fill_inode tmp bytes h1.mem }) with_tmp
    unfolding with_tmp
    copy-Run =
        wrote h1 _ (took h live run rounds inode_bytes tmp h1 enough refl e1) tmp inode_bytes
          (set_live_self live tmp inode_bytes) (fill_inode tmp bytes h1.mem)
          (fill_inode-Outside h1.mem tmp bytes)

    still_enough : h1.heap_end ≤ rounds
    still_enough = omega (arith, Run-kmalloc_end run rounds inode_bytes tmp h1 enough refl e1)

    root_fresh : with_tmp root ≡ none
    root_fresh = Run-kmalloc_fresh copy-Run rounds node_bytes root h2 still_enough refl e2

    apart : tmp ≢ root
    unfolding with_tmp
    apart e = none-ne-some inode_bytes (
        sym root_fresh
        ∙ (ap (set_live live tmp (some inode_bytes)) (sym e) ∙ set_live_self live tmp inode_bytes))

    live_with : Live
    live_with = set_live with_tmp root (some node_bytes)

    filled-Run : Run (record h2 { mem = fill_root tmp root h2.mem }) live_with
    unfolding live_with
    filled-Run =
        wrote h2 _ (took _ with_tmp copy-Run rounds node_bytes root h2 still_enough refl e2) root
          node_bytes (set_live_self with_tmp root node_bytes) (fill_root tmp root h2.mem)
          (fill_root-Outside h2.mem tmp root)

    tmp_live : live_with tmp ≡ some inode_bytes
    unfolding live_with with_tmp
    tmp_live =
        set_live_other (set_live live tmp (some inode_bytes)) root tmp (some node_bytes) apart
        ∙ set_live_self live tmp inode_bytes

    mounted :
        (live root ≡ none)
        × Run
            (kfree tmp (record h2 { mem = fill_root tmp root h2.mem }))
            (set_live live root (some node_bytes))
    unfolding live_with with_tmp
    mounted = (
      sym (set_live_other live tmp root (some inode_bytes) (λ e. apart (sym e))) ∙ root_fresh,
      subst (Run (kfree tmp (record h2 { mem = fill_root tmp root h2.mem })))
          (first_back live tmp root inode_bytes node_bytes
            (Run-kmalloc_fresh run rounds inode_bytes tmp h1 enough refl e1) apart)
          (gave _ _ filled-Run tmp inode_bytes tmp_live),
    )

  -- After a run of the kernel heap, if the super block is accepted, inode 2 can be read, there is
  -- memory for its copy and the root's inode, and the type is found, `ext2_read_super` returns, and
  -- the heap is one after a run with one more live pointer, that of the root's inode, which was not
  -- live; the copy of the inode is freed.
  pub ext2_read_super-Mounts :
      (g : Ext2)
      → ext2_parse_superblock raw ≡ ok g
      → (tmp : ℕ) → (h1 : Heap) → kmalloc rounds inode_bytes h ≡ ok (tmp, h1)
      → (bytes : ℕ → ℕ) → read_inode sector g 2 ≡ ok bytes
      → (root : ℕ) → (h2 : Heap)
      → kmalloc rounds node_bytes (record h1 { mem = fill_inode tmp bytes h1.mem }) ≡ ok (root, h2)
      → (fs_type : ℕ) → type_of_super rounds s sb ext2_name 4 ≡ ok fs_type
      → (r : Ext2 × SuperBlock × Heap) × (ext2_read_super sector rounds s raw ext2_super_operations
            sb dev h
          ≡ ok r)
        × (r.1.root ≡ root)
        × (r.1.fs_type ≡ fs_type)
        × Mounts live r
  unfolding ext2_read_super
  ext2_read_super-Mounts g accepted tmp h1 e1 bytes loaded root h2 e2 fs_type typed = (
    (
      g,
      record { dev = dev; fs_type = fs_type; sb_ops = ext2_super_operations; root = root },
      kfree tmp (record h2 { mem = fill_root tmp root h2.mem }),
    ),
    rw (accepted, e1, loaded, e2, typed) refl,
    refl,
    refl,
    mounted tmp h1 e1 bytes root h2 e2,
  )
