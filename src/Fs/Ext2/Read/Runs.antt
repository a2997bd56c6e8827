-- ===== src/Fs/Ext2/Read/Runs.antt =====
-- What `ext2_read` leaves of the kernel heap.
use saxon_os.Prelude.{
  ℕ, ◌+◌, ◌≤◌, ◌≡◌, refl, ap, subst, sym, ◌∙◌, arith, leb, ◌==◌, ◌||◌, not, u32, bit_and,
  if◌then◌else◌, true, false, Bool-cases, inl, inr, ◌⊎◌, [], Option, some, none, ok, ◌>>=◌, Returns,
  ok-Returns, panic-Returns, if-Returns, bind-Returns,
}
use saxon_os.Common.Memory.{Memory, within}
use saxon_os.Common.Strings.{strcmp}
use saxon_os.Mm.Heap.{Heap, kmalloc, kfree}
use saxon_os.Mm.Heap.Run.{Live, set_live, Run, took, gave, wrote, Outside}
use saxon_os.Mm.Heap.Live.{Run-kmalloc_fresh}
use saxon_os.Fs.Ext2.{Ext2, Sector, read_inode}
use saxon_os.Fs.Ext2.Read.File.{started}
use saxon_os.Fs.Ext2.Read.{
  inode_bytes, type_permissions, direct_block, type_reg_file, minus_one, ext2_name, VfsInode,
  ReadResult, fill_inode, ended, read_direct, ext2_read,
}

pub fill_inode-Outside :
    (m : Memory) (p : ℕ) (bytes : ℕ → ℕ) → Outside p inode_bytes m (fill_inode p bytes m)
fill_inode-Outside m p bytes a h =
    let out : within p inode_bytes a ≡ false = ground arith in rw out refl

-- A pointer that is taken and given back leaves the pointers as they were.
pub set_live_back :
    (live : Live) (p : ℕ) (o : Option ℕ)
    → live p ≡ none
    → set_live (set_live live p o) p none ≡ live
set_live_back live p o fresh = λ t q. at q t
  where
    at : (q : ℕ) → set_live (set_live live p o) p none q ≡ live q
    at q = elim (Bool-cases (q == p)) [
      | inl here ↦ let e : q ≡ p = ground arith in rw here (sym (ap live e ∙ fresh))
      | inr other ↦ rw other refl
    ]

-- The heap of a result is one after a run, with the same live pointers, or with one more behind a
-- result of -1.
abbrev pub Leaves : Live → ReadResult → Type 0
Leaves live a =
    Run a.heap live
    ⊎ ((a.result ≡ minus_one)
        × (ptr : ℕ) × (live ptr ≡ none)
        × Run a.heap (set_live live ptr (some inode_bytes)))

module _ (sector : ℕ → Sector) (rounds : ℕ) (g : Ext2) (inode : VfsInode) (count off : ℕ) {h : Heap}
    {live : Live} (r : Run h live) (enough : h.heap_end ≤ rounds) where
  -- The copy of the inode is filled.
  module _ (ptr : ℕ) (h' : Heap) (e : kmalloc rounds inode_bytes h ≡ ok (ptr, h'))
      (bytes : ℕ → ℕ) where
    copy : Heap
    copy = record h' { mem = fill_inode ptr bytes h'.mem }

    fresh : live ptr ≡ none
    fresh = Run-kmalloc_fresh r rounds inode_bytes ptr h' enough refl e

    now_live : set_live live ptr (some inode_bytes) ptr ≡ some inode_bytes
    now_live = let same : (ptr == ptr) ≡ true = ground arith in rw same refl

    copy-Run : Run copy (set_live live ptr (some inode_bytes))
    unfolding copy
    copy-Run =
        wrote h' _ (took h live r rounds inode_bytes ptr h' enough refl e) ptr inode_bytes now_live
          (fill_inode ptr bytes h'.mem) (fill_inode-Outside h'.mem ptr bytes)

    freed-Run : Run (kfree ptr copy) live
    freed-Run =
        subst (Run (kfree ptr copy)) (set_live_back live ptr (some inode_bytes) fresh)
          (gave copy _ copy-Run ptr inode_bytes now_live)

    after_copy : Returns (Leaves live) (
        if bit_and (type_permissions copy.mem ptr) type_reg_file == 0
        then ok (record { result = minus_one; stored = []; off = off; heap = copy })
        else (read_direct sector g (direct_block copy.mem ptr) rounds (started count off) >>= λ s.
            ok (ended ptr copy s)))
    after_copy =
        if-Returns (Leaves live) (bit_and (type_permissions copy.mem ptr) type_reg_file == 0)
          (λ other. ok-Returns (Leaves live) _ (inr (refl, ptr, fresh, copy-Run)))
          (λ regular.
            bind-Returns (Leaves live)
              (read_direct sector g (direct_block copy.mem ptr) rounds (started count off))
              (λ s done. ok-Returns (Leaves live) _ (inl freed-Run)))

  -- After a run, if `ext2_read` returns, its heap is one after a run with the same live pointers,
  -- or it returns -1, and a pointer that was not live is now: the copy of the inode is lost.
  pub ext2_read-Run : Returns (Leaves live) (ext2_read sector rounds g inode count off h)
  unfolding ext2_read copy
  ext2_read-Run = bind-Returns (Leaves live) (strcmp rounds inode.fs_name ext2_name) (λ d named.
      if-Returns (Leaves live) (not (d == 0)) (λ wrong. panic-Returns (Leaves live))
        (λ right.
          if-Returns (Leaves live)
            (leb inode.size (u32 (off + count)) || not (bit_and inode.flags 1 == 0))
            (λ refused. ok-Returns (Leaves live) _ (inl r))
            (λ goes. bind-Returns (Leaves live) (kmalloc rounds inode_bytes h) (λ p given.
              bind-Returns (Leaves live) (read_inode sector g inode.i_no)
                (λ bytes loaded. after_copy p.0 p.1 given bytes)))))
