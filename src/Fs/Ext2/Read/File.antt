-- ===== src/Fs/Ext2/Read/File.antt =====
-- `ext2_read` on a regular file.
use saxon_os.Prelude.{
  ℕ, zero, suc, ◌+◌, ◌-◌, ◌*◌, ◌/◌, ◌%◌, ◌^◌, ◌<◌, ◌≤◌, ◌≡◌, ◌≢◌, refl, ap, ap₂, sym, ◌∙◌, arith,
  leb, ◌==◌, ◌||◌, not, u32, bit_and, if◌then◌else◌, false, Bool-cases, inl, inr, ◌⊎◌, [], ◌++◌,
  Outcome, ok, hang, ◌>>=◌,
}
use saxon_os.Common.Memory.{Memory}
use saxon_os.Common.Strings.{strcmp-zero}
use saxon_os.Mm.Heap.{Heap, kmalloc, kfree}
use saxon_os.Fs.Devfs.{chars_of, copied}
use saxon_os.Fs.Ext2.{Ext2, Sector, sector_size, addr_of_block, read_inode}
use saxon_os.Fs.Ext2.Read.{
  inode_bytes, type_permissions, direct_block, type_reg_file, ext2_name, VfsInode, Reading,
  fill_inode, ended, read_direct, ext2_read,
}
use saxon_os.Fs.Ext2.Read.Fill.{inode_block, direct_block-fill_inode, type_permissions-fill_inode}
use saxon_os.Fs.Ext2.Read.Loop.{sectors_per_block, listed, after, Readable}
use saxon_os.Fs.Ext2.Read.Ends.{read_direct-ends, read_direct-hang, read_direct-stop}

-- The loops' variables at the start.
abbrev pub started : (count off : ℕ) → Reading
started count off = record {
  i = off / sector_size;
  offset = off % sector_size;
  count = count;
  off = off;
  read = 0;
  stored = [];
}

module _ (sector : ℕ → Sector) (g : Ext2) (f f' : ℕ → ℕ)
    (same : (i : ℕ) → i < 12 → f i ≡ f' i) where
  listed-agree :
      (n k i offset count : ℕ)
      → i + n ≤ 12
      → listed sector g f n k i offset count ≡ listed sector g f' n k i offset count
  unfolding listed
  listed-agree zero k i offset count few = refl
  listed-agree (suc n) k i offset count few =
      ap₂ (λ b xs. copied (sector (u32 (addr_of_block g b + k))) offset (chars_of count) ++ xs)
        (same i (omega arith))
        (listed-agree n (if k + 1 == sectors_per_block g then 0 else k + 1) (i + 1) 0
          (count - chars_of count) (omega arith))

  Readable-agree : (n : ℕ) → (s : Reading) → Readable sector g f' n s → Readable sector g f n s
  Readable-agree n s r = record {
    whole = r.whole;
    direct = r.direct;
    inside = r.inside;
    in_use = λ j q e. r.in_use j q (sym (same (s.i + j) (let d = r.direct in omega arith)) ∙ e);
    off_fits = r.off_fits;
    read_fits = r.read_fits;
  }

-- `ext2_read` gets as far as the loop: the range ends before the file's last byte, there is memory
-- for the inode, and the inode, of a regular file, can be read.
pub record Opened (sector : ℕ → Sector) (rounds : ℕ) (g : Ext2) (inode : VfsInode) (count off : ℕ)
    (h h' : Heap) (ptr : ℕ) (bytes : ℕ → ℕ) : Type 0 where
  pub before_end : off + count < inode.size
  pub size_fits : inode.size < 2 ^ 32
  pub plain : bit_and inode.flags 1 ≡ 0
  pub allocated : kmalloc rounds inode_bytes h ≡ ok (ptr, h')
  pub loaded : read_inode sector g inode.i_no ≡ ok bytes
  pub regular : bit_and (bytes 0 + bytes 1 * 2 ^ 8) type_reg_file ≢ 0

module _ {sector : ℕ → Sector} {rounds : ℕ} {g : Ext2} {inode : VfsInode} {count off : ℕ}
    {h h' : Heap} {ptr : ℕ} {bytes : ℕ → ℕ}
    (o : Opened sector (suc rounds) g inode count off h h' ptr bytes) where
  copied_inode : Memory
  copied_inode = fill_inode ptr bytes h'.mem

  ext2_read-opened : ext2_read sector (suc rounds) g inode count off h ≡ (
      read_direct sector g (direct_block copied_inode ptr) (suc rounds) (started count off) >>= λ s.
      ok (ended ptr (record h' { mem = copied_inode }) s))
  unfolding ext2_read copied_inode
  ext2_read-opened =
      let e = o.before_end in
      let f = o.size_fits in
      let p = o.plain in
      let goes : (leb inode.size (u32 (off + count)) || not (bit_and inode.flags 1 == 0)) ≡ false =
        ground arith in
      let r = o.regular in
      let a_file : (bit_and (type_permissions (fill_inode ptr bytes h'.mem) ptr) type_reg_file == 0)
          ≡ false =
        ap (λ t. bit_and t type_reg_file == 0) (type_permissions-fill_inode h'.mem ptr bytes)
        ∙ ground arith in
      rw (strcmp-zero rounds inode.fs_name ext2_name, goes, o.allocated, o.loaded, a_file) refl

  -- What holds of both reads below, that which ends and that which does not.
  module _ (n : ℕ) (r : Readable sector g (inode_block bytes) n (started count off)) where
    agree : (i : ℕ) → i < 12 → direct_block copied_inode ptr i ≡ inode_block bytes i
    unfolding copied_inode
    agree i few = direct_block-fill_inode h'.mem ptr bytes i few

    loop-ends :
        (e : Outcome Reading)
        → 0 < sectors_per_block g
        → n ≤ rounds
        → ((left : ℕ)
            → 0 < left
            → read_direct sector g
                (direct_block copied_inode ptr)
                left
                (after sector g (direct_block copied_inode ptr) n 0 (started count off))
              ≡ e)
        → read_direct sector g (direct_block copied_inode ptr) (suc rounds) (started count off) ≡ e
    loop-ends e some enough end =
        read_direct-ends sector g (direct_block copied_inode ptr) e some n (started count off)
          (Readable-agree sector g (direct_block copied_inode ptr) (inode_block bytes) agree n
            (started count off) r)
          end (suc rounds) (omega arith)

    listed_same :
        listed sector g
          (direct_block copied_inode ptr)
          n
          0
          (off / sector_size)
          (off % sector_size)
          count
        ≡ listed sector g (inode_block bytes) n 0 (off / sector_size) (off % sector_size) count
    listed_same =
        listed-agree sector g (direct_block copied_inode ptr) (inode_block bytes) agree n 0
          (off / sector_size) (off % sector_size) count r.direct

    -- The range ends before the file's last byte, the inode of a regular file can be read and
    -- copied, and the bytes of the first sector fit behind the offset in it. If behind the `n`
    -- sectors that the read takes, each of a direct block in use, there is no direct block in use,
    -- `ext2_read` returns `count`, moves the offset by it, frees the inode's copy, and stores the
    -- bytes of these sectors: of block `off / 512` the first, of the block after it the second, and
    -- so on.
    pub ext2_read-listed :
        0 < sectors_per_block g
        → n ≤ rounds
        → (12 ≤ off / sector_size + n) ⊎ (inode_block bytes (off / sector_size + n) ≡ 0)
        → ext2_read sector (suc rounds) g inode count off h
          ≡ ok (record {
            result = count;
            stored =
                listed sector g
                  (inode_block bytes)
                  n
                  0
                  (off / sector_size)
                  (off % sector_size)
                  count;
            off = off + count;
            heap = kfree ptr (record h' { mem = fill_inode ptr bytes h'.mem });
          })
    unfolding copied_inode
    ext2_read-listed some enough last =
        ext2_read-opened
        ∙ (ap (λ l. l >>= λ s. ok (ended ptr (record h' { mem = copied_inode }) s))
              (loop-ends _ some enough (λ left q.
                read_direct-stop sector g (direct_block copied_inode ptr) _ (stop last) left q))
            ∙ ap₂
                (λ c xs. ok (record {
                  result = c;
                  stored = xs;
                  off = off + count;
                  heap = kfree ptr (record h' { mem = fill_inode ptr bytes h'.mem });
                }))
                (zero_add count) listed_same)
      where
        stop :
            (12 ≤ off / sector_size + n) ⊎ (inode_block bytes (off / sector_size + n) ≡ 0)
            → (12 ≤ off / sector_size + n)
              ⊎ (direct_block copied_inode ptr (off / sector_size + n) ≡ 0)
        stop (inl behind) = inl behind
        stop (inr unused) = elim (Bool-cases (leb 12 (off / sector_size + n))) [
          | inl behind ↦ inl (ground arith)
          | inr direct ↦ inr (agree (off / sector_size + n) (ground arith) ∙ unused)
        ]

        zero_add : (c : ℕ) → 0 + c ≡ c
        zero_add c = omega arith

    -- If the direct block behind these sectors is in use too, `ext2_read` never returns.
    pub ext2_read-hang :
        0 < sectors_per_block g
        → n ≤ rounds
        → off / sector_size + n < 12
        → inode_block bytes (off / sector_size + n) ≢ 0
        → ext2_read sector (suc rounds) g inode count off h ≡ hang
    ext2_read-hang some enough few used =
        ext2_read-opened
        ∙ ap (λ l. l >>= λ s. ok (ended ptr (record h' { mem = copied_inode }) s))
            (loop-ends hang some enough (λ left q.
              read_direct-hang sector g (direct_block copied_inode ptr) _ refl few
                (λ e. used (sym (agree (off / sector_size + n) few) ∙ e)) left))
