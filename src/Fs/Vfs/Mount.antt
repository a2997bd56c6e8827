-- ===== src/Fs/Vfs/Mount.antt =====
-- src/fs/vfs/vfs.c: `init_fs`, and what the types' `read_super` share.
use saxon_os.Prelude.{ℕ, ◌==◌, if◌then◌else◌, Outcome, ok, panic, ◌>>=◌}
use saxon_os.Common.Strings.{Bytes}
use saxon_os.Mm.Heap.{Heap, kmalloc}
use saxon_os.Fs.Vfs.{Ptr, Vfs, Lists, deref, find_file_system, register_filesystem, point}

-- The fields of `struct super_block` that are used.
pub record SuperBlock : Type 0 where
  pub dev : ℕ
  pub fs_type : Ptr
  pub sb_ops : Ptr
  pub root : Ptr

-- `if (sb->fs_type == 0) sb->fs_type = *find_file_system(name, len)`
abbrev pub type_of_super :
    (rounds : ℕ) → Vfs → SuperBlock → (name : Bytes) → (len : ℕ) → Outcome Ptr
type_of_super rounds s sb name len =
    if sb.fs_type == 0
    then (find_file_system rounds s name len >>= λ link. ok (deref s link))
    else ok sb.fs_type

-- `sizeof(struct super_block)` and `sizeof(struct dentry)`.
abbrev pub super_bytes : ℕ
super_bytes = 24

abbrev pub dentry_bytes : ℕ
dentry_bytes = 32

-- The fields of the first directory entry that are set.
pub record RootEntry : Type 0 where
  pub inode : Ptr
  pub name : Ptr

-- `read_super` is the function that the type holds; it gets the address of the super block, and
-- gives back its fields.
pub init_fs :
    (rounds : ℕ) (root_fs : Ptr)
    → (read_super : Ptr → (dev : ℕ) → Heap → Outcome (SuperBlock × Heap)) → (dev : ℕ) → Vfs
    → Lists
    → Heap
    → Outcome (Vfs × Lists × RootEntry × Heap)
init_fs rounds root_fs read_super dev s l h = register_filesystem rounds root_fs s >>= λ registered.
    kmalloc rounds super_bytes h >>= λ a. read_super a.0 dev a.1 >>= λ sb.
    if sb.0.root == 0
    then panic
    else (kmalloc rounds dentry_bytes sb.1 >>= λ d. ok (
      registered.1,
      record l {
        sb_head = a.0;
        sb_type = point l.sb_type a.0 sb.0.fs_type;
        i_head = sb.0.root;
        d_head = d.0;
      },
      record { inode = sb.0.root; name = 0 },
      d.1,
    ))
