-- ===== src/Fs/Vfs.antt =====
-- src/fs/vfs/vfs.c: the linked lists of the virtual file system, and the registry of its types.
pub mod Chain
pub mod Register
pub mod Unregister
pub mod Mount
use saxon_os.Prelude.{
  ℕ, zero, suc, ◌+◌, ◌%◌, ◌^◌, ◌==◌, ◌&&◌, not, if◌then◌else◌, Bool, true, false, Outcome, ok,
  fault, hang, ◌>>=◌,
}
use saxon_os.Common.Strings.{Bytes, strlen, strncmp}

-- An address, 0 for the null pointer.
abbrev pub Ptr : Type 0
Ptr = ℕ

-- The fields of `struct file_system_type` that the registry reads.
pub record FsType : Type 0 where
  pub name : Bytes
  pub next : Ptr

-- `file_systems`, and the structures at their addresses.
pub record Vfs : Type 0 where
  pub file_systems : Ptr
  pub types : Ptr → FsType

-- A `struct file_system_type **`: the variable `file_systems`, or the `next` field at an address.
pub data Link : Type 0 where
  at_head : Link
  at_next : Ptr → Link

pub deref : Vfs → Link → Ptr
deref s at_head = s.file_systems
deref s (at_next p) = (s.types p).next

abbrev pub set_next : (Ptr → FsType) → Ptr → Ptr → Ptr → FsType
set_next types p q a = if a == p then record { name = (types a).name; next = q } else types a

pub assign : Vfs → Link → Ptr → Vfs
assign s at_head q = record s { file_systems = q }
assign s (at_next p) q = record s { types = set_next s.types p q }

-- `len != 0 && !strncmp(name, (*ptr)->name, len)`
pub matches : Bytes → ℕ → FsType → Bool
matches name len t = not (len == 0) && (strncmp name t.name len == 0)

-- The loop of `find_file_system` over the links of the list.
pub find_from : ℕ → Vfs → Bytes → ℕ → Link → Outcome Link
find_from zero s name len link = hang
find_from (suc rounds) s name len link =
    let p = deref s link in
    let rest = find_from rounds s name len (at_next p) in
    if p == 0 then ok link else if matches name len (s.types p) then ok link else rest

-- The parameter `len` is a `uint8_t`.
pub find_file_system : ℕ → Vfs → Bytes → ℕ → Outcome Link
find_file_system rounds s name len = find_from rounds s name (len % 2 ^ 8) at_head

-- The results 0 and -1.
pub data Result : Type 0 where
  success failure : Result

-- `rounds` bounds the loop over the list, and the length of the name.
pub register_filesystem : ℕ → Ptr → Vfs → Outcome (Result × Vfs)
register_filesystem rounds fs s =
    if not ((s.types fs).next == 0)
    then ok (failure, s)
    else (strlen rounds (s.types fs).name >>= λ len.
        find_file_system rounds s (s.types fs).name len >>= λ link.
        if not (deref s link == 0) then ok (failure, s) else ok (success, assign s link fs))

pub unregister_from : ℕ → Ptr → Vfs → Link → Outcome (Result × Vfs)
unregister_from zero fs s link = hang
unregister_from (suc rounds) fs s link =
    let p = deref s link in
    let rest = unregister_from rounds fs s (at_next p) in
    if p == 0
    then ok (failure, s)
    else if p == fs
    then ok (success, assign (assign s link (s.types fs).next) (at_next fs) 0)
    else rest

pub unregister_filesystem : ℕ → Ptr → Vfs → Outcome (Result × Vfs)
unregister_filesystem rounds fs s = unregister_from rounds fs s at_head

-- The lists of super blocks, inodes and directory entries: their first ones, and the links and the
-- types at their addresses.
pub record Lists : Type 0 where
  pub sb_head : Ptr
  pub i_head : Ptr
  pub d_head : Ptr
  pub sb_next : Ptr → Ptr
  pub sb_type : Ptr → Ptr
  pub inode_next : Ptr → Ptr
  pub dentry_next : Ptr → Ptr
  pub dentry_prev : Ptr → Ptr

abbrev pub point : (Ptr → Ptr) → Ptr → Ptr → Ptr → Ptr
point links p q a = if a == p then q else links a

pub add_inode : Ptr → Lists → Lists
add_inode inode l = record l { inode_next = point l.inode_next inode l.i_head; i_head = inode }

-- The first entry is written to even if there is none.
pub add_dir : Ptr → Lists → Outcome Lists
add_dir dentry l =
    if l.d_head == 0
    then fault
    else ok (record l {
      dentry_next = point l.dentry_next dentry l.d_head;
      dentry_prev = point l.dentry_prev l.d_head dentry;
      d_head = dentry;
    })

pub add_sb : Ptr → Lists → Lists
add_sb sb l = record l { sb_next = point l.sb_next sb l.sb_head; sb_head = sb }

-- The loop of `find_super_block` over the super blocks.
pub super_block_from : ℕ → Lists → (fs_type sb : Ptr) → Outcome Ptr
super_block_from zero l fs_type sb = hang
super_block_from (suc rounds) l fs_type sb =
    let rest = super_block_from rounds l fs_type (l.sb_next sb) in
    if sb == 0 then ok 0 else if l.sb_type sb == fs_type then ok sb else rest

pub find_super_block : ℕ → Vfs → Lists → Bytes → Outcome Ptr
find_super_block rounds s l name = strlen rounds name >>= λ len.
    find_file_system rounds s name len >>= λ link.
    let fs_type = deref s link in
    if fs_type == 0 then ok 0 else super_block_from rounds l fs_type l.sb_head
