-- ===== src/Fs/Devfs/Inode.antt =====
-- src/fs/devfs/devfs.c: the inodes and the open files of the file system of devices.
use saxon_os.Prelude.{
  ℕ, zero, suc, ◌≡◌, refl, ltb, ◌==◌, if◌then◌else◌, Bool, Bool-cases, inl, inr, false, u8, ◌>>◌,
  bit_and, List, Outcome, ok, panic, hang, ◌>>=◌,
}
use saxon_os.Common.Strings.{Bytes}
use saxon_os.Fs.Vfs.{Vfs}
use saxon_os.Fs.Vfs.Mount.{SuperBlock, type_of_super}
use saxon_os.Fs.Devfs.{Blocks, bdev_read, bdev_write}

-- `MAJOR_NUMBER` and `MINOR_NUMBER`.
abbrev pub major_number : ℕ → ℕ
major_number flags = u8 (flags >> 8)

abbrev pub minor_number : ℕ → ℕ
minor_number flags = u8 (bit_and flags 0xFF)

abbrev pub block_dev : ℕ
block_dev = 3

-- The fields of `struct inode` and `struct file` that the functions use; tables of functions and
-- super blocks are addresses.
pub record Inode : Type 0 where
  pub i_no : ℕ
  pub i_ops : ℕ
  pub i_sb : ℕ
  pub permissions : ℕ
  pub mount_point : Bool
  pub counter : ℕ

pub record File : Type 0 where
  pub pos : ℕ
  pub f_inode : Inode

-- A device on the list, without the driver's fields.
pub record Node : Type 0 where
  pub minor : ℕ
  pub node_permissions : ℕ
  pub next_node : ℕ

-- The loop of `devfs_read_inode` over the devices.
pub copy_permissions : (rounds : ℕ) → (ℕ → Node) → (p : ℕ) → Inode → Outcome Inode
copy_permissions zero nodes p dest = hang
copy_permissions (suc rounds) nodes p dest =
    let copied = record dest { permissions = (nodes p).node_permissions } in
    let rest = copy_permissions rounds nodes (nodes p).next_node in
    if p == 0
    then ok dest
    else rest (if minor_number dest.i_no == (nodes p).minor then copied else dest)

-- The second test is `MAJOR_NUMBER(dest->i_no == BLOCK_DEV)`: it takes the major number of a truth
-- value.
pub devfs_read_inode :
    (rounds : ℕ)
    → (nodes : ℕ → Node) → (block_head devfs_inode_ops super_block : ℕ) → Inode
    → Outcome Inode
devfs_read_inode rounds nodes block_head devfs_inode_ops super_block dest =
    let filled = record dest { i_ops = devfs_inode_ops; i_sb = super_block } in
    let truth = if dest.i_no == block_dev then 1 else 0 in
    (if ltb 0 dest.i_no
      then (if major_number truth == 0
          then ok filled
          else copy_permissions rounds nodes block_head filled)
      else ok filled)
    >>= λ d. ok (record d { mount_point = false; counter = 0 })

pub devfs_read : (sector : ℕ → ℕ → ℕ) → (rounds : ℕ) → File → (count pos : ℕ) → Outcome (List ℕ × ℕ)
devfs_read sector rounds filp count pos =
    if major_number filp.f_inode.i_no == block_dev then bdev_read sector rounds count pos else panic

pub devfs_write :
    (rounds : ℕ) → File → (src : ℕ → ℕ) → (count pos : ℕ) → Blocks → Outcome (Blocks × ℕ)
devfs_write rounds filp src count pos s =
    if major_number filp.f_inode.i_no == block_dev then bdev_write rounds src count pos s else panic

pub devfs_open : Inode → File → ℕ × File
devfs_open inode filp = (0, record { pos = 0; f_inode = inode })

pub devfs_release : Inode → File → ℕ
devfs_release inode filp = 0

-- "devfs", with zeros behind it.
abbrev pub devfs_name : Bytes
devfs_name i =
    if i == 0
    then 100
    else if i == 1
    then 101
    else if i == 2
    then 118
    else if i == 3
    then 102
    else if i == 4
    then 115
    else 0

-- `devfs_root` lies at an address. The function ends without a return statement.
pub devfs_read_super :
    (rounds : ℕ)
    → Vfs
    → (nodes : ℕ → Node) → (block_head devfs_inode_ops super_block : ℕ)
    → (devfs_super_ops root_addr : ℕ) → (devfs_root : Inode) → SuperBlock
    → Outcome (SuperBlock × Inode)
devfs_read_super rounds s nodes block_head devfs_inode_ops super_block devfs_super_ops root_addr
      devfs_root sb =
    type_of_super rounds s sb devfs_name 5 >>= λ fs_type.
    devfs_read_inode rounds nodes block_head devfs_inode_ops super_block devfs_root >>= λ root. ok (
      record sb { fs_type = fs_type; root = root_addr; sb_ops = devfs_super_ops },
      record root { i_no = 0 },
    )

-- Whatever its number, an inode keeps the permissions that it had: no device's are copied.
devfs_read_inode-permissions :
    (rounds : ℕ)
    → (nodes : ℕ → Node) → (block_head devfs_inode_ops super_block : ℕ) → (dest : Inode)
    → devfs_read_inode rounds nodes block_head devfs_inode_ops super_block dest
      ≡ ok (record dest {
        i_ops = devfs_inode_ops;
        i_sb = super_block;
        mount_point = false;
        counter = 0;
      })
unfolding devfs_read_inode
devfs_read_inode-permissions rounds nodes block_head devfs_inode_ops super_block dest =
    elim (Bool-cases (dest.i_no == block_dev)) [
      | inl three ↦ elim (Bool-cases (ltb 0 dest.i_no)) [
        | inl some ↦ rw (three, some) refl
        | inr zero_no ↦ rw (three, zero_no) refl
      ]
      | inr other ↦ elim (Bool-cases (ltb 0 dest.i_no)) [
        | inl some ↦ rw (other, some) refl
        | inr zero_no ↦ rw (other, zero_no) refl
      ]
    ]
