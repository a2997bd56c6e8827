-- ===== src/Tests/Files.antt =====
-- Strings, memory, and the file systems.
use saxon_os.Prelude.{
  ℕ, ◌+◌, ◌*◌, ◌/◌, ◌%◌, fault, ◌<◌, ◌≡◌, refl, arith, ◌⊎◌, ltb, ◌==◌, ◌||◌, ◌&&◌, Bool-cases, inl,
  inr, not, true, false, if◌then◌else◌, ok, [], ◌∷◌,
}
use saxon_os.Common.Strings.{Bytes, IsBytes, IsLength, strlen, strlen-IsLength}
use saxon_os.Common.Memory.{Memory}
use saxon_os.Fs.Vfs.{Vfs, success, failure, register_filesystem, unregister_filesystem}
use saxon_os.Fs.Vfs.Chain.{IsChain, has}
use saxon_os.Fs.Vfs.Register.{Registered, any_begins, register_filesystem_lem}
use saxon_os.Fs.Vfs.Unregister.{without, unregister_filesystem_lem}
use saxon_os.Fs.Devfs.{block_size, copied, chars_of, bdev_read, Blocks, bdev_write}
use saxon_os.Fs.Devfs.Read.{bdev_read-disk}
use saxon_os.Fs.Devfs.Store.{Written}
use saxon_os.Fs.Devfs.Write.{spills, bdev_write-Written, bdev_read-bdev_write}
use saxon_os.Fs.Ext2.{Superblock, Ext2, Sector, sector_size, read_inode}
use saxon_os.Fs.Ext2.Geometry.{IsGeometry, Fits}
use saxon_os.Fs.Ext2.Inode.{table_on, read_inode-disk}

-- "ext2" and "devfs", and zeros behind them.
abbrev ext2_name : Bytes
ext2_name i =
    if i == 0 then 101 else if i == 1 then 120 else if i == 2 then 116 else if i == 3 then 50 else 0

abbrev devfs_name : Bytes
devfs_name i = if i == 0 then 100 else if i == 1 then 101 else if ltb i 5 then 118 else 0

ext2_name-IsLength : IsLength ext2_name 4
ext2_name-IsLength = record { ends = refl; no_earlier = λ i h. ground arith }

strlen-IsLength_example : strlen 5 ext2_name ≡ ok 4
strlen-IsLength_example = strlen-IsLength 5 ext2_name 4 ext2_name-IsLength (omega arith)

ext2_name-IsBytes : IsBytes ext2_name
ext2_name-IsBytes i = ground arith

devfs_name-IsBytes : IsBytes devfs_name
devfs_name-IsBytes i = ground arith

-- Every byte holds its address.
abbrev addresses : Memory
addresses a = a

-- "devfs" is registered at address 1, "ext2" lies at address 2.
abbrev one_type : Vfs
one_type = record {
  file_systems = 1;
  types = λ p.
      if p == 2
      then record { name = ext2_name; next = 0 }
      else record { name = devfs_name; next = 0 };
}

one_type-Registered : Registered one_type (1 ∷ [])
one_type-Registered = record { chain = (refl, (λ e. omega arith), refl); distinct = (refl, tt) }

one_type-IsBytes : (p : ℕ) → IsBytes (one_type.types p).name
one_type-IsBytes p = elim (Bool-cases (p == 2)) [
  | inl here ↦ rw here ext2_name-IsBytes
  | inr other ↦ rw other devfs_name-IsBytes
]

register_filesystem_lem_example :
    let taken =
      not ((one_type.types 2).next == 0)
      || (ltb 0 4 && any_begins (one_type.types 2).name 4 one_type.types (1 ∷ [])) in
    (s' : Vfs) × (register_filesystem 6 2 one_type ≡ ok (if taken then failure else success, s'))
    × (((taken ≡ true) × (s' ≡ one_type))
        ⊎ ((taken ≡ false) × IsChain s'.types s'.file_systems (1 ∷ 2 ∷ [])))
register_filesystem_lem_example =
    register_filesystem_lem 6 2 one_type (1 ∷ []) 4 one_type-Registered (inl (omega arith))
      (λ e. omega arith) ext2_name-IsLength (omega arith) (omega arith) (omega arith)
      one_type-IsBytes

-- "devfs" is registered at address 1, and "ext2" at address 2 behind it.
abbrev two_types : Vfs
two_types = record {
  file_systems = 1;
  types = λ p.
      if p == 1
      then record { name = devfs_name; next = 2 }
      else record { name = ext2_name; next = 0 };
}

two_types-Registered : Registered two_types (1 ∷ 2 ∷ [])
two_types-Registered = record {
  chain = (refl, (λ e. omega arith), (refl, (λ e. omega arith), refl));
  distinct = (refl, (refl, tt));
}

unregister_filesystem_lem_example :
    (s' : Vfs) × (unregister_filesystem 6 2 two_types
      ≡ ok (if has 2 (1 ∷ 2 ∷ []) then success else failure, s'))
    × (((has 2 (1 ∷ 2 ∷ []) ≡ false) × (s' ≡ two_types))
        ⊎ ((has 2 (1 ∷ 2 ∷ []) ≡ true)
            × IsChain s'.types s'.file_systems (without 2 (1 ∷ 2 ∷ []))
            × ((s'.types 2).next ≡ 0)))
unregister_filesystem_lem_example =
    unregister_filesystem_lem 6 2 two_types (1 ∷ 2 ∷ []) two_types-Registered (omega arith)

-- Blocks of 1024 bytes with 8 inodes of 128 bytes.
abbrev small_volume : Ext2
small_volume = record {
  block_size = 1024;
  fragment_size = 1024;
  inode_count = 64;
  block_count = 256;
  blocks_per_group = 256;
  inodes_per_group = 64;
  block_group_count = 1;
  bgd_addr = 2;
  inode_size = 128;
  inodes_per_block = 8;
  dir_has_typefield = true;
}

small_volume-IsGeometry : IsGeometry small_volume
small_volume-IsGeometry = record {
  sectors = refl;
  inodes = refl;
  some_inodes = omega arith;
  inode_unit = refl;
  some_bytes = omega arith;
  some_group = omega arith;
  small_size = omega arith;
}

-- The first group's inode table is block 5, whose number stands at byte 8 of sector 4.
abbrev disk : ℕ → ℕ
disk a = if a == 2056 then 5 else if ltb a 4096 then 0 else a % 256

abbrev sector : ℕ → Sector
sector n o = disk (n * sector_size + o)

inode_12-Fits : Fits small_volume (table_on disk small_volume 0) 11
inode_12-Fits = record {
  small_index = omega arith;
  small_block = omega arith;
  small_sector = omega arith;
}

read_inode-disk_example :
    (bytes : ℕ → ℕ) × (read_inode sector small_volume (11 + 1) ≡ ok bytes)
    × ((i : ℕ)
        → i < 128
        → bytes i
          ≡ disk (
              table_on disk small_volume (11 / small_volume.inodes_per_group)
                * small_volume.block_size
              + 11 % small_volume.inodes_per_group * small_volume.inode_size
              + i))
read_inode-disk_example =
    read_inode-disk sector disk (λ n o h. refl) small_volume small_volume-IsGeometry 11
      (omega arith) (omega arith) (omega arith) inode_12-Fits

-- Ten bytes from the end of the first block on.
bdev_read-disk_example : bdev_read sector 11 10 510 ≡ (
    if ltb block_size (510 % block_size + chars_of 10)
    then fault
    else ok (copied disk 510 10, 510 + 10))
bdev_read-disk_example =
    bdev_read-disk sector disk (λ n o h. refl) 11 10 510 (omega arith) (omega arith) (omega arith)

-- A volume with blocks of 4096 bytes and inodes of 256.
abbrev super_4096 : Superblock
super_4096 = record {
  inode_count = 64;
  block_count = 256;
  block_size = 2;
  fragment_size = 2;
  blocks_per_group = 256;
  inodes_per_group = 64;
  ext2_signature = 0xEF53;
  major_version = 1;
  inode_size = 256;
  required_features = 2;
}

-- A cache of empty blocks, and 600 bytes to write from byte 1024 on.
abbrev empty_blocks : Blocks
empty_blocks = record { sector = λ b o. 0; dirty = λ b. false }

bdev_write-Written_example :
    ((spills 1024 600 ≡ true) × (bdev_write 601 addresses 600 1024 empty_blocks ≡ fault))
    ⊎ ((spills 1024 600 ≡ false)
        × ((s' : Blocks) × (bdev_write 601 addresses 600 1024 empty_blocks ≡ ok (s', 1024 + 600))
            × Written addresses 1024 600 empty_blocks s'))
bdev_write-Written_example =
    bdev_write-Written 601 addresses 600 1024 empty_blocks (omega arith) (omega arith) (omega arith)

bdev_read-bdev_write_example :
    (s' : Blocks) × (bdev_write 601 addresses 600 1024 empty_blocks ≡ ok (s', 1024 + 600))
    × (bdev_read s'.sector 601 600 1024 ≡ ok (copied addresses 0 600, 1024 + 600))
bdev_read-bdev_write_example =
    bdev_read-bdev_write 601 addresses 600 1024 empty_blocks (omega arith) (omega arith)
      (omega arith) refl
