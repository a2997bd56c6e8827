-- ===== src/Fs.antt =====
-- src/fs: the virtual file system and the ext2 file system.
pub mod Vfs
pub mod Ext2
pub mod Devfs
pub mod Mbr
pub mod Buffer
