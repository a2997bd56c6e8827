-- ===== src/Userspace.antt =====
-- src/userspace: the system calls.
pub mod Syscall
pub mod Time
