-- ===== src/Kernel.antt =====
-- driver/, the guest's kernel module.
pub mod Sizes
pub mod Requests
pub mod Protocol
pub mod Memcpy
pub mod Ioctl
