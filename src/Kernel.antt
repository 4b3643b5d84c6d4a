-- ===== src/Kernel.antt =====
-- src/kernel and src/kernel-impl/memory: the in-memory backends of the kernel's interfaces.
pub mod Queue
pub mod Lock
pub mod Leader
mod Secret
pub mod Cache
pub mod Storage
pub mod EventBus
