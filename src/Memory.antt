-- ===== src/Memory.antt =====
-- Kernel/utils/memory: the heap of the kernel.
pub mod Bitmap
pub mod Buddy
