-- ===== src/Core.antt =====
-- The program that runs right after the machine wakes (core/): it stores or switches the memory.
pub mod Header
pub mod Disk
pub mod Dump
pub mod Alloc
pub mod Virtio
pub mod Main
