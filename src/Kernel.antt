-- ===== src/Kernel.antt =====
-- Services of the kernel, ayumos/kernel.
pub mod Ticks
pub mod Sched
pub mod Links
