-- ===== src/Core.antt =====
-- packages/core/src: the kernel that starts, serves and drains an application.
pub mod Phase
pub mod Units
pub mod Drain
pub mod Kernel
pub mod Exits
pub mod Health
pub mod Trace
