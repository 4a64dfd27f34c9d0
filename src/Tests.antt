-- ===== src/Tests.antt =====
-- The theorems at concrete inputs.
mod Domain
mod Clients
mod Http
mod Injection
mod Kernel
mod Listings
mod Settings
mod Stores
