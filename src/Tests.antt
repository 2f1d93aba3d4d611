-- ===== src/Tests.antt =====
-- The theorems applied to a small system (Tests/System).
mod System
mod Buffers
mod Tasks
mod Timers
mod Libs
mod Paging
mod Texts
mod Traps
mod Asids
mod Programs
mod Calls
