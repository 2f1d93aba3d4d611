-- ===== src/Abi.antt =====
-- The system call interface: include/sysno.h, include/user/sys and `do_syscall`.
pub mod Registers
pub mod Sysno
pub mod Console
pub mod Process
pub mod Ports
pub mod Comm
pub mod Sync
pub mod Dispatch
pub mod Received
pub mod Serve
