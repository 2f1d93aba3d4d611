-- ===== src/Syscalls.antt =====
-- kern/traps/syscalls.c: the ARINC 653 services, each by what it does up to the point where it
-- returns or gives up the processor, and what it does when it is elected again.
pub mod Common
pub mod Partition
pub mod Process
pub mod Start
pub mod Delay
pub mod Console
pub mod Create
pub mod CreateProcess
pub mod Buffer
pub mod Blackboard
pub mod Queuing
pub mod Isolation
