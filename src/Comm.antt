-- ===== src/Comm.antt =====
-- Intra- and inter-partition communication: the objects' own operations. The services that call
-- them are in `Syscalls`.
pub mod Wait
pub mod Buffer
pub mod Blackboard
pub mod Queuing
pub mod Alloc
pub mod Channel
