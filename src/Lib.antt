-- ===== src/Lib.antt =====
-- A verification of the kernel of Jrinx, a partitioned real-time kernel with the services of
-- ARINC 653: processes, buffers, blackboards, queuing ports, time events and the scheduler.
--
-- Which file models what:
--   Types        include/types.h and the waiting reasons of include/kern/multitask/process.h
--   Lock         kern/lock/lock.c, kern/lock/spinlock.c
--   Circbuf      lib/circbuf.c; Circbuf/Fifo relates a ring to the queue that it stands for
--   Kernel       the state: the structs of include/kern/multitask, include/kern/comm,
--                include/kern/chan and include/kern/traps/timer.h
--   Comm         kern/comm/buffer.c, kern/comm/blackboard.c, kern/chan/queuing.c, kern/chan/channel.c,
--                with the creation of the objects in Comm/Alloc and Comm/Channel; Comm/Wait has the
--                queue of waiting processes that the buffers and the ports both keep
--   Timer        kern/traps/timer.c
--   Sched        kern/multitask/sched.c: the election of a process, the switch to it, the table of
--                partition windows (Sched/Modules) and its launch (Sched/Launch)
--   Syscalls     kern/traps/syscalls.c, one file for each group of services; a definition has the
--                name of the C function. Syscalls/CreateProcess has `proc_alloc` of
--                kern/multitask/process.c, Syscalls/Console the serial port of
--                kern/drivers/serialport.c
--   Abi          the system call interface: include/sysno.h (Abi/Sysno), the wrappers and services
--                of include/user/sys and the cases of `do_syscall` (one file for each group of
--                calls), the dispatch (Abi/Dispatch, Abi/Received) and the calls carried out by the
--                services (Abi/Serve)
--   Hashmap      lib/hashmap.c and the hlist of include/list.h; Hashmap/Finite shows a finite map
--   Arithmetic   lib/arithmetic.c
--   Frames       kern/mm/pmm.c: page frames, their counts and free lists
--   Heap         kern/mm/kalloc.c: the kernel heap, kfree in Heap/Free, the invariant in Heap/Tiling
--   Paging       kern/mm/vmm.c: the page tables in memory (Paging/Tree, Paging/Grow), the walk
--                (Paging/Walk), and mapping against the translation (Paging/Map); what they need of
--                a frame allocator is the record FrameLaws, which Paging/Allocators fills for the one
--                that runs at boot
--   Strings      lib/string.c: numbers in texts
--   Config       kern/lib/bootargs.c: the texts that configure windows (Config/Windows), queuing
--                ports and channels (Config/Channels)
--   Traps        kern/traps/traps.c: sections without interrupts (Traps/Sections) and the contexts of
--                nested traps (Traps/Nested)
--   Bits         include/bitset.h and include/bitmap.h: the lowest bit of a word, bitmaps
--   Asid         kern/mm/asid.c, and the renewal of identifiers in kern/multitask/process.c
--   Elf          lib/elfloader.c: the pages of a segment, for any function that maps them
--   Tests        the theorems on a small system
--
-- How the parts interact: a service finds an object of the running partition by its identifier,
-- takes the object's lock, works on the object through the operations of Comm, wakes waiting
-- processes up or queues the running one, allocates or frees time events, opens the lock and calls
-- `sched_proc_give_up`. The timer interrupt runs `time_event_action`, which makes processes ready
-- and takes them out of the queues they wait in.
--
-- How the code is modelled:
--   * The state is that of one hart; outside Heap, `kalloc` always gives memory. A pointer is the
--     identifier of the object it points to, the maps by identifier and by name are finite stores,
--     and linked lists are lists.
--   * `none` is a panic, a NULL dereference or a spin on a lock that is held. What `sched_launch`
--     reads through NULL behind the last window is a parameter, `none` where the read faults.
--   * A service runs up to the point where it comes back or gives the processor up. What follows
--     when its process is elected again is a definition of its own, `resume_...`, and the data type
--     `Resume` holds what the service keeps in its local variables, so that a blocking loop is a
--     sequence of such runs and needs no fuel. `sched_proc_give_up` itself is in Sched.
--   * The boot time is an oracle: `clock n` is the reading number n, and `reads` counts the readings
--     made. Nothing is assumed about the readings. Sums of times wrap around at 64 bits.
--   * A message is the list of its bytes. The rings of messages have byte offsets of 64 bits, whose
--     wrap-around is written out; an element of a ring is a whole message.
--   * The loops over lists and queues are structural recursions. The election loops until a process
--     can be elected, which only an interrupt can bring about: the definition is one round of it,
--     and gives `none` where the code goes round again.
--   * A system call goes through registers of 64 bits: signed arguments by two's complement,
--     enumerations by their low 32 bits. What the caller's memory holds behind a pointer is an
--     argument of the definitions, and what a service writes there is a list of writes.
--   * The loops of the console services that try again run on fuel, enough of which is as many rounds
--     as the device may refuse a byte in a row; the loop of `gcd` gets as many rounds as its second
--     argument is large, and one.
--
-- Not modelled: the pages of stacks and rings, the loops that map the kernel itself, the switch of
-- contexts in `proc_run`, boot, how programs are found, drivers, string formatting, and the
-- programs of the user. What these do is not assumed anywhere. The services that have no body yet
-- return NO_ERROR, as in the source.
pub mod Base
pub mod Types
pub mod Lock
pub mod Circbuf
pub mod Kernel
pub mod Timer
pub mod Comm
pub mod Sched
pub mod Syscalls
pub mod Abi
pub mod Arithmetic
pub mod Hashmap
pub mod Frames
pub mod Heap
pub mod Paging
pub mod Strings
pub mod Config
pub mod Traps
pub mod Bits
pub mod Asid
pub mod Elf
pub mod Tests
