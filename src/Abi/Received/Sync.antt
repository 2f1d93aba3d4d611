-- ===== src/Abi/Received/Sync.antt =====
-- The system calls of Abi/Sync as the kernel receives them.
use jrinx.Base.{◌≡◌, some, refl, ap}
use jrinx.Types.{IsTime}
use jrinx.Abi.Registers.{IsEnum, to_enum_lem, to_time-of_time}
use jrinx.Abi.Sync.{
  SemaphoreCall, user_semaphore_call, EventCall, user_event_call, MutexCall, user_mutex_call,
}
use jrinx.Abi.Dispatch.{switch, semaphore, event, mutex}

-- The arguments are values of their types: what is narrower than a register or signed is in range.
abbrev pub SemaphoreRanges : SemaphoreCall → Type 0
SemaphoreRanges (SemaphoreCall.create_semaphore x y z u v) = IsEnum u
SemaphoreRanges (SemaphoreCall.wait_semaphore x y) = IsTime y
SemaphoreRanges (SemaphoreCall.signal_semaphore x) = Unit
SemaphoreRanges (SemaphoreCall.get_semaphore_id x y) = Unit
SemaphoreRanges (SemaphoreCall.get_semaphore_status x y) = Unit

pub do_semaphore_call :
    (c : SemaphoreCall) → SemaphoreRanges c → switch (user_semaphore_call c) ≡ some (semaphore c)
do_semaphore_call (SemaphoreCall.create_semaphore x y z u v) h =
    ap (λ q. some (semaphore (SemaphoreCall.create_semaphore x y z q v))) (to_enum_lem u h)
do_semaphore_call (SemaphoreCall.wait_semaphore x y) h =
    ap (λ q. some (semaphore (SemaphoreCall.wait_semaphore x q))) (to_time-of_time y h)
do_semaphore_call (SemaphoreCall.signal_semaphore x) h = refl
do_semaphore_call (SemaphoreCall.get_semaphore_id x y) h = refl
do_semaphore_call (SemaphoreCall.get_semaphore_status x y) h = refl

-- The arguments are values of their types: what is narrower than a register or signed is in range.
abbrev pub EventRanges : EventCall → Type 0
EventRanges (EventCall.create_event x y) = Unit
EventRanges (EventCall.set_event x) = Unit
EventRanges (EventCall.reset_event x) = Unit
EventRanges (EventCall.wait_event x y) = IsTime y
EventRanges (EventCall.get_event_id x y) = Unit
EventRanges (EventCall.get_event_status x y) = Unit

pub do_event_call : (c : EventCall) → EventRanges c → switch (user_event_call c) ≡ some (event c)
do_event_call (EventCall.create_event x y) h = refl
do_event_call (EventCall.set_event x) h = refl
do_event_call (EventCall.reset_event x) h = refl
do_event_call (EventCall.wait_event x y) h =
    ap (λ q. some (event (EventCall.wait_event x q))) (to_time-of_time y h)
do_event_call (EventCall.get_event_id x y) h = refl
do_event_call (EventCall.get_event_status x y) h = refl

-- The arguments are values of their types: what is narrower than a register or signed is in range.
abbrev pub MutexRanges : MutexCall → Type 0
MutexRanges (MutexCall.create_mutex x y z u) = IsEnum z
MutexRanges (MutexCall.acquire_mutex x y) = IsTime y
MutexRanges (MutexCall.release_mutex x) = Unit
MutexRanges (MutexCall.reset_mutex x y) = Unit
MutexRanges (MutexCall.get_mutex_id x y) = Unit
MutexRanges (MutexCall.get_mutex_status x y) = Unit
MutexRanges (MutexCall.get_process_mutex_state x y) = Unit

pub do_mutex_call : (c : MutexCall) → MutexRanges c → switch (user_mutex_call c) ≡ some (mutex c)
do_mutex_call (MutexCall.create_mutex x y z u) h =
    ap (λ q. some (mutex (MutexCall.create_mutex x y q u))) (to_enum_lem z h)
do_mutex_call (MutexCall.acquire_mutex x y) h =
    ap (λ q. some (mutex (MutexCall.acquire_mutex x q))) (to_time-of_time y h)
do_mutex_call (MutexCall.release_mutex x) h = refl
do_mutex_call (MutexCall.reset_mutex x y) h = refl
do_mutex_call (MutexCall.get_mutex_id x y) h = refl
do_mutex_call (MutexCall.get_mutex_status x y) h = refl
do_mutex_call (MutexCall.get_process_mutex_state x y) h = refl
