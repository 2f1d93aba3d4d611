-- ===== src/Abi/Sync.antt =====
-- The system calls on semaphores, events and mutexes, as include/user/sys makes them and as kern/traps/syscalls.c takes
-- them apart.
use jrinx.Base.{ℕ, List, [], ◌∷◌}
use jrinx.Types.{Time}
use jrinx.Abi.Registers.{Regs, syscall, of_time, to_enum, to_time}
use jrinx.Abi.Sysno.{Sysno, number}

-- The calls on semaphores, each with the arguments of its service in order, without RETURN_CODE.
pub data SemaphoreCall : Type 0 where
  create_semaphore : ℕ → ℕ → ℕ → ℕ → ℕ → SemaphoreCall
  wait_semaphore : ℕ → Time → SemaphoreCall
  signal_semaphore : ℕ → SemaphoreCall
  get_semaphore_id : ℕ → ℕ → SemaphoreCall
  get_semaphore_status : ℕ → ℕ → SemaphoreCall

abbrev pub sys_create_semaphore : ℕ → ℕ → ℕ → ℕ → ℕ → Regs
sys_create_semaphore semaphore_name current_value maximum_value queuing_discipline semaphore_id =
    syscall (number Sysno.create_semaphore) semaphore_name current_value maximum_value
      queuing_discipline semaphore_id 0 0

abbrev pub sys_wait_semaphore : ℕ → Time → Regs
sys_wait_semaphore semaphore_id time_out =
    syscall (number Sysno.wait_semaphore) semaphore_id (of_time time_out) 0 0 0 0 0

abbrev pub sys_signal_semaphore : ℕ → Regs
sys_signal_semaphore semaphore_id = syscall (number Sysno.signal_semaphore) semaphore_id 0 0 0 0 0 0

abbrev pub sys_get_semaphore_id : ℕ → ℕ → Regs
sys_get_semaphore_id semaphore_name semaphore_id =
    syscall (number Sysno.get_semaphore_id) semaphore_name semaphore_id 0 0 0 0 0

abbrev pub sys_get_semaphore_status : ℕ → ℕ → Regs
sys_get_semaphore_status semaphore_id semaphore_status =
    syscall (number Sysno.get_semaphore_status) semaphore_id semaphore_status 0 0 0 0 0

-- The services: each makes the call of its name, and `*RETURN_CODE` gets what the call returns.
abbrev pub user_semaphore_call : SemaphoreCall → Regs
user_semaphore_call (create_semaphore x y z u v) = sys_create_semaphore x y z u v
user_semaphore_call (wait_semaphore x y) = sys_wait_semaphore x y
user_semaphore_call (signal_semaphore x) = sys_signal_semaphore x
user_semaphore_call (get_semaphore_id x y) = sys_get_semaphore_id x y
user_semaphore_call (get_semaphore_status x y) = sys_get_semaphore_status x y

-- The cases of `do_syscall` for them: which function is called with which registers.
abbrev pub semaphore_cases : List (ℕ × (Regs → SemaphoreCall))
semaphore_cases =
    (number Sysno.create_semaphore, λ r. create_semaphore r.a0 r.a1 r.a2 (to_enum r.a3) r.a4)
    ∷ (number Sysno.wait_semaphore, λ r. wait_semaphore r.a0 (to_time r.a1))
    ∷ (number Sysno.signal_semaphore, λ r. signal_semaphore r.a0)
    ∷ (number Sysno.get_semaphore_id, λ r. get_semaphore_id r.a0 r.a1)
    ∷ (number Sysno.get_semaphore_status, λ r. get_semaphore_status r.a0 r.a1)
    ∷ []

-- The calls on events, each with the arguments of its service in order, without RETURN_CODE.
pub data EventCall : Type 0 where
  create_event : ℕ → ℕ → EventCall
  set_event : ℕ → EventCall
  reset_event : ℕ → EventCall
  wait_event : ℕ → Time → EventCall
  get_event_id : ℕ → ℕ → EventCall
  get_event_status : ℕ → ℕ → EventCall

abbrev pub sys_create_event : ℕ → ℕ → Regs
sys_create_event event_name event_id =
    syscall (number Sysno.create_event) event_name event_id 0 0 0 0 0

abbrev pub sys_set_event : ℕ → Regs
sys_set_event event_id = syscall (number Sysno.set_event) event_id 0 0 0 0 0 0

abbrev pub sys_reset_event : ℕ → Regs
sys_reset_event event_id = syscall (number Sysno.reset_event) event_id 0 0 0 0 0 0

abbrev pub sys_wait_event : ℕ → Time → Regs
sys_wait_event event_id time_out =
    syscall (number Sysno.wait_event) event_id (of_time time_out) 0 0 0 0 0

abbrev pub sys_get_event_id : ℕ → ℕ → Regs
sys_get_event_id event_name event_id =
    syscall (number Sysno.get_event_id) event_name event_id 0 0 0 0 0

abbrev pub sys_get_event_status : ℕ → ℕ → Regs
sys_get_event_status event_id event_status =
    syscall (number Sysno.get_event_status) event_id event_status 0 0 0 0 0

-- The services: each makes the call of its name, and `*RETURN_CODE` gets what the call returns.
abbrev pub user_event_call : EventCall → Regs
user_event_call (create_event x y) = sys_create_event x y
user_event_call (set_event x) = sys_set_event x
user_event_call (reset_event x) = sys_reset_event x
user_event_call (wait_event x y) = sys_wait_event x y
user_event_call (get_event_id x y) = sys_get_event_id x y
user_event_call (get_event_status x y) = sys_get_event_status x y

-- The cases of `do_syscall` for them: which function is called with which registers.
abbrev pub event_cases : List (ℕ × (Regs → EventCall))
event_cases =
    (number Sysno.create_event, λ r. create_event r.a0 r.a1)
    ∷ (number Sysno.set_event, λ r. set_event r.a0)
    ∷ (number Sysno.reset_event, λ r. reset_event r.a0)
    ∷ (number Sysno.wait_event, λ r. wait_event r.a0 (to_time r.a1))
    ∷ (number Sysno.get_event_id, λ r. get_event_id r.a0 r.a1)
    ∷ (number Sysno.get_event_status, λ r. get_event_status r.a0 r.a1)
    ∷ []

-- The calls on mutexes, each with the arguments of its service in order, without RETURN_CODE.
pub data MutexCall : Type 0 where
  create_mutex : ℕ → ℕ → ℕ → ℕ → MutexCall
  acquire_mutex : ℕ → Time → MutexCall
  release_mutex : ℕ → MutexCall
  reset_mutex : ℕ → ℕ → MutexCall
  get_mutex_id : ℕ → ℕ → MutexCall
  get_mutex_status : ℕ → ℕ → MutexCall
  get_process_mutex_state : ℕ → ℕ → MutexCall

abbrev pub sys_create_mutex : ℕ → ℕ → ℕ → ℕ → Regs
sys_create_mutex mutex_name mutex_priority queuing_discipline mutex_id =
    syscall (number Sysno.create_mutex) mutex_name mutex_priority queuing_discipline mutex_id 0 0 0

abbrev pub sys_acquire_mutex : ℕ → Time → Regs
sys_acquire_mutex mutex_id time_out =
    syscall (number Sysno.acquire_mutex) mutex_id (of_time time_out) 0 0 0 0 0

abbrev pub sys_release_mutex : ℕ → Regs
sys_release_mutex mutex_id = syscall (number Sysno.release_mutex) mutex_id 0 0 0 0 0 0

abbrev pub sys_reset_mutex : ℕ → ℕ → Regs
sys_reset_mutex mutex_id process_id =
    syscall (number Sysno.reset_mutex) mutex_id process_id 0 0 0 0 0

abbrev pub sys_get_mutex_id : ℕ → ℕ → Regs
sys_get_mutex_id mutex_name mutex_id =
    syscall (number Sysno.get_mutex_id) mutex_name mutex_id 0 0 0 0 0

abbrev pub sys_get_mutex_status : ℕ → ℕ → Regs
sys_get_mutex_status mutex_id mutex_status =
    syscall (number Sysno.get_mutex_status) mutex_id mutex_status 0 0 0 0 0

abbrev pub sys_get_process_mutex_state : ℕ → ℕ → Regs
sys_get_process_mutex_state process_id mutex_id =
    syscall (number Sysno.get_process_mutex_state) process_id mutex_id 0 0 0 0 0

-- The services: each makes the call of its name, and `*RETURN_CODE` gets what the call returns.
abbrev pub user_mutex_call : MutexCall → Regs
user_mutex_call (create_mutex x y z u) = sys_create_mutex x y z u
user_mutex_call (acquire_mutex x y) = sys_acquire_mutex x y
user_mutex_call (release_mutex x) = sys_release_mutex x
user_mutex_call (reset_mutex x y) = sys_reset_mutex x y
user_mutex_call (get_mutex_id x y) = sys_get_mutex_id x y
user_mutex_call (get_mutex_status x y) = sys_get_mutex_status x y
user_mutex_call (get_process_mutex_state x y) = sys_get_process_mutex_state x y

-- The cases of `do_syscall` for them: which function is called with which registers.
abbrev pub mutex_cases : List (ℕ × (Regs → MutexCall))
mutex_cases =
    (number Sysno.create_mutex, λ r. create_mutex r.a0 r.a1 (to_enum r.a2) r.a3)
    ∷ (number Sysno.acquire_mutex, λ r. acquire_mutex r.a0 (to_time r.a1))
    ∷ (number Sysno.release_mutex, λ r. release_mutex r.a0)
    ∷ (number Sysno.reset_mutex, λ r. reset_mutex r.a0 r.a1)
    ∷ (number Sysno.get_mutex_id, λ r. get_mutex_id r.a0 r.a1)
    ∷ (number Sysno.get_mutex_status, λ r. get_mutex_status r.a0 r.a1)
    ∷ (number Sysno.get_process_mutex_state, λ r. get_process_mutex_state r.a0 r.a1)
    ∷ []
