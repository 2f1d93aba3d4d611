-- ===== src/Abi/Process.antt =====
-- The system calls on partitions, processes and time, as include/user/sys makes them and as kern/traps/syscalls.c takes
-- them apart.
use jrinx.Base.{ℕ, List, [], ◌∷◌}
use jrinx.Types.{Time}
use jrinx.Abi.Registers.{Regs, syscall, of_time, to_time}
use jrinx.Abi.Sysno.{Sysno, number}

-- The calls on partitions and processes, each with the arguments of its service in order, without RETURN_CODE.
pub data ProcessCall : Type 0 where
  get_partition_status : ℕ → ProcessCall
  set_partition_mode : ℕ → ProcessCall
  get_process_id : ℕ → ℕ → ProcessCall
  get_process_status : ℕ → ℕ → ProcessCall
  create_process : ℕ → ℕ → ProcessCall
  set_priority : ℕ → ℕ → ProcessCall
  suspend_self : Time → ProcessCall
  suspend : ℕ → ProcessCall
  resume : ℕ → ProcessCall
  stop_self : ProcessCall
  stop : ℕ → ProcessCall
  start : ℕ → ProcessCall
  delayed_start : ℕ → Time → ProcessCall
  lock_preemption : ℕ → ProcessCall
  unlock_preemption : ℕ → ProcessCall
  get_my_id : ℕ → ProcessCall
  initialize_process_core_affinity : ℕ → ℕ → ProcessCall
  get_my_processor_core_id : ℕ → ProcessCall
  get_my_index : ℕ → ProcessCall

abbrev pub sys_get_partition_status : ℕ → Regs
sys_get_partition_status partition_status =
    syscall (number Sysno.get_partition_status) partition_status 0 0 0 0 0 0

abbrev pub sys_set_partition_mode : ℕ → Regs
sys_set_partition_mode operating_mode =
    syscall (number Sysno.set_partition_mode) operating_mode 0 0 0 0 0 0

abbrev pub sys_get_process_id : ℕ → ℕ → Regs
sys_get_process_id process_name process_id =
    syscall (number Sysno.get_process_id) process_name process_id 0 0 0 0 0

abbrev pub sys_get_process_status : ℕ → ℕ → Regs
sys_get_process_status process_id process_status =
    syscall (number Sysno.get_process_status) process_id process_status 0 0 0 0 0

abbrev pub sys_create_process : ℕ → ℕ → Regs
sys_create_process attributes process_id =
    syscall (number Sysno.create_process) attributes process_id 0 0 0 0 0

abbrev pub sys_set_priority : ℕ → ℕ → Regs
sys_set_priority process_id priority =
    syscall (number Sysno.set_priority) process_id priority 0 0 0 0 0

abbrev pub sys_suspend_self : Time → Regs
sys_suspend_self time_out = syscall (number Sysno.suspend_self) (of_time time_out) 0 0 0 0 0 0

abbrev pub sys_suspend : ℕ → Regs
sys_suspend process_id = syscall (number Sysno.suspend) process_id 0 0 0 0 0 0

abbrev pub sys_resume : ℕ → Regs
sys_resume process_id = syscall (number Sysno.resume) process_id 0 0 0 0 0 0

abbrev pub sys_stop_self : Regs
sys_stop_self = syscall (number Sysno.stop_self) 0 0 0 0 0 0 0

abbrev pub sys_stop : ℕ → Regs
sys_stop process_id = syscall (number Sysno.stop) process_id 0 0 0 0 0 0

abbrev pub sys_start : ℕ → Regs
sys_start process_id = syscall (number Sysno.start) process_id 0 0 0 0 0 0

abbrev pub sys_delayed_start : ℕ → Time → Regs
sys_delayed_start process_id delay_time =
    syscall (number Sysno.delayed_start) process_id (of_time delay_time) 0 0 0 0 0

abbrev pub sys_lock_preemption : ℕ → Regs
sys_lock_preemption lock_level = syscall (number Sysno.lock_preemption) lock_level 0 0 0 0 0 0

abbrev pub sys_unlock_preemption : ℕ → Regs
sys_unlock_preemption lock_level = syscall (number Sysno.unlock_preemption) lock_level 0 0 0 0 0 0

abbrev pub sys_get_my_id : ℕ → Regs
sys_get_my_id process_id = syscall (number Sysno.get_my_id) process_id 0 0 0 0 0 0

abbrev pub sys_initialize_process_core_affinity : ℕ → ℕ → Regs
sys_initialize_process_core_affinity process_id processor_core_id =
    syscall (number Sysno.initialize_process_core_affinity) process_id processor_core_id 0 0 0 0 0

abbrev pub sys_get_my_processor_core_id : ℕ → Regs
sys_get_my_processor_core_id processor_core_id =
    syscall (number Sysno.get_my_processor_core_id) processor_core_id 0 0 0 0 0 0

abbrev pub sys_get_my_index : ℕ → Regs
sys_get_my_index process_index = syscall (number Sysno.get_my_index) process_index 0 0 0 0 0 0

-- The services: each makes the call of its name, and `*RETURN_CODE` gets what the call returns.
abbrev pub user_process_call : ProcessCall → Regs
user_process_call (get_partition_status x) = sys_get_partition_status x
user_process_call (set_partition_mode x) = sys_set_partition_mode x
user_process_call (get_process_id x y) = sys_get_process_id x y
user_process_call (get_process_status x y) = sys_get_process_status x y
user_process_call (create_process x y) = sys_create_process x y
user_process_call (set_priority x y) = sys_set_priority x y
user_process_call (suspend_self x) = sys_suspend_self x
user_process_call (suspend x) = sys_suspend x
user_process_call (resume x) = sys_resume x
user_process_call stop_self = sys_stop_self
user_process_call (stop x) = sys_stop x
user_process_call (start x) = sys_start x
user_process_call (delayed_start x y) = sys_delayed_start x y
user_process_call (lock_preemption x) = sys_lock_preemption x
user_process_call (unlock_preemption x) = sys_unlock_preemption x
user_process_call (get_my_id x) = sys_get_my_id x
user_process_call (initialize_process_core_affinity x y) = sys_initialize_process_core_affinity x y
user_process_call (get_my_processor_core_id x) = sys_get_my_processor_core_id x
user_process_call (get_my_index x) = sys_get_my_index x

-- The cases of `do_syscall` for them: which function is called with which registers.
abbrev pub process_cases : List (ℕ × (Regs → ProcessCall))
process_cases =
    (number Sysno.get_partition_status, λ r. get_partition_status r.a0)
    ∷ (number Sysno.set_partition_mode, λ r. set_partition_mode r.a0)
    ∷ (number Sysno.get_process_id, λ r. get_process_id r.a0 r.a1)
    ∷ (number Sysno.get_process_status, λ r. get_process_status r.a0 r.a1)
    ∷ (number Sysno.create_process, λ r. create_process r.a0 r.a1)
    ∷ (number Sysno.set_priority, λ r. set_priority r.a0 r.a1)
    ∷ (number Sysno.suspend_self, λ r. suspend_self (to_time r.a0))
    ∷ (number Sysno.suspend, λ r. suspend r.a0)
    ∷ (number Sysno.resume, λ r. resume r.a0)
    ∷ (number Sysno.stop_self, λ r. stop_self)
    ∷ (number Sysno.stop, λ r. stop r.a0)
    ∷ (number Sysno.start, λ r. start r.a0)
    ∷ (number Sysno.delayed_start, λ r. delayed_start r.a0 (to_time r.a1))
    ∷ (number Sysno.lock_preemption, λ r. lock_preemption r.a0)
    ∷ (number Sysno.unlock_preemption, λ r. unlock_preemption r.a0)
    ∷ (number Sysno.get_my_id, λ r. get_my_id r.a0)
    ∷ (
      number Sysno.initialize_process_core_affinity,
      λ r. initialize_process_core_affinity r.a0 r.a1,
    )
    ∷ (number Sysno.get_my_processor_core_id, λ r. get_my_processor_core_id r.a0)
    ∷ (number Sysno.get_my_index, λ r. get_my_index r.a0)
    ∷ []

-- The calls on time, each with the arguments of its service in order, without RETURN_CODE.
pub data TimeCall : Type 0 where
  timed_wait : Time → TimeCall
  periodic_wait : TimeCall
  get_time : ℕ → TimeCall
  replenish : Time → TimeCall

abbrev pub sys_timed_wait : Time → Regs
sys_timed_wait delay_time = syscall (number Sysno.timed_wait) (of_time delay_time) 0 0 0 0 0 0

abbrev pub sys_periodic_wait : Regs
sys_periodic_wait = syscall (number Sysno.periodic_wait) 0 0 0 0 0 0 0

abbrev pub sys_get_time : ℕ → Regs
sys_get_time system_time = syscall (number Sysno.get_time) system_time 0 0 0 0 0 0

abbrev pub sys_replenish : Time → Regs
sys_replenish budget_time = syscall (number Sysno.replenish) (of_time budget_time) 0 0 0 0 0 0

-- The services: each makes the call of its name, and `*RETURN_CODE` gets what the call returns.
abbrev pub user_time_call : TimeCall → Regs
user_time_call (timed_wait x) = sys_timed_wait x
user_time_call periodic_wait = sys_periodic_wait
user_time_call (get_time x) = sys_get_time x
user_time_call (replenish x) = sys_replenish x

-- The cases of `do_syscall` for them: which function is called with which registers.
abbrev pub time_cases : List (ℕ × (Regs → TimeCall))
time_cases =
    (number Sysno.timed_wait, λ r. timed_wait (to_time r.a0))
    ∷ (number Sysno.periodic_wait, λ r. periodic_wait)
    ∷ (number Sysno.get_time, λ r. get_time r.a0)
    ∷ (number Sysno.replenish, λ r. replenish (to_time r.a0))
    ∷ []
