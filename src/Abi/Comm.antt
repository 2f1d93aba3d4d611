-- ===== src/Abi/Comm.antt =====
-- The system calls on buffers and blackboards, as include/user/sys makes them and as kern/traps/syscalls.c takes
-- them apart.
use jrinx.Base.{ℕ, List, [], ◌∷◌}
use jrinx.Types.{Time}
use jrinx.Abi.Registers.{Regs, syscall, of_time, to_enum, to_time}
use jrinx.Abi.Sysno.{Sysno, number}

-- The calls on buffers, each with the arguments of its service in order, without RETURN_CODE.
pub data BufferCall : Type 0 where
  create_buffer : ℕ → ℕ → ℕ → ℕ → ℕ → BufferCall
  send_buffer : ℕ → ℕ → ℕ → Time → BufferCall
  receive_buffer : ℕ → Time → ℕ → ℕ → BufferCall
  get_buffer_id : ℕ → ℕ → BufferCall
  get_buffer_status : ℕ → ℕ → BufferCall

abbrev pub sys_create_buffer : ℕ → ℕ → ℕ → ℕ → ℕ → Regs
sys_create_buffer buffer_name max_message_size max_nb_message queuing_discipline buffer_id =
    syscall (number Sysno.create_buffer) buffer_name max_message_size max_nb_message
      queuing_discipline buffer_id 0 0

abbrev pub sys_send_buffer : ℕ → ℕ → ℕ → Time → Regs
sys_send_buffer buffer_id message_addr length time_out =
    syscall (number Sysno.send_buffer) buffer_id message_addr length (of_time time_out) 0 0 0

abbrev pub sys_receive_buffer : ℕ → Time → ℕ → ℕ → Regs
sys_receive_buffer buffer_id time_out message_addr length =
    syscall (number Sysno.receive_buffer) buffer_id (of_time time_out) message_addr length 0 0 0

abbrev pub sys_get_buffer_id : ℕ → ℕ → Regs
sys_get_buffer_id buffer_name buffer_id =
    syscall (number Sysno.get_buffer_id) buffer_name buffer_id 0 0 0 0 0

abbrev pub sys_get_buffer_status : ℕ → ℕ → Regs
sys_get_buffer_status buffer_id buffer_status =
    syscall (number Sysno.get_buffer_status) buffer_id buffer_status 0 0 0 0 0

-- The services: each makes the call of its name, and `*RETURN_CODE` gets what the call returns.
abbrev pub user_buffer_call : BufferCall → Regs
user_buffer_call (create_buffer x y z u v) = sys_create_buffer x y z u v
user_buffer_call (send_buffer x y z u) = sys_send_buffer x y z u
user_buffer_call (receive_buffer x y z u) = sys_receive_buffer x y z u
user_buffer_call (get_buffer_id x y) = sys_get_buffer_id x y
user_buffer_call (get_buffer_status x y) = sys_get_buffer_status x y

-- The cases of `do_syscall` for them: which function is called with which registers.
abbrev pub buffer_cases : List (ℕ × (Regs → BufferCall))
buffer_cases =
    (number Sysno.create_buffer, λ r. create_buffer r.a0 r.a1 r.a2 (to_enum r.a3) r.a4)
    ∷ (number Sysno.send_buffer, λ r. send_buffer r.a0 r.a1 r.a2 (to_time r.a3))
    ∷ (number Sysno.receive_buffer, λ r. receive_buffer r.a0 (to_time r.a1) r.a2 r.a3)
    ∷ (number Sysno.get_buffer_id, λ r. get_buffer_id r.a0 r.a1)
    ∷ (number Sysno.get_buffer_status, λ r. get_buffer_status r.a0 r.a1)
    ∷ []

-- The calls on blackboards, each with the arguments of its service in order, without RETURN_CODE.
pub data BlackboardCall : Type 0 where
  create_blackboard : ℕ → ℕ → ℕ → BlackboardCall
  display_blackboard : ℕ → ℕ → ℕ → BlackboardCall
  read_blackboard : ℕ → Time → ℕ → ℕ → BlackboardCall
  clear_blackboard : ℕ → BlackboardCall
  get_blackboard_id : ℕ → ℕ → BlackboardCall
  get_blackboard_status : ℕ → ℕ → BlackboardCall

abbrev pub sys_create_blackboard : ℕ → ℕ → ℕ → Regs
sys_create_blackboard blackboard_name max_message_size blackboard_id =
    syscall (number Sysno.create_blackboard) blackboard_name max_message_size blackboard_id 0 0 0 0

abbrev pub sys_display_blackboard : ℕ → ℕ → ℕ → Regs
sys_display_blackboard blackboard_id message_addr length =
    syscall (number Sysno.display_blackboard) blackboard_id message_addr length 0 0 0 0

abbrev pub sys_read_blackboard : ℕ → Time → ℕ → ℕ → Regs
sys_read_blackboard blackboard_id time_out message_addr length =
    syscall (number Sysno.read_blackboard) blackboard_id (of_time time_out) message_addr length 0 0
      0

abbrev pub sys_clear_blackboard : ℕ → Regs
sys_clear_blackboard blackboard_id =
    syscall (number Sysno.clear_blackboard) blackboard_id 0 0 0 0 0 0

abbrev pub sys_get_blackboard_id : ℕ → ℕ → Regs
sys_get_blackboard_id blackboard_name blackboard_id =
    syscall (number Sysno.get_blackboard_id) blackboard_name blackboard_id 0 0 0 0 0

abbrev pub sys_get_blackboard_status : ℕ → ℕ → Regs
sys_get_blackboard_status blackboard_id blackboard_status =
    syscall (number Sysno.get_blackboard_status) blackboard_id blackboard_status 0 0 0 0 0

-- The services: each makes the call of its name, and `*RETURN_CODE` gets what the call returns.
abbrev pub user_blackboard_call : BlackboardCall → Regs
user_blackboard_call (create_blackboard x y z) = sys_create_blackboard x y z
user_blackboard_call (display_blackboard x y z) = sys_display_blackboard x y z
user_blackboard_call (read_blackboard x y z u) = sys_read_blackboard x y z u
user_blackboard_call (clear_blackboard x) = sys_clear_blackboard x
user_blackboard_call (get_blackboard_id x y) = sys_get_blackboard_id x y
user_blackboard_call (get_blackboard_status x y) = sys_get_blackboard_status x y

-- The cases of `do_syscall` for them: which function is called with which registers.
abbrev pub blackboard_cases : List (ℕ × (Regs → BlackboardCall))
blackboard_cases =
    (number Sysno.create_blackboard, λ r. create_blackboard r.a0 r.a1 r.a2)
    ∷ (number Sysno.display_blackboard, λ r. display_blackboard r.a0 r.a1 r.a2)
    ∷ (number Sysno.read_blackboard, λ r. read_blackboard r.a0 (to_time r.a1) r.a2 r.a3)
    ∷ (number Sysno.clear_blackboard, λ r. clear_blackboard r.a0)
    ∷ (number Sysno.get_blackboard_id, λ r. get_blackboard_id r.a0 r.a1)
    ∷ (number Sysno.get_blackboard_status, λ r. get_blackboard_status r.a0 r.a1)
    ∷ []
