-- ===== src/Abi/Ports.antt =====
-- The system calls on ports, as include/user/sys makes them and as kern/traps/syscalls.c takes
-- them apart.
use jrinx.Base.{ℕ, List, [], ◌∷◌}
use jrinx.Types.{Time}
use jrinx.Abi.Registers.{Regs, syscall, of_time, to_enum, to_time}
use jrinx.Abi.Sysno.{Sysno, number}

-- The calls on sampling ports, each with the arguments of its service in order, without RETURN_CODE.
pub data SamplingCall : Type 0 where
  create_sampling_port : ℕ → ℕ → ℕ → Time → ℕ → SamplingCall
  write_sampling_message : ℕ → ℕ → ℕ → SamplingCall
  read_sampling_message : ℕ → ℕ → ℕ → ℕ → SamplingCall
  get_sampling_port_id : ℕ → ℕ → SamplingCall
  get_sampling_port_status : ℕ → ℕ → SamplingCall

abbrev pub sys_create_sampling_port : ℕ → ℕ → ℕ → Time → ℕ → Regs
sys_create_sampling_port sampling_port_name max_message_size port_direction refresh_period
      sampling_port_id =
    syscall (number Sysno.create_sampling_port) sampling_port_name max_message_size port_direction
      (of_time refresh_period) sampling_port_id 0 0

abbrev pub sys_write_sampling_message : ℕ → ℕ → ℕ → Regs
sys_write_sampling_message sampling_port_id message_addr length =
    syscall (number Sysno.write_sampling_message) sampling_port_id message_addr length 0 0 0 0

abbrev pub sys_read_sampling_message : ℕ → ℕ → ℕ → ℕ → Regs
sys_read_sampling_message sampling_port_id message_addr length validity =
    syscall (number Sysno.read_sampling_message) sampling_port_id message_addr 0 length validity 0 0

abbrev pub sys_get_sampling_port_id : ℕ → ℕ → Regs
sys_get_sampling_port_id sampling_port_name sampling_port_id =
    syscall (number Sysno.get_sampling_port_id) sampling_port_name sampling_port_id 0 0 0 0 0

abbrev pub sys_get_sampling_port_status : ℕ → ℕ → Regs
sys_get_sampling_port_status sampling_port_id sampling_port_status =
    syscall (number Sysno.get_sampling_port_status) sampling_port_id sampling_port_status 0 0 0 0 0

-- The services: each makes the call of its name, and `*RETURN_CODE` gets what the call returns.
abbrev pub user_sampling_call : SamplingCall → Regs
user_sampling_call (create_sampling_port x y z u v) = sys_create_sampling_port x y z u v
user_sampling_call (write_sampling_message x y z) = sys_write_sampling_message x y z
user_sampling_call (read_sampling_message x y z u) = sys_read_sampling_message x y z u
user_sampling_call (get_sampling_port_id x y) = sys_get_sampling_port_id x y
user_sampling_call (get_sampling_port_status x y) = sys_get_sampling_port_status x y

-- The cases of `do_syscall` for them: which function is called with which registers.
abbrev pub sampling_cases : List (ℕ × (Regs → SamplingCall))
sampling_cases =
    (
      number Sysno.create_sampling_port,
      λ r. create_sampling_port r.a0 r.a1 (to_enum r.a2) (to_time r.a3) r.a4,
    )
    ∷ (number Sysno.write_sampling_message, λ r. write_sampling_message r.a0 r.a1 r.a2)
    ∷ (number Sysno.read_sampling_message, λ r. read_sampling_message r.a0 r.a1 r.a2 r.a3)
    ∷ (number Sysno.get_sampling_port_id, λ r. get_sampling_port_id r.a0 r.a1)
    ∷ (number Sysno.get_sampling_port_status, λ r. get_sampling_port_status r.a0 r.a1)
    ∷ []

-- The calls on queuing ports, each with the arguments of its service in order, without RETURN_CODE.
pub data QueuingCall : Type 0 where
  create_queuing_port : ℕ → ℕ → ℕ → ℕ → ℕ → ℕ → QueuingCall
  send_queuing_message : ℕ → ℕ → ℕ → Time → QueuingCall
  receive_queuing_message : ℕ → Time → ℕ → ℕ → QueuingCall
  get_queuing_port_id : ℕ → ℕ → QueuingCall
  get_queuing_port_status : ℕ → ℕ → QueuingCall
  clear_queuing_port : ℕ → QueuingCall

abbrev pub sys_create_queuing_port : ℕ → ℕ → ℕ → ℕ → ℕ → ℕ → Regs
sys_create_queuing_port queuing_port_name max_message_size max_nb_message port_direction
      queuing_discipline queuing_port_id =
    syscall (number Sysno.create_queuing_port) queuing_port_name max_message_size max_nb_message
      port_direction queuing_discipline queuing_port_id 0

abbrev pub sys_send_queuing_message : ℕ → ℕ → ℕ → Time → Regs
sys_send_queuing_message queuing_port_id message_addr length time_out =
    syscall (number Sysno.send_queuing_message) queuing_port_id message_addr length
      (of_time time_out) 0 0 0

abbrev pub sys_receive_queuing_message : ℕ → Time → ℕ → ℕ → Regs
sys_receive_queuing_message queuing_port_id time_out message_addr length =
    syscall (number Sysno.receive_queuing_message) queuing_port_id (of_time time_out) message_addr
      length 0 0 0

abbrev pub sys_get_queuing_port_id : ℕ → ℕ → Regs
sys_get_queuing_port_id queuing_port_name queuing_port_id =
    syscall (number Sysno.get_queuing_port_id) queuing_port_name queuing_port_id 0 0 0 0 0

abbrev pub sys_get_queuing_port_status : ℕ → ℕ → Regs
sys_get_queuing_port_status queuing_port_id queuing_port_status =
    syscall (number Sysno.get_queuing_port_status) queuing_port_id queuing_port_status 0 0 0 0 0

abbrev pub sys_clear_queuing_port : ℕ → Regs
sys_clear_queuing_port queuing_port_id =
    syscall (number Sysno.clear_queuing_port) queuing_port_id 0 0 0 0 0 0

-- The services: each makes the call of its name, and `*RETURN_CODE` gets what the call returns.
abbrev pub user_queuing_call : QueuingCall → Regs
user_queuing_call (create_queuing_port x y z u v w) = sys_create_queuing_port x y z u v w
user_queuing_call (send_queuing_message x y z u) = sys_send_queuing_message x y z u
user_queuing_call (receive_queuing_message x y z u) = sys_receive_queuing_message x y z u
user_queuing_call (get_queuing_port_id x y) = sys_get_queuing_port_id x y
user_queuing_call (get_queuing_port_status x y) = sys_get_queuing_port_status x y
user_queuing_call (clear_queuing_port x) = sys_clear_queuing_port x

-- The cases of `do_syscall` for them: which function is called with which registers.
abbrev pub queuing_cases : List (ℕ × (Regs → QueuingCall))
queuing_cases =
    (
      number Sysno.create_queuing_port,
      λ r. create_queuing_port r.a0 r.a1 r.a2 (to_enum r.a3) (to_enum r.a4) r.a5,
    )
    ∷ (number Sysno.send_queuing_message, λ r. send_queuing_message r.a0 r.a1 r.a2 (to_time r.a3))
    ∷ (
      number Sysno.receive_queuing_message,
      λ r. receive_queuing_message r.a0 (to_time r.a1) r.a2 r.a3,
    )
    ∷ (number Sysno.get_queuing_port_id, λ r. get_queuing_port_id r.a0 r.a1)
    ∷ (number Sysno.get_queuing_port_status, λ r. get_queuing_port_status r.a0 r.a1)
    ∷ (number Sysno.clear_queuing_port, λ r. clear_queuing_port r.a0)
    ∷ []
