-- ===== src/Abi/Sysno.antt =====
-- include/sysno.h: the numbers of the system calls, and who has which.
use jrinx.Base.{ℕ, ◌+◌}

pub data Sysno : Type 0 where
  cons_write_char cons_read_char cons_write_buf : Sysno
  halt : Sysno
  get_partition_status set_partition_mode get_process_id : Sysno
  get_process_status create_process set_priority : Sysno
  suspend_self suspend resume : Sysno
  stop_self stop start : Sysno
  delayed_start lock_preemption unlock_preemption : Sysno
  get_my_id initialize_process_core_affinity get_my_processor_core_id : Sysno
  get_my_index : Sysno
  timed_wait periodic_wait get_time : Sysno
  replenish : Sysno
  create_sampling_port write_sampling_message read_sampling_message : Sysno
  get_sampling_port_id get_sampling_port_status : Sysno
  create_queuing_port send_queuing_message receive_queuing_message : Sysno
  get_queuing_port_id get_queuing_port_status clear_queuing_port : Sysno
  create_buffer send_buffer receive_buffer : Sysno
  get_buffer_id get_buffer_status : Sysno
  create_blackboard display_blackboard read_blackboard : Sysno
  clear_blackboard get_blackboard_id get_blackboard_status : Sysno
  create_semaphore wait_semaphore signal_semaphore : Sysno
  get_semaphore_id get_semaphore_status : Sysno
  create_event set_event reset_event : Sysno
  wait_event get_event_id get_event_status : Sysno
  create_mutex acquire_mutex release_mutex : Sysno
  reset_mutex get_mutex_id get_mutex_status : Sysno
  get_process_mutex_state : Sysno

abbrev pub number : Sysno → ℕ
number Sysno.cons_write_char = 1
number Sysno.cons_read_char = 2
number Sysno.cons_write_buf = 3
number Sysno.halt = 4
number Sysno.get_partition_status = 0x1000 + 0
number Sysno.set_partition_mode = 0x1000 + 1
number Sysno.get_process_id = 0x2000 + 0
number Sysno.get_process_status = 0x2000 + 1
number Sysno.create_process = 0x2000 + 2
number Sysno.set_priority = 0x2000 + 3
number Sysno.suspend_self = 0x2000 + 4
number Sysno.suspend = 0x2000 + 5
number Sysno.resume = 0x2000 + 6
number Sysno.stop_self = 0x2000 + 7
number Sysno.stop = 0x2000 + 8
number Sysno.start = 0x2000 + 9
number Sysno.delayed_start = 0x2000 + 10
number Sysno.lock_preemption = 0x2000 + 11
number Sysno.unlock_preemption = 0x2000 + 12
number Sysno.get_my_id = 0x2000 + 13
number Sysno.initialize_process_core_affinity = 0x2000 + 14
number Sysno.get_my_processor_core_id = 0x2000 + 15
number Sysno.get_my_index = 0x2000 + 16
number Sysno.timed_wait = 0x3000 + 0
number Sysno.periodic_wait = 0x3000 + 1
number Sysno.get_time = 0x3000 + 2
number Sysno.replenish = 0x3000 + 3
number Sysno.create_sampling_port = 0x4000 + 0
number Sysno.write_sampling_message = 0x4000 + 1
number Sysno.read_sampling_message = 0x4000 + 2
number Sysno.get_sampling_port_id = 0x4000 + 3
number Sysno.get_sampling_port_status = 0x4000 + 4
number Sysno.create_queuing_port = 0x4100 + 0
number Sysno.send_queuing_message = 0x4100 + 1
number Sysno.receive_queuing_message = 0x4100 + 2
number Sysno.get_queuing_port_id = 0x4100 + 3
number Sysno.get_queuing_port_status = 0x4100 + 4
number Sysno.clear_queuing_port = 0x4100 + 5
number Sysno.create_buffer = 0x5000 + 0
number Sysno.send_buffer = 0x5000 + 1
number Sysno.receive_buffer = 0x5000 + 2
number Sysno.get_buffer_id = 0x5000 + 3
number Sysno.get_buffer_status = 0x5000 + 4
number Sysno.create_blackboard = 0x5100 + 0
number Sysno.display_blackboard = 0x5100 + 1
number Sysno.read_blackboard = 0x5100 + 2
number Sysno.clear_blackboard = 0x5100 + 3
number Sysno.get_blackboard_id = 0x5100 + 4
number Sysno.get_blackboard_status = 0x5100 + 5
number Sysno.create_semaphore = 0x5200 + 0
number Sysno.wait_semaphore = 0x5200 + 1
number Sysno.signal_semaphore = 0x5200 + 2
number Sysno.get_semaphore_id = 0x5200 + 3
number Sysno.get_semaphore_status = 0x5200 + 4
number Sysno.create_event = 0x5300 + 0
number Sysno.set_event = 0x5300 + 1
number Sysno.reset_event = 0x5300 + 2
number Sysno.wait_event = 0x5300 + 3
number Sysno.get_event_id = 0x5300 + 4
number Sysno.get_event_status = 0x5300 + 5
number Sysno.create_mutex = 0x5400 + 0
number Sysno.acquire_mutex = 0x5400 + 1
number Sysno.release_mutex = 0x5400 + 2
number Sysno.reset_mutex = 0x5400 + 3
number Sysno.get_mutex_id = 0x5400 + 4
number Sysno.get_mutex_status = 0x5400 + 5
number Sysno.get_process_mutex_state = 0x5400 + 6
