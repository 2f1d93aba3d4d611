-- ===== src/Abi/Serve/Groups.antt =====
-- Each group of calls carried out.
use jrinx.Base.{ℕ, none, some, [], ◌∷◌, Option}
use jrinx.Base.Int.{pos}
use jrinx.Types.{no_error, invalid_config}
use jrinx.Kernel.{◌>>=◌}
use jrinx.Abi.Serve.{
  User, World, Reply, returned, word_to, time_to, partition_status_to, process_status_to,
  buffer_status_to, blackboard_status_to, queuing_port_status_to, reply, reply_step, reply_receive,
  reply_creation, reply_read, que_disc_of, port_dir_of,
}
use jrinx.Abi.Dispatch.{
  Call, console, process, time, sampling, queuing, buffer, blackboard, semaphore, event, mutex,
}
use jrinx.Abi.Console.{ConsoleCall}
use jrinx.Abi.Process.{ProcessCall, TimeCall}
use jrinx.Abi.Ports.{SamplingCall, QueuingCall}
use jrinx.Abi.Comm.{BufferCall, BlackboardCall}
use jrinx.Abi.Sync.{SemaphoreCall, EventCall, MutexCall}
use jrinx.Syscalls.Console.{do_cons_write_char, do_cons_read_char, do_cons_write_buf}
use jrinx.Syscalls.Create.{do_create_buffer, do_create_blackboard, do_create_queuing_port}
use jrinx.Syscalls.CreateProcess.{do_create_process}
use jrinx.Syscalls.Partition.{do_get_partition_status, do_set_partition_mode}
use jrinx.Syscalls.Process.{
  do_get_process_id, do_get_process_status, do_set_priority, do_suspend_self, do_suspend, do_resume,
  do_stop_self, do_stop, do_get_my_id, do_get_my_index,
}
use jrinx.Syscalls.Start.{do_start, do_delayed_start}
use jrinx.Syscalls.Delay.{do_timed_wait, do_get_time}
use jrinx.Syscalls.Buffer.{
  do_send_buffer, do_receive_buffer, do_get_buffer_id, do_get_buffer_status,
}
use jrinx.Syscalls.Blackboard.{
  do_display_blackboard, do_read_blackboard, do_clear_blackboard, do_get_blackboard_id,
  do_get_blackboard_status,
}
use jrinx.Syscalls.Queuing.{
  do_send_queuing_message, do_receive_queuing_message, do_get_queuing_port_id,
  do_get_queuing_port_status, do_clear_queuing_port,
}

-- `halt` ends the run; the loops that try again get `fuel` rounds.
unfoldable pub serve_console : ℕ → User → ConsoleCall → World → Option Reply
serve_console fuel u (ConsoleCall.cons_write_char ch) w = do
  s ← do_cons_write_char w.kernel.hart fuel ch w.serial
  reply (record w { serial = s }) no_error []
serve_console fuel u ConsoleCall.cons_read_char w = do
  r ← do_cons_read_char w.kernel.hart fuel w.serial
  some (record { progress = returned (pos r.0); writes = []; world = record w { serial = r.1 } })
serve_console fuel u (ConsoleCall.cons_write_buf buf len) w = do
  s ← do_cons_write_buf w.kernel.hart fuel (u.bytes_at buf len) w.serial
  reply (record w { serial = s }) no_error []
serve_console fuel u ConsoleCall.halt w = none

-- The preemption locks and the core affinity return at once, without an effect.
unfoldable pub serve_process : User → ProcessCall → World → Option Reply
serve_process u (ProcessCall.get_partition_status p) w = do
  r ← do_get_partition_status w.kernel
  reply w r.0 (partition_status_to p r.1 ∷ [])
serve_process u (ProcessCall.set_partition_mode mode) w =
    reply_step w (do_set_partition_mode mode w.kernel)
serve_process u (ProcessCall.get_process_id name p) w =
    reply_read w (word_to p) (do_get_process_id (u.name_at name) w.kernel)
serve_process u (ProcessCall.get_process_status id p) w =
    reply_read w (process_status_to p) (some (do_get_process_status id w.kernel))
serve_process u (ProcessCall.create_process attr p) w =
    reply_creation w p (do_create_process (u.attributes_at attr) w.kernel)
serve_process u (ProcessCall.set_priority id pri) w = reply_step w (do_set_priority id pri w.kernel)
serve_process u (ProcessCall.suspend_self t) w = reply_step w (do_suspend_self t w.kernel)
serve_process u (ProcessCall.suspend id) w = reply_step w (do_suspend id w.kernel)
serve_process u (ProcessCall.resume id) w = reply_step w (do_resume id w.kernel)
serve_process u ProcessCall.stop_self w = reply_step w (do_stop_self w.kernel)
serve_process u (ProcessCall.stop id) w = reply_step w (do_stop id w.kernel)
serve_process u (ProcessCall.start id) w = reply_step w (do_start id w.kernel)
serve_process u (ProcessCall.delayed_start id t) w = reply_step w (do_delayed_start id t w.kernel)
serve_process u (ProcessCall.lock_preemption _) w = reply w no_error []
serve_process u (ProcessCall.unlock_preemption _) w = reply w no_error []
serve_process u (ProcessCall.get_my_id p) w = do
  r ← do_get_my_id w.kernel
  reply w r.0 (word_to p r.1 ∷ [])
serve_process u (ProcessCall.initialize_process_core_affinity _ _) w = reply w no_error []
serve_process u (ProcessCall.get_my_processor_core_id _) w = reply w no_error []
serve_process u (ProcessCall.get_my_index p) w = reply_read w (word_to p) (do_get_my_index w.kernel)

unfoldable pub serve_time : TimeCall → World → Option Reply
serve_time (TimeCall.timed_wait t) w = reply_step w (do_timed_wait t w.kernel)
serve_time TimeCall.periodic_wait w = reply w no_error []
serve_time (TimeCall.get_time p) w =
    let r = do_get_time w.kernel in reply (record w { kernel = r.2 }) r.0 (time_to p r.1 ∷ [])
serve_time (TimeCall.replenish _) w = reply w no_error []

unfoldable pub serve_queuing : User → QueuingCall → World → Option Reply
serve_queuing u (QueuingCall.create_queuing_port name size nb dir disc p) w =
    elim (port_dir_of dir) [
      | none ↦ reply w invalid_config []
      | some d ↦
          reply_creation w p
            (do_create_queuing_port (u.name_at name) size nb d (que_disc_of disc) w.kernel)
    ]
serve_queuing u (QueuingCall.send_queuing_message id addr len t) w =
    reply_step w (do_send_queuing_message id (u.bytes_at addr len) t w.kernel)
serve_queuing u (QueuingCall.receive_queuing_message id t addr len) w =
    reply_receive w addr len (do_receive_queuing_message id t w.kernel)
serve_queuing u (QueuingCall.get_queuing_port_id name p) w =
    reply_read w (word_to p) (some (do_get_queuing_port_id (u.name_at name) w.kernel))
serve_queuing u (QueuingCall.get_queuing_port_status id p) w =
    reply_read w (queuing_port_status_to p) (do_get_queuing_port_status id w.kernel)
serve_queuing u (QueuingCall.clear_queuing_port id) w =
    reply_step w (do_clear_queuing_port id w.kernel)

unfoldable pub serve_buffer : User → BufferCall → World → Option Reply
serve_buffer u (BufferCall.create_buffer name size nb disc p) w =
    reply_creation w p (do_create_buffer (u.name_at name) size nb (que_disc_of disc) w.kernel)
serve_buffer u (BufferCall.send_buffer id addr len t) w =
    reply_step w (do_send_buffer id (u.bytes_at addr len) t w.kernel)
serve_buffer u (BufferCall.receive_buffer id t addr len) w =
    reply_receive w addr len (do_receive_buffer id t w.kernel)
serve_buffer u (BufferCall.get_buffer_id name p) w =
    reply_read w (word_to p) (do_get_buffer_id (u.name_at name) w.kernel)
serve_buffer u (BufferCall.get_buffer_status id p) w =
    reply_read w (buffer_status_to p) (some (do_get_buffer_status id w.kernel))

unfoldable pub serve_blackboard : User → BlackboardCall → World → Option Reply
serve_blackboard u (BlackboardCall.create_blackboard name size p) w =
    reply_creation w p (do_create_blackboard (u.name_at name) size w.kernel)
serve_blackboard u (BlackboardCall.display_blackboard id addr len) w =
    reply_step w (do_display_blackboard id (u.bytes_at addr len) w.kernel)
serve_blackboard u (BlackboardCall.read_blackboard id t addr len) w =
    reply_receive w addr len (do_read_blackboard id t w.kernel)
serve_blackboard u (BlackboardCall.clear_blackboard id) w =
    reply_step w (do_clear_blackboard id w.kernel)
serve_blackboard u (BlackboardCall.get_blackboard_id name p) w =
    reply_read w (word_to p) (do_get_blackboard_id (u.name_at name) w.kernel)
serve_blackboard u (BlackboardCall.get_blackboard_status id p) w =
    reply_read w (blackboard_status_to p) (some (do_get_blackboard_status id w.kernel))

-- The services that have no body yet all return NO_ERROR.
unfoldable pub serve_sampling : SamplingCall → World → Option Reply
serve_sampling c w = reply w no_error []

unfoldable pub serve_semaphore : SemaphoreCall → World → Option Reply
serve_semaphore c w = reply w no_error []

unfoldable pub serve_event : EventCall → World → Option Reply
serve_event c w = reply w no_error []

unfoldable pub serve_mutex : MutexCall → World → Option Reply
serve_mutex c w = reply w no_error []

unfoldable pub serve : ℕ → User → Call → World → Option Reply
serve fuel u (console c) w = serve_console fuel u c w
serve fuel u (process c) w = serve_process u c w
serve fuel u (time c) w = serve_time c w
serve fuel u (sampling c) w = serve_sampling c w
serve fuel u (queuing c) w = serve_queuing u c w
serve fuel u (buffer c) w = serve_buffer u c w
serve fuel u (blackboard c) w = serve_blackboard u c w
serve fuel u (semaphore c) w = serve_semaphore c w
serve fuel u (event c) w = serve_event c w
serve fuel u (mutex c) w = serve_mutex c w
