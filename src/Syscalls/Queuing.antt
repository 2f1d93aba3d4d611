-- ===== src/Syscalls/Queuing.antt =====
-- The queuing port services of kern/traps/syscalls.c.
use jrinx.Base.{ℕ, false, not, ◌&&◌, Option, none, some, length, ltb, ◌==◌, if◌then◌else◌}
use jrinx.Base.Int.{pos}
use jrinx.Circbuf.{circbuf_reset}
use jrinx.Lock.{lk_acquire, lk_release}
use jrinx.Types.{
  add_time, Time, RetCode, Name, PortDir, no_error, invalid_param, invalid_config, invalid_mode,
  not_available, timed_out, waiting, queuing_port_blocked, queuing_port_blocked_with_timeout,
  is_queuing_port_timeout, le_time, eq_time,
}
use jrinx.Kernel.{
  Kernel, Step, QueuingPort, Msg, done, gives_up, wait_send_queuing, wait_receive_queuing,
  queuing_port_block_timeout, ◌>>=◌, boottime_get_now, on_proc, on_channel,
}
use jrinx.Timer.{time_event_alloc}
use jrinx.Comm.Wait.{pri_of}
use jrinx.Comm.Queuing.{
  is_source, queuing_port_is_full, queuing_port_is_empty, queuing_port_send, queuing_port_recv,
  queuing_port_add_waiting_proc, queuing_port_wakeup_waiting_proc, queuing_port_get_nb_message,
  queuing_port_get_wait_proc_nb,
}
use jrinx.Syscalls.Common.{Receive, return, is_timed, wake, without_message, with_message}

unfoldable pub port_of_cur_part : ℕ → Kernel → Option QueuingPort
port_of_cur_part id k = do p ← k.ports id; if p.qp_part_id == k.cur_part then some p else none

unfoldable pub acquire_channel : ℕ → Kernel → Option Kernel
unfolding lk_acquire
acquire_channel id k = do
  c ← k.channels id
  l ← lk_acquire k.hart c.ch_lock
  some (on_channel id (λ d. record d { ch_lock = l }) k)

unfoldable pub release_channel : ℕ → Kernel → Option Kernel
unfolding lk_release
release_channel id k = do
  c ← k.channels id
  l ← lk_release k.hart c.ch_lock
  some (on_channel id (λ d. record d { ch_lock = l }) k)

unfoldable pub leave_channel : RetCode → ℕ → Kernel → Step
leave_channel code id k = do released ← release_channel id k; return code released

unfoldable pub queue_on_port : ℕ → ℕ → Time → Time → Kernel → Kernel
queue_on_port id ch wakeup_time time_out k =
    let queued =
      on_channel ch (queuing_port_add_waiting_proc k.cur_proc)
        (on_proc k.cur_proc (λ p. record p { pr_state = waiting }) k) in
    if is_timed time_out
    then time_event_alloc (queuing_port_block_timeout k.cur_proc id) wakeup_time (
        on_proc k.cur_proc (λ p. record p { pr_waiting_reason = queuing_port_blocked_with_timeout })
          queued)
    else on_proc k.cur_proc (λ p. record p { pr_waiting_reason = queuing_port_blocked }) queued

-- One waiting process is woken up; the caller keeps the processor.
unfoldable pub notify_port : QueuingPort → Kernel → Option Kernel
notify_port port k = do
  ch ← k.channels port.qp_channel
  elim (queuing_port_wakeup_waiting_proc port (pri_of k.procs) ch) [
    | none ↦ some k
    | some (pid, ch') ↦ wake is_queuing_port_timeout pid (on_channel port.qp_channel (λ _. ch') k)
  ]

unfoldable pub block_send : ℕ → ℕ → Time → Time → Kernel → Step
block_send id ch wakeup_time time_out k =
    let (now, read) = boottime_get_now k in
    if is_timed time_out && le_time wakeup_time now then leave_channel timed_out ch read else do
      released ←
          release_channel ch
            (queue_on_port id ch wakeup_time time_out (if is_timed time_out then read else k))
      some (gives_up false (wait_send_queuing id wakeup_time time_out), released)

unfoldable pub finish_send : QueuingPort → Msg → Kernel → Step
finish_send port msg k = do
  ch ← k.channels port.qp_channel
  sent ← queuing_port_send port ch msg
  notified ← notify_port port (on_channel port.qp_channel (λ _. sent) k)
  leave_channel no_error port.qp_channel notified

unfoldable pub do_send_queuing_message : ℕ → Msg → Time → Kernel → Step
do_send_queuing_message id msg time_out k = elim (port_of_cur_part id k) [
  | none ↦ return invalid_param k
  | some port ↦ do
    ch ← k.channels port.qp_channel
    if ltb ch.ch_max_msg_size (length msg)
        then return invalid_config k
        else if length msg == 0
        then return invalid_param k
        else if not (is_source port.qp_dir)
        then return invalid_mode k
        else do
          held ← acquire_channel port.qp_channel k
          let (now, read) = boottime_get_now held
          if queuing_port_is_full ch
              then if eq_time time_out (pos 0)
                then leave_channel not_available port.qp_channel held
                else block_send id port.qp_channel (add_time now time_out) time_out read
              else finish_send port msg held
]

unfoldable pub resume_send_queuing : ℕ → Time → Time → Msg → Kernel → Step
resume_send_queuing id wakeup_time time_out msg k =
    let (now, read) = boottime_get_now k in
    if is_timed time_out && le_time wakeup_time now then return timed_out read else do
      port ← k.ports id
      held ← acquire_channel port.qp_channel (if is_timed time_out then read else k)
      ch ← held.channels port.qp_channel
      if queuing_port_is_full ch
          then block_send id port.qp_channel wakeup_time time_out held
          else finish_send port msg held

-- The loop body of the receiving service. It sets a wake-up time of its own, counted from now,
-- beside the one that the test at its top looks at.
unfoldable pub block_receive : ℕ → ℕ → Time → Time → Kernel → Step
block_receive id ch wakeup_time time_out k =
    let (now, read) = boottime_get_now k in
    let (now', read') = boottime_get_now (if is_timed time_out then read else k) in
    if is_timed time_out && le_time wakeup_time now then leave_channel timed_out ch read else do
      released ← release_channel ch (queue_on_port id ch (add_time now' time_out) time_out read')
      some (
        gives_up false (wait_receive_queuing id wakeup_time (add_time now' time_out) time_out),
        released,
      )

unfoldable pub finish_receive : QueuingPort → Kernel → Receive
finish_receive port k = do
  ch ← k.channels port.qp_channel
  r ← queuing_port_recv port ch
  notified ← notify_port port (on_channel port.qp_channel (λ _. r.1) k)
  with_message r.0 (leave_channel no_error port.qp_channel notified)

unfoldable pub do_receive_queuing_message : ℕ → Time → Kernel → Receive
do_receive_queuing_message id time_out k = elim (port_of_cur_part id k) [
  | none ↦ some (done invalid_param, none, k)
  | some port ↦ if is_source port.qp_dir then some (done invalid_mode, none, k) else do
    held ← acquire_channel port.qp_channel k
    ch ← held.channels port.qp_channel
    let (now, read) = boottime_get_now held
    if queuing_port_is_empty ch
        then if eq_time time_out (pos 0)
          then without_message (leave_channel not_available port.qp_channel held)
          else without_message
              (block_receive id port.qp_channel (add_time now time_out) time_out read)
        else finish_receive port held
]

-- `wakeup_time` is the outer variable, `inner` the one of the round that gave up.
unfoldable pub resume_receive_queuing : ℕ → Time → Time → Time → Kernel → Receive
resume_receive_queuing id wakeup_time inner time_out k =
    let (now, read) = boottime_get_now k in
    if is_timed time_out && le_time inner now then without_message (return timed_out read) else do
      port ← k.ports id
      held ← acquire_channel port.qp_channel (if is_timed time_out then read else k)
      ch ← held.channels port.qp_channel
      if queuing_port_is_empty ch
          then without_message (block_receive id port.qp_channel wakeup_time time_out held)
          else finish_receive port held

unfoldable pub do_get_queuing_port_id : Name → Kernel → RetCode × Option ℕ
do_get_queuing_port_id name k = elim (k.port_name_map name) [
  | none ↦ (invalid_config, none)
  | some id ↦ elim (port_of_cur_part id k) [
    | none ↦ (invalid_config, none)
    | some _ ↦ (no_error, some id)
  ]
]

-- `QUEUING_PORT_STATUS_TYPE`.
pub record QueuingPortStatus : Type 0 where
  pub nb_message : ℕ
  pub max_nb_message : ℕ
  pub max_message_size : ℕ
  pub port_direction : PortDir
  pub waiting_processes : ℕ

unfoldable pub do_get_queuing_port_status : ℕ → Kernel → Option (RetCode × Option QueuingPortStatus)
do_get_queuing_port_status id k = elim (port_of_cur_part id k) [
  | none ↦ some (invalid_param, none)
  | some port ↦ do
    ch ← k.channels port.qp_channel
    some (
      no_error,
      some (record {
        nb_message = queuing_port_get_nb_message ch;
        max_nb_message = ch.ch_max_nb_msg;
        max_message_size = ch.ch_max_msg_size;
        port_direction = port.qp_dir;
        waiting_processes = queuing_port_get_wait_proc_nb ch;
      }),
    )
]

-- A full ring wakes one process up before it is emptied.
unfoldable pub do_clear_queuing_port : ℕ → Kernel → Step
do_clear_queuing_port id k = elim (port_of_cur_part id k) [
  | none ↦ return invalid_param k
  | some port ↦ if is_source port.qp_dir then return invalid_mode k else do
    held ← acquire_channel port.qp_channel k
    ch ← held.channels port.qp_channel
    notified ← if queuing_port_is_full ch then notify_port port held else some held
    leave_channel no_error port.qp_channel
        (on_channel port.qp_channel (λ c. record c { ch_body = circbuf_reset c.ch_body }) notified)
]
