-- ===== src/Syscalls/Buffer.antt =====
-- The buffer services of kern/traps/syscalls.c.
pub mod Send
pub mod Take
pub mod Block
pub mod Waits
use jrinx.Base.{ℕ, false, ◌&&◌, Option, none, some, length, ltb, ◌==◌, if◌then◌else◌}
use jrinx.Base.Int.{pos}
use jrinx.Lock.{lk_acquire, lk_release}
use jrinx.Types.{
  add_time, Time, RetCode, Name, no_error, invalid_param, invalid_config, not_available, timed_out,
  waiting, buffer_blocked, buffer_blocked_with_timeout, is_buffer_timeout, le_time, eq_time,
}
use jrinx.Kernel.{
  Kernel, Step, Buffer, Msg, Outcome, done, gives_up, wait_send_buffer, wait_receive_buffer,
  buffer_block_timeout, ◌>>=◌, boottime_get_now, on_proc, on_buffer,
}
use jrinx.Timer.{time_event_alloc}
use jrinx.Comm.Wait.{pri_of}
use jrinx.Comm.Buffer.{
  buffer_is_full, buffer_is_empty, buffer_send, buffer_recv, buffer_add_waiting_proc,
  buffer_wakeup_waiting_proc, buffer_get_nb_message, buffer_get_waiting_proc_nb,
}
use jrinx.Syscalls.Common.{
  Receive, return, give_up_and_return, is_timed, wake, without_message, with_message,
}

-- `buffer_from_id` with the check that the buffer is of the running partition.
unfoldable pub buffer_of_cur_part : ℕ → Kernel → Option Buffer
buffer_of_cur_part id k = do b ← k.buffers id; if b.buf_part_id == k.cur_part then some b else none

unfoldable pub acquire_buffer : ℕ → Kernel → Option Kernel
unfolding lk_acquire
acquire_buffer id k = do
  b ← k.buffers id
  l ← lk_acquire k.hart b.buf_lock
  some (on_buffer id (λ c. record c { buf_lock = l }) k)

unfoldable pub release_buffer : ℕ → Kernel → Option Kernel
unfolding lk_release
release_buffer id k = do
  b ← k.buffers id
  l ← lk_release k.hart b.buf_lock
  some (on_buffer id (λ c. record c { buf_lock = l }) k)

-- Leaves the critical section with an error.
unfoldable pub leave_buffer : RetCode → ℕ → Kernel → Step
leave_buffer code id k = do released ← release_buffer id k; return code released

-- The running process joins the queue, with a time event if it set a time-out.
unfoldable pub queue_on_buffer : ℕ → Time → Time → Kernel → Kernel
queue_on_buffer id wakeup_time time_out k =
    let queued =
      on_buffer id (buffer_add_waiting_proc k.cur_proc)
        (on_proc k.cur_proc (λ p. record p { pr_state = waiting }) k) in
    if is_timed time_out
    then time_event_alloc (buffer_block_timeout k.cur_proc id) wakeup_time (
        on_proc k.cur_proc (λ p. record p { pr_waiting_reason = buffer_blocked_with_timeout })
          queued)
    else on_proc k.cur_proc (λ p. record p { pr_waiting_reason = buffer_blocked }) queued

-- The body of the waiting loops up to `sched_proc_give_up`, with the buffer locked. The clock is
-- read only if there is a time-out.
unfoldable pub block_on_buffer : (ℕ → Time → Time → Outcome) → ℕ → Time → Time → Kernel → Step
block_on_buffer next id wakeup_time time_out k =
    let (now, read) = boottime_get_now k in
    if is_timed time_out && le_time wakeup_time now then leave_buffer timed_out id read else do
      released ←
          release_buffer id
            (queue_on_buffer id wakeup_time time_out (if is_timed time_out then read else k))
      some (next id wakeup_time time_out, released)

-- After the transfer: wakes a waiting process up, if there is one, and gives up the processor.
unfoldable pub notify_buffer : ℕ → Kernel → Step
notify_buffer id k = do
  b ← k.buffers id
  elim (buffer_wakeup_waiting_proc (pri_of k.procs) b) [
    | none ↦ leave_buffer no_error id k
    | some (pid, b') ↦ do
      woken ← wake is_buffer_timeout pid (on_buffer id (λ _. b') k)
      released ← release_buffer id woken
      give_up_and_return released
  ]

-- The end of `do_send_buffer`, with the buffer locked.
unfoldable pub finish_send_buffer : ℕ → Msg → Kernel → Step
finish_send_buffer id msg k = do
  b ← k.buffers id
  sent ← buffer_send b msg
  notify_buffer id (on_buffer id (λ _. sent) k)

abbrev pub send_again : ℕ → Time → Time → Outcome
send_again id wakeup_time time_out = gives_up false (wait_send_buffer id wakeup_time time_out)

-- The message is the bytes at `message_addr`, and `length` is their number.
unfoldable pub do_send_buffer : ℕ → Msg → Time → Kernel → Step
do_send_buffer id msg time_out k = elim (buffer_of_cur_part id k) [
  | none ↦ return invalid_param k
  | some b ↦
      if ltb b.buf_max_msg_size (length msg)
      then return invalid_param k
      else if length msg == 0
      then return invalid_param k
      else do
        held ← acquire_buffer id k
        let (now, read) = boottime_get_now held
        if buffer_is_full b
            then if eq_time time_out (pos 0)
              then leave_buffer not_available id held
              else block_on_buffer send_again id (add_time now time_out) time_out read
            else finish_send_buffer id msg held
]

-- The waiting loop from `sched_proc_give_up` on.
unfoldable pub resume_send_buffer : ℕ → Time → Time → Msg → Kernel → Step
resume_send_buffer id wakeup_time time_out msg k =
    let (now, read) = boottime_get_now k in
    if is_timed time_out && le_time wakeup_time now then return timed_out read else do
      held ← acquire_buffer id (if is_timed time_out then read else k)
      b ← held.buffers id
      if buffer_is_full b
          then block_on_buffer send_again id wakeup_time time_out held
          else finish_send_buffer id msg held

unfoldable pub finish_receive_buffer : ℕ → Kernel → Receive
finish_receive_buffer id k = do
  b ← k.buffers id
  r ← buffer_recv b
  with_message r.0 (notify_buffer id (on_buffer id (λ _. r.1) k))

abbrev pub receive_again : ℕ → Time → Time → Outcome
receive_again id wakeup_time time_out = gives_up false (wait_receive_buffer id wakeup_time time_out)

unfoldable pub do_receive_buffer : ℕ → Time → Kernel → Receive
do_receive_buffer id time_out k = elim (buffer_of_cur_part id k) [
  | none ↦ some (done invalid_param, none, k)
  | some b ↦ do
    held ← acquire_buffer id k
    let (now, read) = boottime_get_now held
    if buffer_is_empty b
        then if eq_time time_out (pos 0)
          then without_message (leave_buffer not_available id held)
          else without_message
              (block_on_buffer receive_again id (add_time now time_out) time_out read)
        else finish_receive_buffer id held
]

unfoldable pub resume_receive_buffer : ℕ → Time → Time → Kernel → Receive
resume_receive_buffer id wakeup_time time_out k =
    let (now, read) = boottime_get_now k in
    if is_timed time_out && le_time wakeup_time now
    then without_message (return timed_out read)
    else do
      held ← acquire_buffer id (if is_timed time_out then read else k)
      b ← held.buffers id
      if buffer_is_empty b
          then without_message (block_on_buffer receive_again id wakeup_time time_out held)
          else finish_receive_buffer id held

unfoldable pub do_get_buffer_id : Name → Kernel → Option (RetCode × Option ℕ)
do_get_buffer_id name k = do
  part ← k.parts k.cur_part
  some (elim (part.pa_buf_name_map name) [
    | none ↦ (invalid_config, none)
    | some id ↦ (no_error, some id)
  ])

-- `BUFFER_STATUS_TYPE`.
pub record BufferStatus : Type 0 where
  pub nb_message : ℕ
  pub max_nb_message : ℕ
  pub max_message_size : ℕ
  pub waiting_processes : ℕ

unfoldable pub do_get_buffer_status : ℕ → Kernel → RetCode × Option BufferStatus
do_get_buffer_status id k = elim (buffer_of_cur_part id k) [
  | none ↦ (invalid_param, none)
  | some b ↦ (
    no_error,
    some (record {
      nb_message = buffer_get_nb_message b;
      max_nb_message = b.buf_max_nb_msg;
      max_message_size = b.buf_max_msg_size;
      waiting_processes = buffer_get_waiting_proc_nb b;
    }),
  )
]
