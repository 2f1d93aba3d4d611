-- ===== src/Syscalls/Isolation.antt =====
-- The services of kern/traps/syscalls.c on identifiers of objects of other partitions.
use jrinx.Base.{ℕ, ◌≡◌, ◌≢◌, Option, none, some, arith}
use jrinx.Types.{Time, invalid_param}
use jrinx.Kernel.{Kernel, Msg, done, proc_of_cur_part}
use jrinx.Syscalls.Common.{return}
use jrinx.Syscalls.Process.{do_get_process_status, do_set_priority, do_suspend, do_resume, do_stop}
use jrinx.Syscalls.Start.{do_delayed_start, do_start}
use jrinx.Syscalls.Buffer.{
  buffer_of_cur_part, do_send_buffer, do_receive_buffer, do_get_buffer_status,
}
use jrinx.Syscalls.Blackboard.{
  blackboard_of_cur_part, do_display_blackboard, do_read_blackboard, do_clear_blackboard,
  do_get_blackboard_status,
}
use jrinx.Syscalls.Queuing.{
  port_of_cur_part, do_send_queuing_message, do_receive_queuing_message, do_clear_queuing_port,
  do_get_queuing_port_status,
}

-- There is no object of this partition at the identifier: none at all, or one of another partition.
abbrev pub Foreign {ℓ} : {A : Type ℓ} → (A → ℕ) → ℕ → Option A → Type 0
Foreign owner part none = Unit
Foreign owner part (some a) = owner a ≢ part

proc_of_cur_part-Foreign :
    (k : Kernel) (id : ℕ)
    → Foreign (λ p. p.pr_part_id) k.cur_part (k.procs id)
    → proc_of_cur_part id k ≡ none
unfolding proc_of_cur_part
proc_of_cur_part-Foreign k id h = ground arith

buffer_of_cur_part-Foreign :
    (k : Kernel) (id : ℕ)
    → Foreign (λ b. b.buf_part_id) k.cur_part (k.buffers id)
    → buffer_of_cur_part id k ≡ none
unfolding buffer_of_cur_part
buffer_of_cur_part-Foreign k id h = ground arith

blackboard_of_cur_part-Foreign :
    (k : Kernel) (id : ℕ)
    → Foreign (λ b. b.bb_part_id) k.cur_part (k.blackboards id)
    → blackboard_of_cur_part id k ≡ none
unfolding blackboard_of_cur_part
blackboard_of_cur_part-Foreign k id h = ground arith

port_of_cur_part-Foreign :
    (k : Kernel) (id : ℕ)
    → Foreign (λ p. p.qp_part_id) k.cur_part (k.ports id)
    → port_of_cur_part id k ≡ none
unfolding port_of_cur_part
port_of_cur_part-Foreign k id h = ground arith

-- Each process service, on an identifier at which there is no process or one of another partition,
-- returns INVALID_PARAM and leaves the whole state as it is.
pub isolated_processes :
    (k : Kernel) (pid pri : ℕ) (t : Time)
    → Foreign (λ p. p.pr_part_id) k.cur_part (k.procs pid)
    → (do_get_process_status pid k ≡ (invalid_param, none))
      × (do_set_priority pid pri k ≡ return invalid_param k)
      × (do_suspend pid k ≡ return invalid_param k)
      × (do_resume pid k ≡ return invalid_param k)
      × (do_stop pid k ≡ return invalid_param k)
      × (do_start pid k ≡ return invalid_param k)
      × (do_delayed_start pid t k ≡ return invalid_param k)
unfolding do_get_process_status do_set_priority do_suspend do_resume do_stop do_start
    do_delayed_start
isolated_processes k pid pri t h =
    let e = proc_of_cur_part-Foreign k pid h in
    (
      rw (e, do_get_process_status),
      rw (e, do_set_priority),
      rw (e, do_suspend),
      rw (e, do_resume),
      rw (e, do_stop),
      rw (e, do_start, do_delayed_start),
      rw (e, do_delayed_start),
    )

-- Each service on a buffer, a blackboard or a queuing port does the same where there is no such
-- object at the identifier, or one of another partition; a receiving service writes no length.
pub isolated_objects :
    (k : Kernel) (id : ℕ) (msg : Msg) (t : Time)
    → Foreign (λ b. b.buf_part_id) k.cur_part (k.buffers id)
    → Foreign (λ b. b.bb_part_id) k.cur_part (k.blackboards id)
    → Foreign (λ p. p.qp_part_id) k.cur_part (k.ports id)
    → (do_send_buffer id msg t k ≡ return invalid_param k)
      × (do_receive_buffer id t k ≡ some (done invalid_param, none, k))
      × (do_get_buffer_status id k ≡ (invalid_param, none))
      × (do_display_blackboard id msg k ≡ return invalid_param k)
      × (do_read_blackboard id t k ≡ some (done invalid_param, none, k))
      × (do_clear_blackboard id k ≡ return invalid_param k)
      × (do_get_blackboard_status id k ≡ (invalid_param, none))
      × (do_send_queuing_message id msg t k ≡ return invalid_param k)
      × (do_receive_queuing_message id t k ≡ some (done invalid_param, none, k))
      × (do_clear_queuing_port id k ≡ return invalid_param k)
      × (do_get_queuing_port_status id k ≡ some (invalid_param, none))
unfolding do_send_buffer do_receive_buffer do_get_buffer_status do_display_blackboard
    do_read_blackboard do_clear_blackboard do_get_blackboard_status do_send_queuing_message
    do_receive_queuing_message do_clear_queuing_port do_get_queuing_port_status
isolated_objects k id msg t hb hbb hq =
    let b = buffer_of_cur_part-Foreign k id hb in
    let bb = blackboard_of_cur_part-Foreign k id hbb in
    let q = port_of_cur_part-Foreign k id hq in
    (
      rw (b, do_send_buffer),
      rw (b, do_receive_buffer),
      rw (b, do_get_buffer_status),
      rw (bb, do_display_blackboard),
      rw (bb, do_read_blackboard),
      rw (bb, do_clear_blackboard),
      rw (bb, do_get_blackboard_status),
      rw (q, do_send_queuing_message),
      rw (q, do_receive_queuing_message),
      rw (q, do_clear_queuing_port),
      rw (q, do_get_queuing_port_status),
    )
