-- ===== src/Timer.antt =====
-- kern/traps/timer.c: the hart's queue of time events, in the order of their times, and what an
-- event does when its time has come. The conversion of a time to timer ticks
-- (`cpus_get_timebase_freq`) belongs to the board: `armed` keeps the time itself.
pub mod Queue
pub mod Action
use jrinx.Base.{
  ℕ, suc, Bool, true, false, ◌||◌, Option, none, some, List, [], ◌∷◌, Store, update_at, ◌==◌,
  if◌then◌else◌,
}
use jrinx.Types.{Time, ready, le_time, lt_time}
use jrinx.Comm.Buffer.{buffer_del_waiting_proc}
use jrinx.Comm.Blackboard.{blackboard_del_waiting_proc}
use jrinx.Comm.Queuing.{queuing_port_del_waiting_proc}
use jrinx.Kernel.{
  EventKind, TimeEvent, simple, partition_activate, process_suspend_timeout, process_delayed_start,
  process_timed_wait_timeout, buffer_block_timeout, blackboard_block_timeout,
  queuing_port_block_timeout, Proc, Kernel, Timer, off, due, armed, boottime_get_now, on_proc,
  on_buffer, on_blackboard, on_channel,
}

-- The process whose `pr_asso_timer` points to an event of this kind.
abbrev pub event_proc : EventKind → Option ℕ
event_proc simple = none
event_proc partition_activate = none
event_proc (process_suspend_timeout pid) = some pid
event_proc (process_delayed_start pid) = some pid
event_proc (process_timed_wait_timeout pid) = some pid
event_proc (buffer_block_timeout pid _) = some pid
event_proc (blackboard_block_timeout pid _) = some pid
event_proc (queuing_port_block_timeout pid _) = some pid

-- The loop of `time_event_alloc`: before the first event that is later, and else at the end.
unfoldable pub insert_event : TimeEvent → List TimeEvent → List TimeEvent
insert_event te [] = te ∷ []
insert_event te (i ∷ is) =
    if lt_time te.te_time i.te_time then te ∷ i ∷ is else i ∷ insert_event te is

-- The loop of `time_event_free`: unlinks the event at this address.
unfoldable pub remove_event : ℕ → List TimeEvent → List TimeEvent
remove_event a [] = []
remove_event a (i ∷ is) = if i.te_address == a then is else i ∷ remove_event a is

-- The timer for the event at the head, and the readings made to set it.
head_timer : List TimeEvent → Time → Timer
head_timer [] now = off
head_timer (te ∷ _) now = if le_time te.te_time now then due else armed te.te_time

head_reads : List TimeEvent → ℕ → ℕ
head_reads [] n = n
head_reads (_ ∷ _) n = suc n

unfoldable pub time_event_set_head : Kernel → Kernel
unfolding head_timer head_reads
time_event_set_head k = record k {
  reads = head_reads k.time_events k.reads;
  timer = head_timer k.time_events (k.clock k.reads);
}

-- The assignment to `pr_asso_timer` at the end of `time_event_alloc` and `time_event_free`.
unfoldable pub set_asso_timer : Option ℕ → Option TimeEvent → Store Proc → Store Proc
set_asso_timer none te procs = procs
set_asso_timer (some pid) te procs = update_at pid (λ p. record p { pr_asso_timer = te }) procs

unfoldable pub time_event_alloc : EventKind → Time → Kernel → Kernel
time_event_alloc kind time k =
    let te : TimeEvent = record { te_address = k.next_event; te_time = time; te_kind = kind } in
    let queued =
      time_event_set_head
        (record k { time_events = insert_event te k.time_events; next_event = suc k.next_event }) in
    record queued { procs = set_asso_timer (event_proc kind) (some te) queued.procs }

unfoldable pub time_event_free : TimeEvent → Kernel → Kernel
time_event_free te k =
    let unlinked =
      time_event_set_head (record k { time_events = remove_event te.te_address k.time_events }) in
    record unlinked { procs = set_asso_timer (event_proc te.te_kind) none unlinked.procs }

-- `time_event_free(proc->pr_asso_timer)`; a NULL pointer is a fault.
unfoldable pub free_asso_timer : ℕ → Kernel → Option Kernel
free_asso_timer pid k = elim (k.procs pid) [
  | none ↦ none
  | some p ↦ elim p.pr_asso_timer [ none ↦ none | some te ↦ some (time_event_free te k) ]
]

-- `resched_part` and `resched_proc`.
pub record Resched : Type 0 where
  pub part : Bool
  pub proc : Bool

abbrev pub in_cur_part : ℕ → Kernel → Bool
in_cur_part pid k = elim (k.procs pid) [ none ↦ false | some p ↦ p.pr_part_id == k.cur_part ]

-- A process that waits for an event is ready, and the event is forgotten.
unfoldable pub release_proc : ℕ → Kernel → Kernel
release_proc pid k = on_proc pid (λ p. record p { pr_state = ready; pr_asso_timer = none }) k

fire_proc : ℕ → Kernel → Resched × Kernel → Resched × Kernel
unfolding release_proc
fire_proc pid k (r, k') = (record r { proc = r.proc || in_cur_part pid k }, k')

channel_of : ℕ → Kernel → ℕ
channel_of id k = elim (k.ports id) [ none ↦ 0 | some p ↦ p.qp_channel ]

-- The switch on the type of an event that is due.
unfoldable pub fire : EventKind → Resched × Kernel → Resched × Kernel
unfolding fire_proc channel_of
fire simple s = s
fire partition_activate (r, k) = (record r { part = true }, k)
fire (process_suspend_timeout pid) (r, k) = fire_proc pid k (r, release_proc pid k)
fire (process_delayed_start pid) (r, k) = fire_proc pid k (r, release_proc pid k)
fire (process_timed_wait_timeout pid) (r, k) = fire_proc pid k (r, release_proc pid k)
fire (buffer_block_timeout pid id) (r, k) =
    fire_proc pid k (r, on_buffer id (buffer_del_waiting_proc pid) (release_proc pid k))
fire (blackboard_block_timeout pid id) (r, k) =
    fire_proc pid k (r, on_blackboard id (blackboard_del_waiting_proc pid) (release_proc pid k))
fire (queuing_port_block_timeout pid id) (r, k) =
    fire_proc pid k
      (r, on_channel (channel_of id k) (queuing_port_del_waiting_proc pid) (release_proc pid k))

-- The loop of `time_event_action`, over the queue that it empties from the front: each round reads
-- the time, fires the first event and unlinks it, or stops at the first event that is not due.
unfoldable pub fire_due : List TimeEvent → Resched × Kernel → Resched × Kernel
fire_due [] s = s
fire_due (te ∷ rest) (r, k) =
    let (now, read) = boottime_get_now k in
    let (r', fired) = fire te.te_kind (r, read) in
    let after = fire_due rest (r', record fired { time_events = rest }) in
    if le_time te.te_time now then after else (r, read)

-- What to reschedule, and the state.
unfoldable pub time_event_action : Kernel → Resched × Kernel
time_event_action k =
    let (r, k') = fire_due k.time_events (record { part = false; proc = false }, k) in
    (r, time_event_set_head k')
