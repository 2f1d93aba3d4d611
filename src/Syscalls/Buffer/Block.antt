-- ===== src/Syscalls/Buffer/Block.antt =====
-- SEND_BUFFER of kern/traps/syscalls.c on a full buffer, and the body of the waiting loops.
use jrinx.Base.{
  ℕ, suc, ◌≡◌, refl, sym, ◌∙◌, ap, ◌⊎◌, true, false, ◌&&◌, Bool-cases, inl, inr, some, [], ◌∷◌,
  ◌++◌, arith, update_at, update_at-some, if◌then◌else◌,
}
use jrinx.Lock.{unlocked}
use jrinx.Types.{
  Time, waiting, timed_out, buffer_blocked, buffer_blocked_with_timeout, is_buffer_timeout, le_time,
}
use jrinx.Kernel.{
  Kernel, Buffer, Proc, Outcome, TimeEvent, done, buffer_block_timeout, ◌>>=◌, boottime_get_now,
}
use jrinx.Timer.{insert_event, time_event_alloc, time_event_set_head, set_asso_timer}
use jrinx.Timer.Queue.{asso_timer_of}
use jrinx.Sched.Switch.{state_of}
use jrinx.Syscalls.Common.{is_timed}
use jrinx.Syscalls.Common.Wake.{Ensures, Ensures-map, CanWake}
use jrinx.Syscalls.Buffer.{release_buffer, leave_buffer, queue_on_buffer, block_on_buffer}
use jrinx.Comm.Buffer.{buffer_add_waiting_proc}
use jrinx.Syscalls.Buffer.Send.{held_by, release_buffer_lem}

-- The time event of the running process for the buffer `id`.
abbrev pub wait_event : ℕ → Time → Kernel → TimeEvent
wait_event id wakeup_time k = record {
  te_address = k.next_event;
  te_time = wakeup_time;
  te_kind = buffer_block_timeout k.cur_proc id;
}

-- The running process waits for the buffer: it is WAITING and last in the queue, the lock is open,
-- and with a time-out there is a new time event, which it points to; whoever wakes it up finds
-- what it needs.
pub record Blocked (id : ℕ) (wakeup_time t : Time) (b : Buffer) (k k' : Kernel) : Type 0 where
  pub at_id :
      k'.buffers id
      ≡ some (record b {
        buf_lock = unlocked;
        buf_waiting_procs = b.buf_waiting_procs ++ k.cur_proc ∷ [];
      })
  pub waits : state_of (k'.procs k.cur_proc) ≡ some waiting
  pub events : k'.time_events ≡ (
      if is_timed t
      then insert_event (wait_event id wakeup_time k) k.time_events
      else k.time_events)
  pub timer :
      is_timed t ≡ true → asso_timer_of (k'.procs k.cur_proc) ≡ some (wait_event id wakeup_time k)
  pub can_wake : CanWake is_buffer_timeout (k'.procs k.cur_proc)

-- The processes after the running one has queued up.
abbrev queued_proc : ℕ → Time → Time → Kernel → Proc → Proc
queued_proc id wakeup_time t k p =
    if is_timed t
    then record p {
      pr_state = waiting;
      pr_waiting_reason = buffer_blocked_with_timeout;
      pr_asso_timer = some (wait_event id wakeup_time k);
    }
    else record p { pr_state = waiting; pr_waiting_reason = buffer_blocked }

queue_on_buffer-procs :
    (id : ℕ) (wakeup_time t : Time) (k : Kernel) (p : Proc)
    → k.procs k.cur_proc ≡ some p
    → (queue_on_buffer id wakeup_time t k).procs k.cur_proc
      ≡ some (queued_proc id wakeup_time t k p)
unfolding queue_on_buffer time_event_alloc time_event_set_head set_asso_timer update_at
queue_on_buffer-procs id wakeup_time t k p h = elim (Bool-cases (is_timed t)) [
  | inl e ↦ rw (e, queue_on_buffer) (ground arith)
  | inr e ↦ rw (e, queue_on_buffer) (ground arith)
]

queue_on_buffer-frame :
    (id : ℕ) (wakeup_time t : Time) (k : Kernel)
    → let k' = queue_on_buffer id wakeup_time t k in
      (k'.hart ≡ k.hart)
      × (k'.buffers ≡ update_at id (buffer_add_waiting_proc k.cur_proc) k.buffers)
      × (k'.time_events ≡ (
          if is_timed t
          then insert_event (wait_event id wakeup_time k) k.time_events
          else k.time_events))
unfolding queue_on_buffer time_event_alloc time_event_set_head
queue_on_buffer-frame id wakeup_time t k = elim (Bool-cases (is_timed t)) [
  | inl e ↦ rw (e, queue_on_buffer) (refl, refl, refl)
  | inr e ↦ rw (e, queue_on_buffer) (refl, refl, refl)
]

-- What the queued process looks like, by the test that `queued_proc` makes.
queued-facts :
    (id : ℕ) (wakeup_time t : Time) (k : Kernel) (p : Proc)
    → let r = queued_proc id wakeup_time t k p in
      let te = wait_event id wakeup_time k in
      (r.pr_state ≡ waiting)
      × (is_timed t ≡ true → r.pr_asso_timer ≡ some te)
      × (is_buffer_timeout r.pr_waiting_reason ≡ true
          → (e : TimeEvent) × (r.pr_asso_timer ≡ some e))
queued-facts id wakeup_time t k p = elim (Bool-cases (is_timed t)) [
  | inl e ↦ rw e (refl, (λ _. refl), (λ _. (wait_event id wakeup_time k, refl)))
  | inr e ↦ rw e (refl, (λ h. cc), (λ h. cc))
]

-- The object as it was, with an open lock, and nothing else changed but the clock's readings.
pub record Reopened (id : ℕ) (b : Buffer) (k k' : Kernel) : Type 0 where
  pub at_id : k'.buffers id ≡ some (record b { buf_lock = unlocked })
  pub procs : k'.procs ≡ k.procs
  pub events : k'.time_events ≡ k.time_events

queue_and_release :
    (id : ℕ) (wakeup_time t : Time) (b : Buffer) (k : Kernel) (p : Proc) (o : Outcome)
    → k.buffers id ≡ some b
    → b.buf_lock ≡ held_by k.hart
    → k.procs k.cur_proc ≡ some p
    → Ensures
        (λ o' k'. (o' ≡ o) × Blocked id wakeup_time t b k k')
        (release_buffer id (queue_on_buffer id wakeup_time t k) >>= λ released. some (o, released))
unfolding buffer_add_waiting_proc
queue_and_release id wakeup_time t b k p o e l h =
    let q = queue_on_buffer id wakeup_time t k in
    let (same_hart, bufs, events) = queue_on_buffer-frame id wakeup_time t k in
    let there : q.buffers id ≡ some (buffer_add_waiting_proc k.cur_proc b) =
      ap (λ s. s id) bufs ∙ update_at-some id _ k.buffers e in
    let queued = queue_on_buffer-procs id wakeup_time t k p h in
    let (waits, timer, wakes) = queued-facts id wakeup_time t k p in
    rw
      (release_buffer_lem q id (buffer_add_waiting_proc k.cur_proc b) there
        (l ∙ ap held_by (sym same_hart)))
      (
        refl,
        record {
          at_id = update_at-some id _ q.buffers there;
          waits = ap state_of queued ∙ ap some waits;
          events = events;
          timer = λ timed. ap asso_timer_of queued ∙ timer timed;
          can_wake = record {
            proc = queued_proc id wakeup_time t k p;
            there = queued;
            timer = wakes;
          };
        },
      )

Blocked-read :
    (id : ℕ) (wakeup_time t : Time) (b : Buffer) (k : Kernel) (n : ℕ) (k' : Kernel)
    → Blocked id wakeup_time t b (record k { reads = n }) k'
    → Blocked id wakeup_time t b k k'
Blocked-read id wakeup_time t b k n k' r = record {
  at_id = r.at_id;
  waits = r.waits;
  events = r.events;
  timer = r.timer;
  can_wake = r.can_wake;
}

-- One round of a waiting loop from state `k`: TIMED_OUT with the lock open, if the clock has reached
-- the wake-up time of a time-out, and else the process is blocked and the processor given up.
abbrev pub Round :
    (ℕ → Time → Time → Outcome) → ℕ → Time → Time → Buffer → Kernel → Outcome → Kernel → Type 0
Round next id wakeup_time t b k o k' =
    ((is_timed t && le_time wakeup_time (k.clock k.reads) ≡ true)
      × (o ≡ done timed_out)
      × Reopened id b k k')
    ⊎ ((is_timed t && le_time wakeup_time (k.clock k.reads) ≡ false)
        × (o ≡ next id wakeup_time t)
        × Blocked id wakeup_time t b k k')

pub block_on_buffer_lem :
    (next : ℕ → Time → Time → Outcome) (id : ℕ) (wakeup_time t : Time) (b : Buffer) (k : Kernel)
    (p : Proc)
    → k.buffers id ≡ some b
    → b.buf_lock ≡ held_by k.hart
    → k.procs k.cur_proc ≡ some p
    → Ensures (Round next id wakeup_time t b k) (block_on_buffer next id wakeup_time t k)
unfolding block_on_buffer boottime_get_now leave_buffer
block_on_buffer_lem next id wakeup_time t b k p e l h =
    elim (Bool-cases (is_timed t && le_time wakeup_time (k.clock k.reads))) [
      | inl due ↦ rw due (
          rw (release_buffer_lem (record k { reads = suc k.reads }) id b e l) (
            inl (
              due,
              refl,
              record { at_id = update_at-some id _ k.buffers e; procs = refl; events = refl },
            )))
      | inr more ↦ rw more (elim (Bool-cases (is_timed t)) [
        | inl timed ↦ rw timed (
            Ensures-map
              (λ o k'.
                (o ≡ next id wakeup_time t)
                × Blocked id wakeup_time t b (record k { reads = suc k.reads }) k')
              (Round next id wakeup_time t b k) _
              (λ o k' r. inr (more, r.0, Blocked-read id wakeup_time t b k (suc k.reads) k' r.1))
              (queue_and_release id wakeup_time t b (record k { reads = suc k.reads }) p
                (next id wakeup_time t) e l h))
        | inr untimed ↦ rw untimed (
            Ensures-map (λ o k'. (o ≡ next id wakeup_time t) × Blocked id wakeup_time t b k k')
              (Round next id wakeup_time t b k) _ (λ o k' r. inr (more, r.0, r.1))
              (queue_and_release id wakeup_time t b k p (next id wakeup_time t) e l h))
      ])
    ]
