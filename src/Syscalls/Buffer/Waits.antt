-- ===== src/Syscalls/Buffer/Waits.antt =====
-- SEND_BUFFER on a full buffer and RECEIVE_BUFFER on an empty one (kern/traps/syscalls.c).
use jrinx.Base.{
  ℕ, suc, ◌<◌, ◌≤◌, ◌≡◌, refl, ◌∙◌, ap, ◌⊎◌, Bool, true, false, Bool-cases, inl, inr, none, some,
  List, [], length, ltb, arith, update_at-some, ◌==◌, if◌then◌else◌,
}
use jrinx.Base.Int.{pos, ◌+ℤ◌}
use jrinx.Circbuf.{circbuf_is_full}
use jrinx.Circbuf.Fifo.{Represents, circbuf_is_full_lem}
use jrinx.Types.{Time, IsTime, add_time, add_time_lem, not_available, eq_time}
use jrinx.Kernel.{Kernel, Buffer, Proc, Msg, Outcome, Step, done, boottime_get_now}
use jrinx.Syscalls.Common.Wake.{Ensures, Ensures-map}
use jrinx.Syscalls.Buffer.{leave_buffer, block_on_buffer, do_send_buffer, send_again}
use jrinx.Comm.Buffer.{buffer_is_full}
use jrinx.Syscalls.Buffer.Send.{
  held_by, locked_buffer, owned, acquire_buffer_lem, release_buffer_lem,
}
use jrinx.Circbuf.{circbuf_is_empty}
use jrinx.Circbuf.Fifo.{circbuf_is_empty_lem}
use jrinx.Comm.Buffer.{buffer_is_empty}
use jrinx.Syscalls.Common.{is_timed, written, without_message}
use jrinx.Syscalls.Common.Wake.{Receives}
use jrinx.Syscalls.Buffer.{do_receive_buffer, receive_again}
use jrinx.Syscalls.Buffer.Block.{Reopened, Round, block_on_buffer_lem}

-- The kernel in which the waiting loop starts: the buffer locked, the clock read once.
abbrev waiting_kernel : ℕ → Kernel → Kernel
waiting_kernel id k = record (locked_buffer id k) { reads = suc k.reads }

-- The round in terms of the state before the lock was taken.
unlocked_Round :
    (next : ℕ → Time → Time → Outcome) (id : ℕ) (wakeup_time t : Time) (b : Buffer) (k : Kernel)
    (o : Outcome) (k' : Kernel)
    → Round next id wakeup_time t
        (record b { buf_lock = held_by k.hart })
        (waiting_kernel id k)
        o
        k'
    → Round next id wakeup_time t b (record k { reads = suc k.reads }) o k'
unlocked_Round next id wakeup_time t b k o k' (inl (e, d, r)) =
    inl (e, d, record { at_id = r.at_id; procs = r.procs; events = r.events })
unlocked_Round next id wakeup_time t b k o k' (inr (e, d, r)) = inr (
  e,
  d,
  record {
    at_id = r.at_id;
    waits = r.waits;
    events = r.events;
    timer = r.timer;
    can_wake = r.can_wake;
  },
)

without_message-if :
    (c : Bool) (s s' : Step)
    → (if c then without_message s else without_message s') ≡ without_message (if c then s else s')
without_message-if true s s' = refl
without_message-if false s s' = refl

Receives-without_message :
    (P : Outcome → Kernel → Type 0) (s : Step)
    → Ensures P s
    → Receives (λ o m k'. (m ≡ written o) × P o k') (without_message s)
Receives-without_message P none h = h
Receives-without_message P (some (o, k)) h = (refl, h)

-- What a service does that finds the buffer full, or empty: without a time-out to wait for it
-- returns NOT_AVAILABLE with the lock open, and else it makes the first round of the waiting loop.
abbrev pub Waits :
    (ℕ → Time → Time → Outcome) → ℕ → Time → Time → Buffer → Kernel → Outcome → Kernel → Type 0
Waits next id wakeup_time t b k o k' =
    ((eq_time t (pos 0) ≡ true) × (o ≡ done not_available) × Reopened id b k k')
    ⊎ ((eq_time t (pos 0) ≡ false)
        × Round next id wakeup_time t b (record k { reads = suc k.reads }) o k')

-- A time-out that is infinite, or whose sum with the clock is a time.
abbrev pub InRange : Time → Kernel → Type 0
InRange t k = is_timed t ≡ true → IsTime (k.clock k.reads +ℤ t)

-- The wake-up time of a finite time-out; that of an infinite one is not looked at.
abbrev pub IsWakeup : Time → Kernel → Time → Type 0
IsWakeup t k wakeup_time = is_timed t ≡ true → wakeup_time ≡ k.clock k.reads +ℤ t

module _ (id : ℕ) (b : Buffer) (k : Kernel) (p : Proc) (q : List Msg) (t : Time)
    (at_id : k.buffers id ≡ some b) (own : b.buf_part_id ≡ k.cur_part)
    (free : b.buf_lock.locked ≡ false) (runs : k.procs k.cur_proc ≡ some p)
    (r : Represents b.buf_body q) where
  there : (locked_buffer id k).buffers id ≡ some (record b { buf_lock = held_by k.hart })
  there = update_at-some id _ k.buffers at_id

  reopen :
      Ensures
        (λ o k'. (o ≡ done not_available) × Reopened id b k k')
        (leave_buffer not_available id (locked_buffer id k))
  unfolding leave_buffer
  reopen =
      rw
        (release_buffer_lem (locked_buffer id k) id (record b { buf_lock = held_by k.hart }) there
          refl)
        (
          refl,
          record {
            at_id = update_at-some id _ (locked_buffer id k).buffers there;
            procs = refl;
            events = refl;
          },
        )

  first-Round :
      (next : ℕ → Time → Time → Outcome) (wakeup_time : Time)
      → Ensures
          (Round next id wakeup_time t b (record k { reads = suc k.reads }))
          (block_on_buffer next id wakeup_time t (waiting_kernel id k))
  first-Round next wakeup_time =
      Ensures-map
        (Round next id wakeup_time t (record b { buf_lock = held_by k.hart }) (waiting_kernel id k))
        (Round next id wakeup_time t b (record k { reads = suc k.reads })) _
        (unlocked_Round next id wakeup_time t b k)
        (block_on_buffer_lem next id wakeup_time t (record b { buf_lock = held_by k.hart })
          (waiting_kernel id k) p there refl runs)

  either-Waits :
      (next : ℕ → Time → Time → Outcome) (wakeup_time : Time)
      → Ensures (Waits next id wakeup_time t b k) (
          if eq_time t (pos 0)
          then leave_buffer not_available id (locked_buffer id k)
          else block_on_buffer next id wakeup_time t (waiting_kernel id k))
  either-Waits next wakeup_time = elim (Bool-cases (eq_time t (pos 0))) [
    | inl e ↦ rw e (
        Ensures-map (λ o k'. (o ≡ done not_available) × Reopened id b k k')
          (Waits next id wakeup_time t b k) _ (λ o k' l. inl (e, l.0, l.1)) reopen)
    | inr e ↦ rw e (
        Ensures-map (Round next id wakeup_time t b (record k { reads = suc k.reads }))
          (Waits next id wakeup_time t b k) _ (λ o k' l. inr (e, l)) (first-Round next wakeup_time))
  ]

  either-Waits_empty :
      (next : ℕ → Time → Time → Outcome) (wakeup_time : Time)
      → Receives
          (λ o m k'. (m ≡ written o) × Waits next id wakeup_time t b k o k')
          (if eq_time t (pos 0)
            then without_message (leave_buffer not_available id (locked_buffer id k))
            else without_message (block_on_buffer next id wakeup_time t (waiting_kernel id k)))
  either-Waits_empty next wakeup_time =
      rw
        (without_message-if (eq_time t (pos 0)) (leave_buffer not_available id (locked_buffer id k))
          (block_on_buffer next id wakeup_time t (waiting_kernel id k)))
        (Receives-without_message (Waits next id wakeup_time t b k) _
          (either-Waits next wakeup_time))

  -- The wake-up time that the code computes, which is right for a finite time-out in range.
  wakeup : Time
  wakeup = add_time (k.clock k.reads) t

  IsWakeup-wakeup : InRange t k → IsWakeup t k wakeup
  unfolding wakeup
  IsWakeup-wakeup range timed = add_time_lem (k.clock k.reads) t (range timed)

  -- SEND_BUFFER of a message of legal length to a full buffer of the running partition whose lock
  -- is open, called by a process that is there, with a time-out that is infinite or whose sum with
  -- the clock is in the range of the time type: without a time-out to wait for it returns
  -- NOT_AVAILABLE; else it returns TIMED_OUT, if the clock has passed the sum already, and
  -- otherwise the running process is WAITING at the end of the queue of the buffer, with a time
  -- event for the sum if the time-out is finite, and gives up the processor. In every case the
  -- messages stay and the lock is open.
  pub do_send_buffer-Waits :
      (msg : Msg)
      → 0 < length msg
      → length msg ≤ b.buf_max_msg_size
      → length q ≡ b.buf_body.cc_cap
      → InRange t k
      → (wakeup_time : Time) × IsWakeup t k wakeup_time
        × Ensures (Waits send_again id wakeup_time t b k) (do_send_buffer id msg t k)
  unfolding do_send_buffer buffer_is_full boottime_get_now wakeup
  do_send_buffer-Waits msg pos_length fits full range =
      let short : ltb b.buf_max_msg_size (length msg) ≡ false = ground arith in
      let filled : (length msg == 0) ≡ false = ground arith in
      let is_full : circbuf_is_full b.buf_body ≡ true = circbuf_is_full_lem r ∙ ground arith in
      (
        wakeup,
        IsWakeup-wakeup range,
        rw (owned id b k at_id own, do_send_buffer, Ensures)
            (rw short (
              rw filled (
                rw (acquire_buffer_lem k id b at_id free, Ensures)
                  (rw is_full (either-Waits send_again wakeup))))),
      )

  -- RECEIVE_BUFFER from an empty buffer of the running partition whose lock is open, called by a
  -- process that is there, with such a time-out, does the same, and writes the length 0 where it
  -- returns.
  pub do_receive_buffer-Waits :
      q ≡ []
      → InRange t k
      → (wakeup_time : Time) × IsWakeup t k wakeup_time
        × Receives
            (λ o m k'. (m ≡ written o) × Waits receive_again id wakeup_time t b k o k')
            (do_receive_buffer id t k)
  unfolding do_receive_buffer buffer_is_empty boottime_get_now wakeup
  do_receive_buffer-Waits none_left range =
      let is_empty : circbuf_is_empty b.buf_body ≡ true =
        circbuf_is_empty_lem r ∙ ap (λ l. length l == 0) none_left in
      (
        wakeup,
        IsWakeup-wakeup range,
        rw (owned id b k at_id own, do_receive_buffer, Receives)
            (rw (acquire_buffer_lem k id b at_id free, Receives)
              (rw is_empty (either-Waits_empty receive_again wakeup))),
      )
