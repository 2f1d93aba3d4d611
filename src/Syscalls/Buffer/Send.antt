-- ===== src/Syscalls/Buffer/Send.antt =====
-- SEND_BUFFER and RECEIVE_BUFFER of kern/traps/syscalls.c where they do not block.
use mathlib.Core.Path.{subst}
use jrinx.Base.{
  ℕ, ◌<◌, ◌≤◌, ◌≡◌, refl, sym, ap, ◌∙◌, ◌⊎◌, inl, inr, true, false, none, some, List, [], ◌∷◌, ◌++◌,
  All, All-middle, length, ltb, arith, update_at-some, ◌==◌,
}
use jrinx.Circbuf.{Circbuf, circbuf_enqueue}
use jrinx.Circbuf.Fifo.{Represents, circbuf_is_full_lem, circbuf_enqueue-Represents}
use jrinx.Lock.{Lock, lk_acquire, lk_release, unlocked}
use jrinx.Types.{no_error, Time, ready, is_buffer_timeout}
use jrinx.Kernel.{Kernel, Buffer, Msg, Outcome, done, gives_up, returns, on_buffer, ◌>>=◌}
use jrinx.Comm.Wait.{pri_of, wakeup_waiting}
use jrinx.Comm.Wait.Choice.{wakeup_waiting_lem}
use jrinx.Comm.Buffer.{buffer_is_full, buffer_send, buffer_wakeup_waiting_proc}
use jrinx.Sched.Switch.{state_of}
use jrinx.Syscalls.Common.Wake.{Ensures, Ensures-map, CanWake, Awake, wake_lem}
use jrinx.Syscalls.Buffer.{
  buffer_of_cur_part, acquire_buffer, release_buffer, leave_buffer, notify_buffer,
  finish_send_buffer, do_send_buffer,
}

abbrev pub held_by : ℕ → Lock
held_by h = record { locked = true; hartid = h }

-- The kernel after an assignment to the whole buffer.
abbrev pub put_buffer : ℕ → Buffer → Kernel → Kernel
put_buffer id b k = on_buffer id (λ _. b) k

module _ (k : Kernel) (id : ℕ) (b : Buffer) (at_id : k.buffers id ≡ some b) where
  pub release_buffer_lem :
      b.buf_lock ≡ held_by k.hart
      → release_buffer id k ≡ some (on_buffer id (λ c. record c { buf_lock = unlocked }) k)
  unfolding release_buffer lk_release
  release_buffer_lem h = rw (at_id, release_buffer) (rw h (ground arith))

  pub acquire_buffer_lem :
      b.buf_lock.locked ≡ false
      → acquire_buffer id k ≡ some (on_buffer id (λ c. record c { buf_lock = held_by k.hart }) k)
  unfolding acquire_buffer lk_acquire
  acquire_buffer_lem h = rw (at_id, acquire_buffer) (rw h)

-- What is left behind: the ring as it was, an open lock, and either nobody was waiting, so that the
-- service returns and no process changes, or one process was: it has left the queue and is READY,
-- and the service gives up the processor before it returns.
pub record Notified (id : ℕ) (b : Buffer) (k : Kernel) (o : Outcome) (k' : Kernel) : Type 0 where
  pub buf : Buffer
  pub at_id : k'.buffers id ≡ some buf
  pub body : buf.buf_body ≡ b.buf_body
  pub open_lock : buf.buf_lock ≡ unlocked
  pub woken :
      ((b.buf_waiting_procs ≡ [])
        × (buf.buf_waiting_procs ≡ [])
        × (o ≡ done no_error)
        × (k'.procs ≡ k.procs))
      ⊎ ((pid : ℕ) × (ws : List ℕ) × (wakeup_waiting b.buf_que_disc
              (pri_of k.procs)
              b.buf_waiting_procs
            ≡ some (pid, ws))
          × (buf.buf_waiting_procs ≡ ws)
          × (o ≡ gives_up false (returns no_error))
          × (state_of (k'.procs pid) ≡ some ready))

wakes_nobody :
    (pri : ℕ → ℕ) (b : Buffer) → b.buf_waiting_procs ≡ [] → buffer_wakeup_waiting_proc pri b ≡ none
unfolding buffer_wakeup_waiting_proc wakeup_waiting
wakes_nobody pri b w = rw (w, buffer_wakeup_waiting_proc)

wakes_one :
    (pri : ℕ → ℕ) (b : Buffer) (pid : ℕ) (ws : List ℕ)
    → wakeup_waiting b.buf_que_disc pri b.buf_waiting_procs ≡ some (pid, ws)
    → buffer_wakeup_waiting_proc pri b ≡ some (pid, record b { buf_waiting_procs = ws })
unfolding buffer_wakeup_waiting_proc
wakes_one pri b pid ws w = rw (w, buffer_wakeup_waiting_proc)

-- The end of the waking branch: the lock is opened in the state after the wake-up.
woken_Notified :
    (id : ℕ) (b : Buffer) (k k' : Kernel) (pid : ℕ) (ws : List ℕ)
    → b.buf_lock ≡ held_by k.hart
    → k.buffers id ≡ some b
    → wakeup_waiting b.buf_que_disc (pri_of k.procs) b.buf_waiting_procs ≡ some (pid, ws)
    → Awake pid (put_buffer id (record b { buf_waiting_procs = ws }) k) k'
    → Ensures
        (Notified id b k)
        (release_buffer id k' >>= λ released. some (gives_up false (returns no_error), released))
woken_Notified id b k k' pid ws l e w a =
    let after : Buffer = record b { buf_waiting_procs = ws } in
    let there : k'.buffers id ≡ some after =
      ap (λ s. s id) a.buffers ∙ update_at-some id (λ _. after) k.buffers e in
    rw (release_buffer_lem k' id after there (l ∙ ap held_by (sym a.hart))) (record {
      buf = record after { buf_lock = unlocked };
      at_id = update_at-some id _ k'.buffers there;
      body = refl;
      open_lock = refl;
      woken = inr (pid, ws, w, refl, refl, a.now_ready);
    })

pub notify_buffer_lem :
    (id : ℕ) (b : Buffer) (k : Kernel) (ws : List ℕ)
    → k.buffers id ≡ some b
    → b.buf_lock ≡ held_by k.hart
    → b.buf_waiting_procs ≡ ws
    → All (λ pid. CanWake is_buffer_timeout (k.procs pid)) ws
    → Ensures (Notified id b k) (notify_buffer id k)
unfolding notify_buffer leave_buffer
notify_buffer_lem id b k [] e l w a =
    rw (e, notify_buffer)
      (rw (wakes_nobody (pri_of k.procs) b w, Ensures)
        (rw (release_buffer_lem k id b e l, Ensures)
          (record {
            buf = record b { buf_lock = unlocked };
            at_id = update_at-some id _ k.buffers e;
            body = refl;
            open_lock = refl;
            woken = inl (w, w, refl, refl);
          })))
notify_buffer_lem id b k (p ∷ ps) e l w a =
    let c = wakeup_waiting_lem b.buf_que_disc (pri_of k.procs) p ps in
    let r : wakeup_waiting b.buf_que_disc (pri_of k.procs) b.buf_waiting_procs
        ≡ some (c.pid, c.before ++ c.after) =
      rw w c.result in
    let after : Buffer = record b { buf_waiting_procs = c.before ++ c.after } in
    let (k', woke, awake) = wake_lem is_buffer_timeout c.pid (put_buffer id after k) (
      All-middle _ c.before c.pid c.after
        (subst (All (λ pid. CanWake is_buffer_timeout (k.procs pid))) c.split a)) in
    rw (e, notify_buffer)
      (rw (wakes_one (pri_of k.procs) b c.pid (c.before ++ c.after) r, Ensures)
        (rw (woke, Ensures) (woken_Notified id b k k' c.pid (c.before ++ c.after) l e r awake)))

module _ (b : Buffer) (q : List Msg) (r : Represents b.buf_body q) where
  -- A buffer below its capacity takes the message.
  buffer_send_lem :
      (msg : Msg)
      → length q < b.buf_body.cc_cap
      → buffer_send b msg ≡ some (record b { buf_body = circbuf_enqueue b.buf_body msg })
  unfolding buffer_send buffer_is_full circbuf_enqueue
  buffer_send_lem msg h = rw (circbuf_is_full_lem r) (ground arith)

  not_full : length q < b.buf_body.cc_cap → buffer_is_full b ≡ false
  unfolding buffer_is_full
  not_full h = circbuf_is_full_lem r ∙ ground arith

-- The kernel with the buffer `id` locked by the running hart.
abbrev pub locked_buffer : ℕ → Kernel → Kernel
locked_buffer id k = on_buffer id (λ c. record c { buf_lock = held_by k.hart }) k

-- What a transfer leaves: the buffer stands for the queue `q`, its lock is open, and one of the
-- waiting processes, if there was one, is READY and out of the queue.
pub record Transferred (id : ℕ) (b : Buffer) (k : Kernel) (q : List Msg) (o : Outcome) (k' : Kernel)
    : Type 0 where
  pub buf : Buffer
  pub at_id : k'.buffers id ≡ some buf
  pub queue : Represents buf.buf_body q
  pub open_lock : buf.buf_lock ≡ unlocked
  pub woken :
      ((b.buf_waiting_procs ≡ []) × (o ≡ done no_error) × (k'.procs ≡ k.procs))
      ⊎ ((pid : ℕ) × (ws : List ℕ) × (wakeup_waiting b.buf_que_disc
              (pri_of k.procs)
              b.buf_waiting_procs
            ≡ some (pid, ws))
          × (buf.buf_waiting_procs ≡ ws)
          × (o ≡ gives_up false (returns no_error))
          × (state_of (k'.procs pid) ≡ some ready))

-- A transfer is the new ring, followed by the notification.
pub Notified-Transferred :
    (id : ℕ) (b : Buffer) (k : Kernel) (q : List Msg) (body : Circbuf Msg) (o : Outcome)
    (k' : Kernel)
    → Represents body q
    → Notified id
        (record b { buf_body = body })
        (put_buffer id (record b { buf_body = body }) k)
        o
        k'
    → Transferred id b k q o k'
Notified-Transferred id b k q body o k' r n = record {
  buf = n.buf;
  at_id = n.at_id;
  queue = rw n.body r;
  open_lock = n.open_lock;
  woken = elim n.woken [ inl (w, _, d, p) ↦ inl (w, d, p) | inr woken ↦ inr woken ];
}

finish_send_lem :
    (id : ℕ) (b : Buffer) (k : Kernel) (q : List Msg) (msg : Msg)
    → k.buffers id ≡ some b
    → b.buf_lock ≡ held_by k.hart
    → Represents b.buf_body q
    → length q < b.buf_body.cc_cap
    → All (λ pid. CanWake is_buffer_timeout (k.procs pid)) b.buf_waiting_procs
    → Ensures (Transferred id b k (q ++ msg ∷ [])) (finish_send_buffer id msg k)
unfolding finish_send_buffer
finish_send_lem id b k q msg e l r room a =
    let sent : Buffer = record b { buf_body = circbuf_enqueue b.buf_body msg } in
    rw (e, finish_send_buffer)
      (rw (buffer_send_lem b q r msg room, Ensures)
        (Ensures-map (Notified id sent (put_buffer id sent k)) _ _
          (λ o k'.
            Notified-Transferred id b k (q ++ msg ∷ []) (circbuf_enqueue b.buf_body msg) o k'
              (circbuf_enqueue-Represents msg r room))
          (notify_buffer_lem id sent (put_buffer id sent k) b.buf_waiting_procs
            (update_at-some id (λ _. sent) k.buffers e) l refl a)))

pub owned :
    (id : ℕ) (b : Buffer) (k : Kernel)
    → k.buffers id ≡ some b
    → b.buf_part_id ≡ k.cur_part
    → buffer_of_cur_part id k ≡ some b
unfolding buffer_of_cur_part
owned id b k e own = ground (arith, e, own)

-- The same in terms of the state before the lock was taken.
pub unlocked_Transferred :
    (id : ℕ) (b : Buffer) (k : Kernel) (q : List Msg) (o : Outcome) (k' : Kernel)
    → Transferred id (record b { buf_lock = held_by k.hart }) (locked_buffer id k) q o k'
    → Transferred id b k q o k'
unlocked_Transferred id b k q o k' n = record {
  buf = n.buf;
  at_id = n.at_id;
  queue = n.queue;
  open_lock = n.open_lock;
  woken = n.woken;
}

module _ (id : ℕ) (b : Buffer) (k : Kernel) (q : List Msg) (at_id : k.buffers id ≡ some b)
    (own : b.buf_part_id ≡ k.cur_part) (free : b.buf_lock.locked ≡ false)
    (sound : All (λ pid. CanWake is_buffer_timeout (k.procs pid)) b.buf_waiting_procs) where
  locked_at : (locked_buffer id k).buffers id ≡ some (record b { buf_lock = held_by k.hart })
  locked_at = update_at-some id _ k.buffers at_id

  -- SEND_BUFFER of a message of legal length to a buffer of the running partition that is below
  -- its capacity, whose lock is open and whose waiting processes are there, with a time event if
  -- they wait with a time-out; the time-out of the call is arbitrary: it comes through without
  -- blocking, the buffer stands for the queue with the message at its end, the lock is open again,
  -- and the service returns NO_ERROR, at once and with no process changed if nobody waits, and
  -- else after giving up the processor, with the process that the discipline chooses taken from
  -- the queue and READY.
  pub do_send_buffer_lem :
      (msg : Msg) (t : Time)
      → 0 < length msg
      → length msg ≤ b.buf_max_msg_size
      → Represents b.buf_body q
      → length q < b.buf_body.cc_cap
      → Ensures (Transferred id b k (q ++ msg ∷ [])) (do_send_buffer id msg t k)
  unfolding do_send_buffer
  do_send_buffer_lem msg t pos fits r room =
      let b' : Buffer = record b { buf_lock = held_by k.hart } in
      let short : ltb b.buf_max_msg_size (length msg) ≡ false = ground arith in
      let filled : (length msg == 0) ≡ false = ground arith in
      rw (owned id b k at_id own, do_send_buffer, Ensures)
        (rw short (
          rw filled (
            rw (acquire_buffer_lem k id b at_id free, Ensures)
              (rw (not_full b q r room) (
                Ensures-map _ _ _ (unlocked_Transferred id b k (q ++ msg ∷ [])) (
                  finish_send_lem id b' (locked_buffer id k) q msg locked_at refl r room sound))))))
