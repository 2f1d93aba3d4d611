-- ===== src/Syscalls/Buffer/Take.antt =====
-- RECEIVE_BUFFER of kern/traps/syscalls.c where it does not block.
use jrinx.Base.{ℕ, ◌≡◌, refl, ◌∙◌, false, Option, some, List, ◌∷◌, All, arith, update_at-some, ap}
use jrinx.Circbuf.{circbuf_dequeue}
use jrinx.Circbuf.Fifo.{Represents, circbuf_is_empty_lem, circbuf_dequeue-Represents}
use jrinx.Types.{Time, is_buffer_timeout}
use jrinx.Kernel.{Kernel, Buffer, Msg, Outcome}
use jrinx.Comm.Buffer.{buffer_is_empty, buffer_recv}
use jrinx.Syscalls.Common.Wake.{CanWake, Receives, Receives-with_message, Receives-map}
use jrinx.Syscalls.Buffer.{finish_receive_buffer, do_receive_buffer}
use jrinx.Syscalls.Buffer.Send.{
  held_by, put_buffer, locked_buffer, Notified, notify_buffer_lem, Transferred,
  Notified-Transferred, owned, acquire_buffer_lem, unlocked_Transferred,
}

module _ (b : Buffer) (x : Msg) (q : List Msg) (r : Represents b.buf_body (x ∷ q)) where
  not_empty : buffer_is_empty b ≡ false
  unfolding buffer_is_empty
  not_empty = circbuf_is_empty_lem r ∙ ground arith

  -- A buffer that is not empty gives its oldest message.
  buffer_recv_lem : buffer_recv b ≡ some (x, record b { buf_body = (circbuf_dequeue b.buf_body).1 })
  unfolding buffer_recv circbuf_dequeue
  buffer_recv_lem = rw not_empty (
      ap {B = Option (Msg × Buffer)}
        (λ m. some (m, record b { buf_body = (circbuf_dequeue b.buf_body).1 }))
        (circbuf_dequeue-Represents r).0)

-- What a receiving service gives: the message, and the rest of the queue left in the buffer.
abbrev pub Received : ℕ → Buffer → Kernel → Msg → List Msg → Outcome → Option Msg → Kernel → Type 0
Received id b k x q o m k' = (m ≡ some x) × Transferred id b k q o k'

finish_receive_lem :
    (id : ℕ) (b : Buffer) (k : Kernel) (x : Msg) (q : List Msg)
    → k.buffers id ≡ some b
    → b.buf_lock ≡ held_by k.hart
    → Represents b.buf_body (x ∷ q)
    → All (λ pid. CanWake is_buffer_timeout (k.procs pid)) b.buf_waiting_procs
    → Receives (Received id b k x q) (finish_receive_buffer id k)
unfolding finish_receive_buffer
finish_receive_lem id b k x q e l r a =
    let left : Buffer = record b { buf_body = (circbuf_dequeue b.buf_body).1 } in
    rw (e, finish_receive_buffer, Receives)
      (rw (buffer_recv_lem b x q r, Receives)
        (Receives-with_message x (Notified id left (put_buffer id left k)) (Received id b k x q) _
          (λ o k' n. (
            refl,
            Notified-Transferred id b k q (circbuf_dequeue b.buf_body).1 o k'
                (circbuf_dequeue-Represents r).1 n,
          ))
          (notify_buffer_lem id left (put_buffer id left k) b.buf_waiting_procs
            (update_at-some id (λ _. left) k.buffers e) l refl a)))

-- RECEIVE_BUFFER from a buffer of the running partition that is not empty, whose lock is open and
-- whose waiting processes are there, with a time event if they wait with a time-out; the time-out
-- of the call is arbitrary: it comes through without blocking and gives the oldest message, the
-- buffer stands for the rest of the queue, the lock is open again, and the service returns
-- NO_ERROR, at once and with no process changed if nobody waits, and else after giving up the
-- processor, with the process that the discipline chooses taken from the queue and READY.
pub do_receive_buffer_lem :
    (id : ℕ) (b : Buffer) (k : Kernel) (x : Msg) (q : List Msg) (t : Time)
    → k.buffers id ≡ some b
    → b.buf_part_id ≡ k.cur_part
    → b.buf_lock.locked ≡ false
    → All (λ pid. CanWake is_buffer_timeout (k.procs pid)) b.buf_waiting_procs
    → Represents b.buf_body (x ∷ q)
    → Receives (Received id b k x q) (do_receive_buffer id t k)
unfolding do_receive_buffer
do_receive_buffer_lem id b k x q t e own free sound r =
    let b' : Buffer = record b { buf_lock = held_by k.hart } in
    rw (owned id b k e own, do_receive_buffer, Receives)
      (rw (acquire_buffer_lem k id b e free, Receives)
        (rw (not_empty b x q r) (
          Receives-map (Received id b' (locked_buffer id k) x q) (Received id b k x q) _
            (λ o m k' n. (n.0, unlocked_Transferred id b k q o k' n.1))
            (finish_receive_lem id b' (locked_buffer id k) x q (update_at-some id _ k.buffers e)
              refl r sound))))
