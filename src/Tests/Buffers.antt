-- ===== src/Tests/Buffers.antt =====
-- The buffers, the ring and the wake-up (kern/comm, lib/circbuf.c) on the small system.
use jrinx.Base.{◌-◌, ◌^◌, ◌≡◌, refl, true, some, [], ◌∷◌, arith}
use jrinx.Base.Int.{pos, ◌+ℤ◌}
use jrinx.Circbuf.{circbuf_enqu_st, circbuf_enqu_ed, circbuf_init, circbuf_enqueue}
use jrinx.Types.{Time, le_time, add_time, fifo, priority, no_error}
use jrinx.Kernel.{Kernel}
use jrinx.Comm.Wait.Choice.{Woken, wakeup_waiting_lem}
use jrinx.Syscalls.Common.Wake.{Ensures, Receives}
use jrinx.Syscalls.Buffer.{do_send_buffer, do_receive_buffer}
use jrinx.Syscalls.Buffer.Send.{Transferred, do_send_buffer_lem}
use jrinx.Syscalls.Buffer.Take.{Received, do_receive_buffer_lem}
use jrinx.Syscalls.Buffer.Waits.{Waits, IsWakeup, do_send_buffer-Waits, do_receive_buffer-Waits}
use jrinx.Syscalls.Buffer.{send_again, receive_again}
use jrinx.Syscalls.Common.{written}
use jrinx.Syscalls.Create.{do_create_buffer}
use jrinx.Syscalls.Create.Created.{NewBuffer, do_create_buffer_lem}
use jrinx.Tests.System.{
  runner, ring, greeting, filled, a_buffer, system, ring-Represents, filled-Represents,
  waiter-CanWake, full_ring, full_ring-Represents, starting_part, starting,
}

do_send_buffer_example :
    Ensures
      (Transferred 7 (a_buffer ring) (system ring) (greeting ∷ []))
      (do_send_buffer 7 greeting (pos 0) (system ring))
unfolding circbuf_init
do_send_buffer_example =
    do_send_buffer_lem 7 (a_buffer ring) (system ring) [] refl refl refl (waiter-CanWake, tt)
      greeting (pos 0) (omega arith) (omega arith) ring-Represents (omega arith)

do_receive_buffer_example :
    Receives
      (Received 7 (a_buffer filled) (system filled) greeting [])
      (do_receive_buffer 7 (pos 0) (system filled))
do_receive_buffer_example =
    do_receive_buffer_lem 7 (a_buffer filled) (system filled) greeting [] (pos 0) refl refl refl
      (waiter-CanWake, tt) filled-Represents

wakeup_waiting_example : Woken priority (λ i. i) (3 ∷ 5 ∷ 4 ∷ [])
wakeup_waiting_example = wakeup_waiting_lem priority (λ i. i) 3 (5 ∷ 4 ∷ [])

do_send_buffer-Waits_example :
    (wakeup_time : Time) × IsWakeup (pos 30) (system full_ring) wakeup_time
    × Ensures
        (Waits send_again 7 wakeup_time (pos 30) (a_buffer full_ring) (system full_ring))
        (do_send_buffer 7 greeting (pos 30) (system full_ring))
unfolding circbuf_init circbuf_enqueue circbuf_enqu_st circbuf_enqu_ed ◌+ℤ◌
do_send_buffer-Waits_example =
    do_send_buffer-Waits 7 (a_buffer full_ring) (system full_ring) runner (greeting ∷ greeting ∷ [])
      (pos 30) refl refl refl refl full_ring-Represents greeting (omega arith) (omega arith) refl
      (λ _. omega arith)

do_receive_buffer-Waits_example :
    (wakeup_time : Time) × IsWakeup (pos 30) (system ring) wakeup_time
    × Receives
        (λ o m k'.
          (m ≡ written o)
          × Waits receive_again 7 wakeup_time (pos 30) (a_buffer ring) (system ring) o k')
        (do_receive_buffer 7 (pos 30) (system ring))
unfolding ◌+ℤ◌
do_receive_buffer-Waits_example =
    do_receive_buffer-Waits 7 (a_buffer ring) (system ring) runner [] (pos 30) refl refl refl refl
      ring-Represents refl (λ _. omega arith)

-- A long time-out, finite, whose sum with the clock wraps around: it counts as passed at once.
sum_too_large : le_time (add_time (pos 100) (pos (2 ^ 63 - 2))) (pos 100) ≡ true
unfolding add_time ◌+ℤ◌
sum_too_large = refl

do_create_buffer_example :
    (k' : Kernel) × (do_create_buffer "new" 16 3 fifo starting ≡ some (no_error, some 8, k'))
    × NewBuffer "new" 16 3 fifo starting_part starting 8 k'
do_create_buffer_example =
    do_create_buffer_lem "new" 16 3 fifo starting starting_part refl refl refl (omega arith)
      (omega arith) (omega arith) refl (omega arith)
