-- ===== src/Abi/Serve/Send.antt =====
-- SEND_BUFFER all the way, from the registers of the caller to the buffer and back
-- (include/user/sys/syscalls.h, kern/traps/syscalls.c).
use jrinx.Base.{
  ℕ, ◌+◌, ◌≡◌, refl, ◌∙◌, ap, ◌⊎◌, inl, inr, ◌<◌, ◌≤◌, false, none, some, List, [], ◌∷◌, ◌++◌, All,
  length,
}
use jrinx.Circbuf.{word}
use jrinx.Circbuf.Fifo.{Represents}
use jrinx.Types.{Time, no_error, is_buffer_timeout}
use jrinx.Kernel.{Kernel, Buffer, Msg, Outcome, Step, done, gives_up, returns}
use jrinx.Syscalls.Common.Wake.{Ensures, CanWake}
use jrinx.Syscalls.Buffer.{do_send_buffer}
use jrinx.Syscalls.Buffer.Send.{Transferred, do_send_buffer_lem}
use jrinx.Abi.Registers.{of_time}
use jrinx.Abi.Comm.{send_buffer, sys_send_buffer}
use jrinx.Abi.Dispatch.{buffer}
use jrinx.Abi.Received.{Passes}
use jrinx.Abi.Serve.{User, World, progress_of}
use jrinx.Abi.Serve.Groups.{serve, serve_buffer}
use jrinx.Abi.Serve.Return.{Frame, Ending, back, waits, ending, do_syscall, do_syscall_lem}

-- The caller behind its `ecall`, with NO_ERROR in a0.
abbrev pub succeeded : Frame → Frame
succeeded f = record { ctx_regs = record f.ctx_regs { a0 = 0 }; ctx_sepc = word (f.ctx_sepc + 4) }

-- The caller behind its `ecall`, with its registers as they were.
abbrev pub passed : Frame → Frame
passed f = record f { ctx_sepc = word (f.ctx_sepc + 4) }

-- How the system call ends with an outcome of the service.
abbrev pub Ends : Frame → Outcome → Ending → Type 0
Ends f o e =
    ((o ≡ done no_error) × (e ≡ back (succeeded f)))
    ⊎ ((o ≡ gives_up false (returns no_error)) × (e ≡ waits (passed f) false (returns no_error)))

Ensures-some :
    (P : Outcome → Kernel → Type 0) (s : Step)
    → Ensures P s
    → (o : Outcome) × (k' : Kernel) × (s ≡ some (o, k')) × P o k'
Ensures-some P none h = absurd h
Ensures-some P (some (o, k')) h = (o, k', refl, h)

Transferred-Ends :
    (id : ℕ) (b : Buffer) (k : Kernel) (q : List Msg) (o : Outcome) (k' : Kernel) (f : Frame)
    → Transferred id b k q o k'
    → Ends f o (ending (progress_of o) (passed f))
unfolding of_time
Transferred-Ends id b k q o k' f t = elim t.woken [
  | inl (_, o_done, _) ↦ inl (o_done, ap (λ x. ending (progress_of x) (passed f)) o_done)
  | inr (_, _, _, _, o_left, _) ↦ inr (o_left, ap (λ x. ending (progress_of x) (passed f)) o_left)
]

-- SEND_BUFFER of a program, with arguments that are values of their C types, of a message of legal
-- length to a buffer of its partition that is below its capacity, whose lock is open and whose waiting
-- processes can be woken up: the buffer stands for the queue with the caller's bytes at its end, its
-- lock is open, nothing is written to the caller's memory, and the program goes on behind its `ecall`
-- with NO_ERROR in a0 and all other registers as they were, at once if nobody waited, and else when
-- it gets the processor again, with the process that the discipline chooses READY.
pub do_syscall-send_buffer :
    (fuel : ℕ) (u : User) (f : Frame) (w : World) (id addr len : ℕ) (t : Time) (b : Buffer)
    (q : List Msg)
    → f.ctx_regs ≡ sys_send_buffer id addr len t
    → Passes (buffer (send_buffer id addr len t))
    → w.kernel.buffers id ≡ some b
    → b.buf_part_id ≡ w.kernel.cur_part
    → b.buf_lock.locked ≡ false
    → All (λ pid. CanWake is_buffer_timeout (w.kernel.procs pid)) b.buf_waiting_procs
    → 0 < length (u.bytes_at addr len)
    → length (u.bytes_at addr len) ≤ b.buf_max_msg_size
    → Represents b.buf_body q
    → length q < b.buf_body.cc_cap
    → (o : Outcome) × (k' : Kernel) × (e : Ending) × (do_syscall fuel u f w
        ≡ some (e, [], record w { kernel = k' }))
      × Transferred id b w.kernel (q ++ u.bytes_at addr len ∷ []) o k'
      × Ends f o e
unfolding serve serve_buffer
do_syscall-send_buffer fuel u f w id addr len t b q regs range at_id own free sound pos fits r
      room =
    let msg = u.bytes_at addr len in
    let (o, k', sent, transferred) =
      Ensures-some (Transferred id b w.kernel (q ++ msg ∷ [])) (do_send_buffer id msg t w.kernel)
        (do_send_buffer_lem id b w.kernel q at_id own free sound msg t pos fits r room) in
    (
      o,
      k',
      ending (progress_of o) (passed f),
      do_syscall_lem fuel u (buffer (send_buffer id addr len t)) f w regs range ∙ rw sent refl,
      transferred,
      Transferred-Ends id b w.kernel (q ++ msg ∷ []) o k' f transferred,
    )
