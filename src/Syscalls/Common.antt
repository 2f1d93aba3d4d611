-- ===== src/Syscalls/Common.antt =====
-- What the services of kern/traps/syscalls.c share.
pub mod Wake
use jrinx.Base.{ℕ, Bool, false, not, Option, none, some, [], if◌then◌else◌}
use jrinx.Types.{RetCode, no_error, Time, ready, eq_time, system_time_infinite_val, WaitingReason}
use jrinx.Kernel.{Proc, Kernel, Msg, Outcome, Step, done, gives_up, returns, ◌>>=◌, on_proc}
use jrinx.Timer.{free_asso_timer}

-- A service that returns at once.
abbrev pub return : RetCode → Kernel → Step
return code k = some (done code, k)

-- `sched_proc_give_up(0); return NO_ERROR;`
abbrev pub give_up_and_return : Kernel → Step
give_up_and_return k = some (gives_up false (returns no_error), k)

abbrev pub is_timed : Time → Bool
is_timed time_out = not (eq_time time_out system_time_infinite_val)

-- `proc_is_period`.
unfoldable pub proc_is_period : Proc → Bool
proc_is_period p = is_timed p.pr_period

-- `if (…_WITH_TIMEOUT) time_event_free(to_wakeup->pr_asso_timer); to_wakeup->pr_state = READY;`
unfoldable pub wake : (WaitingReason → Bool) → ℕ → Kernel → Option Kernel
wake with_timeout pid k = do
  p ← k.procs pid
  freed ← if with_timeout p.pr_waiting_reason then free_asso_timer pid k else some k
  some (on_proc pid (λ q. record q { pr_state = ready }) freed)

-- A receiving service also says what it wrote: `some []` where it set `*length` to 0, `none` where
-- it wrote nothing.
abbrev pub Receive : Type 0
Receive = Option (Outcome × Option Msg × Kernel)

-- Coming back without a message sets the length to 0; giving up the processor writes nothing.
abbrev pub written : Outcome → Option Msg
written (done _) = some []
written (gives_up _ _) = none

abbrev pub without_message : Step → Receive
without_message s = do r ← s; some (r.0, written r.0, r.1)

abbrev pub with_message : Msg → Step → Receive
with_message msg s = do r ← s; some (r.0, some msg, r.1)
