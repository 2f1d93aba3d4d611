-- ===== src/Sched.antt =====
-- kern/multitask/sched.c: the election of a process and the switch to it. `proc_run` (the address
-- space and the registers) is not part of the state.
pub mod Election
pub mod Switch
pub mod Modules
pub mod Launch
use jrinx.Base.{
  ℕ, Bool, true, false, ◌&&◌, Option, none, some, List, [], ◌∷◌, ◌++◌, Store, update_at, leb, ltb,
  ◌==◌, if◌then◌else◌,
}
use jrinx.Types.{ready, running, is_runnable, is_running}
use jrinx.Kernel.{Proc, Kernel, ◌>>=◌, on_proc}

-- READY or RUNNING, and of at least this priority; a NULL pointer is neither.
abbrev pub can_run : Store Proc → ℕ → Bool
can_run procs pid = elim (procs pid) [ none ↦ false | some p ↦ is_runnable p.pr_state ]

abbrev pub priority_of : Store Proc → ℕ → ℕ
priority_of procs pid = elim (procs pid) [ none ↦ 0 | some p ↦ p.pr_cur_pri ]

-- The processes behind `pid` in the list: `pr_sched_link.next` and what follows.
unfoldable pub behind : ℕ → List ℕ → List ℕ
behind pid [] = []
behind pid (q ∷ qs) = if q == pid then qs else behind pid qs

-- The first that can run with at least the given priority.
unfoldable pub first_at_least : Store Proc → ℕ → List ℕ → Option ℕ
first_at_least procs pri [] = none
first_at_least procs pri (pid ∷ pids) =
    if can_run procs pid && leb pri (priority_of procs pid)
    then some pid
    else first_at_least procs pri pids

-- `next_proc` is replaced by a process that can run and has a higher priority.
unfoldable pub better : Store Proc → Option ℕ → ℕ → Option ℕ
better procs none pid = if can_run procs pid then some pid else none
better procs (some best) pid =
    if can_run procs pid && ltb (priority_of procs best) (priority_of procs pid)
    then some pid
    else some best

unfoldable pub highest : Store Proc → Option ℕ → List ℕ → Option ℕ
highest procs best [] = best
highest procs best (pid ∷ pids) = highest procs (better procs best pid) pids

abbrev pub or_else : Option ℕ → Option ℕ → Option ℕ
or_else none b = b
or_else (some a) b = some a

-- One round of the loop of `sched_elect_next_proc`; on `none` it goes round again.
unfoldable pub sched_elect_next_proc : Bool → Kernel → Option ℕ
sched_elect_next_proc round_robin k = do
  part ← k.parts k.cur_part
  if round_robin
      then (do
        cur ← k.procs k.cur_proc
        or_else (first_at_least k.procs cur.pr_cur_pri (behind k.cur_proc part.pa_proc_list))
            (first_at_least k.procs cur.pr_cur_pri part.pa_proc_list))
      else highest k.procs none part.pa_proc_list

-- `cur_proc->pr_state = READY` if it is RUNNING.
unfoldable pub demote : Proc → Proc
demote p = if is_running p.pr_state then record p { pr_state = ready } else p

abbrev run_next : ℕ → Kernel → Kernel
run_next next k = record k {
  procs = update_at next (λ p. record p { pr_state = running }) k.procs;
  cur_proc = next;
}

-- `sched_proc` where the first round elects a process; `none` is a round that elects nobody.
unfoldable pub sched_proc : Bool → Kernel → Option Kernel
sched_proc round_robin k = do
  let demoted = on_proc k.cur_proc demote k
  next ← sched_elect_next_proc round_robin demoted
  some (run_next next demoted)

-- `sched_proc_give_up`: the caller goes on at once, if it is elected itself, and else its context
-- is saved and `sched_proc` runs.
unfoldable pub sched_proc_give_up : Bool → Kernel → Option (Bool × Kernel)
unfolding sched_proc
sched_proc_give_up round_robin k = do
  next ← sched_elect_next_proc round_robin k
  if next == k.cur_proc
      then some (false, k)
      else do switched ← sched_proc round_robin k; some (true, switched)
