-- ===== src/Syscalls/Partition/Normal.antt =====
-- SET_PARTITION_MODE of kern/traps/syscalls.c to the normal mode.
use mathlib.Core.Path.{subst}
use mathlib.Core.Option
use jrinx.Base.{
  ℕ, ◌≡◌, ◌≢◌, refl, sym, ◌∙◌, ap, Bool, true, false, ◌||◌, ◌&&◌, Bool-cases, Option-cases, inl,
  inr, Option, none, some, List, [], ◌∷◌, contains, arith, Store, update_at, update_at-some,
  update_at_self, update_at_ne, ◌==◌, if◌then◌else◌,
}
use jrinx.Types.{
  ProcState, WaitingReason, ready, waiting, previous_started, dormant, running, faulted, normal,
  no_error, is_waiting, is_previous_started,
}
use jrinx.Kernel.{Proc, Part, Kernel, gives_up, returns}
use jrinx.Sched.Switch.{state_of}
use jrinx.Syscalls.Common.Wake.{Ensures}
use jrinx.Syscalls.Partition.{start_previous, start_all, do_set_partition_mode}

-- Of the processes that wait, those that were started before normal mode are READY in it.
abbrev pub state_from : ProcState → WaitingReason → ProcState
state_from waiting previous_started = ready
state_from state reason = state

-- The state that a process has in normal mode: the caller is DORMANT, the others of the partition
-- are READY if they waited for the start and else keep their state, as those of other partitions do.
abbrev pub state_in_normal : ℕ → List ℕ → ℕ → Option Proc → Option ProcState
state_in_normal cur pids pid none = none
state_in_normal cur pids pid (some p) =
    if pid == cur
    then some dormant
    else if contains pid pids
    then some (state_from p.pr_state p.pr_waiting_reason)
    else some p.pr_state

-- The state of a process after the assignment in the loop.
abbrev started : Option Proc → Option ProcState
started none = none
started (some p) = some (start_previous p).pr_state

state_from_lem :
    (s : ProcState) (r : WaitingReason)
    → (if is_waiting s && is_previous_started r then ready else s) ≡ state_from s r
state_from_lem waiting r =
    elim r as (λ x. (if is_previous_started x then ready else waiting) ≡ state_from waiting x) [
      | previous_started ↦ refl
      | _ ↦ refl
    ]
state_from_lem dormant r = refl
state_from_lem ready r = refl
state_from_lem running r = refl
state_from_lem faulted r = refl

start_previous-state :
    (p : Proc) → (start_previous p).pr_state ≡ state_from p.pr_state p.pr_waiting_reason
start_previous-state p =
    elim (Bool-cases (is_waiting p.pr_state && is_previous_started p.pr_waiting_reason)) [
      | inl e ↦ rw e (sym (rw e refl) ∙ state_from_lem p.pr_state p.pr_waiting_reason)
      | inr e ↦ rw e (sym (rw e refl) ∙ state_from_lem p.pr_state p.pr_waiting_reason)
    ]

abbrev pub op_mode_of : Option Part → Option ℕ
op_mode_of none = none
op_mode_of (some part) = some part.pa_op_mode

-- Being started twice is being started once.
started_twice :
    (o : Option Proc) → (p : Proc) → o ≡ some p → started (some (start_previous p)) ≡ started o
started_twice o p h =
    elim (Bool-cases (is_waiting p.pr_state && is_previous_started p.pr_waiting_reason)) [
      | inl e ↦ rw h (rw e refl)
      | inr e ↦ rw h (rw e (rw e refl))
    ]

started-at_self :
    (i : ℕ) (procs : Store Proc) (c : Bool)
    → (if c
        then started (update_at i start_previous procs i)
        else state_of (update_at i start_previous procs i))
      ≡ started (procs i)
started-at_self i procs c = elim (Option-cases (procs i)) [
  | inl n ↦
      let u : update_at i start_previous procs i ≡ none =
        update_at_self i start_previous procs ∙ rw n refl in
      rw u (rw n (at_none c))
  | inr (p, h) ↦ rw (update_at-some i start_previous procs h) (rw h (at_some c p))
]
  where
    at_none : (c : Bool) → (if c then started none else state_of none) ≡ none
    at_none true = refl
    at_none false = refl

    at_some :
        (c : Bool) (p : Proc)
        → (if c then started (some (start_previous p)) else state_of (some (start_previous p)))
          ≡ started (some p)
    at_some true p = started_twice (some p) p refl
    at_some false p = refl

started-at :
    (i : ℕ) (procs : Store Proc) (pid : ℕ) (c : Bool)
    → (if c
        then started (update_at i start_previous procs pid)
        else state_of (update_at i start_previous procs pid))
      ≡ (if i == pid || c then started (procs pid) else state_of (procs pid))
started-at i procs pid c = elim (Bool-cases (i == pid)) [
  | inl e ↦
      let same : i ≡ pid = ground arith in
      rw e (
        subst
          (λ j.
            (if c
              then started (update_at i start_previous procs j)
              else state_of (update_at i start_previous procs j))
            ≡ started (procs j))
          same (started-at_self i procs c))
  | inr e ↦ rw (update_at_ne i start_previous procs pid (ground arith)) (rw e)
]

start_all-at :
    (pids : List ℕ) (procs : Store Proc) (pid : ℕ)
    → state_of (start_all pids procs pid)
      ≡ (if contains pid pids then started (procs pid) else state_of (procs pid))
unfolding start_all update_at
start_all-at [] procs pid = refl
start_all-at (i ∷ pids) procs pid =
    start_all-at pids (update_at i start_previous procs) pid
    ∙ started-at i procs pid (contains pid pids)

abbrev stop : Proc → Proc
stop p = record p { pr_state = dormant }

-- The last step of the mode change, which stops the caller.
stop-at :
    (cur : ℕ) (pids : List ℕ) (pid : ℕ) (before after : Option Proc)
    → state_of after ≡ (if contains pid pids then started before else state_of before)
    → state_of (if pid == cur then Option.map stop after else after)
      ≡ state_in_normal cur pids pid before
stop-at cur pids pid none none h = ground (arith, h)
stop-at cur pids pid none (some q) h = ground (arith, h)
stop-at cur pids pid (some p) none h = let same = start_previous-state p in ground (arith, h, same)
stop-at cur pids pid (some p) (some q) h =
    let same = start_previous-state p in ground (arith, h, same)

-- SET_PARTITION_MODE to the normal mode from another one: the mode is stored, the caller is
-- DORMANT, every other process of the partition that waits for the start is READY, all other
-- processes keep their states, and the service gives up the processor before it returns NO_ERROR.
pub do_set_partition_mode_lem :
    (k : Kernel) (part : Part)
    → k.parts k.cur_part ≡ some part
    → part.pa_op_mode ≢ normal
    → Ensures
        (λ o k'.
          (o ≡ gives_up false (returns no_error))
          × (op_mode_of (k'.parts k.cur_part) ≡ some normal)
          × ((pid : ℕ)
              → state_of (k'.procs pid)
                ≡ state_in_normal k.cur_proc part.pa_proc_list pid (k.procs pid)))
        (do_set_partition_mode normal k)
unfolding do_set_partition_mode update_at
do_set_partition_mode_lem k part its other =
    let first : (part.pa_op_mode == normal) ≡ false = ground arith in
    rw (its, do_set_partition_mode, Ensures)
      (rw first (
        refl,
        ap op_mode_of (update_at-some k.cur_part _ k.parts its),
        λ pid.
            stop-at k.cur_proc part.pa_proc_list pid (k.procs pid)
              (start_all part.pa_proc_list k.procs pid)
              (start_all-at part.pa_proc_list k.procs pid),
      ))
