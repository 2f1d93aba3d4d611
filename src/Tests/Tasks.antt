-- ===== src/Tests/Tasks.antt =====
-- The scheduler, the processes and the partition (kern/multitask, kern/traps/syscalls.c) on the small
-- system.
use jrinx.Base.{◌≢◌, ℕ, ◌≡◌, refl, true, false, ◌⊎◌, none, some, [], ◌∷◌, All, contains, arith}
use jrinx.Types.{ready, running, waiting, normal, no_error}
use jrinx.Kernel.{gives_up, returns}
use jrinx.Sched.{can_run, priority_of, sched_elect_next_proc}
use jrinx.Sched.Election.{AtMost, Elects, elect_by_priority, elect_round_robin}
use jrinx.Sched.Switch.{state_of, OnlyCurrentRuns, sched_proc-OnlyCurrentRuns}
use jrinx.Syscalls.Common.Wake.{Ensures}
use jrinx.Syscalls.Process.{do_suspend, do_resume}
use jrinx.Syscalls.Partition.{do_set_partition_mode}
use jrinx.Syscalls.Partition.Normal.{op_mode_of, state_in_normal, do_set_partition_mode_lem}
use jrinx.Syscalls.Process.Resumed.{do_resume-do_suspend}
use jrinx.Tests.System.{
  runner, other, some_procs, a_part, ring, system, one_runs, elected_three, starting_part, starting,
}

sched_proc-OnlyCurrentRuns_example :
    OnlyCurrentRuns elected_three.0
    × (state_of (elected_three.0.procs elected_three.0.cur_proc) ≡ some running)
sched_proc-OnlyCurrentRuns_example =
    sched_proc-OnlyCurrentRuns false (system ring) elected_three.0 one_runs elected_three.1

elect_by_priority_example :
    ((sched_elect_next_proc false (system ring) ≡ none)
      × All (λ i. can_run some_procs i ≡ false) a_part.pa_proc_list)
    ⊎ ((next : ℕ) × (sched_elect_next_proc false (system ring) ≡ some next)
        × (can_run some_procs next ≡ true)
        × (contains next a_part.pa_proc_list ≡ true)
        × AtMost some_procs (priority_of some_procs next) a_part.pa_proc_list)
elect_by_priority_example = elect_by_priority (system ring) a_part refl

elect_round_robin_example : Elects (system ring) a_part runner (2 ∷ 3 ∷ [])
elect_round_robin_example =
    elect_round_robin (system ring) a_part runner [] (2 ∷ 3 ∷ []) refl refl refl refl

-- Process 4 is of another partition, and there is no object 8.
do_set_partition_mode_example :
    Ensures
      (λ o k'.
        (o ≡ gives_up false (returns no_error))
        × (op_mode_of (k'.parts 1) ≡ some normal)
        × ((pid : ℕ)
            → state_of (k'.procs pid)
              ≡ state_in_normal 1 (1 ∷ 2 ∷ 3 ∷ []) pid (starting.procs pid)))
      (do_set_partition_mode normal starting)
do_set_partition_mode_example = do_set_partition_mode_lem starting starting_part refl (omega arith)

do_resume-do_suspend_example :
    Ensures
      (λ o k₁.
        (o ≡ gives_up false (returns no_error))
        × (state_of (k₁.procs 3) ≡ some waiting)
        × Ensures
            (λ o' k₂.
              (o' ≡ gives_up false (returns no_error))
              × (state_of (k₂.procs 3) ≡ some ready)
              × ((i : ℕ) → i ≢ 3 → k₂.procs i ≡ some_procs i))
            (do_resume 3 k₁))
      (do_suspend 3 (system ring))
do_resume-do_suspend_example =
    do_resume-do_suspend (system ring) 3 other refl refl refl (ground arith) refl
