-- ===== src/Tests/Timers.antt =====
-- The time events and the table of windows (kern/traps/timer.c, kern/multitask/sched.c) on the small
-- system.
use jrinx.Base.{[], ◌∷◌, ◌++◌, ℕ, ◌≡◌, refl, ◌&&◌, ◌⊎◌, none, some, arith, if◌then◌else◌}
use jrinx.Base.Int.{pos, ◌+ℤ◌}
use jrinx.Kernel.{TimeEvent, Kernel, process_suspend_timeout}
use jrinx.Timer.{time_event_action, time_event_alloc, time_event_set_head}
use jrinx.Timer.Queue.{IsSorted, Inserted, time_event_alloc_lem, asso_timer_of, is_for, is_there}
use jrinx.Timer.Action.{Acted, time_event_action_lem}
use jrinx.Sched.Modules.{
  InOrder, LastEndsAfter, window_of, sched_module_add, sched_module_add-InOrder,
}
use jrinx.Tests.System.{event, some_procs, ring, system, events-IsSorted, two_windows, third}

time_event_action_example :
    (k' : Kernel) × Acted
      (system ring).time_events
      (system ring)
      (time_event_action (system ring)).0
      k'
    × ((time_event_action (system ring)).1 ≡ time_event_set_head k')
time_event_action_example = time_event_action_lem (system ring)

time_event_alloc_example :
    let k' = time_event_alloc (process_suspend_timeout 1) (pos 60) (system ring) in
    let te : TimeEvent = event 2 60 (process_suspend_timeout 1) in
    IsSorted k'.time_events
    × Inserted te (system ring).time_events k'.time_events
    × ((pid : ℕ)
        → asso_timer_of (k'.procs pid) ≡ (
            if is_for pid (some 1) && is_there (some_procs pid)
            then some te
            else asso_timer_of (some_procs pid)))
time_event_alloc_example =
    time_event_alloc_lem (process_suspend_timeout 1) (pos 60) (system ring) events-IsSorted

sched_module_add-InOrder_example :
    let mods' = two_windows ++ window_of (pos 0) 1 third ∷ [] in
    (LastEndsAfter (pos 500) two_windows
      × (sched_module_add (pos 0) (λ _. some 1) third two_windows ≡ none))
    ⊎ ((sched_module_add (pos 0) (λ _. some 1) third two_windows ≡ some mods') × InOrder mods')
unfolding ◌+ℤ◌
sched_module_add-InOrder_example =
    sched_module_add-InOrder (pos 0) (λ _. some 1) third two_windows 1 refl
      (omega arith, (omega arith, tt)) (omega arith, tt)
