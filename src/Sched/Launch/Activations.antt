-- ===== src/Sched/Launch/Activations.antt =====
-- The activations that `sched_launch` of kern/multitask/sched.c queues.
use mathlib.Core.List.{Perm, perm_middle}
use mathlib.Core.List.Perm
use jrinx.Base.{
  ℕ, suc, ◌≡◌, refl, Bool, true, false, Option, none, some, List, [], ◌∷◌, ◌++◌, All, map, arith,
}
use jrinx.Base.Int.{◌+ℤ◌}
use jrinx.Types.{Time, IsTime, add_time, add_time_lem}
use jrinx.Kernel.{Kernel, partition_activate, TimeEvent}
use jrinx.Timer.{time_event_alloc, time_event_set_head}
use jrinx.Timer.Queue.{IsSorted, time_event_alloc_lem, insert_event-Perm}
use jrinx.Sched.Modules.{SchedModule}
use jrinx.Sched.Launch.{set_timers, next_offset}

-- The read behind the last window faults, and there is a last window.
abbrev pub faults : Option Time → List SchedModule → Bool
faults (some offset) ms = false
faults none [] = false
faults none (m ∷ ms) = true

-- The window with its first activation noted.
abbrev pub started : Time → SchedModule → SchedModule
started now m = record m { sm_prev_act_time = now +ℤ m.sm_offset }

-- The first activations are in the range of the time type.
abbrev pub StartsInRange : Time → List SchedModule → Type 0
StartsInRange now ms = All (λ m. IsTime (now +ℤ m.sm_offset)) ms

-- One event for each window, at the time of its first activation.
abbrev pub activations : Time → ℕ → List SchedModule → List TimeEvent
activations now address [] = []
activations now address (m ∷ ms) =
    record { te_address = address; te_time = now +ℤ m.sm_offset; te_kind = partition_activate }
    ∷ activations now (suc address) ms

abbrev pub all_but_first : List SchedModule → List SchedModule
all_but_first [] = []
all_but_first (m ∷ ms) = ms

set_timers-faults :
    (first : Bool) (now : Time) (m : SchedModule) (ms : List SchedModule) (k : Kernel)
    → set_timers none first now (m ∷ ms) k ≡ none
unfolding set_timers next_offset
set_timers-faults first now m [] k = refl
set_timers-faults true now m (m' ∷ ms) k = rw (set_timers-faults false now m' ms k) refl
set_timers-faults false now m (m' ∷ ms) k =
    let queued = time_event_alloc partition_activate (add_time now m.sm_offset) k in
    rw (set_timers-faults false now m' ms queued) refl

pub faults-none :
    (behind_last : Option Time) (now : Time) (ms : List SchedModule) (k : Kernel)
    → faults behind_last ms ≡ true
    → set_timers behind_last true now ms k ≡ none
faults-none (some offset) now ms k h = absurd (ground (arith, h))
faults-none none now [] k h = absurd (ground (arith, h))
faults-none none now (m ∷ ms) k h = set_timers-faults true now m ms k

-- The queue in order, with these events more than before.
pub record Queued (more : List TimeEvent) (k k' : Kernel) : Type 0 where
  pub sorted : IsSorted k'.time_events
  pub queue : Perm k'.time_events (more ++ k.time_events)

next_offset-some :
    (offset : Time) (ms : List SchedModule)
    → (next : Time) × (next_offset (some offset) ms ≡ some next)
unfolding next_offset
next_offset-some offset [] = (offset, refl)
next_offset-some offset (m ∷ ms) = (m.sm_offset, refl)

-- The rounds after the first one.
later_timers :
    (offset now : Time) (ms : List SchedModule) (k : Kernel)
    → StartsInRange now ms
    → IsSorted k.time_events
    → (k' : Kernel) × (set_timers (some offset) false now ms k ≡ some (map (started now) ms, k'))
      × Queued (activations now k.next_event ms) k k'
unfolding set_timers time_event_alloc time_event_set_head
later_timers offset now [] k range sorted =
    (k, refl, record { sorted = sorted; queue = Perm.refl k.time_events })
later_timers offset now (m ∷ ms) k range sorted =
    let at = now +ℤ m.sm_offset in
    let te : TimeEvent = record {
      te_address = k.next_event;
      te_time = at;
      te_kind = partition_activate;
    } in
    let queued = time_event_alloc partition_activate at k in
    let next = next_offset-some offset ms in
    let (k', rest, q) =
      later_timers offset now ms queued range.1
        (time_event_alloc_lem partition_activate at k sorted).0 in
    let more = activations now (suc k.next_event) ms in
    (
      k',
      rw (add_time_lem now m.sm_offset range.0) (rw next.1 (rw rest refl)),
      record {
        sorted = q.sorted;
        queue = Perm.trans q.queue (
            Perm.trans (Perm.append_left more (insert_event-Perm te k.time_events))
              (perm_middle more k.time_events));
      },
    )

pub set_timers_lem :
    (behind_last : Option Time) (now : Time) (ms : List SchedModule) (k : Kernel)
    → faults behind_last ms ≡ false
    → StartsInRange now ms
    → IsSorted k.time_events
    → (k' : Kernel) × (set_timers behind_last true now ms k ≡ some (map (started now) ms, k'))
      × Queued (activations now k.next_event (all_but_first ms)) k k'
unfolding set_timers
set_timers_lem behind_last now [] k reads range sorted =
    (k, refl, record { sorted = sorted; queue = Perm.refl k.time_events })
set_timers_lem none now (m ∷ ms) k reads range sorted = absurd (ground (arith, reads))
set_timers_lem (some offset) now (m ∷ ms) k reads range sorted =
    let next = next_offset-some offset ms in
    let (k', rest, q) = later_timers offset now ms k range.1 sorted in
    (k', rw (add_time_lem now m.sm_offset range.0) (rw next.1 (rw rest refl)), q)
