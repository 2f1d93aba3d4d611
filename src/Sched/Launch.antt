-- ===== src/Sched/Launch.antt =====
-- `sched_launch` of kern/multitask/sched.c: the major frame and the first activations.
pub mod Activations
pub mod MajorFrame
use jrinx.Base.{
  ℕ, zero, suc, Bool, true, false, ◌||◌, Option, none, some, List, [], ◌∷◌, if◌then◌else◌,
}
use jrinx.Base.Int.{pos}
use jrinx.Types.{Time, lt_time, add_time}
use jrinx.Kernel.{Kernel, Part, partition_activate, ◌>>=◌, boottime_get_now}
use jrinx.Arithmetic.{lcm}
use jrinx.Timer.{time_event_alloc}
use jrinx.Sched.Modules.{SchedModule, SchedTable, sm_end}

-- The loop over the partitions, by their periods: `none` where `lcm` is not defined.
unfoldable pub major_frame : Time → List Time → Option Time
major_frame frame [] = some frame
major_frame frame (period ∷ periods) = do next ← lcm frame period; major_frame next periods

-- Some window ends after the frame.
unfoldable pub some_exceeds : Time → List SchedModule → Bool
some_exceeds frame [] = false
some_exceeds frame (m ∷ ms) = if lt_time frame (sm_end m) then true else some_exceeds frame ms

-- `next_mod->sm_offset`. Behind the last window `next_mod` comes from a NULL pointer; what the read
-- gives there is up to the machine: `behind_last`, which is `none` where the read faults.
unfoldable pub next_offset : Option Time → List SchedModule → Option Time
next_offset behind_last [] = behind_last
next_offset behind_last (m ∷ ms) = some m.sm_offset

-- The loop that queues the activation of every window but the first. The offset of the next window is
-- read and not used.
unfoldable pub set_timers :
    Option Time → Bool → Time → List SchedModule → Kernel → Option (List SchedModule × Kernel)
set_timers behind_last first now [] k = some ([], k)
set_timers behind_last first now (m ∷ ms) k = do
  let at = add_time now m.sm_offset
  let queued = if first then k else time_event_alloc partition_activate at k
  offset ← next_offset behind_last ms
  rest ← set_timers behind_last false now ms queued
  some (record m { sm_prev_act_time = at } ∷ rest.0, rest.1)

-- The periods of the partitions in the schedule, `none` for one that is not there.
unfoldable pub periods_of : List ℕ → Kernel → Option (List Time)
periods_of [] k = some []
periods_of (id ∷ ids) k = do
  part ← k.parts id
  rest ← periods_of ids k
  some (part.pa_period ∷ rest)

-- A launch with partitions. The outer `none` is what C leaves undefined, the inner one the error
-- -KER_SCHED_ER; the table keeps the major frame on an error too.
unfoldable pub launch_all : Option Time → SchedTable → Kernel → Option (SchedTable × Option Kernel)
launch_all behind_last t k = do
  periods ← periods_of t.sched_parts k
  frame ← major_frame (pos 1) periods
  let framed = record t { sched_major_frame = frame }
  if some_exceeds frame t.sched_modules then some (framed, none) else do
    let clock = boottime_get_now k
    set ← set_timers behind_last true clock.0 t.sched_modules clock.1
    some (record framed { sched_modules = set.0 }, some set.1)

-- `list_empty`.
abbrev pub is_empty : List ℕ → Bool
is_empty [] = true
is_empty (_ ∷ _) = false

unfoldable pub sched_launch :
    Option Time → SchedTable → Kernel → Option (SchedTable × Option Kernel)
sched_launch behind_last t k =
    if is_empty t.sched_parts then some (t, none) else launch_all behind_last t k
