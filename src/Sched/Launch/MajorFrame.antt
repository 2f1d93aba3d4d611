-- ===== src/Sched/Launch/MajorFrame.antt =====
-- What `sched_launch` of kern/multitask/sched.c brings about.
use Prim.Native.Nat.{◌∣◌}
use native.Mathlib.Nat.{dvd_trans, dvd_refl, mul-le-mul_right, one-le-mul, le-mul_of_pos_right}
use mathlib.Core.Path.{subst}
use jrinx.Base.{
  ℕ, suc, ◌*◌, ◌^◌, ◌<◌, ◌≤◌, ◌≡◌, refl, ◌⊎◌, inl, inr, true, false, Bool-cases, Option, none, some,
  List, [], ◌∷◌, All, get_elem?, map, arith,
}
use jrinx.Base.Int.{pos, ◌≤ℤ◌}
use jrinx.Types.{Time, lt_time}
use jrinx.Kernel.{Kernel, boottime_get_now}
use jrinx.Arithmetic.Divisors.{lcm_lem}
use jrinx.Timer.Queue.{IsSorted}
use jrinx.Sched.Modules.{SchedModule, SchedTable, sm_end, window_end, EndsInRange, sm_end_lem}
use jrinx.Sched.Launch.{major_frame, some_exceeds, periods_of, is_empty, launch_all, sched_launch}
use jrinx.Sched.Launch.Activations.{
  faults, faults-none, started, StartsInRange, activations, all_but_first, Queued, set_timers_lem,
}

abbrev pub product : List ℕ → ℕ
product [] = 1
product (p ∷ ps) = p * product ps

abbrev pub times : List ℕ → List Time
times [] = []
times (p ∷ ps) = pos p ∷ times ps

abbrev pub Positive : List ℕ → Type 0
Positive ps = All (λ p. 0 < p) ps

-- Positive, and a multiple of every period.
abbrev pub IsFrame : List ℕ → ℕ → Type 0
IsFrame ps f = (0 < f) × All (λ p. p ∣ f) ps

Positive-product : (ps : List ℕ) → Positive ps → 0 < product ps
Positive-product [] h = omega arith
Positive-product (p ∷ ps) h = one-le-mul h.0 (Positive-product ps h.1)

major_frame_lem :
    (f : ℕ) (ps : List ℕ)
    → 0 < f
    → Positive ps
    → f * product ps < 2 ^ 63
    → (g : ℕ) × (major_frame (pos f) (times ps) ≡ some (pos g)) × (f ∣ g) × IsFrame ps g
unfolding major_frame
major_frame_lem f [] pf pp fits = (f, refl, dvd_refl f, (pf, tt))
major_frame_lem f (p ∷ ps) pf pp fits =
    let more : f * p ≤ f * p * product ps =
      le-mul_of_pos_right (f * p) (Positive-product ps pp.1) in
    let (l, e, pl, fl, pl', small) = lcm_lem f p pf pp.0 (omega arith) in
    let less : l * product ps ≤ f * p * product ps = mul-le-mul_right (product ps) small in
    let (g, e', lg, frame) = major_frame_lem l ps pl pp.1 (omega arith) in
    (g, rw e e', dvd_trans f fl lg, (frame.0, (dvd_trans p pl' lg, frame.1)))

-- A window that ends after the frame.
pub record EndsAfter (frame : Time) (ms : List SchedModule) : Type 0 where
  pub place : ℕ
  pub window : SchedModule
  pub there : get_elem? ms place ≡ some window
  pub ends : lt_time frame (window_end window) ≡ true

some_exceeds-EndsAfter :
    (frame : Time) (ms : List SchedModule)
    → EndsInRange ms
    → some_exceeds frame ms ≡ true
    → EndsAfter frame ms
unfolding some_exceeds
some_exceeds-EndsAfter frame [] range h = absurd (ground (arith, h))
some_exceeds-EndsAfter frame (m ∷ ms) range h = elim (Bool-cases (lt_time frame (sm_end m))) [
  | inl e ↦ record {
    place = 0;
    window = m;
    there = refl;
    ends = subst (λ t. lt_time frame t ≡ true) (sm_end_lem m range.0) e;
  }
  | inr e ↦
      let later = some_exceeds-EndsAfter frame ms range.1 (ground (arith, h, e)) in
      record {
        place = suc later.place;
        window = later.window;
        there = later.there;
        ends = later.ends;
      }
]

some_exceeds-none :
    (frame : Time) (ms : List SchedModule)
    → EndsInRange ms
    → some_exceeds frame ms ≡ false
    → All (λ m. window_end m ≤ℤ frame) ms
unfolding some_exceeds
some_exceeds-none frame [] range h = tt
some_exceeds-none frame (m ∷ ms) range h =
    let within : lt_time frame (sm_end m) ≡ false = ground (arith, h) in
    let not_after = subst (λ t. lt_time frame t ≡ false) (sm_end_lem m range.0) within in
    (ground (arith, not_after), some_exceeds-none frame ms range.1 (ground (arith, h)))

-- A launch that succeeds with a frame: every window has its first activation noted, counted from one
-- reading of the clock; the queue is in order and holds one event more for every window but the
-- first, an activation at that time.
abbrev pub Launched : Option Time → SchedTable → Kernel → ℕ → Type 0
Launched behind_last t k f =
    let now = k.clock k.reads in
    (k' : Kernel) × (sched_launch behind_last t k
      ≡ some (
        record t { sched_major_frame = pos f; sched_modules = map (started now) t.sched_modules },
        some k',
      ))
    × Queued (activations now k.next_event (all_but_first t.sched_modules)) k k'

-- What a launch with this frame comes to.
abbrev pub Launch : Option Time → SchedTable → Kernel → ℕ → Type 0
Launch behind_last t k f =
    (EndsAfter (pos f) t.sched_modules
      × (sched_launch behind_last t k ≡ some (record t { sched_major_frame = pos f }, none)))
    ⊎ (All (λ m. window_end m ≤ℤ pos f) t.sched_modules
        × (((faults behind_last t.sched_modules ≡ true) × (sched_launch behind_last t k ≡ none))
            ⊎ ((faults behind_last t.sched_modules ≡ false) × Launched behind_last t k f)))

-- The end of a launch, where no window ends after the frame.
finish_launch :
    (behind_last : Option Time) (t : SchedTable) (k : Kernel) (periods : List Time) (f : ℕ)
    → is_empty t.sched_parts ≡ false
    → periods_of t.sched_parts k ≡ some periods
    → major_frame (pos 1) periods ≡ some (pos f)
    → some_exceeds (pos f) t.sched_modules ≡ false
    → StartsInRange (k.clock k.reads) t.sched_modules
    → IsSorted k.time_events
    → ((faults behind_last t.sched_modules ≡ true) × (sched_launch behind_last t k ≡ none))
      ⊎ ((faults behind_last t.sched_modules ≡ false) × Launched behind_last t k f)
unfolding sched_launch launch_all boottime_get_now
finish_launch behind_last t k periods f parts known frame within range sorted =
    elim (Bool-cases (faults behind_last t.sched_modules)) [
      | inl e ↦
          let fault =
            faults-none behind_last (k.clock k.reads) t.sched_modules (boottime_get_now k).1 e in
          inl (
            e,
            rw (parts, sched_launch)
                (rw (known, launch_all) (rw frame (rw within (rw fault refl)))),
          )
      | inr e ↦
          let (k', set, q) =
            set_timers_lem behind_last (k.clock k.reads) t.sched_modules (boottime_get_now k).1 e
              range sorted in
          inr (
            e,
            (
              k',
              rw (parts, sched_launch)
                  (rw (known, launch_all) (rw frame (rw within (rw set refl)))),
              record { sorted = q.sorted; queue = q.queue },
            ),
          )
    ]

finish_framed :
    (behind_last : Option Time) (t : SchedTable) (k : Kernel) (periods : List Time) (f : ℕ)
    → is_empty t.sched_parts ≡ false
    → periods_of t.sched_parts k ≡ some periods
    → major_frame (pos 1) periods ≡ some (pos f)
    → EndsInRange t.sched_modules
    → StartsInRange (k.clock k.reads) t.sched_modules
    → IsSorted k.time_events
    → Launch behind_last t k f
unfolding sched_launch launch_all
finish_framed behind_last t k periods f parts known frame ends starts sorted =
    elim (Bool-cases (some_exceeds (pos f) t.sched_modules)) [
      | inl e ↦ inl (
        some_exceeds-EndsAfter (pos f) t.sched_modules ends e,
        rw (parts, sched_launch) (rw (known, launch_all) (rw frame (rw e refl))),
      )
      | inr e ↦ inr (
        some_exceeds-none (pos f) t.sched_modules ends e,
        finish_launch behind_last t k periods f parts known frame e starts sorted,
      )
    ]

-- A launch with partitions whose periods are positive, with a product in the range of the time type,
-- and with windows whose ends and first activations are in it: the major frame is positive and a
-- multiple of every period. Where some window ends after it, this is the error -KER_SCHED_ER, with
-- the frame noted. Else every window ends within the frame, and if there are windows and the read
-- through NULL behind the last one faults, the launch does not come through; if the read gives
-- anything, or there are no windows, the launch succeeds: every window has its first activation
-- noted, counted from one reading of the clock, and the queue of time events, which was in order, is
-- in order and holds what it held and for every window but the first its activation at this time.
pub sched_launch_lem :
    (behind_last : Option Time) (t : SchedTable) (k : Kernel) (periods : List ℕ)
    → is_empty t.sched_parts ≡ false
    → periods_of t.sched_parts k ≡ some (times periods)
    → Positive periods
    → product periods < 2 ^ 63
    → EndsInRange t.sched_modules
    → StartsInRange (k.clock k.reads) t.sched_modules
    → IsSorted k.time_events
    → (f : ℕ) × IsFrame periods f × Launch behind_last t k f
sched_launch_lem behind_last t k periods parts known positive fits ends starts sorted =
    let frame = major_frame_lem 1 periods (omega arith) positive (omega arith) in
    (
      frame.0,
      frame.3,
      finish_framed behind_last t k (times periods) frame.0 parts known frame.1 ends starts sorted,
    )
