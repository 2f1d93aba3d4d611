-- ===== src/Sched/Modules.antt =====
-- The table of partition windows of kern/multitask/sched.c: a window gives a partition the
-- processor from an offset in the major frame on, for a duration.
use mathlib.Core.Path.{subst}
use native.Mathlib.Nat.{mod_self, mod-eq_of_lt, mod-lt, mod-add-mod}
use jrinx.Base.{
  ℕ, zero, suc, ◌+◌, ◌%◌, ◌<◌, ◌≡◌, ◌⊎◌, length, get_elem?, set_elem, ◌==◌, refl, sym, ◌∙◌, ap,
  Bool, true, false, Bool-cases, inl, inr, Option, none, some, List, All, [], ◌∷◌, ◌++◌, arith,
  if◌then◌else◌,
}
use jrinx.Base.Int.{◌+ℤ◌, ◌≤ℤ◌}
use jrinx.Types.{Time, IsTime, add_time, add_time_lem, Name, lt_time}
use jrinx.Kernel.{Kernel, partition_activate, ◌>>=◌}
use jrinx.Timer.{time_event_alloc}
use jrinx.Sched.{sched_proc}

pub record SchedModule : Type 0 where
  pub sm_part : ℕ
  pub sm_offset : Time
  pub sm_duration : Time
  pub sm_prev_act_time : Time

pub record SchedConf : Type 0 where
  pub sc_pa_name : Name
  pub sc_offset : Time
  pub sc_duration : Time

-- `sm_offset + sm_duration`.
abbrev pub sm_end : SchedModule → Time
sm_end m = add_time m.sm_offset m.sm_duration

-- The end of a window, and that the sum is in the range of the time type.
abbrev pub window_end : SchedModule → Time
window_end m = m.sm_offset +ℤ m.sm_duration

abbrev pub EndsInRange : List SchedModule → Type 0
EndsInRange mods = All (λ m. IsTime (window_end m)) mods

pub sm_end_lem : (m : SchedModule) → IsTime (window_end m) → sm_end m ≡ window_end m
sm_end_lem m h = add_time_lem m.sm_offset m.sm_duration h

-- `list_last` and the comparison with it: whether the last window ends after the offset.
unfoldable pub overlaps_last : Time → List SchedModule → Bool
overlaps_last offset [] = false
overlaps_last offset (m ∷ []) = lt_time offset (sm_end m)
overlaps_last offset (m ∷ m' ∷ ms) = overlaps_last offset (m' ∷ ms)

-- `sched_module_add` with the map of `part_from_name`: the new table, `none` for the errors. What
-- `kalloc` leaves in `sm_prev_act_time` is not determined: `garbage`.
unfoldable pub sched_module_add :
    Time → (Name → Option ℕ) → SchedConf → List SchedModule → Option (List SchedModule)
sched_module_add garbage part_from_name conf mods = do
  part ← part_from_name conf.sc_pa_name
  if overlaps_last conf.sc_offset mods
      then none
      else some (
          mods
          ++ record {
            sm_part = part;
            sm_offset = conf.sc_offset;
            sm_duration = conf.sc_duration;
            sm_prev_act_time = garbage;
          }
            ∷ [])

-- `sched_add_part`.
unfoldable pub sched_add_part : ℕ → List ℕ → List ℕ
sched_add_part part parts = parts ++ part ∷ []

-- The windows follow each other: each ends before the next one begins.
abbrev pub InOrder : List SchedModule → Type 0
InOrder [] = Unit
InOrder (m ∷ []) = Unit
InOrder (m ∷ m' ∷ ms) = (window_end m ≤ℤ m'.sm_offset) × InOrder (m' ∷ ms)

InOrder-append :
    (m : SchedModule) (ms : List SchedModule)
    → EndsInRange ms
    → InOrder ms
    → overlaps_last m.sm_offset ms ≡ false
    → InOrder (ms ++ m ∷ [])
unfolding overlaps_last
InOrder-append m [] r o h = tt
InOrder-append m (x ∷ []) r o h =
    let not_after = subst (λ t. lt_time m.sm_offset t ≡ false) (sm_end_lem x r.0) h in
    (ground (arith, not_after), tt)
InOrder-append m (x ∷ y ∷ ms) r o h = (o.0, InOrder-append m (y ∷ ms) r.1 o.1 h)

-- The last window of a table ends after this time.
pub record LastEndsAfter (offset : Time) (mods : List SchedModule) : Type 0 where
  pub front : List SchedModule
  pub last : SchedModule
  pub split : mods ≡ front ++ last ∷ []
  pub ends : lt_time offset (window_end last) ≡ true

overlaps_last-LastEndsAfter :
    (offset : Time) (mods : List SchedModule)
    → EndsInRange mods
    → overlaps_last offset mods ≡ true
    → LastEndsAfter offset mods
unfolding overlaps_last
overlaps_last-LastEndsAfter offset [] r h = absurd (ground (arith, h))
overlaps_last-LastEndsAfter offset (m ∷ []) r h = record {
  front = [];
  last = m;
  split = refl;
  ends = subst (λ t. lt_time offset t ≡ true) (sm_end_lem m r.0) h;
}
overlaps_last-LastEndsAfter offset (m ∷ m' ∷ ms) r h =
    let rest = overlaps_last-LastEndsAfter offset (m' ∷ ms) r.1 h in
    record {
      front = m ∷ rest.front;
      last = rest.last;
      split = ap (◌∷◌ m) rest.split;
      ends = rest.ends;
    }

-- The window that a configuration asks for.
abbrev pub window_of : Time → ℕ → SchedConf → SchedModule
window_of garbage part conf = record {
  sm_part = part;
  sm_offset = conf.sc_offset;
  sm_duration = conf.sc_duration;
  sm_prev_act_time = garbage;
}

-- Adding a window of a known partition to a table of windows that follow each other, whose ends are
-- in the range of the time type: it is refused if the last window ends after the new one's offset, and else the new window, of this partition and
-- with the offset and the duration of the configuration, comes behind all others, which stay, and
-- each window ends before the next one begins.
pub sched_module_add-InOrder :
    (garbage : Time) (part_from_name : Name → Option ℕ) (conf : SchedConf) (mods : List SchedModule)
    (part : ℕ)
    → part_from_name conf.sc_pa_name ≡ some part
    → EndsInRange mods
    → InOrder mods
    → let mods' = mods ++ window_of garbage part conf ∷ [] in
      (LastEndsAfter conf.sc_offset mods
        × (sched_module_add garbage part_from_name conf mods ≡ none))
      ⊎ ((sched_module_add garbage part_from_name conf mods ≡ some mods') × InOrder mods')
unfolding sched_module_add
sched_module_add-InOrder garbage part_from_name conf mods part known r o =
    elim (Bool-cases (overlaps_last conf.sc_offset mods)) [
      | inl e ↦
          inl (
            overlaps_last-LastEndsAfter conf.sc_offset mods r e,
            rw (known, sched_module_add) (rw e),
          )
      | inr e ↦ inr (
        rw (known, sched_module_add) (rw e),
        InOrder-append (window_of garbage part conf) mods r o e,
      )
    ]

-- `sched_modules`, `sched_parts`, `sched_cur_mod` (by its position) and `sched_major_frame`.
pub record SchedTable : Type 0 where
  pub sched_modules : List SchedModule
  pub sched_parts : List ℕ
  pub sched_cur_mod : Option ℕ
  pub sched_major_frame : Time

-- The window after the current one, the first after the last.
unfoldable pub next_module : Option ℕ → List SchedModule → ℕ
next_module none mods = 0
next_module (some i) mods = if suc i == length mods then 0 else suc i

-- The activation of a window: its next activation is queued, one major frame after this one.
activate : SchedTable → ℕ → SchedModule → Kernel → Option (SchedTable × Kernel)
activate t i m k = do
  let again = add_time m.sm_prev_act_time t.sched_major_frame
  let queued = time_event_alloc partition_activate again k
  switched ← sched_proc false (record queued { cur_part = m.sm_part })
  some (
    record t {
      sched_cur_mod = some i;
      sched_modules = set_elem i (record m { sm_prev_act_time = again }) t.sched_modules;
    },
    switched,
  )

-- `sched_global`; without windows the first partition runs, and `none` is an assertion that fails or
-- a round that elects nobody.
unfoldable pub sched_global : SchedTable → Kernel → Option (SchedTable × Kernel)
unfolding activate
sched_global t k = elim t.sched_modules [
  | [] ↦ do
    part ← get_elem? t.sched_parts 0
    switched ← sched_proc false (record k { cur_part = part })
    some (t, switched)
  | m ∷ ms ↦ do
    let i = next_module t.sched_cur_mod t.sched_modules
    next ← get_elem? t.sched_modules i
    activate t i next k
]

-- The window in turn after a number of activations.
unfoldable pub after_activations : ℕ → ℕ → List SchedModule → ℕ
after_activations zero i mods = i
after_activations (suc n) i mods = after_activations n (next_module (some i) mods) mods

next_module-mod :
    (i : ℕ) (mods : List SchedModule)
    → i < length mods
    → next_module (some i) mods ≡ (i + 1) % length mods
unfolding next_module
next_module-mod i mods h = elim (Bool-cases (suc i == length mods)) [
  | inl e ↦ rw e (sym (mod_self (length mods)) ∙ ap (λ (t : ℕ). t % length mods) (ground arith))
  | inr e ↦ rw e (sym (mod-eq_of_lt (ground arith)) ∙ ap (λ (t : ℕ). t % length mods) (omega arith))
]

-- The windows take turns: from a window of the table on, the window after `n` activations is the one
-- `n` positions further, counted round the table.
pub after_activations_lem :
    (n i : ℕ) (mods : List SchedModule)
    → i < length mods
    → after_activations n i mods ≡ (i + n) % length mods
unfolding after_activations
after_activations_lem zero i mods h =
    sym (mod-eq_of_lt h) ∙ ap (λ (t : ℕ). t % length mods) (omega arith)
after_activations_lem (suc n) i mods h = rw (next_module-mod i mods h) (
    after_activations_lem n ((i + 1) % length mods) mods (mod-lt (i + 1) (omega arith))
    ∙ mod-add-mod (i + 1) (length mods) n
    ∙ ap (λ (t : ℕ). t % length mods) (omega arith))
