-- ===== src/Timer/Queue.antt =====
-- The time events of kern/traps/timer.c stay in the order of their times, and none is lost.
use mathlib.Core.List.{Perm, perm_middle}
use mathlib.Core.List.Perm
use jrinx.Base.{
  ℕ, ◌≡◌, refl, ap, Bool, true, false, Bool-cases, inl, inr, Option, none, some, List, [], ◌∷◌,
  ◌++◌, All, arith, Store, update_at, ◌==◌, ◌&&◌, if◌then◌else◌,
}
use jrinx.Base.Int.{◌≤ℤ◌}
use jrinx.Types.{Time, ready, lt_time}
use jrinx.Kernel.{EventKind, TimeEvent, Kernel, Proc}
use jrinx.Timer.{event_proc, insert_event, time_event_set_head, set_asso_timer, time_event_alloc}

-- In the order of their times.
abbrev pub IsSorted : List TimeEvent → Type 0
IsSorted [] = Unit
IsSorted (te ∷ rest) = All (λ i. te.te_time ≤ℤ i.te_time) rest × IsSorted rest

All-later :
    (s t : Time) (q : List TimeEvent)
    → s ≤ℤ t
    → All (λ i. t ≤ℤ i.te_time) q
    → All (λ i. s ≤ℤ i.te_time) q
All-later s t [] h a = tt
All-later s t (i ∷ q) h a = (omega arith, All-later s t q h a.1)

All-insert :
    (s : Time) (te : TimeEvent) (q : List TimeEvent)
    → s ≤ℤ te.te_time
    → All (λ i. s ≤ℤ i.te_time) q
    → All (λ i. s ≤ℤ i.te_time) (insert_event te q)
unfolding insert_event
All-insert s te [] h a = (h, tt)
All-insert s te (i ∷ q) h a = elim (Bool-cases (lt_time te.te_time i.te_time)) [
  | inl e ↦ rw e (h, a)
  | inr e ↦ rw e (a.0, All-insert s te q h a.1)
]

lt_time→le : (s t : Time) → lt_time s t ≡ true → s ≤ℤ t
lt_time→le s t h = ground arith

not-lt_time→le : (s t : Time) → lt_time s t ≡ false → t ≤ℤ s
not-lt_time→le s t h = ground arith

pub insert_event-IsSorted :
    (te : TimeEvent) (q : List TimeEvent) → IsSorted q → IsSorted (insert_event te q)
unfolding insert_event
insert_event-IsSorted te [] h = (tt, tt)
insert_event-IsSorted te (i ∷ q) h = elim (Bool-cases (lt_time te.te_time i.te_time)) [
  | inl e ↦
      let le = lt_time→le te.te_time i.te_time e in
      rw e ((le, All-later te.te_time i.te_time q le h.0), h)
  | inr e ↦ rw e (
    All-insert i.te_time te q (not-lt_time→le te.te_time i.te_time e) h.0,
    insert_event-IsSorted te q h.1,
  )
]

-- Where an event stands among the others: behind all that are not later, and before all that are.
pub record Inserted (te : TimeEvent) (old new : List TimeEvent) : Type 0 where
  pub before : List TimeEvent
  pub after : List TimeEvent
  pub old_split : old ≡ before ++ after
  pub new_split : new ≡ before ++ te ∷ after
  pub not_later : All (λ i. i.te_time ≤ℤ te.te_time) before
  pub later : All (λ i. lt_time te.te_time i.te_time ≡ true) after

All-lt_time :
    (te i : TimeEvent) (q : List TimeEvent)
    → lt_time te.te_time i.te_time ≡ true
    → All (λ j. i.te_time ≤ℤ j.te_time) q
    → All (λ j. lt_time te.te_time j.te_time ≡ true) q
All-lt_time te i [] h a = tt
All-lt_time te i (j ∷ q) h a = (ground (arith, h, a.0), All-lt_time te i q h a.1)

insert_event-Inserted :
    (te : TimeEvent) (q : List TimeEvent) → IsSorted q → Inserted te q (insert_event te q)
unfolding insert_event
insert_event-Inserted te [] h = record {
  before = [];
  after = [];
  old_split = refl;
  new_split = refl;
  not_later = tt;
  later = tt;
}
insert_event-Inserted te (i ∷ q) h = elim (Bool-cases (lt_time te.te_time i.te_time)) [
  | inl e ↦ rw e (record {
    before = [];
    after = i ∷ q;
    old_split = refl;
    new_split = refl;
    not_later = tt;
    later = (e, All-lt_time te i q e h.0);
  })
  | inr e ↦
      let r = insert_event-Inserted te q h.1 in
      rw e (record {
        before = i ∷ r.before;
        after = r.after;
        old_split = ap (◌∷◌ i) r.old_split;
        new_split = ap (◌∷◌ i) r.new_split;
        not_later = (not-lt_time→le te.te_time i.te_time e, r.not_later);
        later = r.later;
      })
]

pub insert_event-Perm : (te : TimeEvent) (q : List TimeEvent) → Perm (insert_event te q) (te ∷ q)
unfolding insert_event
insert_event-Perm te [] = Perm.refl (te ∷ [])
insert_event-Perm te (i ∷ q) = elim (Bool-cases (lt_time te.te_time i.te_time)) [
  | inl e ↦ rw e (Perm.refl (te ∷ i ∷ q))
  | inr e ↦ rw e (Perm.trans (Perm.cons i (insert_event-Perm te q)) (perm_middle (i ∷ []) q))
]

abbrev pub is_for : ℕ → Option ℕ → Bool
is_for pid none = false
is_for pid (some q) = pid == q

abbrev pub is_there {ℓ} : {A : Type ℓ} → Option A → Bool
is_there none = false
is_there (some _) = true

-- The timer of a process, `none` also for a process that is not there.
abbrev pub asso_timer_of : Option Proc → Option TimeEvent
asso_timer_of none = none
asso_timer_of (some p) = p.pr_asso_timer

asso_timer-set :
    (o : Option ℕ) (t : Option TimeEvent) (procs : Store Proc) (pid : ℕ)
    → asso_timer_of (set_asso_timer o t procs pid)
      ≡ (if is_for pid o && is_there (procs pid) then t else asso_timer_of (procs pid))
unfolding set_asso_timer update_at
asso_timer-set none t procs pid = refl
asso_timer-set (some q) t procs pid = ground arith

-- `time_event_alloc` on a queue in order: the queue stays in order, the new event stands behind all
-- that are not later and before all that are later, and the process that the event is for points
-- to it, while other processes keep their timers.
pub time_event_alloc_lem :
    (kind : EventKind) (time : Time) (k : Kernel)
    → IsSorted k.time_events
    → let te : TimeEvent = record { te_address = k.next_event; te_time = time; te_kind = kind } in
      let k' = time_event_alloc kind time k in
      IsSorted k'.time_events
      × Inserted te k.time_events k'.time_events
      × ((pid : ℕ)
          → asso_timer_of (k'.procs pid) ≡ (
              if is_for pid (event_proc kind) && is_there (k.procs pid)
              then some te
              else asso_timer_of (k.procs pid)))
unfolding time_event_alloc time_event_set_head
time_event_alloc_lem kind time k h =
    let te : TimeEvent = record { te_address = k.next_event; te_time = time; te_kind = kind } in
    (
      insert_event-IsSorted te k.time_events h,
      insert_event-Inserted te k.time_events h,
      asso_timer-set (event_proc kind) (some te) k.procs,
    )

-- A process that has been released, or is not there.
abbrev pub IsReady : Option Proc → Type 0
IsReady none = Unit
IsReady (some p) = p.pr_state ≡ ready
