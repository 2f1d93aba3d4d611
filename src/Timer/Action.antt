-- ===== src/Timer/Action.antt =====
-- What `time_event_action` of kern/traps/timer.c does with the events that are due.
use jrinx.Base.{
  ℕ, suc, ◌≤◌, ◌<◌, ◌≡◌, refl, sym, ap, ◌∙◌, true, false, Bool-cases, inl, inr, Option, none, some,
  List, [], ◌∷◌, ◌++◌, All, All-map, arith, update_at,
}
use jrinx.Types.{ready, le_time}
use jrinx.Kernel.{EventKind, TimeEvent, Kernel, Proc, boottime_get_now, simple, partition_activate}
use jrinx.Timer.{
  event_proc, time_event_set_head, Resched, release_proc, fire, fire_due, time_event_action,
}

-- A process that has been released, or is not there.
abbrev pub IsReady : Option Proc → Type 0
IsReady none = Unit
IsReady (some p) = p.pr_state ≡ ready

-- What firing an event leaves alone.
record Kept (k k' : Kernel) : Type 0 where
  clock : k'.clock ≡ k.clock
  reads : k'.reads ≡ k.reads
  cur_part : k'.cur_part ≡ k.cur_part

fire-Kept : (kind : EventKind) (r : Resched) (k : Kernel) → Kept k (fire kind (r, k)).1
unfolding fire release_proc
fire-Kept simple r k = record { clock = refl; reads = refl; cur_part = refl }
fire-Kept _ r k = record { clock = refl; reads = refl; cur_part = refl }

-- No event takes the state READY away.
fire-keeps-IsReady :
    (kind : EventKind) (r : Resched) (k : Kernel) (pid : ℕ)
    → IsReady (k.procs pid)
    → IsReady ((fire kind (r, k)).1.procs pid)
unfolding fire release_proc update_at
fire-keeps-IsReady simple r k pid h = h
fire-keeps-IsReady _ r k pid h = ground arith

-- The process of an event that fires is ready.
fire-IsReady :
    (kind : EventKind) (r : Resched) (k : Kernel) (pid : ℕ)
    → event_proc kind ≡ some pid
    → IsReady ((fire kind (r, k)).1.procs pid)
unfolding fire release_proc update_at
fire-IsReady simple r k pid h = cc
fire-IsReady _ r k pid h = ground arith

-- The head of what is left was not due at the last reading of the clock.
abbrev pub NotDue : Kernel → List TimeEvent → Type 0
NotDue k [] = Unit
NotDue k (te ∷ _) = (n : ℕ) × (k.reads ≡ suc n) × (le_time te.te_time (k.clock n) ≡ false)

-- What a run of the loop over the events `q` does, from state `k` to state `k'`: it fires a part of
-- `q` from the front, each event at a reading of the clock that has reached the event's time,
-- leaves the rest in the queue, and has made the processes of the fired events ready.
pub record Acted (q : List TimeEvent) (k : Kernel) (r' : Resched) (k' : Kernel) : Type 0 where
  pub fired : List TimeEvent
  pub rest : List TimeEvent
  pub split : q ≡ fired ++ rest
  pub left : k'.time_events ≡ rest
  pub same_clock : k'.clock ≡ k.clock
  pub reads_grow : k.reads ≤ k'.reads
  pub were_due :
      All
        (λ te. (n : ℕ) × (k.reads ≤ n) × (n < k'.reads) × (le_time te.te_time (k.clock n) ≡ true))
        fired
  pub not_due : NotDue k' rest
  pub ready_now :
      All (λ te. (pid : ℕ) → event_proc te.te_kind ≡ some pid → IsReady (k'.procs pid)) fired
  pub reschedules : All (λ te. te.te_kind ≡ partition_activate → r'.part ≡ true) fired

fire_due-keeps-IsReady :
    (q : List TimeEvent) (r : Resched) (k : Kernel) (pid : ℕ)
    → IsReady (k.procs pid)
    → IsReady ((fire_due q (r, k)).1.procs pid)
unfolding fire_due boottime_get_now
fire_due-keeps-IsReady [] r k pid h = h
fire_due-keeps-IsReady (te ∷ q) r k pid h =
    elim (Bool-cases (le_time te.te_time (k.clock k.reads))) [
      | inl e ↦ rw e (
          fire_due-keeps-IsReady q _ _ pid
            (fire-keeps-IsReady te.te_kind r (record k { reads = suc k.reads }) pid h))
      | inr e ↦ rw e h
    ]

fire-keeps-part :
    (kind : EventKind) (r : Resched) (k : Kernel) → r.part ≡ true → (fire kind (r, k)).0.part ≡ true
unfolding fire
fire-keeps-part simple r k h = h
fire-keeps-part _ r k h = ground arith

fire-part : (r : Resched) (k : Kernel) → (fire partition_activate (r, k)).0.part ≡ true
unfolding fire
fire-part r k = refl

fire_due-keeps-part :
    (q : List TimeEvent) (r : Resched) (k : Kernel)
    → r.part ≡ true
    → (fire_due q (r, k)).0.part ≡ true
unfolding fire_due boottime_get_now
fire_due-keeps-part [] r k h = h
fire_due-keeps-part (te ∷ q) r k h = elim (Bool-cases (le_time te.te_time (k.clock k.reads))) [
  | inl e ↦ rw e (
      fire_due-keeps-part q _ _ (fire-keeps-part te.te_kind r (record k { reads = suc k.reads }) h))
  | inr e ↦ rw e h
]

-- One round in front of a run.
Acted-cons :
    (te : TimeEvent) (q : List TimeEvent) (k k₁ : Kernel) (r' : Resched) (k' : Kernel)
    → le_time te.te_time (k.clock k.reads) ≡ true
    → k₁.clock ≡ k.clock
    → k₁.reads ≡ suc k.reads
    → ((pid : ℕ) → event_proc te.te_kind ≡ some pid → IsReady (k'.procs pid))
    → (te.te_kind ≡ partition_activate → r'.part ≡ true)
    → Acted q k₁ r' k'
    → Acted (te ∷ q) k r' k'
Acted-cons te q k k₁ r' k' due c n ready_te part_te a = record {
  fired = te ∷ a.fired;
  rest = a.rest;
  split = ap (◌∷◌ te) a.split;
  left = a.left;
  same_clock = a.same_clock ∙ c;
  reads_grow = omega (arith, a.reads_grow);
  were_due = (
    (k.reads, omega arith, omega (arith, a.reads_grow), due),
    All-map _ _ a.fired
        (λ i (m, l, u, d). (m, omega arith, u, ap (λ f. le_time i.te_time (f m)) (sym c) ∙ d))
        a.were_due,
  );
  not_due = a.not_due;
  ready_now = (ready_te, a.ready_now);
  reschedules = (part_te, a.reschedules);
}

fire_due-Acted :
    (q : List TimeEvent) (r : Resched) (k : Kernel)
    → k.time_events ≡ q
    → Acted q k (fire_due q (r, k)).0 (fire_due q (r, k)).1
unfolding fire_due boottime_get_now
fire_due-Acted [] r k h = record {
  fired = [];
  rest = [];
  split = refl;
  left = h;
  same_clock = refl;
  reads_grow = omega arith;
  were_due = tt;
  not_due = tt;
  ready_now = tt;
  reschedules = tt;
}
fire_due-Acted (te ∷ q) r k h = elim (Bool-cases (le_time te.te_time (k.clock k.reads))) [
  | inl e ↦
      let read : Kernel = record k { reads = suc k.reads } in
      let kept = fire-Kept te.te_kind r read in
      rw e (
        Acted-cons te q k _ _ _ e kept.clock kept.reads
          (λ pid is_for.
            fire_due-keeps-IsReady q _ _ pid (fire-IsReady te.te_kind r read pid is_for))
          (λ is_part. fire_due-keeps-part q _ _ (rw is_part (fire-part r read)))
          (fire_due-Acted q _ _ refl))
  | inr e ↦ rw e (record {
    fired = [];
    rest = te ∷ q;
    split = refl;
    left = h;
    same_clock = refl;
    reads_grow = omega arith;
    were_due = tt;
    not_due = (k.reads, refl, e);
    ready_now = tt;
    reschedules = tt;
  })
]

-- `time_event_action`: it fires events from the front of the queue, each at a reading of the clock
-- that has reached the event's time, and leaves the others in the queue, the first of which was not
-- due at the last reading of the loop. Every process that a fired event was for is READY afterwards,
-- and the partitions are rescheduled if a partition activation was among them.
pub time_event_action_lem :
    (k : Kernel)
    → (k' : Kernel) × Acted k.time_events k (time_event_action k).0 k'
      × ((time_event_action k).1 ≡ time_event_set_head k')
unfolding time_event_action
time_event_action_lem k =
    let start : Resched = record { part = false; proc = false } in
    ((fire_due k.time_events (start, k)).1, fire_due-Acted k.time_events start k refl, refl)
