-- ===== src/Syscalls/Common/Wake.antt =====
-- Waking a process up, as the services of kern/traps/syscalls.c do after a transfer.
use jrinx.Base.{
  ℕ, ◌≡◌, refl, ◌∙◌, ◌≢◌, Bool, true, Bool-cases, inl, inr, Option, none, some, arith, Store,
  update_at,
}
use jrinx.Types.{WaitingReason, ready}
use jrinx.Kernel.{Proc, TimeEvent, Kernel, Msg, Step, Outcome, on_proc}
use jrinx.Timer.{event_proc, time_event_set_head, time_event_free, free_asso_timer, set_asso_timer}
use jrinx.Sched.Switch.{state_of}
use jrinx.Syscalls.Common.{Receive, wake, with_message}

-- A step comes through, and what it gives has the property.
abbrev pub Ensures : (Outcome → Kernel → Type 0) → Step → Type 0
Ensures P none = ⊥
Ensures P (some (o, k)) = P o k

-- A waiting process is there, and has a time event if it set a time-out.
pub record CanWake (with_timeout : WaitingReason → Bool) (p : Option Proc) : Type 0 where
  pub proc : Proc
  pub there : p ≡ some proc
  pub timer :
      with_timeout proc.pr_waiting_reason ≡ true → (te : TimeEvent) × (proc.pr_asso_timer ≡ some te)

-- What waking `pid` up changes: the process is READY, the others keep their state, and neither the
-- buffers nor the other objects change.
pub record Awake (pid : ℕ) (k k' : Kernel) : Type 0 where
  pub hart : k'.hart ≡ k.hart
  pub buffers : k'.buffers ≡ k.buffers
  pub blackboards : k'.blackboards ≡ k.blackboards
  pub channels : k'.channels ≡ k.channels
  pub now_ready : state_of (k'.procs pid) ≡ some ready
  pub others : (i : ℕ) → i ≢ pid → state_of (k'.procs i) ≡ state_of (k.procs i)

state-set_asso_timer :
    (o : Option ℕ) (t : Option TimeEvent) (procs : Store Proc) (i : ℕ)
    → state_of (set_asso_timer o t procs i) ≡ state_of (procs i)
unfolding set_asso_timer update_at
state-set_asso_timer none t procs i = refl
state-set_asso_timer (some pid) t procs i = ground arith

-- `on_proc pid` with READY, on a process that is there.
ready-Awake :
    (pid : ℕ) (k k' : Kernel) (p : Proc)
    → state_of (k'.procs pid) ≡ some p.pr_state
    → k'.hart ≡ k.hart
    → k'.buffers ≡ k.buffers
    → k'.blackboards ≡ k.blackboards
    → k'.channels ≡ k.channels
    → ((i : ℕ) → state_of (k'.procs i) ≡ state_of (k.procs i))
    → Awake pid k (on_proc pid (λ q. record q { pr_state = ready }) k')
unfolding update_at
ready-Awake pid k k' p there h b bb c same = record {
  hart = h;
  buffers = b;
  blackboards = bb;
  channels = c;
  now_ready = ground arith;
  others = λ i n. ground (arith, same i);
}

-- Waking a process up that is there, and that has a time event if it waits with a time-out, comes
-- through: the process is READY, the other processes keep their states, and the buffers, the
-- blackboards and the channels stay as they are.
pub wake_lem :
    (with_timeout : WaitingReason → Bool) (pid : ℕ) (k : Kernel)
    → CanWake with_timeout (k.procs pid)
    → (k' : Kernel) × (wake with_timeout pid k ≡ some k') × Awake pid k k'
unfolding wake free_asso_timer time_event_free time_event_set_head
wake_lem with_timeout pid k c = elim (Bool-cases (with_timeout c.proc.pr_waiting_reason)) [
  | inl e ↦
      let (te, t) = c.timer e in
      (
        on_proc pid (λ q. record q { pr_state = ready }) (time_event_free te k),
        rw (c.there, wake) (rw e (rw (c.there, free_asso_timer) (rw t))),
        ready-Awake pid k (time_event_free te k) c.proc
            (state-set_asso_timer (event_proc te.te_kind) none k.procs pid ∙ rw c.there) refl refl
            refl refl (state-set_asso_timer (event_proc te.te_kind) none k.procs),
      )
  | inr e ↦ (
    on_proc pid (λ q. record q { pr_state = ready }) k,
    rw (c.there, wake) (rw e),
    ready-Awake pid k k c.proc (rw c.there) refl refl refl refl (λ i. refl),
  )
]

pub Ensures-map :
    (P Q : Outcome → Kernel → Type 0) (s : Step)
    → ((o : Outcome) (k : Kernel) → P o k → Q o k)
    → Ensures P s
    → Ensures Q s
Ensures-map P Q none f h = h
Ensures-map P Q (some (o, k)) f h = f o k h

-- The same for a receiving service, with what it wrote.
abbrev pub Receives : (Outcome → Option Msg → Kernel → Type 0) → Receive → Type 0
Receives P none = ⊥
Receives P (some (o, m, k)) = P o m k

pub Receives-with_message :
    (msg : Msg) (P : Outcome → Kernel → Type 0) (Q : Outcome → Option Msg → Kernel → Type 0)
    (s : Step)
    → ((o : Outcome) (k : Kernel) → P o k → Q o (some msg) k)
    → Ensures P s
    → Receives Q (with_message msg s)
Receives-with_message msg P Q none f h = h
Receives-with_message msg P Q (some (o, k)) f h = f o k h

pub Receives-map :
    (P Q : Outcome → Option Msg → Kernel → Type 0) (s : Receive)
    → ((o : Outcome) (m : Option Msg) (k : Kernel) → P o m k → Q o m k)
    → Receives P s
    → Receives Q s
Receives-map P Q none f h = h
Receives-map P Q (some (o, m, k)) f h = f o m k h
