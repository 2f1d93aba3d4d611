-- ===== src/Sched/Switch.antt =====
-- `sched_proc` of kern/multitask/sched.c leaves one process RUNNING, the current one.
use mathlib.Core.Path.{subst}
use jrinx.Base.{
  ℕ, ◌≡◌, sym, ◌∙◌, inl, inr, Bool, true, false, Option-cases, some_inj, Option, none, some, arith,
  Store, update_at,
}
use jrinx.Types.{ProcState, running}
use jrinx.Kernel.{Proc, Kernel, on_proc, >>=-eq-some}
use jrinx.Sched.{can_run, sched_elect_next_proc, demote, sched_proc}
use jrinx.Sched.Election.{is_candidate, elect_by_priority, round_robin_behind}

abbrev pub state_of : Option Proc → Option ProcState
state_of none = none
state_of (some p) = some p.pr_state

-- Whoever is RUNNING is the current process.
abbrev pub OnlyCurrentRuns : Kernel → Type 0
OnlyCurrentRuns k = (pid : ℕ) → state_of (k.procs pid) ≡ some running → pid ≡ k.cur_proc

no_part : (rr : Bool) (k : Kernel) → k.parts k.cur_part ≡ none → sched_elect_next_proc rr k ≡ none
unfolding sched_elect_next_proc
no_part rr k h = rw h

no_current : (k : Kernel) → k.procs k.cur_proc ≡ none → sched_elect_next_proc true k ≡ none
unfolding sched_elect_next_proc
no_current k h = elim (Option-cases (k.parts k.cur_part)) [
  | inl n ↦ rw n
  | inr (part, e) ↦ rw e (rw h)
]

is_candidate-can_run :
    (procs : Store Proc) (pri next : ℕ)
    → is_candidate procs pri next ≡ true
    → can_run procs next ≡ true
is_candidate-can_run procs pri next h = ground arith

-- Whoever is elected can run.
pub elected-can_run :
    (rr : Bool) (k : Kernel) (next : ℕ)
    → sched_elect_next_proc rr k ≡ some next
    → can_run k.procs next ≡ true
elected-can_run false k next e = elim (Option-cases (k.parts k.cur_part)) [
  | inl n ↦ cc (no_part false k n)
  | inr (part, h) ↦ elim (elect_by_priority k part h) [
    | inl (n, _) ↦ cc
    | inr (x, e', r, _, _) ↦ rw (some_inj (sym e ∙ e')) r
  ]
]
elected-can_run true k next e = elim (Option-cases (k.parts k.cur_part)) [
  | inl n ↦ cc (no_part true k n)
  | inr (part, h) ↦ elim (Option-cases (k.procs k.cur_proc)) [
    | inl n ↦ cc (no_current k n)
    | inr (cur, c) ↦ elim (round_robin_behind k part cur h c) [
      | inl (x, e', f) ↦
          rw (some_inj (sym e ∙ e')) (is_candidate-can_run k.procs cur.pr_cur_pri x f.qualifies)
      | inr (_, o) ↦ elim o [
        | inl (x, e', f) ↦
            rw (some_inj (sym e ∙ e')) (is_candidate-can_run k.procs cur.pr_cur_pri x f.qualifies)
        | inr (n, _) ↦ cc
      ]
    ]
  ]
]

-- After the demotion nobody is RUNNING.
demote-none :
    (k : Kernel) (pid : ℕ)
    → OnlyCurrentRuns k
    → state_of (update_at k.cur_proc demote k.procs pid) ≡ some running
    → ⊥
unfolding update_at demote
demote-none k pid o h = ground (arith, o pid)

switched :
    (procs : Store Proc) (next : ℕ)
    → ((pid : ℕ) → state_of (procs pid) ≡ some running → ⊥)
    → can_run procs next ≡ true
    → let procs' = update_at next (λ p. record p { pr_state = running }) procs in
      ((pid : ℕ) → state_of (procs' pid) ≡ some running → pid ≡ next)
      × (state_of (procs' next) ≡ some running)
unfolding update_at
switched procs next quiet h = (λ pid r. ground (arith, quiet pid), ground arith)

-- If whoever is RUNNING is the current process, then after `sched_proc` elects and switches this
-- still holds, and the new current process is there and RUNNING.
pub sched_proc-OnlyCurrentRuns :
    (rr : Bool) (k k' : Kernel)
    → OnlyCurrentRuns k
    → sched_proc rr k ≡ some k'
    → OnlyCurrentRuns k' × (state_of (k'.procs k'.cur_proc) ≡ some running)
unfolding sched_proc
sched_proc-OnlyCurrentRuns rr k k' o h =
    let (next, e, e') = >>=-eq-some (sched_elect_next_proc rr (on_proc k.cur_proc demote k)) _ h in
    subst (λ x. OnlyCurrentRuns x × (state_of (x.procs x.cur_proc) ≡ some running)) (some_inj e')
      (switched (update_at k.cur_proc demote k.procs) next (λ pid. demote-none k pid o)
        (elected-can_run rr (on_proc k.cur_proc demote k) next e))
