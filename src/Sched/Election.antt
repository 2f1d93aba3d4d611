-- ===== src/Sched/Election.antt =====
-- The election of kern/multitask/sched.c picks a process that can run, of the right priority.
use mathlib.Core.Path.{subst}
use jrinx.Base.{
  ℕ, ◌≤◌, ◌≡◌, refl, ap, ◌∙◌, ◌⊎◌, inl, inr, Bool, true, false, Bool-cases, none, some, List, [],
  ◌∷◌, ◌++◌, All, All-map, arith, ltb, leb, ◌&&◌, contains, Store, ◌==◌,
}
use jrinx.Kernel.{Proc, Part, Kernel}
use jrinx.Sched.{
  can_run, priority_of, behind, first_at_least, better, highest, sched_elect_next_proc,
}

module _ (procs : Store Proc) where
  -- No process of the list can run with a higher priority than this.
  abbrev pub AtMost : ℕ → List ℕ → Type 0
  AtMost pri pids = All (λ i. can_run procs i ≡ true → priority_of procs i ≤ pri) pids

  -- What a part of the loop makes of the choice `best`: a process that can run, no worse than
  -- `best`, that is `best` itself or one of the list, and that nothing of the list exceeds.
  pub record Improves (best : ℕ) (pids : List ℕ) (next : ℕ) : Type 0 where
    pub runs : can_run procs next ≡ true
    pub from : (next ≡ best) ⊎ (contains next pids ≡ true)
    pub no_worse : priority_of procs best ≤ priority_of procs next
    pub top : AtMost (priority_of procs next) pids

  better-some :
      (best pid : ℕ)
      → can_run procs best ≡ true
      → (next : ℕ) × (better procs (some best) pid ≡ some next) × Improves best (pid ∷ []) next
  unfolding better
  better-some best pid h =
      elim (Bool-cases
        (can_run procs pid && ltb (priority_of procs best) (priority_of procs pid))) [
          | inl e ↦ (
            pid,
            rw e,
            record {
              runs = ground arith;
              from = ground arith;
              no_worse = ground arith;
              top = ((λ _. omega arith), tt);
            },
          )
          | inr e ↦ (
            best,
            rw e,
            record {
              runs = h;
              from = inl refl;
              no_worse = omega arith;
              top = ((λ r. ground arith), tt);
            },
          )
        ]

  AtMost-weaken : (m n : ℕ) (pids : List ℕ) → m ≤ n → AtMost m pids → AtMost n pids
  AtMost-weaken m n pids h a = All-map _ _ pids (λ i f r. omega (arith, f r)) a

  highest-some :
      (best : ℕ) (pids : List ℕ)
      → can_run procs best ≡ true
      → (next : ℕ) × (highest procs (some best) pids ≡ some next) × Improves best pids next
  unfolding highest
  highest-some best [] h =
      (best, refl, record { runs = h; from = inl refl; no_worse = omega arith; top = tt })
  highest-some best (pid ∷ pids) h =
      let (x, e, b) = better-some best pid h in
      let (next, e', i) = highest-some x pids b.runs in
      (
        next,
        rw e e',
        record {
          runs = i.runs;
          from = ground (arith, b.from, i.from);
          no_worse = omega (arith, b.no_worse, i.no_worse);
          top = ((λ r. omega (arith, b.top.0 r, i.no_worse)), i.top);
        },
      )

  -- Starting from nothing: the loop finds nothing exactly if nothing can run.
  highest-none :
      (pids : List ℕ)
      → ((highest procs none pids ≡ none) × All (λ i. can_run procs i ≡ false) pids)
        ⊎ ((next : ℕ) × (highest procs none pids ≡ some next)
            × (can_run procs next ≡ true)
            × (contains next pids ≡ true)
            × AtMost (priority_of procs next) pids)
  unfolding highest better
  highest-none [] = inl (refl, tt)
  highest-none (pid ∷ pids) = elim (Bool-cases (can_run procs pid)) [
    | inl e ↦
        let (next, e', i) = highest-some pid pids e in
        inr (next, rw e e', i.runs, ground (arith, i.from), ((λ r. i.no_worse), i.top))
    | inr e ↦ rw e (elim (highest-none pids) [
      | inl (n, a) ↦ inl (n, (refl, a))
      | inr (next, e', r, c, t) ↦ inr (next, e', r, ground (arith, c), ((λ r'. cc), t))
    ])
  ]

  -- What a search with `first_at_least` finds.
  abbrev pub is_candidate : ℕ → ℕ → Bool
  is_candidate pri pid = can_run procs pid && leb pri (priority_of procs pid)

  -- `next` qualifies, and nothing before it in the list does.
  pub record First (pri : ℕ) (pids : List ℕ) (next : ℕ) : Type 0 where
    pub before : List ℕ
    pub after : List ℕ
    pub split : pids ≡ before ++ next ∷ after
    pub qualifies : is_candidate pri next ≡ true
    pub skipped : All (λ i. is_candidate pri i ≡ false) before

  first_at_least_cases :
      (pri : ℕ) (pids : List ℕ)
      → ((first_at_least procs pri pids ≡ none) × All (λ i. is_candidate pri i ≡ false) pids)
        ⊎ ((next : ℕ) × (first_at_least procs pri pids ≡ some next) × First pri pids next)
  unfolding first_at_least
  first_at_least_cases pri [] = inl (refl, tt)
  first_at_least_cases pri (pid ∷ pids) = elim (Bool-cases (is_candidate pri pid)) [
    | inl e ↦
        inr (
          pid,
          rw e,
          record { before = []; after = pids; split = refl; qualifies = e; skipped = tt },
        )
    | inr e ↦ elim (first_at_least_cases pri pids) [
      | inl (n, a) ↦ inl (rw e n, (e, a))
      | inr (next, e', f) ↦ inr (
        next,
        rw e e',
        record {
          before = pid ∷ f.before;
          after = f.after;
          split = ap (◌∷◌ pid) f.split;
          qualifies = f.qualifies;
          skipped = (e, f.skipped);
        },
      )
    ]
  ]

-- Election by priority: a round elects nobody only if no process of the partition can run, and else
-- it elects a process of the partition that can run, such that no process of the partition that
-- can run has a higher priority.
pub elect_by_priority :
    (k : Kernel) (part : Part)
    → k.parts k.cur_part ≡ some part
    → ((sched_elect_next_proc false k ≡ none)
        × All (λ i. can_run k.procs i ≡ false) part.pa_proc_list)
      ⊎ ((next : ℕ) × (sched_elect_next_proc false k ≡ some next)
          × (can_run k.procs next ≡ true)
          × (contains next part.pa_proc_list ≡ true)
          × AtMost k.procs (priority_of k.procs next) part.pa_proc_list)
unfolding sched_elect_next_proc
elect_by_priority k part h = rw h (highest-none k.procs part.pa_proc_list)

-- What a round elects, where `rest` stands behind the running process.
abbrev pub Elects : Kernel → Part → Proc → List ℕ → Type 0
Elects k part cur rest =
    let pri = cur.pr_cur_pri in
    ((next : ℕ) × (sched_elect_next_proc true k ≡ some next) × First k.procs pri rest next)
    ⊎ (All (λ i. is_candidate k.procs pri i ≡ false) rest
        × (((next : ℕ) × (sched_elect_next_proc true k ≡ some next)
              × First k.procs pri part.pa_proc_list next)
            ⊎ ((sched_elect_next_proc true k ≡ none)
                × All (λ i. is_candidate k.procs pri i ≡ false) part.pa_proc_list)))

-- One round of the round robin, with the search behind the running process as the code makes it.
pub round_robin_behind :
    (k : Kernel) (part : Part) (cur : Proc)
    → k.parts k.cur_part ≡ some part
    → k.procs k.cur_proc ≡ some cur
    → Elects k part cur (behind k.cur_proc part.pa_proc_list)
unfolding sched_elect_next_proc
round_robin_behind k part cur h c = rw h (
    rw c (elim (first_at_least_cases k.procs cur.pr_cur_pri (behind k.cur_proc part.pa_proc_list)) [
      | inl (n, a) ↦ inr (
        a,
        rw n (elim (first_at_least_cases k.procs cur.pr_cur_pri part.pa_proc_list) [
          | inl (n', a') ↦ inr (n', a')
          | inr (next, e, f) ↦ inl (next, e, f)
        ]),
      )
      | inr (next, e, f) ↦ inl (next, rw e, f)
    ]))

behind-split :
    (pid : ℕ) (front rest : List ℕ)
    → contains pid front ≡ false
    → behind pid (front ++ pid ∷ rest) ≡ rest
unfolding behind
behind-split pid [] rest h = let itself : (pid == pid) ≡ true = ground arith in rw itself refl
behind-split pid (q ∷ front) rest h =
    let other : (q == pid) ≡ false = ground (arith, h) in
    rw other (behind-split pid front rest (ground (arith, h)))

-- Round robin, with the running process in the list of its partition: the round elects the first
-- process that stands behind it in the list and can run with at least its priority; if there is none,
-- the first such process of the whole list; and nobody only if the list has no such process.
pub elect_round_robin :
    (k : Kernel) (part : Part) (cur : Proc) (front rest : List ℕ)
    → k.parts k.cur_part ≡ some part
    → k.procs k.cur_proc ≡ some cur
    → part.pa_proc_list ≡ front ++ k.cur_proc ∷ rest
    → contains k.cur_proc front ≡ false
    → Elects k part cur rest
elect_round_robin k part cur front rest h c split new =
    let its_rest : behind k.cur_proc part.pa_proc_list ≡ rest =
      ap (behind k.cur_proc) split ∙ behind-split k.cur_proc front rest new in
    subst (Elects k part cur) its_rest (round_robin_behind k part cur h c)
