-- ===== src/Comm/Wait/Choice.antt =====
-- Which process `buffer_wakeup_waiting_proc` and `queuing_port_wakeup_waiting_proc` choose.
use mathlib.Core.List.{append_assoc, append-nil}
use jrinx.Base.{
  ℕ, ◌≤◌, ◌<◌, ◌≡◌, refl, ap, ◌∙◌, inl, inr, Bool-cases, some, List, [], ◌∷◌, ◌++◌, All, All-append,
  All-map, arith, ltb, ltb→lt, remove,
}
use jrinx.Types.{QueDisc, fifo, priority}
use jrinx.Comm.Wait.{max_pri_loop, wakeup_waiting}

-- `pid` stands in `xs` behind entries of lower priority, and before entries of no higher one.
pub record Chosen (pri : ℕ → ℕ) (xs : List ℕ) (pid : ℕ) : Type 0 where
  pub before : List ℕ
  pub after : List ℕ
  pub split : xs ≡ before ++ pid ∷ after
  pub lower : All (λ i. pri i < pri pid) before
  pub at_most : All (λ i. pri i ≤ pri pid) after

module _ (pri : ℕ → ℕ) where
  -- A later entry of higher priority is the new choice.
  choose_next :
      (xs : List ℕ) (best w : ℕ)
      → Chosen pri xs best
      → pri best < pri w
      → Chosen pri (xs ++ w ∷ []) w
  choose_next xs best w c h = record {
    before = xs;
    after = [];
    split = refl;
    lower = rw c.split (
        All-append (λ i. pri i < pri w) c.before (best ∷ c.after)
          (All-map _ _ c.before (λ i l. omega arith) c.lower)
          (h, All-map _ _ c.after (λ i l. omega arith) c.at_most));
    at_most = tt;
  }

  -- One of no higher priority leaves the choice as it is.
  keep_choice :
      (xs : List ℕ) (best w : ℕ)
      → Chosen pri xs best
      → pri w ≤ pri best
      → Chosen pri (xs ++ w ∷ []) best
  keep_choice xs best w c h = record {
    before = c.before;
    after = c.after ++ w ∷ [];
    split = ap (λ l. l ++ w ∷ []) c.split ∙ append_assoc c.before (best ∷ c.after) (w ∷ []);
    lower = c.lower;
    at_most = All-append (λ i. pri i ≤ pri best) c.after (w ∷ []) c.at_most (h, tt);
  }

  max_pri_loop-Chosen :
      (xs : List ℕ) (best : ℕ) (ws : List ℕ)
      → Chosen pri xs best
      → Chosen pri (xs ++ ws) (max_pri_loop pri best ws)
  unfolding max_pri_loop
  max_pri_loop-Chosen xs best [] c = rw append-nil c
  max_pri_loop-Chosen xs best (w ∷ ws) c = elim (Bool-cases (ltb (pri best) (pri w))) [
    | inl e ↦ rw e (
        rw (append_assoc xs (w ∷ []) ws) at (
          max_pri_loop-Chosen (xs ++ w ∷ []) w ws
            (choose_next xs best w c (ltb→lt (pri best) (pri w) e))))
    | inr e ↦ rw e (
        rw (append_assoc xs (w ∷ []) ws) at
          (max_pri_loop-Chosen (xs ++ w ∷ []) best ws (keep_choice xs best w c (ground arith))))
  ]

  -- Unlinking an entry that differs from all before it.
  remove-Chosen :
      (pid : ℕ) (before after : List ℕ)
      → All (λ i. pri i < pri pid) before
      → remove pid (before ++ pid ∷ after) ≡ before ++ after
  remove-Chosen pid [] after h = ground arith
  remove-Chosen pid (i ∷ before) after h = ground (arith, h.0, remove-Chosen pid before after h.1)

  -- Where the first of a queue that is not empty stands.
  first-Chosen : (w : ℕ) → Chosen pri (w ∷ []) w
  first-Chosen w = record { before = []; after = []; split = refl; lower = tt; at_most = tt }

-- What the wake-up takes out of a queue under a discipline.
pub record Woken (disc : QueDisc) (pri : ℕ → ℕ) (q : List ℕ) : Type 0 where
  pub pid : ℕ
  pub before : List ℕ
  pub after : List ℕ
  pub result : wakeup_waiting disc pri q ≡ some (pid, before ++ after)
  pub split : q ≡ before ++ pid ∷ after
  pub first_out : disc ≡ fifo → before ≡ []
  pub highest_out :
      disc ≡ priority → All (λ i. pri i < pri pid) before × All (λ i. pri i ≤ pri pid) after

-- From a queue that is not empty exactly one process is taken, and the others stay in their order:
-- under FIFO the first one, under PRIORITY the first of those with the highest priority.
pub wakeup_waiting_lem :
    (disc : QueDisc) (pri : ℕ → ℕ) (w : ℕ) (ws : List ℕ) → Woken disc pri (w ∷ ws)
unfolding wakeup_waiting
wakeup_waiting_lem fifo pri w ws = record {
  pid = w;
  before = [];
  after = ws;
  result = refl;
  split = refl;
  first_out = λ _. refl;
  highest_out = λ e. cc;
}
wakeup_waiting_lem priority pri w ws =
    let c = max_pri_loop-Chosen pri (w ∷ []) w ws (first-Chosen pri w) in
    record {
      pid = max_pri_loop pri w ws;
      before = c.before;
      after = c.after;
      result =
          ap (λ l. some (max_pri_loop pri w ws, l))
            (ap (remove (max_pri_loop pri w ws)) c.split
              ∙ remove-Chosen pri (max_pri_loop pri w ws) c.before c.after c.lower);
      split = c.split;
      first_out = λ e. cc;
      highest_out = λ _. (c.lower, c.at_most);
    }
