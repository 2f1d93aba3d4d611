-- ===== src/Comm/Wait.antt =====
-- The queue of waiting processes that kern/comm/buffer.c and kern/chan/queuing.c both keep: the
-- choice of the process to wake up. A queue is the list of its processes, first to last.
pub mod Choice
use jrinx.Base.{ℕ, Option, none, some, List, [], ◌∷◌, ◌++◌, Store, ltb, if◌then◌else◌, remove}
use jrinx.Kernel.{Proc}
use jrinx.Types.{QueDisc, fifo, priority}

-- `proc->pr_cur_pri` through the pointer.
unfoldable pub pri_of : Store Proc → ℕ → ℕ
pri_of procs pid = elim (procs pid) [ none ↦ 0 | some p ↦ p.pr_cur_pri ]

-- `list_insert_tail`.
abbrev pub add_waiting : ℕ → List ℕ → List ℕ
add_waiting pid ws = ws ++ pid ∷ []

-- The loop over the queue: `best` is `max_pri_proc`, replaced by what has a higher priority.
unfoldable pub max_pri_loop : (ℕ → ℕ) → ℕ → List ℕ → ℕ
max_pri_loop pri best [] = best
max_pri_loop pri best (w ∷ ws) = max_pri_loop pri (if ltb (pri best) (pri w) then w else best) ws

-- The process to wake up, and the queue without it.
unfoldable pub wakeup_waiting : QueDisc → (ℕ → ℕ) → List ℕ → Option (ℕ × List ℕ)
wakeup_waiting disc pri [] = none
wakeup_waiting fifo pri (w ∷ ws) = some (w, ws)
wakeup_waiting priority pri (w ∷ ws) =
    let best = max_pri_loop pri w ws in some (best, remove best (w ∷ ws))
