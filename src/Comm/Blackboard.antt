-- ===== src/Comm/Blackboard.antt =====
-- kern/comm/blackboard.c: a blackboard holds one message, and the processes that wait for it.
use jrinx.Base.{ℕ, Bool, not, Option, none, some, [], ◌∷◌, length, remove}
use jrinx.Kernel.{Blackboard, Msg}
use jrinx.Types.{empty, occupied, is_occupied}
use jrinx.Comm.Wait.{add_waiting}

unfoldable pub blackboard_is_full : Blackboard → Bool
blackboard_is_full bb = is_occupied bb.bb_empty_ind

unfoldable pub blackboard_is_empty : Blackboard → Bool
blackboard_is_empty bb = not (is_occupied bb.bb_empty_ind)

unfoldable pub blackboard_display : Msg → Blackboard → Blackboard
blackboard_display msg bb = record bb { bb_data = msg; bb_empty_ind = occupied }

unfoldable pub blackboard_read : Blackboard → Msg
blackboard_read bb = bb.bb_data

unfoldable pub blackboard_clear : Blackboard → Blackboard
blackboard_clear bb = record bb { bb_empty_ind = empty }

unfoldable pub blackboard_add_waiting_proc : ℕ → Blackboard → Blackboard
blackboard_add_waiting_proc pid bb = record bb {
  bb_waiting_procs = add_waiting pid bb.bb_waiting_procs;
}

unfoldable pub blackboard_del_waiting_proc : ℕ → Blackboard → Blackboard
blackboard_del_waiting_proc pid bb = record bb { bb_waiting_procs = remove pid bb.bb_waiting_procs }

unfoldable pub blackboard_wakeup_waiting_proc : Blackboard → Option (ℕ × Blackboard)
blackboard_wakeup_waiting_proc bb = elim bb.bb_waiting_procs [
  | [] ↦ none
  | pid ∷ ws ↦ some (pid, record bb { bb_waiting_procs = ws })
]

unfoldable pub blackboard_get_waiting_proc_nb : Blackboard → ℕ
blackboard_get_waiting_proc_nb bb = length bb.bb_waiting_procs
