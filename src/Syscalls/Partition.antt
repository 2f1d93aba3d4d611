-- ===== src/Syscalls/Partition.antt =====
-- The partition services of kern/traps/syscalls.c.
pub mod Normal
use jrinx.Base.{
  ℕ, ◌%◌, ◌^◌, ◌&&◌, Option, some, List, [], ◌∷◌, Store, update_at, ◌==◌, ltb, if◌then◌else◌,
}
use jrinx.Types.{
  Time, RetCode, no_error, no_action, invalid_mode, invalid_param, cold_start, warm_start, normal,
  ready, dormant, is_waiting, is_previous_started,
}
use jrinx.Kernel.{Proc, Kernel, Step, ◌>>=◌, on_proc, on_part}
use jrinx.Syscalls.Common.{return, give_up_and_return}

-- `PARTITION_STATUS_TYPE`.
pub record PartitionStatus : Type 0 where
  pub period : Time
  pub duration : Time
  pub identifier : ℕ
  pub lock_level : ℕ
  pub operating_mode : ℕ
  pub start_condition : ℕ
  pub num_assigned_cores : ℕ

unfoldable pub do_get_partition_status : Kernel → Option (RetCode × PartitionStatus)
do_get_partition_status k = do
  part ← k.parts k.cur_part
  some (
    no_error,
    record {
      period = part.pa_period;
      duration = part.pa_duration;
      identifier = part.pa_id;
      lock_level = part.pa_lock_level;
      operating_mode = part.pa_op_mode;
      start_condition = part.pa_start_cond;
      num_assigned_cores = part.pa_num_cores;
    },
  )

-- One round of the loop over the partition's processes: what was started earlier is ready.
abbrev pub start_previous : Proc → Proc
start_previous p =
    if is_waiting p.pr_state && is_previous_started p.pr_waiting_reason
    then record p { pr_state = ready }
    else p

unfoldable pub start_all : List ℕ → Store Proc → Store Proc
start_all [] procs = procs
start_all (pid ∷ pids) procs = start_all pids (update_at pid start_previous procs)

-- The mode is stored before it is looked at; the field, an enumeration, keeps its low 32 bits.
unfoldable pub do_set_partition_mode : ℕ → Kernel → Step
do_set_partition_mode mode k = do
  part ← k.parts k.cur_part
  let stored = on_part k.cur_part (λ p. record p { pa_op_mode = mode % 2 ^ 32 }) k
  if mode == normal && part.pa_op_mode == normal
      then return no_action k
      else if mode == warm_start && part.pa_op_mode == cold_start
      then return invalid_mode k
      else if ltb mode normal
      then return no_error stored
      else if mode == normal
      then give_up_and_return (
          on_proc k.cur_proc (λ p. record p { pr_state = dormant })
            (record stored { procs = start_all part.pa_proc_list k.procs }))
      else return invalid_param stored
