-- ===== src/Syscalls/CreateProcess.antt =====
-- CREATE_PROCESS of kern/traps/syscalls.c and `proc_alloc` of kern/multitask/process.c. The frames and
-- the mappings of the stacks are not part of the state: their pages are there. The heap always gives
-- memory, and the locks of the maps and counters are open between the calls of one hart.
pub mod Memory
use jrinx.Base.{
  ℕ, suc, ◌+◌, ◌-◌, ◌%◌, ◌^◌, Bool, not, ◌&&◌, Option, none, some, List, [], ◌∷◌, ◌++◌, length,
  insert, ltb, ◌==◌, if◌then◌else◌,
}
use jrinx.Base.Int.{pos}
use jrinx.Arithmetic.{abs, rem}
use jrinx.Circbuf.{word}
use jrinx.Lock.{unlocked}
use jrinx.Types.{
  Time, Name, Deadline, no_error, no_action, invalid_config, invalid_mode, normal, dormant,
  previous_started, lt_time, system_time_infinite_val,
}
use jrinx.Kernel.{Proc, Part, Kernel, ◌>>=◌, on_part}
use jrinx.Comm.Alloc.{put_name}
use jrinx.Syscalls.Start.{proc_reset}
use jrinx.Syscalls.Create.{Creation, created}

abbrev pub pgsize : ℕ
pgsize = 2 ^ 12

abbrev pub kstksize : ℕ
kstksize = 2 ^ 16

abbrev pub ustksizemax : ℕ
ustksizemax = 2 ^ 19

-- `a - b` on `unsigned long`, for words.
abbrev pub minus : ℕ → ℕ → ℕ
minus a b = (a + 2 ^ 64 - b) % 2 ^ 64

-- `align_up(x, align)` on `size_t`.
unfoldable pub align_up : ℕ → ℕ → ℕ
align_up x align = minus (word (x + align - 1)) (word (x + align - 1) % align)

-- `PROCESS_ATTRIBUTE_TYPE`.
pub record ProcessAttribute : Type 0 where
  pub period : Time
  pub time_capacity : Time
  pub entry_point : ℕ
  pub stack_size : ℕ
  pub base_priority : ℕ
  pub deadline : Deadline
  pub name : Name

-- The ends of `proc_ustack_setup` and `proc_xstack_setup`, behind the loops that map the pages: where
-- the next stack goes, and the memory that is left.
unfoldable pub proc_ustack_setup : ℕ → Part → Part
proc_ustack_setup stacksize part = record part {
  pa_ustasktop = minus part.pa_ustasktop (word (stacksize + pgsize));
  pa_mem_rem = minus part.pa_mem_rem stacksize;
}

unfoldable pub proc_xstack_setup : Part → Part
proc_xstack_setup part = record part {
  pa_xstacktop = minus part.pa_xstacktop (kstksize + pgsize);
  pa_mem_rem = minus part.pa_mem_rem kstksize;
}

unfoldable pub part_add_proc_name : Name → ℕ → Part → Part
part_add_proc_name name id part = record part {
  pa_proc_name_map = put_name name id part.pa_proc_name_map;
}

-- The new process, before `proc_reset`; what the code does not set is 0.
unfoldable pub new_proc : Part → ℕ → ProcessAttribute → ℕ → Proc
new_proc part id attr stacksize = record {
  pr_ctx_list = [];
  pr_name = attr.name;
  pr_id = id;
  pr_idx = length part.pa_proc_list;
  pr_part_id = part.pa_id;
  pr_ustacktop = part.pa_ustasktop;
  pr_ustacksize = stacksize;
  pr_entrypoint = attr.entry_point;
  pr_base_pri = attr.base_priority;
  pr_period = attr.period;
  pr_time_cap = attr.time_capacity;
  pr_deadline = attr.deadline;
  pr_cur_pri = 0;
  pr_deadline_time = pos 0;
  pr_state = dormant;
  pr_waiting_reason = previous_started;
  pr_asso_timer = none;
  pr_state_lock = unlocked;
}

-- The identifier of the new process, `none` for the error -KER_PROC_ER, and the state.
unfoldable pub proc_alloc : ℕ → Part → ProcessAttribute → Kernel → Option ℕ × Kernel
proc_alloc part_id part attr k =
    let aligned = align_up attr.stack_size pgsize in
    if ltb part.pa_mem_rem aligned
    then (none, k)
    else let id = k.next_proc_id in
      let stacks = proc_xstack_setup (proc_ustack_setup aligned part) in
      let named = part_add_proc_name attr.name id stacks in
      (
        some id,
        on_part part_id (λ _. record named { pa_proc_list = named.pa_proc_list ++ id ∷ [] })
            (record k {
              next_proc_id = suc id;
              procs = insert id (proc_reset (new_proc part id attr aligned)) k.procs;
            }),
      )

-- The period does not fit the partition's: it is not infinite, and no multiple of it.
abbrev pub is_off_period : Time → Time → Bool
is_off_period period part_period =
    lt_time period system_time_infinite_val && not (abs (rem period part_period) == 0)

-- A period that is not infinite and is shorter than the time capacity.
abbrev pub is_too_short : Time → Time → Bool
is_too_short period capacity = lt_time period system_time_infinite_val && lt_time period capacity

unfoldable pub do_create_process : ProcessAttribute → Kernel → Creation
do_create_process attr k = do
  part ← k.parts k.cur_part
  elim (part.pa_proc_name_map attr.name) [
    | some _ ↦ some (no_action, none, k)
    | none ↦
        if ltb ustksizemax attr.stack_size
        then some (invalid_config, none, k)
        else if is_off_period attr.period part.pa_period
        then some (invalid_config, none, k)
        else if is_too_short attr.period attr.time_capacity
        then some (invalid_config, none, k)
        else if part.pa_op_mode == normal
        then some (invalid_mode, none, k)
        else created (proc_alloc k.cur_part part attr k)
  ]
