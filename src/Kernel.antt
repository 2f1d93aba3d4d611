-- ===== src/Kernel.antt =====
-- The state that the services of kern/traps/syscalls.c read and write: partitions
-- (include/kern/multitask/partition.h), processes (process.h), time events
-- (include/kern/traps/timer.h), buffers and blackboards (include/kern/comm), queuing ports and
-- channels (include/kern/chan), seen from one hart. A pointer is the identifier of the object that
-- it points to, and NULL is `none`.
use jrinx.Base.{
  ℕ, suc, ◌≡◌, refl, Bool, Option, none, some, List, Store, update_at, ◌==◌, if◌then◌else◌,
}
use jrinx.Circbuf.{Circbuf}
use jrinx.Lock.{Lock, lk_acquire, lk_release}
use jrinx.Types.{
  RetCode, ProcState, WaitingReason, Deadline, PortDir, QueDisc, EmptyInd, Time, Name,
}

-- `enum time_event_type` with its `te_ctx`: the process that waits, and where it does.
pub data EventKind : Type 0 where
  simple partition_activate : EventKind
  process_suspend_timeout process_delayed_start process_timed_wait_timeout : ℕ → EventKind
  buffer_block_timeout blackboard_block_timeout queuing_port_block_timeout : ℕ → ℕ → EventKind

-- `te_address` tells events apart, as their addresses do.
pub record TimeEvent : Type 0 where
  pub te_address : ℕ
  pub te_time : Time
  pub te_kind : EventKind

-- A saved context (`struct context`) by what `proc_reset` writes into a fresh one.
pub record Context : Type 0 where
  pub ctx_sepc : ℕ
  pub ctx_sp : ℕ
  pub ctx_hartid : ℕ

-- `struct proc` without the list nodes, the core and, of the trap frame, all but the saved contexts.
pub record Proc : Type 0 where
  pub pr_ctx_list : List Context
  pub pr_name : Name
  pub pr_id : ℕ
  pub pr_idx : ℕ
  pub pr_part_id : ℕ
  pub pr_ustacktop : ℕ
  pub pr_ustacksize : ℕ
  pub pr_entrypoint : ℕ
  pub pr_base_pri : ℕ
  pub pr_period : Time
  pub pr_time_cap : Time
  pub pr_deadline : Deadline
  pub pr_cur_pri : ℕ
  pub pr_deadline_time : Time
  pub pr_state : ProcState
  pub pr_waiting_reason : WaitingReason
  pub pr_asso_timer : Option TimeEvent
  pub pr_state_lock : Lock

-- `struct part` without its page tables; of its memory, what is left and where stacks go. The name maps are those of
-- `pa_proc_name_map`, `pa_buf_name_map` and `pa_bb_name_map`.
pub record Part : Type 0 where
  pub pa_name : Name
  pub pa_id : ℕ
  pub pa_period : Time
  pub pa_duration : Time
  pub pa_lock_level : ℕ
  pub pa_op_mode : ℕ
  pub pa_start_cond : ℕ
  pub pa_num_cores : ℕ
  pub pa_mem_rem : ℕ
  pub pa_ustasktop : ℕ
  pub pa_xstacktop : ℕ
  pub pa_comm_base : ℕ
  pub pa_comm_base_lock : Lock
  pub pa_proc_list : List ℕ
  pub pa_proc_name_map : Name → Option ℕ
  pub pa_buf_name_map : Name → Option ℕ
  pub pa_bb_name_map : Name → Option ℕ

-- `struct comm_msg`: `msg_size` is the length of the bytes.
abbrev pub Msg : Type 0
Msg = List ℕ

pub record Buffer : Type 0 where
  pub buf_name : Name
  pub buf_part_id : ℕ
  pub buf_que_disc : QueDisc
  pub buf_max_msg_size : ℕ
  pub buf_max_nb_msg : ℕ
  pub buf_body : Circbuf Msg
  pub buf_lock : Lock
  pub buf_waiting_procs : List ℕ

pub record Blackboard : Type 0 where
  pub bb_name : Name
  pub bb_part_id : ℕ
  pub bb_empty_ind : EmptyInd
  pub bb_max_msg_size : ℕ
  pub bb_data : Msg
  pub bb_lock : Lock
  pub bb_waiting_procs : List ℕ

-- A channel of type CT_QUEUING, the only type that `channel_create` implements.
pub record Channel : Type 0 where
  pub ch_max_msg_size : ℕ
  pub ch_max_nb_msg : ℕ
  pub ch_body : Circbuf Msg
  pub ch_waiting_procs : List ℕ
  pub ch_lock : Lock

pub record QueuingPort : Type 0 where
  pub qp_name : Name
  pub qp_part_id : ℕ
  pub qp_dir : PortDir
  pub qp_disc : QueDisc
  pub qp_channel : ℕ

-- What the configuration says of a queuing port, with the channel once there is one.
pub record QueuingPortConf : Type 0 where
  pub qpc_name : Name
  pub qpc_pa_name : Name
  pub qpc_dir : PortDir
  pub qpc_max_msg_size : ℕ
  pub qpc_max_nb_msg : ℕ
  pub qpc_channel : Option ℕ

-- How the hart's timer is set: off, due now (`sip.sti`), or armed for a time.
pub data Timer : Type 0 where
  off due : Timer
  armed : Time → Timer

-- `clock n` is the `n`-th reading of the boot time, `reads` counts the readings made.
pub record Kernel : Type 0 where
  pub hart : ℕ
  pub clock : ℕ → Time
  pub reads : ℕ
  pub cur_part : ℕ
  pub cur_proc : ℕ
  pub parts : Store Part
  pub procs : Store Proc
  pub buffers : Store Buffer
  pub blackboards : Store Blackboard
  pub ports : Store QueuingPort
  pub port_name_map : Name → Option ℕ
  pub port_confs : List QueuingPortConf
  pub channels : Store Channel
  pub next_proc_id : ℕ
  pub next_buf_id : ℕ
  pub next_bb_id : ℕ
  pub next_port_id : ℕ
  pub next_channel : ℕ
  pub channel_base : ℕ
  pub time_events : List TimeEvent
  pub next_event : ℕ
  pub timer : Timer

-- What a blocked service waits for, with what it keeps in its local variables: the object, and
-- the wake-up time with the time-out that it came from.
pub data Resume : Type 0 where
  returns : RetCode → Resume
  check_suspend : Time → Resume
  wait_send_buffer wait_receive_buffer : ℕ → Time → Time → Resume
  wait_read_blackboard : ℕ → Time → Time → Resume
  wait_send_queuing : ℕ → Time → Time → Resume
  wait_receive_queuing : ℕ → Time → Time → Time → Resume

-- A service comes back, or calls `sched_proc_give_up`, round robin or not, and goes on from there
-- when its process is elected again.
pub data Outcome : Type 0 where
  done : RetCode → Outcome
  gives_up : Bool → Resume → Outcome

-- `none` is a panic, a spin on a held lock, or a NULL dereference.
abbrev pub Step : Type 0
Step = Option (Outcome × Kernel)

infixl 5 ◌>>=◌
abbrev pub ◌>>=◌ {ℓ κ} : {A : Type ℓ} {B : Type κ} → Option A → (A → Option B) → Option B
none >>= f = none
some a >>= f = f a

-- What a chain that comes through has gone through.
pub >>=-eq-some {ℓ κ} :
    {A : Type ℓ} {B : Type κ} (m : Option A) (f : A → Option B) {b : B}
    → (m >>= f) ≡ some b
    → (a : A) × (m ≡ some a) × (f a ≡ some b)
>>=-eq-some none f h = cc
>>=-eq-some (some a) f h = (a, refl, h)

-- `boottime_get_now`: the reading, and the state after it.
unfoldable pub boottime_get_now : Kernel → Time × Kernel
boottime_get_now k = (k.clock k.reads, record k { reads = suc k.reads })

-- Assignments to fields of an object.
abbrev pub on_proc : ℕ → (Proc → Proc) → Kernel → Kernel
on_proc pid f k = record k { procs = update_at pid f k.procs }

abbrev pub on_buffer : ℕ → (Buffer → Buffer) → Kernel → Kernel
on_buffer id f k = record k { buffers = update_at id f k.buffers }

abbrev pub on_blackboard : ℕ → (Blackboard → Blackboard) → Kernel → Kernel
on_blackboard id f k = record k { blackboards = update_at id f k.blackboards }

abbrev pub on_channel : ℕ → (Channel → Channel) → Kernel → Kernel
on_channel id f k = record k { channels = update_at id f k.channels }

abbrev pub on_part : ℕ → (Part → Part) → Kernel → Kernel
on_part id f k = record k { parts = update_at id f k.parts }

-- The two halves of a process's critical section.
unfoldable pub acquire_state_lock : ℕ → Kernel → Option Kernel
unfolding lk_acquire
acquire_state_lock pid k = do
  p ← k.procs pid
  l ← lk_acquire k.hart p.pr_state_lock
  some (on_proc pid (λ q. record q { pr_state_lock = l }) k)

unfoldable pub release_state_lock : ℕ → Kernel → Option Kernel
unfolding lk_release
release_state_lock pid k = do
  p ← k.procs pid
  l ← lk_release k.hart p.pr_state_lock
  some (on_proc pid (λ q. record q { pr_state_lock = l }) k)

-- `proc_from_id` with the check that every service makes: the process is of the running partition.
unfoldable pub proc_of_cur_part : ℕ → Kernel → Option Proc
proc_of_cur_part pid k = do p ← k.procs pid; if p.pr_part_id == k.cur_part then some p else none
