-- ===== src/Tests/System.antt =====
-- The theorems on a small system: partition 1 with the processes 1, which runs, 2, which waits for
-- the buffer 7 with a time-out, and 3, which is ready, and process 4 of
-- partition 2; buffer 7 has room for two messages.
use jrinx.Base.{
  List, ℕ, ◌*◌, ◌≡◌, refl, false, Option, none, some, [], ◌∷◌, Store, update_at, empty_store, arith,
  ◌==◌, if◌then◌else◌,
}
use jrinx.Base.Int.{pos}
use jrinx.Circbuf.{Circbuf, circbuf_enqu_st, circbuf_enqu_ed, circbuf_init, circbuf_enqueue}
use jrinx.Circbuf.Fifo.{Represents, circbuf_init-Represents, circbuf_enqueue-Represents}
use jrinx.Lock.{unlocked}
use jrinx.Types.{
  ProcState, WaitingReason, ready, running, waiting, buffer_blocked_with_timeout, previous_started,
  system_time_infinite_val, soft, priority, normal, is_buffer_timeout,
}
use jrinx.Kernel.{
  TimeEvent, EventKind, Proc, Part, Msg, Buffer, Kernel, buffer_block_timeout, partition_activate,
  off,
}
use jrinx.Timer.Queue.{IsSorted}
use jrinx.Sched.{better, demote, highest, sched_elect_next_proc, sched_proc}
use jrinx.Sched.Modules.{SchedModule, SchedConf}
use jrinx.Sched.Switch.{OnlyCurrentRuns}
use jrinx.Syscalls.Common.Wake.{CanWake}

abbrev pub event : ℕ → ℕ → EventKind → TimeEvent
event a t kind = record { te_address = a; te_time = pos t; te_kind = kind }

abbrev pub block_event : TimeEvent
block_event = event 0 50 (buffer_block_timeout 2 7)

abbrev pub a_proc : ℕ → ℕ → ProcState → WaitingReason → Option TimeEvent → Proc
a_proc id pri state reason te = record {
  pr_ctx_list = [];
  pr_name = "p";
  pr_id = id;
  pr_idx = id;
  pr_part_id = 1;
  pr_ustacktop = 4096;
  pr_ustacksize = 4096;
  pr_entrypoint = 65536;
  pr_base_pri = pri;
  pr_period = system_time_infinite_val;
  pr_time_cap = system_time_infinite_val;
  pr_deadline = soft;
  pr_cur_pri = pri;
  pr_deadline_time = pos 0;
  pr_state = state;
  pr_waiting_reason = reason;
  pr_asso_timer = te;
  pr_state_lock = unlocked;
}

abbrev pub runner : Proc
runner = a_proc 1 2 running previous_started none

abbrev pub waiter : Proc
waiter = a_proc 2 5 waiting buffer_blocked_with_timeout (some block_event)

abbrev pub other : Proc
other = a_proc 3 4 ready previous_started none

abbrev pub stranger : Proc
stranger = record (a_proc 4 9 ready previous_started none) { pr_part_id = 2 }

abbrev pub some_procs : Store Proc
some_procs i =
    if i == 1
    then some runner
    else if i == 2
    then some waiter
    else if i == 3
    then some other
    else if i == 4
    then some stranger
    else none

abbrev pub a_part : Part
a_part = record {
  pa_name = "part";
  pa_id = 1;
  pa_period = pos 1000;
  pa_duration = pos 500;
  pa_lock_level = 0;
  pa_op_mode = normal;
  pa_start_cond = 0;
  pa_num_cores = 1;
  pa_mem_rem = 1000000;
  pa_ustasktop = 137438953472;
  pa_xstacktop = 206158430208;
  pa_comm_base = 0;
  pa_comm_base_lock = unlocked;
  pa_proc_list = 1 ∷ 2 ∷ 3 ∷ [];
  pa_proc_name_map = λ _. none;
  pa_buf_name_map = λ _. none;
  pa_bb_name_map = λ _. none;
}

abbrev pub parts_one : Store Part
parts_one i = if i == 1 then some a_part else none

-- The empty ring, and the one with a message in it.
abbrev pub ring : Circbuf Msg
ring = circbuf_init (λ _. []) 24 2

abbrev pub greeting : Msg
greeting = 104 ∷ 105 ∷ []

abbrev pub filled : Circbuf Msg
filled = circbuf_enqueue ring greeting

abbrev pub a_buffer : Circbuf Msg → Buffer
a_buffer body = record {
  buf_name = "b";
  buf_part_id = 1;
  buf_que_disc = priority;
  buf_max_msg_size = 16;
  buf_max_nb_msg = 2;
  buf_body = body;
  buf_lock = unlocked;
  buf_waiting_procs = 2 ∷ [];
}

abbrev pub buffer_seven : Circbuf Msg → Store Buffer
buffer_seven body i = if i == 7 then some (a_buffer body) else none

abbrev pub system : Circbuf Msg → Kernel
system body = record {
  hart = 0;
  clock = λ n. pos (100 * n);
  reads = 0;
  cur_part = 1;
  cur_proc = 1;
  parts = parts_one;
  procs = some_procs;
  buffers = buffer_seven body;
  blackboards = empty_store;
  ports = empty_store;
  port_name_map = λ _. none;
  port_confs = [];
  channels = empty_store;
  next_proc_id = 5;
  next_buf_id = 8;
  next_bb_id = 1;
  next_port_id = 1;
  next_channel = 1;
  channel_base = 0;
  time_events = block_event ∷ event 1 70 partition_activate ∷ [];
  next_event = 2;
  timer = off;
}

pub ring-Represents : Represents ring []
ring-Represents = circbuf_init-Represents (λ _. []) 24 2 (omega arith) (omega arith) (omega arith)

pub filled-Represents : Represents filled (greeting ∷ [])
unfolding circbuf_init
filled-Represents = circbuf_enqueue-Represents greeting ring-Represents (omega arith)

pub waiter-CanWake : CanWake is_buffer_timeout (some_procs 2)
waiter-CanWake = record { proc = waiter; there = refl; timer = λ _. (block_event, refl) }

pub one_runs : OnlyCurrentRuns (system ring)
one_runs pid h = ground arith

-- The scheduler on the system: process 3 is elected, since 2 waits.
pub elected_three : (k' : Kernel) × (sched_proc false (system ring) ≡ some k')
unfolding sched_proc sched_elect_next_proc highest better demote update_at
elected_three = (_, refl)

pub events-IsSorted : IsSorted (system ring).time_events
events-IsSorted = ((omega arith, tt), (tt, tt))

-- A full ring.
abbrev pub full_ring : Circbuf Msg
full_ring = circbuf_enqueue filled greeting

pub full_ring-Represents : Represents full_ring (greeting ∷ greeting ∷ [])
unfolding circbuf_init circbuf_enqueue circbuf_enqu_st circbuf_enqu_ed
full_ring-Represents = circbuf_enqueue-Represents greeting filled-Represents (omega arith)

-- Partition 1 before its start, which makes a buffer of three messages of 16 bytes.
abbrev pub starting_part : Part
starting_part = record a_part { pa_op_mode = 1 }

-- Process 3 waits for the start.
abbrev pub newcomer : Proc
newcomer = a_proc 3 4 waiting previous_started none

abbrev pub starting : Kernel
starting = record (system ring) {
  parts = λ i. if i == 1 then some starting_part else none;
  procs = λ i. if i == 3 then some newcomer else some_procs i;
}

-- Two windows of a major frame, and a third that begins when the second one ends.
abbrev pub window : ℕ → ℕ → ℕ → SchedModule
window part offset duration = record {
  sm_part = part;
  sm_offset = pos offset;
  sm_duration = pos duration;
  sm_prev_act_time = pos 0;
}

abbrev pub two_windows : List SchedModule
two_windows = window 1 0 200 ∷ window 2 200 300 ∷ []

abbrev pub third : SchedConf
third = record { sc_pa_name = "part"; sc_offset = pos 500; sc_duration = pos 100 }
