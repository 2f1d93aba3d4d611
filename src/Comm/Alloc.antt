-- ===== src/Comm/Alloc.antt =====
-- The creation of buffers, blackboards and queuing ports: `buffer_alloc` of kern/comm/buffer.c,
-- `blackboard_alloc` of kern/comm/blackboard.c, `queuing_port_alloc` and its configuration of
-- kern/chan/queuing.c, and what they use of kern/multitask/partition.c. The kernel heap always
-- gives memory, and the locks of the maps and counters are open between the calls of one hart.
use text.Mathlib.Text
use jrinx.Base.{
  ℕ, suc, ◌+◌, ◌*◌, Bool, true, false, ◌&&◌, Option, none, some, List, [], ◌∷◌, insert, ltb, ◌==◌,
  if◌then◌else◌,
}
use jrinx.Circbuf.{word, circbuf_init}
use jrinx.Lock.{spinlock_init, lk_acquire, lk_release}
use jrinx.Types.{Name, PortDir, QueDisc, empty}
use jrinx.Kernel.{Kernel, Part, Buffer, Blackboard, QueuingPortConf, ◌>>=◌, on_part}
use jrinx.Comm.Queuing.{is_source}

-- Equality of names (`strcmp(...) == 0`).
abbrev pub same_name : Name → Name → Bool
same_name m n = Text.◌==◌ m n

-- `hashmap_put` into a map by name: an entry of the same name is replaced.
unfoldable pub put_name : Name → ℕ → (Name → Option ℕ) → Name → Option ℕ
put_name name id map n = if same_name n name then some id else map n

unfoldable pub part_add_buf_name : Name → ℕ → Part → Part
part_add_buf_name name id part = record part {
  pa_buf_name_map = put_name name id part.pa_buf_name_map;
}

unfoldable pub part_get_buf_by_name : Name → Part → Option ℕ
part_get_buf_by_name name part = part.pa_buf_name_map name

unfoldable pub part_add_bb_name : Name → ℕ → Part → Part
part_add_bb_name name id part = record part {
  pa_bb_name_map = put_name name id part.pa_bb_name_map;
}

unfoldable pub part_get_bb_by_name : Name → Part → Option ℕ
part_get_bb_by_name name part = part.pa_bb_name_map name

abbrev pub comm_limt : ℕ
comm_limt = 223338299392

-- `part_comm_alloc` inside its critical section: the address, and the partition with less room;
-- `none` where the room does not suffice.
unfoldable pub comm_room : ℕ → Part → Option (ℕ × Part)
comm_room size part =
    if ltb (word (part.pa_comm_base + size)) comm_limt
    then some (part.pa_comm_base, record part { pa_comm_base = word (part.pa_comm_base + size) })
    else none

-- `part_comm_alloc`: the outer `none` is a lock that cannot be taken, the inner one the error
-- -KER_PART_ER.
unfoldable pub part_comm_alloc : ℕ → ℕ → Part → Option (Option (ℕ × Part))
unfolding lk_acquire lk_release
part_comm_alloc hart size part = do
  held ← lk_acquire hart part.pa_comm_base_lock
  released ← lk_release hart held
  some (comm_room size (record part { pa_comm_base_lock = released }))

-- `buf_id_alloc`.
unfoldable pub buf_id_alloc : Kernel → ℕ × Kernel
buf_id_alloc k = (k.next_buf_id, record k { next_buf_id = suc k.next_buf_id })

-- The fresh pages of the ring read as zeros: messages of length 0. The size of an entry counts the
-- 8 bytes of `struct comm_msg`.
unfoldable pub new_buffer : Part → Name → ℕ → ℕ → QueDisc → Buffer
new_buffer part name max_msg_size max_nb_msg que_disc = record {
  buf_name = name;
  buf_part_id = part.pa_id;
  buf_que_disc = que_disc;
  buf_max_msg_size = max_msg_size;
  buf_max_nb_msg = max_nb_msg;
  buf_body = circbuf_init (λ _. []) (word (max_msg_size + 8)) max_nb_msg;
  buf_lock = spinlock_init;
  buf_waiting_procs = [];
}

-- The identifier of the new buffer, `none` for an error, and the state.
unfoldable pub buffer_alloc : Part → Name → ℕ → ℕ → QueDisc → Kernel → Option (Option ℕ × Kernel)
buffer_alloc part name max_msg_size max_nb_msg que_disc k = do
  let (id, k') = buf_id_alloc k
  room ← part_comm_alloc k.hart (word (max_nb_msg * word (max_msg_size + 8))) part
  elim room [
    | none ↦ some (none, k')
    | some (_, part') ↦ some (
      some id,
      on_part k.cur_part (λ _. part_add_buf_name name id part')
          (record k' {
            buffers = insert id (new_buffer part name max_msg_size max_nb_msg que_disc) k'.buffers;
          }),
    )
  ]

unfoldable pub bb_id_alloc : Kernel → ℕ × Kernel
bb_id_alloc k = (k.next_bb_id, record k { next_bb_id = suc k.next_bb_id })

unfoldable pub new_blackboard : Part → Name → ℕ → Blackboard
new_blackboard part name max_msg_size = record {
  bb_name = name;
  bb_part_id = part.pa_id;
  bb_empty_ind = empty;
  bb_max_msg_size = max_msg_size;
  bb_data = [];
  bb_lock = spinlock_init;
  bb_waiting_procs = [];
}

unfoldable pub blackboard_alloc : Part → Name → ℕ → Kernel → Option (Option ℕ × Kernel)
blackboard_alloc part name max_msg_size k = do
  let (id, k') = bb_id_alloc k
  room ← part_comm_alloc k.hart max_msg_size part
  elim room [
    | none ↦ some (none, k')
    | some (_, part') ↦ some (
      some id,
      on_part k.cur_part (λ _. part_add_bb_name name id part')
          (record k' {
            blackboards = insert id (new_blackboard part name max_msg_size) k'.blackboards;
          }),
    )
  ]

abbrev same_dir : PortDir → PortDir → Bool
same_dir d e = if is_source d then is_source e else if is_source e then false else true

-- Whether some entry of the configuration is what the caller asks for.
unfoldable pub queuing_port_conf_validate :
    Part → Name → PortDir → ℕ → ℕ → List QueuingPortConf → Bool
queuing_port_conf_validate part name dir max_msg_size max_nb_msg [] = false
queuing_port_conf_validate part name dir max_msg_size max_nb_msg (p ∷ ps) =
    if same_dir p.qpc_dir dir
      && (p.qpc_max_msg_size == max_msg_size)
      && (p.qpc_max_nb_msg == max_nb_msg)
      && same_name p.qpc_pa_name part.pa_name
      && same_name p.qpc_name name
    then true
    else queuing_port_conf_validate part name dir max_msg_size max_nb_msg ps

-- The channel of the first entry with this name.
unfoldable pub conf_channel : Name → List QueuingPortConf → Option ℕ
conf_channel name [] = none
conf_channel name (p ∷ ps) =
    if same_name p.qpc_name name then p.qpc_channel else conf_channel name ps

unfoldable pub queuing_port_id_alloc : Kernel → ℕ × Kernel
queuing_port_id_alloc k = (k.next_port_id, record k { next_port_id = suc k.next_port_id })

-- `none` is the error of a port without a channel.
unfoldable pub queuing_port_alloc : Part → Name → PortDir → QueDisc → Kernel → Option ℕ × Kernel
queuing_port_alloc part name dir disc k = elim (conf_channel name k.port_confs) [
  | none ↦ (none, k)
  | some ch ↦
      let (id, k') = queuing_port_id_alloc k in
      (
        some id,
        record k' {
          ports =
              insert id
                (record {
                  qp_name = name;
                  qp_part_id = part.pa_id;
                  qp_dir = dir;
                  qp_disc = disc;
                  qp_channel = ch;
                })
                k'.ports;
          port_name_map = put_name name id k'.port_name_map;
        },
      )
]
