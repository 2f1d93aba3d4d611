-- ===== src/Comm/Channel.antt =====
-- The configuration of queuing ports (kern/chan/queuing.c) and the creation of queuing channels
-- (kern/chan/channel.c) at boot. A new channel has an address of its own, `next_channel`.
use jrinx.Base.{
  ℕ, suc, ◌+◌, ◌*◌, Bool, true, false, ◌&&◌, Option, none, some, List, [], ◌∷◌, length, insert,
  ◌==◌, if◌then◌else◌,
}
use jrinx.Circbuf.{word, circbuf_init}
use jrinx.Lock.{spinlock_init}
use jrinx.Types.{Name}
use jrinx.Kernel.{Kernel, Channel, QueuingPortConf, ◌>>=◌}
use jrinx.Comm.Alloc.{same_name}

-- A copy of the entry, at the head of the list; it has no channel yet.
unfoldable pub queuing_port_register : QueuingPortConf → Kernel → Kernel
queuing_port_register qpc k = record k {
  port_confs = record qpc { qpc_channel = none } ∷ k.port_confs;
}

-- The first entry of this name gets the channel, and the channel the sizes of the entry; `none` is
-- the error of a name without an entry.
unfoldable pub queuing_port_conf_chan :
    Name → ℕ → Channel → List QueuingPortConf → Option (Channel × List QueuingPortConf)
queuing_port_conf_chan name id ch [] = none
queuing_port_conf_chan name id ch (p ∷ ps) =
    let rest = queuing_port_conf_chan name id ch ps in
    if same_name p.qpc_name name
    then some (
      record ch { ch_max_msg_size = p.qpc_max_msg_size; ch_max_nb_msg = p.qpc_max_nb_msg },
      record p { qpc_channel = some id } ∷ ps,
    )
    else rest >>= λ r. some (r.0, p ∷ r.1)

-- The loop of `channel_create` over the names of the ports: whether it comes to its end, and the
-- channel and the configuration where it stops.
unfoldable pub conf_ports :
    List Name → ℕ → Channel → List QueuingPortConf → Bool × Channel × List QueuingPortConf
conf_ports [] id ch confs = (true, ch, confs)
conf_ports (name ∷ names) id ch confs = elim (queuing_port_conf_chan name id ch confs) [
  | none ↦ (false, ch, confs)
  | some (ch', confs') ↦ conf_ports names id ch' confs'
]

-- A channel as `memset` leaves it.
abbrev pub zero_channel : Channel
zero_channel = record {
  ch_max_msg_size = 0;
  ch_max_nb_msg = 0;
  ch_body = record {
    cc_buf = λ _. [];
    cc_ele_size = 0;
    cc_cap = 0;
    cc_cnt = 0;
    cc_head = 0;
    cc_tail = 0;
  };
  ch_waiting_procs = [];
  ch_lock = record { locked = false; hartid = 0 };
}

-- `channel_create` for the type CT_QUEUING. After an error the channel is freed, and the entries
-- that were set before keep its address.
unfoldable pub channel_create : List Name → Kernel → Bool × Kernel
channel_create port_names k =
    let id = k.next_channel in
    let (all_there, ch, confs) = conf_ports port_names id zero_channel k.port_confs in
    let k' = record k { next_channel = suc id; port_confs = confs } in
    let size = word (ch.ch_max_msg_size + 8) in
    if all_there && (length port_names == 2)
    then (
      true,
      record k' {
        channels =
            insert id
              (record ch {
                ch_body = circbuf_init (λ _. []) size ch.ch_max_nb_msg;
                ch_waiting_procs = [];
                ch_lock = spinlock_init;
              })
              k'.channels;
        channel_base = word (k.channel_base + word (size * ch.ch_max_nb_msg));
      },
    )
    else (false, k')
