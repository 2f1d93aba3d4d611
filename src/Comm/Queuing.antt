-- ===== src/Comm/Queuing.antt =====
-- kern/chan/queuing.c: a queuing port is one end of a channel, a ring of messages with a queue of
-- waiting processes that both ends share. The operations take the port and its channel.
use jrinx.Base.{ℕ, Bool, true, false, not, ◌||◌, Option, none, some, length, if◌then◌else◌, remove}
use jrinx.Circbuf.{
  circbuf_is_full, circbuf_is_empty, circbuf_enqu_st, circbuf_enqu_ed, circbuf_dequ_st,
  circbuf_dequ_ed, write,
}
use jrinx.Kernel.{Channel, QueuingPort, Msg}
use jrinx.Types.{PortDir, source, destination}
use jrinx.Comm.Wait.{add_waiting, wakeup_waiting}

abbrev pub is_source : PortDir → Bool
is_source source = true
is_source destination = false

unfoldable pub queuing_port_is_full : Channel → Bool
queuing_port_is_full ch = circbuf_is_full ch.ch_body

unfoldable pub queuing_port_is_empty : Channel → Bool
queuing_port_is_empty ch = circbuf_is_empty ch.ch_body

-- `none` is a failed assertion.
unfoldable pub queuing_port_send : QueuingPort → Channel → Msg → Option Channel
queuing_port_send qp ch msg =
    let (tail, started) = circbuf_enqu_st ch.ch_body in
    if queuing_port_is_full ch || not (is_source qp.qp_dir)
    then none
    else some (record ch {
      ch_body = circbuf_enqu_ed (record started { cc_buf = write started.cc_buf tail msg });
    })

unfoldable pub queuing_port_recv : QueuingPort → Channel → Option (Msg × Channel)
queuing_port_recv qp ch =
    let (head, started) = circbuf_dequ_st ch.ch_body in
    if queuing_port_is_empty ch || is_source qp.qp_dir
    then none
    else some (started.cc_buf head, record ch { ch_body = circbuf_dequ_ed started })

unfoldable pub queuing_port_add_waiting_proc : ℕ → Channel → Channel
queuing_port_add_waiting_proc pid ch = record ch {
  ch_waiting_procs = add_waiting pid ch.ch_waiting_procs;
}

unfoldable pub queuing_port_del_waiting_proc : ℕ → Channel → Channel
queuing_port_del_waiting_proc pid ch = record ch {
  ch_waiting_procs = remove pid ch.ch_waiting_procs;
}

unfoldable pub queuing_port_wakeup_waiting_proc :
    QueuingPort → (ℕ → ℕ) → Channel → Option (ℕ × Channel)
queuing_port_wakeup_waiting_proc qp pri ch =
    elim (wakeup_waiting qp.qp_disc pri ch.ch_waiting_procs) [
      | none ↦ none
      | some (pid, ws) ↦ some (pid, record ch { ch_waiting_procs = ws })
    ]

unfoldable pub queuing_port_get_wait_proc_nb : Channel → ℕ
queuing_port_get_wait_proc_nb ch = length ch.ch_waiting_procs

unfoldable pub queuing_port_get_nb_message : Channel → ℕ
queuing_port_get_nb_message ch = ch.ch_body.cc_cnt
