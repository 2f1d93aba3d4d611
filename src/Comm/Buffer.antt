-- ===== src/Comm/Buffer.antt =====
-- kern/comm/buffer.c: a buffer is a ring of messages with a queue of waiting processes.
use jrinx.Base.{ℕ, Bool, Option, none, some, length, if◌then◌else◌, remove}
use jrinx.Circbuf.{
  circbuf_is_full, circbuf_is_empty, circbuf_enqu_st, circbuf_enqu_ed, circbuf_dequ_st,
  circbuf_dequ_ed, write,
}
use jrinx.Kernel.{Buffer, Msg}
use jrinx.Comm.Wait.{add_waiting, wakeup_waiting}

unfoldable pub buffer_is_full : Buffer → Bool
buffer_is_full buf = circbuf_is_full buf.buf_body

unfoldable pub buffer_is_empty : Buffer → Bool
buffer_is_empty buf = circbuf_is_empty buf.buf_body

-- `none` is the failed assertion.
unfoldable pub buffer_send : Buffer → Msg → Option Buffer
buffer_send buf msg =
    let (tail, started) = circbuf_enqu_st buf.buf_body in
    if buffer_is_full buf
    then none
    else some (record buf {
      buf_body = circbuf_enqu_ed (record started { cc_buf = write started.cc_buf tail msg });
    })

unfoldable pub buffer_recv : Buffer → Option (Msg × Buffer)
buffer_recv buf =
    let (head, started) = circbuf_dequ_st buf.buf_body in
    if buffer_is_empty buf
    then none
    else some (started.cc_buf head, record buf { buf_body = circbuf_dequ_ed started })

unfoldable pub buffer_add_waiting_proc : ℕ → Buffer → Buffer
buffer_add_waiting_proc pid buf = record buf {
  buf_waiting_procs = add_waiting pid buf.buf_waiting_procs;
}

unfoldable pub buffer_del_waiting_proc : ℕ → Buffer → Buffer
buffer_del_waiting_proc pid buf = record buf {
  buf_waiting_procs = remove pid buf.buf_waiting_procs;
}

unfoldable pub buffer_wakeup_waiting_proc : (ℕ → ℕ) → Buffer → Option (ℕ × Buffer)
buffer_wakeup_waiting_proc pri buf =
    elim (wakeup_waiting buf.buf_que_disc pri buf.buf_waiting_procs) [
      | none ↦ none
      | some (pid, ws) ↦ some (pid, record buf { buf_waiting_procs = ws })
    ]

unfoldable pub buffer_get_waiting_proc_nb : Buffer → ℕ
buffer_get_waiting_proc_nb buf = length buf.buf_waiting_procs

unfoldable pub buffer_get_nb_message : Buffer → ℕ
buffer_get_nb_message buf = buf.buf_body.cc_cnt
