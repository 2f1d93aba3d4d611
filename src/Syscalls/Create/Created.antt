-- ===== src/Syscalls/Create/Created.antt =====
-- What CREATE_BUFFER of kern/traps/syscalls.c leaves behind.
use text.Mathlib.TextPositions.{eq_refl}
use native.Mathlib.Nat.{mod-eq_of_lt, le-mul_of_pos_right, mul_comm}
use jrinx.Base.{
  ℕ, suc, ◌+◌, ◌*◌, ◌^◌, ◌<◌, ◌≤◌, ◌≡◌, ◌≢◌, refl, ◌∙◌, ap, true, false, none, some, [], arith,
  insert, lookup-insert_self, update_at-some, ◌==◌, ltb,
}
use jrinx.Circbuf.{word}
use jrinx.Circbuf.Fifo.{Represents, circbuf_init-Represents}
use jrinx.Circbuf.{circbuf_init}
use jrinx.Lock.{unlocked, spinlock_init, lk_acquire, lk_release}
use jrinx.Types.{Name, QueDisc, no_error, normal}
use jrinx.Kernel.{Kernel, Part, Buffer, on_part}
use jrinx.Comm.Alloc.{
  comm_limt, comm_room, part_comm_alloc, buf_id_alloc, new_buffer, buffer_alloc, put_name,
  part_add_buf_name, part_get_buf_by_name,
}
use jrinx.Syscalls.Buffer.{buffer_of_cur_part, do_get_buffer_id}
use jrinx.Syscalls.Create.{do_create_buffer}

-- The new buffer is found under its identifier and its name, is empty, open and owned by the
-- running partition, has taken its room from the partition, and the other buffers are as before.
pub record NewBuffer (name : Name) (size n : ℕ) (disc : QueDisc) (part : Part) (k : Kernel) (id : ℕ)
    (k' : Kernel) : Type 0 where
  pub buf : Buffer
  pub owned : buffer_of_cur_part id k' ≡ some buf
  pub named : do_get_buffer_id name k' ≡ some (no_error, some id)
  pub empty : Represents buf.buf_body []
  pub capacity : buf.buf_body.cc_cap ≡ n
  pub max_size : buf.buf_max_msg_size ≡ size
  pub discipline : buf.buf_que_disc ≡ disc
  pub nobody : buf.buf_waiting_procs ≡ []
  pub open_lock : buf.buf_lock ≡ unlocked
  pub part' : Part
  pub its_part : k'.parts k.cur_part ≡ some part'
  pub room : part'.pa_comm_base ≡ part.pa_comm_base + n * (size + 8)
  pub others : (i : ℕ) → i ≢ id → k'.buffers i ≡ k.buffers i

module _ (name : Name) (size n : ℕ) (disc : QueDisc) (k : Kernel) (part : Part)
    (its : k.parts k.cur_part ≡ some part) (self : part.pa_id ≡ k.cur_part)
    (open_lock : part.pa_comm_base_lock.locked ≡ false) (some_size : 0 < size) (some_room : 0 < n)
    (fits : part.pa_comm_base + n * (size + 8) < comm_limt) where
  abbrev after : Part
  after = record part {
    pa_comm_base = part.pa_comm_base + n * (size + 8);
    pa_comm_base_lock = unlocked;
  }

  entry_small : size + 8 ≤ n * (size + 8)
  entry_small = rw (mul_comm n (size + 8)) (le-mul_of_pos_right (size + 8) some_room)

  exact : word (n * word (size + 8)) ≡ n * (size + 8)
  exact =
      ap (λ (t : ℕ). word (n * t)) (mod-eq_of_lt (omega (arith, entry_small)))
      ∙ mod-eq_of_lt (omega arith)

  in_room : word (part.pa_comm_base + n * (size + 8)) ≡ part.pa_comm_base + n * (size + 8)
  in_room = mod-eq_of_lt (omega arith)

  below : ltb (part.pa_comm_base + n * (size + 8)) comm_limt ≡ true
  below = ground arith

  allocates :
      part_comm_alloc k.hart (word (n * word (size + 8))) part
      ≡ some (some (part.pa_comm_base, after))
  unfolding part_comm_alloc lk_acquire lk_release comm_room
  allocates =
      let same : (k.hart == k.hart) ≡ true = ground arith in
      rw exact (rw open_lock (rw in_room (rw below (rw same))))

  -- The kernel after the creation.
  abbrev with_buffer : Kernel
  with_buffer =
      on_part k.cur_part (λ _. part_add_buf_name name k.next_buf_id after)
        (record k {
          next_buf_id = suc k.next_buf_id;
          buffers = insert k.next_buf_id (new_buffer part name size n disc) k.buffers;
        })

  its_new_part : with_buffer.parts k.cur_part ≡ some (part_add_buf_name name k.next_buf_id after)
  its_new_part = update_at-some k.cur_part _ k.parts its

  found : buffer_of_cur_part k.next_buf_id with_buffer ≡ some (new_buffer part name size n disc)
  unfolding buffer_of_cur_part new_buffer
  found =
      let same : (part.pa_id == k.cur_part) ≡ true = ground arith in
      rw
        (
          lookup-insert_self k.next_buf_id (new_buffer part name size n disc) k.buffers,
          buffer_of_cur_part,
        )
        (rw same)

  named : do_get_buffer_id name with_buffer ≡ some (no_error, some k.next_buf_id)
  unfolding do_get_buffer_id part_add_buf_name put_name
  named = rw (its_new_part, do_get_buffer_id) (rw (eq_refl name))

  new_empty : Represents (new_buffer part name size n disc).buf_body []
  unfolding new_buffer
  new_empty =
      rw (mod-eq_of_lt {n = size + 8} {m = 2 ^ 64} (omega (arith, entry_small)))
        (circbuf_init-Represents (λ _. []) (size + 8) n (omega arith) some_room (omega arith))

  -- CREATE_BUFFER of a name that the running partition has not used, before normal mode, with
  -- sizes above 0 for which the partition has room, and the lock of that room open: it returns
  -- NO_ERROR and the identifier of a new buffer of the partition, which is empty and open, has the
  -- sizes and the discipline that were asked for and is found under the name; the room shrinks by
  -- the storage of the buffer, and the other buffers stay as they are.
  pub do_create_buffer_lem :
      part.pa_buf_name_map name ≡ none
      → part.pa_op_mode ≢ normal
      → (k' : Kernel) × (do_create_buffer name size n disc k
          ≡ some (no_error, some k.next_buf_id, k'))
        × NewBuffer name size n disc part k k.next_buf_id k'
  unfolding do_create_buffer buffer_alloc buf_id_alloc new_buffer part_add_buf_name circbuf_init
      spinlock_init insert part_get_buf_by_name
  do_create_buffer_lem unknown before =
      let sized : (size == 0) ≡ false = ground arith in
      let starting : (part.pa_op_mode == normal) ≡ false = ground arith in
      (
        with_buffer,
        rw (its, do_create_buffer) (ground (arith, unknown, allocates)),
        record {
          buf = new_buffer part name size n disc;
          owned = found;
          named = named;
          empty = new_empty;
          capacity = refl;
          max_size = refl;
          discipline = refl;
          nobody = refl;
          open_lock = refl;
          part' = part_add_buf_name name k.next_buf_id after;
          its_part = its_new_part;
          room = refl;
          others = λ i other. ground arith;
        },
      )
