-- ===== src/Syscalls/Create.antt =====
-- CREATE_BUFFER, CREATE_BLACKBOARD and CREATE_QUEUING_PORT of kern/traps/syscalls.c.
pub mod Created
use jrinx.Base.{ℕ, Bool, not, Option, none, some, ◌==◌, if◌then◌else◌}
use jrinx.Types.{
  RetCode, Name, PortDir, QueDisc, no_error, no_action, invalid_param, invalid_config, invalid_mode,
  normal,
}
use jrinx.Kernel.{Kernel, ◌>>=◌}
use jrinx.Comm.Alloc.{
  part_get_buf_by_name, part_get_bb_by_name, buffer_alloc, blackboard_alloc,
  queuing_port_conf_validate, queuing_port_alloc,
}

-- What a creating service gives: its return code, the identifier if it writes one, and the state.
abbrev pub Creation : Type 0
Creation = Option (RetCode × Option ℕ × Kernel)

-- The end of the creating services.
abbrev pub created : Option ℕ × Kernel → Creation
created (none, k) = some (invalid_config, none, k)
created (some id, k) = some (no_error, some id, k)

unfoldable pub do_create_buffer : Name → ℕ → ℕ → QueDisc → Kernel → Creation
do_create_buffer name max_message_size max_nb_message queuing_discipline k = do
  part ← k.parts k.cur_part
  elim (part_get_buf_by_name name part) [
    | some _ ↦ some (no_action, none, k)
    | none ↦
        if max_message_size == 0
        then some (invalid_param, none, k)
        else if part.pa_op_mode == normal
        then some (invalid_mode, none, k)
        else do
          r ← buffer_alloc part name max_message_size max_nb_message queuing_discipline k
          created r
  ]

unfoldable pub do_create_blackboard : Name → ℕ → Kernel → Creation
do_create_blackboard name max_message_size k = do
  part ← k.parts k.cur_part
  elim (part_get_bb_by_name name part) [
    | some _ ↦ some (no_action, none, k)
    | none ↦
        if max_message_size == 0
        then some (invalid_param, none, k)
        else if part.pa_op_mode == normal
        then some (invalid_mode, none, k)
        else do r ← blackboard_alloc part name max_message_size k; created r
  ]

unfoldable pub do_create_queuing_port : Name → ℕ → ℕ → PortDir → QueDisc → Kernel → Creation
do_create_queuing_port name max_message_size max_nb_message port_direction queuing_discipline k = do
  part ← k.parts k.cur_part
  if not (
        queuing_port_conf_validate part name port_direction max_message_size max_nb_message
          k.port_confs)
      then some (invalid_config, none, k)
      else elim (k.port_name_map name) [
        | some _ ↦ some (no_action, none, k)
        | none ↦
            if part.pa_op_mode == normal
            then some (invalid_mode, none, k)
            else created (queuing_port_alloc part name port_direction queuing_discipline k)
      ]
