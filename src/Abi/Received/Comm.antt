-- ===== src/Abi/Received/Comm.antt =====
-- The system calls of Abi/Comm as the kernel receives them.
use jrinx.Base.{◌≡◌, some, refl, ap}
use jrinx.Types.{IsTime}
use jrinx.Abi.Registers.{IsEnum, to_enum_lem, to_time-of_time}
use jrinx.Abi.Comm.{BufferCall, user_buffer_call, BlackboardCall, user_blackboard_call}
use jrinx.Abi.Dispatch.{switch, buffer, blackboard}

-- The arguments are values of their types: what is narrower than a register or signed is in range.
abbrev pub BufferRanges : BufferCall → Type 0
BufferRanges (BufferCall.create_buffer x y z u v) = IsEnum u
BufferRanges (BufferCall.send_buffer x y z u) = IsTime u
BufferRanges (BufferCall.receive_buffer x y z u) = IsTime y
BufferRanges (BufferCall.get_buffer_id x y) = Unit
BufferRanges (BufferCall.get_buffer_status x y) = Unit

pub do_buffer_call :
    (c : BufferCall) → BufferRanges c → switch (user_buffer_call c) ≡ some (buffer c)
do_buffer_call (BufferCall.create_buffer x y z u v) h =
    ap (λ q. some (buffer (BufferCall.create_buffer x y z q v))) (to_enum_lem u h)
do_buffer_call (BufferCall.send_buffer x y z u) h =
    ap (λ q. some (buffer (BufferCall.send_buffer x y z q))) (to_time-of_time u h)
do_buffer_call (BufferCall.receive_buffer x y z u) h =
    ap (λ q. some (buffer (BufferCall.receive_buffer x q z u))) (to_time-of_time y h)
do_buffer_call (BufferCall.get_buffer_id x y) h = refl
do_buffer_call (BufferCall.get_buffer_status x y) h = refl

-- The arguments are values of their types: what is narrower than a register or signed is in range.
abbrev pub BlackboardRanges : BlackboardCall → Type 0
BlackboardRanges (BlackboardCall.create_blackboard x y z) = Unit
BlackboardRanges (BlackboardCall.display_blackboard x y z) = Unit
BlackboardRanges (BlackboardCall.read_blackboard x y z u) = IsTime y
BlackboardRanges (BlackboardCall.clear_blackboard x) = Unit
BlackboardRanges (BlackboardCall.get_blackboard_id x y) = Unit
BlackboardRanges (BlackboardCall.get_blackboard_status x y) = Unit

pub do_blackboard_call :
    (c : BlackboardCall)
    → BlackboardRanges c
    → switch (user_blackboard_call c) ≡ some (blackboard c)
do_blackboard_call (BlackboardCall.create_blackboard x y z) h = refl
do_blackboard_call (BlackboardCall.display_blackboard x y z) h = refl
do_blackboard_call (BlackboardCall.read_blackboard x y z u) h =
    ap (λ q. some (blackboard (BlackboardCall.read_blackboard x q z u))) (to_time-of_time y h)
do_blackboard_call (BlackboardCall.clear_blackboard x) h = refl
do_blackboard_call (BlackboardCall.get_blackboard_id x y) h = refl
do_blackboard_call (BlackboardCall.get_blackboard_status x y) h = refl
