-- ===== src/Abi/Received/Ports.antt =====
-- The system calls of Abi/Ports as the kernel receives them.
use jrinx.Base.{◌≡◌, some, refl, ap, ◌∙◌}
use jrinx.Types.{IsTime}
use jrinx.Abi.Registers.{IsEnum, of_time, to_enum, to_enum_lem, to_time, to_time-of_time}
use jrinx.Abi.Ports.{SamplingCall, user_sampling_call, QueuingCall, user_queuing_call}
use jrinx.Abi.Dispatch.{switch, sampling, queuing}

-- The arguments are values of their types: what is narrower than a register or signed is in range.
abbrev pub SamplingRanges : SamplingCall → Type 0
SamplingRanges (SamplingCall.create_sampling_port x y z u v) = IsEnum z × IsTime u
SamplingRanges (SamplingCall.write_sampling_message x y z) = Unit
SamplingRanges (SamplingCall.read_sampling_message x y z u) = Unit
SamplingRanges (SamplingCall.get_sampling_port_id x y) = Unit
SamplingRanges (SamplingCall.get_sampling_port_status x y) = Unit

-- READ_SAMPLING_MESSAGE is the exception: its wrapper leaves out the register a2.
abbrev pub Agrees : SamplingCall → Type 0
Agrees (SamplingCall.read_sampling_message _ _ _ _) = ⊥
Agrees _ = Unit

pub do_sampling_call :
    (c : SamplingCall)
    → SamplingRanges c
    → Agrees c
    → switch (user_sampling_call c) ≡ some (sampling c)
do_sampling_call (SamplingCall.create_sampling_port x y z u v) h a =
    ap (λ q. some (sampling (SamplingCall.create_sampling_port x y q (to_time (of_time u)) v)))
      (to_enum_lem z h.0)
    ∙ ap (λ q. some (sampling (SamplingCall.create_sampling_port x y z q v)))
        (to_time-of_time u h.1)
do_sampling_call (SamplingCall.write_sampling_message x y z) h a = refl
do_sampling_call (SamplingCall.read_sampling_message x y z u) h a = absurd a
do_sampling_call (SamplingCall.get_sampling_port_id x y) h a = refl
do_sampling_call (SamplingCall.get_sampling_port_status x y) h a = refl

-- The arguments are values of their types: what is narrower than a register or signed is in range.
abbrev pub QueuingRanges : QueuingCall → Type 0
QueuingRanges (QueuingCall.create_queuing_port x y z u v w) = IsEnum u × IsEnum v
QueuingRanges (QueuingCall.send_queuing_message x y z u) = IsTime u
QueuingRanges (QueuingCall.receive_queuing_message x y z u) = IsTime y
QueuingRanges (QueuingCall.get_queuing_port_id x y) = Unit
QueuingRanges (QueuingCall.get_queuing_port_status x y) = Unit
QueuingRanges (QueuingCall.clear_queuing_port x) = Unit

pub do_queuing_call :
    (c : QueuingCall) → QueuingRanges c → switch (user_queuing_call c) ≡ some (queuing c)
do_queuing_call (QueuingCall.create_queuing_port x y z u v w) h =
    ap (λ q. some (queuing (QueuingCall.create_queuing_port x y z q (to_enum v) w)))
      (to_enum_lem u h.0)
    ∙ ap (λ q. some (queuing (QueuingCall.create_queuing_port x y z u q w))) (to_enum_lem v h.1)
do_queuing_call (QueuingCall.send_queuing_message x y z u) h =
    ap (λ q. some (queuing (QueuingCall.send_queuing_message x y z q))) (to_time-of_time u h)
do_queuing_call (QueuingCall.receive_queuing_message x y z u) h =
    ap (λ q. some (queuing (QueuingCall.receive_queuing_message x q z u))) (to_time-of_time y h)
do_queuing_call (QueuingCall.get_queuing_port_id x y) h = refl
do_queuing_call (QueuingCall.get_queuing_port_status x y) h = refl
do_queuing_call (QueuingCall.clear_queuing_port x) h = refl
