-- ===== src/Tests/Texts.antt =====
-- Configuration texts at small inputs.
use jrinx.Base.{ℕ, ◌≡◌, refl, false, Option, some, [], ◌∷◌, map, arith}
use jrinx.Base.Int.{pos}
use jrinx.Types.{Name}
use jrinx.Sched.Modules.{SchedConf}
use jrinx.Config.{add_modules, do_sched_create}
use jrinx.Config.Texts.{nought, one, five}
use jrinx.Config.Windows.{Window, conf_of, windows_text, then_text, Adds, do_sched_create_lem}
use jrinx.Config.Channels.{
  ChannelConf, channel_start, two_ports, two_port_conf, create_channels, do_channel_create,
  do_channel_create_lem,
}
use jrinx.Tests.System.{system, ring}

abbrev sched_garbage : SchedConf
sched_garbage = record { sc_pa_name = ""; sc_offset = pos 0; sc_duration = pos 0 }

abbrev first_window : Window
first_window = record { name = "p1"; offset = nought ∷ []; duration = one ∷ nought ∷ [] }

abbrev second_window : Window
second_window = record { name = "p2"; offset = one ∷ nought ∷ []; duration = five ∷ [] }

abbrev only_p1 : Name → Option ℕ
only_p1 _ = some 1

text_of_two :
    windows_text first_window (second_window ∷ [])
    ≡ "part=p1,offset=0,duration=10;part=p2,offset=10,duration=5"
text_of_two = refl

do_sched_create_example :
    let confs = map conf_of (first_window ∷ second_window ∷ []) in
    let r = add_modules (pos 0) only_p1 confs [] in
    (do_sched_create sched_garbage
        (pos 0)
        only_p1
        (windows_text first_window (second_window ∷ []))
        []
      ≡ some r)
    × Adds (pos 0) only_p1 confs [] r.0 r.1
do_sched_create_example =
    do_sched_create_lem sched_garbage (pos 0) only_p1 first_window (second_window ∷ []) []
      ((refl, omega arith, omega arith), ((refl, omega arith, omega arith), tt))

abbrev channel_garbage : ChannelConf
channel_garbage = record { is_queuing = false; cc_port_names = [] }

do_channel_create_example :
    (do_channel_create channel_garbage (channel_start (two_ports "a" "b")) (system ring)
      ≡ create_channels (two_port_conf "a" "b" ∷ []) (system ring))
    × ((next : Name)
        → do_channel_create channel_garbage
            (channel_start (then_text (two_ports "a" "b") ";" next))
            (system ring)
          ≡ some (false, system ring))
do_channel_create_example =
    do_channel_create_lem channel_garbage "a" "b" (refl, refl, refl, refl, refl)
      (refl, refl, refl, refl, refl) (system ring)
