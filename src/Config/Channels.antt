-- ===== src/Config/Channels.antt =====
-- `do_channel_create` of kern/lib/bootargs.c. The names of the ports are cut at `&` within the copy
-- of the text, so that the skip over two texts behind the field ends at the second name.
use Prim.Native.Char.{Char, code}
use Prim.Native.String.{String}
use jrinx.Base.{
  arith, ℕ, suc, ◌≡◌, refl, ap, ◌∙◌, Bool, true, false, Option, none, some, List, [], ◌∷◌, ◌++◌,
  ◌==◌, if◌then◌else◌,
}
use jrinx.Types.{Name}
use jrinx.Comm.Alloc.{same_name}
use jrinx.Kernel.{Kernel}
use jrinx.Comm.Channel.{channel_create}
use jrinx.Config.{
  is_separator, cut, semicolons, Parsed, undefined, error, ok, Field, with_value, read_fields,
  read_entries, read_conf,
}
use jrinx.Config.Texts.{is_plain, cut-append, cut-plain, semicolons-append, semicolons-plain}
use jrinx.Config.Windows.{then_text}

-- `struct channel_conf`; the medium is memory.
pub record ChannelConf : Type 0 where
  pub is_queuing : Bool
  pub cc_port_names : List Name

abbrev pub is_ampersand : Char → Bool
is_ampersand c = code c == 38

abbrev pub without_first : List String → List String
without_first [] = []
without_first (p ∷ ps) = ps

-- The field `ports` leaves the names behind the first one to be read on.
unfoldable pub ports_value : ChannelConf → List String → Parsed (ChannelConf × List String)
ports_value c [] = undefined
ports_value c (v ∷ rest) =
    ok (record c { cc_port_names = cut is_ampersand v }, without_first (cut is_ampersand v) ++ rest)

unfoldable pub channel_field : Field ChannelConf
channel_field c key =
    if same_name key "media"
    then with_value (λ v. if same_name v "memory" then ok c else error)
    else if same_name key "type"
    then with_value (λ v.
      if same_name v "queuing"
      then ok (record c { is_queuing = true })
      else if same_name v "sampling"
      then ok (record c { is_queuing = false })
      else error)
    else if same_name key "ports"
    then ports_value c
    else λ after. error

-- The loop over `channel_create`; `none` is the panic on a sampling channel.
unfoldable pub create_channels : List ChannelConf → Kernel → Option (Bool × Kernel)
create_channels [] k = some (true, k)
create_channels (c ∷ cs) k =
    let (created, k') = channel_create c.cc_port_names k in
    let rest = create_channels cs k' in
    if c.is_queuing then (if created then rest else some (false, k')) else none

-- Whether it comes back without an error; `none` is a panic or undefined.
unfoldable pub do_channel_create : ChannelConf → String → Kernel → Option (Bool × Kernel)
do_channel_create garbage conf k = elim (read_conf channel_field 3 garbage conf) [
  | undefined ↦ none
  | error ↦ some (false, k)
  | ok confs ↦ create_channels confs k
]

-- `media=memory,type=queuing,ports=` before a text, and the names of two ports.
abbrev pub channel_start : String → String
channel_start s = then_text "media" "=" (
    then_text "memory" ","
      (then_text "type" "=" (then_text "queuing" "," (then_text "ports" "=" s))))

abbrev pub two_ports : Name → Name → String
two_ports src dst = then_text src "&" dst

abbrev start_pieces : List String → List String
start_pieces ps = "media" ∷ "memory" ∷ "type" ∷ "queuing" ∷ "ports" ∷ ps

channel_start-cut :
    (s : String) → cut is_separator (channel_start s) ≡ start_pieces (cut is_separator s)
unfolding cut
channel_start-cut s = refl

channel_start-semicolons : (s : String) → semicolons (channel_start s) ≡ semicolons s
unfolding semicolons
channel_start-semicolons s = refl

is_plain-two_ports :
    (src dst : Name)
    → is_plain is_separator src ≡ true
    → is_plain is_separator dst ≡ true
    → is_plain is_separator (two_ports src dst) ≡ true
is_plain-two_ports String.[] dst h e = e
is_plain-two_ports (String.◌∷◌ c src) dst h e =
    let first : is_separator c ≡ false = ground (arith, h) in
    rw first (is_plain-two_ports src dst (ground (arith, h)) e)

-- The name of a port: no separator, and no key of a field.
abbrev pub IsPortName : Name → Type 0
IsPortName n =
    (is_plain is_separator n ≡ true)
    × (is_plain is_ampersand n ≡ true)
    × (same_name n "media" ≡ false)
    × (same_name n "type" ≡ false)
    × (same_name n "ports" ≡ false)

abbrev pub two_port_conf : Name → Name → ChannelConf
two_port_conf src dst = record { is_queuing = true; cc_port_names = src ∷ dst ∷ [] }

module _ (garbage : ChannelConf) (src dst : Name) (src_name : IsPortName src)
    (dst_name : IsPortName dst) where
  names_cut : cut is_ampersand (two_ports src dst) ≡ src ∷ dst ∷ []
  names_cut =
      cut-append is_ampersand src "&" dst src_name.1 refl
      ∙ ap (λ ps. src ∷ ps) (cut-plain is_ampersand dst dst_name.1)

  plain : is_plain is_separator (two_ports src dst) ≡ true
  plain = is_plain-two_ports src dst src_name.0 dst_name.0

  -- The second name stays in front of what follows.
  read_channel :
      (rest : List String)
      → read_fields channel_field 3 garbage (start_pieces (two_ports src dst ∷ rest))
        ≡ ok (two_port_conf src dst, dst ∷ rest)
  unfolding read_fields channel_field with_value ports_value
  read_channel rest = rw names_cut refl

  read_one :
      read_conf channel_field 3 garbage (channel_start (two_ports src dst))
      ≡ ok (two_port_conf src dst ∷ [])
  unfolding read_conf read_entries
  read_one =
      ap
        (λ n.
          read_entries channel_field 3 garbage (suc n)
            (cut is_separator (channel_start (two_ports src dst))))
        (channel_start-semicolons (two_ports src dst) ∙ semicolons-plain (two_ports src dst) plain)
      ∙ ap (read_entries channel_field 3 garbage 1) (
          channel_start-cut (two_ports src dst)
          ∙ ap start_pieces (cut-plain is_separator (two_ports src dst) plain))
      ∙ rw (read_channel []) refl

  refused : (rest : List String) → read_fields channel_field 3 garbage (dst ∷ rest) ≡ error
  unfolding read_fields channel_field
  refused rest = rw dst_name.2 (rw dst_name.3 (rw dst_name.4 refl))

  two_refused :
      (m : ℕ) (rest : List String)
      → read_entries channel_field 3 garbage (suc (suc m)) (start_pieces (two_ports src dst ∷ rest))
        ≡ error
  unfolding read_entries
  two_refused m rest = rw (read_channel rest) (rw (refused rest) refl)

  read_more :
      (next : String)
      → read_conf channel_field 3 garbage (channel_start (then_text (two_ports src dst) ";" next))
        ≡ error
  unfolding read_conf semicolons
  read_more next =
      let s = then_text (two_ports src dst) ";" next in
      ap (λ n. read_entries channel_field 3 garbage (suc n) (cut is_separator (channel_start s)))
        (channel_start-semicolons s
          ∙ semicolons-append (two_ports src dst) (String.◌∷◌ ";" next) plain)
      ∙ ap (read_entries channel_field 3 garbage (suc (suc (semicolons next)))) (
          channel_start-cut s
          ∙ ap start_pieces (cut-append is_separator (two_ports src dst) ";" next plain refl))
      ∙ two_refused (semicolons next) (cut is_separator next)

  -- The text of one channel between two ports gives do_channel_create this channel; as soon as
  -- anything follows as a second entry, the text is an error and no channel is created.
  pub do_channel_create_lem :
      (k : Kernel)
      → (do_channel_create garbage (channel_start (two_ports src dst)) k
          ≡ create_channels (two_port_conf src dst ∷ []) k)
        × ((next : String)
            → do_channel_create garbage (channel_start (then_text (two_ports src dst) ";" next)) k
              ≡ some (false, k))
  unfolding do_channel_create
  do_channel_create_lem k =
      (rw (read_one, do_channel_create) refl, λ next. rw (read_more next, do_channel_create) refl)
