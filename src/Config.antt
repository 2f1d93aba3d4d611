-- ===== src/Config.antt =====
-- kern/lib/bootargs.c: the configuration texts of the boot arguments, lists of `key=value` with `,`
-- between the fields of an entry and `;` between entries. `conf_raw` with its separators replaced by
-- NUL is the list of the texts between them; the position `q` in it is the rest of this list.
pub mod Texts
pub mod Windows
pub mod Channels
use Prim.Native.Char.{Char, code}
use Prim.Native.String.{String}
use jrinx.Base.{
  ℕ, zero, suc, ◌+◌, Bool, true, false, ◌||◌, Option, none, some, List, [], ◌∷◌, ◌++◌, ◌==◌,
  if◌then◌else◌,
}
use jrinx.Base.Int.{pos}
use jrinx.Strings.{atoi, to_size}
use jrinx.Types.{Time, Name, PortDir, source, destination}
use jrinx.Comm.Alloc.{same_name}
use jrinx.Kernel.{Kernel, QueuingPortConf}
use jrinx.Comm.Channel.{queuing_port_register, channel_create}
use jrinx.Sched.Modules.{SchedModule, SchedConf, sched_module_add}

abbrev pub is_separator : Char → Bool
is_separator c = code c == 59 || code c == 44 || code c == 61

abbrev pub on_first : Char → List String → List String
on_first c [] = []
on_first c (p ∷ ps) = String.◌∷◌ c p ∷ ps

-- The texts between the separators.
unfoldable pub cut : (Char → Bool) → String → List String
cut sep String.[] = String.[] ∷ []
cut sep (String.◌∷◌ c s) = if sep c then String.[] ∷ cut sep s else on_first c (cut sep s)

-- `conf_parts_cnt` and its like, less the one it starts with.
unfoldable pub semicolons : String → ℕ
semicolons String.[] = 0
semicolons (String.◌∷◌ c s) = if code c == 59 then suc (semicolons s) else semicolons s

-- What reading gives: `undefined` is a read behind the end of the copy of the text.
pub data Parsed {ℓ} (A : Type ℓ) : Type ℓ where
  undefined error : Parsed A
  ok : A → Parsed A

abbrev pub chain {ℓ κ} : {A : Type ℓ} {B : Type κ} → Parsed A → (A → Parsed B) → Parsed B
chain undefined f = undefined
chain error f = error
chain (ok a) f = f a

-- A field of an entry: from the key and the texts behind it, the entry and the texts after the skip
-- over two of them.
abbrev pub Field : Type 0 → Type 0
Field C = C → String → List String → Parsed (C × List String)

-- The value behind a key.
unfoldable pub with_value :
    {C : Type 0} → (String → Parsed C) → List String → Parsed (C × List String)
with_value f [] = undefined
with_value f (v ∷ rest) = chain (f v) λ c. ok (c, rest)

-- The inner loop: as many fields as an entry has, whichever they are.
unfoldable pub read_fields : {C : Type 0} → Field C → ℕ → C → List String → Parsed (C × List String)
read_fields field zero c ps = ok (c, ps)
read_fields field (suc n) c [] = error
read_fields field (suc n) c (key ∷ after) =
    chain (field c key after) λ r. read_fields field n r.0 r.1

-- The outer loop. What `kalloc` leaves in an entry is not determined: `garbage`.
unfoldable pub read_entries : {C : Type 0} → Field C → ℕ → C → ℕ → List String → Parsed (List C)
read_entries field n garbage zero ps = ok []
read_entries field n garbage (suc count) ps =
    chain (read_fields field n garbage ps)
      λ r. chain (read_entries field n garbage count r.1) λ cs. ok (r.0 ∷ cs)

-- The entries of a text.
unfoldable pub read_conf : {C : Type 0} → Field C → ℕ → C → String → Parsed (List C)
read_conf field n garbage conf =
    read_entries field n garbage (suc (semicolons conf)) (cut is_separator conf)

unfoldable pub sched_field : Field SchedConf
sched_field c key =
    if same_name key "part"
    then with_value (λ v. ok (record c { sc_pa_name = v }))
    else if same_name key "offset"
    then with_value (λ v. ok (record c { sc_offset = atoi v }))
    else if same_name key "duration"
    then with_value (λ v. ok (record c { sc_duration = atoi v }))
    else λ after. error

-- The loop over `sched_module_add`; `none` is the error, on which the windows before stay.
unfoldable pub add_modules :
    Time → (Name → Option ℕ) → List SchedConf → List SchedModule → Bool × List SchedModule
add_modules garbage part_from_name [] mods = (true, mods)
add_modules garbage part_from_name (c ∷ cs) mods =
    elim (sched_module_add garbage part_from_name c mods) [
      | none ↦ (false, mods)
      | some mods' ↦ add_modules garbage part_from_name cs mods'
    ]

-- `do_sched_create`: whether it comes back without an error, and the table; `none` is undefined.
unfoldable pub do_sched_create :
    SchedConf
    → Time
    → (Name → Option ℕ)
    → String
    → List SchedModule
    → Option (Bool × List SchedModule)
do_sched_create garbage garbage_time part_from_name conf mods =
    elim (read_conf sched_field 3 garbage conf) [
      | undefined ↦ none
      | error ↦ some (false, mods)
      | ok confs ↦ some (add_modules garbage_time part_from_name confs mods)
    ]

-- `struct part_conf`.
pub record PartConf : Type 0 where
  pub pa_name : Name
  pub pa_prog : Name
  pub pa_mem_req : ℕ
  pub pa_period : Time
  pub pa_duration : Time

unfoldable pub part_field : Field PartConf
part_field c key =
    if same_name key "name"
    then with_value (λ v. ok (record c { pa_name = v }))
    else if same_name key "prog"
    then with_value (λ v. ok (record c { pa_prog = v }))
    else if same_name key "memory"
    then with_value (λ v.
      if to_size (atoi v) == 0 then error else ok (record c { pa_mem_req = to_size (atoi v) }))
    else if same_name key "period"
    then with_value (λ v. ok (record c { pa_period = atoi v }))
    else if same_name key "duration"
    then with_value (λ v. ok (record c { pa_duration = atoi v }))
    else λ after. error

-- The entries of the text of `do_partitions_create`.
unfoldable pub read_part_confs : PartConf → String → Parsed (List PartConf)
read_part_confs = read_conf part_field 5

unfoldable pub direction : String → Parsed PortDir
direction v =
    if same_name v "src" then ok source else if same_name v "dst" then ok destination else error

unfoldable pub qport_field : Field QueuingPortConf
qport_field c key =
    if same_name key "name"
    then with_value (λ v. ok (record c { qpc_name = v }))
    else if same_name key "part"
    then with_value (λ v. ok (record c { qpc_pa_name = v }))
    else if same_name key "direction"
    then with_value (λ v. chain (direction v) λ d. ok (record c { qpc_dir = d }))
    else if same_name key "max-msg-size"
    then with_value (λ v. ok (record c { qpc_max_msg_size = to_size (atoi v) }))
    else if same_name key "max-nb-msg"
    then with_value (λ v. ok (record c { qpc_max_nb_msg = to_size (atoi v) }))
    else λ after. error

unfoldable pub register_ports : List QueuingPortConf → Kernel → Kernel
register_ports [] k = k
register_ports (c ∷ cs) k = register_ports cs (queuing_port_register c k)

-- `do_queuing_ports_register`: whether it comes back without an error; `none` is undefined.
unfoldable pub do_queuing_ports_register :
    QueuingPortConf → String → Kernel → Option (Bool × Kernel)
do_queuing_ports_register garbage conf k = elim (read_conf qport_field 5 garbage conf) [
  | undefined ↦ none
  | error ↦ some (false, k)
  | ok confs ↦ some (true, register_ports confs k)
]
