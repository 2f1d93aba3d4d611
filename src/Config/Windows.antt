-- ===== src/Config/Windows.antt =====
-- The table of partition windows from its text (`do_sched_create` of kern/lib/bootargs.c).
use mathlib.Core.Path.{subst}
use Prim.Native.Char.{Char}
use Prim.Native.String.{String}
use jrinx.Base.{
  ℕ, suc, ◌^◌, ◌<◌, ◌≡◌, refl, sym, ap, ◌∙◌, inl, inr, Bool, true, false, Option, Option-cases,
  none, some, List, [], ◌∷◌, map, length, All,
}
use jrinx.Base.Int.{pos}
use jrinx.Types.{Time, Name}
use jrinx.Sched.Modules.{SchedModule, SchedConf, sched_module_add}
use jrinx.Config.{
  is_separator, cut, semicolons, ok, with_value, read_fields, read_entries, read_conf, sched_field,
  add_modules, do_sched_create,
}
use jrinx.Config.Texts.{
  append, is_plain, cut-append, cut-plain, semicolons-append, semicolons-plain, Digit, value_from,
  number, atoi-number, is_plain-number,
}

-- What a text of one window is made of.
pub record Window : Type 0 where
  pub name : Name
  pub offset : List Digit
  pub duration : List Digit

abbrev pub conf_of : Window → SchedConf
conf_of w = record {
  sc_pa_name = w.name;
  sc_offset = pos (value_from 0 w.offset);
  sc_duration = pos (value_from 0 w.duration);
}

abbrev pub IsWindow : Window → Type 0
IsWindow w =
    (is_plain is_separator w.name ≡ true)
    × (value_from 0 w.offset < 2 ^ 31)
    × (value_from 0 w.duration < 2 ^ 31)

-- `piece` and a separator before a text.
abbrev pub then_text : String → Char → String → String
then_text piece sep s = append piece (String.◌∷◌ sep s)

-- `part=...,offset=...,duration=` before the number of the duration.
abbrev pub window_start : Window → String → String
window_start w s = then_text "part" "=" (
    then_text w.name ","
      (then_text "offset" "=" (then_text (number w.offset) "," (then_text "duration" "=" s))))

abbrev pub windows_text : Window → List Window → String
windows_text w [] = window_start w (number w.duration)
windows_text w (w' ∷ ws) = window_start w (then_text (number w.duration) ";" (windows_text w' ws))

abbrev start_pieces : Window → List String → List String
start_pieces w ps = "part" ∷ w.name ∷ "offset" ∷ number w.offset ∷ "duration" ∷ ps

abbrev pieces : Window → List Window → List String
pieces w [] = start_pieces w (number w.duration ∷ [])
pieces w (w' ∷ ws) = start_pieces w (number w.duration ∷ pieces w' ws)

window_start-cut :
    (w : Window) (s : String)
    → IsWindow w
    → cut is_separator (window_start w s) ≡ start_pieces w (cut is_separator s)
window_start-cut w s h =
    cut-append is_separator "part" "=" _ refl refl
    ∙ ap (λ ps. "part" ∷ ps) (cut-append is_separator w.name "," _ h.0 refl)
    ∙ ap (λ ps. "part" ∷ w.name ∷ ps) (cut-append is_separator "offset" "=" _ refl refl)
    ∙ ap (λ ps. "part" ∷ w.name ∷ "offset" ∷ ps)
        (cut-append is_separator (number w.offset) "," _ (is_plain-number w.offset) refl)
    ∙ ap (λ ps. "part" ∷ w.name ∷ "offset" ∷ number w.offset ∷ ps)
        (cut-append is_separator "duration" "=" s refl refl)

window_start-semicolons :
    (w : Window) (s : String) → IsWindow w → semicolons (window_start w s) ≡ semicolons s
unfolding semicolons
window_start-semicolons w s h =
    let duration_text = then_text "duration" "=" s in
    let offset_value = then_text (number w.offset) "," duration_text in
    let offset_text = then_text "offset" "=" offset_value in
    let name_text = then_text w.name "," offset_text in
    semicolons-append "part" (String.◌∷◌ "=" name_text) refl
    ∙ semicolons-append w.name (String.◌∷◌ "," offset_text) h.0
    ∙ semicolons-append "offset" (String.◌∷◌ "=" offset_value) refl
    ∙ semicolons-append (number w.offset) (String.◌∷◌ "," duration_text) (is_plain-number w.offset)
    ∙ semicolons-append "duration" (String.◌∷◌ "=" s) refl

windows_text-cut :
    (w : Window) (ws : List Window)
    → All IsWindow (w ∷ ws)
    → cut is_separator (windows_text w ws) ≡ pieces w ws
windows_text-cut w [] h =
    window_start-cut w (number w.duration) h.0
    ∙ ap (start_pieces w) (cut-plain is_separator (number w.duration) (is_plain-number w.duration))
windows_text-cut w (w' ∷ ws) h =
    window_start-cut w _ h.0
    ∙ ap (start_pieces w) (
        cut-append is_separator (number w.duration) ";" _ (is_plain-number w.duration) refl
        ∙ ap (λ ps. number w.duration ∷ ps) (windows_text-cut w' ws h.1))

windows_text-semicolons :
    (w : Window) (ws : List Window)
    → All IsWindow (w ∷ ws)
    → semicolons (windows_text w ws) ≡ length ws
unfolding semicolons
windows_text-semicolons w [] h =
    window_start-semicolons w (number w.duration) h.0
    ∙ semicolons-plain (number w.duration) (is_plain-number w.duration)
windows_text-semicolons w (w' ∷ ws) h =
    window_start-semicolons w (then_text (number w.duration) ";" (windows_text w' ws)) h.0
    ∙ semicolons-append (number w.duration) (String.◌∷◌ ";" (windows_text w' ws))
        (is_plain-number w.duration)
    ∙ ap suc (windows_text-semicolons w' ws h.1)

-- One window is read.
read_window :
    (garbage : SchedConf) (w : Window) (rest : List String)
    → IsWindow w
    → read_fields sched_field 3 garbage (start_pieces w (number w.duration ∷ rest))
      ≡ ok (conf_of w, rest)
unfolding read_fields sched_field with_value
read_window garbage w rest h = rw (atoi-number w.offset h.1) (rw (atoi-number w.duration h.2) refl)

read_windows :
    (garbage : SchedConf) (w : Window) (ws : List Window)
    → All IsWindow (w ∷ ws)
    → read_entries sched_field 3 garbage (suc (length ws)) (pieces w ws) ≡ ok (map conf_of (w ∷ ws))
unfolding read_entries
read_windows garbage w [] h = rw (read_window garbage w [] h.0) refl
read_windows garbage w (w' ∷ ws) h =
    rw (read_window garbage w (pieces w' ws) h.0) (rw (read_windows garbage w' ws h.1) refl)

read_text :
    (garbage : SchedConf) (w : Window) (ws : List Window)
    → All IsWindow (w ∷ ws)
    → read_conf sched_field 3 garbage (windows_text w ws) ≡ ok (map conf_of (w ∷ ws))
unfolding read_conf
read_text garbage w ws h =
    ap (λ n. read_entries sched_field 3 garbage (suc n) (cut is_separator (windows_text w ws)))
      (windows_text-semicolons w ws h)
    ∙ ap (read_entries sched_field 3 garbage (suc (length ws))) (windows_text-cut w ws h)
    ∙ read_windows garbage w ws h

-- Windows are added one after the other until one is refused, with which it is over.
pub data Adds (garbage : Time) (part_from_name : Name → Option ℕ)
    : List SchedConf → List SchedModule → Bool → List SchedModule → Type 0 where
  all_added : (mods : List SchedModule) → Adds garbage part_from_name [] mods true mods
  refused :
      (c : SchedConf) (cs : List SchedConf) (mods : List SchedModule)
      → sched_module_add garbage part_from_name c mods ≡ none
      → Adds garbage part_from_name (c ∷ cs) mods false mods
  added :
      (c : SchedConf) (cs : List SchedConf) (mods mods' : List SchedModule) (fine : Bool)
      (end : List SchedModule)
      → sched_module_add garbage part_from_name c mods ≡ some mods'
      → Adds garbage part_from_name cs mods' fine end
      → Adds garbage part_from_name (c ∷ cs) mods fine end

add_modules-Adds :
    (garbage : Time) (part_from_name : Name → Option ℕ) (cs : List SchedConf)
    (mods : List SchedModule)
    → let r = add_modules garbage part_from_name cs mods in
      Adds garbage part_from_name cs mods r.0 r.1
unfolding add_modules
add_modules-Adds garbage part_from_name [] mods = all_added mods
add_modules-Adds garbage part_from_name (c ∷ cs) mods =
    elim (Option-cases (sched_module_add garbage part_from_name c mods)) [
      | inl none_left ↦
          let over : add_modules garbage part_from_name (c ∷ cs) mods ≡ (false, mods) =
            rw (none_left, add_modules) refl in
          subst (λ r. Adds garbage part_from_name (c ∷ cs) mods r.0 r.1) (sym over)
            (refused c cs mods none_left)
      | inr (mods', more) ↦
          let on : add_modules garbage part_from_name (c ∷ cs) mods
              ≡ add_modules garbage part_from_name cs mods' =
            rw (more, add_modules) refl in
          subst (λ r. Adds garbage part_from_name (c ∷ cs) mods r.0 r.1) (sym on)
            (added c cs mods mods' _ _ more (add_modules-Adds garbage part_from_name cs mods'))
    ]

-- The text of any windows whose names hold no separators and whose numbers are in the range of `int`,
-- written one after the other, gives do_sched_create just these windows: it adds them to the
-- table in order, until one is refused, with which it ends; the windows before stay.
pub do_sched_create_lem :
    (garbage : SchedConf) (garbage_time : Time) (part_from_name : Name → Option ℕ) (w : Window)
    (ws : List Window) (mods : List SchedModule)
    → All IsWindow (w ∷ ws)
    → let confs = map conf_of (w ∷ ws) in
      let r = add_modules garbage_time part_from_name confs mods in
      (do_sched_create garbage garbage_time part_from_name (windows_text w ws) mods ≡ some r)
      × Adds garbage_time part_from_name confs mods r.0 r.1
unfolding do_sched_create
do_sched_create_lem garbage garbage_time part_from_name w ws mods h = (
  rw (read_text garbage w ws h, do_sched_create) refl,
  add_modules-Adds garbage_time part_from_name (map conf_of (w ∷ ws)) mods,
)
