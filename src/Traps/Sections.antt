-- ===== src/Traps/Sections.antt =====
-- Sections without interrupts nest (`intp_push` and `intp_pop` of kern/traps/traps.c).
use jrinx.Base.{
  ℕ, suc, ◌+◌, ◌-◌, ◌^◌, ◌<◌, ◌≡◌, refl, sym, ap, ◌∙◌, inl, inr, Bool, Bool-cases, true, false,
  List, [], ◌∷◌, ◌++◌, ◌==◌, if◌then◌else◌, arith,
}
use jrinx.Circbuf.{word}
use jrinx.Traps.{Intp, intp_enable, intp_disable, intp_push, intp_pop}

-- Entering and leaving a section.
pub data Action : Type 0 where
  push pop : Action

unfoldable pub act : Action → Intp → Intp
act push h = intp_push h
act pop h = intp_pop h

unfoldable pub act_all : List Action → Intp → Intp
act_all [] h = h
act_all (a ∷ rest) h = act_all rest (act a h)

-- Sections within sections and after sections, no more than `depth` of them open at a time.
pub data Nests : ℕ → List Action → Type 0 where
  done : {depth : ℕ} → Nests depth []
  section :
      {depth : ℕ} {inside after : List Action}
      → Nests depth inside
      → Nests (suc depth) after
      → Nests (suc depth) (push ∷ inside ++ pop ∷ after)

-- Within a section there are no interrupts.
abbrev pub IsMasked : Intp → Type 0
IsMasked h = 0 < h.layer → h.sie ≡ false

act_all-append :
    (actions bs : List Action) (h : Intp)
    → act_all (actions ++ bs) h ≡ act_all bs (act_all actions h)
unfolding act_all
act_all-append [] bs h = refl
act_all-append (a ∷ rest) bs h = act_all-append rest bs (act a h)

-- What sections leave: everything but the bit that the outermost one has kept.
abbrev pub after_sections : List Action → Intp → Intp
after_sections [] h = h
after_sections (a ∷ rest) h = record h { retained = if h.layer == 0 then h.sie else h.retained }

abbrev intp_eq :
    {h h' : Intp} → h.sie ≡ h'.sie → h.layer ≡ h'.layer → h.retained ≡ h'.retained → h ≡ h'
intp_eq p q r = λ i. record { sie = p i; layer = q i; retained = r i }

-- Where the outermost section has kept its bit, no section leaves anything.
idle_sections :
    (actions : List Action) (h : Intp)
    → h.retained ≡ (if h.layer == 0 then h.sie else h.retained)
    → after_sections actions h ≡ h
idle_sections [] h e = refl
idle_sections (a ∷ rest) h e = intp_eq refl refl (sym e)

-- A section without its inside.
pop-push :
    (h : Intp)
    → IsMasked h
    → h.layer + 1 < 2 ^ 64
    → intp_pop (intp_push h) ≡ record h { retained = if h.layer == 0 then h.sie else h.retained }
unfolding intp_pop intp_push intp_enable intp_disable
pop-push h masked room =
    let up : word (h.layer + 1) ≡ h.layer + 1 = omega (arith, room) in
    let down : word (word (h.layer + 1) + (2 ^ 64 - 1)) ≡ h.layer = omega (arith, up, room) in
    elim (Bool-cases (h.layer == 0)) [
      | inl outer ↦ elim (Bool-cases h.sie) [
        | inl on ↦ rw down (rw outer (rw on refl))
        | inr off ↦ rw down (rw outer (rw off refl))
      ]
      | inr inner ↦ rw down (rw inner (intp_eq (sym (masked (ground (arith, inner)))) refl refl))
    ]

-- The state inside a section.
entered :
    (h : Intp)
    → h.layer + 1 < 2 ^ 64
    → ((intp_push h).layer ≡ h.layer + 1) × ((intp_push h).sie ≡ false)
unfolding intp_push intp_disable
entered h room = (omega (arith, room), refl)

idle_inside :
    (h : Intp)
    → h.layer + 1 < 2 ^ 64
    → (intp_push h).retained
      ≡ (if (intp_push h).layer == 0 then (intp_push h).sie else (intp_push h).retained)
idle_inside h room =
    let within : ((intp_push h).layer == 0) ≡ false = ground (arith, (entered h room).0) in
    rw within refl

kept_twice : (c x y : Bool) → (if c then x else y) ≡ (if c then x else if c then x else y)
kept_twice true x y = refl
kept_twice false x y = refl

-- Sections of `intp_push` and `intp_pop` that nest leave interrupts on or off and the number of layers
-- as they were, from any state with interrupts off within sections, as long as the layers can be
-- counted: only the bit that the outermost section keeps changes, to what the interrupts were.
pub act_all-after_sections :
    (depth : ℕ) (actions : List Action) (h : Intp)
    → Nests depth actions
    → IsMasked h
    → h.layer + depth < 2 ^ 64
    → act_all actions h ≡ after_sections actions h
unfolding act_all act
act_all-after_sections depth [] h done masked room = refl
act_all-after_sections (suc depth) _ h (section {inside = inside} {after = after} n m) masked room =
    let one_more : h.layer + 1 < 2 ^ 64 = omega (arith, room) in
    let (layer, off) = entered h one_more in
    let after_one : Intp = record h { retained = if h.layer == 0 then h.sie else h.retained } in
    act_all-append inside (pop ∷ after) (intp_push h)
    ∙ ap (λ x. act_all after (intp_pop x))
        (act_all-after_sections depth inside (intp_push h) n (λ _. off) (omega (arith, layer, room))
          ∙ idle_sections inside (intp_push h) (idle_inside h one_more))
    ∙ ap (act_all after) (pop-push h masked one_more)
    ∙ act_all-after_sections (suc depth) after after_one m masked room
    ∙ idle_sections after after_one (kept_twice (h.layer == 0) h.sie h.retained)
