-- ===== src/Config/Texts.antt =====
-- Cutting a text at its separators (kern/lib/bootargs.c), and numbers written in digits.
use Prim.Native.Char.{Char, code}
use Prim.Native.String.{String}
use jrinx.Base.{
  ℕ, ◌+◌, ◌-◌, ◌*◌, ◌%◌, ◌^◌, ◌<◌, ◌≤◌, ◌≡◌, refl, ap, ◌∙◌, Bool, true, false, not, ◌&&◌, List, [],
  ◌∷◌, ltb, ◌==◌, arith,
}
use jrinx.Base.Int.{pos}
use jrinx.Circbuf.{word}
use jrinx.Strings.{digits_from, strtol, int_of, atoi}
use jrinx.Config.{is_separator, on_first, cut, semicolons}

abbrev pub append : String → String → String
append String.[] t = t
append (String.◌∷◌ c s) t = String.◌∷◌ c (append s t)

-- A text without separators.
abbrev pub is_plain : (Char → Bool) → String → Bool
is_plain sep String.[] = true
is_plain sep (String.◌∷◌ c s) = not (sep c) && is_plain sep s

pub cut-append :
    (sep : Char → Bool) (a : String) (c : Char) (s : String)
    → is_plain sep a ≡ true
    → sep c ≡ true
    → cut sep (append a (String.◌∷◌ c s)) ≡ a ∷ cut sep s
unfolding cut
cut-append sep String.[] c s h e = rw e refl
cut-append sep (String.◌∷◌ x a) c s h e =
    let other : sep x ≡ false = ground (arith, h) in
    let rest : is_plain sep a ≡ true = ground (arith, h) in
    rw other (ap (on_first x) (cut-append sep a c s rest e))

pub cut-plain : (sep : Char → Bool) (a : String) → is_plain sep a ≡ true → cut sep a ≡ a ∷ []
unfolding cut
cut-plain sep String.[] h = refl
cut-plain sep (String.◌∷◌ x a) h =
    let other : sep x ≡ false = ground (arith, h) in
    let rest : is_plain sep a ≡ true = ground (arith, h) in
    rw other (ap (on_first x) (cut-plain sep a rest))

pub semicolons-append :
    (a s : String) → is_plain is_separator a ≡ true → semicolons (append a s) ≡ semicolons s
unfolding semicolons
semicolons-append String.[] s h = refl
semicolons-append (String.◌∷◌ x a) s h =
    let other : (code x == 59) ≡ false = ground (arith, h) in
    let rest : is_plain is_separator a ≡ true = ground (arith, h) in
    rw other (semicolons-append a s rest)

pub semicolons-plain : (a : String) → is_plain is_separator a ≡ true → semicolons a ≡ 0
unfolding semicolons
semicolons-plain String.[] h = refl
semicolons-plain (String.◌∷◌ x a) h =
    let other : (code x == 59) ≡ false = ground (arith, h) in
    let rest : is_plain is_separator a ≡ true = ground (arith, h) in
    rw other (semicolons-plain a rest)

-- A decimal digit.
pub data Digit : Type 0 where
  nought one two three four five six seven eight nine : Digit

abbrev pub digit_value : Digit → ℕ
digit_value nought = 0
digit_value one = 1
digit_value two = 2
digit_value three = 3
digit_value four = 4
digit_value five = 5
digit_value six = 6
digit_value seven = 7
digit_value eight = 8
digit_value nine = 9

abbrev pub digit_char : Digit → Char
digit_char nought = "0"
digit_char one = "1"
digit_char two = "2"
digit_char three = "3"
digit_char four = "4"
digit_char five = "5"
digit_char six = "6"
digit_char seven = "7"
digit_char eight = "8"
digit_char nine = "9"

code-digit_char : (d : Digit) → (code (digit_char d) ≡ 48 + digit_value d) × (digit_value d < 10)
code-digit_char d =
    elim d as (λ x. (code (digit_char x) ≡ 48 + digit_value x) × (digit_value x < 10)) [
      | nought ↦ (refl, omega arith)
      | _ ↦ (refl, omega arith)
    ]

-- The number that digits stand for, continuing one, and its text.
abbrev pub value_from : ℕ → List Digit → ℕ
value_from n [] = n
value_from n (d ∷ ds) = value_from (n * 10 + digit_value d) ds

abbrev pub number : List Digit → String
number [] = String.[]
number (d ∷ ds) = String.◌∷◌ (digit_char d) (number ds)

value_from-grows : (n : ℕ) (ds : List Digit) → n ≤ value_from n ds
value_from-grows n [] = omega arith
value_from-grows n (d ∷ ds) = omega (arith, value_from-grows (n * 10 + digit_value d) ds)

digits_from-number :
    (n : ℕ) (ds : List Digit)
    → value_from n ds < 2 ^ 31
    → digits_from n (number ds) ≡ value_from n ds
unfolding digits_from
digits_from-number n [] bound = refl
digits_from-number n (d ∷ ds) bound =
    let small = value_from-grows (n * 10 + digit_value d) ds in
    let step : word (n * 10 + code (digit_char d) + (2 ^ 64 - 48)) ≡ n * 10 + digit_value d =
      let c = code-digit_char d in omega (arith, c.0, c.1, small) in
    ap (λ x. digits_from x (number ds)) step ∙ digits_from-number (n * 10 + digit_value d) ds bound

pub atoi-number :
    (ds : List Digit) → value_from 0 ds < 2 ^ 31 → atoi (number ds) ≡ pos (value_from 0 ds)
unfolding atoi strtol
atoi-number [] bound = refl
atoi-number (d ∷ ds) bound =
    let c = code-digit_char d in
    let no_minus : (code (digit_char d) == 45) ≡ false = ground (arith, c.0, c.1) in
    let no_plus : (code (digit_char d) == 43) ≡ false = ground (arith, c.0, c.1) in
    let res = digits_from-number 0 (d ∷ ds) bound in
    let low : value_from 0 (d ∷ ds) % 2 ^ 32 ≡ value_from 0 (d ∷ ds) = omega (arith, bound) in
    let small : ltb (value_from 0 (d ∷ ds) % 2 ^ 32) (2 ^ 31) ≡ true = ground (arith, low, bound) in
    let result : int_of (value_from 0 (d ∷ ds)) ≡ pos (value_from 0 (d ∷ ds)) =
      rw small (ap pos low) in
    rw no_minus (rw no_plus (ap int_of res ∙ result))

pub is_plain-number : (ds : List Digit) → is_plain is_separator (number ds) ≡ true
is_plain-number [] = refl
is_plain-number (d ∷ ds) =
    let other : is_separator (digit_char d) ≡ false =
      elim d as (λ x. is_separator (digit_char x) ≡ false) [ nought ↦ refl | _ ↦ refl ] in
    rw other (is_plain-number ds)
