-- ===== src/Base/Lists.antt =====
-- Lists measured and indexed by native numbers, predicates over lists, and the removal of an entry.
use Prim.Native.Nat.{ℕ, zero, suc, ◌+◌, ◌<◌}
use mathlib.Core.Option.{Option, none, some}
use mathlib.Core.Path.{◌≡◌, refl, subst}
use mathlib.Core.Bool.{Bool, true, false, ◌||◌}
use mathlib.Core.List.{List, [], ◌∷◌, ◌++◌}
use native.Mathlib.Omega.{arith}
use jrinx.Base.Tests.{◌==◌, if◌then◌else◌, some_inj}

module _ {ℓ} {A : Type ℓ} where
  abbrev pub length : List A → ℕ
  length [] = 0
  length (x ∷ xs) = suc (length xs)

  pub length-append : (xs ys : List A) → length (xs ++ ys) ≡ length xs + length ys
  length-append [] ys = omega arith
  length-append (x ∷ xs) ys = omega (arith, length-append xs ys)

-- A predicate by recursion computes to tuples, which the tactics read and build.
module _ {ℓ} {A : Type ℓ} where
  -- The element at a position, and the list with another one there.
  abbrev pub get_elem? : List A → ℕ → Option A
  get_elem? [] i = none
  get_elem? (x ∷ xs) zero = some x
  get_elem? (x ∷ xs) (suc i) = get_elem? xs i

  abbrev pub set_elem : ℕ → A → List A → List A
  set_elem i y [] = []
  set_elem zero y (x ∷ xs) = y ∷ xs
  set_elem (suc i) y (x ∷ xs) = x ∷ set_elem i y xs

  pub length-set_elem : (i : ℕ) (y : A) (xs : List A) → length (set_elem i y xs) ≡ length xs
  length-set_elem i y [] = refl
  length-set_elem zero y (x ∷ xs) = refl
  length-set_elem (suc i) y (x ∷ xs) = omega (arith, length-set_elem i y xs)

  pub get_elem?-set_elem :
      (i : ℕ) (y : A) (xs : List A) (j : ℕ) {x : A}
      → get_elem? xs i ≡ some x
      → get_elem? (set_elem i y xs) j ≡ (if j == i then some y else get_elem? xs j)
  get_elem?-set_elem i y [] j h = cc
  get_elem?-set_elem zero y (x ∷ xs) zero h = refl
  get_elem?-set_elem zero y (x ∷ xs) (suc j) h = ground arith
  get_elem?-set_elem (suc i) y (x ∷ xs) zero h = ground arith
  get_elem?-set_elem (suc i) y (x ∷ xs) (suc j) h = ground (arith, get_elem?-set_elem i y xs j h)

  pub get_elem?-set_elem_self :
      (i : ℕ) (y : A) (xs : List A) {x : A}
      → get_elem? xs i ≡ some x
      → get_elem? (set_elem i y xs) i ≡ some y
  get_elem?-set_elem_self i y [] h = cc
  get_elem?-set_elem_self zero y (x ∷ xs) h = refl
  get_elem?-set_elem_self (suc i) y (x ∷ xs) h = get_elem?-set_elem_self i y xs h

  -- An index in range has an element.
  pub get_elem?-lt : (xs : List A) (i : ℕ) → i < length xs → (x : A) × (get_elem? xs i ≡ some x)
  get_elem?-lt [] i h = absurd (omega arith)
  get_elem?-lt (x ∷ xs) zero h = (x, refl)
  get_elem?-lt (x ∷ xs) (suc i) h = get_elem?-lt xs i (omega arith)

  -- What holds of every element and of the new one holds after the change.
  pub set_elem_each {κ} :
      (P : ℕ → A → Type κ) (i : ℕ) (y : A) (xs : List A)
      → P i y
      → ((j : ℕ) (x : A) → get_elem? xs j ≡ some x → P j x)
      → (j : ℕ) (x : A) → get_elem? (set_elem i y xs) j ≡ some x
      → P j x
  set_elem_each P i y [] h rest j x e = cc
  set_elem_each P zero y (z ∷ xs) h rest zero x e = subst (P 0) (some_inj e) h
  set_elem_each P zero y (z ∷ xs) h rest (suc j) x e = rest (suc j) x e
  set_elem_each P (suc i) y (z ∷ xs) h rest zero x e = rest zero x e
  set_elem_each P (suc i) y (z ∷ xs) h rest (suc j) x e =
      set_elem_each (λ j x. P (suc j) x) i y xs h (λ j x. rest (suc j) x) j x e

abbrev pub All {ℓ κ} : {A : Type ℓ} → (A → Type κ) → List A → Type κ
All P [] = Unit
All P (x ∷ xs) = P x × All P xs

pub All-append {ℓ κ} :
    {A : Type ℓ} (P : A → Type κ) (xs ys : List A) → All P xs → All P ys → All P (xs ++ ys)
All-append P [] ys hx hy = hy
All-append P (x ∷ xs) ys hx hy = (hx.0, All-append P xs ys hx.1 hy)

-- Is `x` an entry?
abbrev pub contains : ℕ → List ℕ → Bool
contains x [] = false
contains x (y ∷ ys) = (y == x) || contains x ys

-- `list_remove_node`: unlinks the node `x`; the other nodes keep their order.
abbrev pub remove : ℕ → List ℕ → List ℕ
remove x [] = []
remove x (y ∷ ys) = if y == x then ys else y ∷ remove x ys

pub length-remove :
    (x : ℕ) (xs : List ℕ) → contains x xs ≡ true → length (remove x xs) + 1 ≡ length xs
length-remove x [] h = ground arith
length-remove x (y ∷ ys) h = ground (arith, length-remove x ys)

pub All-map {ℓ κ μ} :
    {A : Type ℓ} (P : A → Type κ) (Q : A → Type μ) (xs : List A)
    → ((x : A) → P x → Q x)
    → All P xs
    → All Q xs
All-map P Q [] f h = tt
All-map P Q (x ∷ xs) f h = (f x h.0, All-map P Q xs f h.1)

pub All-middle {ℓ κ} :
    {A : Type ℓ} (P : A → Type κ) (xs : List A) (y : A) (ys : List A) → All P (xs ++ y ∷ ys) → P y
All-middle P [] y ys h = h.0
All-middle P (x ∷ xs) y ys h = All-middle P xs y ys h.1

pub All-set_elem {ℓ κ} :
    {A : Type ℓ} (P : A → Type κ) (i : ℕ) (y : A) (xs : List A)
    → All P xs
    → P y
    → All P (set_elem i y xs)
All-set_elem P i y [] h k = tt
All-set_elem P zero y (x ∷ xs) h k = (k, h.1)
All-set_elem P (suc i) y (x ∷ xs) h k = (h.0, All-set_elem P i y xs h.1 k)

pub All-get_elem? {ℓ κ} :
    {A : Type ℓ} (P : A → Type κ) (xs : List A) (i : ℕ) {x : A}
    → All P xs
    → get_elem? xs i ≡ some x
    → P x
All-get_elem? P [] i h e = cc
All-get_elem? P (x ∷ xs) zero h e = subst P (some_inj e) h.0
All-get_elem? P (x ∷ xs) (suc i) h e = All-get_elem? P xs i h.1 e

pub lt-get_elem? {ℓ} :
    {A : Type ℓ} (xs : List A) (i : ℕ) {x : A} → get_elem? xs i ≡ some x → i < length xs
lt-get_elem? [] i e = cc
lt-get_elem? (x ∷ xs) zero e = omega arith
lt-get_elem? (x ∷ xs) (suc i) e = omega (arith, lt-get_elem? xs i e)

-- Each number once.
abbrev pub NoDup : List ℕ → Type 0
NoDup [] = Unit
NoDup (x ∷ xs) = (contains x xs ≡ false) × NoDup xs

contains-append :
    (x q : ℕ) (xs : List ℕ)
    → contains x xs ≡ false
    → (q == x) ≡ false
    → contains x (xs ++ q ∷ []) ≡ false
contains-append x q [] h k = ground (arith, k)
contains-append x q (y ∷ ys) h k = ground (arith, contains-append x q ys, k)

pub NoDup-append : (q : ℕ) (xs : List ℕ) → NoDup xs → contains q xs ≡ false → NoDup (xs ++ q ∷ [])
NoDup-append q [] h k = (refl, tt)
NoDup-append q (x ∷ xs) h k =
    let apart : (q == x) ≡ false = ground arith in
    let rest : contains q xs ≡ false = ground arith in
    (contains-append x q xs h.0 apart, NoDup-append q xs h.1 rest)
