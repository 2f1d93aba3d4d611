-- ===== src/Hashmap/Finite.antt =====
-- lib/hashmap.c as a finite map: what a look-up finds after each operation, and what stays true of
-- the buckets and of the count.
use jrinx.Base.{
  ℕ, zero, suc, ◌+◌, ◌%◌, ◌^◌, ◌<◌, ◌≡◌, refl, ◌↔◌, inl, inr, sym, ap, ◌∙◌, true, Bool-cases,
  Option, none, some, List, [], ◌∷◌, length, All, get_elem?, set_elem, get_elem?-lt,
  get_elem?-set_elem, set_elem_each, length-set_elem, ◌==◌, ==_iff, if◌then◌else◌, arith,
}
use native.Mathlib.Nat.{mod-lt}
use jrinx.Hashmap.{
  Hashmap, unlink_all, find_first, init_heads, has_key, index_of, hashmap_init, hashmap_put,
  hashmap_remove, hashmap_get,
}
use jrinx.Hashmap.Chain.{
  Unique, unlink_all-Counted, All-unlink_all, find_first-unlink_all, unlink_all-Unique,
  unlink_all-gone,
}

-- The nodes of all buckets.
abbrev pub total : {N : Type 0} → List (List N) → ℕ
total [] = 0
total (h ∷ hs) = length h + total hs

total-set_elem :
    {N : Type 0} (i : ℕ) (h' : List N) (hs : List (List N)) {h : List N}
    → get_elem? hs i ≡ some h
    → total (set_elem i h' hs) ≡ length h' + total (set_elem i [] hs)
total-set_elem i h' [] e = cc
total-set_elem zero h' (h ∷ hs) e = omega arith
total-set_elem (suc i) h' (h ∷ hs) e = omega (arith, total-set_elem i h' hs e)

total-at :
    {N : Type 0} (i : ℕ) (hs : List (List N)) {h : List N}
    → get_elem? hs i ≡ some h
    → total hs ≡ length h + total (set_elem i [] hs)
total-at i [] e = cc
total-at zero (h ∷ hs) e = ground (arith, e)
total-at (suc i) (h ∷ hs) e = omega (arith, total-at i hs e)

module _ {N K : Type 0} where
  pub record IsValid (m : Hashmap N K) : Type 0 where
    pub equals_iff : (a b : K) → (m.h_equals a b ≡ true) ↔ (a ≡ b)
    pub nonempty : 0 < m.h_cap
    pub sized : length m.h_array ≡ m.h_cap
    pub counted : m.h_num ≡ total m.h_array % 2 ^ 64
    pub placed :
        (i : ℕ) (h : List N)
        → get_elem? m.h_array i ≡ some h
        → All (λ p. index_of m (m.h_key p) ≡ i) h
    pub unique : (i : ℕ) (h : List N) → get_elem? m.h_array i ≡ some h → Unique m.h_key m.h_equals h

hashmap_get-at :
    {N K : Type 0} (m : Hashmap N K) (k : K) (h : List N)
    → get_elem? m.h_array (index_of m k) ≡ some h
    → hashmap_get m k ≡ some (find_first (has_key m k) h)
unfolding hashmap_get
hashmap_get-at m k h e = rw (e, hashmap_get) refl

module _ {N K : Type 0} (m : Hashmap N K) (v : IsValid m) where
  -- The bucket of a key is there.
  bucket : (k : K) → (h : List N) × (get_elem? m.h_array (index_of m k) ≡ some h)
  bucket k =
      get_elem?-lt m.h_array (index_of m k)
        (let s = v.sized in let p = v.nonempty in let q = mod-lt (m.h_code k) p in omega arith)

  -- Another list of nodes in the place of one bucket.
  replaced-IsValid :
      (i n : ℕ) (h h' : List N)
      → get_elem? m.h_array i ≡ some h
      → All (λ p. index_of m (m.h_key p) ≡ i) h'
      → Unique m.h_key m.h_equals h'
      → n ≡ (length h' + total (set_elem i [] m.h_array)) % 2 ^ 64
      → IsValid (record m { h_num = n; h_array = set_elem i h' m.h_array })
  replaced-IsValid i n h h' at_i all one count = record {
    equals_iff = v.equals_iff;
    nonempty = v.nonempty;
    sized = length-set_elem i h' m.h_array ∙ v.sized;
    counted = rw (total-set_elem i h' m.h_array at_i) count;
    placed =
        set_elem_each (λ j g. All (λ p. index_of m (m.h_key p) ≡ j) g) i h' m.h_array all v.placed;
    unique = set_elem_each (λ j g. Unique m.h_key m.h_equals g) i h' m.h_array one v.unique;
  }

  -- What is left of a bucket when a key has been unlinked.
  left : K → List N → List N × ℕ
  left key h = unlink_all (has_key m key) h m.h_num

  left-Counted :
      (key : K) (h : List N)
      → get_elem? m.h_array (index_of m key) ≡ some h
      → (left key h).1
        ≡ (length (left key h).0 + total (set_elem (index_of m key) [] m.h_array)) % 2 ^ 64
  unfolding left
  left-Counted key h e =
      unlink_all-Counted (has_key m key) h m.h_num (total (set_elem (index_of m key) [] m.h_array))
        (v.counted ∙ ap (λ (t : ℕ). t % 2 ^ 64) (total-at (index_of m key) m.h_array e))

  -- Whether the look-ups of `m'` are those of `m` but at one key.
  abbrev FindsAt : K → Option N → Hashmap N K → Type 0
  FindsAt key found m' =
      (k : K) → hashmap_get m' k ≡ (if m.h_equals k key then some found else hashmap_get m k)

  replaced : K → ℕ → List N → Hashmap N K
  replaced key n h' = record m { h_num = n; h_array = set_elem (index_of m key) h' m.h_array }

  replaced-FindsAt :
      (key : K) (found : Option N) (n : ℕ) (h h' : List N)
      → get_elem? m.h_array (index_of m key) ≡ some h
      → ((k : K)
          → find_first (has_key m k) h'
            ≡ (if m.h_equals k key then found else find_first (has_key m k) h))
      → FindsAt key found (replaced key n h')
  unfolding replaced
  replaced-FindsAt key found n h h' e finds k =
      let at = get_elem?-set_elem (index_of m key) h' m.h_array (index_of m k) e in
      elim (Bool-cases (index_of m k == index_of m key)) [
        | inl same ↦
            let there = (==_iff _ _).0 same in
            let new = hashmap_get-at (replaced key n h') k h' (at ∙ rw same refl) in
            let old = hashmap_get-at m k h (rw there e) in ground (arith, new, old, finds k)
        | inr other ↦
            let b = bucket k in
            let new = hashmap_get-at (replaced key n h') k b.0 (at ∙ rw other b.1) in
            let old = hashmap_get-at m k b.0 b.1 in
            elim (Bool-cases (m.h_equals k key)) [
              | inl e' ↦
                  let there : index_of m k ≡ index_of m key = rw ((v.equals_iff k key).0 e') refl in
                  absurd (ground arith)
              | inr e' ↦ rw e' (new ∙ sym old)
            ]
      ]

  removed :
      (key : K) (h : List N)
      → get_elem? m.h_array (index_of m key) ≡ some h
      → (m' : Hashmap N K) × (hashmap_remove m key ≡ some m') × IsValid m' × FindsAt key none m'
  unfolding hashmap_remove left replaced
  removed key h e = (
    replaced key (left key h).1 (left key h).0,
    rw (e, hashmap_remove) refl,
    replaced-IsValid (index_of m key) (left key h).1 h (left key h).0 e
        (All-unlink_all _ (has_key m key) h m.h_num (v.placed _ h e))
        (unlink_all-Unique m.h_key m.h_equals v.equals_iff key h m.h_num (v.unique _ h e))
        (left-Counted key h e),
    replaced-FindsAt key none (left key h).1 h (left key h).0 e
        (λ k. find_first-unlink_all m.h_key m.h_equals v.equals_iff k key h m.h_num),
  )

  -- A removal from a valid map comes through, leaves it valid, and takes away the key's node and
  -- nothing else.
  pub hashmap_remove_lem :
      (key : K)
      → (m' : Hashmap N K) × (hashmap_remove m key ≡ some m') × IsValid m' × FindsAt key none m'
  hashmap_remove_lem key = let b = bucket key in removed key b.0 b.1

  inserted :
      (node : N) (h : List N)
      → get_elem? m.h_array (index_of m (m.h_key node)) ≡ some h
      → (m' : Hashmap N K) × (hashmap_put m node ≡ some m')
        × IsValid m'
        × FindsAt (m.h_key node) (some node) m'
  unfolding hashmap_put left replaced find_first
  inserted node h e =
      let key : K = m.h_key node in
      let all = All-unlink_all _ (has_key m key) h m.h_num (v.placed _ h e) in
      let one = unlink_all-Unique m.h_key m.h_equals v.equals_iff key h m.h_num (v.unique _ h e) in
      let gone = unlink_all-gone m.h_key m.h_equals v.equals_iff key h m.h_num in
      let count = left-Counted key h e in
      (
        replaced key (((left key h).1 + 1) % 2 ^ 64) (node ∷ (left key h).0),
        rw (e, hashmap_put) refl,
        replaced-IsValid (index_of m key) (((left key h).1 + 1) % 2 ^ 64) h (node ∷ (left key h).0)
            e (refl, all) (gone, one) (omega arith),
        replaced-FindsAt key (some node) (((left key h).1 + 1) % 2 ^ 64) h (node ∷ (left key h).0) e
            (λ k.
              ground
                (arith, find_first-unlink_all m.h_key m.h_equals v.equals_iff k key h m.h_num)),
      )

  -- An insertion into a valid map comes through and leaves it valid; the node is found under its key
  -- from then on, in the place of an earlier node of this key, and the other keys are not affected.
  pub hashmap_put_lem :
      (node : N)
      → (m' : Hashmap N K) × (hashmap_put m node ≡ some m')
        × IsValid m'
        × FindsAt (m.h_key node) (some node) m'
  hashmap_put_lem node = let b = bucket (m.h_key node) in inserted node b.0 b.1

total-init_heads : {N : Type 0} (hs : List (List N)) → total (init_heads hs) ≡ 0
unfolding init_heads
total-init_heads [] = refl
total-init_heads (h ∷ hs) = omega (arith, total-init_heads hs)

length-init_heads : {N : Type 0} (hs : List (List N)) → length (init_heads hs) ≡ length hs
unfolding init_heads
length-init_heads [] = refl
length-init_heads (h ∷ hs) = omega (arith, length-init_heads hs)

init_heads-empty :
    {N : Type 0} (hs : List (List N)) (i : ℕ) (h : List N)
    → get_elem? (init_heads hs) i ≡ some h
    → h ≡ []
unfolding init_heads
init_heads-empty [] i h e = cc
init_heads-empty (g ∷ hs) zero h e = cc
init_heads-empty (g ∷ hs) (suc i) h e = init_heads-empty hs i h e

-- A map with buckets, as many as it says, and a count of 0 is valid after the initialisation, and no
-- key is found in it.
pub hashmap_init_lem :
    {N K : Type 0} (m : Hashmap N K)
    → ((a b : K) → (m.h_equals a b ≡ true) ↔ (a ≡ b))
    → 0 < m.h_cap
    → length m.h_array ≡ m.h_cap
    → m.h_num ≡ 0
    → IsValid (hashmap_init m) × ((k : K) → hashmap_get (hashmap_init m) k ≡ some none)
unfolding hashmap_init find_first
hashmap_init_lem {N} {K} m same some_heads sized zero_num = (
  v,
  λ k.
      let b = bucket m' v k in
      hashmap_get-at m' k b.0 b.1 ∙ rw (init_heads-empty m.h_array _ b.0 b.1, find_first) refl,
)
  where
    m' : Hashmap N K
    m' = record m { h_array = init_heads m.h_array }

    v : IsValid m'
    v = record {
      equals_iff = same;
      nonempty = some_heads;
      sized = length-init_heads m.h_array ∙ sized;
      counted = rw (zero_num, total-init_heads m.h_array) refl;
      placed = λ i h e. rw (init_heads-empty m.h_array i h e) tt;
      unique = λ i h e. rw (init_heads-empty m.h_array i h e) tt;
    }
