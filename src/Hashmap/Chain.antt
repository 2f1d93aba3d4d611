-- ===== src/Hashmap/Chain.antt =====
-- The loops of lib/hashmap.c over one bucket, for nodes that have keys.
use jrinx.Base.{
  ℕ, ◌+◌, ◌%◌, ◌^◌, ◌≡◌, ◌↔◌, inl, inr, Bool, true, false, Bool-cases, none, some, List, [], ◌∷◌,
  ◌++◌, length, All, if◌then◌else◌, arith,
}
use jrinx.Hashmap.{unlink_all, find_first}

-- The count goes down with the nodes: it stays the number of nodes here and `r` elsewhere.
pub unlink_all-Counted :
    {N : Type 0} (found : N → Bool) (ps : List N) (n r : ℕ)
    → n ≡ (length ps + r) % 2 ^ 64
    → (unlink_all found ps n).1 ≡ (length (unlink_all found ps n).0 + r) % 2 ^ 64
unfolding unlink_all
unlink_all-Counted found [] n r h = h
unlink_all-Counted found (p ∷ ps) n r h =
    let ih = unlink_all-Counted found ps n (r + 1) (omega arith) in ground (arith, ih)

pub All-unlink_all :
    {N : Type 0} (P : N → Type 0) (found : N → Bool) (ps : List N) (n : ℕ)
    → All P ps
    → All P (unlink_all found ps n).0
unfolding unlink_all
All-unlink_all P found [] n h = tt
All-unlink_all P found (p ∷ ps) n h = elim (Bool-cases (found p)) [
  | inl e ↦ rw e (All-unlink_all P found ps n h.1)
  | inr e ↦ rw e (h.0, All-unlink_all P found ps n h.1)
]

-- Each key occurs once.
abbrev pub Unique : {N K : Type 0} → (N → K) → (K → K → Bool) → List N → Type 0
Unique key equals [] = Unit
Unique key equals (p ∷ ps) =
    (find_first (λ q. equals (key p) (key q)) ps ≡ none) × Unique key equals ps

-- What a search that finds nothing has passed.
find_first-none :
    {N : Type 0} (found : N → Bool) (xs : List N) (p : N) (ys : List N)
    → find_first found (xs ++ p ∷ ys) ≡ none
    → found p ≡ false
unfolding find_first
find_first-none found [] p ys h = ground arith
find_first-none found (x ∷ xs) p ys h = ground (arith, find_first-none found xs p ys)

module _ {N K : Type 0} (key : N → K) (equals : K → K → Bool)
    (same : (a b : K) → (equals a b ≡ true) ↔ (a ≡ b)) where
  pub find_first-unlink_all :
      (k x : K) (ps : List N) (n : ℕ)
      → find_first (λ p. equals k (key p)) (unlink_all (λ p. equals x (key p)) ps n).0
        ≡ (if equals k x then none else find_first (λ p. equals k (key p)) ps)
  unfolding unlink_all find_first
  find_first-unlink_all k x [] n = ground arith
  find_first-unlink_all k x (p ∷ ps) n =
      ground (arith, find_first-unlink_all k x ps n, same x (key p), same k (key p), same k x)

  pub unlink_all-Unique :
      (x : K) (ps : List N) (n : ℕ)
      → Unique key equals ps
      → Unique key equals (unlink_all (λ p. equals x (key p)) ps n).0
  unfolding unlink_all find_first
  unlink_all-Unique x [] n u = tt
  unlink_all-Unique x (p ∷ ps) n u =
      ground (arith, unlink_all-Unique x ps n u.1, find_first-unlink_all (key p) x ps n, u.0)

  -- A key that has been unlinked is found nowhere.
  pub unlink_all-gone :
      (x : K) (ps : List N) (n : ℕ)
      → find_first (λ p. equals x (key p)) (unlink_all (λ p. equals x (key p)) ps n).0 ≡ none
  unlink_all-gone x ps n = ground (arith, find_first-unlink_all x x ps n, same x x)

  -- Where each key occurs once, a node is found by its own key.
  pub Unique-find_first :
      (xs : List N) (p : N) (ys : List N)
      → Unique key equals (xs ++ p ∷ ys)
      → find_first (λ q. equals (key p) (key q)) (xs ++ p ∷ ys) ≡ some p
  unfolding find_first
  Unique-find_first [] p ys u = ground (arith, same (key p) (key p))
  Unique-find_first (x ∷ xs) p ys u = elim (Bool-cases (equals (key p) (key x))) [
    | inl e ↦ ground (
      arith,
      find_first-none (λ q. equals (key x) (key q)) xs p ys u.0,
      same (key p) (key x),
      same (key x) (key p),
    )
    | inr e ↦ rw e (Unique-find_first xs p ys u.1)
  ]
