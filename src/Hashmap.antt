-- ===== src/Hashmap.antt =====
-- lib/hashmap.c: a hash map whose buckets are linked lists of the nodes that the entries hold. A
-- bucket (`struct hlist_head` of include/list.h) is the list of its nodes.
pub mod Chain
pub mod Finite
pub mod Codes
use jrinx.Base.{
  ℕ, ◌-◌, ◌+◌, ◌%◌, ◌^◌, Bool, Option, none, some, List, [], ◌∷◌, get_elem?, set_elem,
  if◌then◌else◌,
}

-- `struct hashmap`: the functions, the number of buckets, the count of entries, the buckets.
pub record Hashmap (N K : Type 0) : Type 0 where
  pub h_key : N → K
  pub h_code : K → ℕ
  pub h_equals : K → K → Bool
  pub h_cap : ℕ
  pub h_num : ℕ
  pub h_array : List (List N)

module _ {N : Type 0} where
  -- The loop that unlinks the nodes of a key, with `h_num--` for each.
  unfoldable pub unlink_all : (N → Bool) → List N → ℕ → List N × ℕ
  unlink_all found [] num = ([], num)
  unlink_all found (p ∷ ps) num =
      let rest = unlink_all found ps num in
      if found p then (rest.0, (rest.1 + (2 ^ 64 - 1)) % 2 ^ 64) else (p ∷ rest.0, rest.1)

  -- The loop that looks for a key.
  unfoldable pub find_first : (N → Bool) → List N → Option N
  find_first found [] = none
  find_first found (p ∷ ps) = if found p then some p else find_first found ps

  -- The loop of `hashmap_init` over the heads.
  unfoldable pub init_heads : List (List N) → List (List N)
  init_heads [] = []
  init_heads (h ∷ hs) = [] ∷ init_heads hs

module _ {N K : Type 0} where
  abbrev pub has_key : Hashmap N K → K → N → Bool
  has_key map key ptr = map.h_equals key (map.h_key ptr)

  -- `map->h_code(key) % map->h_cap`.
  abbrev pub index_of : Hashmap N K → K → ℕ
  index_of map key = map.h_code key % map.h_cap

  -- There are as many heads as `h_cap` says.
  unfoldable pub hashmap_init : Hashmap N K → Hashmap N K
  hashmap_init map = record map { h_array = init_heads map.h_array }

  -- `none`: an index outside the array.
  unfoldable pub hashmap_put : Hashmap N K → N → Option (Hashmap N K)
  hashmap_put map node = elim (get_elem? map.h_array (index_of map (map.h_key node))) [
    | none ↦ none
    | some head ↦
        let rest = unlink_all (has_key map (map.h_key node)) head map.h_num in
        some (record map {
          h_num = (rest.1 + 1) % 2 ^ 64;
          h_array = set_elem (index_of map (map.h_key node)) (node ∷ rest.0) map.h_array;
        })
  ]

  unfoldable pub hashmap_remove : Hashmap N K → K → Option (Hashmap N K)
  hashmap_remove map key = elim (get_elem? map.h_array (index_of map key)) [
    | none ↦ none
    | some head ↦
        let rest = unlink_all (has_key map key) head map.h_num in
        some
          (record map { h_num = rest.1; h_array = set_elem (index_of map key) rest.0 map.h_array })
  ]

  -- The inner `none` is NULL.
  unfoldable pub hashmap_get : Hashmap N K → K → Option (Option N)
  hashmap_get map key = elim (get_elem? map.h_array (index_of map key)) [
    | none ↦ none
    | some head ↦ some (find_first (has_key map key) head)
  ]
