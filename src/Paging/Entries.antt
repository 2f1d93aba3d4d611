-- ===== src/Paging/Entries.antt =====
-- Reads of memory after writes, and the translation that page tables in memory stand for.
use jrinx.Base.{
  ℕ, ◌+◌, ◌*◌, ◌/◌, ◌%◌, ◌^◌, ◌<◌, ◌≡◌, refl, inl, inr, true, false, Bool-cases, ==_iff, Option,
  none, some, ◌==◌, if◌then◌else◌, arith,
}
use jrinx.Syscalls.CreateProcess.{pgsize}
use jrinx.Paging.{
  is_valid, ppn, perm_of, page_of, vpn2, vpn1, vpn0, table_entry, Memory, write, mapped_entry,
}

-- The entry that the tables from `pgdir` on give for the indices `i`, `j`, `k`: what the hardware finds.
abbrev pub entry_at : Memory → ℕ → ℕ → ℕ → ℕ → Option ℕ
entry_at m pgdir i j k =
    let e2 = m pgdir i in
    let e1 = m (ppn e2) j in
    let e0 = m (ppn e1) k in
    if is_valid e2
    then (if is_valid e1 then (if is_valid e0 then some e0 else none) else none)
    else none

-- The entry of an address.
abbrev pub translation : Memory → ℕ → ℕ → Option ℕ
translation m pgdir va = entry_at m pgdir (vpn2 va) (vpn1 va) (vpn0 va)

pub page_of-bound : (pa : ℕ) → page_of pa < 2 ^ 44
page_of-bound pa = omega arith

pub table_entry-valid : (pa : ℕ) → is_valid (table_entry pa) ≡ true
table_entry-valid pa =
    let odd : table_entry pa % 2 ≡ 1 = omega arith in (==_iff (table_entry pa % 2) 1).1 odd

pub ppn-table_entry : (pa : ℕ) → ppn (table_entry pa) ≡ page_of pa
ppn-table_entry pa = omega (arith, page_of-bound pa)

pub mapped_entry-valid : (pa perm e : ℕ) → is_valid (mapped_entry pa perm e) ≡ true
mapped_entry-valid pa perm e =
    let odd : mapped_entry pa perm e % 2 ≡ 1 = omega arith in
    (==_iff (mapped_entry pa perm e % 2) 1).1 odd

pub ppn-mapped_entry : (pa perm e : ℕ) → ppn (mapped_entry pa perm e) ≡ page_of pa
ppn-mapped_entry pa perm e = omega (arith, page_of-bound pa)

pub perm_of-mapped_entry :
    (pa perm e : ℕ) → perm_of (mapped_entry pa perm e) ≡ perm % 1024 / 2 * 2 + 1
perm_of-mapped_entry pa perm e = omega arith

pub write-other : (p i e : ℕ) (m : Memory) (q k : ℕ) → (q == p) ≡ false → write p i e m q k ≡ m q k
write-other p i e m q k h = rw h refl

pub write-index : (p i e : ℕ) (m : Memory) (k : ℕ) → (k == i) ≡ false → write p i e m p k ≡ m p k
write-index p i e m k h = elim (Bool-cases (p == p)) [ inl y ↦ rw (y, h) refl | inr n ↦ rw n refl ]

pub write-same : (p i e : ℕ) (m : Memory) → write p i e m p i ≡ e
write-same p i e m = rw ((==_iff p p).1 refl, (==_iff i i).1 refl) refl

-- Two entries whose reads agree as far as the first ones are valid.
pub same_entry :
    (m m' : Memory) (pgdir i j k : ℕ)
    → m' pgdir i ≡ m pgdir i
    → (is_valid (m pgdir i) ≡ true → m' (ppn (m pgdir i)) j ≡ m (ppn (m pgdir i)) j)
    → (is_valid (m pgdir i) ≡ true
        → is_valid (m (ppn (m pgdir i)) j) ≡ true
        → m' (ppn (m (ppn (m pgdir i)) j)) k ≡ m (ppn (m (ppn (m pgdir i)) j)) k)
    → entry_at m' pgdir i j k ≡ entry_at m pgdir i j k
same_entry m m' pgdir i j k root middle leaf = elim (Bool-cases (is_valid (m pgdir i))) [
  | inr no2 ↦ rw root (rw no2 refl)
  | inl yes2 ↦ elim (Bool-cases (is_valid (m (ppn (m pgdir i)) j))) [
    | inr no1 ↦ rw root (rw (middle yes2) (rw no1 refl))
    | inl yes1 ↦ rw root (rw (middle yes2) (rw (leaf yes2 yes1) refl))
  ]
]

-- Pages are told apart by the indices, the offset does not count.
pub same_page :
    (va va' : ℕ)
    → vpn2 va ≡ vpn2 va'
    → vpn1 va ≡ vpn1 va'
    → vpn0 va ≡ vpn0 va'
    → va / pgsize % 2 ^ 27 ≡ va' / pgsize % 2 ^ 27
same_page va va' e2 e1 e0 = omega arith

-- Where the entry of an inner table is invalid there is no translation.
pub no_middle :
    (m : Memory) (pgdir i j k : ℕ) → is_valid (m pgdir i) ≡ false → entry_at m pgdir i j k ≡ none
no_middle m pgdir i j k h = rw h refl

pub no_leaf :
    (m : Memory) (pgdir i j k : ℕ)
    → is_valid (m (ppn (m pgdir i)) j) ≡ false
    → entry_at m pgdir i j k ≡ none
no_leaf m pgdir i j k h = elim (Bool-cases (is_valid (m pgdir i))) [
  | inl yes2 ↦ rw (yes2, h) refl
  | inr no2 ↦ rw no2 refl
]

pub no_entry :
    (m : Memory) (pgdir i j k : ℕ)
    → is_valid (m (ppn (m (ppn (m pgdir i)) j)) k) ≡ false
    → entry_at m pgdir i j k ≡ none
no_entry m pgdir i j k h = elim (Bool-cases (is_valid (m (ppn (m pgdir i)) j))) [
  | inr no1 ↦ no_leaf m pgdir i j k no1
  | inl yes1 ↦ elim (Bool-cases (is_valid (m pgdir i))) [
    | inl yes2 ↦ rw (yes2, yes1, h) refl
    | inr no2 ↦ rw no2 refl
  ]
]
