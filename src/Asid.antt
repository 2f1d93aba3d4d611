-- ===== src/Asid.antt =====
-- kern/mm/asid.c and the part of `proc_run` (kern/multitask/process.c) that gives a partition its
-- address space identifier, on one hart.
pub mod Alloc
pub mod Renew
use jrinx.Base.{
  ℕ, zero, suc, ◌+◌, ◌-◌, ◌/◌, ◌^◌, Bool, true, false, not, Option, none, some, List, [], ◌∷◌, map,
  ltb, ◌==◌, if◌then◌else◌,
}
use jrinx.Circbuf.{word}
use jrinx.Kernel.{◌>>=◌}
use jrinx.Bits.{run, bitmap_find_first_zero_bit, bitmap_set_bit, bitmap_clr_bit, bitmap_get_bit}

-- `cpus_asid_max`, `cpus_asid_generation` and `cpus_asid_bitmap` of the hart.
pub record Asids : Type 0 where
  pub asid_max : ℕ
  pub generation : ℕ
  pub bitmap : List ℕ

-- `asid_init`, with the largest identifier that the hardware takes.
unfoldable pub asid_init : ℕ → Asids
asid_init probed = record {
  asid_max = probed;
  generation = 1;
  bitmap = run ((probed + 1 - 1) / 64 + 1) 0 [];
}

abbrev pub cleared : List ℕ → List ℕ
cleared ws = map (λ w. 0) ws

unfoldable pub asid_inc_generation : Asids → Asids
asid_inc_generation a = record a { generation = word (a.generation + 1); bitmap = cleared a.bitmap }

-- The inner `none` is the error -KER_ASID_ER, the outer one a read behind the bitmap.
unfoldable pub asid_alloc : Asids → Option (Option ℕ × Asids)
asid_alloc a = do
  bit ← bitmap_find_first_zero_bit a.bitmap
  if ltb a.asid_max bit
      then some (none, a)
      else do bitmap ← bitmap_set_bit bit a.bitmap; some (some bit, record a { bitmap = bitmap })

-- Whether the identifier could be freed.
unfoldable pub asid_free : ℕ → Asids → Option (Bool × Asids)
asid_free asid a = if ltb a.asid_max asid then some (false, a) else do
  used ← bitmap_get_bit asid a.bitmap
  if not used
      then some (false, a)
      else do bitmap ← bitmap_clr_bit asid a.bitmap; some (true, record a { bitmap = bitmap })

-- `pa_cpus_asid` and `pa_cpus_asid_generation` of a partition on the hart.
pub record PartAsid : Type 0 where
  pub asid : ℕ
  pub asid_generation : ℕ

-- The loop of `proc_run`: at most as many rounds as the fuel; `none` beyond them.
unfoldable pub alloc_loop : ℕ → Asids → Option (ℕ × Asids)
alloc_loop zero a = none
alloc_loop (suc fuel) a = do
  r ← asid_alloc a
  elim r.0 [ none ↦ alloc_loop fuel (asid_inc_generation r.1) | some asid ↦ some (asid, r.1) ]

-- The identifier with which `proc_run` runs a process of the partition.
unfoldable pub renew_asid : ℕ → PartAsid → Asids → Option (PartAsid × Asids)
renew_asid fuel p a = if not (ltb p.asid_generation a.generation) then some (p, a) else do
  r ← alloc_loop fuel a
  some (record { asid = r.0; asid_generation = r.1.generation }, r.1)
