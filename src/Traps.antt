-- ===== src/Traps.antt =====
-- kern/traps/traps.c on one hart: the nesting of sections without interrupts, and the saved contexts
-- of nested traps. Contexts are told apart by their places in `traps_context`.
pub mod Sections
pub mod Nested
use jrinx.Base.{
  ℕ, zero, suc, ◌+◌, ◌-◌, ◌^◌, Bool, true, false, ◌&&◌, Option, none, some, List, [], ◌∷◌, remove,
  ◌==◌, if◌then◌else◌,
}
use jrinx.Circbuf.{word}
use jrinx.Kernel.{◌>>=◌}

-- The bit `sie` of sstatus, `cpus_intp_layer` and `cpus_retained_intp`.
pub record Intp : Type 0 where
  pub sie : Bool
  pub layer : ℕ
  pub retained : Bool

unfoldable pub intp_enable : Intp → Intp
intp_enable h = record h { sie = true }

unfoldable pub intp_disable : Intp → Intp
intp_disable h = record h { sie = false }

unfoldable pub intp_push : Intp → Intp
intp_push h = record (intp_disable h) {
  retained = if h.layer == 0 then h.sie else h.retained;
  layer = word (h.layer + 1);
}

unfoldable pub intp_pop : Intp → Intp
intp_pop h =
    let h' : Intp = record h { layer = word (h.layer + (2 ^ 64 - 1)) } in
    if h'.layer == 0 && h'.retained then intp_enable h' else h'

-- `traps_ctx_free_list`, the context of the hart, and those of the running process.
pub record Contexts : Type 0 where
  pub free : List ℕ
  pub cpu_context : ℕ
  pub tf_ctx_list : List ℕ

-- `none` is the error -KER_CTX_ER.
unfoldable pub ctx_alloc : List ℕ → Option (ℕ × List ℕ)
ctx_alloc [] = none
ctx_alloc (ctx ∷ free) = some (ctx, free)

unfoldable pub ctx_free : ℕ → List ℕ → List ℕ
ctx_free ctx free = ctx ∷ free

-- `none` is a panic for want of a context.
unfoldable pub prepare_nested_trap : Contexts → Option Contexts
prepare_nested_trap c = do
  r ← ctx_alloc c.free
  some (record { free = r.1; cpu_context = r.0; tf_ctx_list = c.cpu_context ∷ c.tf_ctx_list })

-- The end of a handler, which kept the context that was the hart's when it began.
unfoldable pub leave_trap : ℕ → Contexts → Contexts
leave_trap context c = record {
  free = ctx_free c.cpu_context c.free;
  cpu_context = context;
  tf_ctx_list = remove context c.tf_ctx_list;
}

-- A handler around what it does: `handle_exception`, `handle_int_timer`, `handle_int_external`.
unfoldable pub handle : (Contexts → Option Contexts) → Contexts → Option Contexts
handle body c = do
  entered ← prepare_nested_trap c
  done ← body entered
  some (leave_trap c.cpu_context done)
