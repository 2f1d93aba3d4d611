-- ===== src/Traps/Nested.antt =====
-- Traps within traps (`prepare_nested_trap` and the handlers of kern/traps/traps.c) bring the saved
-- contexts back.
use jrinx.Base.{ℕ, zero, suc, ◌≡◌, refl, true, Option, some, List, [], ◌∷◌, length, ◌==◌, ==_iff}
use jrinx.Kernel.{◌>>=◌}
use jrinx.Traps.{Contexts, ctx_alloc, ctx_free, prepare_nested_trap, leave_trap, handle}

-- What happens from some point on: nothing, or a trap with what happens during its handler, and what
-- happens after it.
pub data History : Type 0 where
  quiet : History
  trap : History → History → History

unfoldable pub run_history : History → Contexts → Option Contexts
run_history quiet c = some c
run_history (trap inside next) c = do back ← handle (run_history inside) c; run_history next back

-- There are contexts for the traps that are open at a time.
abbrev pub HasContexts : History → ℕ → Type 0
HasContexts quiet n = Unit
HasContexts (trap inside next) zero = ⊥
HasContexts (trap inside next) (suc n) = HasContexts inside n × HasContexts next (suc n)

abbrev contexts : List ℕ → ℕ → List ℕ → Contexts
contexts free cpu tf = record { free = free; cpu_context = cpu; tf_ctx_list = tf }

run_history_lem :
    (history : History) (free : List ℕ) (cpu : ℕ) (tf : List ℕ)
    → HasContexts history (length free)
    → run_history history (contexts free cpu tf) ≡ some (contexts free cpu tf)
unfolding run_history handle prepare_nested_trap ctx_alloc leave_trap ctx_free
run_history_lem quiet free cpu tf h = refl
run_history_lem (trap inside next) [] cpu tf h = absurd h
run_history_lem (trap inside next) (ctx ∷ free) cpu tf h =
    let itself : (cpu == cpu) ≡ true = (==_iff cpu cpu).1 refl in
    rw (run_history_lem inside free ctx (cpu ∷ tf) h.0)
      (rw itself (run_history_lem next (ctx ∷ free) cpu tf h.1))

-- Traps that come one after the other and within each other, with a free context for each that is
-- open at a time, come back: the context of the hart, those saved for the process and the list of
-- free contexts, its order included, are as before.
pub handlers_return :
    (history : History) (c : Contexts)
    → HasContexts history (length c.free)
    → run_history history c ≡ some c
handlers_return history c h = run_history_lem history c.free c.cpu_context c.tf_ctx_list h
