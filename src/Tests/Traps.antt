-- ===== src/Tests/Traps.antt =====
-- Nested sections and traps at small inputs.
use jrinx.Base.{◌≡◌, true, false, some, [], ◌∷◌, arith}
use jrinx.Traps.{Intp, Contexts}
use jrinx.Traps.Sections.{push, pop, act_all, done, section, act_all-after_sections}
use jrinx.Traps.Nested.{quiet, trap, run_history, handlers_return}

abbrev idle : Intp
idle = record { sie = true; layer = 0; retained = false }

act_all-after_sections_example :
    act_all (push ∷ push ∷ pop ∷ pop ∷ push ∷ pop ∷ []) idle ≡ record idle { retained = true }
act_all-after_sections_example =
    act_all-after_sections 2 (push ∷ push ∷ pop ∷ pop ∷ push ∷ pop ∷ []) idle
      (section (section done done) (section done done)) (λ h. absurd (omega (arith, h)))
      (omega arith)

-- A timer interrupt during a system call, and another one after it.
abbrev boot_contexts : Contexts
boot_contexts = record { free = 5 ∷ 3 ∷ []; cpu_context = 7; tf_ctx_list = [] }

handlers_return_example :
    run_history (trap (trap quiet quiet) (trap quiet quiet)) boot_contexts ≡ some boot_contexts
handlers_return_example =
    handlers_return (trap (trap quiet quiet) (trap quiet quiet)) boot_contexts ((tt, tt), (tt, tt))
