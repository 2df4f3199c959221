-- ===== src/LightRefBase/Tests.antt =====
-- Runs of LightRefBase.h, and its theorem at a concrete object.
use android_native_mac_ports.Base.{◌≡◌, refl, true, none, some, List, [], ◌∷◌, arith}
use android_native_mac_ports.LightRefBase.{
  Op, takes, takes_again, drops, run, holders, held_by, held_by?, inc_strong,
  inc_strong_require_strong, dec_strong, run-holders,
}

abbrev ops : List Op
ops = takes ∷ takes_again ∷ drops ∷ drops ∷ drops ∷ []

-- A new object gets its first holder.
first : inc_strong (record { count = 0; alive = true }) ≡ some (held_by 1)
unfolding inc_strong
first = refl

too_many : run (λ o. none) (drops ∷ drops ∷ []) (held_by 1) ≡ none
unfolding run inc_strong inc_strong_require_strong dec_strong
too_many = refl

run-holders_example : run (λ o. none) ops (held_by 1) ≡ held_by? (holders ops 1)
run-holders_example = run-holders (λ o. none) ops 1 (omega arith)
