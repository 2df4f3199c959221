-- ===== src/LightRefBase.antt =====
-- The reference count of libutils/include/utils/LightRefBase.h. An `int32_t` is its 32 bits.
mod Tests
use native.Mathlib.Decide.{dec_lt}
use android_native_mac_ports.Base.{
  ℕ, zero, suc, ◌+◌, ◌-◌, ◌%◌, ◌^◌, ◌<◌, ◌≡◌, refl, ap, ◌∙◌, Bool, true, false, Option, none, some,
  List, [], ◌∷◌, arith, ltb, ◌==◌, not, if◌then◌else◌, length,
}

pub record Object : Type 0 where
  pub count : ℕ
  pub alive : Bool

-- `none` is a use of the object after its deletion.
unfoldable pub inc_strong : Object → Option Object
inc_strong o = if o.alive then some (record o { count = (o.count + 1) % 2 ^ 32 }) else none

-- `report` is LightRefBase_reportIncStrongRequireStrongFailed, which the repository only declares.
unfoldable pub inc_strong_require_strong : (Object → Option Object) → Object → Option Object
inc_strong_require_strong report o =
    let o' = record o { count = (o.count + 1) % 2 ^ 32 } in
    if o.alive then (if o.count == 0 then report o' else some o') else none

unfoldable pub dec_strong : Object → Option Object
dec_strong o =
    if o.alive
    then some (record { count = (o.count + 2 ^ 32 - 1) % 2 ^ 32; alive = not (o.count == 1) })
    else none

-- What holders do, once there is one.
pub data Op : Type 0 where
  takes takes_again drops : Op

abbrev pub then_run : (Object → Option Object) → Option Object → Option Object
then_run f none = none
then_run f (some o) = f o

-- The operations in order.
unfoldable pub run : (Object → Option Object) → List Op → Object → Option Object
unfolding inc_strong inc_strong_require_strong dec_strong
run report [] o = some o
run report (takes ∷ ops) o = then_run (run report ops) (inc_strong o)
run report (takes_again ∷ ops) o = then_run (run report ops) (inc_strong_require_strong report o)
run report (drops ∷ ops) o = then_run (run report ops) (dec_strong o)

-- The holders that are left, where none does anything once there are none.
abbrev pub holders : List Op → ℕ → Option ℕ
holders [] n = some n
holders (op ∷ ops) zero = none
holders (takes ∷ ops) (suc n) = holders ops (suc (suc n))
holders (takes_again ∷ ops) (suc n) = holders ops (suc (suc n))
holders (drops ∷ ops) (suc n) = holders ops n

-- An object with `n` holders: it lives while there are any.
abbrev pub held_by : ℕ → Object
held_by n = record { count = n; alive = ltb 0 n }

abbrev pub held_by? : Option ℕ → Option Object
held_by? none = none
held_by? (some n) = some (held_by n)

module _ (report : Object → Option Object) where
  takes-held_by :
      (n : ℕ) → suc n < 2 ^ 31 → inc_strong (held_by (suc n)) ≡ some (held_by (suc (suc n)))
  unfolding inc_strong
  takes-held_by n h = ground arith

  takes_again-held_by :
      (n : ℕ)
      → suc n < 2 ^ 31
      → inc_strong_require_strong report (held_by (suc n)) ≡ some (held_by (suc (suc n)))
  unfolding inc_strong_require_strong
  takes_again-held_by n h = ground arith

  drops-held_by : (n : ℕ) → suc n < 2 ^ 31 → dec_strong (held_by (suc n)) ≡ some (held_by n)
  unfolding dec_strong
  drops-held_by n h = ground arith

  -- Through any operations of less than 2^31 holders the count is that of the holders: the object is
  -- deleted when the last one goes, only an operation behind that is a use of deleted memory, and
  -- none is reported.
  pub run-holders :
      (ops : List Op) (n : ℕ)
      → n + length ops < 2 ^ 31
      → run report ops (held_by n) ≡ held_by? (holders ops n)
  unfolding run inc_strong inc_strong_require_strong dec_strong
  run-holders [] n h = refl
  run-holders (takes ∷ ops) zero h = refl
  run-holders (takes_again ∷ ops) zero h = refl
  run-holders (drops ∷ ops) zero h = refl
  run-holders (takes ∷ ops) (suc n) h =
      ap (then_run (run report ops)) (takes-held_by n (omega arith))
      ∙ run-holders ops (suc (suc n)) (omega arith)
  run-holders (takes_again ∷ ops) (suc n) h =
      ap (then_run (run report ops)) (takes_again-held_by n (omega arith))
      ∙ run-holders ops (suc (suc n)) (omega arith)
  run-holders (drops ∷ ops) (suc n) h =
      ap (then_run (run report ops)) (drops-held_by n (omega arith))
      ∙ run-holders ops n (omega arith)
