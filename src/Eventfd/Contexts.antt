-- ===== src/Eventfd/Contexts.antt =====
-- The table of contexts of macport/eventfd.c: one context for each descriptor, found while it is
-- open and not after.
use mathlib.Core.Option.{some-injective}
use android_native_mac_ports.Base.{
  ℕ, ◌≤◌, ◌<◌, ◌≡◌, refl, ◌≢◌, ◌⊎◌, inl, inr, Bool, true, false, Option, none, some, List, [], ◌∷◌,
  arith, Option-cases, update, length, subst,
}
use android_native_mac_ports.Eventfd.Table.{Context, find_ctx, add_ctx, remove_ctx}

-- Every pointer of the table is below `n`.
abbrev pub Below : ℕ → List (Option ℕ) → Type 0
Below n [] = Unit {0}
Below n (none ∷ slots) = Below n slots
Below n (some p ∷ slots) = (p < n) × Below n slots

-- No two slots hold contexts of one descriptor, and none holds a pointer to freed memory.
abbrev pub Distinct : (ℕ → Option Context) → List (Option ℕ) → Type 0
Distinct heap [] = Unit {0}
Distinct heap (none ∷ slots) = Distinct heap slots
Distinct heap (some p ∷ slots) =
    ((c : Context) × (heap p ≡ some c) × (find_ctx heap c.sock_r slots ≡ none))
    × Distinct heap slots

pub Below-mono : (m n : ℕ) (slots : List (Option ℕ)) → m ≤ n → Below m slots → Below n slots
Below-mono m n [] h b = tt
Below-mono m n (none ∷ slots) h b = Below-mono m n slots h b
Below-mono m n (some p ∷ slots) h b = (omega arith, Below-mono m n slots h b.1)

pub Below-add :
    (n p : ℕ) (slots slots' : List (Option ℕ))
    → add_ctx p slots ≡ some slots'
    → p < n
    → Below n slots
    → Below n slots'
unfolding add_ctx
Below-add n p [] slots' e h b = cc
Below-add n p (none ∷ slots) slots' e h b = subst (Below n) (some-injective _ _ e) (h, b)
Below-add n p (some q ∷ slots) slots' e h b = elim (Option-cases (add_ctx p slots)) [
  | inl full ↦ ground (arith, full)
  | inr (rest, more) ↦
      let same : some q ∷ rest ≡ slots' = ground (arith, more) in
      subst (Below n) same (b.0, Below-add n p slots rest more h b.1)
]

-- Memory that no slot points to does not matter.
pub find_ctx-fresh :
    (heap : ℕ → Option Context) (n fd : ℕ) (v : Option Context) (slots : List (Option ℕ))
    → Below n slots
    → find_ctx (update heap n v) fd slots ≡ find_ctx heap fd slots
unfolding find_ctx
find_ctx-fresh heap n fd v [] b = refl
find_ctx-fresh heap n fd v (none ∷ slots) b = find_ctx-fresh heap n fd v slots b
find_ctx-fresh heap n fd v (some p ∷ slots) b = ground (arith, find_ctx-fresh heap n fd v slots b.1)

abbrev pub Added :
    (ℕ → Option Context) → ℕ → ℕ → Context → (slots slots' : List (Option ℕ)) → Type 0
Added heap p fd c slots slots' =
    (c.sock_r ≡ fd → find_ctx heap fd slots ≡ none → find_ctx heap fd slots' ≡ some p)
    × (c.sock_r ≢ fd → find_ctx heap fd slots' ≡ find_ctx heap fd slots)

-- A new context is found by its descriptor, and no other look-up changes.
pub find_ctx-add :
    (heap : ℕ → Option Context) (p fd : ℕ) (c : Context) (slots slots' : List (Option ℕ))
    → heap p ≡ some c
    → add_ctx p slots ≡ some slots'
    → Added heap p fd c slots slots'
unfolding find_ctx add_ctx
find_ctx-add heap p fd c [] slots' live e = cc
find_ctx-add heap p fd c (none ∷ slots) slots' live e =
    subst (Added heap p fd c (none ∷ slots)) (some-injective _ _ e)
      (λ same out. ground (arith, live), λ ne. ground (arith, live))
find_ctx-add heap p fd c (some q ∷ slots) slots' live e = elim (Option-cases (add_ctx p slots)) [
  | inl full ↦ ground (arith, full)
  | inr (rest, more) ↦
      let same : some q ∷ rest ≡ slots' = ground (arith, more) in
      let ih = find_ctx-add heap p fd c slots rest live more in
      subst (Added heap p fd c (some q ∷ slots)) same
        (λ same out. ground (arith, ih.0 same), λ ne. ground (arith, ih.1 ne))
]

-- Freed memory is found by no descriptor.
pub find_ctx-free :
    (heap : ℕ → Option Context) (p fd : ℕ) (slots : List (Option ℕ))
    → find_ctx heap fd slots ≡ none
    → find_ctx (update heap p none) fd slots ≡ none
unfolding find_ctx
find_ctx-free heap p fd [] h = refl
find_ctx-free heap p fd (none ∷ slots) h = find_ctx-free heap p fd slots h
find_ctx-free heap p fd (some q ∷ slots) h = ground (arith, find_ctx-free heap p fd slots)

-- In a table with one context for each descriptor, a removed descriptor is no longer found.
pub find_ctx-remove :
    (heap : ℕ → Option Context) (fd : ℕ) (slots : List (Option ℕ))
    → Distinct heap slots
    → find_ctx heap fd (remove_ctx heap fd slots) ≡ none
unfolding find_ctx remove_ctx
find_ctx-remove heap fd [] d = refl
find_ctx-remove heap fd (none ∷ slots) d = find_ctx-remove heap fd slots d
find_ctx-remove heap fd (some p ∷ slots) d = ground (arith, find_ctx-remove heap fd slots d.1)

-- `add_ctx` fails exactly where every slot is taken.
abbrev pub has_room : List (Option ℕ) → Bool
has_room [] = false
has_room (none ∷ slots) = true
has_room (some p ∷ slots) = has_room slots

pub add_ctx-has_room :
    (p : ℕ) (slots : List (Option ℕ))
    → ((has_room slots ≡ false) × (add_ctx p slots ≡ none))
      ⊎ ((has_room slots ≡ true)
          × ((slots' : List (Option ℕ)) × (add_ctx p slots ≡ some slots')
              × (length slots' ≡ length slots)))
unfolding add_ctx
add_ctx-has_room p [] = inl (refl, refl)
add_ctx-has_room p (none ∷ slots) = inr (refl, (some p ∷ slots, refl, refl))
add_ctx-has_room p (some q ∷ slots) = elim (add_ctx-has_room p slots) [
  | inl (full, e) ↦ inl (full, rw e)
  | inr (free, (slots', e, same)) ↦ inr (free, (some q ∷ slots', rw e, omega arith))
]
