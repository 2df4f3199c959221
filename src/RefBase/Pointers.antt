-- ===== src/RefBase/Pointers.antt =====
-- `sp` of libutils/include/utils/StrongPointer.h and `wp` of RefBase.h, on the objects of a program.
-- A pointer is the address of its object, `none` is null; an object's virtual functions change that
-- object alone. The checks for a race of two threads on one pointer do not arise.
use android_native_mac_ports.Base.{ℕ, Option, none, some, if◌then◌else◌, update}
use android_native_mac_ports.RefBase.State.{State, ok, abort, fault, M, Hooks}
use android_native_mac_ports.RefBase.Counts.{
  inc_strong, inc_strong_require_strong, dec_strong, inc_weak, dec_weak, create_weak,
  attempt_inc_strong,
}

abbrev pub Objects : Type 0
Objects = ℕ → State

-- `none` is an abort or a use of deleted memory.
abbrev pub P {ℓ} : Type ℓ → Type ℓ
P A = Objects → Option (A × Objects)

infixl 5 ◌>>=◌ ◌>>◌
abbrev pub ◌>>=◌ {ℓ κ} : {A : Type ℓ} {B : Type κ} → P A → (A → P B) → P B
◌>>=◌ m f o = elim (m o) [ none ↦ none | some (a, o') ↦ f a o' ]

abbrev pub ◌>>◌ {ℓ} : {B : Type ℓ} → P (Unit {0}) → P B → P B
m >> k = m >>= λ _. k

abbrev pub pure {ℓ} : {A : Type ℓ} → A → P A
pure a o = some (a, o)

-- An operation on the object at an address.
unfoldable pub on {ℓ} : {A : Type ℓ} → ℕ → M A → P A
on p m o = elim (m (o p)) [ ok a s ↦ some (a, update o p s) | abort ↦ none | fault ↦ none ]

-- `if (ptr) ptr->…`
abbrev pub if_set : Option ℕ → (ℕ → M (Unit {0})) → P (Unit {0})
if_set none m = pure tt
if_set (some p) m = on p (m p)

module _ (hooks : ℕ → Hooks) where
  -- `sp(T* other)` and `sp(const sp& other)`
  unfoldable pub sp_new : Option ℕ → P (Option ℕ)
  unfolding inc_strong on
  sp_new other = do if_set other (λ p. inc_strong (hooks p)); pure other

  -- `sp::fromExisting`
  unfoldable pub sp_from_existing : Option ℕ → P (Option ℕ)
  unfolding inc_strong_require_strong on
  sp_from_existing other = do if_set other (λ p. inc_strong_require_strong); pure other

  -- `~sp` and `sp::clear`, with the pointer that is left.
  unfoldable pub sp_clear : Option ℕ → P (Option ℕ)
  unfolding dec_strong on
  sp_clear old = do if_set old (λ p. dec_strong (hooks p)); pure none

  -- `operator=(const sp& other)` and `operator=(T* other)`
  unfoldable pub sp_assign : Option ℕ → Option ℕ → P (Option ℕ)
  unfolding inc_strong dec_strong on
  sp_assign old other = do
    if_set other (λ p. inc_strong (hooks p))
    if_set old (λ p. dec_strong (hooks p))
    pure other

  -- `operator=(sp&& other)`: the pointer, and what `other` is left with.
  unfoldable pub sp_move : Option ℕ → Option ℕ → P (Option ℕ × Option ℕ)
  unfolding dec_strong on
  sp_move old other = do if_set old (λ p. dec_strong (hooks p)); pure (other, none)

  -- `wp(T* other)` and `wp(const sp& other)`
  unfoldable pub wp_new : Option ℕ → P (Option ℕ)
  unfolding create_weak on
  wp_new other = do if_set other (λ p. create_weak); pure other

  -- `wp(const wp& other)`
  unfoldable pub wp_copy : Option ℕ → P (Option ℕ)
  unfolding inc_weak on
  wp_copy other = do if_set other (λ p. inc_weak); pure other

  -- `~wp` and `wp::clear`
  unfoldable pub wp_clear : Option ℕ → P (Option ℕ)
  unfolding dec_weak on
  wp_clear old = do if_set old (λ p. dec_weak (hooks p)); pure none

  -- `operator=(const wp& other)`
  unfoldable pub wp_assign : Option ℕ → Option ℕ → P (Option ℕ)
  unfolding inc_weak dec_weak on
  wp_assign old other = do
    if_set other (λ p. inc_weak)
    if_set old (λ p. dec_weak (hooks p))
    pure other

  -- `wp::promote`
  unfoldable pub wp_promote : Option ℕ → P (Option ℕ)
  unfolding attempt_inc_strong on
  wp_promote none = pure none
  wp_promote (some p) = do
    done ← on p (attempt_inc_strong (hooks p))
    pure (if done then some p else none)
