-- ===== src/RefBase/Assignment.antt =====
-- Assigning an `sp` and promoting a `wp` (libutils/include/utils/StrongPointer.h and RefBase.h).
use android_native_mac_ports.Base.{
  ℕ, suc, ◌+◌, ◌<◌, ◌≡◌, refl, sym, ap, subst, ◌∙◌, inl, true, Option, none, some, arith, ◌==◌,
  if◌then◌else◌, update,
}
use android_native_mac_ports.RefBase.State.{State, Run, ok, abort, fault, M, Hooks, count_limit}
use android_native_mac_ports.RefBase.Counts.{inc_strong, dec_strong, attempt_inc_strong}
use android_native_mac_ports.RefBase.Holders.{Quiet, Held}
use android_native_mac_ports.RefBase.Changes.{inc_strong-Held, dec_strong-Held}
use android_native_mac_ports.RefBase.Promotion.{attempt_inc_strong-Promoted}
use android_native_mac_ports.RefBase.Pointers.{Objects, ◌>>=◌, on, sp_assign, wp_promote}

on-ok :
    {A : Type 0} (p : ℕ) (m : M A) (o : Objects) (a : A) (s : State)
    → m (o p) ≡ ok a s
    → on p m o ≡ some (a, update o p s)
unfolding on
on-ok p m o a s e =
    ap (λ (x : Run _). elim x [ ok b t ↦ some (b, update o p t) | abort ↦ none | fault ↦ none ]) e

pub binds :
    {A B : Type 0} (m : Objects → Option (A × Objects)) (f : A → Objects → Option (B × Objects))
    (o o' : Objects) (a : A) (r : Option (B × Objects))
    → m o ≡ some (a, o')
    → f a o' ≡ r
    → (m >>= f) o ≡ r
binds {A} {B} m f o o' a r e g =
    ap
      (λ (x : Option (A × Objects)). elim x as (λ _. Option (B × Objects)) [
        | none ↦ none
        | some y ↦ f y.0 y.1
      ])
      e
    ∙ g

update_same : (o : Objects) (p : ℕ) (s : State) → update o p s p ≡ s
update_same o p s = let same : (p == p) ≡ true = ground arith in rw same refl

module _ (hooks : ℕ → Hooks) (q : (p : ℕ) → Quiet (hooks p)) where
  -- An `sp` that is assigned itself, or another `sp` to the same object: the counts are as before, and
  -- the object is not deleted on the way, though no other pointer holds it.
  pub sp_assign-same :
      (p n m : ℕ) (o : Objects)
      → Held (o p) (suc n) m
      → (o p).alive ≡ true
      → suc (suc n + m) < count_limit
      → (o' : Objects) × (sp_assign hooks (some p) (some p) o ≡ some (some p, o'))
        × Held (o' p) (suc n) m
  unfolding sp_assign
  sp_assign-same p n m o h live room =
      let (s₁, run₁, held₁) =
        inc_strong-Held (hooks p) (q p) (o p) (suc n) m h (inl (omega arith)) live room in
      let (s₂, run₂, held₂) = dec_strong-Held (hooks p) (q p) s₁ (suc n) m held₁ in
      let o₁ : Objects = update o p s₁ in
      (
        update o₁ p s₂,
        binds (on p (inc_strong (hooks p))) _ o o₁ tt _
            (on-ok p (inc_strong (hooks p)) o tt s₁ run₁)
            (binds (on p (dec_strong (hooks p))) _ o₁ (update o₁ p s₂) tt _
              (on-ok p (dec_strong (hooks p)) o₁ tt s₂
                (ap (dec_strong (hooks p)) (update_same o p s₁) ∙ run₂))
              refl),
        subst (λ x. Held x (suc n) m) (sym (update_same o₁ p s₂)) held₂,
      )

  -- `promote` gives the pointer exactly where its object lives, and then there is one strong holder
  -- more; the `wp` keeps its object.
  pub wp_promote-alive :
      (p n m : ℕ) (o : Objects)
      → Held (o p) n m
      → 0 < m
      → suc (n + m) < count_limit
      → (o' : Objects) × (wp_promote hooks (some p) o
          ≡ some (if (o p).alive then some p else none, o'))
        × Held (o' p) (if (o p).alive then suc n else n) m
  unfolding wp_promote
  wp_promote-alive p n m o h some_weak room =
      let (s, run, held) = attempt_inc_strong-Promoted (hooks p) (q p) (o p) n m h some_weak room in
      (
        update o p s,
        binds (on p (attempt_inc_strong (hooks p))) _ o (update o p s) (o p).alive _
            (on-ok p (attempt_inc_strong (hooks p)) o (o p).alive s run) refl,
        subst (λ x. Held x (if (o p).alive then suc n else n) m) (sym (update_same o p s)) held,
      )
