-- ===== src/RefBase/Extending.antt =====
-- `extendObjectLifetime` of libutils/RefBase.cpp where holders are counted, and runs with a known result.
use android_native_mac_ports.Base.{
  ℕ, ◌+◌, ◌≡◌, refl, sym, ap, subst, ◌∙◌, Bool, true, false, ◌||◌, arith, test_bit, if◌then◌else◌,
}
use android_native_mac_ports.RefBase.State.{
  State, Run, ok, abort, fault, M, Hooks, ◌>>=◌, ◌>>◌, initial_strong_value,
}
use android_native_mac_ports.RefBase.Counts.{extend_object_lifetime, use_object}
use android_native_mac_ports.RefBase.Holders.{
  Quiet, living, weakly_held, Held, fresh, owned, weakly, gone,
}
use android_native_mac_ports.RefBase.Steps.{next}
use android_native_mac_ports.RefBase.Changes.{Becomes, from}

-- Two results of one run are the same.
pub same_state {ℓ} :
    {A : Type ℓ} {run : Run A} {a b : A} {s t : State} → run ≡ ok a s → run ≡ ok b t → s ≡ t
same_state {A} {run} {a} {b} {s} {t} e f =
    ap (λ (x : Run A). elim x as (λ _. State) [ ok _ u ↦ u | abort ↦ s | fault ↦ s ]) (sym e ∙ f)

pub same_value : {run : Run Bool} {a b : Bool} {s t : State} → run ≡ ok a s → run ≡ ok b t → a ≡ b
same_value {run} {a} {b} {s} {t} e f =
    ap (λ (x : Run Bool). elim x as (λ _. Bool) [ ok c _ ↦ c | abort ↦ a | fault ↦ a ]) (sym e ∙ f)

pub Held-run {ℓ} :
    {A : Type ℓ} {run : Run A} {a b : A} {n m : ℕ} {t : State}
    → Becomes run a n m
    → run ≡ ok b t
    → Held t n m
Held-run {A} {run} {a} {b} {n} {m} (s, e, held) f = subst (λ x. Held x n m) (same_state e f) held

fails {ℓ} : {B : Type ℓ} (m : M (Unit {0})) (k : M B) (s : State) → m s ≡ fault → (m >> k) s ≡ fault
unfolding ◌>>◌ ◌>>=◌
fails {B} m k s e =
    ap
      (λ (x : Run (Unit {0})). elim x as (λ _. Run B) [
        | ok _ t ↦ k t
        | abort ↦ abort
        | fault ↦ fault
      ])
      e

not_both : {run : Run (Unit {0})} {s : State} → run ≡ fault → run ≡ ok tt s → ⊥
not_both e f = ground arith

module _ (hooks : Hooks) (q : Quiet hooks) where
  extend-living :
      (mode strong weak : ℕ) (e : Bool)
      → extend_object_lifetime hooks mode (living strong weak e)
        ≡ ok tt (living strong weak (e || test_bit mode 0))
  unfolding extend_object_lifetime
  extend-living mode strong weak e =
      let s = living strong weak e in next _ _ s refl (next _ _ s (rw q.heap refl) refl)

  extend-weakly_held :
      (mode w : ℕ)
      → extend_object_lifetime hooks mode (weakly_held w true) ≡ ok tt (weakly_held w true)
  unfolding extend_object_lifetime
  extend-weakly_held mode w =
      let s = weakly_held w true in next _ _ s refl (next _ _ s (rw q.heap refl) refl)

  -- A deleted object is not extended.
  extend-dead :
      (mode : ℕ) (s s' : State)
      → s.alive ≡ false
      → extend_object_lifetime hooks mode s ≡ ok tt s'
      → ⊥
  unfolding extend_object_lifetime
  extend-dead mode s s' dead run =
      not_both (fails use_object _ s (ap (λ (b : Bool). if b then ok tt s else fault) dead)) run

  -- What extends its lifetime leaves the holders and the object.
  pub extend-Held :
      (mode : ℕ) (s s' : State) (n m : ℕ)
      → Held s n m
      → extend_object_lifetime hooks mode s ≡ ok tt s'
      → Held s' n m × (s'.refs_alive ≡ true)
  extend-Held mode s s' n m (fresh e none small at) run =
      let at' = sym (
        same_state
          (from (extend_object_lifetime hooks mode) at
            (extend-living mode initial_strong_value m e))
          run) in
      (fresh (e || test_bit mode 0) none small at', ap (λ (x : State). x.refs_alive) at')
  extend-Held mode s s' n m (owned e some small at) run =
      let at' = sym (
        same_state (from (extend_object_lifetime hooks mode) at (extend-living mode n (n + m) e))
          run) in
      (owned (e || test_bit mode 0) some small at', ap (λ (x : State). x.refs_alive) at')
  extend-Held mode s s' n m (weakly true none some small at) run =
      let at' = sym (
        same_state (from (extend_object_lifetime hooks mode) at (extend-weakly_held mode m)) run) in
      (weakly true none some small at', ap (λ (x : State). x.refs_alive) at')
  extend-Held mode s s' n m (weakly false none some small at) run =
      absurd (extend-dead mode s s' (ap (λ (x : State). x.alive) at) run)
  extend-Held mode s s' n m (gone none none' dead refs d) run =
      absurd (extend-dead mode s s' dead run)
