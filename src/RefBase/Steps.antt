-- ===== src/RefBase/Steps.antt =====
-- What the operations of libutils/RefBase.cpp compute on counts in their bounds.
use android_native_mac_ports.Base.{
  ℕ, suc, ◌+◌, ◌≤◌, ◌<◌, ◌≡◌, refl, ap, ◌∙◌, Bool, true, false, arith, ◌==◌,
}
use android_native_mac_ports.RefBase.State.{
  State, Run, ok, abort, fault, Hooks, M, ◌>>=◌, ◌>>◌, initial_strong_value, count_limit, add_32,
  sub_32, is_natural,
}
use android_native_mac_ports.RefBase.Counts.{inc_weak, inc_strong}
use android_native_mac_ports.RefBase.Holders.{Quiet, living, weakly_held}

pub add_32_lem : (c : ℕ) → c ≤ initial_strong_value → add_32 c 1 ≡ c + 1
add_32_lem c h = omega arith

pub sub_32_lem : (c : ℕ) → c < initial_strong_value → sub_32 (suc c) 1 ≡ c
sub_32_lem c h = omega arith

pub natural_lem : (c : ℕ) → c < count_limit → is_natural c ≡ true
natural_lem c h = ground arith

-- A run goes on from the state that its first part ends in.
pub next {ℓ} :
    {B : Type ℓ} (m : M (Unit {0})) (k : M B) {s : State} (s' : State) {run : Run B}
    → m s ≡ ok tt s'
    → k s' ≡ run
    → (m >> k) s ≡ run
unfolding ◌>>◌ ◌>>=◌
next {B} m k s' e f =
    ap
      (λ (x : Run (Unit {0})). elim x as (λ _. Run B) [
        | ok _ t ↦ k t
        | abort ↦ abort
        | fault ↦ fault
      ])
      e
    ∙ f

pub inc_weak-living :
    (n w : ℕ) (e : Bool) → w < count_limit → inc_weak (living n w e) ≡ ok tt (living n (w + 1) e)
unfolding inc_weak
inc_weak-living n w e h =
    let s' = living n (w + 1) e in
    next _ _ (living n w e) refl
      (next _ _ s' (rw (add_32_lem w (omega arith)) refl) (rw (natural_lem w h) refl))

pub inc_weak-weakly_held :
    (w : ℕ) (e : Bool)
    → w < count_limit
    → inc_weak (weakly_held w e) ≡ ok tt (weakly_held (w + 1) e)
unfolding inc_weak
inc_weak-weakly_held w e h =
    let s' = weakly_held (w + 1) e in
    next _ _ (weakly_held w e) refl
      (next _ _ s' (rw (add_32_lem w (omega arith)) refl) (rw (natural_lem w h) refl))

module _ (hooks : Hooks) (q : Quiet hooks) where
  pub inc_strong-first :
      (w : ℕ) (e : Bool)
      → w < count_limit
      → inc_strong hooks (living initial_strong_value w e) ≡ ok tt (living 1 (w + 1) e)
  unfolding inc_strong
  inc_strong-first w e h =
      let s₁ = living (initial_strong_value + 1) (w + 1) e in
      next _ _ (living initial_strong_value w e) refl (
        next _ _ (living initial_strong_value (w + 1) e)
          (inc_weak-living initial_strong_value w e h)
          (next _ _ s₁ refl (
            next _ _ s₁ refl (
              next _ _ s₁ (rw q.heap refl)
                (next _ _ (living 1 (w + 1) e) refl (q.first (living 1 (w + 1) e)))))))

  pub inc_strong-living :
      (n w : ℕ) (e : Bool)
      → 0 < n
      → n < count_limit
      → w < count_limit
      → inc_strong hooks (living n w e) ≡ ok tt (living (n + 1) (w + 1) e)
  unfolding inc_strong
  inc_strong-living n w e positive small h =
      let nonzero : (n == 0) ≡ false = ground arith in
      let set : (n == initial_strong_value) ≡ false = ground arith in
      let s' = living (n + 1) (w + 1) e in
      next _ _ (living n w e) refl (
        next _ _ (living n (w + 1) e) (inc_weak-living n w e h) (
          next _ _ s' (rw (add_32_lem n (omega arith)) refl)
            (next _ _ s' (rw (nonzero, natural_lem n small) refl) (rw set refl))))
