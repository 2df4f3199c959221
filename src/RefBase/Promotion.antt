-- ===== src/RefBase/Promotion.antt =====
-- `attemptIncStrong` of libutils/RefBase.cpp, by which a weak pointer is made a strong one.
use android_native_mac_ports.Base.{
  ℕ, suc, ◌+◌, ◌<◌, ◌≡◌, refl, sym, subst, ap, ◌∙◌, Bool, true, false, arith, ◌==◌, if◌then◌else◌,
}
use android_native_mac_ports.RefBase.State.{
  State, Run, ok, abort, fault, Hooks, M, ◌>>=◌, ◌>>◌, initial_strong_value, count_limit,
}
use android_native_mac_ports.RefBase.Counts.{
  dec_weak, attempt_inc_strong, attempt_unowned, attempt_accepted,
}
use android_native_mac_ports.RefBase.Holders.{
  Quiet, living, weakly_held, Held, fresh, owned, weakly, gone,
}
use android_native_mac_ports.RefBase.Steps.{
  next, natural_lem, add_32_lem, inc_weak-living, inc_weak-weakly_held,
}
use android_native_mac_ports.RefBase.Releases.{dec_weak-weakly_held}
use android_native_mac_ports.RefBase.Changes.{living_is}

bind_ok :
    (m : M Bool) (k : Bool → M Bool) (s s' : State) (a : Bool) (run : Run Bool)
    → m s ≡ ok a s'
    → k a s' ≡ run
    → (m >>= k) s ≡ run
unfolding ◌>>=◌
bind_ok m k s s' a run e f =
    ap
      (λ (x : Run Bool). elim x as (λ _. Run Bool) [
        | ok b t ↦ k b t
        | abort ↦ abort
        | fault ↦ fault
      ])
      e
    ∙ f

module _ (hooks : Hooks) (q : Quiet hooks) where
  accepted_first :
      (w : ℕ)
      → attempt_accepted hooks (living initial_strong_value w true) ≡ ok true (living 1 w true)
  unfolding attempt_accepted ◌>>◌ ◌>>=◌
  accepted_first w = refl

  accepted_again : (w : ℕ) → attempt_accepted hooks (weakly_held w true) ≡ ok true (living 1 w true)
  unfolding attempt_accepted ◌>>◌ ◌>>=◌
  accepted_again w = refl

  unowned-first :
      (w : ℕ) (e : Bool)
      → attempt_unowned hooks initial_strong_value (living initial_strong_value w e)
        ≡ ok true (living 1 w e)
  unfolding attempt_unowned
  unowned-first w true =
      let s = living initial_strong_value w true in
      bind_ok _ _ s s true _ (q.attempted s) (accepted_first w)
  unowned-first w false = next _ _ (living 1 w false) refl refl

  unowned-weakly :
      (w : ℕ) (e : Bool)
      → 0 < w
      → suc w < count_limit
      → attempt_unowned hooks 0 (weakly_held (w + 1) e)
        ≡ ok e (if e then living 1 (w + 1) true else weakly_held w false)
  unfolding attempt_unowned
  unowned-weakly w true some small =
      let s = weakly_held (w + 1) true in
      bind_ok _ _ s s true _ (q.attempted s) (accepted_again (w + 1))
  unowned-weakly w false some small =
      next _ _ (weakly_held w false)
        (ap (λ (k : ℕ). dec_weak hooks (weakly_held k false)) (omega arith)
          ∙ dec_weak-weakly_held hooks q w false some small)
        refl

  attempt-first :
      (w : ℕ) (e : Bool)
      → w < count_limit
      → attempt_inc_strong hooks (living initial_strong_value w e) ≡ ok true (living 1 (w + 1) e)
  unfolding attempt_inc_strong
  attempt-first w e small =
      let s' = living initial_strong_value (w + 1) e in
      next _ _ s' (inc_weak-living initial_strong_value w e small)
        (next _ _ s' refl (unowned-first (w + 1) e))

  attempt-living :
      (n w : ℕ) (e : Bool)
      → 0 < n
      → n < count_limit
      → w < count_limit
      → attempt_inc_strong hooks (living n w e) ≡ ok true (living (n + 1) (w + 1) e)
  unfolding attempt_inc_strong
  attempt-living n w e some small small' =
      let nonzero : (n == 0) ≡ false = ground arith in
      let set : (n == initial_strong_value) ≡ false = ground arith in
      let s' = living n (w + 1) e in
      next _ _ s' (inc_weak-living n w e small') (
        next _ _ s' (rw (natural_lem n small) refl) (
          rw (nonzero, natural_lem n small, set)
            (next _ _ (living (n + 1) (w + 1) e) (rw (add_32_lem n (omega arith)) refl) refl)))

  attempt-weakly :
      (w : ℕ) (e : Bool)
      → 0 < w
      → suc w < count_limit
      → attempt_inc_strong hooks (weakly_held w e)
        ≡ ok e (if e then living 1 (w + 1) true else weakly_held w false)
  unfolding attempt_inc_strong
  attempt-weakly w e some small =
      let s' = weakly_held (w + 1) e in
      next _ _ s' (inc_weak-weakly_held w e (omega arith))
        (next _ _ s' refl (unowned-weakly w e some small))

  -- What becomes of an object when one of its weak pointers is made a strong one.
  abbrev pub Promoted : State → ℕ → ℕ → Type 0
  Promoted s n m =
      (s' : State) × (attempt_inc_strong hooks s ≡ ok s.alive s')
      × Held s' (if s.alive then suc n else n) m

  -- With virtual functions that leave the counts alone and accept the attempt, and holders that number
  -- less than MAX_COUNT, making a weak pointer strong succeeds exactly where the object still lives;
  -- else it gives none, and the holders are as before.
  pub attempt_inc_strong-Promoted :
      (s : State) (n m : ℕ) → Held s n m → 0 < m → suc (n + m) < count_limit → Promoted s n m
  attempt_inc_strong-Promoted s n m (fresh e none small at) some room =
      subst (λ x. Promoted x n m) (sym at)
        (
          living 1 (m + 1) e,
          attempt-first m e small,
          owned e (omega arith) (omega arith) (living_is e (omega arith) (omega arith)),
        )
  attempt_inc_strong-Promoted s n m (owned e strong small at) some room =
      subst (λ x. Promoted x n m) (sym at)
        (
          living (n + 1) (n + m + 1) e,
          attempt-living n (n + m) e strong (omega arith) small,
          owned e (omega arith) (omega arith) (living_is e (omega arith) (omega arith)),
        )
  attempt_inc_strong-Promoted s n m (weakly true none some small at) some' room =
      subst (λ x. Promoted x n m) (sym at)
        (
          living 1 (m + 1) true,
          attempt-weakly m true some (omega arith),
          owned true (omega arith) (omega arith) (living_is true (omega arith) (omega arith)),
        )
  attempt_inc_strong-Promoted s n m (weakly false none some small at) some' room =
      subst (λ x. Promoted x n m) (sym at)
        (
          weakly_held m false,
          attempt-weakly m false some (omega arith),
          weakly false none some small refl,
        )
  attempt_inc_strong-Promoted s n m (gone none none' dead refs d) some room = absurd (omega arith)
