-- ===== src/RefBase/Histories.antt =====
-- Histories of an object of libutils/RefBase.cpp, as a relation: what its holders may do, and what
-- holds of every state that they reach.
use android_native_mac_ports.Base.{
  ℕ, suc, ◌+◌, ◌<◌, ◌≡◌, refl, ap, subst, ◌∙◌, ◌⊎◌, Bool, true, false, ◌&&◌, not, ◌==◌, arith,
  if◌then◌else◌,
}
use android_native_mac_ports.RefBase.State.{
  State, ok, Hooks, initial_strong_value, count_limit, new_object,
}
use android_native_mac_ports.RefBase.Counts.{
  inc_weak, dec_weak, inc_strong, dec_strong, attempt_inc_strong, extend_object_lifetime,
}
use android_native_mac_ports.RefBase.Holders.{Quiet, Held, fresh, owned, weakly, gone}
use android_native_mac_ports.RefBase.Changes.{
  Deleted, is_freeable, Remains, holders, not_freed, freed, inc_strong-Held, dec_strong-Frees,
  inc_weak-Held, dec_weak-Held,
}
use android_native_mac_ports.RefBase.Extending.{same_state, same_value, Held-run, extend-Held}
use android_native_mac_ports.RefBase.Promotion.{attempt_inc_strong-Promoted}

-- Whether the object is due to be deleted when a weak pointer has gone and `n` strong and `m` weak ones are
-- left: no holder is, and a strong one was there once or the lifetime was extended.
abbrev pub is_due : State → ℕ → ℕ → Bool
is_due s n m = (n + m == 0) && is_freeable s

-- Strong pointers come from a strong pointer, by promotion, or as the first; weak ones from any
-- pointer; a pointer goes once. The pointers number less than MAX_COUNT. The last index says whether the
-- object is due to be deleted: it is when the last holder has gone, unless that was a weak one of an
-- object that never had a strong one and whose lifetime was not extended.
pub data History (hooks : Hooks) : State → ℕ → ℕ → Bool → Type 0 where
  created : History hooks new_object 0 0 false
  strong_comes :
      (s s' : State) (n m : ℕ) (d : Bool)
      → History hooks s n m d
      → (0 < n) ⊎ (s.strong ≡ initial_strong_value)
      → s.alive ≡ true
      → suc (n + m) < count_limit
      → inc_strong hooks s ≡ ok tt s'
      → History hooks s' (suc n) m false
  strong_goes :
      (s s' : State) (n m : ℕ) (d : Bool)
      → History hooks s (suc n) m d
      → dec_strong hooks s ≡ ok tt s'
      → History hooks s' n m (n + m == 0)
  weak_comes :
      (s s' : State) (n m : ℕ) (d : Bool)
      → History hooks s n m d
      → s.refs_alive ≡ true
      → suc (n + m) < count_limit
      → inc_weak s ≡ ok tt s'
      → History hooks s' n (suc m) false
  weak_goes :
      (s s' : State) (n m : ℕ) (d : Bool)
      → History hooks s n (suc m) d
      → dec_weak hooks s ≡ ok tt s'
      → History hooks s' n m (is_due s n m)
  promoted :
      (s s' : State) (b : Bool) (n m : ℕ) (d : Bool)
      → History hooks s n m d
      → 0 < m
      → suc (n + m) < count_limit
      → attempt_inc_strong hooks s ≡ ok b s'
      → History hooks s' (if b then suc n else n) m false
  extended :
      (mode : ℕ) (s s' : State) (n m : ℕ) (d : Bool)
      → History hooks s n m d
      → extend_object_lifetime hooks mode s ≡ ok tt s'
      → History hooks s' n m false

-- While a pointer or the object is left, so is `weakref_impl`.
Held-refs : (s : State) (n m : ℕ) → Held s n m → 0 < n + m → s.refs_alive ≡ true
Held-refs s n m (fresh e none small at) some = ap (λ (x : State). x.refs_alive) at
Held-refs s n m (owned e more small at) some = ap (λ (x : State). x.refs_alive) at
Held-refs s n m (weakly e none more small at) some = ap (λ (x : State). x.refs_alive) at
Held-refs s n m (gone none none' dead refs d) some = absurd (omega arith)

-- What has become of the object, by whether it is due to be deleted.
abbrev pub Fate : Bool → State → Type 0
Fate true s = Deleted s
Fate false s = s.refs_alive ≡ true

Held-Fate : (s : State) (n m : ℕ) (d : Bool) → Held s n m → s.refs_alive ≡ not d → Fate d s
Held-Fate s n m false held refs = refs
Held-Fate s n m true (fresh e none small at) refs =
    absurd (ground (arith, ap (λ (x : State). x.refs_alive) at))
Held-Fate s n m true (owned e more small at) refs =
    absurd (ground (arith, ap (λ (x : State). x.refs_alive) at))
Held-Fate s n m true (weakly e none more small at) refs =
    absurd (ground (arith, ap (λ (x : State). x.refs_alive) at))
Held-Fate s n m true (gone none none' dead refs' d) refs = (dead, refs', d)

module _ (hooks : Hooks) (q : Quiet hooks) where
  -- What a weak pointer that goes leaves, by whether the object is due.
  Remains-refs :
      (s s' : State) (n m : ℕ)
      → Held s n (suc m)
      → Remains s s' n m
      → s'.refs_alive ≡ not (is_due s n m)
  Remains-refs s s' n m held (holders some at) =
      let refs = Held-refs s n (suc m) held (omega arith) in
      let left : (n + m == 0) ≡ false = ground arith in
      rw left (ap (λ (x : State). x.refs_alive) at ∙ refs)
  Remains-refs s s' n m held (not_freed none none' never at) =
      let refs = Held-refs s n (suc m) held (omega arith) in
      let left : (n + m == 0) ≡ true = ground arith in
      rw (left, never) (ap (λ (x : State). x.refs_alive) at ∙ refs)
  Remains-refs s s' n m held (freed none none' able deleted) =
      let left : (n + m == 0) ≡ true = ground arith in rw (left, able) deleted.1

  -- A step that leaves a holder.
  stays : (s : State) (n m : ℕ) → Held s n m → 0 < n + m → Held s n m × (s.refs_alive ≡ true)
  stays s n m held some = (held, Held-refs s n m held some)

  History-refs :
      (s : State) (n m : ℕ) (d : Bool) → History hooks s n m d → Held s n m × (s.refs_alive ≡ not d)
  History-refs s n m d created = (fresh false refl (omega arith) refl, refl)
  History-refs s n m d (strong_comes s₀ t n₀ m₀ d₀ h source live room run) =
      stays t (suc n₀) m₀
        (Held-run (inc_strong-Held hooks q s₀ n₀ m₀ (History-refs s₀ n₀ m₀ d₀ h).0 source live room)
          run)
        (omega arith)
  History-refs s n m d (strong_goes s₀ t n₀ m₀ d₀ h run) =
      let (t', run', held, refs) =
        dec_strong-Frees hooks q s₀ n₀ m₀ (History-refs s₀ (suc n₀) m₀ d₀ h).0 in
      subst (λ x. Held x n₀ m₀ × (x.refs_alive ≡ not (n₀ + m₀ == 0))) (same_state run' run)
        (held, refs)
  History-refs s n m d (weak_comes s₀ t n₀ m₀ d₀ h live room run) =
      stays t n₀ (suc m₀)
        (Held-run (inc_weak-Held s₀ n₀ m₀ (History-refs s₀ n₀ m₀ d₀ h).0 live room) run)
        (omega arith)
  History-refs s n m d (weak_goes s₀ t n₀ m₀ d₀ h run) =
      let before = (History-refs s₀ n₀ (suc m₀) d₀ h).0 in
      let (t', run', held, remains) = dec_weak-Held hooks q s₀ n₀ m₀ before in
      subst (λ x. Held x n₀ m₀ × (x.refs_alive ≡ not (is_due s₀ n₀ m₀))) (same_state run' run)
        (held, Remains-refs s₀ t' n₀ m₀ before remains)
  History-refs s n m d (promoted s₀ t b n₀ m₀ d₀ h some room run) =
      let (t', run', held) =
        attempt_inc_strong-Promoted hooks q s₀ n₀ m₀ (History-refs s₀ n₀ m₀ d₀ h).0 some room in
      stays t (if b then suc n₀ else n₀) m₀
        (subst (λ c. Held t (if c then suc n₀ else n₀) m₀) (same_value run' run)
          (subst (λ x. Held x (if s₀.alive then suc n₀ else n₀) m₀) (same_state run' run) held))
        (omega arith)
  History-refs s n m d (extended mode s₀ t n₀ m₀ d₀ h run) =
      extend-Held hooks q mode s₀ t n₀ m₀ (History-refs s₀ n₀ m₀ d₀ h).0 run

  -- With virtual functions that leave the counts alone and accept promotions, every state that holders,
  -- less than MAX_COUNT of them, reach is one where they hold the object as they count: it lives while a
  -- strong pointer holds it, and, with an extended lifetime, while a weak one does. The object and its
  -- `weakref_impl` have been deleted, once each, exactly where that is due: where the last holder has
  -- gone, unless it was a weak one of an object that never had a strong one and whose lifetime was not
  -- extended.
  pub History-Held :
      (s : State) (n m : ℕ) (d : Bool) → History hooks s n m d → Held s n m × Fate d s
  History-Held s n m d h =
      let (held, refs) = History-refs s n m d h in (held, Held-Fate s n m d held refs)
