-- ===== src/RefBase/Changes.antt =====
-- What each pointer that comes or goes does to an object of libutils/RefBase.cpp and its holders.
use android_native_mac_ports.Base.{
  ℕ, zero, suc, ◌+◌, ◌-◌, ◌==◌, ◌||◌, not, [], ◌∷◌, ◌<◌, ◌≡◌, refl, sym, ap, subst, ◌∙◌, ◌⊎◌, inl,
  inr, Bool, true, false, arith,
}
use android_native_mac_ports.RefBase.State.{
  State, Run, ok, object_deleted, refs_deleted, Hooks, M, initial_strong_value, count_limit,
}
use android_native_mac_ports.RefBase.Counts.{inc_weak, dec_weak, inc_strong, dec_strong}
use android_native_mac_ports.RefBase.Holders.{
  Quiet, living, weakly_held, Held, fresh, owned, weakly, gone,
}
use android_native_mac_ports.RefBase.Steps.{
  inc_weak-living, inc_weak-weakly_held, inc_strong-first, inc_strong-living,
}
use android_native_mac_ports.RefBase.Releases.{
  ended, dec_weak-living, dec_weak-weakly_held, dec_weak-unused, dec_weak-last_unused,
  dec_weak-last, dec_strong-living, dec_strong-last,
}

abbrev pub Becomes {ℓ} : {A : Type ℓ} → Run A → A → ℕ → ℕ → Type ℓ
Becomes run a n m = (s' : State) × (run ≡ ok a s') × Held s' n m

-- The object and its `weakref_impl` have been deleted, once each.
abbrev pub Deleted : State → Type 0
Deleted s =
    (s.alive ≡ false)
    × (s.refs_alive ≡ false)
    × ((s.deletions ≡ object_deleted ∷ refs_deleted ∷ [])
        ⊎ (s.deletions ≡ refs_deleted ∷ object_deleted ∷ []))

-- An object that goes with its last holder: a strong pointer has held it, or its lifetime is extended.
abbrev pub is_freeable : State → Bool
is_freeable s = s.lifetime_weak || not (s.strong == initial_strong_value)

-- What a weak holder less leaves of state `s`, where `n` strong and `m` weak ones are left.
pub data Remains (s s' : State) (n m : ℕ) : Type 0 where
  holders : 0 < n + m → s' ≡ record s { weak = s.weak - 1 } → Remains s s' n m
  not_freed : n ≡ 0 → m ≡ 0 → is_freeable s ≡ false → s' ≡ record s { weak = 0 } → Remains s s' n m
  freed : n ≡ 0 → m ≡ 0 → is_freeable s ≡ true → Deleted s' → Remains s s' n m

abbrev pub Releases : Run (Unit {0}) → State → ℕ → ℕ → Type 0
Releases run s n m = (s' : State) × (run ≡ ok tt s') × Held s' n m × Remains s s' n m

ended-Deleted : (e : Bool) (strong : ℕ) → Deleted (ended strong e)
ended-Deleted true strong = (refl, refl, inl refl)
ended-Deleted false strong = (refl, refl, inr refl)

ended-Held : (e : Bool) (strong : ℕ) → Held (ended strong e) 0 0
ended-Held true strong = gone refl refl refl refl (inl refl)
ended-Held false strong = gone refl refl refl refl (inr refl)

pub living_is : {n n' w w' : ℕ} (e : Bool) → n ≡ n' → w ≡ w' → living n w e ≡ living n' w' e
living_is e p r = cc

-- A run from a state that is known.
pub from {ℓ} :
    {A : Type ℓ} (m : M A) {s t s' : State} {a : A} → s ≡ t → m t ≡ ok a s' → m s ≡ ok a s'
from m {s} {t} {s'} {a} e run = subst (λ x. m x ≡ ok a s') (sym e) run

-- A weak pointer more: where the object or its `weakref_impl` is held, or no strong pointer was there
-- yet, and the holders number less than MAX_COUNT, `incWeak` returns, with one weak holder more.
pub inc_weak-Held :
    (s : State) (n m : ℕ)
    → Held s n m
    → s.refs_alive ≡ true
    → suc (n + m) < count_limit
    → Becomes (inc_weak s) tt n (suc m)
inc_weak-Held s n m (fresh e none small at) live room = (
  living initial_strong_value (m + 1) e,
  from inc_weak at (inc_weak-living initial_strong_value m e small),
  fresh e none (omega arith) (living_is e refl (omega arith)),
)
inc_weak-Held s n m (owned e some small at) live room = (
  living n (n + m + 1) e,
  from inc_weak at (inc_weak-living n (n + m) e small),
  owned e some (omega arith) (living_is e refl (omega arith)),
)
inc_weak-Held s n m (weakly e none some small at) live room = (
  weakly_held (m + 1) e,
  from inc_weak at (inc_weak-weakly_held m e small),
  weakly e none (omega arith) (omega arith) (ap (λ (w : ℕ). weakly_held w e) (omega arith)),
)
inc_weak-Held s n m (gone none none' dead refs d) live room = absurd (ground arith)

abbrev one_less : State → State
one_less s = record s { weak = s.weak - 1 }

or_true : (e : Bool) → (e || true) ≡ true
or_true true = refl
or_true false = refl

-- What a strong pointer has held is freeable.
refs_left :
    (e : Bool) (m : ℕ) (s' : State)
    → Remains (weakly_held (suc m) e) s' 0 m
    → s'.refs_alive ≡ not (0 + m == 0)
refs_left e m s' (holders some at) = ap (λ (x : State). x.refs_alive) at ∙ ground arith
refs_left e m s' (not_freed none none' never at) = absurd (ground (arith, or_true e))
refs_left e m s' (freed none none' able deleted) = ground (arith, deleted)

module _ (hooks : Hooks) (q : Quiet hooks) where
  -- With virtual functions that leave the counts alone, `incStrong` returns where a strong pointer holds
  -- the object or it is the first, with one strong holder more, while
  -- the holders number less than MAX_COUNT.
  pub inc_strong-Held :
      (s : State) (n m : ℕ)
      → Held s n m
      → (0 < n) ⊎ (s.strong ≡ initial_strong_value)
      → s.alive ≡ true
      → suc (n + m) < count_limit
      → Becomes (inc_strong hooks s) tt (suc n) m
  inc_strong-Held s n m (fresh e none small at) source live room = (
    living 1 (m + 1) e,
    from (inc_strong hooks) at (inc_strong-first hooks q m e small),
    owned e (omega arith) (omega arith) (living_is e (omega arith) (omega arith)),
  )
  inc_strong-Held s n m (owned e some small at) source live room = (
    living (n + 1) (n + m + 1) e,
    from (inc_strong hooks) at
        (inc_strong-living hooks q n (n + m) e some (omega arith) (omega arith)),
    owned e (omega arith) (omega arith) (living_is e (omega arith) (omega arith)),
  )
  inc_strong-Held s n m (weakly e none some small at) source live room = absurd (no_source source)
    where
      no_source : ((0 < n) ⊎ (s.strong ≡ initial_strong_value)) → ⊥
      no_source (inl more) = omega arith
      no_source (inr first) = omega (arith, ap (λ (x : State). x.strong) at)
  inc_strong-Held s n m (gone none none' dead refs d) source live room = absurd (ground arith)

  -- With virtual functions that leave the counts alone, `decWeak` returns where a weak pointer holds the
  -- object, with one weak holder less. If a holder is left, only the count has changed. If none is, the
  -- object and its `weakref_impl` are deleted, where a strong pointer has held it or its lifetime is
  -- extended; where neither is so, nothing is deleted, and the weak count is 0.
  pub dec_weak-Held : (s : State) (n m : ℕ) → Held s n (suc m) → Releases (dec_weak hooks s) s n m
  dec_weak-Held s n zero (fresh true none small at) = (
    ended initial_strong_value true,
    from (dec_weak hooks) at (dec_weak-last_unused hooks q),
    subst (λ k. Held (ended initial_strong_value true) k 0) (sym none)
        (ended-Held true initial_strong_value),
    freed none refl (ap is_freeable at) (ended-Deleted true initial_strong_value),
  )
  dec_weak-Held s n zero (fresh false none small at) = (
    living initial_strong_value 0 false,
    from (dec_weak hooks) at (dec_weak-unused hooks q),
    fresh false none (omega arith) refl,
    not_freed none refl (ap is_freeable at) (sym (ap (λ (x : State). record x { weak = 0 }) at)),
  )
  dec_weak-Held s n (suc m) (fresh e none small at) = (
    living initial_strong_value (suc m) e,
    from (dec_weak hooks) at
        (dec_weak-living hooks q initial_strong_value (suc m) e (omega arith) small),
    fresh e none (omega arith) refl,
    holders (omega arith) (sym (ap one_less at ∙ living_is e refl (omega arith))),
  )
  dec_weak-Held s n m (owned e some small at) = (
    living n (n + m) e,
    from (dec_weak hooks) (at ∙ living_is e refl (omega arith))
        (dec_weak-living hooks q n (n + m) e (omega arith) (omega arith)),
    owned e some (omega arith) refl,
    holders (omega arith) (sym (ap one_less at ∙ living_is e refl (omega arith))),
  )
  dec_weak-Held s n zero (weakly e none some small at) = (
    ended 0 e,
    from (dec_weak hooks) at (dec_weak-last hooks q e),
    subst (λ k. Held (ended 0 e) k 0) (sym none) (ended-Held e 0),
    freed none refl (ap is_freeable at ∙ or_true e) (ended-Deleted e 0),
  )
  dec_weak-Held s n (suc m) (weakly e none some small at) = (
    weakly_held (suc m) e,
    from (dec_weak hooks) at (dec_weak-weakly_held hooks q (suc m) e (omega arith) small),
    weakly e none (omega arith) (omega arith) refl,
    holders (omega arith) (sym (ap one_less at ∙ ap (λ (w : ℕ). weakly_held w e) (omega arith))),
  )
  dec_weak-Held s n m (gone none none' dead refs d) = absurd (omega arith)

  -- How a strong holder less leaves the object: deleted if it was the last one.
  abbrev pub Frees : Run (Unit {0}) → ℕ → ℕ → Type 0
  Frees run n m = (s' : State) × (run ≡ ok tt s') × Held s' n m × (s'.refs_alive ≡ not (n + m == 0))

  pub dec_strong-Frees : (s : State) (n m : ℕ) → Held s (suc n) m → Frees (dec_strong hooks s) n m
  dec_strong-Frees s n m (fresh e none small at) = absurd (omega arith)
  dec_strong-Frees s (suc n) m (owned e some small at) = (
    living (suc n) (suc n + m) e,
    from (dec_strong hooks) (at ∙ living_is e refl (omega arith)) (
        dec_strong-living hooks q (suc n) (suc n + m) e (omega arith) (omega arith) (omega arith)
          (omega arith)),
    owned e (omega arith) (omega arith) refl,
    ground arith,
  )
  dec_strong-Frees s zero m (owned e some small at) =
      let (s', run, held, remains) =
        dec_weak-Held (weakly_held (suc m) e) 0 m
          (weakly e refl (omega arith) (omega arith) refl) in
      (
        s',
        from (dec_strong hooks) (at ∙ living_is e refl (omega arith))
            (dec_strong-last hooks q (suc m) e ∙ run),
        held,
        refs_left e m s' remains,
      )
  dec_strong-Frees s n m (weakly e none some small at) = absurd (omega arith)
  dec_strong-Frees s n m (gone none none' dead refs d) = absurd (omega arith)

  pub dec_strong-Held :
      (s : State) (n m : ℕ) → Held s (suc n) m → Becomes (dec_strong hooks s) tt n m
  dec_strong-Held s n m h = let (s', run, held, refs) = dec_strong-Frees s n m h in (s', run, held)
