-- ===== src/RefBase/Holders.antt =====
-- Who holds an object of libutils/RefBase.cpp: so many strong and so many weak pointers.
use android_native_mac_ports.Base.{ℕ, ◌+◌, ◌<◌, ◌≡◌, ◌⊎◌, Bool, true, false, if◌then◌else◌, [], ◌∷◌}
use android_native_mac_ports.RefBase.State.{
  State, object_deleted, refs_deleted, Hooks, ok, initial_strong_value, count_limit,
}

-- The virtual functions return, leave the counts, the flags and the memory alone, and accept that a
-- weak pointer is made strong.
pub record Quiet (hooks : Hooks) : Type 0 where
  pub heap : hooks.on_stack ≡ false
  pub first : (s : State) → hooks.on_first_ref s ≡ ok tt s
  pub last_strong : (s : State) → hooks.on_last_strong_ref s ≡ ok tt s
  pub last_weak : (s : State) → hooks.on_last_weak_ref s ≡ ok tt s
  pub attempted : (s : State) → hooks.on_inc_strong_attempted s ≡ ok true s

-- An object that lives, with its two counts.
abbrev pub living : ℕ → ℕ → Bool → State
living strong weak lifetime_weak = record {
  strong = strong;
  weak = weak;
  lifetime_weak = lifetime_weak;
  alive = true;
  refs_alive = true;
  deletions = [];
}

-- An object that only weak pointers hold: it was deleted unless its lifetime is extended.
abbrev pub weakly_held : ℕ → Bool → State
weakly_held weak lifetime_weak = record {
  strong = 0;
  weak = weak;
  lifetime_weak = lifetime_weak;
  alive = lifetime_weak;
  refs_alive = true;
  deletions = if lifetime_weak then [] else object_deleted ∷ [];
}

-- The state where `n` strong and `m` weak pointers hold the object: before the first strong one, with
-- strong ones, after the last strong one, and after the last one, when the object and its
-- `weakref_impl` have been deleted once each.
pub data Held (s : State) (n m : ℕ) : Type 0 where
  fresh : (e : Bool) → n ≡ 0 → m < count_limit → s ≡ living initial_strong_value m e → Held s n m
  owned : (e : Bool) → 0 < n → n + m < count_limit → s ≡ living n (n + m) e → Held s n m
  weakly : (e : Bool) → n ≡ 0 → 0 < m → m < count_limit → s ≡ weakly_held m e → Held s n m
  gone :
      n ≡ 0
      → m ≡ 0
      → s.alive ≡ false
      → s.refs_alive ≡ false
      → (s.deletions ≡ object_deleted ∷ refs_deleted ∷ [])
        ⊎ (s.deletions ≡ refs_deleted ∷ object_deleted ∷ [])
      → Held s n m
