-- ===== src/RefBase/Releases.antt =====
-- What `decWeak` and `decStrong` of libutils/RefBase.cpp compute on counts in their bounds.
use android_native_mac_ports.Base.{
  ℕ, suc, ◌<◌, ◌≡◌, refl, Bool, true, false, not, arith, ◌==◌, ◌∷◌, [],
}
use android_native_mac_ports.RefBase.State.{
  State, ok, Hooks, ◌>>=◌, ◌>>◌, initial_strong_value, count_limit, bad_weak, bad_strong,
  object_deleted, refs_deleted,
}
use android_native_mac_ports.RefBase.Counts.{dec_weak, dec_strong, delete_object, delete_refs, when}
use android_native_mac_ports.RefBase.Holders.{Quiet, living, weakly_held}
use android_native_mac_ports.RefBase.Steps.{next, sub_32_lem}

-- A state with both deletions, in one order or the other.
abbrev pub ended : ℕ → Bool → State
ended strong true = record {
  strong = strong;
  weak = 0;
  lifetime_weak = true;
  alive = false;
  refs_alive = false;
  deletions = object_deleted ∷ refs_deleted ∷ [];
}
ended strong false = record {
  strong = strong;
  weak = 0;
  lifetime_weak = false;
  alive = false;
  refs_alive = false;
  deletions = refs_deleted ∷ object_deleted ∷ [];
}

module _ (hooks : Hooks) (q : Quiet hooks) where
  pub dec_weak-living :
      (n w : ℕ) (e : Bool)
      → 0 < w
      → suc w < count_limit
      → dec_weak hooks (living n (suc w) e) ≡ ok tt (living n w e)
  unfolding dec_weak
  dec_weak-living n w e positive small =
      let fine : bad_weak (suc w) ≡ false = ground arith in
      let more : (suc w == 1) ≡ false = ground arith in
      let s' = living n w e in
      next _ _ (living n (suc w) e) refl (
        next _ _ s' (rw (sub_32_lem w (omega arith)) refl)
          (next _ _ s' (rw fine refl) (rw more refl)))

  pub dec_weak-weakly_held :
      (w : ℕ) (e : Bool)
      → 0 < w
      → suc w < count_limit
      → dec_weak hooks (weakly_held (suc w) e) ≡ ok tt (weakly_held w e)
  unfolding dec_weak
  dec_weak-weakly_held w e positive small =
      let fine : bad_weak (suc w) ≡ false = ground arith in
      let more : (suc w == 1) ≡ false = ground arith in
      let s' = weakly_held w e in
      next _ _ (weakly_held (suc w) e) refl (
        next _ _ s' (rw (sub_32_lem w (omega arith)) refl)
          (next _ _ s' (rw fine refl) (rw more refl)))

  pub dec_weak-unused :
      dec_weak hooks (living initial_strong_value 1 false)
      ≡ ok tt (living initial_strong_value 0 false)
  unfolding dec_weak ◌>>◌ ◌>>=◌
  dec_weak-unused = refl

  delete_extended :
      (s : State) → s ≡ living s.strong 0 true → delete_object s ≡ ok tt (ended s.strong true)
  unfolding delete_object delete_refs ◌>>◌ ◌>>=◌
  delete_extended s e = rw e refl

  pub dec_weak-last_unused :
      dec_weak hooks (living initial_strong_value 1 true) ≡ ok tt (ended initial_strong_value true)
  unfolding dec_weak
  dec_weak-last_unused =
      let s' = living initial_strong_value 0 true in
      next _ _ (living initial_strong_value 1 true) refl (
        next _ _ s' refl
          (next _ _ s' refl (next _ _ s' (q.last_weak s') (delete_extended s' refl))))

  pub dec_weak-last : (e : Bool) → dec_weak hooks (weakly_held 1 e) ≡ ok tt (ended 0 e)
  unfolding dec_weak delete_refs
  dec_weak-last false =
      let s' = weakly_held 0 false in
      next _ _ (weakly_held 1 false) refl (next _ _ s' refl (next _ _ s' refl refl))
  dec_weak-last true =
      let s' = weakly_held 0 true in
      next _ _ (weakly_held 1 true) refl (
        next _ _ s' refl
          (next _ _ s' refl (next _ _ s' (q.last_weak s') (delete_extended s' refl))))

  pub dec_strong-living :
      (n w : ℕ) (e : Bool)
      → 0 < n
      → 0 < w
      → suc n < count_limit
      → suc w < count_limit
      → dec_strong hooks (living (suc n) (suc w) e) ≡ ok tt (living n w e)
  unfolding dec_strong
  dec_strong-living n w e positive positive' small small' =
      let fine : bad_strong (suc n) ≡ false = ground arith in
      let more : (suc n == 1) ≡ false = ground arith in
      let s = living (suc n) (suc w) e in
      let s' = living n (suc w) e in
      next _ _ s refl (
        next _ _ s refl (
          next _ _ s' (rw (sub_32_lem n (omega arith)) refl) (
            next _ _ s' (rw fine refl)
              (next _ _ s' (rw more refl) (dec_weak-living n w e positive' small')))))

  delete_unless_extended :
      (w : ℕ) (e : Bool) → when (not e) delete_object (living 0 w e) ≡ ok tt (weakly_held w e)
  unfolding delete_object ◌>>◌ ◌>>=◌
  delete_unless_extended w true = refl
  delete_unless_extended w false = refl

  -- The last strong pointer goes: the object is deleted, unless its lifetime is extended.
  pub dec_strong-last :
      (w : ℕ) (e : Bool) → dec_strong hooks (living 1 w e) ≡ dec_weak hooks (weakly_held w e)
  unfolding dec_strong
  dec_strong-last w e = next _ _ (living 1 w e) refl (
      next _ _ (living 1 w e) refl (
        next _ _ (living 0 w e) refl (
          next _ _ (living 0 w e) refl (
            next _ _ (weakly_held w e)
              (next _ _ (living 0 w e) (q.last_strong (living 0 w e)) (delete_unless_extended w e))
              refl))))
