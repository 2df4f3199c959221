-- ===== src/Vector/Memory/Runs.antt =====
-- What libutils/include/utils/TypeHelpers.h makes of whole runs of objects: create, destroy, copy.
use android_native_mac_ports.Base.{
  ℕ, zero, suc, ◌+◌, ◌-◌, ◌≤◌, ◌<◌, false, none, some, ◌≡◌, refl, ap, ◌∙◌, fun_ext, arith, inl, inr,
  Bool-cases, ltb-cases, if◌then◌else◌, update,
}
use android_native_mac_ports.Vector.Memory.{
  Traits, Memory, inside, copied, cleared, filled, construct_loop, construct_type, destroy_loop,
  destroy_type, copy_loop, copy_type, splat_type,
}

pub shift_index : (d s i : ℕ) → d < i → suc s + (i - suc d) ≡ s + (i - d)
shift_index d s i h = omega arith

pub same_index : (d s i : ℕ) → i ≤ d → d ≤ i → s + (i - d) ≡ s
same_index d s i h k = omega arith

pub inside_zero : (p i : ℕ) → inside p 0 i ≡ false
inside_zero p i = ground arith

module _ {ℓ} {A : Type ℓ} where
  -- An object lives at each of the `n` places from `p`.
  abbrev pub Objects : ℕ → ℕ → Memory A → Type ℓ
  Objects p n m = (i : ℕ) → p ≤ i → i < p + n → (x : A) × (m i ≡ some x)

  cleared-suc : (p n : ℕ) (m : Memory A) → cleared (suc p) n (update m p none) ≡ cleared p (suc n) m
  cleared-suc p n m = fun_ext λ i. ground arith

  filled-suc :
      (p n : ℕ) (x : A) (m : Memory A)
      → filled (suc p) n x (update m p (some x)) ≡ filled p (suc n) x m
  filled-suc p n x m = fun_ext λ i. ground arith

  copied-suc :
      (d s n : ℕ) (x : A) (from m : Memory A)
      → from s ≡ some x
      → copied (suc d) (suc s) n from (update m d (some x)) ≡ copied d s (suc n) from m
  copied-suc d s n x from m e = fun_ext λ i. elim (ltb-cases d i) [
    | inl after ↦ ground (arith, ap from (shift_index d s i after))
    | inr before ↦ elim (ltb-cases i d) [
      | inl below ↦ ground arith
      | inr above ↦ ground (arith, ap from (same_index d s i before above))
    ]
  ]

  construct_loop_lem :
      (t : Traits A) (p n : ℕ) (m : Memory A) → construct_loop t p n m ≡ filled p n t.made m
  unfolding construct_loop
  construct_loop_lem t p zero m = fun_ext λ i. ground arith
  construct_loop_lem t p (suc n) m =
      construct_loop_lem t (suc p) n (update m p (some t.made)) ∙ filled-suc p n t.made m

  pub splat_type_lem :
      (t : Traits A) (p : ℕ) (x : A) (n : ℕ) (m : Memory A) → splat_type t p x n m ≡ filled p n x m
  unfolding splat_type
  splat_type_lem t p x zero m = fun_ext λ i. ground arith
  splat_type_lem t p x (suc n) m =
      splat_type_lem t (suc p) x n (update m p (some x)) ∙ filled-suc p n x m

  destroy_loop_lem :
      (t : Traits A) (p n : ℕ) (m : Memory A)
      → Objects p n m
      → destroy_loop t p n m ≡ some (cleared p n m)
  unfolding destroy_loop
  destroy_loop_lem t p zero m o = ap some (fun_ext λ i. ground arith)
  destroy_loop_lem t p (suc n) m o =
      let (x, e) = o p (omega arith) (omega arith) in
      rw (e, destroy_loop)
        (destroy_loop_lem t (suc p) n (update m p none)
            (λ i a b. let (y, f) = o i (omega arith) (omega arith) in (y, ground arith))
          ∙ ap some (cleared-suc p n m))

  copy_loop_lem :
      (t : Traits A) (d s n : ℕ) (from m : Memory A)
      → Objects s n from
      → copy_loop t d s n from m ≡ some (copied d s n from m)
  unfolding copy_loop
  copy_loop_lem t d s zero from m o = ap some (fun_ext λ i. rw (inside_zero d i) refl)
  copy_loop_lem t d s (suc n) from m o =
      let (x, e) = o s (omega arith) (omega arith) in
      rw (e, copy_loop)
        (copy_loop_lem t (suc d) (suc s) n from (update m d (some x))
            (λ i a b. o i (omega arith) (omega arith))
          ∙ ap some (copied-suc d s n x from m e))

  -- Both branches of `copy_type` copy the run, where its objects are alive.
  pub copy_type_lem :
      (t : Traits A) (d s n : ℕ) (from m : Memory A)
      → Objects s n from
      → copy_type t d s n from m ≡ some (copied d s n from m)
  unfolding copy_type
  copy_type_lem t d s n from m o = elim (Bool-cases t.has_trivial_copy) [
    | inl e ↦ rw e refl
    | inr e ↦ rw e (copy_loop_lem t d s n from m o)
  ]

  -- The objects of a run are destroyed, unless the destructor is trivial.
  pub destroy_type_lem :
      (t : Traits A) (p n : ℕ) (m : Memory A)
      → Objects p n m
      → destroy_type t p n m ≡ some (if t.has_trivial_dtor then m else cleared p n m)
  unfolding destroy_type
  destroy_type_lem t p n m o = elim (Bool-cases t.has_trivial_dtor) [
    | inl e ↦ rw e refl
    | inr e ↦ rw e (destroy_loop_lem t p n m o)
  ]

  pub construct_type_lem :
      (t : Traits A) (p n : ℕ) (m : Memory A)
      → construct_type t p n m ≡ (if t.has_trivial_ctor then m else filled p n t.made m)
  unfolding construct_type
  construct_type_lem t p n m = elim (Bool-cases t.has_trivial_ctor) [
    | inl e ↦ rw e refl
    | inr e ↦ rw e (construct_loop_lem t p n m)
  ]
