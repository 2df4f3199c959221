-- ===== src/Vector/Sorting/Stable.antt =====
-- What the insertion sort of libutils/VectorImpl.cpp does to the order of the items.
use mathlib.Core.List.{Perm}
use mathlib.Core.List.Perm
use android_native_mac_ports.Base.Int.{ℤ}
use android_native_mac_ports.Vector.Sorting.{greater}
use android_native_mac_ports.Vector.Sorting.Swaps.{swap_at, swap_at-perm}
use android_native_mac_ports.Base.{
  ℕ, zero, suc, Bool, true, false, some, List, [], ◌∷◌, get_elem?, if◌then◌else◌, ◌≡◌, refl, ◌∙◌,
  arith, inl, inr, Bool-cases,
}

module _ {A : Type 0} where
  -- The items for which a test is true, in their order.
  pub select : (A → Bool) → List A → List A
  select q [] = []
  select q (x ∷ r) = let rest = select q r in if q x then x ∷ rest else rest

  select-swap_at :
      (q : A → Bool) (k : ℕ) (xs : List A)
      → ((c x : A)
          → get_elem? xs k ≡ some c
          → get_elem? xs (suc k) ≡ some x
          → (if q c then q x else false) ≡ false)
      → select q (swap_at k xs) ≡ select q xs
  unfolding select swap_at
  select-swap_at q zero [] apart = refl
  select-swap_at q (suc k) [] apart = refl
  select-swap_at q zero (x ∷ []) apart = refl
  select-swap_at q zero (x ∷ y ∷ r) apart = let one = apart x y refl refl in ground arith
  select-swap_at q (suc k) (x ∷ r) apart = ground (arith, select-swap_at q k r apart)

module _ {A : Type 0} (compare_items : A → A → ℤ) where
  -- The lists have the same items. Those of any set in which none is greater than another
  -- stand in the same order in both.
  pub record Rearranged (ys xs : List A) : Type 0 where
    pub perm : Perm ys xs
    pub stable :
        (q : A → Bool)
        → ((a b : A) → q a ≡ true → q b ≡ true → greater compare_items a b ≡ false)
        → select q ys ≡ select q xs

  pub Rearranged-self : (xs : List A) → Rearranged xs xs
  Rearranged-self xs = record { perm = Perm.rfl; stable = λ q h. refl }

  pub Rearranged-trans :
      (zs ys xs : List A) → Rearranged zs ys → Rearranged ys xs → Rearranged zs xs
  Rearranged-trans zs ys xs f g = record {
    perm = Perm.trans f.perm g.perm;
    stable = λ q h. f.stable q h ∙ g.stable q h;
  }

  pub swap_at-Rearranged :
      (k : ℕ) (xs : List A) (c x : A)
      → get_elem? xs k ≡ some c
      → get_elem? xs (suc k) ≡ some x
      → greater compare_items c x ≡ true
      → Rearranged (swap_at k xs) xs
  swap_at-Rearranged k xs c x at_c at_x more = record {
    perm = swap_at-perm k xs;
    stable = λ q h. select-swap_at q k xs λ c' x' at_c' at_x'.
        let c_is : c ≡ c' = cc in
        let x_is : x ≡ x' = cc in
        let more' : greater compare_items c' x' ≡ true = rw (← c_is, ← x_is) more in
        elim (Bool-cases (q c')) [
          | inl q_c ↦ elim (Bool-cases (q x')) [
            | inl q_x ↦ let not_more = h c' x' q_c q_x in absurd (ground arith)
            | inr no_x ↦ ground arith
          ]
          | inr no_c ↦ ground arith
        ];
  }
