-- ===== src/Vector/Sorting/Swaps.antt =====
-- Lists in which the insertion sort of libutils/VectorImpl.cpp has an item on its way.
use mathlib.Core.List.{Perm}
use mathlib.Core.List.Perm
use android_native_mac_ports.Base.Int.{ℤ}
use android_native_mac_ports.Vector.Sorting.{greater}
use android_native_mac_ports.Base.{
  ℕ, zero, suc, ◌-◌, ◌≤◌, ◌<◌, true, false, some, List, [], ◌∷◌, length, get_elem?, get_elem?-below,
  ◌==◌, if◌then◌else◌, ◌≡◌, refl, sym, ap, ◌∙◌, arith, inl, inr, Bool-cases, ltb-cases,
}

module _ {A : Type 0} where
  -- The list with the elements at `k` and behind it exchanged.
  unfoldable pub swap_at : ℕ → List A → List A
  swap_at k [] = []
  swap_at zero (x ∷ []) = x ∷ []
  swap_at zero (x ∷ y ∷ r) = y ∷ x ∷ r
  swap_at (suc k) (x ∷ r) = x ∷ swap_at k r

  pub swap_at-perm : (k : ℕ) (xs : List A) → Perm (swap_at k xs) xs
  unfolding swap_at
  swap_at-perm zero [] = Perm.rfl
  swap_at-perm (suc k) [] = Perm.rfl
  swap_at-perm zero (x ∷ []) = Perm.rfl
  swap_at-perm zero (x ∷ y ∷ r) = Perm.swap x y r
  swap_at-perm (suc k) (x ∷ r) = Perm.cons x (swap_at-perm k r)

  pub length-swap_at : (k : ℕ) (xs : List A) → length (swap_at k xs) ≡ length xs
  unfolding swap_at
  length-swap_at zero [] = refl
  length-swap_at (suc k) [] = refl
  length-swap_at zero (x ∷ []) = refl
  length-swap_at zero (x ∷ y ∷ r) = refl
  length-swap_at (suc k) (x ∷ r) = ap suc (length-swap_at k r)

  pub get_elem?-swap_at :
      (k : ℕ) (xs : List A) (i : ℕ)
      → suc k < length xs
      → get_elem? (swap_at k xs) i ≡ (
          if k == i
          then get_elem? xs (suc k)
          else if suc k == i
          then get_elem? xs k
          else get_elem? xs i)
  unfolding swap_at
  get_elem?-swap_at zero [] i h = absurd (omega arith)
  get_elem?-swap_at (suc k) [] i h = absurd (omega arith)
  get_elem?-swap_at zero (x ∷ []) i h = absurd (omega arith)
  get_elem?-swap_at zero (x ∷ y ∷ r) zero h = refl
  get_elem?-swap_at zero (x ∷ y ∷ r) (suc zero) h = refl
  get_elem?-swap_at zero (x ∷ y ∷ r) (suc (suc i)) h = ground arith
  get_elem?-swap_at (suc k) (x ∷ r) zero h = ground arith
  get_elem?-swap_at (suc k) (x ∷ r) (suc i) h = ground (arith, get_elem?-swap_at k r i)

module _ {A : Type 0} (compare_items : A → A → ℤ) where
  -- The comparison orders the items: of two, not both are greater, and not being greater is transitive.
  pub record IsOrder : Type 0 where
    pub greater_asym :
        (a b : A) → greater compare_items a b ≡ true → greater compare_items b a ≡ false
    pub le_trans :
        (a b c : A)
        → greater compare_items a b ≡ false
        → greater compare_items b c ≡ false
        → greater compare_items a c ≡ false

  -- Up to `top` no item is greater than one behind it.
  abbrev pub IsSortedTo : ℕ → List A → Type 0
  IsSortedTo top xs =
      (i j : ℕ) (a b : A)
      → i < j
      → j ≤ top
      → get_elem? xs i ≡ some a
      → get_elem? xs j ≡ some b
      → greater compare_items a b ≡ false

  -- The same, except for the items before the one at `hole`, which is still on its way.
  abbrev pub IsSortedBut : ℕ → ℕ → List A → Type 0
  IsSortedBut hole top xs =
      (i j : ℕ) (a b : A)
      → i < j
      → j ≤ top
      → (j == hole) ≡ false
      → get_elem? xs i ≡ some a
      → get_elem? xs j ≡ some b
      → greater compare_items a b ≡ false

  -- A sorted part with one item more.
  pub IsSortedTo-IsSortedBut :
      (top : ℕ) (xs : List A) → IsSortedTo top xs → IsSortedBut (suc top) (suc top) xs
  IsSortedTo-IsSortedBut top xs sorted i j a b h low but at_i at_j =
      sorted i j a b h (ground arith) at_i at_j

  module _ (laws : IsOrder) where
    -- The item moves one place towards the front, past a greater one.
    pub swap_at-IsSortedBut :
        (k top : ℕ) (xs : List A) (c x : A)
        → suc k < length xs
        → get_elem? xs k ≡ some c
        → get_elem? xs (suc k) ≡ some x
        → greater compare_items c x ≡ true
        → IsSortedBut (suc k) top xs
        → IsSortedBut k top (swap_at k xs)
    swap_at-IsSortedBut k top xs c x room at_c at_x is_greater sorted i j a b h low but at_i at_j =
        let at_i' = sym (get_elem?-swap_at k xs i room) ∙ at_i in
        let at_j' = sym (get_elem?-swap_at k xs j room) ∙ at_j in
        elim (Bool-cases (suc k == j)) [
          | inl past ↦
              let b_is : c ≡ b = ground arith in
              elim (Bool-cases (k == i)) [
                | inl here ↦
                    let a_is : x ≡ a = ground arith in
                    rw (← a_is) (rw (← b_is) (laws.greater_asym c x is_greater))
                | inr before ↦
                    let there : get_elem? xs i ≡ some a = ground arith in
                    rw (← b_is)
                      (sorted i k a c (ground arith) (ground arith) (ground arith) there at_c)
              ]
          | inr elsewhere ↦
              let at_b : get_elem? xs j ≡ some b = ground arith in
              elim (Bool-cases (k == i)) [
                | inl here ↦
                    let a_is : x ≡ a = ground arith in
                    rw (← a_is) (sorted (suc k) j x b (ground arith) low (ground arith) at_x at_b)
                | inr other_i ↦ elim (Bool-cases (suc k == i)) [
                  | inl next ↦
                      let a_is : c ≡ a = ground arith in
                      rw (← a_is) (sorted k j c b (ground arith) low (ground arith) at_c at_b)
                  | inr far ↦
                      let there : get_elem? xs i ≡ some a = ground arith in
                      sorted i j a b h low (ground arith) there at_b
                ]
              ]
        ]

    -- Where it stops, all is sorted.
    pub stops-IsSortedTo :
        (hole top : ℕ) (xs : List A) (x : A)
        → get_elem? xs hole ≡ some x
        → IsSortedBut hole top xs
        → hole ≤ top
        → ((k : ℕ) (c : A)
            → hole ≡ suc k
            → get_elem? xs k ≡ some c
            → greater compare_items c x ≡ false)
        → hole < length xs
        → IsSortedTo top xs
    stops-IsSortedTo hole top xs x at_x sorted low stop room i j a b h low' at_i at_j =
        elim (Bool-cases (j == hole)) [
          | inr but ↦ sorted i j a b h low' but at_i at_j
          | inl here ↦
              let j_is : j ≡ hole = ground arith in
              let b_is : x ≡ b = let there = ap (get_elem? xs) j_is in cc in
              rw (← b_is) (below_hole i a (omega arith) at_i)
        ]
      where
        below_hole :
            (i' : ℕ) (a' : A)
            → i' < hole
            → get_elem? xs i' ≡ some a'
            → greater compare_items a' x ≡ false
        below_hole i' a' low'' there =
            let (c, at_c) = get_elem?-below xs (hole - 1) (omega arith) in
            let stops = stop (hole - 1) c (omega arith) at_c in
            elim (ltb-cases i' (hole - 1)) [
              | inl before ↦
                  laws.le_trans a' c x
                    (sorted i' (hole - 1) a' c before (omega arith) (ground arith) there at_c) stops
              | inr last ↦
                  let i_is : i' ≡ hole - 1 = omega arith in
                  let a_is : c ≡ a' = let same = ap (get_elem? xs) i_is in cc in rw (← a_is) stops
            ]

    -- An item that is not less than the last one makes the sorted part longer.
    pub next-IsSortedTo :
        (k : ℕ) (xs : List A) (c x : A)
        → get_elem? xs k ≡ some c
        → get_elem? xs (suc k) ≡ some x
        → suc k < length xs
        → greater compare_items c x ≡ false
        → IsSortedTo k xs
        → IsSortedTo (suc k) xs
    next-IsSortedTo k xs c x at_c at_x room not_greater sorted =
        stops-IsSortedTo (suc k) (suc k) xs x at_x (IsSortedTo-IsSortedBut k xs sorted)
          (omega arith)
          (λ j d h at_d.
            let j_is : k ≡ j = omega arith in
            let d_is : c ≡ d = let same = ap (get_elem? xs) j_is in cc in rw (← d_is) not_greater)
          room
