-- ===== src/Vector/Sorted/Search.antt =====
-- `_indexOrderOf` of libutils/VectorImpl.cpp finds an item, or the place where it belongs.
use android_native_mac_ports.Base.{
  ℕ, zero, suc, ◌+◌, ◌-◌, ◌/◌, ◌≤◌, ◌<◌, Bool, true, false, Option, none, some, List, length,
  get_elem?, ◌==◌, ltb, ◌≡◌, refl, ap, ◌∙◌, arith, inl, inr, Bool-cases, ltb-cases, get_elem?-below,
  get_elem?-above,
}
use android_native_mac_ports.Base.Int.{ℤ, pos, ltb_ℤ, eqb_ℤ}
use android_native_mac_ports.Vector.Heap.{State, ok, M, ◌>>=◌}
use android_native_mac_ports.Vector.Validity.{items, content}
use android_native_mac_ports.Vector.Steps.{binds}
use android_native_mac_ports.Vector.Contents.{Represents}
use android_native_mac_ports.Vector.Sorted.{object_at, item_at, search_loop, index_order_of}

module _ {A : Type 0} where
  -- The item is read where the vector has one.
  pub item_at_lem : (s : State A) (i : ℕ) (x : A) → items s i ≡ some x → item_at i s ≡ ok x s
  unfolding item_at content object_at ◌>>=◌
  item_at_lem s i x eq = ground arith

module _ {A : Type 0} (compare_items : A → A → ℤ) where
  abbrev pub less : A → A → Bool
  less a b = ltb_ℤ (compare_items a b) (pos 0)

  abbrev pub same : A → A → Bool
  same a b = eqb_ℤ (compare_items a b) (pos 0)

  -- The subclass compares by a strict order: it is transitive, and of two items one is less or they are
  -- the same.
  pub record IsComparison : Type 0 where
    pub less_trans : (a b c : A) → less a b ≡ true → less b c ≡ true → less a c ≡ true
    pub less-same : (a b c : A) → less a b ≡ true → same b c ≡ true → less a c ≡ true
    pub same-less : (a b c : A) → same a b ≡ true → less b c ≡ true → less a c ≡ true
    pub same_sym : (a b : A) → same a b ≡ true → same b a ≡ true
    pub greater-less : (a b : A) → less a b ≡ false → same a b ≡ false → less b a ≡ true

  -- Every item is less than those behind it.
  abbrev pub IsAscending : List A → Type 0
  IsAscending xs =
      (i j : ℕ) (x y : A)
      → i < j
      → get_elem? xs i ≡ some x
      → get_elem? xs j ≡ some y
      → less x y ≡ true

  -- What `_indexOrderOf` finds: the index of an item that is the same, or the order, all items before
  -- which are less and all others greater.
  abbrev pub Found : List A → A → Option ℕ → ℕ → Type 0
  Found xs x none order =
      (order ≤ length xs)
      × ((i : ℕ) (y : A) → i < order → get_elem? xs i ≡ some y → less y x ≡ true)
      × ((i : ℕ) (y : A) → order ≤ i → get_elem? xs i ≡ some y → less x y ≡ true)
  Found xs x (some i) order = (i ≡ order) × (y : A) × (get_elem? xs i ≡ some y) × (same y x ≡ true)

  module _ (laws : IsComparison) (s : State A) (xs : List A) (represents : Represents s xs)
      (ascending : IsAscending xs) (x : A) where
    -- The invariant of the loop.
    abbrev Between : ℕ → ℕ → Type 0
    Between l above =
        (l ≤ above)
        × (above ≤ length xs)
        × ((i : ℕ) (y : A) → i < l → get_elem? xs i ≡ some y → less y x ≡ true)
        × ((i : ℕ) (y : A) → above ≤ i → get_elem? xs i ≡ some y → less x y ≡ true)

    -- The middle of a range that is not empty, and what is left of it.
    middle :
        (l above : ℕ)
        → l < above
        → (l ≤ l + (above - 1 - l) / 2) × (l + (above - 1 - l) / 2 < above)
    middle l above h = omega arith

    equal_at :
        (i j : ℕ) (y z : A) → i ≡ j → get_elem? xs i ≡ some y → get_elem? xs j ≡ some z → y ≡ z
    equal_at i j y z e f g = let h = ap (get_elem? xs) e in cc

    go_right :
        (l above mid : ℕ) (y : A)
        → Between l above
        → mid < above
        → get_elem? xs mid ≡ some y
        → less y x ≡ true
        → Between (mid + 1) above
    go_right l above mid y (low, high, before, after) m at is_less = (
      omega arith,
      high,
      λ i z h found. elim (ltb-cases i mid) [
        | inl earlier ↦ laws.less_trans z y x (ascending i mid z y earlier found at) is_less
        | inr there ↦ rw (equal_at i mid z y (omega arith) found at) is_less
      ],
      after,
    )

    go_left :
        (l above mid : ℕ) (y : A)
        → Between l above
        → l ≤ mid
        → mid < above
        → get_elem? xs mid ≡ some y
        → less x y ≡ true
        → Between l mid
    go_left l above mid y (low, high, before, after) m n at is_greater = (
      m,
      omega arith,
      before,
      λ i z h found. elim (ltb-cases mid i) [
        | inl later ↦ laws.less_trans x y z is_greater (ascending mid i y z later at found)
        | inr there ↦ rw (equal_at i mid z y (omega arith) found at) is_greater
      ],
    )

    below_none : (i : ℕ) (z : A) → get_elem? xs i ≡ some z → length xs ≤ i → ⊥
    below_none i z found h = let above_all = get_elem?-above xs i h in cc

    -- How the search ends.
    abbrev pub Finds : M A (Option ℕ × ℕ) → Type 0
    Finds run = (r : Option ℕ) × (order : ℕ) × (run s ≡ ok (r, order) s) × Found xs x r order

    Finds-eq : (run run' : M A (Option ℕ × ℕ)) → run s ≡ run' s → Finds run' → Finds run
    Finds-eq run run' eq found = (found.0, found.1, eq ∙ found.2, found.3)

    search_loop-Finds :
        (fuel l above : ℕ)
        → Between l above
        → above < fuel + l
        → Finds (search_loop compare_items fuel x l above)
    unfolding search_loop
    search_loop-Finds zero l above between enough = absurd (omega (arith, between.0))
    search_loop-Finds (suc fuel) l above between enough = elim (Bool-cases (ltb l above)) [
      | inr done ↦
          let (low, high, before, after) = between in
          (
            none,
            l,
            rw done refl,
            (omega arith, before, λ i z h found. after i z (ground arith) found),
          )
      | inl open_range ↦
          let mid = l + (above - 1 - l) / 2 in
          let (m, n) = middle l above (ground arith) in
          let (y, at) = get_elem?-below xs mid (omega (arith, between.1)) in
          let reads : item_at mid s ≡ ok y s = item_at_lem s mid y (represents.each mid ∙ at) in
          elim (Bool-cases (same y x)) [
            | inl equal ↦ (
              some mid,
              mid,
              rw open_range (binds (item_at mid) _ s s y reads ∙ rw equal refl),
              (refl, y, at, equal),
            )
            | inr differs ↦ elim (Bool-cases (less y x)) [
              | inl is_less ↦
                  Finds-eq (search_loop compare_items (suc fuel) x l above)
                    (search_loop compare_items fuel x (mid + 1) above)
                    (rw open_range
                      (binds (item_at mid) _ s s y reads ∙ rw differs (rw is_less refl)))
                    (search_loop-Finds fuel (mid + 1) above
                      (go_right l above mid y between n at is_less) (omega arith))
              | inr is_not ↦
                  Finds-eq (search_loop compare_items (suc fuel) x l above)
                    (search_loop compare_items fuel x l mid)
                    (rw open_range
                      (binds (item_at mid) _ s s y reads ∙ rw differs (rw is_not refl)))
                    (search_loop-Finds fuel l mid
                      (go_left l above mid y between m n at (laws.greater-less y x is_not differs))
                      (omega arith))
            ]
          ]
    ]

    -- The binary search of a sorted vector. For items in strictly ascending order by a comparison that is
    -- a strict order: the search returns and changes nothing. If it gives an index, the item
    -- there is the same as the one asked for; if not, the order is the one place where it belongs:
    -- all items before it are less, and all from it on are greater.
    pub index_order_of-Found : Finds (index_order_of compare_items x)
    unfolding index_order_of
    index_order_of-Found = elim (Bool-cases (s.count == 0)) [
      | inl empty ↦
          let size = represents.size in
          (
            none,
            0,
            rw empty refl,
            (
              omega arith,
              λ i z h found. absurd (omega arith),
              λ i z h found. absurd (below_none i z found (ground arith)),
            ),
          )
      | inr items_there ↦
          Finds-eq (index_order_of compare_items x)
            (search_loop compare_items (suc s.count) x 0 s.count) (rw items_there refl)
            (search_loop-Finds (suc s.count) 0 s.count
              (
                omega arith,
                omega (arith, represents.size),
                λ i z h found. absurd (omega arith),
                λ i z h found. absurd (below_none i z found (omega (arith, represents.size))),
              )
              (omega arith))
    ]
