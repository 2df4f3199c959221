-- ===== src/Vector/Sorted/Adding.antt =====
-- `SortedVectorImpl::add` and `remove` of libutils/VectorImpl.cpp keep the order.
use android_native_mac_ports.Base.{
  ℕ, ◌+◌, ◌-◌, ◌*◌, ◌≤◌, ◌<◌, true, Option, none, some, List, [], ◌∷◌, length, get_elem?, set,
  get_elem?-set, get_elem?-above, ◌==◌, ◌≡◌, refl, sym, ap, ◌∙◌, arith, ◌⊎◌, inl, inr, ltb-cases,
  Bool-cases,
}
use android_native_mac_ports.Base.Int.{ℤ}
use android_native_mac_ports.Vector.Heap.{Setup, State, M, ok, fits}
use android_native_mac_ports.Vector.Operations.{Handle, Answer, at, item, insert_at, replace_at}
use android_native_mac_ports.Vector.Storage.{grown_capacity}
use android_native_mac_ports.Vector.Validity.{Valid}
use android_native_mac_ports.Vector.Steps.{binds}
use android_native_mac_ports.Vector.Contents.{Represents, Settled, spliced, get_elem?-spliced}
use android_native_mac_ports.Vector.Insertion.Repeats.{insert_at-Settled}
use android_native_mac_ports.Vector.Replacing.{replace_at-Settled}
use android_native_mac_ports.Vector.Sorted.{index_order_of, sorted_add}
use android_native_mac_ports.Vector.Sorted.Search.{
  IsComparison, IsAscending, Found, index_order_of-Found,
}

in_bounds : {A : Type 0} (xs : List A) (i : ℕ) (x : A) → get_elem? xs i ≡ some x → i < length xs
in_bounds xs i x h = elim (ltb-cases i (length xs)) [
  | inl below ↦ below
  | inr above ↦ let none_there = get_elem?-above xs i above in absurd (cc)
]

module _ {A : Type 0} (xs : List A) (x : A) (order i : ℕ) (low : order ≤ length xs) where
  one-below : i < order → get_elem? (spliced order (x ∷ []) xs) i ≡ get_elem? xs i
  one-below h = ground (arith, get_elem?-spliced order (x ∷ []) xs i low)

  one-at : i ≡ order → get_elem? (spliced order (x ∷ []) xs) i ≡ some x
  one-at h =
      let first : i - order ≡ 0 = omega arith in
      ground (arith, get_elem?-spliced order (x ∷ []) xs i low, ap (get_elem? (x ∷ [])) first)

  one-above : order < i → get_elem? (spliced order (x ∷ []) xs) i ≡ get_elem? xs (i - 1)
  one-above h = ground (arith, get_elem?-spliced order (x ∷ []) xs i low)

module _ {A : Type 0} (compare_items : A → A → ℤ) (laws : IsComparison compare_items) where
  -- An item put in where it belongs keeps the order.
  spliced-IsAscending :
      (xs : List A) (x : A) (order : ℕ)
      → IsAscending compare_items xs
      → Found compare_items xs x none order
      → IsAscending compare_items (spliced order (x ∷ []) xs)
  spliced-IsAscending xs x order ascending (low, before, after) i j y z h at_i at_j =
      elim (ltb-cases j order) [
        | inl j_below ↦
            ascending i j y z h (sym (one-below xs x order i low (omega arith)) ∙ at_i)
              (sym (one-below xs x order j low j_below) ∙ at_j)
        | inr j_past ↦ elim (ltb-cases i order) [
          | inl i_below ↦
              let y_at = sym (one-below xs x order i low i_below) ∙ at_i in
              elim (ltb-cases order j) [
                | inl j_above ↦
                    ascending i (j - 1) y z (omega arith) y_at
                      (sym (one-above xs x order j low j_above) ∙ at_j)
                | inr j_at ↦
                    let x_is_z : x ≡ z = cc (one-at xs x order j low (omega arith)) in
                    rw (← x_is_z) (before i y i_below y_at)
              ]
          | inr i_past ↦
              let z_at = sym (one-above xs x order j low (omega arith)) ∙ at_j in
              elim (ltb-cases order i) [
                | inl i_above ↦
                    ascending (i - 1) (j - 1) y z (omega arith)
                      (sym (one-above xs x order i low i_above) ∙ at_i) z_at
                | inr i_at ↦
                    let x_is_y : x ≡ y = cc (one-at xs x order i low (omega arith)) in
                    rw (← x_is_y) (after (j - 1) z (omega arith) z_at)
              ]
        ]
      ]

  -- So does an item put in place of one that is the same.
  set-IsAscending :
      (xs : List A) (x : A) (index : ℕ)
      → IsAscending compare_items xs
      → Found compare_items xs x (some index) index
      → index < length xs
      → IsAscending compare_items (set xs index x)
  set-IsAscending xs x index ascending (_, old, at_index, equal) low i j y z h at_i at_j =
      let set_i = get_elem?-set xs index x i low in
      let set_j = get_elem?-set xs index x j low in
      elim (Bool-cases (index == i)) [
        | inl here ↦
            let x_is_y : x ≡ y = ground arith in
            let i_is : index ≡ i = ground arith in
            rw (← x_is_y) (
              laws.same-less x old z (laws.same_sym old x equal)
                (ascending index j old z (omega arith) at_index (ground arith)))
        | inr elsewhere ↦ elim (Bool-cases (index == j)) [
          | inl here ↦
              let x_is_z : x ≡ z = ground arith in
              rw (← x_is_z) (
                laws.less-same y old x
                  (ascending i index y old (ground arith) (ground arith) at_index) equal)
          | inr nowhere ↦ ascending i j y z h (ground arith) (ground arith)
        ]
      ]

  module _ (e : Setup A) (given : (bytes q : ℕ) → e.malloc_gives bytes q ≡ true)
      (sized : 0 < e.item_size) (s : State A) (rest : List Handle) (valid : Valid e s rest)
      (xs : List A) (represents : Represents s xs) (ascending : IsAscending compare_items xs)
      (x : A) where
    -- The list with the item: where none is the same, it is put in at `index`; else it replaces that one.
    abbrev pub Added : ℕ → List A → Type 0
    Added index ys =
        ((ys ≡ spliced index (x ∷ []) xs) × Found compare_items xs x none index)
        ⊎ ((ys ≡ set xs index x) × Found compare_items xs x (some index) index)

    abbrev pub Adds : M A Answer → Type 0
    Adds run =
        (index : ℕ) × (ys : List A) × (s' : State A) × (run s ≡ ok (at index) s')
        × Settled e s s' rest ys
        × IsAscending compare_items ys
        × Added index ys

    -- What `add` does with the answer of the search.
    put : Option ℕ × ℕ → M A Answer
    put r = elim r.0 [ none ↦ insert_at e (some x) (r.1) 1 | some i ↦ replace_at e (item x) i ]

    put-Adds :
        (r : Option ℕ) (order : ℕ)
        → Found compare_items xs x r order
        → fits (grown_capacity (s.count + 1) * e.item_size) ≡ true
        → Adds (put (r, order))
    unfolding put
    put-Adds none order found small =
        let (s', ran, settled) =
          insert_at-Settled e given sized s rest valid xs represents (some x) x order 1 refl found.0
            (omega arith) small in
        (
          order,
          spliced order (x ∷ []) xs,
          s',
          ran,
          settled,
          spliced-IsAscending xs x order ascending found,
          inl (refl, found),
        )
    put-Adds (some i) order (is_order, old, at_i, equal) small =
        let low = in_bounds xs i old at_i in
        let (s', ran, settled) = replace_at-Settled e given s rest valid xs represents x i low in
        (
          i,
          set xs i x,
          s',
          ran,
          settled,
          set-IsAscending xs x i ascending (refl, old, at_i, equal) low,
          inr (refl, (refl, old, at_i, equal)),
        )

    -- add keeps a sorted vector sorted and free of duplicates. For items in strictly ascending order by a
    -- comparison that is a strict order, among valid vectors that may share the buffer, where the
    -- allocator has memory and the size in bytes is allowed: the call returns an index,
    -- and the items are in strictly ascending order afterwards. If no item was the same, the new one
    -- is put in there, between the items that are less and those that are greater; if one was, the
    -- new one replaces it. Every buffer counts its owners, and no other vector has changed.
    pub sorted_add-Adds :
        fits (grown_capacity (s.count + 1) * e.item_size) ≡ true
        → Adds (sorted_add compare_items e x)
    unfolding sorted_add put
    sorted_add-Adds small =
        let (r, order, ran, found) =
          index_order_of-Found compare_items laws s xs represents ascending x in
        let (index, ys, s', put_ran, settled, sorted, added) = put-Adds r order found small in
        (
          index,
          ys,
          s',
          binds (index_order_of compare_items x) put s s (r, order) ran ∙ put_ran,
          settled,
          sorted,
          added,
        )
