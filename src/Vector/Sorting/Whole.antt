-- ===== src/Vector/Sorting/Whole.antt =====
-- `VectorImpl::sort` of libutils/VectorImpl.cpp from its start: the vector keeps its buffer, which others may
-- share, until the first item that is out of order.
use android_native_mac_ports.Base.Int.{ℤ}
use android_native_mac_ports.Base.{
  ℕ, zero, suc, ◌+◌, ◌-◌, ◌/◌, ◌≤◌, ◌<◌, true, false, none, some, List, length, get_elem?,
  get_elem?-below, ltb, ◌≡◌, refl, sym, ap, ◌∙◌, fun_ext, subst, arith, inl, inr, Bool-cases,
  ltb-cases, Option-cases,
}
use android_native_mac_ports.Vector.Heap.{Setup, Block, State, ok, M, ◌>>=◌, get_block}
use android_native_mac_ports.Vector.Operations.{Handle, Answer, at}
use android_native_mac_ports.Vector.Storage.{edit_array_impl}
use android_native_mac_ports.Vector.Validity.{here, overwritten, Valid, Holds-at, Kept-self}
use android_native_mac_ports.Vector.Steps.{binds, Edited, edit_array_impl_lem, items-at}
use android_native_mac_ports.Vector.Growing.Gap.{Edited-Prepared, Edited-items}
use android_native_mac_ports.Vector.Contents.{Represents, Settled, settles-at, Kept-Untouched}
use android_native_mac_ports.Vector.Sorted.{object_at, item_at}
use android_native_mac_ports.Vector.Sorting.{greater, prepare_temp, place_item, sort_loop, sort}
use android_native_mac_ports.Vector.Sorting.Stable.{Rearranged, Rearranged-self, Rearranged-trans}
use android_native_mac_ports.Vector.Sorting.Swaps.{IsOrder, IsSortedTo, next-IsSortedTo}
use android_native_mac_ports.Vector.Sorting.Rounds.{
  pred_suc, goes_on, place_item-Places, sort_loop-Sorts,
}

module _ {A : Type 0} (compare_items : A → A → ℤ) (laws : IsOrder compare_items) (e : Setup A)
    (given : (bytes q : ℕ) → e.malloc_gives bytes q ≡ true) (s : State A) (rest : List Handle)
    (valid : Valid e s rest) (xs : List A) (represents : Represents s xs) where
  -- How it ends: the vector has the old items in order, and those that are the same in their old order.
  abbrev pub Orders : M A Answer → Type 0
  Orders run =
      (ys : List A) × (s' : State A) × (run s ≡ ok (at 0) s')
      × Settled e s s' rest ys
      × Rearranged compare_items ys xs
      × IsSortedTo compare_items (length xs - 1) ys

  self-Settled : Settled e s s rest xs
  self-Settled = record {
    valid = valid;
    represents = represents;
    untouched = Kept-Untouched e s s rest valid.held (Kept-self e s.block rest valid.held);
  }

  module _ (p : ℕ) (b : Block A) (storage : s.storage ≡ some p) (there : s.block p ≡ some b) where
    item_lem : (i : ℕ) (x : A) → get_elem? xs i ≡ some x → i < length xs → item_at i s ≡ ok x s
    unfolding item_at object_at ◌>>=◌ get_block
    item_lem i x at_x low =
        let in_buffer = items-at e s rest valid p b i storage there in
        let size = represents.size in
        let cell : b.cells i ≡ some x = ground (arith, in_buffer, represents.each i) in ground arith

    -- The buffer is made the vector's own, and `temp` is allocated.
    prepare_temp-none :
        (base : State A) (q : ℕ)
        → edit_array_impl e s ≡ ok (some q) base
        → prepare_temp compare_items e none s ≡ ok (some (λ _. none)) base
    unfolding prepare_temp
    prepare_temp-none base q ran =
        binds (edit_array_impl e) _ s base (some q) ran ∙ rw (given e.item_size base.fresh) refl

    -- Before the first round that moves an item, the objects in the vector's own buffer are the list.
    own_state :
        (base : State A) (q : ℕ) (c : Block A)
        → Edited e s base rest q b c
        → base ≡ overwritten base q c c.cells (length xs)
    own_state base q c edited =
        let at = edited.at in
        ap (λ n. record base { count = n }) (edited.count ∙ represents.size)
        ∙ ap (λ blk. record base { count = length xs; block = blk }) (fun_ext λ r. ground arith)

    edits-Orders :
        (rounds k : ℕ) (c x : A)
        → suc k + suc rounds ≡ length xs
        → get_elem? xs k ≡ some c
        → get_elem? xs (suc k) ≡ some x
        → greater compare_items c x ≡ true
        → IsSortedTo compare_items k xs
        → Orders (prepare_temp compare_items e none >>= goes_on compare_items e rounds (suc k))
    edits-Orders rounds k c x total at_c at_x more sorted =
        let size = represents.size in
        let (base, q, own, ran, edited) =
          edit_array_impl_lem e s rest valid p b storage there given in
        let (room, objects) =
          Holds-at e base.block (here base) q own edited.valid.own edited.storage edited.at in
        let room_n : length xs ≤ own.size / e.item_size = omega (arith, room, edited.count) in
        let agrees : (i : ℕ) → i < length xs → own.cells i ≡ get_elem? xs i = λ i h.
          Edited-items e s rest valid base p q b own storage there edited i (omega arith)
          ∙ represents.each i in
        let (temp, t, m1, ys1, placed, held, agree1, perm1, sorted1) =
          place_item-Places compare_items laws e base q own (length xs) edited.storage room_n k
            own.cells (λ _. none) xs c x (refl, agrees) (omega arith) at_c at_x more sorted in
        let (m2, ys2, ran2, (size2, agrees2), perm2, sorted2) =
          sort_loop-Sorts compare_items laws e base q own (length xs) edited.storage room_n rounds
            (suc k) m1 temp ys1 t agree1 held (omega arith) sorted1 in
        (
          ys2,
          overwritten base q own m2 (length xs),
          binds (prepare_temp compare_items e none) _ s base (some (λ _. none))
                (prepare_temp-none base q ran)
              ∙ ap (goes_on compare_items e rounds (suc k) (some (λ _. none)))
                  (own_state base q own edited)
              ∙ binds (place_item compare_items e (suc k) (λ _. none)) _
                  (overwritten base q own own.cells (length xs))
                  (overwritten base q own m1 (length xs)) temp placed
              ∙ ran2,
          settles-at e s base (overwritten base q own m2 (length xs)) rest q own m2 m2 ys2
              (length xs) valid (sym size2)
              (Edited-Prepared e s rest valid base q b own m2 (length xs) edited room_n)
              (λ i h. agrees2 i (omega arith)),
          Rearranged-trans compare_items ys2 ys1 xs perm2 perm1,
          sorted2,
        )

  sort_loop-Orders :
      (rounds k : ℕ)
      → suc k + rounds ≡ length xs
      → IsSortedTo compare_items k xs
      → Orders (sort_loop compare_items e rounds (suc k) none)
  unfolding sort_loop
  sort_loop-Orders zero k total sorted =
      let last : k ≡ length xs - 1 = omega arith in
      (
        xs,
        s,
        refl,
        self-Settled,
        Rearranged-self compare_items xs,
        subst (λ top. IsSortedTo compare_items top xs) last sorted,
      )
  sort_loop-Orders (suc rounds) k total sorted = elim (Option-cases s.storage) [
    | inl eq ↦ absurd (omega (arith, valid.own.empty eq, represents.size))
    | inr (p, eq) ↦
        let (b, there, room, objects) = valid.own.buffer p eq in
        let (c, at_c) = get_elem?-below xs k (omega arith) in
        let (x, at_x) = get_elem?-below xs (suc k) (omega arith) in
        let first : item_at (suc k - 1) s ≡ ok c s =
          rw (pred_suc k) (item_lem p b eq there k c at_c (omega arith)) in
        let second = item_lem p b eq there (suc k) x at_x (omega arith) in
        elim (Bool-cases (greater compare_items c x)) [
          | inl more ↦
              let (ys, s', ran, settled, perm, in_order) =
                edits-Orders p b eq there rounds k c x total at_c at_x more sorted in
              (
                ys,
                s',
                binds (item_at (suc k - 1)) _ s s c first
                    ∙ binds (item_at (suc k)) _ s s x second
                    ∙ rw more ran,
                settled,
                perm,
                in_order,
              )
          | inr enough ↦
              let (ys, s', ran, settled, perm, in_order) =
                sort_loop-Orders rounds (suc k) (omega arith) (
                  next-IsSortedTo compare_items laws k xs c x at_c at_x (omega arith) enough
                    sorted) in
              (
                ys,
                s',
                binds (item_at (suc k - 1)) _ s s c first
                    ∙ binds (item_at (suc k)) _ s s x second
                    ∙ rw enough ran,
                settled,
                perm,
                in_order,
              )
        ]
  ]

  -- sort sorts, and is stable. For a comparison of which of two items not both are greater, and for
  -- which not being greater is transitive, and a vector with the items `xs` among valid vectors that may
  -- share its buffer, where the allocator has memory: the call returns OK, and
  -- the vector has a permutation of `xs` in which no item is greater than one behind it.
  -- The items of any set in which none is greater than another stand in their old order. Every
  -- buffer counts its owners, and no other vector has changed.
  pub sort-Orders : Orders (sort compare_items e)
  unfolding sort
  sort-Orders = elim (ltb-cases 1 s.count) [
    | inl several ↦
        let size = represents.size in
        let (ys, s', ran, settled, perm, in_order) =
          sort_loop-Orders (s.count - 1) 0 (omega arith)
            (λ i j a b h low at_i at_j. absurd (omega arith)) in
        let tested : ltb 1 s.count ≡ true = ground arith in
        (ys, s', rw tested ran, settled, perm, in_order)
    | inr few ↦
        let size = represents.size in
        let tested : ltb 1 s.count ≡ false = ground arith in
        (
          xs,
          s,
          rw tested refl,
          self-Settled,
          Rearranged-self compare_items xs,
          λ i j a b h low at_i at_j. absurd (omega arith),
        )
  ]
