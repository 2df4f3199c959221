-- ===== src/Vector/Insertion/Nothing.antt =====
-- What `insertArrayAt` of libutils/VectorImpl.cpp does to the items behind the index when it is given no
-- items.
use android_native_mac_ports.Base.{
  ℕ, ◌+◌, ◌-◌, ◌/◌, ◌^◌, ◌≤◌, ◌<◌, true, false, none, some, List, length, ◌==◌, ltb, leb, ◌≡◌, refl,
  ap, ◌∙◌, arith, inl, inr, Option-cases,
}
use android_native_mac_ports.Vector.Memory.{
  Memory, cleared, use_trivial_move, move_forward_type, copy_type,
}
use android_native_mac_ports.Vector.Memory.Runs.{Objects, copy_type_lem}
use android_native_mac_ports.Vector.Memory.Moves.{same_place_lem}
use android_native_mac_ports.Vector.Heap.{Setup, Block, State, ok}
use android_native_mac_ports.Vector.Operations.{Handle, at, insert_array_at}
use android_native_mac_ports.Vector.Storage.{
  capacity, edit_array_impl, own_buffer, grow, grow_in_place,
}
use android_native_mac_ports.Vector.Validity.{here, items, content-at, overwritten, Valid, Holds-at}
use android_native_mac_ports.Vector.Sizes.{room_small}
use android_native_mac_ports.Vector.Steps.{
  binds, then_runs, on_cells_lem, Edited, edit_array_impl_lem, copy_nothing,
}
use android_native_mac_ports.Vector.Growing.Gap.{own_buffer_lem, capacity_lem, item_location_lem}
use android_native_mac_ports.Vector.Contents.{Represents, fills}

module _ {A : Type 0} (e : Setup A) (given : (bytes q : ℕ) → e.malloc_gives bytes q ≡ true)
    (s : State A) (rest : List Handle) (valid : Valid e s rest) (xs : List A)
    (represents : Represents s xs) (index : ℕ) (low : index < length xs)
    (moves : use_trivial_move e.traits ≡ false) (destroys : e.traits.has_trivial_dtor ≡ false) where
  -- The objects of a memory without those from the index on.
  abbrev emptied : Memory A → Memory A
  emptied m = cleared index (s.count - index) m

  moves_nothing :
      (m : Memory A)
      → Objects 0 s.count m
      → move_forward_type e.traits (index + 0) index (s.count - index) m ≡ some (emptied m)
  moves_nothing m objects =
      let size = represents.size in
      let same : index + 0 ≡ index = omega arith in
      rw same (
        same_place_lem e.traits index (s.count - index) m moves destroys
          λ i h k. objects i (omega arith) (omega arith))

  module _ (p : ℕ) (b : Block A) (storage : s.storage ≡ some p) (there : s.block p ≡ some b)
      (base : State A) (q : ℕ) (c : Block A) (ran : edit_array_impl e s ≡ ok (some q) base)
      (edited : Edited e s base rest q b c) where
    abbrev end : State A
    end = overwritten base q c (emptied c.cells) (s.count + 0)

    own_objects : (s.count ≤ c.size / e.item_size) × Objects 0 s.count c.cells
    own_objects =
        let (room, objects) =
          Holds-at e base.block (here base) q c edited.valid.own edited.storage edited.at in
        let counts = edited.count in (omega arith, λ i h k. objects i h (omega arith))

    in_place : grow_in_place e index 0 s ≡ ok true (record base { block = end.block })
    unfolding grow_in_place
    in_place =
        let size = represents.size in
        let (room, objects) = own_objects in
        let middle : (index == s.count) ≡ false = ground arith in
        binds (edit_array_impl e) _ s base (some q) ran
        ∙ then_runs _ _ base (record base { block = end.block })
            (rw middle (
              binds own_buffer _ base base q (own_buffer_lem base q edited.storage)
              ∙ on_cells_lem e q (index + 0 + (s.count - index))
                  (move_forward_type e.traits (index + 0) index (s.count - index)) base c
                  (emptied c.cells) edited.at (omega arith) (moves_nothing c.cells objects)))

    grows : grow e index 0 s ≡ ok (some index) end
    unfolding grow
    grows =
        let size = represents.size in
        let (room_b, objects_b) = Holds-at e s.block (here s) p b valid.own storage there in
        let (room, objects) = own_objects in
        let stored = edited.storage in
        let in_range : ltb s.count index ≡ false = ground arith in
        let no_overflow : leb (2 ^ 64) (s.count + 0) ≡ false =
          room_small b.size e.item_size (s.count + 0) (omega arith) (valid.sized p b there) in
        let wide : ltb (b.size / e.item_size) (s.count + 0) ≡ false = ground arith in
        then_runs _ _ s s (rw in_range refl)
        ∙ then_runs _ _ s s (rw no_overflow refl)
        ∙ binds (capacity e) _ s s (b.size / e.item_size) (capacity_lem e s p b storage there)
        ∙ rw wide (
            binds (grow_in_place e index 0) _ s (record base { block = end.block }) true in_place
            ∙ then_runs _ _ (record base { block = end.block }) end refl
            ∙ item_location_lem e end q (record c { cells = emptied c.cells }) index stored
                (ground arith) (omega arith))

    inserts_nothing : (array : Memory A) → insert_array_at e array index 0 s ≡ ok (at index) end
    unfolding insert_array_at
    inserts_nothing array =
        let size = represents.size in
        let (room, objects) = own_objects in
        let in_range : ltb s.count index ≡ false = ground arith in
        rw in_range (
          binds (grow e index 0) _ s end (some index) grows
          ∙ binds own_buffer _ end end q (own_buffer_lem end q edited.storage)
          ∙ then_runs _ _ end end (
              fills e base q c (emptied c.cells) (emptied c.cells) (s.count + 0) (index + 0)
                (copy_type e.traits index 0 0 array)
                (copy_type_lem e.traits index 0 0 array (emptied c.cells)
                    (λ i h k. absurd (omega arith))
                  ∙ ap some (copy_nothing e s rest valid index 0 array (emptied c.cells)))
                (omega arith)))

    destroyed_items : (i : ℕ) → index ≤ i → i < length xs → items end i ≡ none
    destroyed_items i h k =
        let stored = edited.storage in
        let size = represents.size in
        content-at e end.block (here end) i q (record c { cells = emptied c.cells }) stored
          (ground arith)
        ∙ ground arith

  -- insertArrayAt of no items destroys items. For a valid vector with the items `xs`, an index below its
  -- size and a type whose objects are moved by a copy and a destructor, where the allocator has memory:
  -- the call returns the index as a success, the size stays, and no object lives any more at
  -- any index from the given one on.
  pub insert_array_at-destroys :
      (array : Memory A)
      → (s' : State A) × (insert_array_at e array index 0 s ≡ ok (at index) s')
        × (s'.count ≡ length xs)
        × ((i : ℕ) → index ≤ i → i < length xs → items s' i ≡ none)
  insert_array_at-destroys array = elim (Option-cases s.storage) [
    | inl eq ↦ absurd (omega (arith, valid.own.empty eq, represents.size))
    | inr (p, eq) ↦
        let (b, there, room, objects) = valid.own.buffer p eq in
        let (base, q, c, ran, edited) = edit_array_impl_lem e s rest valid p b eq there given in
        (
          overwritten base q c (emptied c.cells) (s.count + 0),
          inserts_nothing p b eq there base q c ran edited array,
          omega (arith, represents.size),
          destroyed_items p b eq there base q c ran edited,
        )
  ]
