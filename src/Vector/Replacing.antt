-- ===== src/Vector/Replacing.antt =====
-- `replaceAt` of libutils/VectorImpl.cpp.
use android_native_mac_ports.Base.{
  ℕ, ◌+◌, ◌/◌, ◌≤◌, ◌<◌, true, false, some, List, length, set, length-set, get_elem?-set,
  if◌then◌else◌, update, ltb, leb, ◌≡◌, refl, sym, ap, ◌∙◌, arith, inl, inr, Option-cases,
}
use android_native_mac_ports.Vector.Memory.{Memory, cleared, copied, destroy_type, copy_type}
use android_native_mac_ports.Vector.Memory.Runs.{destroy_type_lem, copy_type_lem}
use android_native_mac_ports.Vector.Heap.{Setup, Block, State, ok, pure, ◌>>=◌, ◌>>◌}
use android_native_mac_ports.Vector.Operations.{Handle, at, item, replace_at}
use android_native_mac_ports.Vector.Storage.{
  capacity, edit_item_location, edit_array_impl, own_buffer, do_destroy, do_copy_array,
}
use android_native_mac_ports.Vector.Validity.{here, overwritten, Valid, Holds-at}
use android_native_mac_ports.Vector.Steps.{
  binds, then_runs, same_heap, on_cells_lem, edit_array_impl_lem,
}
use android_native_mac_ports.Vector.Growing.Gap.{
  own_buffer_lem, capacity_lem, Edited-Prepared, Edited-items,
}
use android_native_mac_ports.Vector.Contents.{Represents, Settled, settles-at}

only_one : (index i : ℕ) → index ≤ i → i < index + 1 → i ≡ index
only_one index i h k = omega arith

module _ {A : Type 0} (e : Setup A) (given : (bytes q : ℕ) → e.malloc_gives bytes q ≡ true)
    (s : State A) (rest : List Handle) (valid : Valid e s rest) (xs : List A)
    (represents : Represents s xs) (x : A) (index : ℕ) (low : index < length xs) where
  -- The objects after the old item is destroyed, and after the new one is copied.
  abbrev emptied : Memory A → Memory A
  emptied m = if e.traits.has_trivial_dtor then m else cleared index 1 m

  abbrev replaced : Memory A → Memory A
  replaced m = copied index 0 1 (λ _. some x) (emptied m)

  locates :
      (p : ℕ) (b : Block A) (base : State A) (q : ℕ)
      → s.storage ≡ some p
      → s.block p ≡ some b
      → index < b.size / e.item_size
      → edit_array_impl e s ≡ ok (some q) base
      → edit_item_location e index s ≡ ok (some index) base
  unfolding edit_item_location
  locates p b base q storage there room ran =
      let inside_it : ltb index (b.size / e.item_size) ≡ true = ground arith in
      binds (capacity e) _ s s (b.size / e.item_size) (capacity_lem e s p b storage there)
      ∙ then_runs _ _ s s (rw inside_it refl)
      ∙ rw inside_it (binds (edit_array_impl e) _ s base (some q) ran)

  writes :
      (base : State A) (q : ℕ) (c : Block A)
      → base.storage ≡ some q
      → base.block q ≡ some c
      → index < c.size / e.item_size
      → (y : A) → c.cells index ≡ some y
      → (own_buffer >>= λ p.
            (do_destroy e p index 1 >> do_copy_array e p index (λ _. some x) 1) >> pure (at index))
          base
        ≡ ok (at index) (record base {
          block = update base.block q (some (record c { cells = replaced c.cells }));
        })
  writes base q c stored there room y old =
      let c1 : Block A = record c { cells = emptied c.cells } in
      let s1 : State A = record base { block = update base.block q (some c1) } in
      let c2 : Block A = record c { cells = replaced c.cells } in
      let s2 : State A = record base { block = update base.block q (some c2) } in
      binds own_buffer _ base base q (own_buffer_lem base q stored)
      ∙ then_runs (do_destroy e q index 1 >> do_copy_array e q index (λ _. some x) 1)
          (pure (at index)) base s2
          (then_runs (do_destroy e q index 1) _ base s1 (
              on_cells_lem e q (index + 1) (destroy_type e.traits index 1) base c (emptied c.cells)
                there (omega (arith, room))
                (destroy_type_lem e.traits index 1 c.cells
                  λ i h k. (y, ap c.cells (only_one index i h k) ∙ old)))
            ∙ on_cells_lem e q (index + 1) (copy_type e.traits index 0 1 (λ _. some x)) s1 c1
                (replaced c.cells) (ground arith) (omega (arith, room))
                (copy_type_lem e.traits index 0 1 (λ _. some x) (emptied c.cells)
                  λ i h k. (x, refl))
            ∙ same_heap tt base _ _ λ r. ground arith)

  -- replaceAt refines the replacement of one element of a list. For a vector with the items `xs` among
  -- vectors that may share its buffer, an index below its size and an item that is not
  -- in its storage, where the allocator has memory: the call returns the index, and the vector has
  -- the items of `xs` with the new one at the index; every buffer counts its owners, and no other vector
  -- has changed.
  pub replace_at-Settled :
      (s' : State A) × (replace_at e (item x) index s ≡ ok (at index) s')
      × Settled e s s' rest (set xs index x)
  unfolding replace_at
  replace_at-Settled = elim (Option-cases s.storage) [
    | inl eq ↦ absurd (omega (arith, valid.own.empty eq, represents.size))
    | inr (p, eq) ↦
        let (b, there, room, objects) = valid.own.buffer p eq in
        let (base, q, c, ran, edited) = edit_array_impl_lem e s rest valid p b eq there given in
        let (room', objects') =
          Holds-at e base.block (here base) q c edited.valid.own edited.storage edited.at in
        let same = Edited-items e s rest valid base p q b c eq there edited in
        let (y, old) =
          objects' index (omega arith) (omega (arith, edited.count, represents.size)) in
        let in_range : ltb index s.count ≡ true = let size = represents.size in ground arith in
        let not_past : leb s.count index ≡ false = ground arith in
        let total : base.count ≡ length (set xs index x) =
          edited.count ∙ represents.size ∙ sym (length-set xs index x) in
        (
          record base {
            block = update base.block q (some (record c { cells = replaced c.cells }));
          },
          then_runs _ _ s s (rw in_range refl)
              ∙ rw not_past (
                  binds (edit_item_location e index) _ s base (some index)
                    (locates p b base q eq there (omega (arith, room, represents.size)) ran)
                  ∙ writes base q c edited.storage edited.at
                      (omega (arith, room', edited.count, represents.size)) y old),
          settles-at e s base (overwritten base q c (replaced c.cells) base.count) rest q c
              (replaced c.cells) (replaced c.cells) (set xs index x) base.count valid total
              (Edited-Prepared e s rest valid base q b c (replaced c.cells) base.count edited room')
              λ i h. ground (
                arith,
                get_elem?-set xs index x i low,
                same i,
                represents.each i,
                length-set xs index x,
                represents.size,
              ),
        )
  ]
