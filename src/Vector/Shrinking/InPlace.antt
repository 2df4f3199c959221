-- ===== src/Vector/Shrinking/InPlace.antt =====
-- `_shrink` of libutils/VectorImpl.cpp in the same buffer, and as a whole.
use android_native_mac_ports.Base.{
  ℕ, ◌+◌, ◌-◌, ◌/◌, ◌≤◌, ◌<◌, Bool, true, false, not, ◌&&◌, some, List, ◌==◌, if◌then◌else◌, update,
  ◌≡◌, refl, ap, ◌∙◌, arith, inl, inr, Bool-cases, ltb,
}
use android_native_mac_ports.Vector.Memory.{
  Memory, moved, cleared, destroy_type, move_backward_type,
}
use android_native_mac_ports.Vector.Memory.Runs.{Objects, destroy_type_lem}
use android_native_mac_ports.Vector.Memory.Moves.{move_backward_type_lem}
use android_native_mac_ports.Vector.Heap.{
  Setup, Block, State, ok, M, pure, ◌>>=◌, ◌>>◌, choose, when,
}
use android_native_mac_ports.Vector.Operations.{Handle}
use android_native_mac_ports.Vector.Storage.{
  capacity, shrink, min_capacity, set_count, shrink_storage, shrink_in_place, edit_array_impl,
  own_buffer, do_move_backward, do_destroy, is_some,
}
use android_native_mac_ports.Vector.Validity.{here, items, overwritten, Valid, Holds-at}
use android_native_mac_ports.Vector.Steps.{
  binds, then_runs, same_heap, on_cells_lem, edit_array_impl_lem,
}
use android_native_mac_ports.Vector.Growing.Gap.{
  own_buffer_lem, Prepared, capacity_lem, Edited-Prepared, Edited-items,
}
use android_native_mac_ports.Vector.Shrinking.Branches.{
  from_tail, IsClosed, Closes, shrink_storage-Closes,
}

module _ {A : Type 0} (e : Setup A) (given : (bytes q : ℕ) → e.malloc_gives bytes q ≡ true)
    (sized : 0 < e.item_size) (s : State A) (rest : List Handle) (valid : Valid e s rest) (p : ℕ)
    (b : Block A) (storage : s.storage ≡ some p) (at : s.block p ≡ some b) (place amount : ℕ)
    (low : place + amount ≤ s.count) (some_items : 0 < amount) where
  -- The objects after the run is destroyed, and after the items behind it have moved.
  abbrev destroyed : Memory A → Memory A
  destroyed m = if e.traits.has_trivial_dtor then m else cleared place amount m

  abbrev shifted : Memory A → Memory A
  shifted m =
      if not (place == s.count - amount)
      then moved e.traits place (place + amount) (s.count - amount - place) (destroyed m)
      else destroyed m

  shifted-IsClosed :
      (m : Memory A)
      → ((i : ℕ) → i < s.count → m i ≡ items s i)
      → IsClosed e given sized s rest valid p b storage at place amount low some_items (shifted m)
  shifted-IsClosed m same = record {
    before = λ i h. ground (arith, same i);
    after = λ i h k. ground (arith, same (i + amount), ap m (from_tail place amount i h));
  }

  destroyed-Objects :
      (m : Memory A)
      → Objects 0 s.count m
      → Objects (place + amount) (s.count - amount - place) (destroyed m)
  destroyed-Objects m objects i h k =
      let (x, eq) = objects i (omega arith) (omega arith) in (x, ground arith)

  in_place_runs :
      (base : State A) (q : ℕ) (c : Block A)
      → base.storage ≡ some q
      → base.block q ≡ some c
      → s.count ≤ c.size / e.item_size
      → Objects 0 s.count c.cells
      → (own_buffer >>= λ r.
            do_destroy e r place amount
            >> when
                (not (place == s.count - amount))
                (do_move_backward e r place (place + amount) (s.count - amount - place))
            >> pure true)
          base
        ≡ ok true (record base {
          block = update base.block q (some (record c { cells = shifted c.cells }));
        })
  in_place_runs base q c stored there room objects =
      let c1 : Block A = record c { cells = destroyed c.cells } in
      let s1 = record base { block = update base.block q (some c1) } in
      let end = record base {
        block = update base.block q (some (record c { cells = shifted c.cells }));
      } in
      binds own_buffer _ base base q (own_buffer_lem base q stored)
      ∙ then_runs _ _ base s1 (
          on_cells_lem e q (place + amount) (destroy_type e.traits place amount) base c
            (destroyed c.cells) there (omega (arith, room))
            (destroy_type_lem e.traits place amount c.cells
              λ i h k. objects i (omega arith) (omega arith)))
      ∙ then_runs _ _ s1 end (elim (Bool-cases (place == s.count - amount)) [
        | inl at_end ↦ rw at_end refl
        | inr middle ↦ rw middle (
            on_cells_lem e q (place + amount + (s.count - amount - place))
              (move_backward_type e.traits place (place + amount) (s.count - amount - place)) s1 c1
              (moved e.traits place (place + amount) (s.count - amount - place) (destroyed c.cells))
              (ground arith) (omega (arith, room))
              (move_backward_type_lem e.traits place (place + amount) (s.count - amount - place)
                (destroyed c.cells) (omega arith) (destroyed-Objects c.cells objects))
            ∙ same_heap tt base _ _ λ r. ground arith)
      ])

  shrink_in_place-Closes :
      Closes e given sized s rest valid p b storage at place amount low some_items
        (shrink_in_place e place amount)
  unfolding shrink_in_place
  shrink_in_place-Closes =
      let (base, q, c, ran, edited) = edit_array_impl_lem e s rest valid p b storage at given in
      let (room, objects) =
        Holds-at e base.block (here base) q c edited.valid.own edited.storage edited.at in
      let same = Edited-items e s rest valid base p q b c storage at edited in
      let room' : s.count ≤ c.size / e.item_size = omega (arith, room, edited.count) in
      (
        record base { block = update base.block q (some (record c { cells = shifted c.cells })) },
        base,
        q,
        c,
        shifted c.cells,
        binds (edit_array_impl e) _ s base (some q) ran
            ∙ in_place_runs base q c edited.storage edited.at room'
                (λ i h k. objects i h (omega (arith, edited.count))),
        Edited-Prepared e s rest valid base q b c (shifted c.cells) (s.count - amount) edited
            (omega (arith, room')),
        shifted-IsClosed c.cells same,
      )

  abbrev pub GapClosed : M A (Unit {0}) → Type 0
  GapClosed run =
      (base : State A) × (q : ℕ) × (c : Block A) × (m : Memory A) × (run s
        ≡ ok tt (overwritten base q c m (s.count - amount)))
      × Prepared e s base (overwritten base q c m (s.count - amount)) rest q c m (s.count - amount)
      × IsClosed e given sized s rest valid p b storage at place amount low some_items m

  -- The end of `_shrink`, behind either branch.
  recount : Bool → M A (Unit {0})
  recount shrunk = when shrunk (set_count (s.count - amount))

  finish :
      (run : M A Bool)
      → shrink e place amount s ≡ (run >>= recount) s
      → Closes e given sized s rest valid p b storage at place amount low some_items run
      → GapClosed (shrink e place amount)
  unfolding recount
  finish run start (after, base, q, c, m, ran, prepared, closed) = (
    base,
    q,
    c,
    m,
    start ∙ binds run recount s after true ran ∙ ap (λ t. ok tt t) prepared.result,
    record {
      result = refl;
      storage = prepared.storage;
      at = prepared.at;
      alone = prepared.alone;
      valid = prepared.valid;
      kept = prepared.kept;
      room = prepared.room;
    },
    closed,
  )

  abbrev unused : Bool
  unused =
      ltb (s.count - amount) (b.size / e.item_size / 2) && ltb min_capacity (b.size / e.item_size)

  -- `_shrink` up to its branch.
  shrink-branch :
      shrink e place amount s
      ≡ (choose unused (shrink_storage e place amount) (shrink_in_place e place amount) >>= recount)
          s
  unfolding shrink recount
  shrink-branch =
      let in_range : ltb s.count (place + amount) ≡ false = ground arith in
      let positive : ltb s.count amount ≡ false = ground arith in
      let stored : is_some s.storage ≡ true = ground arith in
      rw stored (
        then_runs _ _ s s (rw in_range refl)
        ∙ then_runs _ _ s s (rw positive refl)
        ∙ binds (capacity e) _ s s (b.size / e.item_size) (capacity_lem e s p b storage at))

  -- The vector has closed the gap: the items before `place` have their places, and the items behind the
  -- run are `amount` places further up front.
  pub shrink_lem : GapClosed (shrink e place amount)
  shrink_lem = elim (Bool-cases unused) [
    | inl much ↦ finish (shrink_storage e place amount) (shrink-branch ∙ rw much refl) (
        shrink_storage-Closes e given sized s rest valid p b storage at place amount low some_items
          (ground arith) (ground arith))
    | inr little ↦
        finish (shrink_in_place e place amount) (shrink-branch ∙ rw little refl)
          shrink_in_place-Closes
  ]
