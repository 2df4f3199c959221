-- ===== src/Vector/Growing/InPlace.antt =====
-- `_grow` of libutils/VectorImpl.cpp as a whole, where the allocator has memory.
use android_native_mac_ports.Base.{
  ℕ, ◌+◌, ◌-◌, ◌/◌, ◌^◌, ◌≤◌, ◌<◌, Bool, true, false, Option, none, some, List, ◌==◌, update, ◌≡◌,
  refl, ap, ◌∙◌, fun_ext, arith, inl, inr, Bool-cases, Option-cases, ltb, leb,
}
use android_native_mac_ports.Vector.Memory.{Memory, moved, move_forward_type}
use android_native_mac_ports.Vector.Memory.Moves.{move_forward_type_lem}
use android_native_mac_ports.Vector.Heap.{
  Setup, Block, State, ok, M, pure, ◌>>=◌, ◌>>◌, fits, choose,
}
use android_native_mac_ports.Vector.Operations.{Handle}
use android_native_mac_ports.Vector.Storage.{
  capacity, item_location, grow, set_count, grow_storage, grow_in_place, edit_array_impl,
  own_buffer,
}
use android_native_mac_ports.Vector.Validity.{here, overwritten, Valid, Holds-at}
use android_native_mac_ports.Vector.Steps.{
  binds, then_runs, on_cells_lem, Edited, edit_array_impl_lem,
}
use android_native_mac_ports.Vector.Sizes.{from_gap}
use android_native_mac_ports.Vector.Growing.Gap.{
  own_buffer_lem, Prepared, capacity_lem, capacity-none, item_location_lem, Edited-Prepared,
  Edited-items,
}
use android_native_mac_ports.Vector.Growing.Branches.{
  IsGapped, below_overflow, new_bytes, Makes, grow_storage-Makes,
}

module _ {A : Type 0} (e : Setup A) (given : (bytes q : ℕ) → e.malloc_gives bytes q ≡ true)
    (sized : 0 < e.item_size) (s : State A) (rest : List Handle) (valid : Valid e s rest)
    (place amount : ℕ) (low : place ≤ s.count) (some_items : 0 < amount)
    (small : fits (new_bytes e given sized s rest valid place amount low some_items) ≡ true) where
  -- A state with another count and the same objects.
  recounted :
      (base : State A) (q : ℕ) (b b' : Block A)
      → Edited e s base rest q b b'
      → s.count + amount ≤ b'.size / e.item_size
      → Prepared e s base
          (record base { count = s.count + amount })
          rest
          q
          b'
          b'.cells
          (s.count + amount)
  recounted base q b b' edited room =
      let prepared =
        Edited-Prepared e s rest valid base q b b' b'.cells (s.count + amount) edited room in
      let there = edited.at in
      record {
        result =
            ap (λ blk. record base { count = s.count + amount; block = blk })
              (fun_ext λ r. ground arith);
        storage = prepared.storage;
        at = prepared.at;
        alone = prepared.alone;
        valid = prepared.valid;
        kept = prepared.kept;
        room = prepared.room;
      }

  grow_in_place-Makes :
      (p : ℕ) (b : Block A)
      → s.storage ≡ some p
      → s.block p ≡ some b
      → s.count + amount ≤ b.size / e.item_size
      → Makes e given sized s rest valid place amount low some_items small
          (grow_in_place e place amount)
  unfolding grow_in_place
  grow_in_place-Makes p b storage at enough =
      let (base, q, b', ran, edited) = edit_array_impl_lem e s rest valid p b storage at given in
      let (room, objects) =
        Holds-at e base.block (here base) q b' edited.valid.own edited.storage edited.at in
      let as_before = Edited-items e s rest valid base p q b b' storage at edited in
      let enough' : s.count + amount ≤ b'.size / e.item_size = rw edited.size enough in
      elim (Bool-cases (place == s.count)) [
        | inl end ↦ (
          base,
          base,
          q,
          b',
          b'.cells,
          binds (edit_array_impl e) _ s base (some q) ran ∙ then_runs _ _ base base (rw end refl),
          recounted base q b b' edited enough',
          record {
            before = λ i h. as_before i (omega (arith, low));
            after = λ i h k. absurd (ground arith);
          },
        )
        | inr middle ↦
            let m = moved e.traits (place + amount) place (s.count - place) b'.cells in
            let after = record base {
              block = update base.block q (some (record b' { cells = m }));
            } in
            (
              after,
              base,
              q,
              b',
              m,
              binds (edit_array_impl e) _ s base (some q) ran
                  ∙ then_runs _ _ base after (
                      rw middle (
                        binds own_buffer _ base base q (own_buffer_lem base q edited.storage)
                        ∙ on_cells_lem e q (place + amount + (s.count - place))
                            (move_forward_type e.traits (place + amount) place (s.count - place))
                            base b' m edited.at (omega (arith, enough'))
                            (move_forward_type_lem e.traits (place + amount) place (s.count - place)
                              b'.cells (omega arith)
                              (λ i h k. objects i (omega arith) (omega (arith, edited.count)))))),
              Edited-Prepared e s rest valid base q b b' m (s.count + amount) edited enough',
              record {
                before = λ i h. ground (arith, as_before i);
                after =
                    λ i h k. ground (arith, as_before i, ap b'.cells (from_gap place amount i h));
              },
            )
      ]

  abbrev GapMade : M A (Option ℕ) → Type 0
  GapMade run =
      (base : State A) × (p : ℕ) × (b : Block A) × (m : Memory A) × (run s
        ≡ ok (some place) (overwritten base p b m (s.count + amount)))
      × Prepared e s base (overwritten base p b m (s.count + amount)) rest p b m (s.count + amount)
      × IsGapped e given sized s rest valid place amount low some_items m

  -- The end of `_grow`, behind either branch.
  set_and_locate : Bool → M A (Option ℕ)
  set_and_locate grown =
      choose grown (set_count (s.count + amount) >> item_location e place) (pure none)

  finish :
      (run : M A Bool)
      → Makes e given sized s rest valid place amount low some_items small run
      → GapMade (run >>= set_and_locate)
  unfolding set_and_locate
  finish run (after, base, p, b, m, ran, prepared, gapped) =
      let end = overwritten base p b m (s.count + amount) in
      let stored = prepared.storage in
      (
        base,
        p,
        b,
        m,
        binds run set_and_locate s after true ran
            ∙ then_runs _ _ after (record after { count = s.count + amount }) refl
            ∙ ap (item_location e place) prepared.result
            ∙ item_location_lem e end p (record b { cells = m }) place stored (ground arith)
                (omega (arith, prepared.room)),
        record {
          result = refl;
          storage = prepared.storage;
          at = prepared.at;
          alone = prepared.alone;
          valid = prepared.valid;
          kept = prepared.kept;
          room = prepared.room;
        },
        gapped,
      )

  GapMade-eq : (run run' : M A (Option ℕ)) → run s ≡ run' s → GapMade run' → GapMade run
  GapMade-eq run run' eq (base, p, b, m, ran, prepared, gapped) =
      (base, p, b, m, eq ∙ ran, prepared, gapped)

  -- `_grow` up to its branch.
  grow-branch :
      (c : ℕ)
      → capacity e s ≡ ok c s
      → grow e place amount s
        ≡ (choose
                (ltb c (s.count + amount))
                (grow_storage e place amount)
                (grow_in_place e place amount)
              >>= set_and_locate)
            s
  unfolding grow set_and_locate
  grow-branch c cap =
      let (first, second, third) =
        below_overflow e given sized s rest valid place amount low some_items small in
      let in_range : ltb s.count place ≡ false = ground arith in
      let no_overflow : leb (2 ^ 64) (s.count + amount) ≡ false = ground (arith, first) in
      then_runs _ _ s s (rw in_range refl)
      ∙ then_runs _ _ s s (rw no_overflow refl)
      ∙ binds (capacity e) _ s s c cap

  -- The branch that the capacity `c` asks for makes the gap.
  branch_Makes :
      (c : ℕ)
      → (s.storage ≡ none → c ≡ 0)
      → ((p : ℕ) (b : Block A) → s.storage ≡ some p → s.block p ≡ some b → c ≡ b.size / e.item_size)
      → Makes e given sized s rest valid place amount low some_items small (
          choose
            (ltb c (s.count + amount))
            (grow_storage e place amount)
            (grow_in_place e place amount))
  branch_Makes c no_storage is_capacity = elim (Bool-cases (ltb c (s.count + amount))) [
    | inl tight ↦ rw tight (
        grow_storage-Makes e given sized s rest valid place amount low some_items small
          λ p b storage at. ground (arith, is_capacity p b storage at))
    | inr wide ↦ elim (Option-cases s.storage) [
      | inl eq ↦ absurd (ground (arith, no_storage eq))
      | inr (p, eq) ↦
          let (b, at, room, objects) = valid.own.buffer p eq in
          rw wide (grow_in_place-Makes p b eq at (ground (arith, is_capacity p b eq at)))
    ]
  ]

  capacity_cases :
      (c : ℕ) × (capacity e s ≡ ok c s)
      × (s.storage ≡ none → c ≡ 0)
      × ((p : ℕ) (b : Block A) → s.storage ≡ some p → s.block p ≡ some b → c ≡ b.size / e.item_size)
  capacity_cases = elim (Option-cases s.storage) [
    | inl eq ↦ (0, capacity-none e s eq, λ _. refl, λ p b storage at. cc)
    | inr (p, eq) ↦
        let (b, at, room, objects) = valid.own.buffer p eq in
        (
          b.size / e.item_size,
          capacity_lem e s p b eq at,
          λ storage. cc,
          λ q c storage at_q.
              let same : b ≡ c = cc in ap (λ (x : Block A). x.size / e.item_size) same,
        )
  ]

  -- The vector has a gap: `place` is the first of `amount` places in it, the items before `place` have
  -- their places, and the others are `amount` places further on.
  pub grow_lem : GapMade (grow e place amount)
  grow_lem =
      let (c, cap, no_storage, is_capacity) = capacity_cases in
      let branch =
        choose (ltb c (s.count + amount)) (grow_storage e place amount)
          (grow_in_place e place amount) in
      GapMade-eq (grow e place amount) (branch >>= set_and_locate) (grow-branch c cap)
        (finish branch (branch_Makes c no_storage is_capacity))
