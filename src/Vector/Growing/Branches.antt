-- ===== src/Vector/Growing/Branches.antt =====
-- The branches of `_grow` of libutils/VectorImpl.cpp, where the allocator has memory.
use android_native_mac_ports.Base.{
  ℕ, ◌+◌, ◌-◌, ◌*◌, ◌/◌, ◌^◌, ◌≤◌, ◌<◌, Bool, true, false, not, ◌&&◌, min, some, List, ◌==◌, ◌≡◌,
  refl, ap, ◌∙◌, arith, inl, inr, Bool-cases, Option-cases, leb,
}
use android_native_mac_ports.Vector.Memory.{Memory}
use android_native_mac_ports.Vector.Heap.{Setup, Block, State, ok, M, fits, choose, within}
use android_native_mac_ports.Vector.Operations.{Handle}
use android_native_mac_ports.Vector.Storage.{
  grown_capacity, grow_storage, is_some, plain, resize_storage, replace_storage,
}
use android_native_mac_ports.Vector.Validity.{here, items, switched, Valid, Holds-at}
use android_native_mac_ports.Vector.Steps.{
  then_runs, items-at, rebuilt, replace_storage_lem, resize_storage_lem,
}
use android_native_mac_ports.Vector.Sizes.{
  division_lem, product_le, from_zero, from_gap, min_room, sizes_differ, grown_capacity_le,
}
use android_native_mac_ports.Vector.Growing.Gap.{Prepared, switched-Prepared}

module _ {A : Type 0} (e : Setup A) (given : (bytes q : ℕ) → e.malloc_gives bytes q ≡ true)
    (sized : 0 < e.item_size) (s : State A) (rest : List Handle) (valid : Valid e s rest)
    (place amount : ℕ) (low : place ≤ s.count) (some_items : 0 < amount) where
  -- Around the gap the objects `m` are the vector's items.
  pub record IsGapped (m : Memory A) : Type 0 where
    pub before : (i : ℕ) → i < place → m i ≡ items s i
    pub after : (i : ℕ) → place ≤ i → i < s.count → m (i + amount) ≡ items s i

  abbrev pub new_bytes : ℕ
  new_bytes = grown_capacity (s.count + amount) * e.item_size

  module _ (small : fits new_bytes ≡ true) where
    room_there : s.count + amount ≤ new_bytes / e.item_size
    room_there =
        rw (division_lem (grown_capacity (s.count + amount)) e.item_size sized)
          (omega (arith, grown_capacity_le (s.count + amount)))

    -- None of the sizes overflows.
    pub below_overflow :
        (leb (2 ^ 64) (s.count + amount + (s.count + amount) / 2) ≡ false)
        × (leb (2 ^ 64) (s.count + amount + (s.count + amount) / 2 + 1) ≡ false)
        × (leb (2 ^ 64) new_bytes ≡ false)
    below_overflow =
        let a = grown_capacity_le (s.count + amount) in
        let b = product_le (grown_capacity (s.count + amount)) e.item_size sized in
        (ground arith, ground arith, ground arith)

    rebuilt-IsGapped :
        IsGapped (rebuilt s place (not (place == s.count)) (place + amount) place (s.count - place))
    rebuilt-IsGapped = record {
      before = λ i h. ground (arith, ap (items s) (from_zero i));
      after = λ i h k. ground (arith, ap (items s) (from_gap place amount i h));
    }

    abbrev pub new_count : ℕ
    new_count = s.count + amount

    -- A branch has made the gap, and the count is next.
    abbrev pub Makes : M A Bool → Type 0
    Makes run =
        (after : State A) × (base : State A) × (p : ℕ) × (b : Block A) × (m : Memory A) × (run s
          ≡ ok true after)
        × Prepared e s base (record after { count = new_count }) rest p b m new_count
        × IsGapped m

    resize_Makes :
        (p : ℕ) (b : Block A)
        → s.storage ≡ some p
        → s.block p ≡ some b
        → b.size / e.item_size < new_count
        → place ≡ s.count
        → Makes (resize_storage e new_bytes)
    resize_Makes p b storage at tight end =
        let (room, objects) = Holds-at e s.block (here s) p b valid.own storage at in
        let m = within e (min new_bytes b.size) b.cells in
        (
          switched s new_bytes m s.count,
          switched s new_bytes m 0,
          s.fresh,
          record { refs = 1; size = new_bytes; cells = m },
          m,
          resize_storage_lem e s rest valid p b storage at new_bytes small given
              (sizes_differ b.size new_bytes e.item_size new_count tight room_there),
          switched-Prepared e s rest valid new_bytes m s.count new_count small room_there,
          record {
            before = λ i h. ground (
              arith,
              items-at e s rest valid p b i storage at,
              min_room new_bytes b.size e.item_size i (omega (arith, room_there))
                  (omega (arith, room)),
            );
            after = λ i h k. absurd (omega arith);
          },
        )

    replace_Makes : Makes (
        replace_storage e new_bytes place
          (not (place == s.count))
          (place + amount)
          place
          (s.count - place))
    replace_Makes =
        let m = rebuilt s place (not (place == s.count)) (place + amount) place (s.count - place) in
        (
          switched s new_bytes m s.count,
          switched s new_bytes m 0,
          s.fresh,
          record { refs = 1; size = new_bytes; cells = m },
          m,
          replace_storage_lem e s rest valid new_bytes place (not (place == s.count))
              (place + amount) place (s.count - place) small given low (omega (arith, room_there))
              (omega arith) (omega (arith, room_there)),
          switched-Prepared e s rest valid new_bytes m s.count new_count small room_there,
          rebuilt-IsGapped,
        )

    -- The guards of `_grow` against overflow let the sizes pass.
    grow_storage-choose :
        grow_storage e place amount s
        ≡ choose
            (is_some s.storage && (s.count == place) && plain e)
            (resize_storage e new_bytes)
            (replace_storage e new_bytes place
              (not (place == s.count))
              (place + amount)
              place
              (s.count - place))
            s
    unfolding grow_storage
    grow_storage-choose =
        let (first, second, third) = below_overflow in
        then_runs _ _ s s (rw first refl)
        ∙ then_runs _ _ s s (rw second refl)
        ∙ then_runs _ _ s s (rw third refl)

    Makes-eq : (run run' : M A Bool) → run s ≡ run' s → Makes run' → Makes run
    Makes-eq run run' eq (after, base, p, b, m, ran, prepared, gapped) =
        (after, base, p, b, m, eq ∙ ran, prepared, gapped)

    -- The capacity is too small: the gap is in a new buffer.
    pub grow_storage-Makes :
        ((p : ℕ) (b : Block A)
          → s.storage ≡ some p
          → s.block p ≡ some b
          → b.size / e.item_size < new_count)
        → Makes (grow_storage e place amount)
    grow_storage-Makes tight =
        let test = is_some s.storage && (s.count == place) && plain e in
        elim (Bool-cases test) [
          | inl in_place ↦ elim (Option-cases s.storage) [
            | inl eq ↦ absurd (ground arith)
            | inr (p, eq) ↦
                let (b, at, room, objects) = valid.own.buffer p eq in
                Makes-eq (grow_storage e place amount) (resize_storage e new_bytes)
                  (grow_storage-choose ∙ rw in_place refl)
                  (resize_Makes p b eq at (tight p b eq at) (ground arith))
          ]
          | inr elsewhere ↦
              Makes-eq (grow_storage e place amount)
                (replace_storage e new_bytes place (not (place == s.count)) (place + amount) place
                  (s.count - place))
                (grow_storage-choose ∙ rw elsewhere refl) replace_Makes
        ]
