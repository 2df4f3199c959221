-- ===== src/Vector/Shrinking/Branches.antt =====
-- The branches of `_shrink` of libutils/VectorImpl.cpp that move the items to a smaller buffer.
use android_native_mac_ports.Base.{
  ℕ, ◌+◌, ◌-◌, ◌*◌, ◌/◌, ◌≤◌, ◌<◌, Bool, true, false, not, ◌&&◌, min, some, List, ◌==◌, ◌≡◌, ap,
  arith, inl, inr, Bool-cases,
}
use android_native_mac_ports.Vector.Memory.{Memory}
use android_native_mac_ports.Vector.Heap.{Setup, Block, State, ok, M, fits, within}
use android_native_mac_ports.Vector.Operations.{Handle}
use android_native_mac_ports.Vector.Storage.{
  max, min_capacity, shrink_storage, plain, resize_storage, replace_storage,
}
use android_native_mac_ports.Vector.Validity.{here, items, switched, Valid, Holds-at}
use android_native_mac_ports.Vector.Steps.{
  items-at, rebuilt, replace_storage_lem, resize_storage_lem,
}
use android_native_mac_ports.Vector.Growing.Gap.{Prepared, switched-Prepared}
use android_native_mac_ports.Vector.Sizes.{
  from_zero, min_room, sizes_differ_down, division_lem, shrunk_le, fits_less,
}

pub from_tail : (place amount i : ℕ) → place ≤ i → place + amount + (i - place) ≡ i + amount
from_tail place amount i h = omega arith

module _ {A : Type 0} (e : Setup A) (given : (bytes q : ℕ) → e.malloc_gives bytes q ≡ true)
    (sized : 0 < e.item_size) (s : State A) (rest : List Handle) (valid : Valid e s rest) (p : ℕ)
    (b : Block A) (storage : s.storage ≡ some p) (at : s.block p ≡ some b) (place amount : ℕ)
    (low : place + amount ≤ s.count) (some_items : 0 < amount) where
  abbrev pub left : ℕ
  left = s.count - amount

  -- The objects `m` are the vector's items without those of the run.
  pub record IsClosed (m : Memory A) : Type 0 where
    pub before : (i : ℕ) → i < place → m i ≡ items s i
    pub after : (i : ℕ) → place ≤ i → i < left → m i ≡ items s (i + amount)

  -- A branch has closed the gap, and the count is next.
  abbrev pub Closes : M A Bool → Type 0
  Closes run =
      (after : State A) × (base : State A) × (q : ℕ) × (c : Block A) × (m : Memory A) × (run s
        ≡ ok true after)
      × Prepared e s base (record after { count = left }) rest q c m left
      × IsClosed m

  module _ (unused : left < b.size / e.item_size / 2) (large : 4 < b.size / e.item_size) where
    abbrev less_bytes : ℕ
    less_bytes = max min_capacity (left * 2) * e.item_size

    small : fits less_bytes ≡ true
    small =
        fits_less less_bytes b.size (shrunk_le b.size e.item_size left sized unused large)
          (valid.sized p b at)

    room_there : left ≤ less_bytes / e.item_size
    room_there = rw (division_lem (max min_capacity (left * 2)) e.item_size sized) (ground arith)

    differs : (b.size == less_bytes) ≡ false
    differs =
        sizes_differ_down less_bytes b.size e.item_size (b.size / e.item_size)
          (rw (division_lem (max min_capacity (left * 2)) e.item_size sized) (ground arith))
          (omega arith)

    resize_Closes : place ≡ left → Closes (resize_storage e less_bytes)
    resize_Closes end =
        let (room, objects) = Holds-at e s.block (here s) p b valid.own storage at in
        let m = within e (min less_bytes b.size) b.cells in
        (
          switched s less_bytes m s.count,
          switched s less_bytes m 0,
          s.fresh,
          record { refs = 1; size = less_bytes; cells = m },
          m,
          resize_storage_lem e s rest valid p b storage at less_bytes small given differs,
          switched-Prepared e s rest valid less_bytes m s.count left small room_there,
          record {
            before = λ i h. ground (
              arith,
              items-at e s rest valid p b i storage at,
              min_room less_bytes b.size e.item_size i (omega (arith, room_there))
                  (omega (arith, room)),
            );
            after = λ i h k. absurd (omega arith);
          },
        )

    abbrev closed : Memory A
    closed = rebuilt s place (not (place == left)) place (place + amount) (left - place)

    replace_Closes : Closes (
        replace_storage e less_bytes place
          (not (place == left))
          place
          (place + amount)
          (left - place))
    replace_Closes = (
      switched s less_bytes closed s.count,
      switched s less_bytes closed 0,
      s.fresh,
      record { refs = 1; size = less_bytes; cells = closed },
      closed,
      replace_storage_lem e s rest valid less_bytes place (not (place == left)) place
          (place + amount) (left - place) small given (omega arith) (omega (arith, room_there))
          (omega arith) (omega (arith, room_there)),
      switched-Prepared e s rest valid less_bytes closed s.count left small room_there,
      record {
        before = λ i h. ground (arith, ap (items s) (from_zero i));
        after = λ i h k. ground (arith, ap (items s) (from_tail place amount i h));
      },
    )

    -- Where much of the capacity is unused, the items move to a smaller buffer.
    pub shrink_storage-Closes : Closes (shrink_storage e place amount)
    unfolding shrink_storage
    shrink_storage-Closes = elim (Bool-cases ((place == left) && plain e)) [
      | inl in_place ↦ rw in_place (resize_Closes (ground arith))
      | inr elsewhere ↦ rw elsewhere replace_Closes
    ]
