-- ===== src/Vector/RoundTrip.antt =====
-- What `insertArrayAt` of libutils/VectorImpl.cpp puts in, `removeItemsAt` takes out.
use android_native_mac_ports.Base.{
  ℕ, ◌+◌, ◌-◌, ◌*◌, ◌≤◌, ◌<◌, true, List, length, get_elem?, ◌≡◌, ap, arith, subst, inl, inr,
  ltb-cases, list_ext,
}
use android_native_mac_ports.Vector.Heap.{Setup, State, ok, fits}
use android_native_mac_ports.Vector.Operations.{Handle, at, insert_array_at, remove_items_at}
use android_native_mac_ports.Vector.Storage.{grown_capacity}
use android_native_mac_ports.Vector.Validity.{Valid}
use android_native_mac_ports.Vector.Contents.{
  Represents, spliced, get_elem?-spliced, length-spliced,
}
use android_native_mac_ports.Vector.Insertion.{insert_array_at-Settled}
use android_native_mac_ports.Vector.Removal.{
  cut, get_elem?-cut, length-cut, remove_items_at-Settled,
}

there_and_back : (i n : ℕ) → i + n - n ≡ i
there_and_back i n = omega arith

module _ {A : Type 0} where
  cut-spliced :
      (index : ℕ) (ys xs : List A)
      → index ≤ length xs
      → cut index (length ys) (spliced index ys xs) ≡ xs
  cut-spliced index ys xs low =
      let total = length-spliced index ys xs low in
      list_ext (cut index (length ys) (spliced index ys xs)) xs
        (omega (arith, total, length-cut index (length ys) (spliced index ys xs)))
        λ i.
          let whole = get_elem?-cut index (length ys) (spliced index ys xs) i (omega arith) in
          elim (ltb-cases i index) [
            | inl before ↦ ground (arith, whole, get_elem?-spliced index ys xs i low)
            | inr after ↦ ground (
              arith,
              whole,
              get_elem?-spliced index ys xs (i + length ys) low,
              ap (get_elem? xs) (there_and_back i (length ys)),
            )
          ]

-- insertArrayAt and then removeItemsAt of as many items at the same index give the old vector back. For
-- a valid vector with the items `xs`, an index of at most its size and a non-empty array, where the
-- allocator has memory and the size in bytes is allowed: both calls return the index, and the
-- vector has the items `xs` again, all vectors are valid, whether or not it moved to other buffers meanwhile.
pub insert-remove :
    {A : Type 0} (e : Setup A)
    → ((bytes q : ℕ) → e.malloc_gives bytes q ≡ true)
    → 0 < e.item_size
    → (s : State A) (rest : List Handle) → Valid e s rest
    → (xs : List A) → Represents s xs
    → (index : ℕ) → index ≤ length xs
    → (ys : List A) → 0 < length ys
    → fits (grown_capacity (s.count + length ys) * e.item_size) ≡ true
    → (s1 s2 : State A) × (insert_array_at e (get_elem? ys) index (length ys) s ≡ ok (at index) s1)
      × (remove_items_at e index (length ys) s1 ≡ ok (at index) s2)
      × Represents s2 xs
      × Valid e s2 rest
insert-remove e given sized s rest valid xs represents index low ys some_items small =
    let (s1, inserted, settled) =
      insert_array_at-Settled e given sized s rest valid xs represents index low ys some_items
        small in
    let (s2, removed, settled') =
      remove_items_at-Settled e given sized s1 rest settled.valid (spliced index ys xs)
        settled.represents index (length ys) (omega (arith, length-spliced index ys xs low))
        some_items in
    (
      s1,
      s2,
      inserted,
      removed,
      subst (λ zs. Represents s2 zs) (cut-spliced index ys xs low) settled'.represents,
      settled'.valid,
    )
