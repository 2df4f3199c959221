-- ===== src/Vector/Insertion.antt =====
-- The insertions of libutils/VectorImpl.cpp put items into a list.
pub mod Repeats
pub mod Nothing
use android_native_mac_ports.Base.{
  ℕ, ◌+◌, ◌-◌, ◌*◌, ◌/◌, ◌≤◌, ◌<◌, Bool, true, false, Option, none, some, List, [], ◌∷◌, ◌++◌,
  length, get_elem?, if◌then◌else◌, ◌≡◌, refl, sym, ap, ◌∙◌, arith, ltb, leb, ◌&&◌, subst, fun_ext,
  inl, inr, ltb-cases, replicate, length-replicate, get_elem?-replicate, get_elem?-below, not,
}
use android_native_mac_ports.Vector.Memory.{
  Memory, copied, filled, copy_type, splat_type, construct_type,
}
use android_native_mac_ports.Vector.Memory.Runs.{
  Objects, copy_type_lem, splat_type_lem, construct_type_lem,
}
use android_native_mac_ports.Vector.Heap.{
  Setup, Block, State, ok, M, pure, ◌>>=◌, ◌>>◌, fits, choose,
}
use android_native_mac_ports.Vector.Operations.{
  Handle, Answer, at, failed, no_memory, insert_array_at, insert_at, add,
}
use android_native_mac_ports.Vector.Storage.{
  grow, grown_capacity, own_buffer, do_copy_array, do_splat, do_construct,
}
use android_native_mac_ports.Vector.Validity.{items, overwritten, Valid}
use android_native_mac_ports.Vector.Steps.{binds, then_runs}
use android_native_mac_ports.Vector.Growing.Gap.{Prepared, own_buffer_lem}
use android_native_mac_ports.Vector.Growing.Branches.{IsGapped}
use android_native_mac_ports.Vector.Growing.InPlace.{grow_lem}
use android_native_mac_ports.Vector.Contents.{
  Represents, Settled, spliced, get_elem?-spliced, length-spliced, settles-at, fills,
}

from_start : (index i : ℕ) → 0 + (i - index) ≡ i - index
from_start index i = omega arith

back_again : (i n : ℕ) → n ≤ i → i - n + n ≡ i
back_again i n h = omega arith

module _ {A : Type 0} (e : Setup A) (given : (bytes q : ℕ) → e.malloc_gives bytes q ≡ true)
    (sized : 0 < e.item_size) (s : State A) (rest : List Handle) (valid : Valid e s rest)
    (xs : List A) (represents : Represents s xs) (index : ℕ) (low : index ≤ length xs) (ys : List A)
    (some_items : 0 < length ys)
    (small : fits (grown_capacity (s.count + length ys) * e.item_size) ≡ true) where
  -- The gap is filled with the objects of the list.
  abbrev placed : Memory A → Memory A
  placed m i = if leb index i && ltb i (index + length ys) then get_elem? ys (i - index) else m i

  in_count : index ≤ s.count
  in_count = omega (arith, represents.size)

  filled_gap :
      (m : Memory A)
      → IsGapped e given sized s rest valid index (length ys) in_count some_items m
      → (i : ℕ) → i < length (spliced index ys xs)
      → placed m i ≡ get_elem? (spliced index ys xs) i
  filled_gap m gapped i h =
      let whole = get_elem?-spliced index ys xs i low in
      let total = length-spliced index ys xs low in
      elim (ltb-cases i index) [
        | inl before ↦ ground (arith, whole, gapped.before i before, represents.each i)
        | inr past ↦ elim (ltb-cases i (index + length ys)) [
          | inl gap ↦ ground (arith, whole)
          | inr after ↦
              let there =
                gapped.after (i - length ys) (omega arith)
                  (omega (arith, total, represents.size)) in
              ground (
                arith,
                whole,
                there,
                represents.each (i - length ys),
                ap m (back_again i (length ys) (omega arith)),
              )
        ]
      ]

  -- An operation that makes the gap and fills it.
  abbrev pub Inserts : M A Answer → Type 0
  Inserts run =
      (s' : State A) × (run s ≡ ok (at index) s') × Settled e s s' rest (spliced index ys xs)

  pub inserts :
      (run refused : M A Answer) (fill : ℕ → ℕ → M A (Unit {0}))
      → run s
        ≡ (grow e index (length ys) >>= λ r. elim r [
          | none ↦ refused
          | some place ↦ own_buffer >>= λ p. fill place p >> pure (at index)
        ])
            s
      → ((base : State A) (p : ℕ) (b : Block A) (m : Memory A)
          → s.count + length ys ≤ b.size / e.item_size
          → fill index p (overwritten base p b m (s.count + length ys))
            ≡ ok tt (overwritten base p b (placed m) (s.count + length ys)))
      → Inserts run
  inserts run refused fill start filled =
      let (base, p, b, m, ran, prepared, gapped) =
        grow_lem e given sized s rest valid index (length ys) in_count some_items small in
      let new = s.count + length ys in
      let middle = overwritten base p b m new in
      let end = overwritten base p b (placed m) new in
      let total : new ≡ length (spliced index ys xs) =
        omega (arith, length-spliced index ys xs low, represents.size) in
      (
        end,
        start
            ∙ binds (grow e index (length ys)) _ s middle (some index) ran
            ∙ binds own_buffer _ middle middle p (own_buffer_lem middle p prepared.storage)
            ∙ then_runs _ _ middle end (filled base p b m prepared.room),
        settles-at e s base middle rest p b m (placed m) (spliced index ys xs) new valid total
            prepared (filled_gap m gapped),
      )

  not_past : ltb s.count index ≡ false
  not_past = let h = in_count in ground arith

  -- insertArrayAt refines the insertion into a list. For a vector with the items `xs` among vectors that
  -- may share its buffer, an index of at most its size, and a non-empty array of objects that are not in
  -- its storage, where the allocator has memory and the size in bytes is allowed: the call
  -- returns the index, whether or not the capacity sufficed and the buffer was shared; the vector then
  -- has the items of `xs` with those of the array put in at the index; every buffer counts its
  -- owners, and no other vector has changed.
  pub insert_array_at-Settled : Inserts (insert_array_at e (get_elem? ys) index (length ys))
  unfolding insert_array_at
  insert_array_at-Settled =
      inserts (insert_array_at e (get_elem? ys) index (length ys)) (pure (failed no_memory))
        (λ place p. do_copy_array e p place (get_elem? ys) (length ys)) (rw not_past refl)
        λ base p b m room.
          fills e base p b m (placed m) (s.count + length ys) (index + length ys)
            (copy_type e.traits index 0 (length ys) (get_elem? ys))
            (copy_type_lem e.traits index 0 (length ys) (get_elem? ys) m
                (λ i h k. get_elem?-below ys i (omega arith))
              ∙ ap some (fun_ext λ i. ground (arith, ap (get_elem? ys) (from_start index i))))
            (omega (arith, in_count))
