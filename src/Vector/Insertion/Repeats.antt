-- ===== src/Vector/Insertion/Repeats.antt =====
-- `insertAt` and `add` of libutils/VectorImpl.cpp put copies of one item into a list.
use android_native_mac_ports.Base.{
  ℕ, ◌+◌, ◌-◌, ◌*◌, ◌≤◌, ◌<◌, true, false, Option, none, some, List, [], ◌∷◌, ◌++◌, length, ◌≡◌,
  refl, ap, ◌∙◌, arith, ltb, fun_ext, subst, inl, inr, ltb-cases, replicate, length-replicate,
  get_elem?-replicate, take-length, drop-length,
}
use android_native_mac_ports.Vector.Memory.{Memory, filled, splat_type, construct_type}
use android_native_mac_ports.Vector.Memory.Runs.{splat_type_lem, construct_type_lem}
use android_native_mac_ports.Vector.Heap.{Setup, State, ok, M, pure, fits}
use android_native_mac_ports.Vector.Operations.{
  Handle, Answer, at, failed, no_memory, insert_at, add,
}
use android_native_mac_ports.Vector.Storage.{grown_capacity, do_splat, do_construct}
use android_native_mac_ports.Vector.Validity.{Valid}
use android_native_mac_ports.Vector.Contents.{Represents, Settled, spliced, fills}
use android_native_mac_ports.Vector.Insertion.{placed, not_past, Inserts, inserts}

module _ {A : Type 0} (e : Setup A) (given : (bytes q : ℕ) → e.malloc_gives bytes q ≡ true)
    (sized : 0 < e.item_size) (s : State A) (rest : List Handle) (valid : Valid e s rest)
    (xs : List A) (represents : Represents s xs) (index : ℕ) (low : index ≤ length xs) (x : A)
    (n : ℕ) (some_items : 0 < length (replicate n x))
    (small : fits (grown_capacity (s.count + length (replicate n x)) * e.item_size) ≡ true) where
  -- The place that fills a gap with copies.
  filled-placed :
      (m : Memory A)
      → filled index (length (replicate n x)) x m
        ≡ placed e given sized s rest valid xs represents index low
            (replicate n x)
            some_items
            small
            m
  filled-placed m = fun_ext λ i. elim (ltb-cases i index) [
    | inl before ↦ ground arith
    | inr past ↦ elim (ltb-cases i (index + length (replicate n x))) [
      | inl gap ↦
          ground (arith, get_elem?-replicate n x (i - index) (omega (arith, length-replicate n x)))
      | inr after ↦ ground arith
    ]
  ]

  not_beyond : ltb s.count index ≡ false
  not_beyond =
      not_past e given sized s rest valid xs represents index low (replicate n x) some_items small

  abbrev pub Copies : M A Answer → Type 0
  Copies run =
      Inserts e given sized s rest valid xs represents index low (replicate n x) some_items small
        run

  -- The gap is filled with `n` copies of the item that is given.
  splats : Copies (insert_at e (some x) index (length (replicate n x)))
  unfolding insert_at
  splats =
      let count = length (replicate n x) in
      inserts e given sized s rest valid xs represents index low (replicate n x) some_items small
        (insert_at e (some x) index count) (pure (failed no_memory))
        (λ place p. do_splat e p place x count) (rw not_beyond refl)
        λ base p b m room.
          fills e base p b m
            (placed e given sized s rest valid xs represents index low (replicate n x) some_items
              small m)
            (s.count + count) (index + count) (λ c. some (splat_type e.traits index x count c))
            (ap some (splat_type_lem e.traits index x count m ∙ filled-placed m))
            (omega (arith, low, represents.size))

  -- Or with items that the constructor makes, if it is not trivial.
  constructs :
      e.traits.has_trivial_ctor ≡ false
      → e.traits.made ≡ x
      → Copies (insert_at e none index (length (replicate n x)))
  unfolding insert_at
  constructs makes made_here =
      let count = length (replicate n x) in
      inserts e given sized s rest valid xs represents index low (replicate n x) some_items small
        (insert_at e none index count) (pure (failed no_memory))
        (λ place p. do_construct e p place count) (rw not_beyond refl)
        λ base p b m room.
          fills e base p b m
            (placed e given sized s rest valid xs represents index low (replicate n x) some_items
              small m)
            (s.count + count) (index + count) (λ c. some (construct_type e.traits index count c))
            (ap some
              (construct_type_lem e.traits index count m ∙ rw (makes, made_here) (filled-placed m)))
            (omega (arith, low, represents.size))

module _ {A : Type 0} (e : Setup A) (given : (bytes q : ℕ) → e.malloc_gives bytes q ≡ true)
    (sized : 0 < e.item_size) (s : State A) (rest : List Handle) (valid : Valid e s rest)
    (xs : List A) (represents : Represents s xs) where
  -- The item that `insertAt` puts in: the one that it is given, or the one that a constructor makes.
  abbrev pub Given : Option A → A → Type 0
  Given (some y) x = y ≡ x
  Given none x = (e.traits.has_trivial_ctor ≡ false) × (e.traits.made ≡ x)

  -- insertAt refines the insertion of `n` equal items into a list. For a vector with the items `xs` among
  -- vectors that may share its buffer, an index of at most its size and `n > 0`, where the allocator
  -- has memory and the size in bytes is allowed: the call returns the index; the vector then has the items
  -- of `xs` with `n` copies of the item put in at the index, the default one where no item is given and
  -- the constructor is not trivial; every buffer counts its owners, and no other vector has changed.
  pub insert_at-Settled :
      (item : Option A) (x : A) (index n : ℕ)
      → Given item x
      → index ≤ length xs
      → 0 < n
      → fits (grown_capacity (s.count + n) * e.item_size) ≡ true
      → (s' : State A) × (insert_at e item index n s ≡ ok (at index) s')
        × Settled e s s' rest (spliced index (replicate n x) xs)
  insert_at-Settled item x index n what low some_items small =
      let count = length-replicate n x in
      let positive : 0 < length (replicate n x) = omega (arith, count) in
      let small' : fits (grown_capacity (s.count + length (replicate n x)) * e.item_size) ≡ true =
        rw count small in
      subst
        (λ (k : ℕ).
          (s' : State A) × (insert_at e item index k s ≡ ok (at index) s')
          × Settled e s s' rest (spliced index (replicate n x) xs))
        count (by_item item what positive small')
    where
      by_item :
          (item' : Option A)
          → Given item' x
          → 0 < length (replicate n x)
          → fits (grown_capacity (s.count + length (replicate n x)) * e.item_size) ≡ true
          → (s' : State A) × (insert_at e item' index (length (replicate n x)) s ≡ ok (at index) s')
            × Settled e s s' rest (spliced index (replicate n x) xs)
      by_item (some y) same pos fit =
          rw same (splats e given sized s rest valid xs represents index low x n pos fit)
      by_item none (makes, made_here) pos fit =
          constructs e given sized s rest valid xs represents index low x n pos fit makes made_here

  -- add and push append one item. Under the conditions of insertAt, `add` returns the old size, and the
  -- vector has one more item at its end.
  pub add-Settled :
      (item : Option A) (x : A)
      → Given item x
      → fits (grown_capacity (s.count + 1) * e.item_size) ≡ true
      → (s' : State A) × (add e item s ≡ ok (at (length xs)) s')
        × Settled e s s' rest (xs ++ x ∷ [])
  unfolding add
  add-Settled item x what small =
      let (s', ran, settled) =
        insert_at-Settled item x s.count 1 what (omega (arith, represents.size)) (omega arith)
          small in
      let at_end : spliced s.count (x ∷ []) xs ≡ xs ++ x ∷ [] =
        ap (λ k. spliced k (x ∷ []) xs) represents.size
        ∙ rw (take-length xs, drop-length xs) refl in
      (
        s',
        ran ∙ ap (λ k. ok (at k) s') represents.size,
        subst (λ ys. Settled e s s' rest ys) at_end settled,
      )
