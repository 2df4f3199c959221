-- ===== src/Vector/Removal.antt =====
-- The removals of libutils/VectorImpl.cpp take a run of items out of a list.
use android_native_mac_ports.Base.{
  ℕ, ◌+◌, ◌-◌, ◌^◌, ◌≤◌, ◌<◌, true, false, List, [], ◌++◌, length, get_elem?, take, drop,
  if◌then◌else◌, ◌==◌, ◌≡◌, refl, ap, ◌∙◌, arith, ltb, leb, subst, inl, inr, ltb-cases,
  Option-cases, get_elem?-append, get_elem?-take, get_elem?-drop, length-append, length-take,
  length-drop, drop-length,
}
use mathlib.Core.List.{append-nil}
use android_native_mac_ports.Vector.Sizes.{room_small}
use android_native_mac_ports.Vector.Heap.{Setup, State, ok, M, pure}
use android_native_mac_ports.Vector.Operations.{Handle, at, remove_items_at, pop, clear}
use android_native_mac_ports.Vector.Storage.{shrink}
use android_native_mac_ports.Vector.Validity.{overwritten, Valid}
use android_native_mac_ports.Vector.Steps.{binds, then_runs}
use android_native_mac_ports.Vector.Shrinking.Branches.{from_tail}
use android_native_mac_ports.Vector.Shrinking.InPlace.{shrink_lem}
use android_native_mac_ports.Vector.Contents.{Represents, Settled, settles-at}

zero_add : (n : ℕ) {m : ℕ} → n ≡ m → 0 + n ≡ m
zero_add n h = omega arith

back_up : (n : ℕ) → 0 < n → n - 1 + 1 ≡ n
back_up n h = omega arith

module _ {A : Type 0} where
  -- The list without a run of its elements.
  abbrev pub cut : ℕ → ℕ → List A → List A
  cut place amount xs = take place xs ++ drop (place + amount) xs

  pub length-cut :
      (place amount : ℕ) (xs : List A)
      → place + amount ≤ length xs
      → length (cut place amount xs) ≡ length xs - amount
  length-cut place amount xs h = omega (
    arith,
    length-append (take place xs) (drop (place + amount) xs),
    length-take place xs (omega arith),
    length-drop (place + amount) xs,
  )

  pub get_elem?-cut :
      (place amount : ℕ) (xs : List A) (i : ℕ)
      → place + amount ≤ length xs
      → get_elem? (cut place amount xs) i
        ≡ (if ltb i place then get_elem? xs i else get_elem? xs (i + amount))
  get_elem?-cut place amount xs i h =
      let first = length-take place xs (omega arith) in
      let whole = get_elem?-append (take place xs) (drop (place + amount) xs) i in
      let left = get_elem?-take place xs i in
      let right = get_elem?-drop (place + amount) xs (i - place) in
      elim (ltb-cases i place) [
        | inl below ↦ ground (arith, whole, left)
        | inr above ↦ ground (
          arith,
          whole,
          right,
          ap (λ n. get_elem? (drop (place + amount) xs) (i - n)) first,
          ap (get_elem? xs) (from_tail place amount i above),
        )
      ]

  cut_all : (n : ℕ) (xs : List A) → n ≡ length xs → cut 0 n xs ≡ []
  cut_all n xs h = ap (λ k. drop k xs) (zero_add n h) ∙ drop-length xs

  cut_last :
      (n : ℕ) (xs : List A)
      → n ≡ length xs
      → 0 < length xs
      → cut (n - 1) 1 xs ≡ take (length xs - 1) xs
  cut_last n xs h some_items =
      ap (λ k. take (k - 1) xs ++ drop (k - 1 + 1) xs) h
      ∙ ap (λ k. take (length xs - 1) xs ++ drop k xs) (back_up (length xs) some_items)
      ∙ ap (λ ys. take (length xs - 1) xs ++ ys) (drop-length xs)
      ∙ append-nil (take (length xs - 1) xs)

module _ {A : Type 0} (e : Setup A) (given : (bytes q : ℕ) → e.malloc_gives bytes q ≡ true)
    (sized : 0 < e.item_size) (s : State A) (rest : List Handle) (valid : Valid e s rest)
    (xs : List A) (represents : Represents s xs) where
  -- How a call ends that takes the run out.
  abbrev Cuts : ℕ → ℕ → M A (Unit {0}) → Type 0
  Cuts place amount run =
      (s' : State A) × (run s ≡ ok tt s') × Settled e s s' rest (cut place amount xs)

  pub shrink-Settled :
      (place amount : ℕ)
      → place + amount ≤ length xs
      → 0 < amount
      → Cuts place amount (shrink e place amount)
  shrink-Settled place amount low some_items = elim (Option-cases s.storage) [
    | inl eq ↦ absurd (omega (arith, valid.own.empty eq, represents.size))
    | inr (p, eq) ↦
        let (b, there, room, objects) = valid.own.buffer p eq in
        let (base, q, c, m, ran, prepared, closed) =
          shrink_lem e given sized s rest valid p b eq there place amount
            (omega (arith, represents.size)) some_items in
        let total : s.count - amount ≡ length (cut place amount xs) =
          omega (arith, length-cut place amount xs low, represents.size) in
        (
          overwritten base q c m (s.count - amount),
          ran,
          settles-at e s base (overwritten base q c m (s.count - amount)) rest q c m m
              (cut place amount xs) (s.count - amount) valid total prepared
              λ i h.
                let whole = get_elem?-cut place amount xs i low in
                elim (ltb-cases i place) [
                  | inl before ↦ ground (arith, whole, closed.before i before, represents.each i)
                  | inr after ↦ ground (
                    arith,
                    whole,
                    closed.after i after (omega (arith, total)),
                    represents.each (i + amount),
                  )
                ],
        )
  ]

  -- The counts of items that a buffer has room for do not overflow.
  no_overflow : (n : ℕ) → n ≤ length xs → leb (2 ^ 64) n ≡ false
  no_overflow n h = elim (Option-cases s.storage) [
    | inl eq ↦ let none_there = valid.own.empty eq in let size = represents.size in ground arith
    | inr (p, eq) ↦
        let (b, there, room, objects) = valid.own.buffer p eq in
        room_small b.size e.item_size n (omega (arith, room, represents.size))
          (valid.sized p b there)
  ]

  -- removeItemsAt refines the removal of a run from a list. For a vector with the items `xs` among vectors
  -- that may share its buffer, and a non-empty run that lies within its size, where the allocator
  -- has memory: the call returns the index, whether the items stay in their buffer, are copied
  -- since it is shared, or move to a smaller one; the vector has the items of `xs` without the
  -- run, in order; every buffer counts its owners, and no other vector has changed.
  pub remove_items_at-Settled :
      (index n : ℕ)
      → index + n ≤ length xs
      → 0 < n
      → (s' : State A) × (remove_items_at e index n s ≡ ok (at index) s')
        × Settled e s s' rest (cut index n xs)
  unfolding remove_items_at
  remove_items_at-Settled index n low some_items =
      let (s', ran, settled) = shrink-Settled index n low some_items in
      let size = represents.size in
      let in_range : ltb s.count (index + n) ≡ false = ground arith in
      (
        s',
        then_runs _ _ s s (rw (no_overflow (index + n) low) refl)
            ∙ rw in_range (then_runs (shrink e index n) (pure (at index)) s s' ran),
        settled,
      )

  -- pop takes the last item of a non-empty vector, where the allocator has memory, and leaves all other
  -- vectors as they are.
  pub pop-Settled :
      0 < length xs
      → (s' : State A) × (pop e s ≡ ok tt s') × Settled e s s' rest (take (length xs - 1) xs)
  unfolding pop
  pop-Settled some_items =
      let size = represents.size in
      let (s', ran, settled) =
        remove_items_at-Settled (s.count - 1) 1 (omega arith) (omega arith) in
      let not_empty : (s.count == 0) ≡ false = ground arith in
      (
        s',
        rw not_empty (binds (remove_items_at e (s.count - 1) 1) _ s s' (at (s.count - 1)) ran),
        subst (λ ys. Settled e s s' rest ys) ((cut_last s.count xs size some_items)) settled,
      )

  -- clear takes all items of a non-empty vector, where the allocator has memory, and leaves all other
  -- vectors as they are.
  pub clear-Settled :
      0 < length xs → (s' : State A) × (clear e s ≡ ok tt s') × Settled e s s' rest []
  unfolding clear
  clear-Settled some_items =
      let size = represents.size in
      let (s', ran, settled) = shrink-Settled 0 s.count (omega arith) (omega arith) in
      (s', ran, subst (λ ys. Settled e s s' rest ys) (cut_all s.count xs size) settled)
