-- ===== src/Vector/Sorting/Rounds.antt =====
-- The rounds of `VectorImpl::sort` of libutils/VectorImpl.cpp once the vector owns its buffer alone.
use android_native_mac_ports.Base.Int.{ℤ}
use android_native_mac_ports.Base.{
  ℕ, zero, suc, ◌+◌, ◌-◌, ◌/◌, ◌≤◌, ◌<◌, true, Option, none, some, List, length, get_elem?,
  get_elem?-below, if◌then◌else◌, update, ◌≡◌, refl, ap, ◌∙◌, subst, arith, inl, inr, Bool-cases,
}
use android_native_mac_ports.Vector.Memory.{Memory, cleared, copied, copy_type}
use android_native_mac_ports.Vector.Memory.Runs.{Objects, destroy_type_lem, copy_type_lem}
use android_native_mac_ports.Vector.Heap.{Setup, Block, State, ok, M, pure, ◌>>=◌, get_block}
use android_native_mac_ports.Vector.Operations.{no_memory, Answer, at, failed}
use android_native_mac_ports.Vector.Storage.{on_cells, do_destroy, own_buffer}
use android_native_mac_ports.Vector.Steps.{binds, then_runs}
use android_native_mac_ports.Vector.Growing.Gap.{own_buffer_lem}
use android_native_mac_ports.Vector.Sorted.{item_at}
use android_native_mac_ports.Vector.Sorting.{
  greater, shift_loop, prepare_temp, place_item, sort_loop,
}
use android_native_mac_ports.Vector.Sorting.Stable.{Rearranged, Rearranged-self, Rearranged-trans}
use android_native_mac_ports.Vector.Sorting.Swaps.{
  IsOrder, IsSortedTo, IsSortedTo-IsSortedBut, stops-IsSortedTo, next-IsSortedTo,
}
use android_native_mac_ports.Vector.Sorting.Sinking.{
  with_objects, get_block_here, emptied, overwrites, item_at_here, shift_loop-Sinks,
}

copied_item :
    {A : Type 0} (i : ℕ) (m temp : Memory A) (t : A) → m i ≡ some t → copied 0 i 1 m temp 0 ≡ some t
copied_item i m temp t eq = let same : i + 0 ≡ i = omega arith in ap m same ∙ eq

only_here : (s i : ℕ) → s ≤ i → i < s + 1 → i ≡ s
only_here s i h l = omega arith

pub pred_suc : (k : ℕ) → suc k - 1 ≡ k
pred_suc k = omega arith

module _ {A : Type 0} (compare_items : A → A → ℤ) (e : Setup A) where
  -- What the outer loop does once its test is true.
  abbrev pub goes_on : ℕ → ℕ → Option (Memory A) → M A Answer
  goes_on rounds i r = elim r [
    | none ↦ pure (failed no_memory)
    | some t ↦ place_item compare_items e i t >>= λ held.
        sort_loop compare_items e rounds (suc i) (some held)
  ]

module _ {A : Type 0} (compare_items : A → A → ℤ) (laws : IsOrder compare_items) (e : Setup A)
    (base : State A) (p : ℕ) (b : Block A) (n : ℕ) (storage : base.storage ≡ some p)
    (room : n ≤ b.size / e.item_size) where
  abbrev pub state_of : Memory A → State A
  state_of m = with_objects compare_items e base p b n storage room m

  abbrev emptied_here : ℕ → Memory A → Memory A
  emptied_here d m = emptied compare_items e base p b n storage room d m

  -- The objects are those of the list.
  abbrev pub Agree : Memory A → List A → Type 0
  Agree m ys = (length ys ≡ n) × ((i : ℕ) → i < n → m i ≡ get_elem? ys i)

  -- One item has gone to its place.
  abbrev Places : ℕ → Memory A → List A → M A (Memory A) → Type 0
  Places k m ys run =
      (temp : Memory A) × (t : A) × (m' : Memory A) × (ys' : List A) × (run (state_of m)
        ≡ ok temp (state_of m'))
      × (temp 0 ≡ some t)
      × Agree m' ys'
      × Rearranged compare_items ys' ys
      × IsSortedTo compare_items (suc k) ys'

  pub place_item-Places :
      (k : ℕ) (m temp : Memory A) (ys : List A) (c t : A)
      → Agree m ys
      → suc k < n
      → get_elem? ys k ≡ some c
      → get_elem? ys (suc k) ≡ some t
      → greater compare_items c t ≡ true
      → IsSortedTo compare_items k ys
      → Places k m ys (place_item compare_items e (suc k) temp)
  unfolding place_item
  place_item-Places k m temp ys c t (size, agrees) low at_c at_t is_greater sorted =
      let held : Memory A = copied 0 (suc k) 1 m temp in
      let m_at : m (suc k) ≡ some t = agrees (suc k) low ∙ at_t in
      let held_at : held 0 ≡ some t = copied_item (suc k) m temp t m_at in
      let (next, m1, ys1, ran, sunk, perm, stop) =
        shift_loop-Sinks compare_items e base p b n storage room laws held t held_at (suc k) k m ys
          c low
          (record {
            agrees = λ i h but. agrees i h;
            old = t;
            old_at = m_at;
            itself = at_t;
            sorted = IsSortedTo-IsSortedBut compare_items k ys sorted;
            size = size;
            low = omega arith;
          })
          at_c is_greater in
      let m2 = update m1 next (some t) in
      let size_1 = sunk.size in
      let next_low = sunk.low in
      let objects : Objects (suc k) 1 m = λ i h l. (t, ap m (only_here (suc k) i h l) ∙ m_at) in
      let (destroyed, filled) =
        overwrites compare_items e base p b n storage room next 0 m1 held sunk.old t (omega arith)
          sunk.old_at held_at in
      (
        held,
        t,
        m2,
        ys1,
        binds own_buffer _ (state_of m) (state_of m) p (own_buffer_lem (state_of m) p storage)
            ∙ binds (get_block p) _ (state_of m) (state_of m) (record b { cells = m })
                (get_block_here compare_items e base p b n storage room m)
            ∙ rw (copy_type_lem e.traits 0 (suc k) 1 m temp objects, pred_suc k)
                (binds (shift_loop compare_items e p held k) _ (state_of m) (state_of m1) next ran
                  ∙ then_runs (do_destroy e p next 1) _ (state_of m1)
                      (state_of (emptied_here next m1)) destroyed
                  ∙ then_runs (on_cells e p (next + 1) (copy_type e.traits next 0 1 held))
                      (pure held) (state_of (emptied_here next m1)) (state_of m2) filled),
        held_at,
        (size_1, λ i h. ground (arith, sunk.agrees i h, sunk.itself)),
        perm,
        stops-IsSortedTo compare_items laws next (suc k) ys1 t sunk.itself sunk.sorted next_low stop
            (omega arith),
      )

  prepare_temp_lem :
      (temp : Memory A) (t : A) (s : State A)
      → temp 0 ≡ some t
      → (left : Memory A) × (prepare_temp compare_items e (some temp) s ≡ ok (some left) s)
  unfolding prepare_temp
  prepare_temp_lem temp t s held = (
    if e.traits.has_trivial_dtor then temp else cleared 0 1 temp,
    rw
        (
          prepare_temp,
          destroy_type_lem e.traits 0 1 temp (λ i h l. (t, ap temp (only_here 0 i h l) ∙ held)),
        )
        refl,
  )

  -- How the rounds end.
  abbrev pub Sorts : Memory A → List A → M A Answer → Type 0
  Sorts m ys run =
      (m' : Memory A) × (ys' : List A) × (run (state_of m) ≡ ok (at 0) (state_of m'))
      × Agree m' ys'
      × Rearranged compare_items ys' ys
      × IsSortedTo compare_items (n - 1) ys'

  pub sort_loop-Sorts :
      (rounds k : ℕ) (m temp : Memory A) (ys : List A) (t : A)
      → Agree m ys
      → temp 0 ≡ some t
      → suc k + rounds ≡ n
      → IsSortedTo compare_items k ys
      → Sorts m ys (sort_loop compare_items e rounds (suc k) (some temp))
  unfolding sort_loop
  sort_loop-Sorts zero k m temp ys t (size, agrees) held total sorted =
      let last : k ≡ n - 1 = omega arith in
      (
        m,
        ys,
        rw
            (
              sort_loop,
              destroy_type_lem e.traits 0 1 temp (λ i h l. (t, ap temp (only_here 0 i h l) ∙ held)),
            )
            refl,
        (size, agrees),
        Rearranged-self compare_items ys,
        subst (λ top. IsSortedTo compare_items top ys) last sorted,
      )
  sort_loop-Sorts (suc rounds) k m temp ys t (size, agrees) held total sorted =
      let (c, at_c) = get_elem?-below ys k (omega arith) in
      let (x, at_x) = get_elem?-below ys (suc k) (omega arith) in
      let reads_c =
        item_at_here compare_items e base p b n storage room m k c
          (agrees k (omega arith) ∙ at_c) in
      let reads_x =
        item_at_here compare_items e base p b n storage room m (suc k) x
          (agrees (suc k) (omega arith) ∙ at_x) in
      let first : item_at (suc k - 1) (state_of m) ≡ ok c (state_of m) = rw (pred_suc k) reads_c in
      elim (Bool-cases (greater compare_items c x)) [
        | inl more ↦
            let (left, prepared) = prepare_temp_lem temp t (state_of m) held in
            let (temp1, t1, m1, ys1, ran, held1, agree1, perm1, sorted1) =
              place_item-Places k m left ys c x (size, agrees) (omega arith) at_c at_x more
                sorted in
            let (m2, ys2, ran2, agree2, perm2, sorted2) =
              sort_loop-Sorts rounds (suc k) m1 temp1 ys1 t1 agree1 held1 (omega arith) sorted1 in
            (
              m2,
              ys2,
              binds (item_at (suc k - 1)) _ (state_of m) (state_of m) c first
                  ∙ binds (item_at (suc k)) _ (state_of m) (state_of m) x reads_x
                  ∙ rw more (
                      binds (prepare_temp compare_items e (some temp))
                        (goes_on compare_items e rounds (suc k)) (state_of m) (state_of m)
                        (some left) prepared
                      ∙ binds (place_item compare_items e (suc k) left) _ (state_of m) (state_of m1)
                          temp1 ran
                      ∙ ran2),
              agree2,
              Rearranged-trans compare_items ys2 ys1 ys perm2 perm1,
              sorted2,
            )
        | inr enough ↦
            let (m2, ys2, ran2, agree2, perm2, sorted2) =
              sort_loop-Sorts rounds (suc k) m temp ys t (size, agrees) held (omega arith)
                (next-IsSortedTo compare_items laws k ys c x at_c at_x (omega arith) enough
                  sorted) in
            (
              m2,
              ys2,
              binds (item_at (suc k - 1)) _ (state_of m) (state_of m) c first
                  ∙ binds (item_at (suc k)) _ (state_of m) (state_of m) x reads_x
                  ∙ rw enough ran2,
              agree2,
              perm2,
              sorted2,
            )
      ]
