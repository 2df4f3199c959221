-- ===== src/Vector/Storage.antt =====
-- libutils/VectorImpl.cpp: the storage of a vector, its capacity, and how it grows and shrinks.
use android_native_mac_ports.Base.{
  ℕ, ◌+◌, ◌-◌, ◌*◌, ◌/◌, ◌^◌, Bool, true, false, ◌&&◌, not, Option, none, some, ltb, leb, ◌==◌,
  if◌then◌else◌,
}
use android_native_mac_ports.Vector.Memory.{
  Memory, construct_type, destroy_type, copy_type, splat_type, move_forward_type,
  move_backward_type,
}
use android_native_mac_ports.Vector.Heap.{
  Setup, ok, abort, fault, M, pure, ◌>>=◌, ◌>>◌, fatal_if, when, choose, get_block, set_block,
  alloc, dealloc, release, attempt_edit, edit_resize,
}

-- `kMinVectorCapacity`
abbrev pub min_capacity : ℕ
min_capacity = 4

abbrev pub max : ℕ → ℕ → ℕ
max a b = if ltb b a then a else b

-- The capacity that `_grow` asks for
abbrev pub grown_capacity : ℕ → ℕ
grown_capacity new_size = max min_capacity (new_size + new_size / 2 + 1)

abbrev pub is_some : {A : Type 0} → Option A → Bool
is_some none = false
is_some (some _) = true

module _ {A : Type 0} where
  abbrev pub set_storage : Option ℕ → M A (Unit {0})
  set_storage o s = ok tt (record s { storage = o })

  abbrev pub set_count : ℕ → M A (Unit {0})
  set_count n s = ok tt (record s { count = n })

  -- The buffer behind `mStorage`, where the code does not test it for null.
  abbrev pub own_buffer : M A ℕ
  own_buffer s = elim s.storage [ none ↦ fault | some p ↦ ok p s ]

module _ {A : Type 0} (e : Setup A) where
  abbrev pub items_in : ℕ → ℕ
  items_in bytes = bytes / e.item_size

  -- A change of the first `limit` places of a buffer.
  unfoldable pub on_cells : ℕ → ℕ → (Memory A → Option (Memory A)) → M A (Unit {0})
  unfolding get_block
  on_cells p limit f = get_block p >>= λ b.
      choose (leb limit (items_in b.size))
        (elim (f b.cells) [
          | none ↦ λ _. fault
          | some m ↦ set_block p (some (record b { cells = m }))
        ])
        (λ _. fault)

  -- `_do_construct`, `_do_destroy`, `_do_splat` and both moves, in buffer `p`
  abbrev pub do_construct : ℕ → ℕ → ℕ → M A (Unit {0})
  do_construct p place n = on_cells p (place + n) (λ m. some (construct_type e.traits place n m))

  abbrev pub do_destroy : ℕ → ℕ → ℕ → M A (Unit {0})
  do_destroy p place n = on_cells p (place + n) (destroy_type e.traits place n)

  abbrev pub do_splat : ℕ → ℕ → A → ℕ → M A (Unit {0})
  do_splat p place x n = on_cells p (place + n) (λ m. some (splat_type e.traits place x n m))

  abbrev pub do_move_forward : ℕ → ℕ → ℕ → ℕ → M A (Unit {0})
  do_move_forward p d s n = on_cells p (d + n) (move_forward_type e.traits d s n)

  abbrev pub do_move_backward : ℕ → ℕ → ℕ → ℕ → M A (Unit {0})
  do_move_backward p d s n = on_cells p (s + n) (move_backward_type e.traits d s n)

  -- `_do_copy`, from objects outside of the heap, and from the vector's storage, which may be null
  -- where nothing is copied
  abbrev pub do_copy_array : ℕ → ℕ → Memory A → ℕ → M A (Unit {0})
  do_copy_array p place array n = on_cells p (place + n) (copy_type e.traits place 0 n array)

  unfoldable pub do_copy : ℕ → ℕ → ℕ → ℕ → M A (Unit {0})
  unfolding on_cells get_block
  do_copy q d from n s = elim s.storage [
    | none ↦ if n == 0 then ok tt s else fault
    | some p ↦
        (get_block p >>= λ b.
        choose (leb (from + n) (items_in b.size))
          (on_cells q (d + n) (copy_type e.traits d from n b.cells)) (λ _. fault))
          s
  ]

  -- `VectorImpl::release_storage`
  unfoldable pub release_storage : M A (Unit {0})
  unfolding on_cells release dealloc
  release_storage s = elim s.storage [
    | none ↦ ok tt s
    | some p ↦
        (release e true p >>= λ owners. when (owners == 1) (do_destroy p 0 s.count >> dealloc e p))
          s
  ]

  -- `VectorImpl::editArrayImpl`
  unfoldable pub edit_array_impl : M A (Option ℕ)
  unfolding attempt_edit get_block alloc do_copy release_storage
  edit_array_impl s = elim s.storage [
    | none ↦ ok none s
    | some p ↦
        (attempt_edit e p >>= λ editable. elim editable [
          | some q ↦ pure (some q)
          | none ↦ get_block p >>= λ b. alloc e b.size >>= λ r. elim r [
            | none ↦ λ _. abort
            | some q ↦
                do_copy q 0 0 s.count >> release_storage >> set_storage (some q) >> pure (some q)
          ]
        ])
          s
  ]

  -- `VectorImpl::capacity`
  unfoldable pub capacity : M A ℕ
  unfolding get_block
  capacity s = elim s.storage [
    | none ↦ ok 0 s
    | some p ↦ (get_block p >>= λ b. pure (items_in b.size)) s
  ]

  -- `VectorImpl::itemLocation`: the place of an item, if there is a buffer.
  unfoldable pub item_location : ℕ → M A (Option ℕ)
  unfolding capacity
  item_location index = capacity >>= λ c.
      fatal_if (not (ltb index c))
      >> choose (ltb index c) (λ s. ok (if is_some s.storage then some index else none) s)
          (pure none)

  -- `VectorImpl::editItemLocation`
  unfoldable pub edit_item_location : ℕ → M A (Option ℕ)
  unfolding capacity edit_array_impl
  edit_item_location index = capacity >>= λ c.
      fatal_if (not (ltb index c))
      >> choose (ltb index c)
          (edit_array_impl >>= λ r. pure (if is_some r then some index else none)) (pure none)

  -- `editResize` of the storage, in `_grow` and in `_shrink`
  unfoldable pub resize_storage : ℕ → M A Bool
  unfolding edit_resize
  resize_storage bytes = own_buffer >>= λ p. edit_resize e p bytes >>= λ r. elim r [
    | none ↦ pure false
    | some q ↦ set_storage (some q) >> pure true
  ]

  -- A new buffer with the items before `place` and, if `more`, the `n` items from `from` on at `to`: the
  -- other branch in `_grow` and in `_shrink`
  unfoldable pub replace_storage : ℕ → ℕ → Bool → ℕ → ℕ → ℕ → M A Bool
  unfolding alloc do_copy release_storage
  replace_storage bytes place more to from n = alloc e bytes >>= λ r. elim r [
    | none ↦ pure false
    | some q ↦
        when (not (place == 0)) (do_copy q 0 0 place)
        >> when more (do_copy q to from n)
        >> release_storage
        >> set_storage (some q)
        >> pure true
  ]

  -- `(mFlags & HAS_TRIVIAL_COPY) && (mFlags & HAS_TRIVIAL_DTOR)`
  abbrev pub plain : Bool
  plain = e.traits.has_trivial_copy && e.traits.has_trivial_dtor

  -- `_grow` where the capacity is too small
  unfoldable pub grow_storage : ℕ → ℕ → M A Bool
  unfolding resize_storage replace_storage
  grow_storage place amount s =
      let new_size = s.count + amount in
      let new_capacity = grown_capacity new_size in
      (fatal_if (leb (2 ^ 64) (new_size + new_size / 2))
          >> fatal_if (leb (2 ^ 64) (new_size + new_size / 2 + 1))
          >> fatal_if (leb (2 ^ 64) (new_capacity * e.item_size))
          >> choose (is_some s.storage && (s.count == place) && plain)
              (resize_storage (new_capacity * e.item_size))
              (replace_storage (new_capacity * e.item_size) place (not (place == s.count))
                (place + amount) place (s.count - place)))
        s

  -- `_grow` where the capacity is enough
  unfoldable pub grow_in_place : ℕ → ℕ → M A Bool
  unfolding edit_array_impl on_cells
  grow_in_place place amount s =
      (edit_array_impl >>= λ _.
      when (not (place == s.count))
        (own_buffer >>= λ p. do_move_forward p (place + amount) place (s.count - place))
      >> pure true)
        s

  -- `VectorImpl::_grow`: the first of the free places, or null
  unfoldable pub grow : ℕ → ℕ → M A (Option ℕ)
  unfolding capacity grow_storage grow_in_place item_location
  grow place amount s =
      let new_size = s.count + amount in
      (fatal_if (ltb s.count place) >> fatal_if (leb (2 ^ 64) new_size) >> capacity >>= λ c.
      choose (ltb c new_size) (grow_storage place amount) (grow_in_place place amount) >>= λ grown.
      choose grown (set_count new_size >> item_location place) (pure none))
        s

  -- `_shrink` where much of the capacity is unused
  unfoldable pub shrink_storage : ℕ → ℕ → M A Bool
  unfolding resize_storage replace_storage
  shrink_storage place amount s =
      let new_size = s.count - amount in
      let bytes = max min_capacity (new_size * 2) * e.item_size in
      choose ((place == new_size) && plain) (resize_storage bytes)
        (replace_storage bytes place (not (place == new_size)) place (place + amount)
          (new_size - place))
        s

  -- `_shrink` in the same buffer
  unfoldable pub shrink_in_place : ℕ → ℕ → M A Bool
  unfolding edit_array_impl on_cells
  shrink_in_place place amount s =
      let new_size = s.count - amount in
      (edit_array_impl >>= λ _. own_buffer >>= λ p.
      do_destroy p place amount
      >> when (not (place == new_size))
          (do_move_backward p place (place + amount) (new_size - place))
      >> pure true)
        s

  -- `VectorImpl::_shrink`
  unfoldable pub shrink : ℕ → ℕ → M A (Unit {0})
  unfolding capacity shrink_storage shrink_in_place
  shrink place amount s =
      let new_size = s.count - amount in
      (choose (is_some s.storage)
          (fatal_if (ltb s.count (place + amount))
            >> fatal_if (ltb s.count amount)
            >> capacity
            >>= λ c.
                choose (ltb new_size (c / 2) && ltb min_capacity c) (shrink_storage place amount)
                  (shrink_in_place place amount)
                >>= λ shrunk. when shrunk (set_count new_size))
          (pure tt))
        s
