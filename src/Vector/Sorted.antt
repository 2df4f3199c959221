-- ===== src/Vector/Sorted.antt =====
-- SortedVectorImpl of libutils/VectorImpl.cpp: binary search, and the operations that keep the order.
pub mod Search
pub mod Adding
use android_native_mac_ports.Base.{
  ℕ, zero, suc, ◌+◌, ◌-◌, ◌/◌, ◌^◌, Option, none, some, ◌==◌, ltb, if◌then◌else◌,
}
use android_native_mac_ports.Base.Int.{ℤ, pos, ltb_ℤ, leb_ℤ, eqb_ℤ}
use android_native_mac_ports.Vector.Memory.{Memory}
use android_native_mac_ports.Vector.Heap.{
  Setup, State, ok, fault, M, pure, ◌>>=◌, ◌>>◌, choose, get_block,
}
use android_native_mac_ports.Vector.Storage.{item_location}
use android_native_mac_ports.Vector.Operations.{
  Status, name_not_found, Answer, at, failed, Handle, item, array_of, insert_at, insert_vector_at,
  append_vector, replace_at, remove_items_at,
}

module _ {A : Type 0} where
  -- The object at a place of a memory.
  unfoldable pub object_at : Memory A → ℕ → M A A
  object_at m i s = elim (m i) [ none ↦ fault | some x ↦ ok x s ]

  -- The object at a place of the vector's buffer.
  unfoldable pub item_at : ℕ → M A A
  unfolding get_block object_at
  item_at i s = elim s.storage [
    | none ↦ fault
    | some p ↦ (get_block p >>= λ b. object_at b.cells i) s
  ]

-- `do_compare` is the virtual function of the subclass.
module _ {A : Type 0} (compare_items : A → A → ℤ) where
  -- The loop of `_indexOrderOf` between `l` and `h = above - 1`: the index, if it was found, and the last
  -- value of `l`
  unfoldable pub search_loop : ℕ → A → ℕ → ℕ → M A (Option ℕ × ℕ)
  unfolding item_at
  search_loop zero x l above = λ _. fault
  search_loop (suc fuel) x l above =
      let mid = l + (above - 1 - l) / 2 in
      let right = search_loop fuel x (mid + 1) above in
      let left = search_loop fuel x l mid in
      choose (ltb l above)
        (item_at mid >>= λ curr.
          let c = compare_items curr x in
          choose (eqb_ℤ c (pos 0)) (pure (some mid, mid)) (choose (ltb_ℤ c (pos 0)) right left))
        (pure (none, l))

  -- `SortedVectorImpl::_indexOrderOf`: each round halves the range, so that the size bounds them.
  unfoldable pub index_order_of : A → M A (Option ℕ × ℕ)
  unfolding search_loop
  index_order_of x s =
      choose (s.count == 0) (pure (none, 0)) (search_loop (suc s.count) x 0 s.count) s

  -- `SortedVectorImpl::indexOf`
  unfoldable pub index_of : A → M A Answer
  unfolding index_order_of
  index_of x = index_order_of x >>= λ r. elim r.0 [
    | none ↦ pure (failed name_not_found)
    | some i ↦ pure (at i)
  ]

  -- `SortedVectorImpl::orderOf`
  unfoldable pub order_of : A → M A ℕ
  unfolding index_order_of
  order_of x = index_order_of x >>= λ r. pure (r.1)

  module _ (e : Setup A) where
    -- `SortedVectorImpl::add`
    unfoldable pub sorted_add : A → M A Answer
    unfolding index_order_of insert_at replace_at
    sorted_add x = index_order_of x >>= λ r. elim r.0 [
      | none ↦ insert_at e (some x) (r.1) 1
      | some i ↦ replace_at e (item x) i
    ]

    -- `SortedVectorImpl::remove`
    unfoldable pub sorted_remove : A → M A Answer
    unfolding index_of remove_items_at
    sorted_remove x = index_of x >>= λ r. elim r [
      | failed f ↦ pure (failed f)
      | at i ↦ remove_items_at e i 1 >>= λ _. pure (at i)
    ]

    -- The loop of `merge` with a vector: its items from `i` on
    unfoldable pub merge_loop : ℕ → ℕ → Memory A → M A Answer
    unfolding sorted_add object_at
    merge_loop zero i m = pure (at 0)
    merge_loop (suc n) i m = object_at m i >>= λ x.
        sorted_add x >>= λ r. elim r [ failed f ↦ pure (failed f) | at _ ↦ merge_loop n (suc i) m ]

    -- `SortedVectorImpl::merge` with a vector
    unfoldable pub merge : Handle → M A Answer
    unfolding merge_loop array_of
    merge v = array_of e v >>= λ m. merge_loop v.count 0 m

    -- `SortedVectorImpl::merge` with a sorted vector. `itemLocation` of its last item is in range.
    unfoldable pub merge_sorted : Handle → M A Answer
    unfolding merge array_of object_at item_at insert_vector_at append_vector item_location
    merge_sorted v s =
        choose (v.count == 0) (pure (at 0))
          (array_of e v >>= λ m. object_at m (v.count - 1) >>= λ last. item_at 0 >>= λ first.
            choose (leb_ℤ (compare_items last first) (pos 0)) (insert_vector_at e v 0) (
              object_at m 0 >>= λ head.
              item_location e (if s.count == 0 then 2 ^ 64 - 1 else s.count - 1) >>= λ _.
              item_at (s.count - 1) >>= λ end.
              choose (leb_ℤ (pos 0) (compare_items head end)) (append_vector e v) (merge v)))
          s
