-- ===== src/Vector/Operations.antt =====
-- The public operations of libutils/VectorImpl.cpp. Items that a caller passes lie outside of the
-- vector's own storage.
use android_native_mac_ports.Base.{ℕ, ◌+◌, ◌-◌, ◌*◌, ◌^◌, not, Option, none, some, ltb, leb, ◌==◌}
use android_native_mac_ports.Vector.Memory.{Memory}
use android_native_mac_ports.Vector.Heap.{
  Setup, ok, fault, M, pure, ◌>>=◌, ◌>>◌, fatal_if, when, choose, get_block, alloc, acquire,
}
use android_native_mac_ports.Vector.Storage.{
  set_storage, set_count, own_buffer, do_construct, do_destroy, do_splat, do_copy_array, do_copy,
  release_storage, capacity, edit_item_location, grow, shrink,
}

pub data Status : Type 0 where
  bad_index bad_value no_memory name_not_found : Status

-- An `ssize_t`: an index or a size, or a negative status.
pub data Answer : Type 0 where
  at : ℕ → Answer
  failed : Status → Answer

-- The members of a vector whose method does not run.
pub record Handle : Type 0 where
  pub storage : Option ℕ
  pub count : ℕ

-- The item that `replaceAt` is given: none, so that one is constructed, one of the caller's, or the very
-- item that is to be replaced.
pub data Prototype (A : Type 0) : Type 0 where
  default_item : Prototype A
  item : A → Prototype A
  same_place : Prototype A

module _ {A : Type 0} (e : Setup A) where
  -- `VectorImpl::insertArrayAt`
  unfoldable pub insert_array_at : Memory A → ℕ → ℕ → M A Answer
  unfolding grow
  insert_array_at array index length s =
      choose (ltb s.count index) (pure (failed bad_index))
        (grow e index length >>= λ r. elim r [
          | none ↦ pure (failed no_memory)
          | some place ↦ own_buffer >>= λ p. do_copy_array e p place array length >> pure (at index)
        ])
        s

  -- `VectorImpl::appendArray`
  unfoldable pub append_array : Memory A → ℕ → M A Answer
  unfolding insert_array_at
  append_array array length s = insert_array_at array s.count length s

  -- The items of another vector: those in its buffer.
  unfoldable pub array_of : Handle → M A (Memory A)
  unfolding get_block
  array_of v s = elim v.storage [
    | none ↦ ok (λ _. none) s
    | some p ↦ (get_block p >>= λ b. pure b.cells) s
  ]

  -- `VectorImpl::insertVectorAt`, of another vector
  unfoldable pub insert_vector_at : Handle → ℕ → M A Answer
  unfolding array_of insert_array_at
  insert_vector_at v index = array_of v >>= λ array. insert_array_at array index v.count

  -- `VectorImpl::appendVector`
  unfoldable pub append_vector : Handle → M A Answer
  unfolding insert_vector_at
  append_vector v s = insert_vector_at v s.count s

  -- `VectorImpl::insertAt`, where no item means a null pointer
  unfoldable pub insert_at : Option A → ℕ → ℕ → M A Answer
  unfolding grow
  insert_at given index num_items s =
      choose (ltb s.count index) (pure (failed bad_index))
        (grow e index num_items >>= λ r. elim r [
          | none ↦ pure (failed no_memory)
          | some place ↦ own_buffer >>= λ p.
              (elim given [
                | some x ↦ do_splat e p place x num_items
                | none ↦ do_construct e p place num_items
              ])
              >> pure (at index)
        ])
        s

  -- `VectorImpl::add` and `VectorImpl::push`, which drops the answer
  unfoldable pub add : Option A → M A Answer
  unfolding insert_at
  add given s = insert_at given s.count 1 s

  unfoldable pub push : Option A → M A (Unit {0})
  unfolding add
  push given = add given >>= λ _. pure tt

  -- `VectorImpl::replaceAt`
  unfoldable pub replace_at : Prototype A → ℕ → M A Answer
  unfolding edit_item_location
  replace_at prototype index s =
      (fatal_if (not (ltb index s.count))
          >> choose (leb s.count index) (pure (failed bad_index)) (
              edit_item_location e index >>= λ r. elim r [
                | none ↦ pure (failed no_memory)
                | some place ↦ own_buffer >>= λ p.
                    (elim prototype [
                      | same_place ↦ pure tt
                      | default_item ↦ do_destroy e p place 1 >> do_construct e p place 1
                      | item x ↦ do_destroy e p place 1 >> do_copy_array e p place (λ _. some x) 1
                    ])
                    >> pure (at index)
              ]))
        s

  -- `VectorImpl::removeItemsAt`
  unfoldable pub remove_items_at : ℕ → ℕ → M A Answer
  unfolding shrink
  remove_items_at index n s =
      (fatal_if (leb (2 ^ 64) (index + n))
          >> choose (ltb s.count (index + n)) (pure (failed bad_value))
              (shrink e index n >> pure (at index)))
        s

  -- `VectorImpl::pop`
  unfoldable pub pop : M A (Unit {0})
  unfolding remove_items_at
  pop s = when (not (s.count == 0)) (remove_items_at (s.count - 1) 1 >>= λ _. pure tt) s

  -- `VectorImpl::finish_vector`
  unfoldable pub finish_vector : M A (Unit {0})
  unfolding release_storage
  finish_vector = release_storage e >> set_storage none >> set_count 0

  -- `VectorImpl::clear`
  unfoldable pub clear : M A (Unit {0})
  unfolding shrink
  clear s = shrink e 0 s.count s

  -- `VectorImpl::setCapacity`
  unfoldable pub set_capacity : ℕ → M A Answer
  unfolding capacity alloc do_copy release_storage
  set_capacity new_capacity s =
      choose (leb new_capacity s.count) (capacity e >>= λ c. pure (at c))
        (fatal_if (leb (2 ^ 64) (new_capacity * e.item_size))
          >> alloc e (new_capacity * e.item_size)
          >>= λ r. elim r [
            | none ↦ pure (failed no_memory)
            | some q ↦
                do_copy e q 0 0 s.count
                >> release_storage e
                >> set_storage (some q)
                >> pure (at new_capacity)
          ])
        s

  -- `VectorImpl::resize`
  unfoldable pub resize : ℕ → M A Answer
  unfolding insert_at remove_items_at
  resize size s =
      (choose (ltb s.count size) (insert_at none s.count (size - s.count))
            (choose (ltb size s.count) (remove_items_at size (s.count - size)) (pure (at 0)))
          >>= λ result. elim result [ failed f ↦ pure (failed f) | at _ ↦ pure (at size) ])
        s

  -- The copy constructor, which sets the members of a new vector
  unfoldable pub copy_construct : Handle → M A (Unit {0})
  unfolding acquire
  copy_construct rhs =
      set_storage rhs.storage
      >> set_count rhs.count
      >> elim rhs.storage [ none ↦ pure tt | some p ↦ acquire e p ]

  -- `VectorImpl::operator=`, from another vector
  unfoldable pub assign : Handle → M A (Unit {0})
  unfolding release_storage acquire
  assign rhs =
      release_storage e
      >> choose (not (rhs.count == 0))
          (set_storage rhs.storage
            >> set_count rhs.count
            >> elim rhs.storage [ none ↦ λ _. fault | some p ↦ acquire e p ])
          (set_storage none >> set_count 0)
