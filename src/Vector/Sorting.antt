-- ===== src/Vector/Sorting.antt =====
-- `VectorImpl::sort` of libutils/VectorImpl.cpp, a stable insertion sort.
pub mod Swaps
pub mod Stable
pub mod Sinking
pub mod Rounds
pub mod Whole
use android_native_mac_ports.Base.{
  ℕ, zero, suc, ◌+◌, ◌-◌, Bool, Option, none, some, ltb, if◌then◌else◌,
}
use android_native_mac_ports.Base.Int.{ℤ, pos, ltb_ℤ}
use android_native_mac_ports.Vector.Memory.{Memory, destroy_type, copy_type}
use android_native_mac_ports.Vector.Heap.{Setup, ok, fault, M, pure, ◌>>=◌, ◌>>◌, choose, get_block}
use android_native_mac_ports.Vector.Storage.{on_cells, do_destroy, own_buffer, edit_array_impl}
use android_native_mac_ports.Vector.Operations.{no_memory, Answer, at, failed}
use android_native_mac_ports.Vector.Sorted.{object_at, item_at}

module _ {A : Type 0} (compare_items : A → A → ℤ) where
  -- `cmp(a, b) > 0`
  abbrev pub greater : A → A → Bool
  greater a b = ltb_ℤ (pos 0) (compare_items a b)

  module _ (e : Setup A) where
    -- The object at place `s` of the buffer is copied over the one at place `d`.
    unfoldable pub move_item : ℕ → ℕ → ℕ → M A (Unit {0})
    unfolding on_cells get_block
    move_item p d s = do_destroy e p d 1 >> get_block p >>= λ b.
        on_cells e p (d + 1) (copy_type e.traits d s 1 b.cells)

    -- The inner loop of `sort` with `curr` at place `k` and `next` behind it, and the place that `next` has
    -- at its end; the memory is the one of `temp`
    unfoldable pub shift_loop : ℕ → Memory A → ℕ → M A ℕ
    unfolding move_item item_at object_at
    shift_loop p temp zero = move_item p 1 0 >> pure 0
    shift_loop p temp (suc k) =
        let further = shift_loop p temp k in
        move_item p (suc (suc k)) (suc k) >> item_at k >>= λ curr.
        object_at temp 0 >>= λ held. choose (greater curr held) further (pure (suc k))

    -- `temp` for one more item: it is allocated, or its object is destroyed.
    unfoldable pub prepare_temp : Option (Memory A) → M A (Option (Memory A))
    unfolding edit_array_impl
    prepare_temp none = edit_array_impl e >>= λ array. elim array [
      | none ↦ pure none
      | some _ ↦ λ s. ok (if e.malloc_gives e.item_size s.fresh then some (λ _. none) else none) s
    ]
    prepare_temp (some temp) = elim (destroy_type e.traits 0 1 temp) [
      | none ↦ λ _. fault
      | some left ↦ pure (some left)
    ]

    -- The item at `i` goes to its place among those before it, by way of `temp`.
    unfoldable pub place_item : ℕ → Memory A → M A (Memory A)
    unfolding shift_loop get_block on_cells
    place_item i temp = own_buffer >>= λ p. get_block p >>= λ b.
        elim (copy_type e.traits 0 i 1 b.cells temp) [
          | none ↦ λ _. fault
          | some held ↦ shift_loop p held (i - 1) >>= λ next.
              do_destroy e p next 1
              >> on_cells e p (next + 1) (copy_type e.traits next 0 1 held)
              >> pure held
        ]

    -- The outer loop of `sort` from item `i` on, and what follows it
    unfoldable pub sort_loop : ℕ → ℕ → Option (Memory A) → M A Answer
    unfolding prepare_temp place_item item_at
    sort_loop zero i none = pure (at 0)
    sort_loop zero i (some temp) = elim (destroy_type e.traits 0 1 temp) [
      | none ↦ λ _. fault
      | some _ ↦ pure (at 0)
    ]
    sort_loop (suc rounds) i temp = item_at (i - 1) >>= λ curr. item_at i >>= λ next_item.
        choose (greater curr next_item)
          (prepare_temp temp >>= λ r. elim r [
            | none ↦ pure (failed no_memory)
            | some t ↦ place_item i t >>= λ held. sort_loop rounds (suc i) (some held)
          ])
          (sort_loop rounds (suc i) temp)

    -- `VectorImpl::sort`
    unfoldable pub sort : M A Answer
    unfolding sort_loop
    sort s = choose (ltb 1 s.count) (sort_loop (s.count - 1) 1 none) (pure (at 0)) s
