-- ===== src/Vector/Tests.antt =====
-- The theorems on the vectors of libutils at two vectors that share a buffer, and short runs.
use android_native_mac_ports.Base.{
  ℕ, zero, suc, ◌<◌, ◌≤◌, true, false, Option, none, some, List, [], ◌∷◌, get_elem?, update, ◌≡◌,
  refl, arith, inl, inr, ltb-cases, get_elem?-below, get_elem?-above,
}
use android_native_mac_ports.Base.Int.{ℤ, sub_ℕ}
use android_native_mac_ports.Vector.Memory.{Traits, move_forward_type, moved}
use android_native_mac_ports.Vector.Memory.Runs.{Objects}
use android_native_mac_ports.Vector.Memory.Moves.{move_forward_type_lem}
use android_native_mac_ports.Vector.Heap.{Setup, Block, State, ok}
use android_native_mac_ports.Vector.Operations.{
  Handle, at, insert_array_at, remove_items_at, assign,
}
use android_native_mac_ports.Vector.Validity.{owners, here, items, content-at, Holds, Valid}
use android_native_mac_ports.Vector.Contents.{Represents, Settled}
use android_native_mac_ports.Vector.Insertion.{insert_array_at-Settled}
use android_native_mac_ports.Vector.Insertion.Nothing.{insert_array_at-destroys}
use android_native_mac_ports.Vector.Removal.{remove_items_at-Settled}
use android_native_mac_ports.Vector.RoundTrip.{insert-remove}
use android_native_mac_ports.Vector.Sharing.Copies.{Copied, assign-Copied}
use android_native_mac_ports.Vector.Sorted.{index_order_of, sorted_add}
use android_native_mac_ports.Vector.Sorted.Search.{
  IsComparison, IsAscending, Found, index_order_of-Found,
}
use android_native_mac_ports.Vector.Sorted.Adding.{Adds, sorted_add-Adds}
use android_native_mac_ports.Vector.Sorting.{sort}
use android_native_mac_ports.Vector.Sorting.Swaps.{IsOrder}
use android_native_mac_ports.Vector.Sorting.Whole.{Orders, sort-Orders}

-- Objects with a constructor, a destructor and a copy of their own, of eight bytes.
abbrev objects : Traits ℕ
objects = record {
  has_trivial_ctor = false;
  has_trivial_dtor = false;
  has_trivial_copy = false;
  has_trivial_move = false;
  made = 0;
}

abbrev setup : Setup ℕ
setup = record {
  traits = objects;
  item_size = 8;
  malloc_gives = λ _ _. true;
  realloc_gives = λ _ _. false;
}

abbrev two_items : List ℕ
two_items = 5 ∷ 9 ∷ []

abbrev shared_block : Block ℕ
shared_block = record { refs = 2; size = 40; cells = get_elem? two_items }

abbrev other_vector : Handle
other_vector = record { storage = some 0; count = 2 }

abbrev start : State ℕ
start = record {
  storage = some 0;
  count = 2;
  block = update (λ _. none) 0 (some shared_block);
  fresh = 1;
}

gives : (bytes q : ℕ) → setup.malloc_gives bytes q ≡ true
gives bytes q = refl

two_Objects : Objects 0 2 (get_elem? two_items)
two_Objects i low high = get_elem?-below two_items i (omega arith)

start-Holds : (v : Handle) → v.storage ≡ some 0 → v.count ≡ 2 → Holds setup start.block v
start-Holds v storage count = record {
  empty = λ eq. cc;
  buffer = λ p eq.
      (shared_block, ground arith, omega arith, λ i low high. two_Objects i low (omega arith));
}

start-Valid : Valid setup start (other_vector ∷ [])
unfolding owners
start-Valid = record {
  below = λ p b there. ground arith;
  counted = λ p b there. ground arith;
  sized = λ p b there. ground arith;
  own = start-Holds (here start) refl refl;
  held = (start-Holds other_vector refl refl, tt);
  few = omega arith;
}

start-Represents : Represents start two_items
start-Represents = record {
  size = refl;
  each = λ i.
      let there = content-at setup start.block (here start) i 0 shared_block refl refl in
      elim (ltb-cases i 2) [
        | inl below ↦ ground (arith, there)
        | inr above ↦ ground (arith, there, get_elem?-above two_items i above)
      ];
}

-- Numbers by size.
abbrev compare_numbers : ℕ → ℕ → ℤ
compare_numbers = sub_ℕ

numbers-IsComparison : IsComparison compare_numbers
numbers-IsComparison = record {
  less_trans = λ a b c h k. ground arith;
  less-same = λ a b c h k. ground arith;
  same-less = λ a b c h k. ground arith;
  same_sym = λ a b h. ground arith;
  greater-less = λ a b h k. ground arith;
}

two-IsAscending : IsAscending compare_numbers two_items
two-IsAscending zero zero x y h p q = absurd (omega arith)
two-IsAscending zero (suc zero) x y h p q = ground arith
two-IsAscending zero (suc (suc j)) x y h p q = cc
two-IsAscending (suc zero) zero x y h p q = absurd (omega arith)
two-IsAscending (suc zero) (suc zero) x y h p q = absurd (omega arith)
two-IsAscending (suc zero) (suc (suc j)) x y h p q = cc
two-IsAscending (suc (suc i)) j x y h p q = cc

insert_array_at-Settled_example :
    (s' : State ℕ) × (insert_array_at setup (get_elem? (6 ∷ 7 ∷ [])) 1 2 start ≡ ok (at 1) s')
    × Settled setup start s' (other_vector ∷ []) (5 ∷ 6 ∷ 7 ∷ 9 ∷ [])
insert_array_at-Settled_example =
    insert_array_at-Settled setup gives (omega arith) start (other_vector ∷ []) start-Valid
      two_items start-Represents 1 (omega arith) (6 ∷ 7 ∷ []) (omega arith) refl

remove_items_at-Settled_example :
    (s' : State ℕ) × (remove_items_at setup 0 1 start ≡ ok (at 0) s')
    × Settled setup start s' (other_vector ∷ []) (9 ∷ [])
remove_items_at-Settled_example =
    remove_items_at-Settled setup gives (omega arith) start (other_vector ∷ []) start-Valid
      two_items start-Represents 0 1 (omega arith) (omega arith)

insert-remove_example :
    (s1 s2 : State ℕ) × (insert_array_at setup (get_elem? (6 ∷ 7 ∷ [])) 1 2 start ≡ ok (at 1) s1)
    × (remove_items_at setup 1 2 s1 ≡ ok (at 1) s2)
    × Represents s2 two_items
    × Valid setup s2 (other_vector ∷ [])
insert-remove_example =
    insert-remove setup gives (omega arith) start (other_vector ∷ []) start-Valid two_items
      start-Represents 1 (omega arith) (6 ∷ 7 ∷ []) (omega arith) refl

assign-Copied_example :
    (s' : State ℕ) × (assign setup other_vector start ≡ ok tt s')
    × Copied setup start s' other_vector []
assign-Copied_example = assign-Copied setup start other_vector [] start-Valid

insert_array_at-destroys_example :
    (s' : State ℕ) × (insert_array_at setup (λ _. none) 1 0 start ≡ ok (at 1) s')
    × (s'.count ≡ 2)
    × ((i : ℕ) → 1 ≤ i → i < 2 → items s' i ≡ none)
insert_array_at-destroys_example =
    insert_array_at-destroys setup gives start (other_vector ∷ []) start-Valid two_items
      start-Represents 1 (omega arith) refl refl (λ _. none)

index_order_of-Found_example :
    (r : Option ℕ) × (order : ℕ) × (index_order_of compare_numbers 7 start ≡ ok (r, order) start)
    × Found compare_numbers two_items 7 r order
index_order_of-Found_example =
    index_order_of-Found compare_numbers numbers-IsComparison start two_items start-Represents
      two-IsAscending 7

sorted_add-Adds_example :
    Adds compare_numbers numbers-IsComparison setup gives
      (omega arith)
      start
      (other_vector ∷ [])
      start-Valid
      two_items
      start-Represents
      two-IsAscending
      7
      (sorted_add compare_numbers setup 7)
sorted_add-Adds_example =
    sorted_add-Adds compare_numbers numbers-IsComparison setup gives (omega arith) start
      (other_vector ∷ []) start-Valid two_items start-Represents two-IsAscending 7 refl

move_forward_type_lem_example :
    move_forward_type objects 1 0 2 (get_elem? two_items)
    ≡ some (moved objects 1 0 2 (get_elem? two_items))
move_forward_type_lem_example =
    move_forward_type_lem objects 1 0 2 (get_elem? two_items) (omega arith) two_Objects

-- Numbers, the largest first.
abbrev compare_down : ℕ → ℕ → ℤ
compare_down a b = sub_ℕ b a

down-IsOrder : IsOrder compare_down
down-IsOrder = record { greater_asym = λ a b h. ground arith; le_trans = λ a b c h k. ground arith }

sort-Orders_example :
    Orders compare_down down-IsOrder setup gives start
      (other_vector ∷ [])
      start-Valid
      two_items
      start-Represents
      (sort compare_down setup)
sort-Orders_example =
    sort-Orders compare_down down-IsOrder setup gives start (other_vector ∷ []) start-Valid
      two_items start-Represents
