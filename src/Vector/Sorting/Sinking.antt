-- ===== src/Vector/Sorting/Sinking.antt =====
-- The inner loop of `VectorImpl::sort` of libutils/VectorImpl.cpp, on the objects of a buffer that the
-- vector owns alone.
use android_native_mac_ports.Base.Int.{ℤ}
use android_native_mac_ports.Base.{
  ℕ, zero, suc, ◌+◌, ◌-◌, ◌/◌, ◌≤◌, ◌<◌, true, false, some, List, length, get_elem?,
  get_elem?-below, ◌==◌, if◌then◌else◌, update, ◌≡◌, refl, ap, ◌∙◌, fun_ext, arith, inl, inr,
  Bool-cases,
}
use android_native_mac_ports.Vector.Memory.{Memory, cleared, destroy_type, copy_type}
use android_native_mac_ports.Vector.Memory.Runs.{destroy_type_lem, copy_type_lem}
use android_native_mac_ports.Vector.Heap.{Setup, Block, State, ok, M, ◌>>=◌, get_block}
use android_native_mac_ports.Vector.Storage.{on_cells, do_destroy}
use android_native_mac_ports.Vector.Validity.{overwritten}
use android_native_mac_ports.Vector.Steps.{binds, then_runs, get_block_lem}
use android_native_mac_ports.Vector.Contents.{fills}
use android_native_mac_ports.Vector.Sorted.{object_at, item_at}
use android_native_mac_ports.Vector.Sorting.{greater, move_item, shift_loop}
use android_native_mac_ports.Vector.Sorting.Swaps.{
  swap_at, length-swap_at, get_elem?-swap_at, IsOrder, IsSortedBut, swap_at-IsSortedBut,
}
use android_native_mac_ports.Vector.Sorting.Stable.{
  Rearranged, Rearranged-trans, swap_at-Rearranged,
}

only_one : (d i : ℕ) → d ≤ i → i < d + 1 → i ≡ d
only_one d i h k = omega arith

same_place : (d s i : ℕ) → d ≡ i → s + (i - d) ≡ s
same_place d s i h = omega arith

object_at_lem :
    {A : Type 0} (m : Memory A) (x : A) → m 0 ≡ some x → (s : State A) → object_at m 0 s ≡ ok x s
unfolding object_at
object_at_lem m x at s = ground arith

module _ {A : Type 0} (compare_items : A → A → ℤ) (e : Setup A) (base : State A) (p : ℕ)
    (b : Block A) (n : ℕ) (storage : base.storage ≡ some p) (room : n ≤ b.size / e.item_size) where
  -- The vector with its objects.
  abbrev pub with_objects : Memory A → State A
  with_objects m = overwritten base p b m n

  pub get_block_here :
      (m : Memory A) → get_block p (with_objects m) ≡ ok (record b { cells = m }) (with_objects m)
  get_block_here m = get_block_lem p (record b { cells = m }) (with_objects m) (ground arith)

  abbrev pub emptied : ℕ → Memory A → Memory A
  emptied d m = if e.traits.has_trivial_dtor then m else cleared d 1 m

  -- An object is destroyed, and another one is copied to its place.
  pub overwrites :
      (d s : ℕ) (m from : Memory A) (x y : A)
      → d < n
      → m d ≡ some x
      → from s ≡ some y
      → (do_destroy e p d 1 (with_objects m) ≡ ok tt (with_objects (emptied d m)))
        × (on_cells e p (d + 1) (copy_type e.traits d s 1 from) (with_objects (emptied d m))
            ≡ ok tt (with_objects (update m d (some y))))
  overwrites d s m from x y low at_d at_s = (
    fills e base p b m (emptied d m) n (d + 1) (destroy_type e.traits d 1)
        (destroy_type_lem e.traits d 1 m λ i h k. (x, ap m (only_one d i h k) ∙ at_d))
        (omega (arith, room)),
    fills e base p b (emptied d m) (update m d (some y)) n (d + 1) (copy_type e.traits d s 1 from)
        (copy_type_lem e.traits d s 1 from (emptied d m)
            (λ i h k. (y, ap from (only_one s i h k) ∙ at_s))
          ∙ ap some (
              fun_ext λ i. elim (Bool-cases (d == i)) [
                | inl here ↦ ground (arith, ap from (same_place d s i (ground arith)))
                | inr elsewhere ↦ ground arith
              ]))
        (omega (arith, room)),
  )

  move_item_lem :
      (d s : ℕ) (m : Memory A) (x y : A)
      → d < n
      → (d == s) ≡ false
      → m d ≡ some x
      → m s ≡ some y
      → move_item compare_items e p d s (with_objects m)
        ≡ ok tt (with_objects (update m d (some y)))
  unfolding move_item
  move_item_lem d s m x y low apart at_d at_s =
      let (destroyed, copied_there) = overwrites d s m (emptied d m) x y low at_d (ground arith) in
      then_runs (do_destroy e p d 1) _ (with_objects m) (with_objects (emptied d m)) destroyed
      ∙ binds (get_block p) _ (with_objects (emptied d m)) (with_objects (emptied d m))
          (record b { cells = emptied d m }) (get_block_here (emptied d m))
      ∙ copied_there

  pub item_at_here :
      (m : Memory A) (i : ℕ) (x : A)
      → m i ≡ some x
      → item_at i (with_objects m) ≡ ok x (with_objects m)
  unfolding item_at object_at ◌>>=◌ get_block
  item_at_here m i x at = ground arith

  module _ (laws : IsOrder compare_items) (temp : Memory A) (t : A) (held : temp 0 ≡ some t)
      (top : ℕ) where
    -- The objects are those of a list in which `t` is on its way and has come to `hole`, where an old
    -- object stands yet.
    pub record Sunk (m : Memory A) (ys : List A) (hole : ℕ) : Type 0 where
      pub agrees : (i : ℕ) → i < n → (hole == i) ≡ false → m i ≡ get_elem? ys i
      pub old : A
      pub old_at : m hole ≡ some old
      pub itself : get_elem? ys hole ≡ some t
      pub sorted : IsSortedBut compare_items hole top ys
      pub size : length ys ≡ n
      pub low : hole ≤ top

    sinks :
        (k : ℕ) (m : Memory A) (ys : List A) (c : A)
        → suc k < n
        → Sunk m ys (suc k)
        → get_elem? ys k ≡ some c
        → greater compare_items c t ≡ true
        → (move_item compare_items e p (suc k) k (with_objects m)
            ≡ ok tt (with_objects (update m (suc k) (some c))))
          × Sunk (update m (suc k) (some c)) (swap_at k ys) k
          × Rearranged compare_items (swap_at k ys) ys
    sinks k m ys c below sunk at_c is_greater =
        let size = sunk.size in
        let room_ys : suc k < length ys = omega arith in
        let at_k : m k ≡ some c = sunk.agrees k (omega arith) (ground arith) ∙ at_c in
        (
          move_item_lem (suc k) k m sunk.old c below (ground arith) sunk.old_at at_k,
          record {
            agrees = λ i h but. ground (arith, get_elem?-swap_at k ys i room_ys, sunk.agrees i h);
            old = c;
            old_at = ground arith;
            itself = ground (arith, get_elem?-swap_at k ys k room_ys, sunk.itself);
            sorted =
                swap_at-IsSortedBut compare_items laws k top ys c t room_ys at_c sunk.itself
                  is_greater sunk.sorted;
            size = length-swap_at k ys ∙ sunk.size;
            low = omega (arith, sunk.low);
          },
          swap_at-Rearranged compare_items k ys c t at_c sunk.itself is_greater,
        )

    -- How the loop ends: the item has passed all that are greater.
    abbrev pub Sinks : ℕ → Memory A → List A → M A ℕ → Type 0
    Sinks k m ys run =
        (next : ℕ) × (m' : Memory A) × (ys' : List A) × (run (with_objects m)
          ≡ ok next (with_objects m'))
        × Sunk m' ys' next
        × Rearranged compare_items ys' ys
        × ((j : ℕ) (c : A)
            → next ≡ suc j
            → get_elem? ys' j ≡ some c
            → greater compare_items c t ≡ false)

    pub shift_loop-Sinks :
        (k : ℕ) (m : Memory A) (ys : List A) (c : A)
        → suc k < n
        → Sunk m ys (suc k)
        → get_elem? ys k ≡ some c
        → greater compare_items c t ≡ true
        → Sinks k m ys (shift_loop compare_items e p temp k)
    unfolding shift_loop
    shift_loop-Sinks zero m ys c below sunk at_c is_greater =
        let (moved_up, sunk', swapped) = sinks zero m ys c below sunk at_c is_greater in
        (
          0,
          update m 1 (some c),
          swap_at 0 ys,
          then_runs _ _ (with_objects m) (with_objects (update m 1 (some c))) moved_up,
          sunk',
          swapped,
          λ j d h at_d. absurd (omega arith),
        )
    shift_loop-Sinks (suc k) m ys c below sunk at_c is_greater =
        let (moved_up, sunk', swapped) = sinks (suc k) m ys c below sunk at_c is_greater in
        let m1 = update m (suc (suc k)) (some c) in
        let ys1 = swap_at (suc k) ys in
        let size = sunk'.size in
        let (d, at_d) = get_elem?-below ys1 k (omega arith) in
        let m1_at : m1 k ≡ some d = sunk'.agrees k (omega arith) (ground arith) ∙ at_d in
        let reads = item_at_here m1 k d m1_at in
        let holds = object_at_lem temp t held (with_objects m1) in
        elim (Bool-cases (greater compare_items d t)) [
          | inl more ↦
              let (next, m2, ys2, ran, sunk2, perm, stop) =
                shift_loop-Sinks k m1 ys1 d (omega arith) sunk' at_d more in
              (
                next,
                m2,
                ys2,
                then_runs _ _ (with_objects m) (with_objects m1) moved_up
                    ∙ binds (item_at k) _ (with_objects m1) (with_objects m1) d reads
                    ∙ binds (object_at temp 0) _ (with_objects m1) (with_objects m1) t holds
                    ∙ rw more ran,
                sunk2,
                Rearranged-trans compare_items ys2 ys1 ys perm swapped,
                stop,
              )
          | inr enough ↦ (
            suc k,
            m1,
            ys1,
            then_runs _ _ (with_objects m) (with_objects m1) moved_up
                ∙ binds (item_at k) _ (with_objects m1) (with_objects m1) d reads
                ∙ binds (object_at temp 0) _ (with_objects m1) (with_objects m1) t holds
                ∙ rw enough refl,
            sunk',
            swapped,
            λ j a h at_a.
                let j_is : k ≡ j = omega arith in
                let a_is : d ≡ a = let same = ap (get_elem? ys1) j_is in cc in rw (← a_is) enough,
          )
        ]
