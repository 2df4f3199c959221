-- ===== src/Vector/Memory.antt =====
-- libutils/include/utils/TypeHelpers.h: creating, destroying, copying and moving runs of objects.
-- A memory gives the object of each place, or `none` where no object lives. Places are counted in
-- objects. A use of a place that has no object gives `none`.
pub mod Runs
pub mod Moves
use android_native_mac_ports.Base.{
  ℕ, zero, suc, ◌+◌, ◌-◌, Bool, ◌&&◌, ◌||◌, not, Option, none, some, ltb, leb, if◌then◌else◌,
  update,
}

-- `traits<TYPE>`, and the object that the default constructor makes.
pub record Traits {ℓ} (A : Type ℓ) : Type ℓ where
  pub has_trivial_ctor : Bool
  pub has_trivial_dtor : Bool
  pub has_trivial_copy : Bool
  pub has_trivial_move : Bool
  pub made : A

abbrev pub Memory {ℓ} : Type ℓ → Type ℓ
Memory A = ℕ → Option A

-- Whether place `i` is one of the `n` places from `p`.
abbrev pub inside : ℕ → ℕ → ℕ → Bool
inside p n i = leb p i && ltb i (p + n)

module _ {ℓ} {A : Type ℓ} where
  -- `memcpy` from another memory, and `memmove` within one.
  abbrev pub copied : ℕ → ℕ → ℕ → Memory A → Memory A → Memory A
  copied d s n from m i = if inside d n i then from (s + (i - d)) else m i

  abbrev pub cleared : ℕ → ℕ → Memory A → Memory A
  cleared p n m i = if inside p n i then none else m i

  abbrev pub filled : ℕ → ℕ → A → Memory A → Memory A
  filled p n x m i = if inside p n i then some x else m i

  module _ (t : Traits A) where
    construct_loop : ℕ → ℕ → Memory A → Memory A
    construct_loop p zero m = m
    construct_loop p (suc n) m = construct_loop (suc p) n (update m p (some t.made))

    -- `construct_type`
    unfoldable pub construct_type : ℕ → ℕ → Memory A → Memory A
    unfolding construct_loop
    construct_type p n m = if t.has_trivial_ctor then m else construct_loop p n m

    destroy_loop : ℕ → ℕ → Memory A → Option (Memory A)
    destroy_loop p zero m = some m
    destroy_loop p (suc n) m = elim (m p) [
      | none ↦ none
      | some _ ↦ destroy_loop (suc p) n (update m p none)
    ]

    -- `destroy_type`
    unfoldable pub destroy_type : ℕ → ℕ → Memory A → Option (Memory A)
    unfolding destroy_loop
    destroy_type p n m = if t.has_trivial_dtor then some m else destroy_loop p n m

    copy_loop : ℕ → ℕ → ℕ → Memory A → Memory A → Option (Memory A)
    copy_loop d s zero from m = some m
    copy_loop d s (suc n) from m = elim (from s) [
      | none ↦ none
      | some x ↦ copy_loop (suc d) (suc s) n from (update m d (some x))
    ]

    -- `copy_type`, from the memory of another block
    unfoldable pub copy_type : ℕ → ℕ → ℕ → Memory A → Memory A → Option (Memory A)
    unfolding copy_loop
    copy_type d s n from m =
        if t.has_trivial_copy then some (copied d s n from m) else copy_loop d s n from m

    -- `splat_type`: both of its branches make the same copies.
    unfoldable pub splat_type : ℕ → A → ℕ → Memory A → Memory A
    splat_type p x zero m = m
    splat_type p x (suc n) m = splat_type (suc p) x n (update m p (some x))

    -- `use_trivial_move`
    abbrev pub use_trivial_move : Bool
    use_trivial_move = (t.has_trivial_dtor && t.has_trivial_copy) || t.has_trivial_move

    -- One object moved from `s` to `d`: a copy, and the destructor of the original.
    move_one : ℕ → ℕ → Memory A → Option (Memory A)
    move_one d s m = elim (m s) [
      | none ↦ none
      | some x ↦
          let copy = update m d (some x) in
          some (if t.has_trivial_dtor then copy else update copy s none)
    ]

    move_forward_loop : ℕ → ℕ → ℕ → Memory A → Option (Memory A)
    move_forward_loop d s zero m = some m
    move_forward_loop d s (suc n) m = elim (move_one (d + n) (s + n) m) [
      | none ↦ none
      | some m' ↦ move_forward_loop d s n m'
    ]

    -- `move_forward_type`, from the last object to the first
    unfoldable pub move_forward_type : ℕ → ℕ → ℕ → Memory A → Option (Memory A)
    unfolding move_forward_loop move_one
    move_forward_type d s n m =
        if use_trivial_move then some (copied d s n m m) else move_forward_loop d s n m

    move_backward_loop : ℕ → ℕ → ℕ → Memory A → Option (Memory A)
    move_backward_loop d s zero m = some m
    move_backward_loop d s (suc n) m = elim (move_one d s m) [
      | none ↦ none
      | some m' ↦ move_backward_loop (suc d) (suc s) n m'
    ]

    -- `move_backward_type`, from the first object to the last
    unfoldable pub move_backward_type : ℕ → ℕ → ℕ → Memory A → Option (Memory A)
    unfolding move_backward_loop move_one
    move_backward_type d s n m =
        if use_trivial_move then some (copied d s n m m) else move_backward_loop d s n m

    -- The places that a move leaves: they keep their bits where nothing is destroyed.
    abbrev pub vacates : Bool
    vacates = not use_trivial_move && not t.has_trivial_dtor

    -- The move of all objects at once: the destination has them, and the other places of the source
    -- are empty where the move destroys.
    abbrev pub moved : ℕ → ℕ → ℕ → Memory A → Memory A
    moved d s n m i =
        if inside d n i then m (s + (i - d)) else if vacates && inside s n i then none else m i
