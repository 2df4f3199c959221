-- ===== src/Vector/Memory/Moves.antt =====
-- The moves of libutils/include/utils/TypeHelpers.h within one memory, whose runs may overlap.
use android_native_mac_ports.Base.{
  ℕ, zero, suc, ◌+◌, ◌-◌, ◌≤◌, ◌<◌, true, false, not, ◌&&◌, none, some, ◌≡◌, refl, ap, ◌∙◌, fun_ext,
  arith, inl, inr, Bool-cases, ltb-cases, if◌then◌else◌, update, Bool,
}
use android_native_mac_ports.Vector.Memory.{
  Traits, Memory, inside, cleared, copied, moved, use_trivial_move, move_one, move_forward_loop,
  move_forward_type, move_backward_loop, move_backward_type,
}
use android_native_mac_ports.Vector.Memory.Runs.{Objects, shift_index, same_index}

at_end : (d s n i : ℕ) → i ≤ d + n → d + n ≤ i → s + (i - d) ≡ s + n
at_end d s n i h k = omega arith

module _ {A : Type 0} (t : Traits A) where
  -- What one step of the loop leaves.
  abbrev one_moved : ℕ → ℕ → A → Memory A → Memory A
  one_moved d s x m =
      if t.has_trivial_dtor then update m d (some x) else update (update m d (some x)) s none

  -- The whole move by steps, where the loop destroys (`gone`) or does not.
  abbrev all_moved : Bool → ℕ → ℕ → ℕ → Memory A → Memory A
  all_moved gone d s n m i =
      if inside d n i then m (s + (i - d)) else if gone && inside s n i then none else m i

  move_one_lem :
      (d s : ℕ) (x : A) (m : Memory A) → m s ≡ some x → move_one t d s m ≡ some (one_moved d s x m)
  unfolding move_one
  move_one_lem d s x m e = rw (e, move_one) refl

  -- One step from the end, and the move of the rest.
  forward-suc :
      (d s n : ℕ) (x : A) (m : Memory A)
      → s < d
      → m (s + n) ≡ some x
      → all_moved (not t.has_trivial_dtor) d s n (one_moved (d + n) (s + n) x m)
        ≡ all_moved (not t.has_trivial_dtor) d s (suc n) m
  forward-suc d s n x m h e = fun_ext λ i. elim (ltb-cases i (d + n)) [
    | inl below ↦ ground arith
    | inr above ↦ elim (ltb-cases (d + n) i) [
      | inl after ↦ ground arith
      | inr at ↦ ground (arith, ap m (at_end d s n i at above))
    ]
  ]

  -- One step from the start, and the move of the rest.
  backward-suc :
      (d s n : ℕ) (x : A) (m : Memory A)
      → d < s
      → m s ≡ some x
      → all_moved (not t.has_trivial_dtor) (suc d) (suc s) n (one_moved d s x m)
        ≡ all_moved (not t.has_trivial_dtor) d s (suc n) m
  backward-suc d s n x m h e = fun_ext λ i. elim (ltb-cases d i) [
    | inl after ↦ ground (arith, ap m (shift_index d s i after))
    | inr before ↦ elim (ltb-cases i d) [
      | inl below ↦ ground arith
      | inr at ↦ ground (arith, ap m (same_index d s i before at))
    ]
  ]

  move_forward_loop_lem :
      (d s n : ℕ) (m : Memory A)
      → s < d
      → Objects s n m
      → move_forward_loop t d s n m ≡ some (all_moved (not t.has_trivial_dtor) d s n m)
  unfolding move_forward_loop
  move_forward_loop_lem d s zero m h o = ap some (fun_ext λ i. ground arith)
  move_forward_loop_lem d s (suc n) m h o =
      let (x, e) = o (s + n) (omega arith) (omega arith) in
      rw (move_one_lem (d + n) (s + n) x m e, move_forward_loop)
        (move_forward_loop_lem d s n (one_moved (d + n) (s + n) x m) h
            (λ i a b. let (y, f) = o i a (omega arith) in (y, ground arith))
          ∙ ap some (forward-suc d s n x m h e))

  move_backward_loop_lem :
      (d s n : ℕ) (m : Memory A)
      → d < s
      → Objects s n m
      → move_backward_loop t d s n m ≡ some (all_moved (not t.has_trivial_dtor) d s n m)
  unfolding move_backward_loop
  move_backward_loop_lem d s zero m h o = ap some (fun_ext λ i. ground arith)
  move_backward_loop_lem d s (suc n) m h o =
      let (x, e) = o s (omega arith) (omega arith) in
      rw (move_one_lem d s x m e, move_backward_loop)
        (move_backward_loop_lem (suc d) (suc s) n (one_moved d s x m) (omega arith)
            (λ i a b. let (y, f) = o i (omega arith) (omega arith) in (y, ground arith))
          ∙ ap some (backward-suc d s n x m h e))

  trivial-moved :
      (d s n : ℕ) (m : Memory A) → use_trivial_move t ≡ true → copied d s n m m ≡ moved t d s n m
  trivial-moved d s n m h = fun_ext λ i. ground arith

  loop-moved :
      (d s n : ℕ) (m : Memory A)
      → use_trivial_move t ≡ false
      → all_moved (not t.has_trivial_dtor) d s n m ≡ moved t d s n m
  loop-moved d s n m h = fun_ext λ i. ground arith

  -- For every type, and however the two runs overlap: a move towards higher places of a run of living
  -- objects goes through, and has the effect of moving all of them at once. Each place of the
  -- destination has the object that was at the place of the source with the same number, the places
  -- of the source outside the destination are empty if the move destroys, and no other place changes.
  pub move_forward_type_lem :
      (d s n : ℕ) (m : Memory A)
      → s < d
      → Objects s n m
      → move_forward_type t d s n m ≡ some (moved t d s n m)
  unfolding move_forward_type
  move_forward_type_lem d s n m h o = elim (Bool-cases (use_trivial_move t)) [
    | inl e ↦ rw e (ap some (trivial-moved d s n m e))
    | inr e ↦ rw e (move_forward_loop_lem d s n m h o ∙ ap some (loop-moved d s n m e))
  ]

  -- The same for a move towards lower places.
  pub move_backward_type_lem :
      (d s n : ℕ) (m : Memory A)
      → d < s
      → Objects s n m
      → move_backward_type t d s n m ≡ some (moved t d s n m)
  unfolding move_backward_type
  move_backward_type_lem d s n m h o = elim (Bool-cases (use_trivial_move t)) [
    | inl e ↦ rw e (ap some (trivial-moved d s n m e))
    | inr e ↦ rw e (move_backward_loop_lem d s n m h o ∙ ap some (loop-moved d s n m e))
  ]

  -- Where a move would leave every object at its place, a type that is copied and destroyed is destroyed.
  same_place_loop :
      (p n : ℕ) (m : Memory A)
      → t.has_trivial_dtor ≡ false
      → Objects p n m
      → move_forward_loop t p p n m ≡ some (cleared p n m)
  unfolding move_forward_loop
  same_place_loop p zero m h o = ap some (fun_ext λ i. ground arith)
  same_place_loop p (suc n) m h o =
      let (x, e) = o (p + n) (omega arith) (omega arith) in
      let gone : one_moved (p + n) (p + n) x m ≡ update m (p + n) none =
        fun_ext λ i. ground arith in
      rw (move_one_lem (p + n) (p + n) x m e, move_forward_loop, gone)
        (same_place_loop p n (update m (p + n) none) h
            (λ i a b. let (y, f) = o i a (omega arith) in (y, ground arith))
          ∙ ap some (fun_ext λ i. ground arith))

  pub same_place_lem :
      (p n : ℕ) (m : Memory A)
      → use_trivial_move t ≡ false
      → t.has_trivial_dtor ≡ false
      → Objects p n m
      → move_forward_type t p p n m ≡ some (cleared p n m)
  unfolding move_forward_type
  same_place_lem p n m h g o = rw h (same_place_loop p n m g o)
