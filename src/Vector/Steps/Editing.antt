-- ===== src/Vector/Steps/Editing.antt =====
-- `editArrayImpl` of libutils/VectorImpl.cpp: the vector owns its buffer alone behind it.
use android_native_mac_ports.Base.{
  ℕ, suc, ◌+◌, ◌-◌, ◌<◌, true, false, Option, none, some, List, All, ◌==◌, if◌then◌else◌, ◌≡◌, refl,
  ap, ◌∙◌, arith, inl, inr, Bool-cases,
}
use android_native_mac_ports.Vector.Memory.{Memory, copied}
use android_native_mac_ports.Vector.Memory.Runs.{Objects}
use android_native_mac_ports.Vector.Heap.{
  Setup, Block, State, ok, abort, M, pure, ◌>>=◌, ◌>>◌, get_block, alloc, attempt_edit, only_owner,
}
use android_native_mac_ports.Vector.Operations.{Handle}
use android_native_mac_ports.Vector.Storage.{do_copy, release_storage, set_storage, edit_array_impl}
use android_native_mac_ports.Vector.Validity.{here, Kept, switched, Valid, Holds-at, Kept-self}
use android_native_mac_ports.Vector.Validity.Switching.{switched-Valid}
use android_native_mac_ports.Vector.Steps.Buffers.{
  binds, same_heap, get_block_lem, allocated, only_owner_lem, do_copy_lem,
}
use android_native_mac_ports.Vector.Steps.Moving.{moves_over}

module _ {A : Type 0} (e : Setup A) where
  from_zero : (i : ℕ) → 0 + (i - 0) ≡ i
  from_zero i = omega arith

  pub copied-Objects :
      (n : ℕ) (m : Memory A) → Objects 0 n m → Objects 0 n (copied 0 0 n m (λ _. none))
  copied-Objects n m objects i low high =
      let (x, eq) = objects i low high in (x, ground (arith, ap m (from_zero i)))

  -- A later state `s'` in which the vector has its `count` items in its own buffer `b` at `p`.
  pub record Edited (s s' : State A) (rest : List Handle) (p : ℕ) (b b' : Block A) : Type 0 where
    pub storage : s'.storage ≡ some p
    pub at : s'.block p ≡ some b'
    pub alone : b'.refs ≡ 1
    pub count : s'.count ≡ s.count
    pub size : b'.size ≡ b.size
    pub items : (i : ℕ) → i < s.count → b'.cells i ≡ b.cells i
    pub valid : Valid e s' rest
    pub kept : All (Kept s.block s'.block) rest

  module _ (s : State A) (rest : List Handle) (valid : Valid e s rest) (p : ℕ) (b : Block A)
      (storage : s.storage ≡ some p) (at : s.block p ≡ some b) where
    -- What `editArrayImpl` does with the answer of `attemptEdit`.
    copy_unless : Option ℕ → M A (Option ℕ)
    copy_unless editable = elim editable [
      | some q ↦ pure (some q)
      | none ↦ get_block p >>= λ c. alloc e c.size >>= λ r. elim r [
        | none ↦ λ _. abort
        | some q ↦
            do_copy e q 0 0 s.count >> release_storage e >> set_storage (some q) >> pure (some q)
      ]
    ]

    edit_array_impl-some : edit_array_impl e s ≡ (attempt_edit e p >>= copy_unless) s
    unfolding edit_array_impl copy_unless
    edit_array_impl-some = rw storage refl

    attempt_edit_lem : attempt_edit e p s ≡ ok (if b.refs == 1 then some p else none) s
    unfolding attempt_edit
    attempt_edit_lem = binds (only_owner e p) _ s s (b.refs == 1) (only_owner_lem e p s b at)

    edit_alone : b.refs ≡ 1 → edit_array_impl e s ≡ ok (some p) s
    unfolding copy_unless
    edit_alone one =
        edit_array_impl-some
        ∙ binds (attempt_edit e p) copy_unless s s (some p) (attempt_edit_lem ∙ rw one refl)

    abbrev pub copied_items : Memory A
    copied_items = copied 0 0 s.count b.cells (λ _. none)

    edit_shared :
        (b.refs == 1) ≡ false
        → ((bytes q : ℕ) → e.malloc_gives bytes q ≡ true)
        → edit_array_impl e s ≡ ok (some s.fresh) (switched s b.size copied_items s.count)
    unfolding copy_unless
    edit_shared many given =
        edit_array_impl-some
        ∙ binds (attempt_edit e p) copy_unless s s none (attempt_edit_lem ∙ rw many refl)
        ∙ binds (get_block p) _ s s b (get_block_lem p b s at)
        ∙ moves_over e s rest valid b.size copied_items (λ _. abort) (λ q. do_copy e q 0 0 s.count)
            (λ q. pure (some q)) (valid.sized p b at) (given _ _)
            (let (room, objects) = Holds-at e s.block (here s) p b valid.own storage at in
              let live = valid.below p b at in
              do_copy_lem e s.fresh 0 0 s.count p (allocated e b.size s) b
                (record { refs = 1; size = b.size; cells = λ _. none }) storage (ground arith)
                (ground arith) (omega (arith, room)) (omega (arith, room)) objects
              ∙ same_heap tt (record s { fresh = suc s.fresh }) _ _ λ r. ground arith)

    -- The vector with a buffer makes it its own: nothing happens where it is the only owner, and else it
    -- gets a copy.
    pub edit_array_impl_lem :
        ((bytes q : ℕ) → e.malloc_gives bytes q ≡ true)
        → (s' : State A) × (q : ℕ) × (b' : Block A) × (edit_array_impl e s ≡ ok (some q) s')
          × Edited s s' rest q b b'
    edit_array_impl_lem given = elim (Bool-cases (b.refs == 1)) [
      | inl one ↦ (
        s,
        p,
        b,
        edit_alone (ground arith),
        record {
          storage = storage;
          at = at;
          alone = ground arith;
          count = refl;
          size = refl;
          items = λ i h. refl;
          valid = valid;
          kept = Kept-self e s.block rest valid.held;
        },
      )
      | inr many ↦ (
        switched s b.size copied_items s.count,
        s.fresh,
        record { refs = 1; size = b.size; cells = copied_items },
        edit_shared many given,
        let (room, objects) = Holds-at e s.block (here s) p b valid.own storage at in
            let (valid', kept) =
              switched-Valid e s rest valid b.size s.count copied_items (valid.sized p b at) room
                (copied-Objects s.count b.cells objects) in
            record {
              storage = refl;
              at = ground arith;
              alone = refl;
              count = refl;
              size = refl;
              items = λ i h. ground (arith, ap b.cells (from_zero i));
              valid = valid';
              kept = kept;
            },
      )
    ]
