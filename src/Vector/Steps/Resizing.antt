-- ===== src/Vector/Steps/Resizing.antt =====
-- `editResize` of libutils/SharedBuffer.cpp, and the branch of `_grow` and `_shrink` that calls it.
use android_native_mac_ports.Base.{
  ℕ, suc, ◌+◌, ◌<◌, ◌^◌, true, false, not, min, Option, none, some, List, ◌∷◌, ◌==◌, update, ◌≡◌,
  refl, ◌∙◌, arith, inl, inr, Bool-cases,
}
use android_native_mac_ports.Vector.Memory.{Memory}
use android_native_mac_ports.Vector.Heap.{
  Setup, Block, State, ok, M, pure, ◌>>=◌, get_block, alloc, release, only_owner, fits, within,
  replace_buffer, reallocate, edit_resize, header_size, fatal_if,
}
use android_native_mac_ports.Vector.Operations.{Handle}
use android_native_mac_ports.Vector.Storage.{resize_storage, own_buffer}
use android_native_mac_ports.Vector.Validity.{here, switched, dropped, Valid}
use android_native_mac_ports.Vector.Steps.Buffers.{
  binds, then_runs, same_heap, get_block_lem, with_buffer, allocated, alloc_lem, only_owner_lem,
  release_shared,
}
use android_native_mac_ports.Vector.Steps.Release.{dealloc_lem}
use android_native_mac_ports.Vector.Steps.Moving.{owners-le-length}

module _ {A : Type 0} (e : Setup A) where
  -- The buffer loses an owner, and is freed if that was the last.
  release_free :
      (p : ℕ) (s : State A) (b : Block A)
      → s.block p ≡ some b
      → 0 < b.refs
      → b.refs < 2 ^ 32
      → (r : ℕ) × (release e false p s ≡ ok r (record s { block = update s.block p (dropped b) }))
  unfolding release
  release_free p s b at pos small = elim (Bool-cases (b.refs == 1)) [
    | inl one ↦ (
      1,
      binds (only_owner e p) _ s s true (only_owner_lem e p s b at ∙ rw one refl)
          ∙ binds (get_block p) _ s s b (get_block_lem p b s at)
          ∙ then_runs _ _ s (record s { block = update s.block p (some (record b { refs = 0 })) })
              refl
          ∙ then_runs _ _ _ _ (
              dealloc_lem e p (record s { block = update s.block p (some (record b { refs = 0 })) })
                (record b { refs = 0 }) (ground arith))
          ∙ same_heap 1 s _ _ λ r. ground arith,
    )
    | inr many ↦ (b.refs, release_shared e false p s b at many pos small ∙ rw many refl)
  ]

  module _ (s : State A) (rest : List Handle) (valid : Valid e s rest) (p : ℕ) (b : Block A)
      (storage : s.storage ≡ some p) (at : s.block p ≡ some b) (size : ℕ) (small : fits size ≡ true)
      (given : (bytes q : ℕ) → e.malloc_gives bytes q ≡ true) where
    -- The first objects of the old buffer.
    abbrev pub resized : Memory A
    resized = within e (min size b.size) b.cells

    -- The heap with the old buffer given up and the new one in place.
    abbrev after_resize : State A
    after_resize = record s { block = (switched s size resized s.count).block; fresh = suc s.fresh }

    few_refs : b.refs < 2 ^ 32
    few_refs =
        omega (arith, (valid.counted p b at).0, valid.few, owners-le-length p (here s ∷ rest))

    replace_buffer_lem :
        replace_buffer e p size (min size b.size) s ≡ ok (some s.fresh) after_resize
    unfolding replace_buffer
    replace_buffer_lem =
        let live = valid.below p b at in
        let new : Block A = record { refs = 1; size = size; cells = λ _. none } in
        let s1 = allocated e size s in
        let s2 = with_buffer s size resized in
        let (owners_before, freed) =
          release_free p s2 b (ground arith) (valid.counted p b at).1 few_refs in
        binds (alloc e size) _ s s1 (some s.fresh) (alloc_lem e size s small (given _ _))
        ∙ binds (get_block p) _ s1 s1 b (get_block_lem p b s1 (ground arith))
        ∙ binds (get_block s.fresh) _ s1 s1 new (get_block_lem s.fresh new s1 (ground arith))
        ∙ then_runs _ _ s1 s2 (same_heap tt s1 _ _ λ r. ground arith)
        ∙ binds (release e false p) _ s2 _ owners_before freed
        ∙ same_heap (some s.fresh) (record s { fresh = suc s.fresh }) _ _ λ r. ground arith

    -- What `editResize` does with the answer of `realloc`.
    unless_reallocated : Option ℕ → M A (Option ℕ)
    unless_reallocated r = elim r [
      | some q ↦ pure (some q)
      | none ↦ replace_buffer e p size (min size b.size)
    ]

    reallocated :
        b.refs ≡ 1 → (reallocate e p size >>= unless_reallocated) s ≡ ok (some s.fresh) after_resize
    unfolding reallocate unless_reallocated
    reallocated one =
        let moved : State A = record s {
          block =
              update (update s.block p none) s.fresh
                (some (record b { size = size; cells = resized }));
          fresh = suc s.fresh;
        } in
        elim (Bool-cases (e.realloc_gives (header_size + size) s.fresh)) [
          | inl gives ↦
              binds (reallocate e p size) unless_reallocated s moved (some s.fresh)
                (binds (get_block p) _ s s b (get_block_lem p b s at) ∙ rw gives refl)
              ∙ same_heap (some s.fresh) (record s { fresh = suc s.fresh }) _ _ λ r. ground arith
          | inr refuses ↦
              binds (reallocate e p size) unless_reallocated s s none
                (binds (get_block p) _ s s b (get_block_lem p b s at) ∙ rw refuses refl)
              ∙ replace_buffer_lem
        ]

    -- The buffer is resized in place, or copied where it is shared or cannot be resized.
    edit_resize_lem :
        (b.size == size) ≡ false → edit_resize e p size s ≡ ok (some s.fresh) after_resize
    unfolding edit_resize unless_reallocated
    edit_resize_lem differs =
        binds (only_owner e p) _ s s (b.refs == 1) (only_owner_lem e p s b at)
        ∙ binds (get_block p) _ s s b (get_block_lem p b s at)
        ∙ elim (Bool-cases (b.refs == 1)) [
          | inl one ↦
              rw (one, differs)
                (then_runs (fatal_if (not (fits size))) (reallocate e p size >>= unless_reallocated)
                    s s (rw small refl)
                  ∙ reallocated (ground arith))
          | inr many ↦ rw many replace_buffer_lem
        ]

    pub resize_storage_lem :
        (b.size == size) ≡ false
        → resize_storage e size s ≡ ok true (switched s size resized s.count)
    unfolding resize_storage
    resize_storage_lem differs =
        binds own_buffer _ s s p (rw storage refl)
        ∙ binds (edit_resize e p size) _ s after_resize (some s.fresh) (edit_resize_lem differs)
        ∙ then_runs _ _ after_resize (switched s size resized s.count) refl
