-- ===== src/Vector/Steps/Release.antt =====
-- What `release_storage` of libutils/VectorImpl.cpp leaves of the heap.
use android_native_mac_ports.Base.{
  ℕ, ◌+◌, ◌/◌, ◌^◌, ◌≤◌, ◌<◌, true, false, Option, none, some, ◌==◌, if◌then◌else◌, update, ◌≡◌,
  refl, ◌∙◌, arith, inl, inr, Bool-cases,
}
use android_native_mac_ports.Vector.Memory.{Memory, cleared, destroy_type}
use android_native_mac_ports.Vector.Memory.Runs.{Objects, destroy_type_lem}
use android_native_mac_ports.Vector.Heap.{
  Setup, Block, State, ok, M, ◌>>=◌, ◌>>◌, get_block, dealloc, release, when,
}
use android_native_mac_ports.Vector.Storage.{do_destroy, release_storage}
use android_native_mac_ports.Vector.Validity.{dropped, drop_owner}
use android_native_mac_ports.Vector.Steps.Buffers.{
  binds, then_runs, same_heap, get_block_lem, on_cells_lem, release_last, release_shared,
}

module _ {A : Type 0} (e : Setup A) where
  pub dealloc_lem :
      (p : ℕ) (s : State A) (b : Block A)
      → s.block p ≡ some b
      → dealloc e p s ≡ ok tt (record s { block = update s.block p none })
  unfolding dealloc
  dealloc_lem p s b at = binds (get_block p) _ s s b (get_block_lem p b s at)

  pub drop_owner-at :
      (o : Option ℕ) (block : ℕ → Option (Block A)) (p : ℕ) (b : Block A)
      → o ≡ some p
      → block p ≡ some b
      → drop_owner o block ≡ update block p (dropped b)
  drop_owner-at o block p b storage at = ground arith

  module _ (p : ℕ) (s : State A) (b : Block A) (storage : s.storage ≡ some p)
      (at : s.block p ≡ some b) where
    destroy_owned : ℕ → M A (Unit {0})
    destroy_owned owners = when (owners == 1) (do_destroy e p 0 s.count >> dealloc e p)

    release_storage-some : release_storage e s ≡ (release e true p >>= destroy_owned) s
    unfolding release_storage destroy_owned
    release_storage-some = rw storage refl

    -- The last owner destroys its items and frees the buffer.
    release_alone :
        b.refs ≡ 1
        → s.count ≤ b.size / e.item_size
        → Objects 0 s.count b.cells
        → release_storage e s ≡ ok tt (record s { block = update s.block p (dropped b) })
    unfolding destroy_owned
    release_alone one room objects =
        let b1 : Block A = record b { refs = 0 } in
        let s1 : State A = record s { block = update s.block p (some b1) } in
        let left : Memory A =
          if e.traits.has_trivial_dtor then b.cells else cleared 0 s.count b.cells in
        let b2 : Block A = record b1 { cells = left } in
        let s2 : State A = record s { block = update s1.block p (some b2) } in
        release_storage-some
        ∙ binds (release e true p) destroy_owned s s1 1 (release_last e p s b at one)
        ∙ then_runs (do_destroy e p 0 s.count) (dealloc e p) s1 s2 (
            on_cells_lem e p (0 + s.count) (destroy_type e.traits 0 s.count) s1 b1 left
              (ground arith) (omega (arith, room))
              (destroy_type_lem e.traits 0 s.count b.cells objects))
        ∙ dealloc_lem p s2 b2 (ground arith)
        ∙ same_heap tt s _ _ λ r. ground arith

    release_with_others :
        (b.refs == 1) ≡ false
        → 0 < b.refs
        → b.refs < 2 ^ 32
        → release_storage e s ≡ ok tt (record s { block = update s.block p (dropped b) })
    unfolding destroy_owned
    release_with_others many pos small =
        release_storage-some
        ∙ binds (release e true p) destroy_owned s _ b.refs
            (release_shared e true p s b at many pos small)
        ∙ rw many refl

    -- The vector gives up its buffer: nothing but the buffer changes, which is freed if it had no other
    -- owner.
    pub release_storage_lem :
        0 < b.refs
        → b.refs < 2 ^ 32
        → s.count ≤ b.size / e.item_size
        → Objects 0 s.count b.cells
        → release_storage e s ≡ ok tt (record s { block = update s.block p (dropped b) })
    release_storage_lem pos small room objects = elim (Bool-cases (b.refs == 1)) [
      | inl one ↦ release_alone (ground arith) room objects
      | inr many ↦ release_with_others many pos small
    ]
