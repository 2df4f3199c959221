-- ===== src/Vector/Steps/Moving.antt =====
-- How a vector of libutils/VectorImpl.cpp comes to a new buffer, and how it makes its buffer its own.
use android_native_mac_ports.Base.{
  ℕ, suc, ◌+◌, ◌≤◌, true, Option, none, some, List, [], ◌∷◌, length, ◌≡◌, refl, ap, fun_ext, ◌∙◌,
  arith, inl, inr, Option-cases,
}
use android_native_mac_ports.Vector.Memory.{Memory}
use android_native_mac_ports.Vector.Heap.{
  Setup, Block, State, ok, M, ◌>>=◌, ◌>>◌, alloc, fits, header_size,
}
use android_native_mac_ports.Vector.Operations.{Handle}
use android_native_mac_ports.Vector.Storage.{release_storage, set_storage}
use android_native_mac_ports.Vector.Validity.{owners, here, switched, Valid}
use android_native_mac_ports.Vector.Steps.Buffers.{
  binds, then_runs, allocated, with_buffer, alloc_lem,
}
use android_native_mac_ports.Vector.Steps.Release.{release_storage_lem}

pub owners-le-length : (p : ℕ) (vs : List Handle) → owners p vs ≤ length vs
unfolding owners
owners-le-length p [] = omega arith
owners-le-length p (v ∷ vs) = ground (arith, owners-le-length p vs)

module _ {A : Type 0} (e : Setup A) (s : State A) (rest : List Handle)
    (valid : Valid e s rest) where
  -- A vector without a buffer has nothing to give up.
  pub release_none : (s' : State A) → s'.storage ≡ none → release_storage e s' ≡ ok tt s'
  unfolding release_storage
  release_none s' h = ground arith

  -- A state with the vector in its new buffer, by the heap.
  same_move :
      (block block' : ℕ → Option (Block A))
      → ((p : ℕ) → block p ≡ block' p)
      → ◌≡◌ {A = State A}
          (record s { storage = some s.fresh; block = block; fresh = suc s.fresh })
          (record s { storage = some s.fresh; block = block'; fresh = suc s.fresh })
  same_move block block' h =
      ap (λ b. record s { storage = some s.fresh; block = b; fresh = suc s.fresh }) (fun_ext h)

  -- The old buffer is given up behind the new one.
  pub release_old :
      {S : Type 0} (bytes : ℕ) (m : Memory A) (k : M A S)
      → (release_storage e >> set_storage (some s.fresh) >> k) (with_buffer s bytes m)
        ≡ k (switched s bytes m s.count)
  release_old bytes m k = elim (Option-cases s.storage) [
    | inl eq ↦
        then_runs (release_storage e) (set_storage (some s.fresh) >> k) (with_buffer s bytes m)
          (with_buffer s bytes m) (release_none (with_buffer s bytes m) eq)
        ∙ then_runs (set_storage (some s.fresh)) k _ _ refl
        ∙ ap k (same_move _ _ λ r. ground arith)
    | inr (p, eq) ↦
        let (b, at, room, objects) = valid.own.buffer p eq in
        let (counts, pos) = valid.counted p b at in
        let live = valid.below p b at in
        then_runs (release_storage e) (set_storage (some s.fresh) >> k) (with_buffer s bytes m) _ (
          release_storage_lem e p (with_buffer s bytes m) b eq (ground arith) pos
            (omega (arith, valid.few, owners-le-length p (here s ∷ rest))) room objects)
        ∙ then_runs (set_storage (some s.fresh)) k _ _ refl
        ∙ ap k (same_move _ _ λ r. ground arith)
  ]

  -- A new buffer is allocated and filled, and the vector moves to it.
  pub moves_over :
      {S : Type 0} (bytes : ℕ) (m : Memory A) (refused : M A S) (fill : ℕ → M A (Unit {0}))
      (k : ℕ → M A S)
      → fits bytes ≡ true
      → e.malloc_gives (header_size + bytes) s.fresh ≡ true
      → fill s.fresh (allocated e bytes s) ≡ ok tt (with_buffer s bytes m)
      → (alloc e bytes >>= λ r. elim r [
        | none ↦ refused
        | some q ↦ fill q >> release_storage e >> set_storage (some q) >> k q
      ])
          s
        ≡ k s.fresh (switched s bytes m s.count)
  moves_over bytes m refused fill k small given filled =
      binds (alloc e bytes) _ s (allocated e bytes s) (some s.fresh)
        (alloc_lem e bytes s small given)
      ∙ then_runs (fill s.fresh) (release_storage e >> set_storage (some s.fresh) >> k s.fresh)
          (allocated e bytes s) (with_buffer s bytes m) filled
      ∙ release_old bytes m (k s.fresh)
