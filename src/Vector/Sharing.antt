-- ===== src/Vector/Sharing.antt =====
-- The copies of whole vectors in libutils/VectorImpl.cpp, which share a buffer, and `finish_vector`.
pub mod Copies
use android_native_mac_ports.Base.{
  ℕ, suc, ◌+◌, ◌-◌, ◌/◌, ◌%◌, ◌^◌, ◌≤◌, ◌<◌, Bool, true, false, not, Option, none, some, List, [],
  ◌∷◌, All, ◌==◌, if◌then◌else◌, update, ◌≡◌, refl, sym, ap, fun_ext, ◌∙◌, arith, inl, inr,
  Bool-cases, Option-cases, length,
}
use android_native_mac_ports.Vector.Memory.{Memory}
use android_native_mac_ports.Vector.Memory.Runs.{Objects}
use android_native_mac_ports.Vector.Heap.{
  Setup, Block, State, ok, M, fits, ◌>>=◌, ◌>>◌, pure, choose, get_block, acquire,
}
use android_native_mac_ports.Vector.Operations.{Handle, copy_construct, assign, finish_vector}
use android_native_mac_ports.Vector.Storage.{release_storage, set_storage, set_count}
use android_native_mac_ports.Vector.Validity.{
  owners, here, items, content, Kept, dropped, drop_owner, Holds, Valid, Holds-Kept, Kept-self,
  All-owners, Holds-at,
}
use android_native_mac_ports.Vector.Validity.Switching.{owners-here}
use android_native_mac_ports.Vector.Steps.{
  release_none, binds, then_runs, same_heap, get_block_lem, owners-le-length, release_storage_lem,
}
use android_native_mac_ports.Vector.Contents.{Untouched, Kept-Untouched}

module _ {A : Type 0} (e : Setup A) (s : State A) (rest : List Handle)
    (valid : Valid e s rest) where
  -- The vector without a buffer, which has lost it as an owner.
  abbrev pub given_up : State A
  given_up = record s { storage = none; count = 0; block = drop_owner s.storage s.block }

  given_up-Kept :
      (w : Handle)
      → ((p : ℕ) → w.storage ≡ some p → 0 < owners p rest)
      → Kept s.block given_up.block w
  given_up-Kept w pos p eq b at = elim (Option-cases s.storage) [
    | inl no_storage ↦ (b, ground arith, refl, refl)
    | inr (o, storage) ↦
        let (c, at_o, room, objects) = valid.own.buffer o storage in
        elim (Bool-cases (o == p)) [
          | inl same ↦ (
            record b { refs = b.refs - 1 },
            ground (arith, pos p eq, owners-here e s rest valid o p storage, valid.counted p b at),
            refl,
            refl,
          )
          | inr different ↦ (b, ground arith, refl, refl)
        ]
  ]

  -- A buffer that is left is an old one, with one owner less if it was the vector's.
  given_up-old :
      (r : ℕ) (c : Block A)
      → given_up.block r ≡ some c
      → (b : Block A) × (s.block r ≡ some b)
        × (c.size ≡ b.size)
        × (c.refs ≡ owners r rest)
        × (0 < c.refs)
  unfolding owners
  given_up-old r c at = elim (Option-cases s.storage) [
    | inl no_storage ↦
        let there : s.block r ≡ some c = ground arith in
        (c, there, refl, ground (arith, valid.counted r c there), (valid.counted r c there).1)
    | inr (o, storage) ↦
        let (b, at_o, room, objects) = valid.own.buffer o storage in
        elim (Bool-cases (o == r)) [
          | inl same ↦ (
            b,
            ground arith,
            ground arith,
            ground (arith, owners-here e s rest valid o r storage, valid.counted o b at_o),
            ground (arith, valid.counted o b at_o),
          )
          | inr different ↦
              let there : s.block r ≡ some c = ground arith in
              (
                c,
                there,
                refl,
                ground (arith, owners-here e s rest valid o r storage, valid.counted r c there),
                (valid.counted r c there).1,
              )
        ]
  ]

  pub given_up-Valid : Valid e given_up rest × All (Kept s.block given_up.block) rest
  unfolding owners
  given_up-Valid = (
    record {
      below = λ r c at.
          let (b, there, size, counts, pos) = given_up-old r c at in valid.below r b there;
      counted = λ r c at. let (b, there, size, counts, pos) = given_up-old r c at in (counts, pos);
      sized = λ r c at.
          let (b, there, size, counts, pos) = given_up-old r c at in
          rw size (valid.sized r b there);
      own = record { empty = λ _. refl; buffer = λ p eq. absurd (ground arith) };
      held =
          All-owners rest valid.held
            λ w pos h. Holds-Kept e s.block given_up.block w h (given_up-Kept w pos);
      few = valid.few;
    },
    All-owners rest valid.held (λ w pos h. given_up-Kept w pos),
  )

  -- `release_storage` of any valid vector.
  pub release_any : release_storage e s ≡ ok tt (record s { block = drop_owner s.storage s.block })
  release_any = elim (Option-cases s.storage) [
    | inl eq ↦
        release_none e s rest valid s eq
        ∙ same_heap tt s s.block (drop_owner s.storage s.block) λ r. ground arith
    | inr (p, eq) ↦
        let (b, at, room, objects) = valid.own.buffer p eq in
        let (counts, pos) = valid.counted p b at in
        release_storage_lem e p s b eq at pos
          (omega (arith, valid.few, owners-le-length p (here s ∷ rest))) room objects
        ∙ same_heap tt s _ _ λ r. ground arith
  ]

  -- finish_vector: the vector ends without items and without a buffer, each other vector keeps its
  -- items, and every buffer that is left has an owner and counts its owners.
  pub finish_vector-Valid :
      (finish_vector e s ≡ ok tt given_up) × Valid e given_up rest × Untouched s given_up rest
  unfolding finish_vector ◌>>◌
  finish_vector-Valid =
      let (valid', kept) = given_up-Valid in
      (
        then_runs (release_storage e) _ s (record s { block = drop_owner s.storage s.block })
            release_any,
        valid',
        Kept-Untouched e s given_up rest valid.held kept,
      )
