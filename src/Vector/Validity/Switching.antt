-- ===== src/Vector/Validity/Switching.antt =====
-- The two ways in which libutils/VectorImpl.cpp changes the heap keep every vector valid, and the items
-- of all other vectors as they are.
use android_native_mac_ports.Base.{
  ℕ, suc, ◌-◌, ◌/◌, ◌≤◌, ◌<◌, true, Option, none, some, List, [], ◌∷◌, All, ◌==◌, if◌then◌else◌,
  ◌≡◌, refl, arith, inl, inr, Bool-cases, Option-cases,
}
use android_native_mac_ports.Vector.Memory.{Memory}
use android_native_mac_ports.Vector.Memory.Runs.{Objects}
use android_native_mac_ports.Vector.Heap.{Setup, Block, State, fits}
use android_native_mac_ports.Vector.Operations.{Handle}
use android_native_mac_ports.Vector.Validity.{
  owners, here, Kept, switched, overwritten, Holds, Valid, Holds-Kept, All-owners,
}

module _ {A : Type 0} (e : Setup A) where
  -- An address that was not given out has no owner.
  owners_fresh :
      (block : ℕ → Option (Block A)) (q : ℕ) (vs : List Handle)
      → block q ≡ none
      → All (Holds e block) vs
      → owners q vs ≡ 0
  unfolding owners
  owners_fresh block q [] none_there all = refl
  owners_fresh block q (v ∷ vs) none_there (h, hs) = elim (Option-cases v.storage) [
    | inl eq ↦ ground (arith, owners_fresh block q vs none_there hs)
    | inr (p, eq) ↦
        let (b, at, room, objects) = h.buffer p eq in
        ground (arith, owners_fresh block q vs none_there hs)
  ]

  module _ (s : State A) (rest : List Handle) (valid : Valid e s rest) where
    fresh_free : s.block s.fresh ≡ none
    fresh_free = elim (Option-cases (s.block s.fresh)) [
      | inl h ↦ h
      | inr (b, h) ↦ absurd (omega (arith, valid.below s.fresh b h))
    ]

    pub owners-here :
        (p r : ℕ)
        → s.storage ≡ some p
        → owners r (here s ∷ rest) ≡ (if p == r then suc (owners r rest) else owners r rest)
    unfolding owners
    owners-here p r eq = ground arith

    module _ (size k : ℕ) (m : Memory A) (small : fits size ≡ true) (room : k ≤ size / e.item_size)
        (objects : Objects 0 k m) where
      switched-Kept :
          (w : Handle)
          → ((p : ℕ) → w.storage ≡ some p → 0 < owners p rest)
          → Kept s.block (switched s size m k).block w
      switched-Kept w pos p eq b at = elim (Option-cases s.storage) [
        | inl no_storage ↦ (b, ground (arith, valid.below p b at), refl, refl)
        | inr (o, storage) ↦ elim (Bool-cases (o == p)) [
          | inl same ↦ (
            record b { refs = b.refs - 1 },
            ground (
              arith,
              valid.below p b at,
              pos p eq,
              owners-here o p storage,
              valid.counted p b at,
            ),
            refl,
            refl,
          )
          | inr different ↦
              let (c, at_o, room_o, objects_o) = valid.own.buffer o storage in
              (b, ground (arith, valid.below p b at), refl, refl)
        ]
      ]

      switched-counted :
          (r : ℕ) (c : Block A)
          → (switched s size m k).block r ≡ some c
          → (c.refs ≡ owners r (here (switched s size m k) ∷ rest)) × (0 < c.refs)
      unfolding owners
      switched-counted r c at = elim (Bool-cases (s.fresh == r)) [
        | inl new ↦ ground (arith, owners_fresh s.block s.fresh rest fresh_free valid.held)
        | inr old ↦ elim (Option-cases s.storage) [
          | inl no_storage ↦ ground (arith, valid.counted r c)
          | inr (o, storage) ↦
              let (b, at_o, room_o, objects_o) = valid.own.buffer o storage in
              ground (arith, valid.counted o b at_o, valid.counted r c, owners-here o r storage)
        ]
      ]

      switched-below :
          (r : ℕ) (c : Block A) → (switched s size m k).block r ≡ some c → r < suc s.fresh
      switched-below r c at = elim (Bool-cases (s.fresh == r)) [
        | inl new ↦ ground arith
        | inr old ↦ elim (Option-cases s.storage) [
          | inl no_storage ↦ ground (arith, valid.below r c)
          | inr (o, storage) ↦
              let (b, at_o, room_o, objects_o) = valid.own.buffer o storage in
              ground (arith, valid.below o b at_o, valid.below r c)
        ]
      ]

      switched-sized :
          (r : ℕ) (c : Block A) → (switched s size m k).block r ≡ some c → fits c.size ≡ true
      switched-sized r c at = elim (Bool-cases (s.fresh == r)) [
        | inl new ↦ ground (arith, small)
        | inr old ↦ elim (Option-cases s.storage) [
          | inl no_storage ↦ valid.sized r c (ground arith)
          | inr (o, storage) ↦
              let (b, at_o, room_o, objects_o) = valid.own.buffer o storage in
              elim (Bool-cases (o == r)) [
                | inl same ↦ let eq : c.size ≡ b.size = ground arith in rw eq (valid.sized o b at_o)
                | inr different ↦ valid.sized r c (ground arith)
              ]
        ]
      ]

      switched-own : Holds e (switched s size m k).block (here (switched s size m k))
      switched-own = record {
        empty = λ eq. cc;
        buffer = λ p eq. (record { refs = 1; size = size; cells = m }, ground arith, room, objects);
      }

      -- A vector with `k` objects in a new buffer that is large enough, where its old buffer has lost it
      -- as an owner and is freed if it was the last: all vectors stay valid, and the others keep theirs.
      pub switched-Valid :
          Valid e (switched s size m k) rest × All (Kept s.block (switched s size m k).block) rest
      switched-Valid = (
        record {
          below = switched-below;
          counted = switched-counted;
          sized = switched-sized;
          own = switched-own;
          held =
              All-owners rest valid.held λ w pos h.
                Holds-Kept e s.block (switched s size m k).block w h (switched-Kept w pos);
          few = valid.few;
        },
        All-owners rest valid.held (λ w pos h. switched-Kept w pos),
      )

    -- A vector that is the only owner of its buffer has changed the objects in it.
    module _ (p : ℕ) (b : Block A) (k : ℕ) (m : Memory A) (storage : s.storage ≡ some p)
        (at_p : s.block p ≡ some b) (alone : b.refs ≡ 1) (room : k ≤ b.size / e.item_size)
        (objects : Objects 0 k m) where
      overwritten-Kept :
          (w : Handle)
          → ((q : ℕ) → w.storage ≡ some q → 0 < owners q rest)
          → Kept s.block (overwritten s p b m k).block w
      overwritten-Kept w pos q eq c at = elim (Bool-cases (p == q)) [
        | inl same ↦
            absurd (ground (arith, pos q eq, owners-here p q storage, valid.counted p b at_p))
        | inr different ↦ (c, ground arith, refl, refl)
      ]

      pub overwritten-Valid :
          Valid e (overwritten s p b m k) rest
          × All (Kept s.block (overwritten s p b m k).block) rest
      unfolding owners
      overwritten-Valid = (
        record {
          below = λ r c at. ground (arith, valid.below r c, valid.below p b at_p);
          counted = λ r c at. ground (arith, valid.counted r c, valid.counted p b at_p);
          sized = λ r c at. ground (arith, valid.sized r c, valid.sized p b at_p);
          own = record {
            empty = λ eq. cc;
            buffer = λ q eq. (record b { cells = m }, ground arith, room, objects);
          };
          held = All-owners rest valid.held λ w pos h.
              Holds-Kept e s.block (overwritten s p b m k).block w h (overwritten-Kept w pos);
          few = valid.few;
        },
        All-owners rest valid.held (λ w pos h. overwritten-Kept w pos),
      )
