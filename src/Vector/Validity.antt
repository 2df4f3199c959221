-- ===== src/Vector/Validity.antt =====
-- When the vectors of a program and the heap of libutils/SharedBuffer.cpp agree, and which changes of
-- the heap keep them so. One vector runs a method; the others are listed.
pub mod Switching
use android_native_mac_ports.Base.{
  ℕ, suc, ◌+◌, ◌-◌, ◌/◌, ◌^◌, ◌≤◌, ◌<◌, true, Option, none, some, List, [], ◌∷◌, length, All, ◌==◌,
  ltb, if◌then◌else◌, update, ◌≡◌, refl, sym, ◌∙◌, subst, arith, inl, inr, Option-cases,
}
use android_native_mac_ports.Vector.Memory.{Memory}
use android_native_mac_ports.Vector.Memory.Runs.{Objects}
use android_native_mac_ports.Vector.Heap.{Setup, Block, State, fits}
use android_native_mac_ports.Vector.Operations.{Handle}

-- How many of the vectors own buffer `p`.
unfoldable pub owners : ℕ → List Handle → ℕ
owners p [] = 0
owners p (v ∷ vs) =
    let rest = owners p vs in
    elim v.storage [ none ↦ rest | some q ↦ if q == p then suc rest else rest ]

module _ {A : Type 0} where
  -- The vector whose method runs, as the others see it.
  abbrev pub here : State A → Handle
  here s = record { storage = s.storage; count = s.count }

  -- The item at an index of a vector.
  unfoldable pub content : (ℕ → Option (Block A)) → Handle → ℕ → Option A
  content block v i = elim v.storage [
    | none ↦ none
    | some p ↦ elim (block p) [ none ↦ none | some b ↦ if ltb i v.count then b.cells i else none ]
  ]

  -- The items of the vector whose method runs.
  abbrev pub items : State A → ℕ → Option A
  items s = content s.block (here s)

  -- The buffer of `v`, if it has one, keeps its size and its objects.
  abbrev pub Kept : (ℕ → Option (Block A)) → (ℕ → Option (Block A)) → Handle → Type 0
  Kept block block' v =
      (p : ℕ)
      → v.storage ≡ some p
      → (b : Block A) → block p ≡ some b
      → (b' : Block A) × (block' p ≡ some b') × (b'.size ≡ b.size) × (b'.cells ≡ b.cells)

  -- The buffer without one of its owners.
  abbrev pub dropped : Block A → Option (Block A)
  dropped b = if b.refs == 1 then none else some (record b { refs = b.refs - 1 })

  abbrev pub drop_owner : Option ℕ → (ℕ → Option (Block A)) → ℕ → Option (Block A)
  drop_owner none block = block
  drop_owner (some p) block = elim (block p) [ none ↦ block | some b ↦ update block p (dropped b) ]

  -- The vector has moved to a new buffer, and does not own its old one any more.
  abbrev pub switched : State A → ℕ → Memory A → ℕ → State A
  switched s size m k = record {
    storage = some s.fresh;
    count = k;
    block =
        update (drop_owner s.storage s.block) s.fresh
          (some (record { refs = 1; size = size; cells = m }));
    fresh = suc s.fresh;
  }

  -- The vector has changed its buffer `b` at `p`.
  abbrev pub overwritten : State A → ℕ → Block A → Memory A → ℕ → State A
  overwritten s p b m k = record s {
    count = k;
    block = update s.block p (some (record b { cells = m }));
  }

-- A property of each listed vector may use that the list counts it.
pub All-owners :
    {P Q : Handle → Type 0} (vs : List Handle)
    → All P vs
    → ((w : Handle) → ((p : ℕ) → w.storage ≡ some p → 0 < owners p vs) → P w → Q w)
    → All Q vs
unfolding owners
All-owners [] all f = tt
All-owners (v ∷ vs) (h, hs) f = (
  f v (λ p eq. ground arith) h,
  All-owners vs hs λ w pos q. f w (λ p eq. ground (arith, pos p eq)) q,
)

module _ {A : Type 0} (e : Setup A) where
  -- A vector with a buffer has its items there; one without has none.
  pub record Holds (block : ℕ → Option (Block A)) (v : Handle) : Type 0 where
    pub empty : v.storage ≡ none → v.count ≡ 0
    pub buffer :
        (p : ℕ)
        → v.storage ≡ some p
        → (b : Block A) × (block p ≡ some b)
          × (v.count ≤ b.size / e.item_size)
          × Objects 0 v.count b.cells

  -- Every buffer has an owner, counts its owners and has a size that was allocated, and every vector holds its items.
  pub record Valid (s : State A) (rest : List Handle) : Type 0 where
    pub below : (p : ℕ) (b : Block A) → s.block p ≡ some b → p < s.fresh
    pub counted :
        (p : ℕ) (b : Block A)
        → s.block p ≡ some b
        → (b.refs ≡ owners p (here s ∷ rest)) × (0 < b.refs)
    pub sized : (p : ℕ) (b : Block A) → s.block p ≡ some b → fits b.size ≡ true
    pub own : Holds s.block (here s)
    pub held : All (Holds s.block) rest
    pub few : length rest + 1 < 2 ^ 31

  pub Holds-Kept :
      (block block' : ℕ → Option (Block A)) (v : Handle)
      → Holds block v
      → Kept block block' v
      → Holds block' v
  Holds-Kept block block' v h k = record {
    empty = h.empty;
    buffer = λ p eq.
        let (b, at, room, objects) = h.buffer p eq in
        let (b', at', size, cells) = k p eq b at in (b', at', rw size room, rw cells objects);
  }

  pub content-none :
      (block : ℕ → Option (Block A)) (v : Handle) (i : ℕ)
      → v.storage ≡ none
      → content block v i ≡ none
  unfolding content
  content-none block v i eq = ground arith

  pub content-empty :
      (block : ℕ → Option (Block A)) (v : Handle) (i : ℕ) → v.count ≡ 0 → content block v i ≡ none
  unfolding content
  content-empty block v i eq = ground arith

  pub content-at :
      (block : ℕ → Option (Block A)) (v : Handle) (i p : ℕ) (b : Block A)
      → v.storage ≡ some p
      → block p ≡ some b
      → content block v i ≡ (if ltb i v.count then b.cells i else none)
  unfolding content
  content-at block v i p b eq at = ground arith

  pub content-Kept :
      (block block' : ℕ → Option (Block A)) (v : Handle) (i : ℕ)
      → Holds block v
      → Kept block block' v
      → content block' v i ≡ content block v i
  content-Kept block block' v i h k = elim (Option-cases v.storage) [
    | inl eq ↦ content-none block' v i eq ∙ sym (content-none block v i eq)
    | inr (p, eq) ↦
        let (b, at, room, objects) = h.buffer p eq in
        let (b', at', size, cells) = k p eq b at in
        content-at block' v i p b' eq at' ∙ rw cells refl ∙ sym (content-at block v i p b eq at)
  ]

  -- A vector's items, by the buffer that the heap has for it.
  pub Holds-at :
      (block : ℕ → Option (Block A)) (v : Handle) (p : ℕ) (b : Block A)
      → Holds block v
      → v.storage ≡ some p
      → block p ≡ some b
      → (v.count ≤ b.size / e.item_size) × Objects 0 v.count b.cells
  Holds-at block v p b h storage at =
      let (c, at_c, room, objects) = h.buffer p storage in
      let same : c ≡ b = cc in
      subst (λ d. (v.count ≤ d.size / e.item_size) × Objects 0 v.count d.cells) same (room, objects)

  pub Kept-self :
      (block : ℕ → Option (Block A)) (vs : List Handle)
      → All (Holds block) vs
      → All (Kept block block) vs
  Kept-self block vs h = All-owners vs h λ w pos held p storage b at. (b, at, refl, refl)
