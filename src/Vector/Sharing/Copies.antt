-- ===== src/Vector/Sharing/Copies.antt =====
-- The copy constructor and the assignment of libutils/VectorImpl.cpp.
use android_native_mac_ports.Base.{
  ℕ, ◌+◌, ◌%◌, ◌^◌, ◌<◌, Option, none, some, List, [], ◌∷◌, ◌==◌, update, ◌≡◌, refl, sym, ap, ◌∙◌,
  arith, inl, inr, Bool-cases, Option-cases,
}
use android_native_mac_ports.Vector.Heap.{
  Setup, Block, State, ok, fault, M, ◌>>=◌, ◌>>◌, pure, get_block, acquire,
}
use android_native_mac_ports.Vector.Operations.{Handle, copy_construct, assign}
use android_native_mac_ports.Vector.Storage.{release_storage, set_storage, set_count}
use android_native_mac_ports.Vector.Validity.{
  owners, here, items, content, content-at, content-none, content-empty, Kept, Valid, Holds-Kept,
  Kept-self, All-owners, Holds-at,
}
use android_native_mac_ports.Vector.Steps.{binds, then_runs, get_block_lem, owners-le-length}
use android_native_mac_ports.Vector.Contents.{Untouched, Kept-Untouched}
use android_native_mac_ports.Vector.Sharing.{given_up, given_up-Valid, release_any}

module _ {A : Type 0} (e : Setup A) (s : State A) (rhs : Handle) (others : List Handle)
    (valid : Valid e s (rhs ∷ others)) (bare : s.storage ≡ none) (p : ℕ) (b : Block A)
    (storage : rhs.storage ≡ some p) (at : s.block p ≡ some b) where
  -- The vector owns the buffer of `rhs` too.
  abbrev shared : State A
  shared = record s {
    storage = some p;
    count = rhs.count;
    block = update s.block p (some (record b { refs = b.refs + 1 }));
  }

  shared-Kept : (w : Handle) → Kept s.block shared.block w
  shared-Kept w q eq c there = elim (Bool-cases (p == q)) [
    | inl same ↦ (record c { refs = c.refs + 1 }, ground arith, refl, refl)
    | inr different ↦ (c, ground arith, refl, refl)
  ]

  shared-counted :
      (r : ℕ) (c : Block A)
      → shared.block r ≡ some c
      → (c.refs ≡ owners r (here shared ∷ rhs ∷ others)) × (0 < c.refs)
  unfolding owners
  shared-counted r c there = elim (Bool-cases (p == r)) [
    | inl same ↦ ground (arith, valid.counted p b at)
    | inr different ↦ ground (arith, valid.counted r c)
  ]

  shared-Valid : Valid e shared (rhs ∷ others)
  shared-Valid = record {
    below = λ r c there. ground (arith, valid.below r c, valid.below p b at);
    counted = shared-counted;
    sized = λ r c there. ground (arith, valid.sized r c, valid.sized p b at);
    own = record {
      empty = λ eq. cc;
      buffer = λ q eq.
          let (room, objects) = Holds-at e s.block rhs p b valid.held.0 storage at in
          (record b { refs = b.refs + 1 }, ground arith, room, objects);
    };
    held =
        All-owners (rhs ∷ others) valid.held
          λ w pos h. Holds-Kept e s.block shared.block w h (shared-Kept w);
    few = valid.few;
  }

  more : (b.refs + 1) % 2 ^ 32 ≡ b.refs + 1
  more =
      let (counts, pos) = valid.counted p b at in
      omega (arith, valid.few, owners-le-length p (here s ∷ rhs ∷ others))

  acquire_lem : acquire e p (record s { storage = some p; count = rhs.count }) ≡ ok tt shared
  unfolding acquire
  acquire_lem =
      let before : State A = record s { storage = some p; count = rhs.count } in
      binds (get_block p) _ before before b (get_block_lem p b before at)
      ∙ ap (λ n. ok tt (record before { block = update s.block p (some (record b { refs = n })) }))
          more

  -- The members are set, and the buffer has one more owner.
  pub takes :
      (missing : M A (Unit {0}))
      → (set_storage rhs.storage
            >> set_count rhs.count
            >> elim rhs.storage [ none ↦ missing | some q ↦ acquire e q ])
          s
        ≡ ok tt shared
  takes missing =
      then_runs (set_storage rhs.storage) _ s (record s { storage = rhs.storage }) refl
      ∙ then_runs (set_count rhs.count) _ (record s { storage = rhs.storage })
          (record s { storage = rhs.storage; count = rhs.count }) refl
      ∙ rw storage acquire_lem

  shared-items : (i : ℕ) → items shared i ≡ content s.block rhs i
  shared-items i =
      content-at e shared.block (here shared) i p (record b { refs = b.refs + 1 }) refl
        (ground arith)
      ∙ sym (content-at e s.block rhs i p b storage at)

module _ {A : Type 0} (e : Setup A) where
  -- How a vector takes over another one: it has the items of the other, all vectors are valid, and
  -- all the others have the items that they had.
  pub record Copied (s s' : State A) (rhs : Handle) (others : List Handle) : Type 0 where
    pub size : s'.count ≡ rhs.count
    pub each : (i : ℕ) → items s' i ≡ content s.block rhs i
    pub valid : Valid e s' (rhs ∷ others)
    pub untouched : Untouched s s' (rhs ∷ others)

  shared-Copied :
      (s : State A) (rhs : Handle) (others : List Handle) (valid : Valid e s (rhs ∷ others))
      (bare : s.storage ≡ none) (p : ℕ) (b : Block A) (storage : rhs.storage ≡ some p)
      (at : s.block p ≡ some b)
      → Copied s (shared e s rhs others valid bare p b storage at) rhs others
  shared-Copied s rhs others valid bare p b storage at = record {
    size = refl;
    each = shared-items e s rhs others valid bare p b storage at;
    valid = shared-Valid e s rhs others valid bare p b storage at;
    untouched =
        Kept-Untouched e s (shared e s rhs others valid bare p b storage at) (rhs ∷ others)
          valid.held
          (All-owners (rhs ∷ others) valid.held
            λ w pos h. shared-Kept e s rhs others valid bare p b storage at w);
  }

  -- A vector without items is taken over.
  nothing-Copied :
      (s : State A) (rhs : Handle) (others : List Handle)
      → Valid e s (rhs ∷ others)
      → rhs.count ≡ 0
      → s.storage ≡ none
      → s.count ≡ 0
      → Copied s s rhs others
  nothing-Copied s rhs others valid empty bare zero_items = record {
    size = zero_items ∙ sym empty;
    each = λ i. content-none e s.block (here s) i bare ∙ sym (content-empty e s.block rhs i empty);
    valid = valid;
    untouched =
        Kept-Untouched e s s (rhs ∷ others) valid.held
          (Kept-self e s.block (rhs ∷ others) valid.held);
  }

  copies_nothing :
      (s : State A) (rhs : Handle)
      → rhs.storage ≡ none
      → s.storage ≡ none
      → rhs.count ≡ 0
      → s.count ≡ 0
      → copy_construct e rhs s ≡ ok tt s
  unfolding copy_construct ◌>>◌ ◌>>=◌
  copies_nothing s rhs eq bare empty zero_items = ground arith

  sets :
      (o : Option ℕ) (n : ℕ) (k : M A (Unit {0})) (t : State A)
      → (set_storage o >> set_count n >> k) t ≡ k (record t { storage = o; count = n })
  sets o n k t =
      then_runs (set_storage o) (set_count n >> k) t (record t { storage = o }) refl
      ∙ then_runs (set_count n) k (record t { storage = o }) (record t { storage = o; count = n })
          refl

  Untouched-trans :
      (first second third : State A) (vs : List Handle)
      → Untouched first second vs
      → Untouched second third vs
      → Untouched first third vs
  Untouched-trans first second third [] h k = tt
  Untouched-trans first second third (v ∷ vs) (h, hs) (k, ks) =
      (λ i. k i ∙ h i, Untouched-trans first second third vs hs ks)

  -- The vector has given up its buffer before it takes the other one over.
  Copied-behind :
      (s middle s' : State A) (rhs : Handle) (others : List Handle)
      → Untouched s middle (rhs ∷ others)
      → Copied middle s' rhs others
      → Copied s s' rhs others
  Copied-behind s middle s' rhs others (h, hs) c = record {
    size = c.size;
    each = λ i. c.each i ∙ h i;
    valid = c.valid;
    untouched = Untouched-trans s middle s' (rhs ∷ others) (h, hs) c.untouched;
  }

  -- The copy constructor shares the buffer. For a new vector beside valid ones, `rhs` the first of them:
  -- it returns, and the new vector has the items of `rhs`; every buffer counts its owners, the new
  -- one among them, and no other vector has changed.
  pub copy_construct-Copied :
      (s : State A) (rhs : Handle) (others : List Handle)
      → Valid e s (rhs ∷ others)
      → s.storage ≡ none
      → (s' : State A) × (copy_construct e rhs s ≡ ok tt s') × Copied s s' rhs others
  unfolding copy_construct
  copy_construct-Copied s rhs others valid bare = elim (Option-cases rhs.storage) [
    | inl eq ↦ (
      s,
      copies_nothing s rhs eq bare (valid.held.0.empty eq) (valid.own.empty bare),
      nothing-Copied s rhs others valid (valid.held.0.empty eq) bare (valid.own.empty bare),
    )
    | inr (p, eq) ↦
        let (b, at, room, objects) = valid.held.0.buffer p eq in
        (
          shared e s rhs others valid bare p b eq at,
          takes e s rhs others valid bare p b eq at (pure tt),
          shared-Copied s rhs others valid bare p b eq at,
        )
  ]

  -- Assignment from another vector. For a vector among valid ones, `rhs` the first of the others,
  -- with which it may share its buffer: it returns, and the vector has the items of `rhs`; its
  -- old buffer has lost an owner and is freed if that was the last one, every buffer that is left counts its
  -- owners, and no other vector has changed.
  pub assign-Copied :
      (s : State A) (rhs : Handle) (others : List Handle)
      → Valid e s (rhs ∷ others)
      → (s' : State A) × (assign e rhs s ≡ ok tt s') × Copied s s' rhs others
  unfolding assign
  assign-Copied s rhs others valid =
      let middle = given_up e s (rhs ∷ others) valid in
      let released : State A = record s { block = middle.block } in
      let (valid', kept) = given_up-Valid e s (rhs ∷ others) valid in
      let same = Kept-Untouched e s middle (rhs ∷ others) valid.held kept in
      let frees = release_any e s (rhs ∷ others) valid in
      elim (Bool-cases (rhs.count == 0)) [
        | inl empty ↦ (
          middle,
          then_runs (release_storage e) _ s released frees
              ∙ rw empty (then_runs (set_storage none) (set_count 0) released _ refl),
          Copied-behind s middle middle rhs others same
              (nothing-Copied middle rhs others valid' (ground arith) refl refl),
        )
        | inr items_there ↦ elim (Option-cases rhs.storage) [
          | inl eq ↦ let empty = valid.held.0.empty eq in absurd (ground arith)
          | inr (p, eq) ↦
              let (b, at, room, objects) = valid'.held.0.buffer p eq in
              let end = shared e middle rhs others valid' refl p b eq at in
              (
                end,
                then_runs (release_storage e) _ s released frees
                    ∙ rw items_there (
                        sets rhs.storage rhs.count _ released
                        ∙ sym (sets rhs.storage rhs.count _ middle)
                        ∙ takes e middle rhs others valid' refl p b eq at (λ _. fault)),
                Copied-behind s middle end rhs others same
                    (shared-Copied middle rhs others valid' refl p b eq at),
              )
        ]
      ]
