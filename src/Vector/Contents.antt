-- ===== src/Vector/Contents.antt =====
-- The vectors of libutils/VectorImpl.cpp as lists.
use android_native_mac_ports.Base.{
  ℕ, ◌+◌, ◌-◌, ◌/◌, ◌≤◌, ◌<◌, Option, some, List, [], ◌∷◌, ◌++◌, All, length, get_elem?, take, drop,
  if◌then◌else◌, ◌≡◌, refl, sym, ap, ◌∙◌, subst, arith, ltb, inl, inr, ltb-cases, get_elem?-append,
  get_elem?-take, get_elem?-drop, get_elem?-above, get_elem?-below, length-take, length-drop,
  length-append,
}
use android_native_mac_ports.Vector.Memory.{Memory}
use android_native_mac_ports.Vector.Memory.Runs.{Objects}
use android_native_mac_ports.Vector.Heap.{Setup, Block, State, ok}
use android_native_mac_ports.Vector.Operations.{Handle}
use android_native_mac_ports.Vector.Storage.{on_cells}
use android_native_mac_ports.Vector.Validity.{
  here, items, content, content-at, Holds, Kept, overwritten, Valid, content-Kept,
}
use android_native_mac_ports.Vector.Validity.Switching.{overwritten-Valid}
use android_native_mac_ports.Vector.Steps.{on_cells_lem, same_heap}
use android_native_mac_ports.Vector.Growing.Gap.{Prepared}

past : (place i n : ℕ) → place + n ≤ i → place + (i - place - n) ≡ i - n
past place i n h = omega arith

module _ {A : Type 0} where
  -- The vector whose method runs has the items of the list, in order.
  pub record Represents (s : State A) (xs : List A) : Type 0 where
    pub size : s.count ≡ length xs
    pub each : (i : ℕ) → items s i ≡ get_elem? xs i

  -- All other vectors have the items that they had.
  abbrev pub Untouched : State A → State A → List Handle → Type 0
  Untouched s s' rest = All (λ w. (i : ℕ) → content s'.block w i ≡ content s.block w i) rest

  -- The list with another list put in at an index.
  abbrev pub spliced : ℕ → List A → List A → List A
  spliced place ys xs = take place xs ++ (ys ++ drop place xs)

  pub get_elem?-spliced :
      (place : ℕ) (ys xs : List A) (i : ℕ)
      → place ≤ length xs
      → get_elem? (spliced place ys xs) i ≡ (
          if ltb i place
          then get_elem? xs i
          else if ltb i (place + length ys)
          then get_elem? ys (i - place)
          else get_elem? xs (i - length ys))
  get_elem?-spliced place ys xs i h =
      let first = length-take place xs h in
      let whole = get_elem?-append (take place xs) (ys ++ drop place xs) i in
      let left = get_elem?-take place xs i in
      let right = get_elem?-append ys (drop place xs) (i - place) in
      let last = get_elem?-drop place xs (i - place - length ys) in
      elim (ltb-cases i place) [
        | inl below ↦ ground (arith, whole, left)
        | inr above ↦ elim (ltb-cases i (place + length ys)) [
          | inl in_ys ↦
              ground (arith, whole, right, ap (λ n. get_elem? (ys ++ drop place xs) (i - n)) first)
          | inr after ↦ ground (
            arith,
            whole,
            right,
            ap (λ n. get_elem? (ys ++ drop place xs) (i - n)) first,
            last,
            ap (get_elem? xs) (past place i (length ys) after),
          )
        ]
      ]

  pub length-spliced :
      (place : ℕ) (ys xs : List A)
      → place ≤ length xs
      → length (spliced place ys xs) ≡ length xs + length ys
  length-spliced place ys xs h = omega (
    arith,
    length-append (take place xs) (ys ++ drop place xs),
    length-append ys (drop place xs),
    length-take place xs h,
    length-drop place xs,
  )

  pub Kept-trans :
      (first second third : ℕ → Option (Block A)) (vs : List Handle)
      → All (Kept first second) vs
      → All (Kept second third) vs
      → All (Kept first third) vs
  Kept-trans first second third [] h k = tt
  Kept-trans first second third (v ∷ vs) (h, hs) (k, ks) = (
    λ p storage b at.
        let (b', at', size, cells) = h p storage b at in
        let (b'', at'', size', cells') = k p storage b' at' in
        (b'', at'', size' ∙ size, cells' ∙ cells),
    Kept-trans first second third vs hs ks,
  )

module _ {A : Type 0} (e : Setup A) where
  pub Kept-Untouched :
      (s s' : State A) (vs : List Handle)
      → All (Holds e s.block) vs
      → All (Kept s.block s'.block) vs
      → Untouched s s' vs
  Kept-Untouched s s' [] h k = tt
  Kept-Untouched s s' (v ∷ vs) (h, hs) (k, ks) =
      (λ i. content-Kept e s.block s'.block v i h k, Kept-Untouched s s' vs hs ks)

  -- How an operation ends: all vectors are valid, this one has the items of the list, and all others
  -- have the items that they had.
  pub record Settled (s s' : State A) (rest : List Handle) (ys : List A) : Type 0 where
    pub valid : Valid e s' rest
    pub represents : Represents s' ys
    pub untouched : Untouched s s' rest

  pub list-Objects :
      (m : Memory A) (ys : List A)
      → ((i : ℕ) → i < length ys → m i ≡ get_elem? ys i)
      → Objects 0 (length ys) m
  list-Objects m ys h i low high =
      let (y, eq) = get_elem?-below ys i (omega arith) in (y, h i (omega arith) ∙ eq)

  overwritten-Represents :
      (base : State A) (p : ℕ) (b : Block A) (m : Memory A) (ys : List A)
      → base.storage ≡ some p
      → ((i : ℕ) → i < length ys → m i ≡ get_elem? ys i)
      → Represents (overwritten base p b m (length ys)) ys
  overwritten-Represents base p b m ys storage same = record {
    size = refl;
    each = λ i.
        let there =
          content-at e (overwritten base p b m (length ys)).block
            (here (overwritten base p b m (length ys))) i p (record b { cells = m }) storage
            (ground arith) in
        elim (ltb-cases i (length ys)) [
          | inl below ↦ ground (arith, there, same i below)
          | inr above ↦ ground (arith, there, get_elem?-above ys i above)
        ];
  }

  -- Once each place of a prepared buffer has the object of a list, the operation is settled.
  pub settles :
      (s base s' : State A) (rest : List Handle) (p : ℕ) (b : Block A) (m m' : Memory A)
      (ys : List A)
      → Valid e s rest
      → Prepared e s base s' rest p b m (length ys)
      → ((i : ℕ) → i < length ys → m' i ≡ get_elem? ys i)
      → Settled s (overwritten base p b m' (length ys)) rest ys
  settles s base s' rest p b m m' ys valid prepared same =
      let (valid', kept) =
        overwritten-Valid e base rest prepared.valid p b (length ys) m' prepared.storage prepared.at
          prepared.alone prepared.room (list-Objects m' ys same) in
      record {
        valid = valid';
        represents = overwritten-Represents base p b m' ys prepared.storage same;
        untouched = Kept-Untouched s (overwritten base p b m' (length ys)) rest valid.held (
            Kept-trans s.block base.block (overwritten base p b m' (length ys)).block rest
              prepared.kept kept);
      }

  -- The same for a count that is the length of the list.
  pub settles-at :
      (s base s' : State A) (rest : List Handle) (p : ℕ) (b : Block A) (m m' : Memory A)
      (ys : List A) (n : ℕ)
      → Valid e s rest
      → n ≡ length ys
      → Prepared e s base s' rest p b m n
      → ((i : ℕ) → i < length ys → m' i ≡ get_elem? ys i)
      → Settled s (overwritten base p b m' n) rest ys
  settles-at s base s' rest p b m m' ys n valid total prepared same =
      subst (λ (k : ℕ). Settled s (overwritten base p b m' k) rest ys) (sym total)
        (settles s base s' rest p b m m' ys valid
          (subst (λ (k : ℕ). Prepared e s base s' rest p b m k) total prepared) same)

  -- The places of a prepared buffer are filled.
  pub fills :
      (base : State A) (p : ℕ) (b : Block A) (m m' : Memory A) (new limit : ℕ)
      (f : Memory A → Option (Memory A))
      → f m ≡ some m'
      → limit ≤ b.size / e.item_size
      → on_cells e p limit f (overwritten base p b m new) ≡ ok tt (overwritten base p b m' new)
  fills base p b m m' new limit f eq room =
      on_cells_lem e p limit f (overwritten base p b m new) (record b { cells = m }) m'
        (ground arith) room eq
      ∙ same_heap tt (record base { count = new }) _ _ λ r. ground arith
