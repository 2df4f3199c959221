-- ===== src/Vector/Steps/Rebuilding.antt =====
-- The branch of `_grow` and `_shrink` in libutils/VectorImpl.cpp that copies the items to a new buffer.
use android_native_mac_ports.Base.{
  ℕ, suc, ◌+◌, ◌-◌, ◌/◌, ◌≤◌, Bool, true, false, not, none, some, List, ◌==◌, if◌then◌else◌, ◌≡◌,
  refl, sym, ap, ◌∙◌, fun_ext, arith, inl, inr, Option-cases, ltb,
}
use android_native_mac_ports.Vector.Memory.{Memory, copied}
use android_native_mac_ports.Vector.Heap.{Setup, Block, State, ok, pure, alloc, fits, when}
use android_native_mac_ports.Vector.Operations.{Handle}
use android_native_mac_ports.Vector.Storage.{do_copy, replace_storage}
use android_native_mac_ports.Vector.Validity.{here, items, content-at, switched, Valid}
use android_native_mac_ports.Vector.Steps.Buffers.{
  binds, then_runs, same_heap, with_buffer, allocated, alloc_lem, do_copy_lem,
}
use android_native_mac_ports.Vector.Steps.Moving.{release_old}

module _ {A : Type 0} where
  -- What the new buffer holds.
  abbrev pub rebuilt : State A → ℕ → Bool → ℕ → ℕ → ℕ → Memory A
  rebuilt s place more to from n =
      let first : Memory A =
        if not (place == 0) then copied 0 0 place (items s) (λ _. none) else (λ _. none) in
      if more then copied to from n (items s) first else first

module _ {A : Type 0} (e : Setup A) (s : State A) (rest : List Handle)
    (valid : Valid e s rest) where
  pub items-at :
      (p : ℕ) (b : Block A) (i : ℕ)
      → s.storage ≡ some p
      → s.block p ≡ some b
      → items s i ≡ (if ltb i s.count then b.cells i else none)
  items-at p b i = content-at e s.block (here s) i p b

  do_copy-none :
      (q d from : ℕ) (s' : State A) → s'.storage ≡ none → do_copy e q d from 0 s' ≡ ok tt s'
  unfolding do_copy
  do_copy-none q d from s' eq = ground arith

  pub copy_nothing : (d from : ℕ) (f m : Memory A) → copied d from 0 f m ≡ m
  copy_nothing d from f m = fun_ext λ i. ground arith

  -- Items are copied from the vector to the new buffer.
  copy_step :
      (bytes d from n : ℕ) (m : Memory A)
      → from + n ≤ s.count
      → d + n ≤ bytes / e.item_size
      → do_copy e s.fresh d from n (with_buffer s bytes m)
        ≡ ok tt (with_buffer s bytes (copied d from n (items s) m))
  copy_step bytes d from n m low high = elim (Option-cases s.storage) [
    | inl eq ↦
        let none_left : n ≡ 0 = omega (arith, valid.own.empty eq) in
        rw none_left (
          do_copy-none s.fresh d from (with_buffer s bytes m) eq
          ∙ ap (λ c. ok tt (with_buffer s bytes c)) (sym (copy_nothing d from (items s) m)))
    | inr (p, eq) ↦
        let (b, at, room, objects) = valid.own.buffer p eq in
        let live = valid.below p b at in
        let same : copied d from n b.cells m ≡ copied d from n (items s) m =
          fun_ext λ i. ground (arith, items-at p b (from + (i - d)) eq at) in
        do_copy_lem e s.fresh d from n p (with_buffer s bytes m) b
          (record { refs = 1; size = bytes; cells = m }) eq (ground arith) (ground arith)
          (omega (arith, room)) high (λ i h k. objects i (omega arith) (omega arith))
        ∙ same_heap tt (record s { fresh = suc s.fresh }) _ _ (λ r. ground arith)
        ∙ ap (λ c. ok tt (with_buffer s bytes c)) same
  ]

  when_copy :
      (test : Bool) (bytes d from n : ℕ) (m : Memory A)
      → from + n ≤ s.count
      → d + n ≤ bytes / e.item_size
      → when test (do_copy e s.fresh d from n) (with_buffer s bytes m)
        ≡ ok tt (with_buffer s bytes (if test then copied d from n (items s) m else m))
  when_copy true bytes d from n m low high = copy_step bytes d from n m low high
  when_copy false bytes d from n m low high = refl

  pub replace_storage_lem :
      (bytes place : ℕ) (more : Bool) (to from n : ℕ)
      → fits bytes ≡ true
      → ((size q : ℕ) → e.malloc_gives size q ≡ true)
      → place ≤ s.count
      → place ≤ bytes / e.item_size
      → from + n ≤ s.count
      → to + n ≤ bytes / e.item_size
      → replace_storage e bytes place more to from n s
        ≡ ok true (switched s bytes (rebuilt s place more to from n) s.count)
  unfolding replace_storage
  replace_storage_lem bytes place more to from n small given low room low' room' =
      let first : Memory A =
        if not (place == 0) then copied 0 0 place (items s) (λ _. none) else (λ _. none) in
      binds (alloc e bytes) _ s (allocated e bytes s) (some s.fresh)
        (alloc_lem e bytes s small (given _ _))
      ∙ then_runs _ _ (allocated e bytes s) (with_buffer s bytes first)
          (when_copy (not (place == 0)) bytes 0 0 place (λ _. none) (omega arith) (omega arith))
      ∙ then_runs _ _ (with_buffer s bytes first)
          (with_buffer s bytes (rebuilt s place more to from n))
          (when_copy more bytes to from n first low' room')
      ∙ release_old e s rest valid bytes (rebuilt s place more to from n) (pure true)
