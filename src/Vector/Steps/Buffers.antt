-- ===== src/Vector/Steps/Buffers.antt =====
-- The calls of libutils/SharedBuffer.cpp, and the copies and the release of libutils/VectorImpl.cpp.
use android_native_mac_ports.Base.{
  ℕ, suc, ◌+◌, ◌-◌, ◌/◌, ◌%◌, ◌^◌, ◌≤◌, ◌<◌, Bool, true, false, Option, none, some, leb, ◌==◌,
  update, ◌≡◌, refl, ap, fun_ext, ◌∙◌, arith,
}
use android_native_mac_ports.Vector.Memory.{Memory, copied, copy_type}
use android_native_mac_ports.Vector.Memory.Runs.{Objects, copy_type_lem}
use android_native_mac_ports.Vector.Heap.{
  Setup, Block, State, Run, ok, fault, M, ◌>>=◌, ◌>>◌, fits, header_size, get_block, alloc, release,
  only_owner, choose,
}
use android_native_mac_ports.Vector.Storage.{on_cells, do_copy}

module _ {A : Type 0} where
  -- A step that returns is followed by the rest.
  pub binds :
      {R S : Type 0} (m : M A R) (f : R → M A S) (s s' : State A) (r : R)
      → m s ≡ ok r s'
      → (m >>= f) s ≡ f r s'
  unfolding ◌>>=◌
  binds m f s s' r eq = rw (eq, ◌>>=◌) refl

  pub then_runs :
      {S : Type 0} (m : M A (Unit {0})) (k : M A S) (s s' : State A)
      → m s ≡ ok tt s'
      → (m >> k) s ≡ k s'
  unfolding ◌>>◌ ◌>>=◌
  then_runs m k s s' eq = rw (eq, ◌>>◌, ◌>>=◌) refl

  -- Two changes of the heap that agree at each address.
  pub same_heap :
      {R : Type 0} (r : R) (s : State A) (block block' : ℕ → Option (Block A))
      → ((p : ℕ) → block p ≡ block' p)
      → ◌≡◌ {A = Run A R} (ok r (record s { block = block })) (ok r (record s { block = block' }))
  same_heap r s block block' h = ap (λ b. ok r (record s { block = b })) (fun_ext h)

  pub get_block_lem :
      (p : ℕ) (b : Block A) (s : State A) → s.block p ≡ some b → get_block p s ≡ ok b s
  unfolding get_block
  get_block_lem p b s at = rw (at, get_block) refl

  -- A new buffer of a number of bytes, filled.
  abbrev pub with_buffer : State A → ℕ → Memory A → State A
  with_buffer s bytes m = record s {
    block = update s.block s.fresh (some (record { refs = 1; size = bytes; cells = m }));
    fresh = suc s.fresh;
  }

module _ {A : Type 0} (e : Setup A) where
  abbrev pub allocated : ℕ → State A → State A
  allocated size s = record s {
    block = update s.block s.fresh (some (record { refs = 1; size = size; cells = λ _. none }));
    fresh = suc s.fresh;
  }

  pub alloc_lem :
      (size : ℕ) (s : State A)
      → fits size ≡ true
      → e.malloc_gives (header_size + size) s.fresh ≡ true
      → alloc e size s ≡ ok (some s.fresh) (allocated size s)
  unfolding alloc ◌>>=◌ ◌>>◌
  alloc_lem size s h g = rw (h, g) refl

  pub on_cells_lem :
      (p limit : ℕ) (f : Memory A → Option (Memory A)) (s : State A) (b : Block A) (m : Memory A)
      → s.block p ≡ some b
      → limit ≤ b.size / e.item_size
      → f b.cells ≡ some m
      → on_cells e p limit f s
        ≡ ok tt (record s { block = update s.block p (some (record b { cells = m })) })
  unfolding on_cells
  on_cells_lem p limit f s b m at h eq =
      binds (get_block p) _ s s b (get_block_lem p b s at) ∙ ground arith

  pub do_copy_lem :
      (q d from n p : ℕ) (s : State A) (b c : Block A)
      → s.storage ≡ some p
      → s.block p ≡ some b
      → s.block q ≡ some c
      → from + n ≤ b.size / e.item_size
      → d + n ≤ c.size / e.item_size
      → Objects from n b.cells
      → do_copy e q d from n s
        ≡ ok tt (record s {
          block = update s.block q (some (record c { cells = copied d from n b.cells c.cells }));
        })
  unfolding do_copy
  do_copy_lem q d from n p s b c storage at_p at_q room_b room_c objects =
      let from_p =
        binds (get_block p)
          (λ a.
            choose (leb (from + n) (a.size / e.item_size))
              (on_cells e q (d + n) (copy_type e.traits d from n a.cells)) (λ _. fault))
          s s b (get_block_lem p b s at_p) in
      let to_q =
        on_cells_lem q (d + n) (copy_type e.traits d from n b.cells) s c
          (copied d from n b.cells c.cells) at_q room_c
          (copy_type_lem e.traits d from n b.cells c.cells objects) in
      ground (arith, from_p, to_q)

  pub release_last :
      (p : ℕ) (s : State A) (b : Block A)
      → s.block p ≡ some b
      → b.refs ≡ 1
      → release e true p s
        ≡ ok 1 (record s { block = update s.block p (some (record b { refs = 0 })) })
  unfolding release only_owner get_block ◌>>=◌ ◌>>◌
  release_last p s b at one = ground arith

  pub only_owner_lem :
      (p : ℕ) (s : State A) (b : Block A)
      → s.block p ≡ some b
      → only_owner e p s ≡ ok (b.refs == 1) s
  unfolding only_owner
  only_owner_lem p s b at = binds (get_block p) _ s s b (get_block_lem p b s at)

  pub fewer : (n : ℕ) → 0 < n → n < 2 ^ 32 → (n + 2 ^ 32 - 1) % 2 ^ 32 ≡ n - 1
  fewer n pos small = omega arith

  pub release_shared :
      (keep : Bool) (p : ℕ) (s : State A) (b : Block A)
      → s.block p ≡ some b
      → (b.refs == 1) ≡ false
      → 0 < b.refs
      → b.refs < 2 ^ 32
      → release e keep p s
        ≡ ok b.refs (record s { block = update s.block p (some (record b { refs = b.refs - 1 })) })
  unfolding release
  release_shared keep p s b at many pos small =
      binds (only_owner e p) _ s s (b.refs == 1) (only_owner_lem p s b at)
      ∙ rw many (
          binds (get_block p) _ s s b (get_block_lem p b s at)
          ∙ then_runs _ _ s
              (record s { block = update s.block p (some (record b { refs = b.refs - 1 })) })
              (rw (fewer b.refs pos small) refl)
          ∙ rw many (then_runs _ _ _ _ refl))
