-- ===== src/Vector/Heap.antt =====
-- libutils/SharedBuffer.cpp and SharedBuffer.h, 64-bit: buffers with a count of their owners, on a heap.
-- A buffer is named by its address. An address that was freed is never given out again, so that each
-- use of freed memory shows as a fault. Every buffer holds objects of one type.
use android_native_mac_ports.Base.{
  ℕ, suc, ◌+◌, ◌-◌, ◌/◌, ◌%◌, ◌^◌, Bool, false, ◌&&◌, not, min, Option, none, some, ◌==◌, ltb,
  if◌then◌else◌, update,
}
use android_native_mac_ports.Vector.Memory.{Traits, Memory}

-- What the allocator answers is a parameter: whether `malloc` of a number of bytes gives the address,
-- and whether `realloc` does.
pub record Setup (A : Type 0) : Type 0 where
  pub traits : Traits A
  pub item_size : ℕ
  pub malloc_gives : ℕ → ℕ → Bool
  pub realloc_gives : ℕ → ℕ → Bool

-- `mRefs` as 32 bits, `mSize` in bytes, and the objects in the bytes behind the header.
pub record Block (A : Type 0) : Type 0 where
  pub refs : ℕ
  pub size : ℕ
  pub cells : Memory A

-- The heap, and `mStorage` and `mCount` of the vector whose method runs.
pub record State (A : Type 0) : Type 0 where
  pub storage : Option ℕ
  pub count : ℕ
  pub block : ℕ → Option (Block A)
  pub fresh : ℕ

-- How a run ends: with a value, by a fatal log, or with a use of memory that holds no object, lies
-- outside of its buffer or was freed.
pub data Run {ℓ} (A : Type 0) (R : Type ℓ) : Type ℓ where
  ok : R → State A → Run A R
  abort : Run A R
  fault : Run A R

abbrev pub M {ℓ} : Type 0 → Type ℓ → Type ℓ
M A R = State A → Run A R

module _ {A : Type 0} where
  abbrev pub pure {ℓ} : {R : Type ℓ} → R → M A R
  pure r s = ok r s

  infixr 5 ◌>>=◌ ◌>>◌
  unfoldable pub ◌>>=◌ {ℓ κ} : {R : Type ℓ} {S : Type κ} → M A R → (R → M A S) → M A S
  ◌>>=◌ m f s = elim (m s) [ ok r s' ↦ f r s' | abort ↦ abort | fault ↦ fault ]

  unfoldable pub ◌>>◌ {ℓ} : {S : Type ℓ} → M A (Unit {0}) → M A S → M A S
  unfolding ◌>>=◌
  m >> k = m >>= λ _. k

  -- `LOG_ALWAYS_FATAL_IF(bad)`, and `ALOG_ASSERT(!bad)`, which the build turns on.
  abbrev pub fatal_if : Bool → M A (Unit {0})
  fatal_if bad s = if bad then abort else ok tt s

  abbrev pub when : Bool → M A (Unit {0}) → M A (Unit {0})
  when b m s = if b then m s else ok tt s

  abbrev pub choose {ℓ} : {R : Type ℓ} → Bool → M A R → M A R → M A R
  choose b m k s = if b then m s else k s

  unfoldable pub get_block : ℕ → M A (Block A)
  get_block p s = elim (s.block p) [ none ↦ fault | some b ↦ ok b s ]

  abbrev pub set_block : ℕ → Option (Block A) → M A (Unit {0})
  set_block p o s = ok tt (record s { block = update s.block p o })

-- SIZE_MAX
abbrev pub size_max : ℕ
size_max = 2 ^ 64 - 1

-- `sizeof(SharedBuffer)`
abbrev pub header_size : ℕ
header_size = 24

-- A size that `alloc` takes for a buffer.
abbrev pub fits : ℕ → Bool
fits size = ltb size (size_max - header_size)

module _ {A : Type 0} (e : Setup A) where
  -- `SharedBuffer::alloc`
  unfoldable pub alloc : ℕ → M A (Option ℕ)
  alloc size s =
      (fatal_if (not (fits size))
          >> choose (e.malloc_gives (header_size + size) s.fresh)
              (λ s'. ok (some s'.fresh) (record s' {
                block =
                    update s'.block s'.fresh
                      (some (record { refs = 1; size = size; cells = λ _. none }));
                fresh = suc s'.fresh;
              }))
              (pure none))
        s

  -- `SharedBuffer::dealloc`
  unfoldable pub dealloc : ℕ → M A (Unit {0})
  unfolding get_block
  dealloc p = get_block p >>= λ _. set_block p none

  -- `SharedBuffer::onlyOwner`
  unfoldable pub only_owner : ℕ → M A Bool
  unfolding get_block
  only_owner p = get_block p >>= λ b. pure (b.refs == 1)

  -- `SharedBuffer::acquire`
  unfoldable pub acquire : ℕ → M A (Unit {0})
  unfolding get_block
  acquire p = get_block p >>= λ b. set_block p (some (record b { refs = (b.refs + 1) % 2 ^ 32 }))

  -- `SharedBuffer::release`, and whether its flags have `eKeepStorage`
  unfoldable pub release : Bool → ℕ → M A ℕ
  unfolding get_block only_owner dealloc
  release keep_storage p = only_owner p >>= λ only.
      choose only
        (get_block p >>= λ b.
          set_block p (some (record b { refs = 0 }))
          >> when (not keep_storage) (dealloc p)
          >> pure 1)
        (get_block p >>= λ b.
          set_block p (some (record b { refs = (b.refs + 2 ^ 32 - 1) % 2 ^ 32 }))
          >> when (b.refs == 1 && not keep_storage) (dealloc p)
          >> pure b.refs)

  -- `SharedBuffer::attemptEdit`
  unfoldable pub attempt_edit : ℕ → M A (Option ℕ)
  unfolding only_owner
  attempt_edit p = only_owner p >>= λ only. pure (if only then some p else none)

  -- The objects that lie in the first bytes of a buffer.
  abbrev pub within : ℕ → Memory A → Memory A
  within bytes m i = if ltb i (bytes / e.item_size) then m i else none

  -- The end of `edit` and `editResize`: a new buffer with the first bytes of the old one.
  unfoldable pub replace_buffer : ℕ → ℕ → ℕ → M A (Option ℕ)
  unfolding alloc get_block release
  replace_buffer p size kept = alloc size >>= λ r. elim r [
    | none ↦ pure none
    | some q ↦ get_block p >>= λ b. get_block q >>= λ c.
        set_block q (some (record c { cells = within kept b.cells })) >> release false p >>= λ _.
        pure (some q)
  ]

  -- `SharedBuffer::edit`
  unfoldable pub edit : ℕ → M A (Option ℕ)
  unfolding only_owner replace_buffer get_block
  edit p = only_owner p >>= λ only.
      choose only (pure (some p)) (get_block p >>= λ b. replace_buffer p b.size b.size)

  -- `realloc` of the buffer: it gives a new address, and the old one is freed.
  unfoldable pub reallocate : ℕ → ℕ → M A (Option ℕ)
  unfolding get_block
  reallocate p size = get_block p >>= λ b s.
      choose (e.realloc_gives (header_size + size) s.fresh)
        (λ s'. ok (some s'.fresh) (record s' {
          block =
              update (update s'.block p none) s'.fresh
                (some (record b { size = size; cells = within (min size b.size) b.cells }));
          fresh = suc s'.fresh;
        }))
        (pure none) s

  -- `SharedBuffer::editResize`
  unfoldable pub edit_resize : ℕ → ℕ → M A (Option ℕ)
  unfolding only_owner replace_buffer get_block reallocate
  edit_resize p new_size = only_owner p >>= λ only. get_block p >>= λ b.
      choose only
        (choose (b.size == new_size) (pure (some p)) (
          fatal_if (not (fits new_size)) >> reallocate p new_size >>= λ r. elim r [
            | some q ↦ pure (some q)
            | none ↦ replace_buffer p new_size (min new_size b.size)
          ]))
        (replace_buffer p new_size (min new_size b.size))

  -- `SharedBuffer::reset`
  unfoldable pub reset : ℕ → ℕ → M A (Option ℕ)
  unfolding alloc release
  reset p new_size = alloc new_size >>= λ r. elim r [
    | none ↦ pure none
    | some q ↦ release false p >>= λ _. pure (some q)
  ]
