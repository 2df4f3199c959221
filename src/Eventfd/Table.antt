-- ===== src/Eventfd/Table.antt =====
-- The table of contexts of macport/eventfd.c: 1024 slots that hold a pointer or null.
-- A context is on the heap, at an address that is never used again.
use android_native_mac_ports.Base.{
  ℕ, Bool, false, Option, none, some, List, [], ◌∷◌, ◌==◌, if◌then◌else◌,
}
use android_native_mac_ports.Eventfd.Sockets.{Net}

pub record Context : Type 0 where
  pub sock_r : ℕ
  pub sock_w : ℕ
  pub counter : ℕ
  pub flags : ℕ

-- The sockets, the heap of contexts with its next address, and the table.
pub record State : Type 0 where
  pub net : Net
  pub context : ℕ → Option Context
  pub fresh : ℕ
  pub table : List (Option ℕ)

-- `ctx_table[i] && ctx_table[i]->sock_r == fd`
unfoldable pub holds : (ℕ → Option Context) → ℕ → Option ℕ → Bool
holds heap fd none = false
holds heap fd (some p) = elim (heap p) [ none ↦ false | some c ↦ c.sock_r == fd ]

unfoldable pub find_ctx : (ℕ → Option Context) → ℕ → List (Option ℕ) → Option ℕ
unfolding holds
find_ctx heap fd [] = none
find_ctx heap fd (slot ∷ slots) = if holds heap fd slot then slot else find_ctx heap fd slots

-- `none` is -1 with EMFILE: every slot is taken.
unfoldable pub add_ctx : ℕ → List (Option ℕ) → Option (List (Option ℕ))
add_ctx p [] = none
add_ctx p (none ∷ slots) = some (some p ∷ slots)
add_ctx p (some q ∷ slots) = elim (add_ctx p slots) [
  | none ↦ none
  | some slots' ↦ some (some q ∷ slots')
]

unfoldable pub remove_ctx : (ℕ → Option Context) → ℕ → List (Option ℕ) → List (Option ℕ)
unfolding holds
remove_ctx heap fd [] = []
remove_ctx heap fd (slot ∷ slots) =
    if holds heap fd slot then none ∷ slots else slot ∷ remove_ctx heap fd slots
