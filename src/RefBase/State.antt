-- ===== src/RefBase/State.antt =====
-- The state of an object of libutils/RefBase.cpp and of its `weakref_impl`, without DEBUG_REFS.
-- An `int32_t` is its 32 bits, as a number below 2^32.
use android_native_mac_ports.Base.{
  ℕ, ◌+◌, ◌-◌, ◌%◌, ◌^◌, Bool, true, false, ◌||◌, not, List, [], ◌==◌, ltb, test_bit, if◌then◌else◌,
}

-- A `delete` of the object, and one of its `weakref_impl`.
pub data Deletion : Type 0 where
  object_deleted refs_deleted : Deletion

-- `alive` and `refs_alive` tell whether the object and its `weakref_impl` are still allocated;
-- `lifetime_weak` is the bit OBJECT_LIFETIME_WEAK of the flags.
pub record State : Type 0 where
  pub strong : ℕ
  pub weak : ℕ
  pub lifetime_weak : Bool
  pub alive : Bool
  pub refs_alive : Bool
  pub deletions : List Deletion

-- How a run ends: with a value and a state, by the abort of a fatal log, or with a use of memory that
-- was freed.
pub data Run {ℓ} (A : Type ℓ) : Type ℓ where
  ok : A → State → Run A
  abort : Run A
  fault : Run A

abbrev pub M {ℓ} : Type ℓ → Type ℓ
M A = State → Run A

abbrev pub pure {ℓ} : {A : Type ℓ} → A → M A
pure a s = ok a s

infixr 5 ◌>>=◌ ◌>>◌
unfoldable pub ◌>>=◌ {ℓ κ} : {A : Type ℓ} {B : Type κ} → M A → (A → M B) → M B
◌>>=◌ m f s = elim (m s) [ ok a s' ↦ f a s' | abort ↦ abort | fault ↦ fault ]

unfoldable pub ◌>>◌ {ℓ} : {B : Type ℓ} → M (Unit {0}) → M B → M B
unfolding ◌>>=◌
m >> k = m >>= λ _. k

-- The virtual functions of the object, and whether it is on the calling stack.
pub record Hooks : Type 0 where
  pub on_first_ref : M (Unit {0})
  pub on_last_strong_ref : M (Unit {0})
  pub on_last_weak_ref : M (Unit {0})
  pub on_inc_strong_attempted : M Bool
  pub on_stack : Bool

-- The functions of RefBase itself, where no class overrides them.
abbrev pub ref_base : Hooks
ref_base = record {
  on_first_ref = pure tt;
  on_last_strong_ref = pure tt;
  on_last_weak_ref = pure tt;
  on_inc_strong_attempted = pure true;
  on_stack = false;
}

abbrev pub initial_strong_value : ℕ
initial_strong_value = 2 ^ 28

-- MAX_COUNT + 1
abbrev pub count_limit : ℕ
count_limit = 2 ^ 20

-- Whether a 32-bit pattern is a number of at least 0.
abbrev pub is_natural : ℕ → Bool
is_natural c = ltb c (2 ^ 31)

abbrev pub add_32 : ℕ → ℕ → ℕ
add_32 c k = (c + k) % 2 ^ 32

abbrev pub sub_32 : ℕ → ℕ → ℕ
sub_32 c k = (c + 2 ^ 32 - k) % 2 ^ 32

-- `c == 0 || (c & ~(MAX_COUNT | INITIAL_STRONG_VALUE)) != 0`
abbrev pub bad_strong : ℕ → Bool
bad_strong c =
    c == 0 || not (ltb (if test_bit c 28 then c - initial_strong_value else c) count_limit)

-- `c == 0 || (c & ~MAX_COUNT) != 0`
abbrev pub bad_weak : ℕ → Bool
bad_weak c = c == 0 || not (ltb c count_limit)

-- The state that the constructors of RefBase and weakref_impl set up.
abbrev pub new_object : State
new_object = record {
  strong = initial_strong_value;
  weak = 0;
  lifetime_weak = false;
  alive = true;
  refs_alive = true;
  deletions = [];
}
