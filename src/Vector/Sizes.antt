-- ===== src/Vector/Sizes.antt =====
-- The arithmetic of the sizes that libutils/VectorImpl.cpp computes.
use android_native_mac_ports.Base.{
  ℕ, ◌+◌, ◌-◌, ◌*◌, ◌/◌, ◌^◌, ◌≤◌, ◌<◌, true, false, min, leb, ◌==◌, ◌≡◌, refl, subst, ◌⊎◌, inl,
  inr, arith, Bool-cases,
}
use native.Mathlib.Nat.{div-mul-le_self, div-le_self}
use android_native_mac_ports.Vector.Heap.{fits}
use android_native_mac_ports.Vector.Storage.{max, min_capacity, grown_capacity}

pub division_lem : (c k : ℕ) → 0 < k → c * k / k ≡ c
division_lem c k h = grind arith

pub product_le : (c k : ℕ) → 0 < k → c ≤ c * k
product_le c k h = grind arith

pub from_zero : (i : ℕ) → 0 + (i - 0) ≡ i
from_zero i = omega arith

pub from_gap : (place amount i : ℕ) → place ≤ i → place + (i + amount - (place + amount)) ≡ i
from_gap place amount i h = omega arith

min-cases : (a b : ℕ) → (min a b ≡ a) ⊎ (min a b ≡ b)
min-cases a b = grind arith

-- A place that is in two buffers is in the smaller one.
pub min_room : (a b k i : ℕ) → i < a / k → i < b / k → i < min a b / k
min_room a b k i h j = elim (min-cases a b) [ inl eq ↦ rw eq h | inr eq ↦ rw eq j ]

pub sizes_differ : (a b k n : ℕ) → a / k < n → n ≤ b / k → (a == b) ≡ false
sizes_differ a b k n h j = elim (Bool-cases (a == b)) [
  | inl same ↦
      let eq : a ≡ b = ground arith in
      absurd (omega (arith, subst (λ (c : ℕ). a / k ≡ c / k) eq refl))
  | inr differ ↦ differ
]

-- The new capacity has room.
pub grown_capacity_le : (n : ℕ) → n + n / 2 + 1 ≤ grown_capacity n
grown_capacity_le n = ground arith

pub sizes_differ_down : (a b k n : ℕ) → a / k < n → n ≤ b / k → (b == a) ≡ false
sizes_differ_down a b k n h j = let d = sizes_differ a b k n h j in ground arith

-- A smaller capacity is one that was allocated before.
pub shrunk_le :
    (size k n : ℕ) → 0 < k → n < size / k / 2 → 4 < size / k → max min_capacity (n * 2) * k ≤ size
shrunk_le size k n pos small large =
    let less : max min_capacity (n * 2) ≤ size / k = ground arith in
    grind (arith, div-mul-le_self size k)

-- A number of objects that a buffer has room for does not overflow.
pub room_small : (size k n : ℕ) → n ≤ size / k → fits size ≡ true → leb (2 ^ 64) n ≡ false
room_small size k n h f = let less = div-le_self size k in ground arith

pub fits_less : (a b : ℕ) → a ≤ b → fits b ≡ true → fits a ≡ true
fits_less a b h f = ground arith
