-- ===== src/Timers/Delay.antt =====
-- `systemTime` and `toMillisecondTimeoutDelay` of libutils/Timers.cpp, with the clocks of macOS.
use android_native_mac_ports.Base.{
  ℕ, suc, ◌+◌, ◌-◌, ◌*◌, ◌/◌, ◌%◌, ◌^◌, ◌≤◌, ◌<◌, ◌≡◌, Bool, ◌||◌, inl, inr, Bool-cases, Option,
  none, some, List, [], ◌∷◌, arith, ltb, if◌then◌else◌, get_elem?,
}
use android_native_mac_ports.Base.Int.{
  ℤ, pos, negsuc, pos_part, neg_part, ◌+ℤ◌, ◌≤ℤ◌, ◌<ℤ◌, leb_ℤ, ltb_ℤ,
}

-- The `clockid_t` constants that the table names.
pub data ClockId : Type 0 where
  realtime monotonic process_cputime thread_cputime uptime_raw : ClockId

abbrev pub clock_id_max : ℕ
clock_id_max = 5

abbrev pub clocks : List ClockId
clocks = realtime ∷ monotonic ∷ process_cputime ∷ thread_cputime ∷ uptime_raw ∷ []

pub record Timespec : Type 0 where
  pub tv_sec : ℕ
  pub tv_nsec : ℕ

-- Whether `checkClockId` lets the clock pass.
unfoldable pub check_clock_id : ℤ → Bool
check_clock_id clock =
    if ltb_ℤ clock (pos 0) || leb_ℤ (pos clock_id_max) clock then Bool.false else Bool.true

-- `none` is the abort of `checkClockId`. What `clock_gettime` answers is a parameter.
unfoldable pub system_time : (ClockId → Timespec) → ℤ → Option ℤ
unfolding check_clock_id
system_time clock_gettime clock =
    if check_clock_id clock
    then (elim (get_elem? clocks (pos_part clock)) [
      | none ↦ none
      | some id ↦ (let t = clock_gettime id in some (pos (t.tv_sec * 1000000000 + t.tv_nsec)))
    ])
    else none

abbrev pub max_delay : ℕ
max_delay = (2 ^ 31 - 1 - 1) * 1000000

-- The milliseconds from `reference_time` to `timeout_time`, rounded up; -1 from INT_MAX - 1 on. Where the
-- signed difference overflows, which C++ leaves undefined, it wraps around.
unfoldable pub to_millisecond_timeout_delay : ℤ → ℤ → ℤ
to_millisecond_timeout_delay reference_time timeout_time =
    if leb_ℤ timeout_time reference_time
    then pos 0
    else (let later = pos_part timeout_time + neg_part reference_time in
        let timeout_delay = (later - (pos_part reference_time + neg_part timeout_time)) % 2 ^ 64 in
        if ltb max_delay timeout_delay then negsuc 0 else pos ((timeout_delay + 999999) / 1000000))

-- The values of `int64_t`.
abbrev pub IsInt64 : ℤ → Type 0
IsInt64 a = (pos_part a < 2 ^ 63) × (neg_part a ≤ 2 ^ 63)

-- What a delay `d` says of a deadline `t` seen at time `r`.
pub data Delay (r t d : ℤ) : Type 0 where
  due : t ≤ℤ r → d ≡ pos 0 → Delay r t d
  too_far : r +ℤ pos max_delay <ℤ t → d ≡ negsuc 0 → Delay r t d
  wait :
      (n : ℕ)
      → d ≡ pos (suc n)
      → suc n ≤ 2 ^ 31 - 2
      → t ≤ℤ r +ℤ pos (suc n * 1000000)
      → r +ℤ pos (n * 1000000) <ℤ t
      → Delay r t d

-- Between two `int64_t` times, with a difference that wraps around where it overflows, the delay is 0
-- where the deadline has passed, -1 where it is more than INT_MAX - 1 = 2147483646 milliseconds away, and
-- otherwise the least whole number of milliseconds after which the deadline is reached. So it is -1
-- also for the last millisecond up to INT_MAX, for which the header says that it is INT_MAX.
pub to_millisecond_timeout_delay_lem :
    (r t : ℤ) → IsInt64 r → IsInt64 t → Delay r t (to_millisecond_timeout_delay r t)
unfolding to_millisecond_timeout_delay ◌+ℤ◌
to_millisecond_timeout_delay_lem r t hr ht = elim (Bool-cases (leb_ℤ t r)) [
  | inl past ↦ due (ground arith) (ground arith)
  | inr ahead ↦ elim (Bool-cases (ltb max_delay (later t r - later r t))) [
    | inl far ↦ too_far (ground arith) (ground arith)
    | inr near ↦
        wait ((later t r - later r t - 1) / 1000000) (ground arith) (ground arith) (ground arith)
          (ground arith)
  ]
]
  where
    later : ℤ → ℤ → ℕ
    later a b = pos_part a + neg_part b
