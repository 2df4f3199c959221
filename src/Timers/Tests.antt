-- ===== src/Timers/Tests.antt =====
-- Runs of libutils/Timers.cpp, and its theorem at concrete times.
use android_native_mac_ports.Base.{◌≡◌, refl, none, some, arith}
use android_native_mac_ports.Base.Int.{pos, negsuc}
use android_native_mac_ports.Timers.Delay.{
  ClockId, Timespec, system_time, to_millisecond_timeout_delay, Delay,
  to_millisecond_timeout_delay_lem,
}

abbrev tick : ClockId → Timespec
tick _ = record { tv_sec = 2; tv_nsec = 5 }

monotonic_now : system_time tick (pos 1) ≡ some (pos 2000000005)
unfolding system_time
monotonic_now = refl

invalid_clock : system_time tick (pos 5) ≡ none
unfolding system_time
invalid_clock = refl

rounds_up : to_millisecond_timeout_delay (pos 1) (pos 2000002) ≡ pos 3
unfolding to_millisecond_timeout_delay
rounds_up = refl

to_millisecond_timeout_delay_lem_example :
    Delay (negsuc 4) (pos 2000002) (to_millisecond_timeout_delay (negsuc 4) (pos 2000002))
to_millisecond_timeout_delay_lem_example =
    to_millisecond_timeout_delay_lem (negsuc 4) (pos 2000002) (omega arith) (omega arith)
