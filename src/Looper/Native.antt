-- ===== src/Looper/Native.antt =====
-- The polls of native/android/looper.cpp, on the looper that the calling thread has.
use android_native_mac_ports.Base.{ℕ, ◌⊎◌, inl, inr, Option, none, some}
use android_native_mac_ports.Base.Int.{ℤ}
use android_native_mac_ports.Looper.State.{Looper, System, Run, poll_error}
use android_native_mac_ports.Looper.Poll.{Polled, poll_once, poll_all}

-- `ALooper_pollOnce`: without a looper only the error is returned.
unfoldable pub a_looper_poll_once : ℕ → System → ℤ → Option Looper → ℤ ⊎ Run Polled
unfolding poll_once
a_looper_poll_once fuel sys timeout_millis none = inl poll_error
a_looper_poll_once fuel sys timeout_millis (some l) = inr (poll_once fuel sys timeout_millis l)

-- `ALooper_pollAll`
unfoldable pub a_looper_poll_all : ℕ → ℕ → System → ℤ → Option Looper → ℤ ⊎ Run Polled
unfolding poll_all
a_looper_poll_all rounds fuel sys timeout_millis none = inl poll_error
a_looper_poll_all rounds fuel sys timeout_millis (some l) =
    inr (poll_all rounds fuel sys timeout_millis l)
