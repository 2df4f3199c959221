-- ===== src/Looper/State.antt =====
-- The state of a looper (libutils/include/utils/Looper.h) and what it asks of the system, for macOS,
-- where it polls by kqueue. The members that only a lock guards are plain fields.
use android_native_mac_ports.Base.{ℕ, ◌+◌, ◌-◌, ◌^◌, Bool, Option, List, ◌∷◌, test_bit}
use android_native_mac_ports.Base.Int.{ℤ, pos, negsuc}

pub record Message : Type 0 where
  pub what : ℤ

-- A handler is the address of its object.
pub record MessageEnvelope : Type 0 where
  pub uptime : ℤ
  pub handler : ℕ
  pub message : Message

-- A callback is the address of its object, `payload` is the source's `data`.
pub record Request : Type 0 where
  pub fd : ℤ
  pub ident : ℤ
  pub events : ℕ
  pub callback : Option ℕ
  pub payload : ℕ

pub record Response : Type 0 where
  pub seq : ℕ
  pub events : ℕ
  pub request : Request

pub data Filter : Type 0 where
  evfilt_read evfilt_write : Filter

pub data Action : Type 0 where
  ev_add ev_delete : Action

-- A `struct kevent` that is handed to the kernel; `udata` is the sequence number.
pub record Change : Type 0 where
  pub ident : ℤ
  pub filter : Filter
  pub action : Action
  pub udata : ℕ

-- A `struct kevent` that the kernel hands back.
pub record Event : Type 0 where
  pub udata : ℕ
  pub filter : Filter
  pub ev_error : Bool
  pub ev_eof : Bool

-- What the looper has asked of the kernel, the latest first.
pub data SystemCall : Type 0 where
  kqueues : SystemCall
  kevents : ℕ → List Change → SystemCall
  waits : ℕ → ℤ → SystemCall
  writes_wake : SystemCall
  reads_wake : SystemCall

pub record Looper : Type 0 where
  pub allow_non_callbacks : Bool
  pub message_envelopes : List MessageEnvelope
  pub sending_message : Bool
  pub polling : Bool
  pub wake_event_fd : ℕ
  pub kqueue_fd : ℕ
  pub rebuild_required : Bool
  pub requests : List (ℕ × Request)
  pub sequence_number_by_fd : List (ℤ × ℕ)
  pub next_request_seq : ℕ
  pub responses : List Response
  pub response_index : ℕ
  pub next_message_uptime : ℤ
  pub system_calls : List SystemCall
  pub clock_reads : ℕ

-- What a write of the wake signal gives: its eight bytes, EAGAIN, or another failure.
pub data WakeReply : Type 0 where
  written wake_eagain wake_failed : WakeReply

pub data Errno : Type 0 where
  enoent ebadf eintr other : Errno

-- What a wait gives: the events, at most 16 of them, or -1 with `errno`.
pub data WaitReply : Type 0 where
  events_are : List Event → WaitReply
  wait_failed : Errno → WaitReply

-- How a run ends: with a value and a state, by the abort of a fatal log, or short of rounds for a
-- loop whose end rests with the handlers.
pub data Run {ℓ} (A : Type ℓ) : Type ℓ where
  ok : A → Looper → Run A
  abort : Run A
  out_of_fuel : Run A

abbrev pub M {ℓ} : Type ℓ → Type ℓ
M A = Looper → Run A

abbrev pub pure {ℓ} : {A : Type ℓ} → A → M A
pure a l = ok a l

infixl 5 ◌>>=◌ ◌>>◌
abbrev pub ◌>>=◌ {ℓ κ} : {A : Type ℓ} {B : Type κ} → M A → (A → M B) → M B
◌>>=◌ m f l = elim (m l) [ ok a l' ↦ f a l' | abort ↦ abort | out_of_fuel ↦ out_of_fuel ]

abbrev pub ◌>>◌ {ℓ} : {B : Type ℓ} → M (Unit {0}) → M B → M B
m >> k = m >>= λ _. k

-- What the looper does not implement. The kernel answers by what was asked of it before. Handlers
-- and callbacks may call the looper, and other threads may while it waits.
pub record System : Type 0 where
  pub kqueue : List SystemCall → Option ℕ
  pub kevent : List SystemCall → ℕ → List Change → Option Errno
  pub wait : List SystemCall → ℕ → ℤ → WaitReply
  pub write_wake : List SystemCall → WakeReply
  pub clock : ℕ → ℤ
  pub handle_message : ℕ → Message → M (Unit {0})
  pub handle_event : ℕ → ℤ → ℕ → ℕ → M ℤ
  pub meanwhile : M (Unit {0})

abbrev pub wake_event_fd_seq : ℕ
wake_event_fd_seq = 1

abbrev pub poll_wake : ℤ
poll_wake = negsuc 0

abbrev pub poll_callback : ℤ
poll_callback = negsuc 1

abbrev pub poll_timeout : ℤ
poll_timeout = negsuc 2

abbrev pub poll_error : ℤ
poll_error = negsuc 3

-- The bits of EVENT_INPUT, EVENT_OUTPUT, EVENT_ERROR and EVENT_HANGUP.
abbrev pub event_input : ℕ → Bool
event_input events = test_bit events 0

abbrev pub event_output : ℕ → Bool
event_output events = test_bit events 1

abbrev pub llong_max : ℤ
llong_max = pos (2 ^ 63 - 1)

abbrev pub log : SystemCall → Looper → Looper
log call l = record l { system_calls = call ∷ l.system_calls }

-- `systemTime(SYSTEM_TIME_MONOTONIC)`
abbrev pub system_time : System → M ℤ
system_time sys l = ok (sys.clock l.clock_reads) (record l { clock_reads = l.clock_reads + 1 })

-- `kevent(mKqueueFd.get(), changes, …, nullptr, 0, nullptr)`
abbrev pub kevent : System → List Change → M (Option Errno)
kevent sys changes l =
    ok (sys.kevent l.system_calls l.kqueue_fd changes) (log (kevents l.kqueue_fd changes) l)

-- `wake`: only a failure other than EAGAIN aborts.
unfoldable pub wake : System → M (Unit {0})
wake sys l = elim (sys.write_wake l.system_calls) [
  | written ↦ ok tt (log writes_wake l)
  | wake_eagain ↦ ok tt (log writes_wake l)
  | wake_failed ↦ abort
]

-- `awoken`
unfoldable pub awoken : M (Unit {0})
awoken l = ok tt (log reads_wake l)
