-- ===== src/Eventfd/Sockets.antt =====
-- The socket calls of macport/eventfd.c: a stream socket pair, whose bytes all have the same value,
-- so that a receive buffer is the number of its unread bytes.
use android_native_mac_ports.Base.{
  ℕ, zero, suc, ◌+◌, ◌-◌, Bool, true, false, Option, none, some, ltb, if◌then◌else◌, update, min,
}

pub data Errno : Type 0 where
  eagain ebadf einval emfile enomem epipe other : Errno

-- What a call gives: a value, -1 with `errno`, a wait that goes on, or a use of freed memory.
pub data Outcome {ℓ} (A : Type ℓ) : Type ℓ where
  done : A → Outcome A
  failed : Errno → Outcome A
  blocked : Outcome A
  fault : Outcome A

pub record Socket : Type 0 where
  pub peer : ℕ
  pub nonblock : Bool
  pub cloexec : Bool
  pub unread : ℕ

-- The open sockets, by descriptor, and the bytes that a receive buffer holds at most.
pub record Net : Type 0 where
  pub socket : ℕ → Option Socket
  pub room : ℕ

unfoldable pub set_socket : ℕ → Socket → Net → Net
set_socket fd s net = record net { socket = update net.socket fd (some s) }

-- `fcntl(fd, F_SETFL, …)`
unfoldable pub set_nonblock : Bool → ℕ → Net → Net
unfolding set_socket
set_nonblock b fd net = elim (net.socket fd) [
  | none ↦ net
  | some s ↦ set_socket fd (record s { nonblock = b }) net
]

-- `fcntl(fd, F_SETFD, FD_CLOEXEC)`
unfoldable pub set_cloexec : ℕ → Net → Net
unfolding set_socket
set_cloexec fd net = elim (net.socket fd) [
  | none ↦ net
  | some s ↦ set_socket fd (record s { cloexec = true }) net
]

unfoldable pub close : ℕ → Net → Net
close fd net = record net { socket = update net.socket fd none }

unfoldable pub is_open : ℕ → Net → Bool
is_open fd net = elim (net.socket fd) [ none ↦ false | some _ ↦ true ]

-- `read(fd, buffer, size)`: the bytes taken, 0 at the end of the stream.
unfoldable pub read : ℕ → ℕ → Net → Outcome ℕ × Net
unfolding set_socket is_open
read fd size net = elim (net.socket fd) [
  | none ↦ (failed ebadf, net)
  | some s ↦
      if ltb 0 s.unread
      then (
        done (min size s.unread),
        set_socket fd (record s { unread = s.unread - min size s.unread }) net,
      )
      else if is_open s.peer net
      then (if s.nonblock then (failed eagain, net) else (blocked, net))
      else (done 0, net)
]

-- `write(fd, buffer, size)`: the bytes that the peer's buffer takes, as many as it has room for. (A
-- blocking write of several bytes waits for the rest instead; the callers that block send one byte.)
unfoldable pub write : ℕ → ℕ → Net → Outcome ℕ × Net
unfolding set_socket
write fd size net = elim (net.socket fd) [
  | none ↦ (failed ebadf, net)
  | some s ↦ elim (net.socket s.peer) [
    | none ↦ (failed epipe, net)
    | some r ↦
        if ltb r.unread net.room
        then (
          done (min size (net.room - r.unread)),
          set_socket s.peer (record r { unread = r.unread + min size (net.room - r.unread) }) net,
        )
        else if s.nonblock
        then (failed eagain, net)
        else (blocked, net)
  ]
]

-- `while (read(fd, buffer, sizeof(buffer)) > 0)`, for at most so many rounds.
unfoldable pub drain_loop : ℕ → ℕ → Net → Option Net
unfolding read
drain_loop zero fd net = none
drain_loop (suc fuel) fd net =
    let (got, net') = read fd 128 net in
    elim got [
      | done n ↦ (let rest = drain_loop fuel fd net' in if ltb 0 n then rest else some net')
      | failed _ ↦ some net'
      | blocked ↦ none
      | fault ↦ none
    ]

-- The rounds that `drain_socket` is given: one for each byte, and the one that finds none.
unfoldable pub drain_fuel : ℕ → Net → ℕ
drain_fuel fd net = elim (net.socket fd) [ none ↦ 1 | some s ↦ suc s.unread ]

-- `drain_socket`: `none` is a loop that does not end.
unfoldable pub drain_socket : ℕ → Net → Option Net
unfolding drain_loop drain_fuel set_nonblock
drain_socket fd net = elim (net.socket fd) [
  | none ↦ drain_loop (drain_fuel fd net) fd net
  | some s ↦ elim (drain_loop (drain_fuel fd net) fd (set_nonblock true fd net)) [
    | none ↦ none
    | some net' ↦ some (set_nonblock s.nonblock fd net')
  ]
]
