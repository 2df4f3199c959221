-- ===== src/Eventfd/Calls.antt =====
-- `eventfd`, `eventfd_read`, `eventfd_write` and `eventfd_close` of macport/eventfd.c.
-- A call that waits on the socket lets go of the context's lock, so `eventfd_read` is in two parts.
use android_native_mac_ports.Base.{
  ℕ, ◌+◌, ◌-◌, ◌%◌, ◌^◌, Bool, true, false, Option, none, some, ◌==◌, ltb, test_bit, if◌then◌else◌,
  update,
}
use android_native_mac_ports.Eventfd.Sockets.{
  Outcome, done, failed, blocked, fault, eagain, ebadf, einval, emfile, enomem, other, Net,
  set_socket, set_nonblock, set_cloexec, close, read, write, drain_socket,
}
use android_native_mac_ports.Eventfd.Table.{Context, State, find_ctx, add_ctx, remove_ctx}

-- The bits of EFD_CLOEXEC, EFD_NONBLOCK and EFD_SEMAPHORE.
abbrev pub efd_cloexec : ℕ → Bool
efd_cloexec flags = test_bit flags 0

abbrev pub efd_nonblock : ℕ → Bool
efd_nonblock flags = test_bit flags 1

abbrev pub efd_semaphore : ℕ → Bool
efd_semaphore flags = test_bit flags 2

abbrev pub uint64_max : ℕ
uint64_max = 2 ^ 64 - 1

-- What the system gives to a call of `eventfd`: two descriptors, memory and a lock.
pub record Supply : Type 0 where
  pub sockets : Option (ℕ × ℕ)
  pub malloc_ok : Bool
  pub mutex_ok : Bool

-- `socketpair(AF_UNIX, SOCK_STREAM, 0, sockets)`
unfoldable pub socketpair : ℕ → ℕ → Net → Net
unfolding set_socket
socketpair r w net =
    set_socket w (record { peer = r; nonblock = false; cloexec = false; unread = 0 })
      (set_socket r (record { peer = w; nonblock = false; cloexec = false; unread = 0 }) net)

-- The two `if (flags & …)` of `eventfd`.
unfoldable pub set_flags : ℕ → ℕ → ℕ → Net → Net
unfolding set_nonblock set_cloexec
set_flags r w flags net =
    let net' = if efd_nonblock flags then set_nonblock true w (set_nonblock true r net) else net in
    if efd_cloexec flags then set_cloexec w (set_cloexec r net') else net'

abbrev close_both : ℕ → ℕ → State → State
close_both r w s = record s { net = close w (close r s.net) }

-- The context is made and entered into the table, and a first signal sent.
unfoldable pub install : ℕ → ℕ → ℕ → ℕ → State → Outcome ℕ × State
unfolding add_ctx write close
install r w initval flags s =
    let c : Context = record { sock_r = r; sock_w = w; counter = initval; flags = flags } in
    elim (add_ctx s.fresh s.table) [
      | none ↦ (failed emfile, close_both r w (record s { fresh = s.fresh + 1 }))
      | some table ↦ (
        done r,
        record s {
          context = update s.context s.fresh (some c);
          fresh = s.fresh + 1;
          table = table;
          net = if ltb 0 initval then (write w 1 s.net).1 else s.net;
        },
      )
    ]

unfoldable pub eventfd : Supply → ℕ → ℕ → State → Outcome ℕ × State
unfolding socketpair set_flags install close
eventfd supply initval flags s = elim supply.sockets [
  | none ↦ (failed other, s)
  | some (r, w) ↦
      (let s' = record s { net = set_flags r w flags (socketpair r w s.net) } in
        if supply.malloc_ok
        then (if supply.mutex_ok
            then install r w initval flags s'
            else (failed other, close_both r w s'))
        else (failed enomem, close_both r w s'))
]

abbrev pub put_context : ℕ → Context → State → State
put_context p c s = record s { context = update s.context p (some c) }

-- The end of `eventfd_read`, under the lock: the value, and the counter that is left.
unfoldable pub take : ℕ → Context → State → Outcome ℕ × State
take p c s =
    if efd_semaphore c.flags
    then (done 1, put_context p (record c { counter = (c.counter + uint64_max) % 2 ^ 64 }) s)
    else (done c.counter, put_context p (record c { counter = 0 }) s)

-- Once `read` has waited for a byte, the lock is taken again.
unfoldable pub resume : ℕ → State → Outcome ℕ × State
unfolding take read
resume p s = elim (s.context p) [
  | none ↦ (fault, s)
  | some c ↦
      (let (got, net') = read c.sock_r 1 s.net in
        elim got [
          | done _ ↦ take p c (record s { net = net' })
          | failed e ↦ (failed e, s)
          | blocked ↦ (blocked, s)
          | fault ↦ (fault, s)
        ])
]

-- `eventfd_read` with the context found. A reader that is `blocked` goes on with `resume`; that it reads
-- the byte outside of the lock and takes the lock behind it is one step.
unfoldable pub read_ctx : ℕ → Context → State → Outcome ℕ × State
unfolding take resume drain_socket
read_ctx p c s =
    if c.counter == 0
    then (if efd_nonblock c.flags then (failed eagain, s) else resume p s)
    else (elim (drain_socket c.sock_r s.net) [
      | none ↦ (blocked, s)
      | some net' ↦ take p c (record s { net = net' })
    ])

-- What a call does with its context: EBADF where the descriptor has none.
abbrev with_ctx {ℓ} :
    {A : Type ℓ} → ℕ → (ℕ → Context → State → Outcome A × State) → State → Outcome A × State
with_ctx fd act s = elim (find_ctx s.context fd s.table) [
  | none ↦ (failed ebadf, s)
  | some p ↦ elim (s.context p) [ none ↦ (fault, s) | some c ↦ act p c s ]
]

unfoldable pub eventfd_read : ℕ → State → Outcome ℕ × State
unfolding find_ctx read_ctx
eventfd_read fd s = with_ctx fd read_ctx s

-- The result of `eventfd_write` by that of its `write`.
abbrev signalled : Outcome ℕ → Outcome ℕ
signalled (done _) = done 0
signalled (failed e) = failed e
signalled blocked = blocked
signalled fault = fault

-- `eventfd_write` with the context found. The counter is updated before the byte is sent.
unfoldable pub write_ctx : ℕ → ℕ → Context → State → Outcome ℕ × State
unfolding write
write_ctx value p c s =
    if value == uint64_max
    then (failed einval, s)
    else if ltb (uint64_max - c.counter) value
    then (failed eagain, s)
    else (let (sent, net') = write c.sock_w 1 s.net in
        (
          signalled sent,
          put_context p (record c { counter = (c.counter + value) % 2 ^ 64 })
              (record s { net = net' }),
        ))

unfoldable pub eventfd_write : ℕ → ℕ → State → Outcome ℕ × State
unfolding find_ctx write_ctx
eventfd_write fd value s = with_ctx fd (write_ctx value) s

-- `eventfd_close` with the context found. Memory is freed after the table forgets the context.
unfoldable pub close_ctx : ℕ → ℕ → Context → State → Outcome ℕ × State
unfolding close remove_ctx
close_ctx fd p c s = (
  done 0,
  record s {
    net = close c.sock_w (close c.sock_r s.net);
    table = remove_ctx s.context fd s.table;
    context = update s.context p none;
  },
)

unfoldable pub eventfd_close : ℕ → State → Outcome ℕ × State
unfolding find_ctx close_ctx
eventfd_close fd s = with_ctx fd (close_ctx fd) s
