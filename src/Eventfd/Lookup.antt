-- ===== src/Eventfd/Lookup.antt =====
-- Which context a descriptor of macport/eventfd.c leads to: no read and no write changes it.
use android_native_mac_ports.Base.{
  ℕ, ◌+◌, ◌%◌, ◌^◌, ◌≡◌, refl, Option, none, some, List, [], ◌∷◌, arith, update, Option-cases,
  Bool-cases, inl, inr,
}
use android_native_mac_ports.Eventfd.Sockets.{read, drain_socket}
use android_native_mac_ports.Eventfd.Table.{Context, State, find_ctx}
use android_native_mac_ports.Eventfd.Calls.{
  take, resume, read_ctx, write_ctx, eventfd_read, eventfd_write, efd_semaphore,
}
use android_native_mac_ports.Eventfd.Counter.{Holds}

-- A write to the context of `p` leaves every look-up in the table as it was.
pub find_ctx-put :
    (heap : ℕ → Option Context) (p fd : ℕ) (c c' : Context) (slots : List (Option ℕ))
    → heap p ≡ some c
    → c'.sock_r ≡ c.sock_r
    → find_ctx (update heap p (some c')) fd slots ≡ find_ctx heap fd slots
unfolding find_ctx
find_ctx-put heap p fd c c' [] live same = refl
find_ctx-put heap p fd c c' (none ∷ slots) live same = find_ctx-put heap p fd c c' slots live same
find_ctx-put heap p fd c c' (some q ∷ slots) live same =
    ground (arith, find_ctx-put heap p fd c c' slots live same)

-- `fd` is the descriptor of the context `c` at `p`.
pub record Attached (s : State) (fd p : ℕ) (c : Context) (n : ℕ) : Type 0 where
  pub found : find_ctx s.context fd s.table ≡ some p
  pub held : Holds s p c n

module _ (fd p : ℕ) (c : Context) (s : State) (n : ℕ) (a : Attached s fd p c n) where
  pub eventfd_write-write_ctx : (value : ℕ) → eventfd_write fd value s ≡ write_ctx value p c s
  unfolding eventfd_write
  eventfd_write-write_ctx value = ground (arith, a.found, a.held.live)

  pub eventfd_read-read_ctx : eventfd_read fd s ≡ read_ctx p c s
  unfolding eventfd_read
  eventfd_read-read_ctx = ground (arith, a.found, a.held.live)

abbrev pub lookup : ℕ → State → Option ℕ
lookup fd s = find_ctx s.context fd s.table

module _ (fd p : ℕ) (c : Context) (s : State) (live : s.context p ≡ some c) where
  pub lookup-write_ctx : (value : ℕ) → lookup fd (write_ctx value p c s).1 ≡ lookup fd s
  unfolding write_ctx
  lookup-write_ctx value = ground (
    arith,
    find_ctx-put s.context p fd c (record c { counter = (c.counter + value) % 2 ^ 64 }) s.table live
        refl,
  )

  lookup-take :
      (t : State)
      → t.context ≡ s.context
      → t.table ≡ s.table
      → lookup fd (take p c t).1 ≡ lookup fd s
  unfolding take
  lookup-take t e e' = elim (Bool-cases (efd_semaphore c.flags)) [
    | inl b ↦ rw (b, e, e') (find_ctx-put s.context p fd c _ s.table live refl)
    | inr b ↦ rw (b, e, e') (find_ctx-put s.context p fd c _ s.table live refl)
  ]

  lookup-resume : lookup fd (resume p s).1 ≡ lookup fd s
  unfolding resume
  lookup-resume =
      ground (arith, live, lookup-take (record s { net = (read c.sock_r 1 s.net).1 }) refl refl)

  pub lookup-read_ctx : lookup fd (read_ctx p c s).1 ≡ lookup fd s
  unfolding read_ctx
  lookup-read_ctx = elim (Option-cases (drain_socket c.sock_r s.net)) [
    | inl e ↦ ground (arith, lookup-resume)
    | inr (net', e) ↦ ground (arith, lookup-resume, lookup-take (record s { net = net' }) refl refl)
  ]
