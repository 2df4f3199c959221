-- ===== src/Eventfd/Totals.antt =====
-- What a reader of an eventfd receives: the total of the values written since the last read.
use native.Mathlib.Nat.{add-zero, add_assoc}
use android_native_mac_ports.Base.{
  ℕ, suc, ◌+◌, ◌≤◌, ◌<◌, ◌≡◌, refl, sym, ◌∙◌, false, List, [], ◌∷◌, arith, length,
}
use android_native_mac_ports.Eventfd.Sockets.{Outcome, done, failed, blocked, fault}
use android_native_mac_ports.Eventfd.Table.{Context, State}
use android_native_mac_ports.Eventfd.Calls.{uint64_max, efd_semaphore, eventfd_read, eventfd_write}
use android_native_mac_ports.Eventfd.Counter.{with_counter, write_ctx-done, read_ctx-done}
use android_native_mac_ports.Eventfd.Lookup.{
  Attached, eventfd_write-write_ctx, eventfd_read-read_ctx, lookup-write_ctx, lookup-read_ctx,
}

-- A write that is accepted adds its value to the counter.
pub eventfd_write-done :
    (fd value p : ℕ) (c : Context) (s : State) (n : ℕ)
    → Attached s fd p c n
    → value < uint64_max
    → c.counter + value ≤ uint64_max
    → n < s.net.room
    → ((eventfd_write fd value s).0 ≡ done 0)
      × Attached (eventfd_write fd value s).1 fd p (with_counter c (c.counter + value)) (n + 1)
      × ((eventfd_write fd value s).1.net.room ≡ s.net.room)
eventfd_write-done fd value p c s n a small fits room =
    let (got, held, table, same) = write_ctx-done value p c s n a.held small fits room in
    rw (eventfd_write-write_ctx fd p c s n a value) (
      got,
      record { found = lookup-write_ctx fd p c s a.held.live value ∙ a.found; held = held },
      same,
    )

abbrev pub sum : List ℕ → ℕ
sum [] = 0
sum (v ∷ vs) = v + sum vs

-- Writes the values in turn, up to the first that is refused.
unfoldable pub write_all : ℕ → List ℕ → State → Outcome ℕ × State
unfolding eventfd_write
write_all fd [] s = (done 0, s)
write_all fd (v ∷ vs) s =
    let (got, s') = eventfd_write fd v s in
    elim got [
      | done _ ↦ write_all fd vs s'
      | failed e ↦ (failed e, s')
      | blocked ↦ (blocked, s')
      | fault ↦ (fault, s')
    ]

-- Values whose total the counter has room for are all accepted, each with one byte on the socket.
write_all-Attached :
    (fd p : ℕ) (c : Context) (s : State) (n : ℕ) (vs : List ℕ)
    → Attached s fd p c n
    → c.counter + sum vs < uint64_max
    → n + length vs ≤ s.net.room
    → ((write_all fd vs s).0 ≡ done 0)
      × Attached (write_all fd vs s).1 fd p (with_counter c (c.counter + sum vs)) (n + length vs)
unfolding write_all
write_all-Attached fd p c s n [] a fits room = (refl, rw (add-zero c.counter, add-zero n) a)
write_all-Attached fd p c s n (v ∷ vs) a fits room =
    let (got, next, same) =
      eventfd_write-done fd v p c s n a (omega arith) (omega arith) (omega arith) in
    let (all, end) =
      write_all-Attached fd p (with_counter c (c.counter + v)) (eventfd_write fd v s).1 (n + 1) vs
        next (omega arith) (omega (arith, same)) in
    rw (got, write_all)
      (all, rw (sym (add_assoc c.counter v (sum vs)), sym (regroup n (length vs))) end)
  where
    regroup : (m k : ℕ) → m + 1 + k ≡ m + suc k
    regroup m k = omega arith

-- After writes to an eventfd without EFD_SEMAPHORE whose values, with the counter before them, have
-- a positive total below 2^64 - 1, and whose signals the socket has room for, `eventfd_read` returns
-- that total, and leaves the counter at 0 and the socket empty.
pub eventfd_read-write_all :
    (fd p : ℕ) (c : Context) (s : State) (n : ℕ) (vs : List ℕ)
    → Attached s fd p c n
    → efd_semaphore c.flags ≡ false
    → 0 < c.counter + sum vs
    → c.counter + sum vs < uint64_max
    → n + length vs ≤ s.net.room
    → ((write_all fd vs s).0 ≡ done 0)
      × ((eventfd_read fd (write_all fd vs s).1).0 ≡ done (c.counter + sum vs))
      × Attached (eventfd_read fd (write_all fd vs s).1).1 fd p (with_counter c 0) 0
eventfd_read-write_all fd p c s n vs a plain more fits room =
    let (all, end) = write_all-Attached fd p c s n vs a fits room in
    let c' = with_counter c (c.counter + sum vs) in
    let s' = (write_all fd vs s).1 in
    let (got, held, table) = read_ctx-done p c' s' (n + length vs) end.held more plain in
    let found = lookup-read_ctx fd p c' s' end.held.live ∙ end.found in
    let same = eventfd_read-read_ctx fd p c' s' (n + length vs) end in
    (all, rw same got, rw same (record { found = found; held = held }))
