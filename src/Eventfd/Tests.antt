-- ===== src/Eventfd/Tests.antt =====
-- Runs of macport/eventfd.c, and its theorems at concrete states.
use android_native_mac_ports.Base.{
  ℕ, ◌-◌, ◌<◌, ◌≡◌, refl, true, false, none, some, List, [], ◌∷◌, arith, update,
}
use android_native_mac_ports.Eventfd.Sockets.{
  done, failed, ebadf, eagain, Socket, Net, drain_socket,
}
use android_native_mac_ports.Eventfd.Table.{Context, State, find_ctx}
use android_native_mac_ports.Eventfd.Calls.{
  Supply, eventfd, eventfd_read, eventfd_write, eventfd_close, read_ctx, uint64_max,
}
use android_native_mac_ports.Eventfd.Drain.{Drained, drain_socket_lem}
use android_native_mac_ports.Eventfd.Counter.{Holds, with_counter}
use android_native_mac_ports.Eventfd.Lookup.{Attached, lookup}
use android_native_mac_ports.Eventfd.Totals.{write_all, eventfd_read-write_all}
use android_native_mac_ports.Eventfd.Signal.{Signalled, Call, reads, writes, run, run-Signalled}
use android_native_mac_ports.Eventfd.Stale.{semaphore_read-unsignalled, read_ctx-stale}
use android_native_mac_ports.Eventfd.Direct.{wake_by_write, awoken_by_read, wake_by_write-unseen}
use android_native_mac_ports.Eventfd.Lifecycle.{IsValid, eventfd-Attached, eventfd_close-ebadf}

abbrev reader : ℕ → Socket
reader n = record { peer = 4; nonblock = true; cloexec = true; unread = n }

abbrev writer : Socket
writer = record { peer = 3; nonblock = true; cloexec = true; unread = 0 }

-- The sockets 3 and 4, with `n` bytes for 3 to read.
abbrev pair : ℕ → Net
pair n = record {
  socket = update (update (λ _. none) 3 (some (reader n))) 4 (some writer);
  room = 8192;
}

abbrev ctx : ℕ → ℕ → Context
ctx counter flags = record { sock_r = 3; sock_w = 4; counter = counter; flags = flags }

-- One eventfd, with so many bytes and such a counter and flags.
abbrev one : ℕ → ℕ → ℕ → State
one n counter flags = record {
  net = pair n;
  context = update (λ _. none) 0 (some (ctx counter flags));
  fresh = 1;
  table = some 0 ∷ none ∷ [];
}

abbrev empty : State
empty = record {
  net = record { socket = λ _. none; room = 8192 };
  context = λ _. none;
  fresh = 0;
  table = none ∷ none ∷ [];
}

one-Holds : (n counter flags : ℕ) → Holds (one n counter flags) 0 (ctx counter flags) n
one-Holds n counter flags = record {
  live = refl;
  reader = reader n;
  writer = writer;
  at_r = refl;
  at_w = refl;
  to_r = refl;
  to_w = refl;
  apart = omega arith;
  unread = refl;
}

one-Attached : (n counter flags : ℕ) → Attached (one n counter flags) 3 0 (ctx counter flags) n
unfolding find_ctx
one-Attached n counter flags = record { found = refl; held = one-Holds n counter flags }

one-IsValid : (n counter flags : ℕ) → IsValid (one n counter flags)
unfolding find_ctx
one-IsValid n counter flags = record {
  below = (omega arith, tt);
  distinct = ((ctx counter flags, refl, refl), tt);
}

runs : Unit {0}
unfolding eventfd eventfd_read eventfd_write eventfd_close write_all
runs = tt

-- Two writes and a read, then a read that has to wait.
read_after_writes : (eventfd_read 3 (write_all 3 (5 ∷ 6 ∷ []) (one 0 0 2)).1).0 ≡ done 11
unfolding runs
read_after_writes = refl

read_empty : (eventfd_read 3 (one 0 0 2)).0 ≡ failed eagain
unfolding runs
read_empty = refl

overflow : (eventfd_write 3 2 (one 1 (uint64_max - 1) 2)).0 ≡ failed eagain
unfolding runs
overflow = refl

drain_socket_lem_example :
    (net' : Net) × (drain_socket 3 (pair 300) ≡ some net') × Drained 3 (reader 300) (pair 300) net'
drain_socket_lem_example = drain_socket_lem 3 (pair 300) (reader 300) refl

eventfd_read-write_all_example :
    ((write_all 3 (5 ∷ 6 ∷ []) (one 1 4 2)).0 ≡ done 0)
    × ((eventfd_read 3 (write_all 3 (5 ∷ 6 ∷ []) (one 1 4 2)).1).0 ≡ done 15)
    × Attached
        (eventfd_read 3 (write_all 3 (5 ∷ 6 ∷ []) (one 1 4 2)).1).1
        3
        0
        (with_counter (ctx 4 2) 0)
        0
eventfd_read-write_all_example =
    eventfd_read-write_all 3 0 (ctx 4 2) (one 1 4 2) 1 (5 ∷ 6 ∷ []) (one-Attached 1 4 2) refl
      (omega arith) (omega arith) (omega arith)

one-Signalled : Signalled 0 (one 1 4 2)
one-Signalled = record {
  c = ctx 4 2;
  n = 1;
  held = one-Holds 1 4 2;
  plain = refl;
  room = omega arith;
  wakes = λ _. omega arith;
}

abbrev calls : List Call
calls = reads ∷ reads ∷ writes 0 ∷ writes 7 ∷ []

run-Signalled_example :
    (lookup 3 (run 3 calls (one 1 4 2)) ≡ some 0) × Signalled 0 (run 3 calls (one 1 4 2))
unfolding find_ctx
run-Signalled_example = run-Signalled 3 0 calls (one 1 4 2) refl one-Signalled

semaphore_read-unsignalled_example :
    ((read_ctx 0 (ctx 2 4) (one 1 2 4)).0 ≡ done 1)
    × Holds (read_ctx 0 (ctx 2 4) (one 1 2 4)).1 0 (with_counter (ctx 2 4) 1) 0
    × (0 < 1)
semaphore_read-unsignalled_example =
    semaphore_read-unsignalled 0 (ctx 2 4) (one 1 2 4) 1 (one-Holds 1 2 4) refl (omega arith)
      (omega arith)

read_ctx-stale_example :
    (false ≡ false → (read_ctx 0 (ctx 0 0) (one 1 0 0)).0 ≡ done 0)
    × (false ≡ true
        → (read_ctx 0 (ctx 0 0) (one 1 0 0)).1.context 0 ≡ some (with_counter (ctx 0 0) uint64_max))
read_ctx-stale_example =
    read_ctx-stale 0 (ctx 0 0) (one 1 0 0) 1 (one-Holds 1 0 0) refl (omega arith) refl

abbrev supply : Supply
supply = record { sockets = some (3, 4); malloc_ok = true; mutex_ok = true }

eventfd-Attached_example :
    ((eventfd supply 7 3 empty).0 ≡ done 3)
    × Attached
        (eventfd supply 7 3 empty).1
        3
        0
        (record { sock_r = 3; sock_w = 4; counter = 7; flags = 3 })
        1
unfolding find_ctx
eventfd-Attached_example =
    eventfd-Attached supply 3 4 7 3 empty refl refl refl (omega arith)
      (record { below = tt; distinct = tt }) refl refl (omega arith)

eventfd_close-ebadf_example :
    let s' = (eventfd_close 3 (one 0 0 2)).1 in
    ((eventfd_close 3 (one 0 0 2)).0 ≡ done 0)
    × (eventfd_read 3 s' ≡ (failed ebadf, s'))
    × (eventfd_write 3 1 s' ≡ (failed ebadf, s'))
    × (eventfd_close 3 s' ≡ (failed ebadf, s'))
eventfd_close-ebadf_example =
    eventfd_close-ebadf 3 0 1 (ctx 0 2) (one 0 0 2) 0 (one-IsValid 0 0 2) (one-Attached 0 0 2)

wake_by_write-unseen_example :
    (net : Net) × (wake_by_write 3 (one 0 0 2).net ≡ some net)
    × (net.socket 3 ≡ some (reader 0))
    × (net.socket 4 ≡ some (record writer { unread = 8 }))
    × (awoken_by_read 3 net ≡ (failed eagain, net))
unfolding one-Holds
wake_by_write-unseen_example =
    wake_by_write-unseen 0 (ctx 0 2) (one 0 0 2) (one-Holds 0 0 2) (omega arith) refl
