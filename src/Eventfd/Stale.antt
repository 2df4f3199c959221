-- ===== src/Eventfd/Stale.antt =====
-- Where the signal byte and the counter of macport/eventfd.c part: an eventfd of Linux is readable
-- exactly while its counter is positive.
use android_native_mac_ports.Base.{ℕ, ◌-◌, ◌≤◌, ◌<◌, ◌≡◌, refl, true, false, some, arith}
use android_native_mac_ports.Eventfd.Sockets.{done}
use android_native_mac_ports.Eventfd.Table.{Context, State}
use android_native_mac_ports.Eventfd.Calls.{
  uint64_max, efd_semaphore, efd_nonblock, take, resume, read_ctx,
}
use android_native_mac_ports.Eventfd.Drain.{with_unread, read-more, drain_socket_lem}
use android_native_mac_ports.Eventfd.Counter.{Holds, with_counter}

-- With EFD_SEMAPHORE a read takes one from the counter and drains the socket: a counter above 1
-- stays positive while the descriptor is no longer readable.
pub semaphore_read-unsignalled :
    (p : ℕ) (c : Context) (s : State) (n : ℕ)
    → Holds s p c n
    → efd_semaphore c.flags ≡ true
    → 1 < c.counter
    → c.counter ≤ uint64_max
    → ((read_ctx p c s).0 ≡ done 1)
      × Holds (read_ctx p c s).1 p (with_counter c (c.counter - 1)) 0
      × (0 < c.counter - 1)
unfolding read_ctx take
semaphore_read-unsignalled p c s n h sem more fits =
    let (net', run, d) = drain_socket_lem c.sock_r s.net h.reader h.at_r in
    (
      ground (arith, run),
      record {
        live = ground (arith, run);
        reader = with_unread h.reader 0;
        writer = h.writer;
        at_r = ground (arith, run, d.empty);
        at_w = ground (arith, run, d.rest c.sock_w, h.at_w, h.apart);
        to_r = h.to_r;
        to_w = h.to_w;
        apart = h.apart;
        unread = refl;
      },
      omega arith,
    )

-- A byte that is left over at counter 0 ends the wait of a blocking read, which then returns 0
-- without EFD_SEMAPHORE, and wraps the counter to 2^64 - 1 with it.
pub read_ctx-stale :
    (p : ℕ) (c : Context) (s : State) (n : ℕ)
    → Holds s p c n
    → c.counter ≡ 0
    → 0 < n
    → efd_nonblock c.flags ≡ false
    → (efd_semaphore c.flags ≡ false → (read_ctx p c s).0 ≡ done 0)
      × (efd_semaphore c.flags ≡ true
          → (read_ctx p c s).1.context p ≡ some (with_counter c uint64_max))
unfolding read_ctx take resume
read_ctx-stale p c s n h over stale waits =
    let e = read-more c.sock_r s.net h.reader h.at_r 1 (omega (arith, h.unread)) in
    (λ plain. ground (arith, h.live, e), λ sem. ground (arith, h.live, e))
