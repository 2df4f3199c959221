-- ===== src/Eventfd/Counter.antt =====
-- The counter of one context of macport/eventfd.c: what `eventfd_write` adds and `eventfd_read` takes.
use android_native_mac_ports.Base.{ℕ, ◌+◌, ◌≤◌, ◌<◌, ◌≡◌, refl, ◌≢◌, false, some, arith}
use android_native_mac_ports.Eventfd.Sockets.{done, failed, eagain, einval, Socket, set_socket}
use android_native_mac_ports.Eventfd.Table.{Context, State}
use android_native_mac_ports.Eventfd.Calls.{uint64_max, efd_semaphore, take, read_ctx, write_ctx}
use android_native_mac_ports.Eventfd.Drain.{with_unread, drain_socket_lem}

-- The context `c` lives at `p`; its two sockets are open, each the other's peer, and `n` bytes wait
-- to be read.
pub record Holds (s : State) (p : ℕ) (c : Context) (n : ℕ) : Type 0 where
  pub live : s.context p ≡ some c
  pub reader : Socket
  pub writer : Socket
  pub at_r : s.net.socket c.sock_r ≡ some reader
  pub at_w : s.net.socket c.sock_w ≡ some writer
  pub to_r : writer.peer ≡ c.sock_r
  pub to_w : reader.peer ≡ c.sock_w
  pub apart : c.sock_r ≢ c.sock_w
  pub unread : reader.unread ≡ n

abbrev pub with_counter : Context → ℕ → Context
with_counter c n = record c { counter = n }

-- A write that the counter has room for, on a socket that has room for its byte.
pub write_ctx-done :
    (value p : ℕ) (c : Context) (s : State) (n : ℕ)
    → Holds s p c n
    → value < uint64_max
    → c.counter + value ≤ uint64_max
    → n < s.net.room
    → ((write_ctx value p c s).0 ≡ done 0)
      × Holds (write_ctx value p c s).1 p (with_counter c (c.counter + value)) (n + 1)
      × ((write_ctx value p c s).1.table ≡ s.table)
      × ((write_ctx value p c s).1.net.room ≡ s.net.room)
unfolding write_ctx set_socket
write_ctx-done value p c s n h small fits room = (
  ground (arith, h.at_r, h.at_w, h.to_r),
  record {
    live = ground (arith, h.at_r, h.at_w, h.to_r);
    reader = with_unread h.reader (n + 1);
    writer = h.writer;
    at_r = ground (arith, h.at_r, h.at_w, h.to_r, h.unread);
    at_w = ground (arith, h.at_r, h.at_w, h.to_r, h.apart);
    to_r = h.to_r;
    to_w = h.to_w;
    apart = h.apart;
    unread = refl;
  },
  ground arith,
  ground (arith, h.at_r, h.at_w, h.to_r),
)

-- A write that is refused for its value changes nothing.
pub write_ctx-refused :
    (value p : ℕ) (c : Context) (s : State)
    → (value ≡ uint64_max → write_ctx value p c s ≡ (failed einval, s))
      × (value < uint64_max
          → c.counter ≤ uint64_max
          → uint64_max < c.counter + value
          → write_ctx value p c s ≡ (failed eagain, s))
unfolding write_ctx
write_ctx-refused value p c s = (λ e. ground arith, λ small fits over. ground arith)

-- A read of a counter that is not 0, with no semaphore flag.
pub read_ctx-done :
    (p : ℕ) (c : Context) (s : State) (n : ℕ)
    → Holds s p c n
    → 0 < c.counter
    → efd_semaphore c.flags ≡ false
    → ((read_ctx p c s).0 ≡ done c.counter)
      × Holds (read_ctx p c s).1 p (with_counter c 0) 0
      × ((read_ctx p c s).1.table ≡ s.table)
unfolding read_ctx take
read_ctx-done p c s n h more plain =
    let (net', run, d) = drain_socket_lem c.sock_r s.net h.reader h.at_r in
    (
      ground (arith, run),
      record {
        live = ground (arith, run);
        reader = with_unread h.reader 0;
        writer = h.writer;
        at_r = ground (arith, run, d.empty);
        at_w = ground (arith, run, d.rest c.sock_w, h.at_w, h.apart);
        to_r = h.to_r;
        to_w = h.to_w;
        apart = h.apart;
        unread = refl;
      },
      ground (arith, run),
    )
