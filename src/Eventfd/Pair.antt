-- ===== src/Eventfd/Pair.antt =====
-- The socket pair that `eventfd` of macport/eventfd.c makes, with the flags it sets.
use android_native_mac_ports.Base.{
  ℕ, ◌<◌, ◌≡◌, refl, ◌≢◌, inl, inr, true, false, some, arith, ltb, Bool-cases, if◌then◌else◌,
}
use android_native_mac_ports.Eventfd.Sockets.{
  Socket, Net, set_socket, write, set_nonblock, set_cloexec,
}
use android_native_mac_ports.Eventfd.Calls.{efd_nonblock, efd_cloexec, socketpair, set_flags}
use android_native_mac_ports.Eventfd.Drain.{with_unread}

-- The pair of sockets with the flags set.
pub record Pair (r w room : ℕ) (net : Net) : Type 0 where
  pub reader : Socket
  pub writer : Socket
  pub at_r : net.socket r ≡ some reader
  pub at_w : net.socket w ≡ some writer
  pub to_r : writer.peer ≡ r
  pub to_w : reader.peer ≡ w
  pub empty : reader.unread ≡ 0
  pub same : net.room ≡ room

module _ {r w room : ℕ} {net : Net} (ne : r ≢ w) (q : Pair r w room net) where
  open q use {reader, writer, at_r, at_w, to_r, to_w, empty, same}

  Pair-set_r : (s : Socket) → s.peer ≡ w → s.unread ≡ 0 → Pair r w room (set_socket r s net)
  unfolding set_socket
  Pair-set_r s to none_left = record {
    reader = s;
    writer = writer;
    at_r = ground arith;
    at_w = ground (arith, at_w);
    to_r = to_r;
    to_w = to;
    empty = none_left;
    same = same;
  }

  Pair-set_w : (s : Socket) → s.peer ≡ r → Pair r w room (set_socket w s net)
  unfolding set_socket
  Pair-set_w s to = record {
    reader = reader;
    writer = s;
    at_r = ground (arith, at_r);
    at_w = ground arith;
    to_r = to;
    to_w = to_w;
    empty = empty;
    same = same;
  }

  Pair-nonblock_r : Pair r w room (set_nonblock true r net)
  unfolding set_nonblock
  Pair-nonblock_r =
      rw (at_r, set_nonblock) (Pair-set_r (record reader { nonblock = true }) to_w empty)

  Pair-nonblock_w : Pair r w room (set_nonblock true w net)
  unfolding set_nonblock
  Pair-nonblock_w = rw (at_w, set_nonblock) (Pair-set_w (record writer { nonblock = true }) to_r)

  Pair-cloexec_r : Pair r w room (set_cloexec r net)
  unfolding set_cloexec
  Pair-cloexec_r = rw (at_r, set_cloexec) (Pair-set_r (record reader { cloexec = true }) to_w empty)

  Pair-cloexec_w : Pair r w room (set_cloexec w net)
  unfolding set_cloexec
  Pair-cloexec_w = rw (at_w, set_cloexec) (Pair-set_w (record writer { cloexec = true }) to_r)

module _ {r w : ℕ} (ne : r ≢ w) where
  pub socketpair-Pair : (net : Net) → Pair r w net.room (socketpair r w net)
  unfolding socketpair set_socket
  socketpair-Pair net = record {
    reader = record { peer = w; nonblock = false; cloexec = false; unread = 0 };
    writer = record { peer = r; nonblock = false; cloexec = false; unread = 0 };
    at_r = ground arith;
    at_w = ground arith;
    to_r = refl;
    to_w = refl;
    empty = refl;
    same = refl;
  }

  pub set_flags-Pair :
      (flags : ℕ) {room : ℕ} {net : Net}
      → Pair r w room net
      → Pair r w room (set_flags r w flags net)
  unfolding set_flags
  set_flags-Pair flags {net} q = elim (Bool-cases (efd_nonblock flags)) [
    | inl b ↦
        let q' = Pair-nonblock_w ne (Pair-nonblock_r ne q) in
        elim (Bool-cases (efd_cloexec flags)) [
          | inl c ↦ rw (b, c, set_flags) (Pair-cloexec_w ne (Pair-cloexec_r ne q'))
          | inr c ↦ rw (b, c, set_flags) q'
        ]
    | inr b ↦ elim (Bool-cases (efd_cloexec flags)) [
      | inl c ↦ rw (b, c, set_flags) (Pair-cloexec_w ne (Pair-cloexec_r ne q))
      | inr c ↦ rw (b, c, set_flags) q
    ]
  ]

-- The first signal: one byte where the initial value is not 0.
pub signal-Pair :
    (r w room initval : ℕ) (net : Net)
    → r ≢ w
    → 0 < room
    → (q : Pair r w room net)
    → let net' = if ltb 0 initval then (write w 1 net).1 else net in
      (net'.socket r ≡ some (with_unread q.reader (if ltb 0 initval then 1 else 0)))
      × (net'.socket w ≡ some q.writer)
unfolding write set_socket
signal-Pair r w room initval net ne h q = (
  ground (arith, q.at_r, q.at_w, q.to_r, q.empty, q.same),
  ground (arith, q.at_r, q.at_w, q.to_r, q.empty, q.same),
)
