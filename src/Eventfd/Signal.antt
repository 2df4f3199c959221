-- ===== src/Eventfd/Signal.antt =====
-- The signal byte of macport/eventfd.c: when a poll of the descriptor finds it readable.
use native.Mathlib.Decide.{dec_lt}
use android_native_mac_ports.Base.{
  ℕ, ◌+◌, ◌-◌, ◌%◌, ◌^◌, min, ◌<◌, ◌≡◌, refl, ◌∙◌, inl, inr, false, some, List, [], ◌∷◌, arith, ltb,
  ◌==◌, Bool-cases,
}
use android_native_mac_ports.Eventfd.Sockets.{Net, set_socket, is_open, read, write}
use android_native_mac_ports.Eventfd.Table.{Context, State}
use android_native_mac_ports.Eventfd.Calls.{
  uint64_max, efd_semaphore, efd_nonblock, take, resume, read_ctx, write_ctx, eventfd_read,
  eventfd_write,
}
use android_native_mac_ports.Eventfd.Drain.{with_unread, read-more, drain_socket_lem}
use android_native_mac_ports.Eventfd.Counter.{Holds, with_counter}
use android_native_mac_ports.Eventfd.Lookup.{
  eventfd_write-write_ctx, eventfd_read-read_ctx, lookup, lookup-write_ctx, lookup-read_ctx,
}

-- While the counter of a plain eventfd is positive, its descriptor is readable.
pub record Signalled (p : ℕ) (s : State) : Type 0 where
  pub c : Context
  pub n : ℕ
  pub held : Holds s p c n
  pub plain : efd_semaphore c.flags ≡ false
  pub room : 0 < s.net.room
  pub wakes : 0 < c.counter → 0 < n

module _ {p : ℕ} {s : State} (g : Signalled p s) where
  open g use {c, n, held}

  -- A state in which at most the counter and the unread bytes of the context differ.
  moved :
      (t : State) (k m : ℕ)
      → t.context p ≡ some (with_counter c k)
      → t.net.socket c.sock_r ≡ some (with_unread held.reader m)
      → t.net.socket c.sock_w ≡ some held.writer
      → t.net.room ≡ s.net.room
      → (0 < k → 0 < m)
      → Signalled p t
  moved t k m live at_r at_w room wakes = record {
    c = with_counter c k;
    n = m;
    held = record {
      live = live;
      reader = with_unread held.reader m;
      writer = held.writer;
      at_r = at_r;
      at_w = at_w;
      to_r = held.to_r;
      to_w = held.to_w;
      apart = held.apart;
      unread = refl;
    };
    plain = g.plain;
    room = rw room g.room;
    wakes = wakes;
  }

  -- The sockets of the context after a call: `m` bytes to be read, and all else as it was.
  record Left (net : Net) (m : ℕ) : Type 0 where
    at_r : net.socket c.sock_r ≡ some (with_unread held.reader m)
    at_w : net.socket c.sock_w ≡ some held.writer
    room : net.room ≡ s.net.room

  same-Left : Left s.net n
  same-Left = record {
    at_r = ground (arith, held.at_r, held.unread);
    at_w = held.at_w;
    room = refl;
  }

  write-Left : (m : ℕ) × (0 < m) × Left (write c.sock_w 1 s.net).1 m
  unfolding write set_socket
  write-Left = elim (Bool-cases (ltb n s.net.room)) [
    | inl more ↦ (
      n + min 1 (s.net.room - n),
      ground arith,
      record {
        at_r = ground (arith, held.at_r, held.at_w, held.to_r, held.unread);
        at_w = ground (arith, held.at_r, held.at_w, held.to_r, held.unread, held.apart);
        room = ground (arith, held.at_r, held.at_w, held.to_r, held.unread);
      },
    )
    | inr full ↦
        let same : (write c.sock_w 1 s.net).1 ≡ s.net =
          ground (arith, held.at_r, held.at_w, held.to_r, held.unread) in
        (n, ground (arith, g.room), rw same same-Left)
  ]

  write_ctx-Signalled : (value : ℕ) → Signalled p (write_ctx value p c s).1
  unfolding write_ctx
  write_ctx-Signalled value = elim (Bool-cases (value == uint64_max)) [
    | inl huge ↦ rw (huge, write_ctx) g
    | inr small ↦ elim (Bool-cases (ltb (uint64_max - c.counter) value)) [
      | inl over ↦ rw (small, over, write_ctx) g
      | inr fits ↦
          let (m, more, l) = write-Left in
          rw (small, fits, write_ctx)
            (moved _ ((c.counter + value) % 2 ^ 64) m (ground arith) l.at_r l.at_w l.room
              (λ _. more))
    ]
  ]

  take-Signalled :
      (net : Net) (m : ℕ) → Left net m → Signalled p (take p c (record s { net = net })).1
  unfolding take
  take-Signalled net m l =
      rw (g.plain, take)
        (moved _ 0 m (ground arith) l.at_r l.at_w l.room (λ h. absurd (omega arith)))

  resume-more : 0 < n → Signalled p (resume p s).1
  unfolding resume set_socket
  resume-more more =
      let left = with_unread held.reader (held.reader.unread - min 1 held.reader.unread) in
      let net' = set_socket c.sock_r left s.net in
      let e = read-more c.sock_r s.net held.reader held.at_r 1 (omega (arith, held.unread)) in
      let same : resume p s ≡ take p c (record s { net = net' }) = ground (arith, held.live, e) in
      rw same (
        take-Signalled net' left.unread (record {
          at_r = ground arith;
          at_w = ground (arith, held.at_w, held.apart);
          room = refl;
        }))

  resume-none : n ≡ 0 → Signalled p (resume p s).1
  unfolding resume read is_open
  resume-none none_left =
      let e : (resume p s).1 ≡ s =
        ground (arith, held.live, held.at_r, held.at_w, held.to_w, held.unread) in
      rw e g

  resume-Signalled : Signalled p (resume p s).1
  resume-Signalled = elim (dec_lt 0 n) [
    | yes more ↦ resume-more more
    | no over ↦ resume-none (omega arith)
  ]

  read_ctx-Signalled : Signalled p (read_ctx p c s).1
  unfolding read_ctx
  read_ctx-Signalled = elim (Bool-cases (c.counter == 0)) [
    | inl over ↦ elim (Bool-cases (efd_nonblock c.flags)) [
      | inl nonblock ↦ rw (over, nonblock, read_ctx) g
      | inr waits ↦ rw (over, waits, read_ctx) resume-Signalled
    ]
    | inr more ↦
        let (net', run, d) = drain_socket_lem c.sock_r s.net held.reader held.at_r in
        rw (more, run, read_ctx)
          (take-Signalled net' 0 (record {
            at_r = d.empty;
            at_w = ground (arith, d.rest c.sock_w, held.at_w, held.apart);
            room = d.room;
          }))
  ]

-- A call on the descriptor, with what it is given.
pub data Call : Type 0 where
  reads : Call
  writes : ℕ → Call

unfoldable pub step : ℕ → Call → State → State
step fd reads s = (eventfd_read fd s).1
step fd (writes value) s = (eventfd_write fd value s).1

unfoldable pub run : ℕ → List Call → State → State
unfolding step
run fd [] s = s
run fd (c ∷ cs) s = run fd cs (step fd c s)

step-Signalled :
    (fd p : ℕ) (call : Call) (s : State)
    → lookup fd s ≡ some p
    → Signalled p s
    → (lookup fd (step fd call s) ≡ some p) × Signalled p (step fd call s)
unfolding step
step-Signalled fd p reads s found g =
    rw (step, eventfd_read-read_ctx fd p g.c s g.n (record { found = found; held = g.held }))
      (lookup-read_ctx fd p g.c s g.held.live ∙ found, read_ctx-Signalled g)
step-Signalled fd p (writes value) s found g =
    rw
      (step, eventfd_write-write_ctx fd p g.c s g.n (record { found = found; held = g.held }) value)
      (lookup-write_ctx fd p g.c s g.held.live value ∙ found, write_ctx-Signalled g value)

-- No call is lost on a poller: through any sequence of reads and writes on the descriptor of an
-- eventfd without EFD_SEMAPHORE, refused and waiting ones included, the descriptor stays that of the
-- context, and has a byte to read whenever the counter is positive.
pub run-Signalled :
    (fd p : ℕ) (calls : List Call) (s : State)
    → lookup fd s ≡ some p
    → Signalled p s
    → (lookup fd (run fd calls s) ≡ some p) × Signalled p (run fd calls s)
unfolding run
run-Signalled fd p [] s found g = (found, g)
run-Signalled fd p (call ∷ calls) s found g =
    let (found', g') = step-Signalled fd p call s found g in
    run-Signalled fd p calls (step fd call s) found' g'
