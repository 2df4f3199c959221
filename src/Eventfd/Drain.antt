-- ===== src/Eventfd/Drain.antt =====
-- `read` on a socket and `drain_socket` of macport/eventfd.c.
use android_native_mac_ports.Base.{
  ℕ, zero, suc, ◌-◌, ◌<◌, ◌≡◌, refl, ◌∙◌, ◌≢◌, ◌⊎◌, inl, inr, true, some, arith, ltb, Bool-cases,
  min,
}
use android_native_mac_ports.Eventfd.Sockets.{
  done, failed, eagain, Socket, Net, set_socket, set_nonblock, is_open, read, drain_loop,
  drain_fuel, drain_socket,
}

abbrev pub with_unread : Socket → ℕ → Socket
with_unread s n = record s { unread = n }

module _ (fd : ℕ) (net : Net) (s : Socket) (at : net.socket fd ≡ some s) where
  pub read-more :
      (size : ℕ)
      → 0 < s.unread
      → read fd size net ≡ (
        done (min size s.unread),
        set_socket fd (with_unread s (s.unread - min size s.unread)) net,
      )
  unfolding read
  read-more size h = ground arith

  drain_loop-more :
      (fuel : ℕ)
      → 0 < s.unread
      → drain_loop (suc fuel) fd net
        ≡ drain_loop fuel fd (set_socket fd (with_unread s (s.unread - min 128 s.unread)) net)
  unfolding drain_loop
  drain_loop-more fuel h = ground arith

  read-empty :
      (size : ℕ)
      → s.unread ≡ 0
      → s.nonblock ≡ true
      → (read fd size net ≡ (done 0, net)) ⊎ (read fd size net ≡ (failed eagain, net))
  unfolding read
  read-empty size h b = elim (Bool-cases (is_open s.peer net)) [
    | inl up ↦ inr (ground arith)
    | inr gone ↦ inl (ground arith)
  ]

-- The descriptor `fd` is left with no unread byte, and nothing else of the sockets changes.
pub record Drained (fd : ℕ) (s : Socket) (net net' : Net) : Type 0 where
  pub empty : net'.socket fd ≡ some (with_unread s 0)
  pub rest : (p : ℕ) → p ≢ fd → net'.socket p ≡ net.socket p
  pub room : net'.room ≡ net.room

drain_loop-Drained :
    (fuel fd : ℕ) (net : Net) (s : Socket)
    → net.socket fd ≡ some s
    → s.nonblock ≡ true
    → s.unread < fuel
    → (net' : Net) × (drain_loop fuel fd net ≡ some net') × Drained fd s net net'
unfolding drain_loop set_socket
drain_loop-Drained zero fd net s at b h = absurd (omega arith)
drain_loop-Drained (suc fuel) fd net s at b h = elim (Bool-cases (ltb 0 s.unread)) [
  | inl more ↦
      let left = with_unread s (s.unread - min 128 s.unread) in
      let (net', run, d) =
        drain_loop-Drained fuel fd (set_socket fd left net) left (ground arith) b (ground arith) in
      (
        net',
        drain_loop-more fd net s at fuel (ground arith) ∙ run,
        record { empty = d.empty; rest = λ p ne. ground (arith, d.rest p); room = d.room },
      )
  | inr over ↦ (
    net,
    ground (arith, read-empty fd net s at 128 (ground arith) b),
    record { empty = ground arith; rest = λ p ne. refl; room = refl },
  )
]

-- `drain_socket` ends, and takes every byte out of its socket; the other sockets, and the flags of
-- this one, are as they were.
pub drain_socket_lem :
    (fd : ℕ) (net : Net) (s : Socket)
    → net.socket fd ≡ some s
    → (net' : Net) × (drain_socket fd net ≡ some net') × Drained fd s net net'
unfolding drain_socket set_socket set_nonblock drain_fuel
drain_socket_lem fd net s at =
    let open_net = set_nonblock true fd net in
    let (net', run, d) =
      drain_loop-Drained (suc s.unread) fd open_net (record s { nonblock = true }) (ground arith)
        refl (omega arith) in
    (
      set_nonblock s.nonblock fd net',
      ground arith,
      record {
        empty = ground (arith, d.empty);
        rest = λ p ne. ground (arith, d.rest p, d.empty);
        room = ground (arith, d.empty, d.room);
      },
    )
