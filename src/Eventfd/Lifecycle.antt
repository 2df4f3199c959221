-- ===== src/Eventfd/Lifecycle.antt =====
-- `eventfd` and `eventfd_close` of macport/eventfd.c on the state as a whole.
use android_native_mac_ports.Base.{
  ℕ, ◌<◌, ◌≡◌, refl, ◌∙◌, ◌≢◌, inl, inr, true, none, some, arith, ltb, update, if◌then◌else◌,
}
use android_native_mac_ports.Eventfd.Sockets.{done, failed, ebadf}
use android_native_mac_ports.Eventfd.Table.{Context, State, remove_ctx}
use android_native_mac_ports.Eventfd.Calls.{
  Supply, socketpair, set_flags, install, eventfd, eventfd_read, eventfd_write, eventfd_close,
  close_ctx,
}
use android_native_mac_ports.Eventfd.Drain.{with_unread}
use android_native_mac_ports.Eventfd.Pair.{socketpair-Pair, set_flags-Pair, signal-Pair}
use android_native_mac_ports.Eventfd.Lookup.{Attached, lookup}
use android_native_mac_ports.Eventfd.Contexts.{
  Below, Distinct, find_ctx-fresh, find_ctx-add, find_ctx-free, find_ctx-remove, has_room,
  add_ctx-has_room,
}

pub record IsValid (s : State) : Type 0 where
  pub below : Below s.fresh s.table
  pub distinct : Distinct s.context s.table

-- With descriptors that no context has, memory, a lock and a free slot, `eventfd` returns the read
-- end, whose context has the initial value and as many bytes as signals sent: one or none.
pub eventfd-Attached :
    (supply : Supply) (r w initval flags : ℕ) (s : State)
    → supply.sockets ≡ some (r, w)
    → supply.malloc_ok ≡ true
    → supply.mutex_ok ≡ true
    → r ≢ w
    → IsValid s
    → lookup r s ≡ none
    → has_room s.table ≡ true
    → 0 < s.net.room
    → ((eventfd supply initval flags s).0 ≡ done r)
      × Attached
          (eventfd supply initval flags s).1
          r
          s.fresh
          (record { sock_r = r; sock_w = w; counter = initval; flags = flags })
          (if ltb 0 initval then 1 else 0)
unfolding eventfd install
eventfd-Attached supply r w initval flags s e ok ok' ne v out free room =
    elim (add_ctx-has_room s.fresh s.table) [
      | inl (full, _) ↦ cc
      | inr (_, (slots, added, _)) ↦
          let q = set_flags-Pair ne flags (socketpair-Pair ne s.net) in
          let net' = set_flags r w flags (socketpair r w s.net) in
          let (at_r, at_w) = signal-Pair r w s.net.room initval net' ne room q in
          let c : Context = record { sock_r = r; sock_w = w; counter = initval; flags = flags } in
          let fresh = find_ctx-fresh s.context s.fresh r (some c) s.table v.below in
          let new =
            find_ctx-add (update s.context s.fresh (some c)) s.fresh r c s.table slots
              (ground arith) added in
          rw (e, ok, ok', eventfd, added, install)
            (
              refl,
              record {
                found = new.0 refl (fresh ∙ out);
                held = record {
                  live = ground arith;
                  reader = with_unread q.reader (if ltb 0 initval then 1 else 0);
                  writer = q.writer;
                  at_r = at_r;
                  at_w = at_w;
                  to_r = q.to_r;
                  to_w = q.to_w;
                  apart = ne;
                  unread = refl;
                };
              },
            )
    ]

module _ (fd : ℕ) (s : State) (out : lookup fd s ≡ none) where
  eventfd_read-none : eventfd_read fd s ≡ (failed ebadf, s)
  unfolding eventfd_read
  eventfd_read-none = ground (arith, out)

  eventfd_write-none : (value : ℕ) → eventfd_write fd value s ≡ (failed ebadf, s)
  unfolding eventfd_write
  eventfd_write-none value = ground (arith, out)

  eventfd_close-none : eventfd_close fd s ≡ (failed ebadf, s)
  unfolding eventfd_close
  eventfd_close-none = ground (arith, out)

eventfd_close-close_ctx :
    (fd p : ℕ) (c : Context) (s : State) (n : ℕ)
    → Attached s fd p c n
    → eventfd_close fd s ≡ close_ctx fd p c s
unfolding eventfd_close
eventfd_close-close_ctx fd p c s n a = ground (arith, a.found, a.held.live)

-- Once closed, a descriptor has no context: each further call fails with EBADF.
pub eventfd_close-ebadf :
    (fd p value : ℕ) (c : Context) (s : State) (n : ℕ)
    → IsValid s
    → Attached s fd p c n
    → let s' = (eventfd_close fd s).1 in
      ((eventfd_close fd s).0 ≡ done 0)
      × (eventfd_read fd s' ≡ (failed ebadf, s'))
      × (eventfd_write fd value s' ≡ (failed ebadf, s'))
      × (eventfd_close fd s' ≡ (failed ebadf, s'))
unfolding close_ctx
eventfd_close-ebadf fd p value c s n v a =
    let gone =
      find_ctx-free s.context p fd (remove_ctx s.context fd s.table)
        (find_ctx-remove s.context fd s.table v.distinct) in
    let t = (close_ctx fd p c s).1 in
    rw (eventfd_close-close_ctx fd p c s n a) (
      refl,
      eventfd_read-none fd t gone,
      eventfd_write-none fd t gone value,
      eventfd_close-none fd t gone,
    )
