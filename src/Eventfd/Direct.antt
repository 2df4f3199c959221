-- ===== src/Eventfd/Direct.antt =====
-- `wake` and `awoken` of libutils/Looper.cpp on an eventfd of macport/eventfd.c: they write to and read
-- from the descriptor itself, without `eventfd_write` and `eventfd_read`.
use android_native_mac_ports.Base.{
  ℕ, ◌+◌, ◌≤◌, ◌≡◌, ap, true, Option, none, some, arith, ◌-◌, min, ltb, ◌==◌, if◌then◌else◌,
}
use android_native_mac_ports.Eventfd.Sockets.{
  Outcome, done, failed, blocked, fault, eagain, ebadf, einval, emfile, enomem, epipe, other, Net,
  read, write, set_socket, is_open,
}
use android_native_mac_ports.Eventfd.Table.{Context, State}
use android_native_mac_ports.Eventfd.Counter.{Holds}

-- `wake`: `none` where it does not return. It aborts for a failure other than EAGAIN and for a short write, and
-- waits where the write blocks.
unfoldable pub wake_by_write : ℕ → Net → Option Net
unfolding write
wake_by_write fd net =
    let (sent, net') = write fd 8 net in
    elim sent [
      | done n ↦ if n == 8 then some net' else none
      | failed eagain ↦ some net'
      | failed ebadf ↦ none
      | failed einval ↦ none
      | failed emfile ↦ none
      | failed enomem ↦ none
      | failed epipe ↦ none
      | failed other ↦ none
      | blocked ↦ none
      | fault ↦ none
    ]

-- `awoken`
unfoldable pub awoken_by_read : ℕ → Net → Outcome ℕ × Net
unfolding read
awoken_by_read fd net = read fd 8 net

-- `wake` on the descriptor that `eventfd` returned succeeds, where the buffer of the pair's other end
-- has room. But its bytes go to that other end: the descriptor itself has no more to read than before,
-- so that a poll for it does not wake, and `awoken` on it fails with EAGAIN, where no signal waits and
-- it does not block.
pub wake_by_write-unseen :
    (p : ℕ) (c : Context) (s : State) (h : Holds s p c 0)
    → h.writer.unread + 8 ≤ s.net.room
    → h.reader.nonblock ≡ true
    → (net : Net) × (wake_by_write c.sock_r s.net ≡ some net)
      × (net.socket c.sock_r ≡ some h.reader)
      × (net.socket c.sock_w ≡ some (record h.writer { unread = h.writer.unread + 8 }))
      × (awoken_by_read c.sock_r net ≡ (failed eagain, net))
unfolding wake_by_write awoken_by_read read write set_socket is_open
wake_by_write-unseen p c s h room nb =
    let free : ltb h.writer.unread s.net.room ≡ true = ground arith in
    let all : min 8 (s.net.room - h.writer.unread) ≡ 8 = omega arith in
    let net : Net = set_socket c.sock_w (record h.writer { unread = h.writer.unread + 8 }) s.net in
    let sent : write c.sock_r 8 s.net ≡ (done 8, net) =
      rw (write, h.at_r, h.to_w, h.at_w, free, all)
        (ap
          (λ (x : ℕ).
            (done 8, set_socket x (record h.writer { unread = h.writer.unread + 8 }) s.net))
          h.to_w) in
    (
      set_socket c.sock_w (record h.writer { unread = h.writer.unread + 8 }) s.net,
      rw (wake_by_write, sent) (ap (λ (x : Outcome ℕ × Net). some x.1) sent),
      ground (arith, h.at_r, h.at_w, h.to_w, h.apart),
      ground (arith, h.at_r, h.at_w, h.to_w, h.apart),
      ground (arith, h.at_r, h.at_w, h.to_w, h.apart, h.unread),
    )
