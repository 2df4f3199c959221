-- ===== src/Looper/Messages.antt =====
-- The message queue of libutils/Looper.cpp: sending and removing.
use android_native_mac_ports.Base.{
  ℕ, zero, suc, ◌+◌, Bool, ◌&&◌, none, some, List, ◌∷◌, ◌++◌, ◌==◌, if◌then◌else◌, get_elem?, take,
  drop, length,
}
use android_native_mac_ports.Base.Int.{ℤ, ◌+ℤ◌, leb_ℤ, eqb_ℤ}
use android_native_mac_ports.Looper.State.{
  Message, MessageEnvelope, Looper, System, ok, M, ◌>>=◌, system_time, wake,
}

-- `while (i < messageCount && uptime >= mMessageEnvelopes.itemAt(i).uptime) i += 1;`, for at most so
-- many rounds.
unfoldable pub position_loop : ℕ → ℤ → List MessageEnvelope → ℕ → ℕ
position_loop zero uptime envelopes i = i
position_loop (suc fuel) uptime envelopes i = elim (get_elem? envelopes i) [
  | none ↦ i
  | some e ↦
      (let rest = position_loop fuel uptime envelopes (i + 1) in
        if leb_ℤ e.uptime uptime then rest else i)
]

unfoldable pub position : ℤ → List MessageEnvelope → ℕ
unfolding position_loop
position uptime envelopes = position_loop (suc (length envelopes)) uptime envelopes 0

-- `Vector::insertAt(item, i, 1)`
abbrev pub insert_at {ℓ} : {A : Type ℓ} → A → ℕ → List A → List A
insert_at x i xs = take i xs ++ x ∷ drop i xs

-- `Vector::removeAt(i)`
abbrev pub remove_at {ℓ} : {A : Type ℓ} → ℕ → List A → List A
remove_at i xs = take i xs ++ drop (suc i) xs

unfoldable pub send_message_at_time : System → ℤ → ℕ → Message → M (Unit {0})
unfolding position wake
send_message_at_time sys uptime handler message l =
    let i = position uptime l.message_envelopes in
    let envelope : MessageEnvelope = record {
      uptime = uptime;
      handler = handler;
      message = message;
    } in
    let l' = record l { message_envelopes = insert_at envelope i l.message_envelopes } in
    if l.sending_message then ok tt l' else if i == 0 then wake sys l' else ok tt l'

unfoldable pub send_message : System → ℕ → Message → M (Unit {0})
unfolding send_message_at_time
send_message sys handler message = do
  now ← system_time sys
  send_message_at_time sys now handler message

unfoldable pub send_message_delayed : System → ℤ → ℕ → Message → M (Unit {0})
unfolding send_message_at_time ◌+ℤ◌
send_message_delayed sys uptime_delay handler message = do
  now ← system_time sys
  send_message_at_time sys (now +ℤ uptime_delay) handler message

-- `for (size_t i = size; i != 0; ) if (… itemAt(--i) …) removeAt(i);`
unfoldable pub remove_loop :
    (MessageEnvelope → Bool) → ℕ → List MessageEnvelope → List MessageEnvelope
remove_loop drops zero envelopes = envelopes
remove_loop drops (suc i) envelopes = remove_loop drops i (elim (get_elem? envelopes i) [
  | none ↦ envelopes
  | some e ↦ if drops e then remove_at i envelopes else envelopes
])

-- `removeMessages(handler)`
unfoldable pub remove_messages : ℕ → Looper → Looper
unfolding remove_loop
remove_messages handler l = record l {
  message_envelopes =
      remove_loop (λ e. e.handler == handler) (length l.message_envelopes) l.message_envelopes;
}

-- `removeMessages(handler, what)`
unfoldable pub remove_messages_what : ℕ → ℤ → Looper → Looper
unfolding remove_loop
remove_messages_what handler what l = record l {
  message_envelopes =
      remove_loop (λ e. e.handler == handler && eqb_ℤ e.message.what what)
        (length l.message_envelopes) l.message_envelopes;
}
