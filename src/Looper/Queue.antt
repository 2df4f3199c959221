-- ===== src/Looper/Queue.antt =====
-- Sending: the message queue of libutils/Looper.cpp stays in the order of delivery.
use native.Mathlib.Numerals.{add-one}
use android_native_mac_ports.Base.{
  ℕ, zero, suc, ◌+◌, ◌<◌, ◌≡◌, refl, ap, ◌∙◌, inl, inr, List, [], ◌∷◌, ◌++◌, arith, ◌==◌,
  if◌then◌else◌, Bool-cases, Option-cases, get_elem?, drop, length, All, drop-get_elem?, drop-none,
}
use android_native_mac_ports.Base.Int.{ℤ, ◌≤ℤ◌, ◌<ℤ◌, leb_ℤ}
use android_native_mac_ports.Looper.State.{
  Message, MessageEnvelope, Looper, System, wake_failed, writes_wake, ok, wake,
}
use android_native_mac_ports.Looper.Messages.{
  position_loop, position, insert_at, send_message_at_time,
}

-- How many envelopes at the head are due no later than `u`.
unfoldable pub lead : ℤ → List MessageEnvelope → ℕ
lead u [] = 0
lead u (e ∷ es) = if leb_ℤ e.uptime u then suc (lead u es) else 0

position_loop-lead :
    (fuel : ℕ) (u : ℤ) (es : List MessageEnvelope) (i : ℕ)
    → length (drop i es) < fuel
    → position_loop fuel u es i ≡ i + lead u (drop i es)
unfolding position_loop lead
position_loop-lead zero u es i h = absurd (omega arith)
position_loop-lead (suc fuel) u es i h = elim (Option-cases (get_elem? es i)) [
  | inl e ↦ rw (e, position_loop, drop-none i es e) (omega arith)
  | inr (x, e) ↦
      let split = drop-get_elem? i es x e in
      let next = rw add-one at (position_loop-lead fuel u es (i + 1)) in
      ground (arith, split, next (omega (arith, ap length split)))
]

pub position-lead : (u : ℤ) (es : List MessageEnvelope) → position u es ≡ lead u es
unfolding position
position-lead u es = position_loop-lead (suc (length es)) u es 0 (omega arith) ∙ omega arith

-- In the order of delivery.
abbrev pub IsSorted : List MessageEnvelope → Type 0
IsSorted [] = Unit {0}
IsSorted (e ∷ es) = All (λ f. e.uptime ≤ℤ f.uptime) es × IsSorted es

-- `es'` is `es` with `e` put in behind all that is due no later, and before all that is due later.
pub record Inserted (e : MessageEnvelope) (es es' : List MessageEnvelope) : Type 0 where
  pub before : List MessageEnvelope
  pub after : List MessageEnvelope
  pub old : es ≡ before ++ after
  pub new : es' ≡ before ++ e ∷ after
  pub no_later : All (λ f. f.uptime ≤ℤ e.uptime) before
  pub later : IsSorted es → All (λ f. e.uptime <ℤ f.uptime) after

above_trans :
    (u v : ℤ) (es : List MessageEnvelope)
    → u ≤ℤ v
    → All (λ f. v ≤ℤ f.uptime) es
    → All (λ f. u ≤ℤ f.uptime) es
above_trans u v [] h a = tt
above_trans u v (e ∷ es) h a = (omega arith, above_trans u v es h a.1)

above-later :
    (u v : ℤ) (es : List MessageEnvelope)
    → u <ℤ v
    → All (λ f. v ≤ℤ f.uptime) es
    → All (λ f. u <ℤ f.uptime) es
above-later u v [] h a = tt
above-later u v (e ∷ es) h a = (omega arith, above-later u v es h a.1)

insert-Inserted :
    (e : MessageEnvelope) (es : List MessageEnvelope)
    → Inserted e es (insert_at e (lead e.uptime es) es)
unfolding lead
insert-Inserted e [] = record {
  before = [];
  after = [];
  old = refl;
  new = refl;
  no_later = tt;
  later = λ _. tt;
}
insert-Inserted e (f ∷ es) = elim (Bool-cases (leb_ℤ f.uptime e.uptime)) [
  | inl due ↦
      let rest = insert-Inserted e es in
      rw (due, lead)
        (record {
          before = f ∷ rest.before;
          after = rest.after;
          old = ap (◌∷◌ f) rest.old;
          new = ap (◌∷◌ f) rest.new;
          no_later = (ground arith, rest.no_later);
          later = λ s. rest.later s.1;
        })
  | inr late ↦
      rw (late, lead)
        (record {
          before = [];
          after = f ∷ es;
          old = refl;
          new = refl;
          no_later = tt;
          later = λ s. (ground arith, above-later e.uptime f.uptime es (ground arith) s.0);
        })
]

All-insert :
    (u : ℤ) (e : MessageEnvelope) (n : ℕ) (es : List MessageEnvelope)
    → u ≤ℤ e.uptime
    → All (λ f. u ≤ℤ f.uptime) es
    → All (λ f. u ≤ℤ f.uptime) (insert_at e n es)
All-insert u e zero es h a = (h, a)
All-insert u e (suc n) [] h a = (h, tt)
All-insert u e (suc n) (f ∷ es) h a = (a.0, All-insert u e n es h a.1)

insert-IsSorted :
    (e : MessageEnvelope) (es : List MessageEnvelope)
    → IsSorted es
    → IsSorted (insert_at e (lead e.uptime es) es)
unfolding lead
insert-IsSorted e [] s = (tt, tt)
insert-IsSorted e (f ∷ es) s = elim (Bool-cases (leb_ℤ f.uptime e.uptime)) [
  | inl due ↦
      rw (due, lead)
        (All-insert f.uptime e (lead e.uptime es) es (ground arith) s.0, insert-IsSorted e es s.1)
  | inr late ↦
      rw (late, lead) ((ground arith, above_trans e.uptime f.uptime es (ground arith) s.0), s)
]

-- What a message that was sent leaves: its place in the queue, an order that is kept, and a wake
-- signal where it came first and the looper is not sending.
pub record Sent (sys : System) (e : MessageEnvelope) (l l' : Looper) : Type 0 where
  pub placed : Inserted e l.message_envelopes l'.message_envelopes
  pub sorted : IsSorted l.message_envelopes → IsSorted l'.message_envelopes
  pub signal : l'.system_calls ≡ (
      if l.sending_message
      then l.system_calls
      else if lead e.uptime l.message_envelopes == 0
      then writes_wake ∷ l.system_calls
      else l.system_calls)

-- Unless the wake signal fails for a reason other than EAGAIN, `sendMessageAtTime` returns. It puts
-- the message behind all that are due no later, keeps the queue in order, and wakes the looper
-- exactly where no message is due before the new one and the looper is not sending messages.
pub send_message_at_time-Sent :
    (sys : System) (uptime : ℤ) (handler : ℕ) (message : Message) (l : Looper)
    → (sys.write_wake l.system_calls ≡ wake_failed → ⊥)
    → (l' : Looper) × (send_message_at_time sys uptime handler message l ≡ ok tt l')
      × Sent sys (record { uptime = uptime; handler = handler; message = message }) l l'
unfolding send_message_at_time wake
send_message_at_time-Sent sys uptime handler message l up =
    let e : MessageEnvelope = record { uptime = uptime; handler = handler; message = message } in
    let es = l.message_envelopes in
    let p = position-lead uptime es in
    let l' = record l {
      message_envelopes = insert_at e (lead uptime es) es;
      system_calls =
          if l.sending_message
          then l.system_calls
          else if lead uptime es == 0
          then writes_wake ∷ l.system_calls
          else l.system_calls;
    } in
    (
      l',
      rw (p, send_message_at_time) (ground arith),
      record { placed = insert-Inserted e es; sorted = insert-IsSorted e es; signal = refl },
    )
