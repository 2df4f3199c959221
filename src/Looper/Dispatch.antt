-- ===== src/Looper/Dispatch.antt =====
-- Delivering: the message loop in `pollInner` of libutils/Looper.cpp.
use native.Mathlib.Nat.{add-zero}
use mathlib.Core.Path.{subst₂}
use android_native_mac_ports.Base.{
  ℕ, zero, suc, ◌+◌, ◌<◌, ◌≡◌, refl, sym, subst, ap, ◌∙◌, inl, inr, true, false, List, [], ◌∷◌,
  ◌++◌, arith, Bool-cases, length,
}
use android_native_mac_ports.Base.Int.{ℤ, ◌≤ℤ◌, ◌<ℤ◌, leb_ℤ}
use android_native_mac_ports.Looper.State.{
  Message, MessageEnvelope, Looper, System, ok, poll_callback,
}
use android_native_mac_ports.Looper.Poll.{dispatch}

-- The handler returns, and leaves alone the queue, the time of the next message and the clock.
pub record Quiet (sys : System) : Type 0 where
  pub after : ℕ → Message → Looper → Looper
  pub returns : (h : ℕ) (m : Message) (l : Looper) → sys.handle_message h m l ≡ ok tt (after h m l)
  pub queue :
      (h : ℕ) (m : Message) (l : Looper) → (after h m l).message_envelopes ≡ l.message_envelopes
  pub next :
      (h : ℕ) (m : Message) (l : Looper) → (after h m l).next_message_uptime ≡ l.next_message_uptime
  pub clock : (h : ℕ) (m : Message) (l : Looper) → (after h m l).clock_reads ≡ l.clock_reads

-- Each message was due when the clock was read for it, the first for the `n`-th time.
abbrev pub DueFrom : System → ℕ → List MessageEnvelope → Type 0
DueFrom sys n [] = Unit {0}
DueFrom sys n (e ∷ es) = (e.uptime ≤ℤ sys.clock n) × DueFrom sys (n + 1) es

-- What stopped the loop: an empty queue, or a first message that is not due yet and sets the time
-- of the next one.
abbrev pub Stopped : System → ℕ → ℤ → List MessageEnvelope → ℤ → Type 0
Stopped sys n next [] next' = next' ≡ next
Stopped sys n next (e ∷ es) next' = (sys.clock n <ℤ e.uptime) × (next' ≡ e.uptime)

abbrev pub result_of : List MessageEnvelope → ℤ → ℤ
result_of [] result = result
result_of (e ∷ es) result = poll_callback

-- The handlers of the messages are called in turn, each once with its message, after the message has
-- left the queue and while the looper is marked as sending; the second state is the one behind them all.
pub data Delivered (sys : System) : List MessageEnvelope → Looper → Looper → Type 0 where
  none_left : (l : Looper) → Delivered sys [] l l
  delivers :
      (e : MessageEnvelope) (es rest : List MessageEnvelope) (l l₁ l₂ : Looper)
      → l.message_envelopes ≡ e ∷ rest
      → sys.handle_message e.handler e.message (record l {
        clock_reads = l.clock_reads + 1;
        message_envelopes = rest;
        sending_message = true;
      })
        ≡ ok tt l₁
      → Delivered sys es (record l₁ { sending_message = false }) l₂
      → Delivered sys (e ∷ es) l l₂

-- What the loop does where it stops: it has read the clock for a message that is left.
abbrev pub stopped_at : List MessageEnvelope → Looper → Looper
stopped_at [] l = l
stopped_at (e ∷ es) l = record l { clock_reads = l.clock_reads + 1; next_message_uptime = e.uptime }

-- The loop sends a first part of the queue to the handlers and leaves the rest.
pub record Dispatched (sys : System) (result result' : ℤ) (l l' : Looper) : Type 0 where
  pub sent : List MessageEnvelope
  pub left : List MessageEnvelope
  pub split : l.message_envelopes ≡ sent ++ left
  pub rest : l'.message_envelopes ≡ left
  pub due : DueFrom sys l.clock_reads sent
  pub stopped :
      Stopped sys (l.clock_reads + length sent) l.next_message_uptime left l'.next_message_uptime
  pub behind : Looper
  pub delivered : Delivered sys sent l behind
  pub final : l' ≡ stopped_at left behind
  pub called : result' ≡ result_of sent result

module _ (sys : System) (q : Quiet sys) where
  -- Where handlers return and leave the queue alone, and the fuel exceeds the length of the queue, the
  -- loop ends. It takes a first part off the queue and calls the handler of each message in turn, once and
  -- with its message; each is due when the clock is read for it. It leaves the rest, and stops at the end
  -- of the queue or at a message that is not due, whose time becomes that of the next message. It changes
  -- nothing that the handlers do not, but the queue, the mark of sending, that time and the readings of the
  -- clock. Its result is POLL_CALLBACK if it called a handler, else the one before.
  pub dispatch-Dispatched :
      (fuel : ℕ) (result : ℤ) (es : List MessageEnvelope) (l : Looper)
      → l.message_envelopes ≡ es
      → length es < fuel
      → (result' : ℤ) × (l' : Looper) × (dispatch fuel sys result l ≡ ok result' l')
        × Dispatched sys result result' l l'
  unfolding dispatch
  dispatch-Dispatched zero result es l e h = absurd (omega arith)
  dispatch-Dispatched (suc fuel) result [] l e h = (
    result,
    l,
    ground arith,
    record {
      sent = [];
      left = [];
      split = e;
      rest = e;
      due = tt;
      stopped = refl;
      behind = l;
      delivered = none_left l;
      final = refl;
      called = refl;
    },
  )
  dispatch-Dispatched (suc fuel) result (m ∷ es) l e h =
      elim (Bool-cases (leb_ℤ m.uptime (sys.clock l.clock_reads))) [
        | inr late ↦ (
          result,
          record l { clock_reads = l.clock_reads + 1; next_message_uptime = m.uptime },
          ground arith,
          record {
            sent = [];
            left = m ∷ es;
            split = e;
            rest = e;
            due = tt;
            stopped = rw (add-zero l.clock_reads) (ground arith, refl);
            behind = l;
            delivered = none_left l;
            final = refl;
            called = refl;
          },
        )
        | inl due ↦
            let l₀ = record l {
              clock_reads = l.clock_reads + 1;
              message_envelopes = es;
              sending_message = true;
            } in
            let l₁ = record (q.after m.handler m.message l₀) { sending_message = false } in
            let (result', l', run, d) =
              dispatch-Dispatched fuel poll_callback es l₁ (q.queue m.handler m.message l₀)
                (omega arith) in
            (
              result',
              l',
              ground (arith, q.returns m.handler m.message l₀) ∙ run,
              record {
                sent = m ∷ d.sent;
                left = d.left;
                split = e ∙ ap (◌∷◌ m) (sym (q.queue m.handler m.message l₀) ∙ d.split);
                rest = d.rest;
                due = (
                  ground arith,
                  subst (λ n. DueFrom sys n d.sent) (q.clock m.handler m.message l₀) d.due,
                );
                stopped =
                    subst₂ (λ n next. Stopped sys n next d.left l'.next_message_uptime)
                      (omega (arith, q.clock m.handler m.message l₀))
                      (q.next m.handler m.message l₀) d.stopped;
                behind = d.behind;
                delivered =
                    delivers m d.sent es l (q.after m.handler m.message l₀) d.behind e
                      (q.returns m.handler m.message l₀) d.delivered;
                final = d.final;
                called = d.called ∙ callback_after d.sent;
              },
            )
      ]
    where
      callback_after : (sent : List MessageEnvelope) → result_of sent poll_callback ≡ poll_callback
      callback_after [] = refl
      callback_after (f ∷ fs) = refl
