-- ===== src/Looper/Removal.antt =====
-- Removing: the backward loop of libutils/Looper.cpp against a filter.
use android_native_mac_ports.Base.{
  ℕ, zero, suc, ◌≤◌, ◌≡◌, refl, sym, ap, ◌∙◌, ◌&&◌, not, inl, inr, Bool, List, [], ◌∷◌, ◌++◌, arith,
  ◌==◌, Bool-cases, Option-cases, get_elem?, take, drop, length, keep_if, keep_if-append,
  take-length, drop-length, drop-get_elem?, take-get_elem?, get_elem?-none,
}
use mathlib.Core.List.{append-nil, append_assoc}
use android_native_mac_ports.Base.Int.{ℤ, eqb_ℤ}
use android_native_mac_ports.Looper.State.{MessageEnvelope, Looper}
use android_native_mac_ports.Looper.Messages.{
  remove_at, remove_loop, remove_messages, remove_messages_what,
}

module _ {ℓ} {A : Type ℓ} where
  take-remove_at : (i : ℕ) (xs : List A) → i ≤ length xs → take i (remove_at i xs) ≡ take i xs
  take-remove_at zero xs h = refl
  take-remove_at (suc i) [] h = refl
  take-remove_at (suc i) (x ∷ xs) h = ap (◌∷◌ x) (take-remove_at i xs (omega arith))

  drop-remove_at : (i : ℕ) (xs : List A) → i ≤ length xs → drop i (remove_at i xs) ≡ drop (suc i) xs
  drop-remove_at zero xs h = refl
  drop-remove_at (suc i) [] h = refl
  drop-remove_at (suc i) (x ∷ xs) h = drop-remove_at i xs (omega arith)

  length-remove_at : (i : ℕ) (xs : List A) → i ≤ length xs → i ≤ length (remove_at i xs)
  length-remove_at zero xs h = omega arith
  length-remove_at (suc i) [] h = h
  length-remove_at (suc i) (x ∷ xs) h = omega (arith, length-remove_at i xs)

module _ (drops : MessageEnvelope → Bool) where
  abbrev keeps : MessageEnvelope → Bool
  keeps e = not (drops e)

  -- Below the index nothing is looked at yet, and above it all is as it shall be.
  remove_loop-keep_if :
      (i : ℕ) (es : List MessageEnvelope)
      → i ≤ length es
      → remove_loop drops i es ≡ keep_if keeps (take i es) ++ drop i es
  unfolding remove_loop
  remove_loop-keep_if zero es h = refl
  remove_loop-keep_if (suc i) es h = elim (Option-cases (get_elem? es i)) [
    | inl out ↦ absurd (omega (arith, get_elem?-none i es out))
    | inr (e, at) ↦
        let front = keep_if-append keeps (take i es) (e ∷ []) in
        let split = drop-get_elem? i es e at in
        let taken = take-get_elem? i es e at in
        elim (Bool-cases (drops e)) [
          | inl dropped ↦
              rw (at, remove_loop, dropped)
                (remove_loop-keep_if i (remove_at i es) (length-remove_at i es (omega arith))
                  ∙ rw
                      (
                        take-remove_at i es (omega arith),
                        drop-remove_at i es (omega arith),
                        taken,
                        front,
                        dropped,
                      )
                      (rw append-nil))
          | inr kept ↦
              rw (at, remove_loop, kept)
                (remove_loop-keep_if i es (omega arith)
                  ∙ rw (split, taken, front, kept)
                      (sym (append_assoc (keep_if keeps (take i es)) (e ∷ []) (drop (suc i) es))))
        ]
  ]

  remove_all-keep_if :
      (es : List MessageEnvelope) → remove_loop drops (length es) es ≡ keep_if keeps es
  remove_all-keep_if es =
      remove_loop-keep_if (length es) es (omega arith)
      ∙ rw (take-length es, drop-length es) (append-nil _)

-- `removeMessages(handler)` keeps exactly the messages for other handlers, in their order, and
-- `removeMessages(handler, what)` also those of the handler with another `what`.
pub remove_messages-keep_if :
    (handler : ℕ) (what : ℤ) (l : Looper)
    → (remove_messages handler l ≡ record l {
      message_envelopes = keep_if (λ e. not (e.handler == handler)) l.message_envelopes;
    })
      × (remove_messages_what handler what l ≡ record l {
        message_envelopes =
            keep_if
              (λ e. not (e.handler == handler && eqb_ℤ e.message.what what))
              l.message_envelopes;
      })
unfolding remove_messages remove_messages_what
remove_messages-keep_if handler what l = (
  with_queue (remove_all-keep_if (λ e. e.handler == handler) l.message_envelopes),
  with_queue (
      remove_all-keep_if (λ e. e.handler == handler && eqb_ℤ e.message.what what)
        l.message_envelopes),
)
  where
    with_queue :
        {es es' : List MessageEnvelope}
        → es ≡ es'
        → record l { message_envelopes = es } ≡ record l { message_envelopes = es' }
    with_queue e = ap (λ (es : List MessageEnvelope). record l { message_envelopes = es }) e
