-- ===== src/Looper/PollResults.antt =====
-- What `pollInner` and `pollOnce` of libutils/Looper.cpp return.
use android_native_mac_ports.Base.{
  ℕ, zero, suc, ◌+◌, ◌≡◌, refl, ◌⊎◌, inl, inr, Bool, true, false, List, [], ◌∷◌, arith, Bool-cases,
  Option-cases, if◌then◌else◌, get_elem?, drop,
}
use android_native_mac_ports.Base.Int.{ℤ, pos, eqb_ℤ, leb_ℤ}
use android_native_mac_ports.Looper.State.{
  MessageEnvelope, Looper, System, WaitReply, events_are, wait_failed, enoent, ebadf, eintr, other,
  Run, ok, abort, out_of_fuel, M, pure, ◌>>=◌, ◌>>◌, poll_wake, poll_callback, poll_timeout,
  poll_error, llong_max,
}
use android_native_mac_ports.Looper.Requests.{rebuild}
use android_native_mac_ports.Looper.Poll.{
  poll_inner, handle_reply, by_event_count, handle_events, dispatch, callbacks, after_callback,
  adjust_timeout, idle, poll_once_loop, poll_once, scan,
}

-- The value, if the run returns one, has the property.
abbrev pub Yields {ℓ} : {A : Type ℓ} → (A → Type 0) → Run A → Type 0
Yields P (ok a l) = P a
Yields P abort = Unit {0}
Yields P out_of_fuel = Unit {0}

-- The four results of a poll that delivers no identifier.
abbrev pub IsCode : ℤ → Type 0
IsCode r = (r ≡ poll_wake) ⊎ (r ≡ poll_callback) ⊎ (r ≡ poll_timeout) ⊎ (r ≡ poll_error)

module _ {A B : Type 0} (Q : B → Type 0) where
  Yields-bind :
      (m : M A) (f : A → M B)
      → ((a : A) (l : Looper) → Yields Q (f a l))
      → (l : Looper) → Yields Q ((m >>= f) l)
  Yields-bind m f h l =
      elim (m l)
        as (λ x. Yields Q (elim x as (λ _. Run B) [
          | ok a l' ↦ f a l'
          | abort ↦ abort
          | out_of_fuel ↦ out_of_fuel
        ])) [ ok a l' ↦ h a l' | abort ↦ tt | out_of_fuel ↦ tt ]

  Yields-bind_code :
      (P : A → Type 0) (m : M A) (f : A → M B) (l : Looper)
      → Yields P (m l)
      → ((a : A) (l : Looper) → P a → Yields Q (f a l))
      → Yields Q ((m >>= f) l)
  Yields-bind_code P m f l g h = go (m l) g
    where
      go :
          (x : Run A)
          → Yields P x
          → Yields Q (elim x as (λ _. Run B) [
            | ok a l' ↦ f a l'
            | abort ↦ abort
            | out_of_fuel ↦ out_of_fuel
          ])
      go (ok a l') p = h a l' p
      go abort p = tt
      go out_of_fuel p = tt

by_event_count-IsCode : (reply : WaitReply) (l : Looper) → Yields IsCode (by_event_count reply l)
unfolding by_event_count
by_event_count-IsCode (wait_failed eintr) l = inl refl
by_event_count-IsCode (wait_failed enoent) l = inr (inr (inr refl))
by_event_count-IsCode (wait_failed ebadf) l = inr (inr (inr refl))
by_event_count-IsCode (wait_failed other) l = inr (inr (inr refl))
by_event_count-IsCode (events_are []) l = inr (inr (inl refl))
by_event_count-IsCode (events_are (e ∷ es)) l =
    Yields-bind IsCode (handle_events (e ∷ es)) (λ _. pure poll_wake) (λ _ _. inl refl) l

module _ (sys : System) where
  handle_reply-IsCode : (reply : WaitReply) (l : Looper) → Yields IsCode (handle_reply sys reply l)
  unfolding handle_reply
  handle_reply-IsCode reply l = go l.rebuild_required
    where
      go :
          (b : Bool)
          → Yields IsCode (
              if b
              then (rebuild sys >>= λ _. pure poll_wake) (record l { rebuild_required = false })
              else by_event_count reply l)
      go true =
          Yields-bind IsCode (rebuild sys) (λ _. pure poll_wake) (λ _ _. inl refl)
            (record l { rebuild_required = false })
      go false = by_event_count-IsCode reply l

  dispatch-IsCode :
      (fuel : ℕ) (result : ℤ) (es : List MessageEnvelope) (l : Looper)
      → l.message_envelopes ≡ es
      → IsCode result
      → Yields IsCode (dispatch fuel sys result l)
  unfolding dispatch
  dispatch-IsCode zero result es l e c = tt
  dispatch-IsCode (suc fuel) result [] l e c = rw (dispatch, e) c
  dispatch-IsCode (suc fuel) result (m ∷ es) l e c =
      elim (Bool-cases (leb_ℤ m.uptime (sys.clock l.clock_reads))) [
        | inr late ↦ rw (dispatch, e, late) c
        | inl due ↦
            rw (dispatch, e, due)
              (Yields-bind IsCode (sys.handle_message m.handler m.message)
                (λ _ l'. dispatch fuel sys poll_callback (record l' { sending_message = false }))
                (λ _ l'.
                  dispatch-IsCode fuel poll_callback l'.message_envelopes
                    (record l' { sending_message = false }) refl (inr (inl refl)))
                (record l {
                  clock_reads = l.clock_reads + 1;
                  message_envelopes = es;
                  sending_message = true;
                }))
      ]

  callbacks-IsCode :
      (fuel : ℕ) (i : ℕ) (result : ℤ) (l : Looper)
      → IsCode result
      → Yields IsCode (callbacks fuel sys i result l)
  unfolding callbacks
  callbacks-IsCode zero i result l c = tt
  callbacks-IsCode (suc fuel) i result l c = elim (Option-cases (get_elem? l.responses i)) [
    | inl ended ↦ rw (callbacks, ended) c
    | inr (r, at) ↦ elim (Bool-cases (eqb_ℤ r.request.ident poll_callback)) [
      | inr plain ↦ rw (callbacks, at, plain) (callbacks-IsCode fuel (i + 1) result l c)
      | inl calls ↦ elim (Option-cases r.request.callback) [
        | inl missing ↦ rw (callbacks, at, calls, missing) tt
        | inr (cb, present) ↦
            rw (callbacks, at, calls, present)
              (Yields-bind IsCode (sys.handle_event cb r.request.fd r.events r.request.payload)
                (λ done.
                  after_callback sys i r.seq done >> callbacks fuel sys (i + 1) poll_callback)
                (λ done.
                  Yields-bind IsCode (after_callback sys i r.seq done)
                    (λ _. callbacks fuel sys (i + 1) poll_callback)
                    (λ _ l'. callbacks-IsCode fuel (i + 1) poll_callback l' (inr (inl refl))))
                l)
      ]
    ]
  ]

  pub poll_inner-IsCode :
      (fuel : ℕ) (timeout_millis : ℤ) (l : Looper)
      → Yields IsCode (poll_inner fuel sys timeout_millis l)
  unfolding poll_inner
  poll_inner-IsCode fuel timeout_millis =
      Yields-bind IsCode (adjust_timeout sys timeout_millis) _ (λ timeout.
        Yields-bind IsCode (idle sys timeout) _ (λ reply l.
          Yields-bind_code IsCode IsCode (handle_reply sys reply) _ l (handle_reply-IsCode reply l)
            (λ result l c.
              Yields-bind_code IsCode IsCode
                (λ l. dispatch fuel sys result (record l { next_message_uptime = llong_max })) _ l
                (dispatch-IsCode fuel result l.message_envelopes
                  (record l { next_message_uptime = llong_max }) refl c)
                (λ result l c. callbacks-IsCode fuel 0 result l c))))

  -- Runs that go on with the same value go on the same way.
  bind-same :
      {B : Type 0} (m : M ℤ) (f f' : ℤ → M B) (l : Looper)
      → Yields IsCode (m l)
      → ((a : ℤ) (l : Looper) → IsCode a → f a l ≡ f' a l)
      → (m >>= f) l ≡ (m >>= f') l
  bind-same {B} m f f' l g h = go (m l) g
    where
      go :
          (x : Run ℤ)
          → Yields IsCode x
          → (elim x as (λ _. Run B) [
            | ok a l' ↦ f a l'
            | abort ↦ abort
            | out_of_fuel ↦ out_of_fuel
          ])
            ≡ (elim x as (λ _. Run B) [
              | ok a l' ↦ f' a l'
              | abort ↦ abort
              | out_of_fuel ↦ out_of_fuel
            ])
      go (ok a l') p = h a l' p
      go abort p = refl
      go out_of_fuel p = refl

  -- A round whose result is a code is the last one.
  last_round :
      (rounds fuel : ℕ) (timeout_millis result : ℤ) (l : Looper)
      → IsCode result
      → poll_once_loop (suc rounds) fuel sys timeout_millis result l
        ≡ poll_once_loop 1 fuel sys timeout_millis result l
  unfolding poll_once_loop
  last_round rounds fuel timeout_millis result l c =
      let nonzero : eqb_ℤ result (pos 0) ≡ false = ground arith in
      elim (Option-cases (scan (drop l.response_index l.responses) l.response_index).0) [
        | inl e ↦ rw (poll_once_loop, e, nonzero) refl
        | inr (r, e) ↦ rw (poll_once_loop, e) refl
      ]

  -- `pollOnce` polls at most once: whatever the rounds it may go on for beyond two, the outcome is
  -- that of two rounds, since no poll gives the 0 that would start another.
  pub poll_once_lem :
      (rounds fuel : ℕ) (timeout_millis : ℤ) (l : Looper)
      → poll_once_loop (suc (suc rounds)) fuel sys timeout_millis (pos 0) l
        ≡ poll_once fuel sys timeout_millis l
  unfolding poll_once poll_once_loop
  poll_once_lem rounds fuel timeout_millis l =
      elim (Option-cases (scan (drop l.response_index l.responses) l.response_index).0) [
        | inr (r, e) ↦ rw (poll_once_loop, e) refl
        | inl e ↦
            rw (poll_once_loop, e)
              (bind-same (poll_inner fuel sys timeout_millis) _ _ scanned
                (poll_inner-IsCode fuel timeout_millis scanned)
                (λ result l c. last_round rounds fuel timeout_millis result l c))
      ]
    where
      scanned : Looper
      scanned = record l {
        response_index = (scan (drop l.response_index l.responses) l.response_index).1;
      }
