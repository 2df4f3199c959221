-- ===== src/Looper/Poll.antt =====
-- `pollInner`, `pollOnce` and `pollAll` of libutils/Looper.cpp, as compiled for kqueue. Loops that
-- go on while handlers or callbacks give them work are bounded by fuel.
use android_native_mac_ports.Base.{
  ℕ, zero, suc, ◌+◌, ◌*◌, true, false, ◌&&◌, ◌||◌, not, Option, none, some, List, [], ◌∷◌, ◌++◌,
  ◌==◌, if◌then◌else◌, get_elem?, drop, find, nat_key,
}
use android_native_mac_ports.Base.Int.{ℤ, pos, pos_part, ◌+ℤ◌, ltb_ℤ, leb_ℤ, eqb_ℤ}
use android_native_mac_ports.Timers.Delay.{to_millisecond_timeout_delay}
use android_native_mac_ports.Looper.State.{
  Request, Response, evfilt_read, evfilt_write, Event, waits, reads_wake, System, enoent, ebadf,
  eintr, other, WaitReply, events_are, wait_failed, ok, abort, out_of_fuel, M, pure, ◌>>=◌, ◌>>◌,
  wake_event_fd_seq, poll_wake, poll_callback, poll_timeout, poll_error, llong_max, log,
  system_time, awoken,
}
use android_native_mac_ports.Looper.Requests.{rebuild, remove_sequence_number}

-- The timeout that is left once the next message is reckoned with.
unfoldable pub adjust : ℤ → ℤ → ℤ
adjust timeout_millis message_timeout_millis =
    if leb_ℤ (pos 0) message_timeout_millis
      && (ltb_ℤ timeout_millis (pos 0) || ltb_ℤ message_timeout_millis timeout_millis)
    then message_timeout_millis
    else timeout_millis

unfoldable pub adjust_timeout : System → ℤ → M ℤ
unfolding adjust
adjust_timeout sys timeout_millis l =
    if not (eqb_ℤ timeout_millis (pos 0)) && not (eqb_ℤ l.next_message_uptime llong_max)
    then (do
      now ← system_time sys
      pure (adjust timeout_millis (to_millisecond_timeout_delay now l.next_message_uptime)))
        l
    else ok timeout_millis l

-- The wait itself, with the flags that are set around it. Other threads run before it ends; it is for the
-- queue that the looper had when it began.
unfoldable pub idle : System → ℤ → M WaitReply
idle sys timeout_millis l =
    (sys.meanwhile >>= λ _ l'.
    ok (sys.wait l'.system_calls l.kqueue_fd timeout_millis) (record l' { polling = false }))
      (log (waits l.kqueue_fd timeout_millis)
        (record l { responses = []; response_index = 0; polling = true }))

-- The bits of `events` that an event sets: input 1, output 2, error 4, hang-up 8.
unfoldable pub event_bits : Event → ℕ
event_bits e =
    (elim e.filter [ evfilt_read ↦ 1 | evfilt_write ↦ 2 ])
    + (if e.ev_error then 4 else 0)
    + (if e.ev_eof then 8 else 0)

-- `for (int i = 0; i < eventCount; i++)`
unfoldable pub handle_events : List Event → M (Unit {0})
unfolding awoken event_bits
handle_events [] l = ok tt l
handle_events (e ∷ es) l =
    let response = λ (r : Request).
      (let x : Response = record { seq = e.udata; events = event_bits e; request = r } in x) in
    handle_events es (
      if e.udata == wake_event_fd_seq
      then (elim e.filter [ evfilt_read ↦ log reads_wake l | evfilt_write ↦ l ])
      else (elim (find e.udata l.requests) [
        | none ↦ l
        | some r ↦ record l { responses = l.responses ++ response r ∷ [] }
      ]))

-- The tests of `eventCount` and `errno`, and the events.
unfoldable pub by_event_count : WaitReply → M ℤ
unfolding handle_events
by_event_count (wait_failed eintr) = pure poll_wake
by_event_count (wait_failed enoent) = pure poll_error
by_event_count (wait_failed ebadf) = pure poll_error
by_event_count (wait_failed other) = pure poll_error
by_event_count (events_are []) = pure poll_timeout
by_event_count (events_are (e ∷ es)) = do handle_events (e ∷ es); pure poll_wake

-- From the end of the wait to `Done`: the result so far.
unfoldable pub handle_reply : System → WaitReply → M ℤ
unfolding by_event_count rebuild
handle_reply sys reply l =
    if l.rebuild_required
    then (do rebuild sys; pure poll_wake) (record l { rebuild_required = false })
    else by_event_count reply l

-- `while (mMessageEnvelopes.size() != 0)`
unfoldable pub dispatch : ℕ → System → ℤ → M ℤ
dispatch zero sys result l = out_of_fuel
dispatch (suc fuel) sys result l = elim l.message_envelopes [
  | [] ↦ ok result l
  | e ∷ rest ↦
      (let now = sys.clock l.clock_reads in
        let l' = record l { clock_reads = l.clock_reads + 1 } in
        if leb_ℤ e.uptime now
        then (sys.handle_message e.handler e.message >>= λ _ l''.
              dispatch fuel sys poll_callback (record l'' { sending_message = false }))
            (record l' { message_envelopes = rest; sending_message = true })
        else ok result (record l' { next_message_uptime = e.uptime }))
]

-- The callback of a response is dropped once it has run.
unfoldable pub clear_callback : ℕ → List Response → List Response
clear_callback i [] = []
clear_callback zero (r ∷ rs) = record r { request = record r.request { callback = none } } ∷ rs
clear_callback (suc i) (r ∷ rs) = r ∷ clear_callback i rs

-- What follows `handleEvent`: the request is removed where the callback returned 0.
unfoldable pub after_callback : System → ℕ → ℕ → ℤ → M (Unit {0})
unfolding remove_sequence_number clear_callback
after_callback sys i seq callback_result =
    (if eqb_ℤ callback_result (pos 0) then remove_sequence_number sys seq else pure (pos 1))
    >>= λ _ l. ok tt (record l { responses = clear_callback i l.responses })

-- `for (size_t i = 0; i < mResponses.size(); i++)`. A request for a callback has one.
unfoldable pub callbacks : ℕ → System → ℕ → ℤ → M ℤ
unfolding after_callback
callbacks zero sys i result l = out_of_fuel
callbacks (suc fuel) sys i result l = elim (get_elem? l.responses i) [
  | none ↦ ok result l
  | some r ↦
      if eqb_ℤ r.request.ident poll_callback
      then (elim r.request.callback [
        | none ↦ abort
        | some cb ↦
            (do
              done ← sys.handle_event cb r.request.fd r.events r.request.payload
              after_callback sys i r.seq done
              callbacks fuel sys (i + 1) poll_callback)
              l
      ])
      else callbacks fuel sys (i + 1) result l
]

unfoldable pub poll_inner : ℕ → System → ℤ → M ℤ
unfolding adjust_timeout idle handle_reply dispatch callbacks
poll_inner fuel sys timeout_millis = do
  timeout ← adjust_timeout sys timeout_millis
  reply ← idle sys timeout
  result ← handle_reply sys reply
  result ← (λ l. dispatch fuel sys result (record l { next_message_uptime = llong_max }))
  callbacks fuel sys 0 result

-- What `pollOnce` returns, with what it stores through its pointers.
pub record Polled : Type 0 where
  pub result : ℤ
  pub out_fd : ℤ
  pub out_events : ℕ
  pub out_data : ℕ

-- The responses from the index on, up to the first with an identifier, and the index behind it.
unfoldable pub scan : List Response → ℕ → Option Response × ℕ
scan [] i = (none, i)
scan (r ∷ rs) i = if leb_ℤ (pos 0) r.request.ident then (some r, i + 1) else scan rs (i + 1)

-- The `for (;;)` of `pollOnce`.
unfoldable pub poll_once_loop : ℕ → ℕ → System → ℤ → ℤ → M Polled
unfolding scan poll_inner
poll_once_loop zero fuel sys timeout_millis result l = out_of_fuel
poll_once_loop (suc rounds) fuel sys timeout_millis result l =
    let (found, index) = scan (drop l.response_index l.responses) l.response_index in
    let l' = record l { response_index = index } in
    elim found [
      | some r ↦
          ok
            (record {
              result = r.request.ident;
              out_fd = r.request.fd;
              out_events = r.events;
              out_data = r.request.payload;
            })
            l'
      | none ↦ elim (eqb_ℤ result (pos 0)) [
        | false ↦ ok (record { result = result; out_fd = pos 0; out_events = 0; out_data = 0 }) l'
        | true ↦
            (do
              result ← poll_inner fuel sys timeout_millis
              poll_once_loop rounds fuel sys timeout_millis result)
              l'
      ]
    ]

-- Two rounds are enough, since `pollInner` does not return 0.
unfoldable pub poll_once : ℕ → System → ℤ → M Polled
unfolding poll_once_loop
poll_once fuel sys timeout_millis = poll_once_loop 2 fuel sys timeout_millis (pos 0)

-- `do … while (result == POLL_CALLBACK)`
unfoldable pub poll_all_now : ℕ → ℕ → System → ℤ → M Polled
unfolding poll_once
poll_all_now zero fuel sys timeout_millis l = out_of_fuel
poll_all_now (suc rounds) fuel sys timeout_millis l =
    (poll_once fuel sys timeout_millis >>= λ p. elim (eqb_ℤ p.result poll_callback) [
      | true ↦ poll_all_now rounds fuel sys timeout_millis
      | false ↦ pure p
    ])
      l

-- The `for (;;)` of `pollAll`, up to the time `end_time`.
unfoldable pub poll_all_until : ℕ → ℕ → System → ℤ → ℤ → M Polled
unfolding poll_once
poll_all_until zero fuel sys end_time timeout_millis l = out_of_fuel
poll_all_until (suc rounds) fuel sys end_time timeout_millis l =
    (poll_once fuel sys timeout_millis >>= λ p. elim (eqb_ℤ p.result poll_callback) [
      | false ↦ pure p
      | true ↦ (do
        now ← system_time sys
        let left = to_millisecond_timeout_delay now end_time
        elim (eqb_ℤ left (pos 0)) [
          | true ↦ pure (record p { result = poll_timeout })
          | false ↦ poll_all_until rounds fuel sys end_time left
        ])
    ])
      l

unfoldable pub poll_all : ℕ → ℕ → System → ℤ → M Polled
unfolding poll_all_now poll_all_until ◌+ℤ◌
poll_all rounds fuel sys timeout_millis =
    if leb_ℤ timeout_millis (pos 0) then poll_all_now rounds fuel sys timeout_millis else (do
      now ← system_time sys
      poll_all_until rounds fuel sys (now +ℤ pos (pos_part timeout_millis * 1000000))
          timeout_millis)
