-- ===== src/Looper/Tests.antt =====
-- Runs of libutils/Looper.cpp, and its theorems at concrete states.
use android_native_mac_ports.Base.{
  ℕ, ◌≡◌, refl, sym, ap, ◌∙◌, subst, ◌≢◌, true, false, not, Option, none, some, [], ◌∷◌, arith,
  keep_if, ◌==◌, ◌&&◌, find, nat_key, erase, assign, emplace,
}
use android_native_mac_ports.Base.Int.{ℤ, pos, eqb_ℤ, int_key}
use android_native_mac_ports.Looper.State.{
  Message, MessageEnvelope, Request, Response, Event, evfilt_read, events_are, written, Looper,
  System, Run, ok, abort, out_of_fuel, kevents, kqueues, kqueues, poll_timeout, poll_callback,
}
use android_native_mac_ports.Looper.Messages.{
  send_message_at_time, remove_messages, remove_messages_what,
}
use android_native_mac_ports.Looper.Requests.{
  add_fd, register, remove_fd, repoll, get_fd_state_debug, request_events, create_kqueue_events,
  get_kqueue_filters, rebuild,
}
use android_native_mac_ports.Looper.Poll.{handle_events, dispatch, scan, poll_once, poll_once_loop}
use android_native_mac_ports.Looper.Queue.{Sent, send_message_at_time-Sent}
use android_native_mac_ports.Looper.Removal.{remove_messages-keep_if}
use android_native_mac_ports.Looper.Dispatch.{Quiet, Dispatched, dispatch-Dispatched}
use android_native_mac_ports.Looper.Adding.{IsConsistent, Added, request_for, add_fd-Added}
use android_native_mac_ports.Looper.Removing.{Removed, remove_fd-Removed}
use android_native_mac_ports.Looper.Repolling.{Repolled, repoll-Repolled}
use android_native_mac_ports.Looper.Creation.{
  each_asked, all_events, wake_event, new_looper, rebuild-asked, Creation, new_looper-Creation,
}
use android_native_mac_ports.Looper.Kqueue.{register-drops_old}
use android_native_mac_ports.Looper.Events.{
  Answered, answers, FirstIdent, handle_events-answers, scan-FirstIdent,
}
use android_native_mac_ports.Looper.PollResults.{poll_once_lem}

-- A system in which the clock counts its readings, nothing fails and no event comes.
abbrev calm : System
calm = record {
  kqueue = λ _. some 9;
  kevent = λ _ _ _. none;
  wait = λ _ _ _. events_are [];
  write_wake = λ _. written;
  clock = pos;
  handle_message = λ _ _ l. ok tt l;
  handle_event = λ _ _ _ _ l. ok (pos 1) l;
  meanwhile = λ l. ok tt l;
}

abbrev to_seven : Request
to_seven = record { fd = pos 7; ident = pos 5; events = 1; callback = none; payload = 0 }

abbrev message : Message
message = record { what = pos 3 }

-- A message for the handler 1.
abbrev at_time : ℕ → MessageEnvelope
at_time t = record { uptime = pos t; handler = 1; message = message }

-- Descriptor 7 is registered under the number 2; messages are due at 10 and 20.
abbrev looper : Looper
looper = record {
  allow_non_callbacks = true;
  message_envelopes = at_time 10 ∷ at_time 20 ∷ [];
  sending_message = false;
  polling = false;
  wake_event_fd = 3;
  kqueue_fd = 4;
  rebuild_required = false;
  requests = (2, to_seven) ∷ [];
  sequence_number_by_fd = (pos 7, 2) ∷ [];
  next_request_seq = 3;
  responses = [];
  response_index = 0;
  next_message_uptime = pos 10;
  system_calls = [];
  clock_reads = 15;
}

abbrev event : Event
event = record { udata = 2; filter = evfilt_read; ev_error = false; ev_eof = false }

abbrev response : Response
response = record { seq = 2; events = 1; request = to_seven }

only : (seq : ℕ) (r : Request) → find seq looper.requests ≡ some r → (seq ≡ 2) × (to_seven ≡ r)
unfolding find
only seq r e = (ground arith, ground arith)

looper-IsConsistent : IsConsistent looper
unfolding find
looper-IsConsistent = record {
  leads = λ fd seq e. (to_seven, ground arith, ground arith);
  owned = λ seq r e.
      let (two, same) = only seq r e in
      subst (λ (q : Request). find q.fd looper.sequence_number_by_fd ≡ some seq) same
        (ap (λ (n : ℕ). some n) (sym two));
  taken = λ seq r e. omega (arith, only seq r e);
  callable = λ seq r e at.
      let (two, same) = only seq r e in absurd (plain (ap (λ (q : Request). q.ident) same ∙ at));
  above = omega arith;
}
  where
    plain : to_seven.ident ≢ poll_callback
    plain e = absurd (ground arith)

-- Removing and then adding the descriptor, and the state it leaves.
abbrev after {ℓ} : {A : Type ℓ} → Run A → Option Looper
after (ok a l) = some l
after abort = none
after out_of_fuel = none

abbrev value {ℓ} : {A : Type ℓ} → Run A → Option A
value (ok a l) = some a
value abort = none
value out_of_fuel = none

runs : Unit {0}
unfolding send_message_at_time add_fd remove_fd repoll get_fd_state_debug poll_once dispatch
    handle_events find
runs = tt

-- With nothing to do, a poll ends by its timeout.
poll_quiet :
    value (poll_once 5 calm (pos 0) (record looper { message_envelopes = [] }))
    ≡ some (record { result = poll_timeout; out_fd = pos 0; out_events = 0; out_data = 0 })
unfolding runs
poll_quiet = refl

-- An event for the descriptor gives its identifier.
poll_ident :
    value (poll_once 5 (record calm { wait = λ _ _ _. events_are (event ∷ []) }) (pos 0) looper)
    ≡ some (record { result = pos 5; out_fd = pos 7; out_events = 1; out_data = 0 })
unfolding runs
poll_ident = refl

remove_twice : value (remove_fd calm (pos 8) looper) ≡ some (pos 0)
unfolding runs
remove_twice = refl

send_message_at_time-Sent_example :
    (l' : Looper) × (send_message_at_time calm (pos 10) 1 message looper ≡ ok tt l')
    × Sent calm (at_time 10) looper l'
send_message_at_time-Sent_example =
    send_message_at_time-Sent calm (pos 10) 1 message looper (λ e. absurd (ground arith))

remove_messages-keep_if_example :
    (remove_messages 1 looper ≡ record looper {
      message_envelopes = keep_if (λ e. not (e.handler == 1)) looper.message_envelopes;
    })
    × (remove_messages_what 1 (pos 3) looper ≡ record looper {
      message_envelopes =
          keep_if
            (λ e. not (e.handler == 1 && eqb_ℤ e.message.what (pos 3)))
            looper.message_envelopes;
    })
remove_messages-keep_if_example = remove_messages-keep_if 1 (pos 3) looper

calm-Quiet : Quiet calm
calm-Quiet = record {
  after = λ h m l. l;
  returns = λ h m l. refl;
  queue = λ h m l. refl;
  next = λ h m l. refl;
  clock = λ h m l. refl;
}

dispatch-Dispatched_example :
    (result' : ℤ) × (l' : Looper) × (dispatch 3 calm poll_timeout looper ≡ ok result' l')
    × Dispatched calm poll_timeout result' looper l'
dispatch-Dispatched_example =
    dispatch-Dispatched calm calm-Quiet 3 poll_timeout looper.message_envelopes looper refl
      (omega arith)

add_fd-Added_example :
    Added calm looper
      (pos 6)
      none
      (request_for (pos 7) (pos 6) 3 none 0)
      (add_fd calm (pos 7) (pos 6) 3 none 0 looper)
add_fd-Added_example =
    add_fd-Added calm (pos 7) (pos 6) 3 none 0 looper looper-IsConsistent (omega arith)

remove_fd-Removed_example :
    (res : ℤ) × (l' : Looper) × (remove_fd calm (pos 7) looper ≡ ok res l')
    × IsConsistent l'
    × Removed calm (pos 7) looper res l'
remove_fd-Removed_example =
    remove_fd-Removed calm (λ h e. absurd (ground arith)) (pos 7) looper looper-IsConsistent

repoll-Repolled_example : Repolled calm (pos 7) looper (repoll calm (pos 7) looper)
repoll-Repolled_example = repoll-Repolled calm (pos 7) looper looper-IsConsistent

-- The looper after descriptor 7 is added again.
abbrev again : Looper
again = record looper {
  requests = (3, to_seven) ∷ [];
  sequence_number_by_fd = (pos 7, 3) ∷ [];
  next_request_seq = 4;
  system_calls = kevents 4 (request_events 3 to_seven) ∷ [];
}

added_again : register calm 3 to_seven looper ≡ ok (pos 1) again
unfolding register find erase assign emplace create_kqueue_events get_kqueue_filters
added_again = refl

at_two : find (pos 7) looper.sequence_number_by_fd ≡ some 2
unfolding find
at_two = refl

register-drops_old_example : handle_events (event ∷ []) again ≡ ok tt again
register-drops_old_example =
    register-drops_old calm to_seven looper looper-IsConsistent (omega arith) 2 at_two again event
      added_again refl

handle_events-answers_example :
    (l' : Looper) × (handle_events (event ∷ event ∷ []) looper ≡ ok tt l')
    × Answered looper.requests (answers looper.requests (event ∷ event ∷ [])) looper l'
handle_events-answers_example = handle_events-answers (event ∷ event ∷ []) looper

scan-FirstIdent_example :
    FirstIdent (response ∷ response ∷ []) 1 (scan (response ∷ response ∷ []) 1)
scan-FirstIdent_example = scan-FirstIdent (response ∷ response ∷ []) 1

poll_once_lem_example :
    poll_once_loop 4 5 calm (pos 0) (pos 0) looper ≡ poll_once 5 calm (pos 0) looper
poll_once_lem_example = poll_once_lem calm 2 5 (pos 0) looper

rebuild-asked_example :
    rebuild calm looper
    ≡ ok tt (record looper {
      kqueue_fd = 9;
      system_calls = each_asked 9 (wake_event 3 ∷ all_events looper.requests) (kqueues ∷ []);
    })
rebuild-asked_example = rebuild-asked calm 9 looper refl refl

new_looper-Creation_example : Creation calm (some 3) true (new_looper calm (some 3) true)
new_looper-Creation_example = new_looper-Creation calm (some 3) true
