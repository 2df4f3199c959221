-- ===== src/Looper/Requests.antt =====
-- The registered descriptors of libutils/Looper.cpp, as compiled for kqueue.
use android_native_mac_ports.Base.{
  ℕ, ◌+◌, ◌%◌, ◌^◌, true, not, Option, none, some, List, [], ◌∷◌, ◌++◌, map, ◌==◌, if◌then◌else◌,
  find, erase, assign, emplace, nat_key,
}
use android_native_mac_ports.Base.Int.{ℤ, pos, negsuc, ltb_ℤ, eqb_ℤ, int_key}
use android_native_mac_ports.Looper.State.{
  Request, Filter, evfilt_read, evfilt_write, ev_add, ev_delete, Change, kqueues, kevents, Looper,
  System, Errno, enoent, ebadf, eintr, other, ok, abort, M, pure, ◌>>=◌, ◌>>◌, wake_event_fd_seq,
  poll_callback, event_input, event_output, log, kevent, wake,
}

-- `createKqueueEvent`
unfoldable pub create_kqueue_event : ℤ → Filter → ℕ → Change
create_kqueue_event fd filter seq = record {
  ident = fd;
  filter = filter;
  action = ev_add;
  udata = seq;
}

unfoldable pub create_kqueue_events : ℤ → List Filter → ℕ → List Change
create_kqueue_events fd filters seq =
    map (λ filter. record { ident = fd; filter = filter; action = ev_add; udata = seq }) filters

unfoldable pub create_kqueue_events_for_delete : ℤ → ℕ → List Change
create_kqueue_events_for_delete fd seq =
    record { ident = fd; filter = evfilt_read; action = ev_delete; udata = seq }
    ∷ record { ident = fd; filter = evfilt_write; action = ev_delete; udata = seq }
    ∷ []

unfoldable pub get_kqueue_filters : ℕ → List Filter
get_kqueue_filters events =
    (if event_input events then evfilt_read ∷ [] else [])
    ++ (if event_output events then evfilt_write ∷ [] else [])

abbrev pub request_events : ℕ → Request → List Change
request_events seq r = create_kqueue_events r.fd (get_kqueue_filters r.events) seq

-- `for (const auto& eventItem : eventItems) kevent(…, &eventItem, 1, …)`: errors are only logged.
unfoldable pub add_each : System → List Change → M (Unit {0})
add_each sys [] = pure tt
add_each sys (c ∷ cs) = do _ ← kevent sys (c ∷ []); add_each sys cs

unfoldable pub add_requests : System → List (ℕ × Request) → M (Unit {0})
unfolding add_each create_kqueue_events get_kqueue_filters
add_requests sys [] = pure tt
add_requests sys ((seq, r) ∷ rs) = do add_each sys (request_events seq r); add_requests sys rs

-- `rebuildEpollLocked`: it aborts where there is no queue, or the wake event cannot be added.
unfoldable pub rebuild : System → M (Unit {0})
unfolding add_requests create_kqueue_event
rebuild sys l = elim (sys.kqueue l.system_calls) [
  | none ↦ abort
  | some fd ↦
      (let wake_event = create_kqueue_event (pos l.wake_event_fd) evfilt_read wake_event_fd_seq in
        (do
          failed ← kevent sys (wake_event ∷ [])
          elim failed [ none ↦ add_requests sys l.requests | some _ ↦ (λ _. abort) ])
          (log kqueues (record l { kqueue_fd = fd })))
]

-- `scheduleEpollRebuildLocked`
unfoldable pub schedule_rebuild : System → M (Unit {0})
unfolding wake
schedule_rebuild sys l =
    if l.rebuild_required then ok tt l else wake sys (record l { rebuild_required = true })

abbrev pub next_seq : ℕ → ℕ
next_seq n = (n + 1) % 2 ^ 64

-- `if (mNextRequestSeq == WAKE_EVENT_FD_SEQ) mNextRequestSeq++; const … seq = mNextRequestSeq++;`
unfoldable pub seq_of : ℕ → ℕ
seq_of n = if n == wake_event_fd_seq then next_seq n else n

-- The part of `addFd` under the lock, with the number that the request gets. The number is taken
-- also where the kernel refuses.
unfoldable pub register : System → ℕ → Request → M ℤ
unfolding create_kqueue_events get_kqueue_filters
register sys seq request l =
    let changes = request_events seq request in
    let l' = log (kevents l.kqueue_fd changes) (record l { next_request_seq = next_seq seq }) in
    elim (sys.kevent l.system_calls l.kqueue_fd changes) [
      | some _ ↦ ok (negsuc 0) l'
      | none ↦ elim (find request.fd l.sequence_number_by_fd) [
        | none ↦ ok (pos 1) (record l' {
          requests = emplace seq request l.requests;
          sequence_number_by_fd = emplace request.fd seq l.sequence_number_by_fd;
        })
        | some old_seq ↦ ok (pos 1) (record l' {
          requests = emplace seq request (erase old_seq l.requests);
          sequence_number_by_fd = assign request.fd seq l.sequence_number_by_fd;
        })
      ]
    ]

-- `addFd`
unfoldable pub add_fd : System → ℤ → ℤ → ℕ → Option ℕ → ℕ → M ℤ
unfolding register seq_of
add_fd sys fd ident events callback payload l = elim callback [
  | none ↦
      if not l.allow_non_callbacks
      then ok (negsuc 0) l
      else if ltb_ℤ ident (pos 0)
      then ok (negsuc 0) l
      else register sys (seq_of l.next_request_seq)
          (record { fd = fd; ident = ident; events = events; callback = none; payload = payload }) l
  | some cb ↦
      register sys (seq_of l.next_request_seq)
        (record {
          fd = fd;
          ident = poll_callback;
          events = events;
          callback = some cb;
          payload = payload;
        })
        l
]

-- `getFdStateDebug`: `none` is false.
unfoldable pub get_fd_state_debug : ℤ → Looper → Option Request
get_fd_state_debug fd l = elim (find fd l.sequence_number_by_fd) [
  | none ↦ none
  | some seq ↦ find seq l.requests
]

-- What `removeSequenceNumberLocked` does with the kernel's answer.
abbrev pub removed : System → Option Errno → M ℤ
removed sys none = pure (pos 1)
removed sys (some ebadf) = do schedule_rebuild sys; pure (pos 1)
removed sys (some enoent) = do schedule_rebuild sys; pure (pos 1)
removed sys (some eintr) = do schedule_rebuild sys; pure (negsuc 0)
removed sys (some other) = do schedule_rebuild sys; pure (negsuc 0)

-- `removeSequenceNumberLocked`: the changes name the queue's own descriptor, as the source has it.
unfoldable pub remove_sequence_number : System → ℕ → M ℤ
unfolding create_kqueue_events_for_delete schedule_rebuild
remove_sequence_number sys seq l = elim (find seq l.requests) [
  | none ↦ ok (pos 0) l
  | some request ↦
      (let l' = record l {
        requests = erase seq l.requests;
        sequence_number_by_fd = erase request.fd l.sequence_number_by_fd;
      } in
        (do
          failed ← kevent sys (create_kqueue_events_for_delete (pos l.kqueue_fd) seq)
          removed sys failed)
          l')
]

-- `removeFd`
unfoldable pub remove_fd : System → ℤ → M ℤ
unfolding remove_sequence_number
remove_fd sys fd l = elim (find fd l.sequence_number_by_fd) [
  | none ↦ ok (pos 0) l
  | some seq ↦ remove_sequence_number sys seq l
]

-- `repoll`
unfoldable pub repoll : System → ℤ → M ℤ
unfolding create_kqueue_events get_kqueue_filters
repoll sys fd l = elim (find fd l.sequence_number_by_fd) [
  | none ↦ ok (pos 0) l
  | some seq ↦ elim (find seq l.requests) [
    | none ↦ ok (pos 0) l
    | some request ↦
        if eqb_ℤ fd request.fd
        then (do
          failed ← kevent sys (create_kqueue_events fd (get_kqueue_filters request.events) seq)
          pure (elim failed [ none ↦ pos 1 | some _ ↦ pos 0 ]))
            l
        else abort
  ]
]
