-- ===== src/Looper/Adding.antt =====
-- `addFd` of libutils/Looper.cpp, as compiled for kqueue.
use android_native_mac_ports.Base.{
  ℕ, ◌+◌, ◌-◌, ◌^◌, ◌<◌, ◌≡◌, refl, sym, ◌≢◌, ◌⊎◌, subst, inl, inr, true, false, Option, none, some,
  List, [], ◌∷◌, ◌++◌, ap, ◌∙◌, if◌then◌else◌, arith, Bool-cases, Option-cases, find, erase, assign,
  emplace, nat_key,
}
use android_native_mac_ports.Base.Int.{ℤ, pos, negsuc, ltb_ℤ, ◌<ℤ◌, ◌≤ℤ◌, int_key}
use android_native_mac_ports.Looper.State.{
  Request, Looper, System, Run, ok, poll_callback, kevents, log, Errno, Change, evfilt_read,
  evfilt_write, ev_add, event_input, event_output,
}
use android_native_mac_ports.Looper.Requests.{
  create_kqueue_events, get_kqueue_filters, request_events, register, add_fd, get_fd_state_debug,
  next_seq, seq_of,
}
use android_native_mac_ports.Looper.Registry.{
  Registry, IsCallable, Registry-skip, Put, Put-emplace, Put-replace,
}

abbrev pub IsConsistent : Looper → Type 0
IsConsistent l = Registry l.requests l.sequence_number_by_fd l.next_request_seq

-- The filters that the kernel is asked to add for a descriptor, under its sequence number.
abbrev pub wanted : ℤ → ℕ → ℕ → List Change
wanted fd events seq =
    (if event_input events
      then record { ident = fd; filter = evfilt_read; action = ev_add; udata = seq } ∷ []
      else [])
    ++ (if event_output events
        then record { ident = fd; filter = evfilt_write; action = ev_add; udata = seq } ∷ []
        else [])

pub wanted_lem :
    (fd : ℤ) (events seq : ℕ)
    → create_kqueue_events fd (get_kqueue_filters events) seq ≡ wanted fd events seq
unfolding create_kqueue_events get_kqueue_filters
wanted_lem fd events seq = ground arith

-- What a registration leaves: where the kernel takes the filters, 1, and the request is found by its
-- descriptor and no other descriptor is affected; where it does not, -1, and only the number is used up.
pub data Registered (sys : System) (r : Request) (l l' : Looper) (res : ℤ) : Type 0 where
  added :
      sys.kevent l.system_calls l.kqueue_fd (wanted r.fd r.events l.next_request_seq) ≡ none
      → res ≡ pos 1
      → get_fd_state_debug r.fd l' ≡ some r
      → ((fd : ℤ) → fd ≢ r.fd → get_fd_state_debug fd l' ≡ get_fd_state_debug fd l)
      → Registered sys r l l' res
  refused :
      (e : Errno)
      → sys.kevent l.system_calls l.kqueue_fd (wanted r.fd r.events l.next_request_seq) ≡ some e
      → res ≡ negsuc 0
      → l'.requests ≡ l.requests
      → l'.sequence_number_by_fd ≡ l.sequence_number_by_fd
      → Registered sys r l l' res

-- A run that returns, leaves a consistent looper, and has asked the kernel once, for the filters.
abbrev pub Outcome : System → Request → Looper → Run ℤ → Type 0
Outcome sys r l run =
    (res : ℤ) × (l' : Looper) × (run ≡ ok res l')
    × IsConsistent l'
    × (l'.next_request_seq ≡ l.next_request_seq + 1)
    × (l'.system_calls
        ≡ kevents l.kqueue_fd (wanted r.fd r.events l.next_request_seq) ∷ l.system_calls)
    × Registered sys r l l' res

module _ (sys : System) (r : Request) (l : Looper) (g : IsConsistent l)
    (small : l.next_request_seq < 2 ^ 64 - 1) where
  abbrev n : ℕ
  n = l.next_request_seq

  events_wanted : request_events n r ≡ wanted r.fd r.events n
  events_wanted = wanted_lem r.fd r.events n

  next : next_seq n ≡ n + 1
  next = omega arith

  pub seq_of_self : seq_of n ≡ n
  unfolding seq_of
  seq_of_self = ground (arith, g.above)

  -- The state with the number taken, and with its two maps.
  abbrev pub numbered : Looper
  numbered =
      log (kevents l.kqueue_fd (request_events n r)) (record l { next_request_seq = next_seq n })

  abbrev pub with_maps : List (ℕ × Request) → List (ℤ × ℕ) → Looper
  with_maps rs seqs = record numbered { requests = rs; sequence_number_by_fd = seqs }

  pub register-cases :
      ((e : Errno) × (sys.kevent l.system_calls l.kqueue_fd (request_events n r) ≡ some e)
        × (register sys n r l ≡ ok (negsuc 0) numbered))
      ⊎ ((sys.kevent l.system_calls l.kqueue_fd (request_events n r) ≡ none)
          × (find r.fd l.sequence_number_by_fd ≡ none)
          × (register sys n r l
              ≡ ok
                  (pos 1)
                  (with_maps (emplace n r l.requests) (emplace r.fd n l.sequence_number_by_fd))))
      ⊎ ((old : ℕ) × (sys.kevent l.system_calls l.kqueue_fd (request_events n r) ≡ none)
          × (find r.fd l.sequence_number_by_fd ≡ some old)
          × (register sys n r l
              ≡ ok (pos 1) (
                  with_maps
                    (emplace n r (erase old l.requests))
                    (assign r.fd n l.sequence_number_by_fd))))
  unfolding register
  register-cases =
      elim (Option-cases (sys.kevent l.system_calls l.kqueue_fd (request_events n r))) [
        | inr (e, refusal) ↦ inl (e, refusal, rw (refusal, register))
        | inl done ↦ elim (Option-cases (find r.fd l.sequence_number_by_fd)) [
          | inl out ↦ inr (inl (done, out, rw (done, register, out)))
          | inr (old, at) ↦ inr (inr (old, done, at, rw (done, register, at)))
        ]
      ]

  put-Registered :
      (rs : List (ℕ × Request)) (seqs : List (ℤ × ℕ))
      → Put l.requests rs l.sequence_number_by_fd seqs n r
      → sys.kevent l.system_calls l.kqueue_fd (request_events n r) ≡ none
      → register sys n r l ≡ ok (pos 1) (with_maps rs seqs)
      → Outcome sys r l (register sys n r l)
  unfolding get_fd_state_debug
  put-Registered rs seqs p done e = (
    pos 1,
    with_maps rs seqs,
    e,
    subst (Registry rs seqs) (sym next) p.good,
    next,
    ap (λ cs. kevents l.kqueue_fd cs ∷ l.system_calls) events_wanted,
    added (sym (ap (sys.kevent l.system_calls l.kqueue_fd) events_wanted) ∙ done) refl p.found
        p.others,
  )

  pub register-Registered : IsCallable r → Outcome sys r l (register sys n r l)
  register-Registered able = elim register-cases [
    | inl (err, refusal, e) ↦ (
      negsuc 0,
      numbered,
      e,
      subst (Registry l.requests l.sequence_number_by_fd) (sym next)
          (Registry-skip l.requests l.sequence_number_by_fd n g),
      next,
      ap (λ cs. kevents l.kqueue_fd cs ∷ l.system_calls) events_wanted,
      refused err (sym (ap (sys.kevent l.system_calls l.kqueue_fd) events_wanted) ∙ refusal) refl
          refl refl,
    )
    | inr (inl (done, out, e)) ↦
        put-Registered _ _ (Put-emplace l.requests l.sequence_number_by_fd n g r able out) done e
    | inr (inr (old, done, at, e)) ↦
        put-Registered _ _ (Put-replace l.requests l.sequence_number_by_fd n g r able old at) done e
  ]

-- The request that `addFd` registers.
abbrev pub request_for : ℤ → ℤ → ℕ → Option ℕ → ℕ → Request
request_for fd ident events callback payload = record {
  fd = fd;
  ident = (elim callback [ none ↦ ident | some _ ↦ poll_callback ]);
  events = events;
  callback = callback;
  payload = payload;
}

-- A request that the looper takes: one with a callback, or, where the looper takes others too, one
-- with an identifier that is not negative.
abbrev pub IsAccepted : Looper → ℤ → Option ℕ → Type 0
IsAccepted l ident callback =
    ((cb : ℕ) × (callback ≡ some cb)) ⊎ ((l.allow_non_callbacks ≡ true) × (pos 0 ≤ℤ ident))

-- What `addFd` gives: a registration of a request that the looper takes, and -1 without an effect for
-- any other.
abbrev pub Added : System → Looper → ℤ → Option ℕ → Request → Run ℤ → Type 0
Added sys l ident callback r run =
    (IsAccepted l ident callback × Outcome sys r l run)
    ⊎ ((callback ≡ none)
        × ((l.allow_non_callbacks ≡ false) ⊎ (ident <ℤ pos 0))
        × (run ≡ ok (negsuc 0) l))

-- On a consistent looper whose sequence numbers have not run out, `addFd` always returns. A request
-- without a callback, where the looper takes none such or the identifier is negative, is refused with
-- -1, and nothing is done. Any other is registered: the kernel is asked once, to add the read filter
-- for EVENT_INPUT and the write filter for EVENT_OUTPUT. Where it takes them, the answer is 1, and the
-- descriptor's request is the new one and the others are as before; where it does not, whatever the
-- error, the answer is -1, and the registrations are as before. The looper stays consistent, and the
-- sequence number is used up either way.
pub add_fd-Added :
    (sys : System) (fd ident : ℤ) (events : ℕ) (callback : Option ℕ) (payload : ℕ) (l : Looper)
    → IsConsistent l
    → l.next_request_seq < 2 ^ 64 - 1
    → Added sys l ident callback
        (request_for fd ident events callback payload)
        (add_fd sys fd ident events callback payload l)
unfolding add_fd
add_fd-Added sys fd ident events (some cb) payload l g small = inl (
  inl (cb, refl),
  rw (seq_of_self sys (request_for fd ident events (some cb) payload) l g small) (
      register-Registered sys (request_for fd ident events (some cb) payload) l g small
        (λ _. (cb, refl))),
)
add_fd-Added sys fd ident events none payload l g small = elim (Bool-cases l.allow_non_callbacks) [
  | inr never ↦ inr (refl, inl never, ground arith)
  | inl may ↦ elim (Bool-cases (ltb_ℤ ident (pos 0))) [
    | inl negative ↦ inr (refl, inr (ground arith), ground arith)
    | inr fine ↦ inl (
      inr (may, ground arith),
      subst (Outcome sys r l) (sym (runs may fine))
          (register-Registered sys r l g small (never_a_callback fine)),
    )
  ]
]
  where
    r : Request
    r = request_for fd ident events none payload

    never_a_callback : ltb_ℤ ident (pos 0) ≡ false → IsCallable r
    never_a_callback fine e = absurd (ground arith)

    runs :
        l.allow_non_callbacks ≡ true
        → ltb_ℤ ident (pos 0) ≡ false
        → add_fd sys fd ident events none payload l ≡ register sys l.next_request_seq r l
    runs may fine = rw (may, fine, seq_of_self sys r l g small) refl
