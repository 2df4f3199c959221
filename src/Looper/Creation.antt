-- ===== src/Looper/Creation.antt =====
-- The constructor of `Looper` and the looper of a thread (libutils/Looper.cpp), with the queue that
-- they set up.
use android_native_mac_ports.Base.{
  ℕ, ◌+◌, ◌≡◌, refl, sym, ap, ◌∙◌, Bool, false, Option, none, some, Option-cases, inl, inr, List,
  [], ◌∷◌, ◌++◌, arith, find, nat_key,
}
use android_native_mac_ports.Base.Int.{ℤ, pos, int_key}
use android_native_mac_ports.Looper.State.{
  Request, Change, Errno, ev_add, evfilt_read, SystemCall, kqueues, kevents, Looper, System, Run,
  ok, abort, out_of_fuel, M, ◌>>◌, wake_event_fd_seq, llong_max, log,
}
use android_native_mac_ports.Looper.Requests.{
  create_kqueue_event, request_events, add_each, add_requests, rebuild, get_fd_state_debug,
}
use android_native_mac_ports.Looper.Adding.{IsConsistent}

-- The members as the constructor sets them.
abbrev pub initial : Bool → ℕ → Looper
initial allow_non_callbacks wake_event_fd = record {
  allow_non_callbacks = allow_non_callbacks;
  message_envelopes = [];
  sending_message = false;
  polling = false;
  wake_event_fd = wake_event_fd;
  kqueue_fd = 0;
  rebuild_required = false;
  requests = [];
  sequence_number_by_fd = [];
  next_request_seq = wake_event_fd_seq + 1;
  responses = [];
  response_index = 0;
  next_message_uptime = llong_max;
  system_calls = [];
  clock_reads = 0;
}

-- `Looper::Looper`, with what `eventfd` gives: `none` is a failure.
unfoldable pub new_looper : System → Option ℕ → Bool → Run (Unit {0})
unfolding rebuild
new_looper sys none allow_non_callbacks = abort
new_looper sys (some fd) allow_non_callbacks = rebuild sys (initial allow_non_callbacks fd)

-- `prepare`, on the looper that the thread has, if any.
unfoldable pub prepare : System → Option ℕ → Bool → Option Looper → Run Looper
unfolding new_looper
prepare sys wake_event_fd allow_non_callbacks (some l) = ok l l
prepare sys wake_event_fd allow_non_callbacks none =
    elim (new_looper sys wake_event_fd allow_non_callbacks) [
      | ok _ l ↦ ok l l
      | abort ↦ abort
      | out_of_fuel ↦ out_of_fuel
    ]

-- One call of the kernel for each change, in order.
abbrev pub each_asked : ℕ → List Change → List SystemCall → List SystemCall
each_asked k [] calls = calls
each_asked k (c ∷ cs) calls = each_asked k cs (kevents k (c ∷ []) ∷ calls)

abbrev pub all_events : List (ℕ × Request) → List Change
all_events [] = []
all_events ((seq, r) ∷ rs) = request_events seq r ++ all_events rs

abbrev pub wake_event : ℕ → Change
wake_event fd = create_kqueue_event (pos fd) evfilt_read wake_event_fd_seq

then_runs : (m k : M (Unit {0})) (l l' : Looper) → m l ≡ ok tt l' → (m >> k) l ≡ k l'
then_runs m k l l' e =
    ap
      (λ (run : Run (Unit {0})). elim run as (λ _. Run (Unit {0})) [
        | ok _ x ↦ k x
        | abort ↦ abort
        | out_of_fuel ↦ out_of_fuel
      ])
      e

module _ (sys : System) where
  each_asked-append :
      (k : ℕ) (cs ds : List Change) (calls : List SystemCall)
      → each_asked k (cs ++ ds) calls ≡ each_asked k ds (each_asked k cs calls)
  each_asked-append k [] ds calls = refl
  each_asked-append k (c ∷ cs) ds calls = each_asked-append k cs ds (kevents k (c ∷ []) ∷ calls)

  add_each-asked :
      (cs : List Change) (l : Looper)
      → add_each sys cs l
        ≡ ok tt (record l { system_calls = each_asked l.kqueue_fd cs l.system_calls })
  unfolding add_each
  add_each-asked [] l = refl
  add_each-asked (c ∷ cs) l = add_each-asked cs (log (kevents l.kqueue_fd (c ∷ [])) l)

  add_requests-asked :
      (rs : List (ℕ × Request)) (l : Looper)
      → add_requests sys rs l
        ≡ ok tt (record l { system_calls = each_asked l.kqueue_fd (all_events rs) l.system_calls })
  unfolding add_requests
  add_requests-asked [] l = refl
  add_requests-asked ((seq, r) ∷ rs) l =
      let asked = each_asked l.kqueue_fd (request_events seq r) l.system_calls in
      then_runs (add_each sys (request_events seq r)) (add_requests sys rs) l
        (record l { system_calls = asked }) (add_each-asked (request_events seq r) l)
      ∙ add_requests-asked rs (record l { system_calls = asked })
      ∙ ap (λ (calls : List SystemCall). ok tt (record l { system_calls = calls }))
          (sym
            (each_asked-append l.kqueue_fd (request_events seq r) (all_events rs) l.system_calls))

  -- Where the kernel gives a queue `k` and takes the wake event, `rebuildEpollLocked` returns. It
  -- asks the new queue, one change at a time, for the wake event and for every filter of every
  -- request, whatever the answers, and changes nothing else.
  pub rebuild-asked :
      (k : ℕ) (l : Looper)
      → sys.kqueue l.system_calls ≡ some k
      → sys.kevent (kqueues ∷ l.system_calls) k (wake_event l.wake_event_fd ∷ []) ≡ none
      → rebuild sys l
        ≡ ok tt (record l {
          kqueue_fd = k;
          system_calls =
              each_asked k
                (wake_event l.wake_event_fd ∷ all_events l.requests)
                (kqueues ∷ l.system_calls);
        })
  unfolding rebuild
  rebuild-asked k l queue taken =
      rw (rebuild, queue, taken)
        (add_requests-asked l.requests (
          log (kevents k (wake_event l.wake_event_fd ∷ []))
            (log kqueues (record l { kqueue_fd = k }))))

-- The registration of the wake event.
abbrev pub wake_registration : ℕ → Change
wake_registration fd = record { ident = pos fd; filter = evfilt_read; action = ev_add; udata = 1 }

-- The looper as it is made: with the given descriptor for waking and the given queue, which was asked for
-- and then told of that descriptor; with no message, no registered descriptor and no response.
pub record Made (allow : Bool) (fd k : ℕ) (l : Looper) : Type 0 where
  pub consistent : IsConsistent l
  pub none_registered : (x : ℤ) → get_fd_state_debug x l ≡ none
  pub first_number : l.next_request_seq ≡ 2
  pub queue : l.kqueue_fd ≡ k
  pub waker : l.wake_event_fd ≡ fd
  pub allows : l.allow_non_callbacks ≡ allow
  pub asked : l.system_calls ≡ kevents k (wake_registration fd ∷ []) ∷ kqueues ∷ []
  pub no_message : (l.message_envelopes ≡ []) × (l.next_message_uptime ≡ llong_max)
  pub no_response : (l.responses ≡ []) × (l.response_index ≡ 0)
  pub idle_marks : (l.sending_message ≡ false) × (l.polling ≡ false) × (l.rebuild_required ≡ false)

-- What the constructor does, by what `eventfd` gives and what the kernel answers.
pub data Creation (sys : System) (event_fd : Option ℕ) (allow : Bool) (run : Run (Unit {0}))
    : Type 0 where
  no_waker : event_fd ≡ none → run ≡ abort → Creation sys event_fd allow run
  no_queue :
      (fd : ℕ)
      → event_fd ≡ some fd
      → sys.kqueue [] ≡ none
      → run ≡ abort
      → Creation sys event_fd allow run
  waker_refused :
      (fd k : ℕ) (e : Errno)
      → event_fd ≡ some fd
      → sys.kqueue [] ≡ some k
      → sys.kevent (kqueues ∷ []) k (wake_registration fd ∷ []) ≡ some e
      → run ≡ abort
      → Creation sys event_fd allow run
  made :
      (fd k : ℕ) (l : Looper)
      → event_fd ≡ some fd
      → sys.kqueue [] ≡ some k
      → sys.kevent (kqueues ∷ []) k (wake_registration fd ∷ []) ≡ none
      → run ≡ ok tt l
      → Made allow fd k l
      → Creation sys event_fd allow run

-- The constructor makes a looper exactly where `eventfd` gives a descriptor and the kernel gives a queue
-- and takes the read filter of the descriptor for it; it aborts where one of these fails. The looper has
-- that descriptor and that queue, of which nothing else was asked. Its registrations are consistent and
-- none, the first number is 2, so that it is not that of the wake event, and it has no message, no
-- response and no work to do.
pub new_looper-Creation :
    (sys : System) (event_fd : Option ℕ) (allow : Bool)
    → Creation sys event_fd allow (new_looper sys event_fd allow)
unfolding new_looper get_fd_state_debug find create_kqueue_event
new_looper-Creation sys none allow = no_waker refl refl
new_looper-Creation sys (some fd) allow = elim (Option-cases (sys.kqueue [])) [
  | inl out ↦ no_queue fd refl out (rw (rebuild, out) refl)
  | inr (k, queue) ↦ elim (Option-cases (sys.kevent (kqueues ∷ []) k (wake_registration fd ∷ []))) [
    | inr (e, refusal) ↦ waker_refused fd k e refl queue refusal (rw (rebuild, queue, refusal) refl)
    | inl taken ↦
        made fd k
          (record (initial allow fd) {
            kqueue_fd = k;
            system_calls = kevents k (wake_registration fd ∷ []) ∷ kqueues ∷ [];
          })
          refl queue taken (rebuild-asked sys k (initial allow fd) queue taken)
          (record {
            consistent = record {
              leads = λ x seq e. absurd (ground arith);
              owned = λ seq r e. absurd (ground arith);
              taken = λ seq r e. absurd (ground arith);
              callable = λ seq r e. absurd (ground arith);
              above = omega arith;
            };
            none_registered = λ x. refl;
            first_number = refl;
            queue = refl;
            waker = refl;
            allows = refl;
            asked = refl;
            no_message = (refl, refl);
            no_response = (refl, refl);
            idle_marks = (refl, refl, refl);
          })
  ]
]
