-- ===== src/Looper/Events.antt =====
-- The event loop in `pollInner` of libutils/Looper.cpp, and the responses that `pollOnce` delivers.
use native.Mathlib.Nat.{add-zero}
use mathlib.Core.List.{append-nil, append_assoc}
use android_native_mac_ports.Base.{
  ℕ, ◌+◌, ◌≡◌, refl, sym, subst, ap, ◌∙◌, inl, inr, Option, none, some, List, [], ◌∷◌, ◌++◌, arith,
  ◌==◌, Bool-cases, Option-cases, find, if◌then◌else◌, nat_key, length, All,
}
use android_native_mac_ports.Base.Int.{pos, leb_ℤ, ◌<ℤ◌, ◌≤ℤ◌}
use android_native_mac_ports.Looper.State.{
  Request, Response, Event, Filter, evfilt_read, evfilt_write, Looper, reads_wake, log, ok,
  wake_event_fd_seq,
}
use android_native_mac_ports.Looper.Poll.{handle_events, event_bits, scan}

-- The response to an event, if a request has its number. The number 1 is the wake event's.
abbrev pub answer : List (ℕ × Request) → Event → List Response
answer requests e = if e.udata == wake_event_fd_seq then [] else elim (find e.udata requests) [
  | none ↦ []
  | some r ↦ record { seq = e.udata; events = event_bits e; request = r } ∷ []
]

abbrev pub answers : List (ℕ × Request) → List Event → List Response
answers requests [] = []
answers requests (e ∷ es) = answer requests e ++ answers requests es

-- The same looper, but for the answers added to its responses and for what it asked of the system.
pub record Answered (requests : List (ℕ × Request)) (new : List Response) (l l' : Looper)
    : Type 0 where
  pub responses_ : l'.responses ≡ l.responses ++ new
  pub requests_ : l'.requests ≡ l.requests
  pub numbers : l'.sequence_number_by_fd ≡ l.sequence_number_by_fd
  pub messages : l'.message_envelopes ≡ l.message_envelopes

module _ (e : Event) (es : List Event) (l : Looper) where
  abbrev Step : Type 0
  Step =
      (l' : Looper) × (handle_events (e ∷ es) l ≡ handle_events es l')
      × Answered l.requests (answer l.requests e) l l'

  step : Step
  unfolding handle_events
  step = elim (Bool-cases (e.udata == wake_event_fd_seq)) [
    | inl woken ↦ (
      (elim e.filter [ evfilt_read ↦ log reads_wake l | evfilt_write ↦ l ]),
      rw (handle_events, woken) refl,
      rw woken (nothing_new e.filter),
    )
    | inr plain ↦ elim (Option-cases (find e.udata l.requests)) [
      | inl gone ↦
          (l, rw (handle_events, plain, gone) refl, rw (plain, gone) (nothing_new evfilt_write))
      | inr (r, at) ↦ (
        record l {
          responses =
              l.responses ++ record { seq = e.udata; events = event_bits e; request = r } ∷ [];
        },
        rw (handle_events, plain, at) refl,
        rw (plain, at)
            (record { responses_ = refl; requests_ = refl; numbers = refl; messages = refl }),
      )
    ]
  ]
    where
      nothing_new :
          (f : Filter)
          → Answered l.requests [] l (elim f [ evfilt_read ↦ log reads_wake l | evfilt_write ↦ l ])
      nothing_new evfilt_read = record {
        responses_ = sym (append-nil l.responses);
        requests_ = refl;
        numbers = refl;
        messages = refl;
      }
      nothing_new evfilt_write = record {
        responses_ = sym (append-nil l.responses);
        requests_ = refl;
        numbers = refl;
        messages = refl;
      }

-- The loop over the events always ends. Behind the responses that were there it puts one for each
-- event whose number a request has, in their order, and it changes no request, no number and no
-- message.
pub handle_events-answers :
    (es : List Event) (l : Looper)
    → (l' : Looper) × (handle_events es l ≡ ok tt l')
      × Answered l.requests (answers l.requests es) l l'
unfolding handle_events
handle_events-answers [] l = (
  l,
  refl,
  record {
    responses_ = sym (append-nil l.responses);
    requests_ = refl;
    numbers = refl;
    messages = refl;
  },
)
handle_events-answers (e ∷ es) l =
    let (l₁, first, a) = step e es l in
    let (l₂, run, b) = handle_events-answers es l₁ in
    (
      l₂,
      first ∙ run,
      record {
        responses_ =
            b.responses_
            ∙ ap (λ (q : List (ℕ × Request)). l₁.responses ++ answers q es) a.requests_
            ∙ ap (λ (rs : List Response). rs ++ answers l.requests es) a.responses_
            ∙ append_assoc l.responses (answer l.requests e) (answers l.requests es);
        requests_ = b.requests_ ∙ a.requests_;
        numbers = b.numbers ∙ a.numbers;
        messages = b.messages ∙ a.messages;
      },
    )

-- Where the first response with an identifier stands, from the index `i` on.
pub data FirstIdent (rs : List Response) (i : ℕ) : Option Response × ℕ → Type 0 where
  no_ident : All (λ r. r.request.ident <ℤ pos 0) rs → FirstIdent rs i (none, i + length rs)
  ident_at :
      (before after : List Response) (r : Response)
      → rs ≡ before ++ r ∷ after
      → All (λ x. x.request.ident <ℤ pos 0) before
      → pos 0 ≤ℤ r.request.ident
      → FirstIdent rs i (some r, i + length before + 1)

module _ (r : Response) (rs : List Response) (i : ℕ) (none_at : r.request.ident <ℤ pos 0) where
  FirstIdent-skip : (p : Option Response × ℕ) → FirstIdent rs (i + 1) p → FirstIdent (r ∷ rs) i p
  FirstIdent-skip p (no_ident all) =
      subst (λ n. FirstIdent (r ∷ rs) i (none, n)) (omega arith) (no_ident (none_at, all))
  FirstIdent-skip p (ident_at before after q split all has) =
      subst (λ n. FirstIdent (r ∷ rs) i (some q, n)) (omega arith)
        (ident_at (r ∷ before) after q (ap (◌∷◌ r) split) (none_at, all) has)

-- The scan of the responses gives the first whose identifier is not negative, with the index behind
-- it; where there is none, it goes through them all.
pub scan-FirstIdent : (rs : List Response) (i : ℕ) → FirstIdent rs i (scan rs i)
unfolding scan
scan-FirstIdent [] i = subst (λ n. FirstIdent [] i (none, n)) (add-zero i) (no_ident tt)
scan-FirstIdent (r ∷ rs) i = elim (Bool-cases (leb_ℤ (pos 0) r.request.ident)) [
  | inl has ↦ rw has (
      subst (λ n. FirstIdent (r ∷ rs) i (some r, n)) (omega arith)
        (ident_at [] rs r refl tt (ground arith)))
  | inr not_r ↦
      rw not_r
        (FirstIdent-skip r rs i (ground arith) (scan rs (i + 1)) (scan-FirstIdent rs (i + 1)))
]
