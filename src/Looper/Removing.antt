-- ===== src/Looper/Removing.antt =====
-- `removeFd` of libutils/Looper.cpp, as compiled for kqueue.
use android_native_mac_ports.Base.{
  ℕ, ◌≡◌, refl, sym, subst, ◌∙◌, ◌≢◌, ◌⊎◌, inl, inr, true, false, Option, none, some, List, arith,
  ◌∷◌, [], if◌then◌else◌, Bool-cases, Option-cases, find, erase, nat_key, find-erase,
}
use android_native_mac_ports.Base.Int.{ℤ, pos, negsuc, eqb_ℤ, eqb_ℤ_iff, int_key}
use android_native_mac_ports.Looper.State.{
  Request, Change, ev_delete, evfilt_read, evfilt_write, Looper, System, SystemCall, writes_wake,
  wake_failed, Errno, enoent, ebadf, eintr, other, Run, ok, kevents, log, wake,
}
use android_native_mac_ports.Looper.Requests.{
  remove_fd, remove_sequence_number, removed, schedule_rebuild, create_kqueue_events_for_delete,
  get_fd_state_debug,
}
use android_native_mac_ports.Looper.Registry.{Registry, Registry-erase}
use android_native_mac_ports.Looper.Adding.{IsConsistent}

-- The registrations, and the next number, are the same.
pub record SameRegistry (l l' : Looper) : Type 0 where
  pub requests_ : l'.requests ≡ l.requests
  pub numbers : l'.sequence_number_by_fd ≡ l.sequence_number_by_fd
  pub next : l'.next_request_seq ≡ l.next_request_seq

module _ (l l' : Looper) (same : SameRegistry l l') where
  pub SameRegistry-IsConsistent : IsConsistent l → IsConsistent l'
  SameRegistry-IsConsistent g =
      subst (Registry l'.requests l'.sequence_number_by_fd) (sym same.next) (
        subst (λ seqs. Registry l'.requests seqs l.next_request_seq) (sym same.numbers)
          (subst (λ rs. Registry rs l.sequence_number_by_fd l.next_request_seq) (sym same.requests_)
            g))

  pub SameRegistry-state : (fd : ℤ) → get_fd_state_debug fd l' ≡ get_fd_state_debug fd l
  unfolding get_fd_state_debug
  SameRegistry-state fd = rw (same.requests_, same.numbers) refl

-- The wake signal can always be written, or its buffer is full.
abbrev pub CanWake : System → Type 0
CanWake sys = (h : List SystemCall) → sys.write_wake h ≢ wake_failed

-- The changes by which a removal asks the kernel: the deletion of both filters of the queue's own
-- descriptor.
abbrev pub deletions : ℕ → ℕ → List Change
deletions kqueue_fd seq =
    record { ident = pos kqueue_fd; filter = evfilt_read; action = ev_delete; udata = seq }
    ∷ record { ident = pos kqueue_fd; filter = evfilt_write; action = ev_delete; udata = seq }
    ∷ []

-- The answer of a removal whose deletions the kernel refuses.
abbrev pub answer_to : Errno → ℤ
answer_to enoent = pos 1
answer_to ebadf = pos 1
answer_to eintr = negsuc 0
answer_to other = negsuc 0

-- What follows the kernel's answer: nothing where it did as asked; else the queue is to be built anew,
-- and the looper is woken for it, unless it was to be built anew already.
abbrev pub Answered : Option Errno → Looper → ℤ → Looper → Type 0
Answered none l res l' =
    (res ≡ pos 1) × (l'.rebuild_required ≡ l.rebuild_required) × (l'.system_calls ≡ l.system_calls)
Answered (some e) l res l' =
    (res ≡ answer_to e)
    × (l'.rebuild_required ≡ true)
    × (l'.system_calls
        ≡ (if l.rebuild_required then l.system_calls else writes_wake ∷ l.system_calls))

-- What a removal gives for a descriptor: 0 and no effect where it is not registered; else it is
-- registered no more, the others as before, and the answer is by that of the kernel.
abbrev pub Removed : System → ℤ → Looper → ℤ → Looper → Type 0
Removed sys fd l res l' =
    ((res ≡ pos 0) × (get_fd_state_debug fd l ≡ none) × (l' ≡ l))
    ⊎ ((seq : ℕ) × (find fd l.sequence_number_by_fd ≡ some seq)
        × ((r : Request) × (get_fd_state_debug fd l ≡ some r))
        × (get_fd_state_debug fd l' ≡ none)
        × ((fd' : ℤ) → fd' ≢ fd → get_fd_state_debug fd' l' ≡ get_fd_state_debug fd' l)
        × Answered (sys.kevent l.system_calls l.kqueue_fd (deletions l.kqueue_fd seq))
            (log (kevents l.kqueue_fd (deletions l.kqueue_fd seq)) l) res l')

module _ (sys : System) (can : CanWake sys) where
  wake-log : (l : Looper) → wake sys l ≡ ok tt (log writes_wake l)
  unfolding wake
  wake-log l = ground (arith, can l.system_calls)

  schedule_rebuild_lem :
      (l : Looper)
      → (l' : Looper) × (schedule_rebuild sys l ≡ ok tt l')
        × SameRegistry l l'
        × (l'.rebuild_required ≡ true)
        × (l'.system_calls
            ≡ (if l.rebuild_required then l.system_calls else writes_wake ∷ l.system_calls))
  unfolding schedule_rebuild
  schedule_rebuild_lem l = elim (Bool-cases l.rebuild_required) [
    | inl already ↦ (
      l,
      ground arith,
      record { requests_ = refl; numbers = refl; next = refl },
      already,
      rw already refl,
    )
    | inr first ↦ (
      log writes_wake (record l { rebuild_required = true }),
      rw first (wake-log (record l { rebuild_required = true })),
      record { requests_ = refl; numbers = refl; next = refl },
      refl,
      rw first refl,
    )
  ]

  abbrev After : Option Errno → Looper → Type 0
  After failed l =
      (res : ℤ) × (l' : Looper) × (removed sys failed l ≡ ok res l')
      × SameRegistry l l'
      × Answered failed l res l'

  removed-After : (failed : Option Errno) (l : Looper) → After failed l
  removed-After none l =
      (pos 1, l, refl, record { requests_ = refl; numbers = refl; next = refl }, (refl, refl, refl))
  removed-After (some e) l =
      let (l', run, same, due, calls) = schedule_rebuild_lem l in
      elim e as (λ x. After (some x) l) [
        | enoent ↦ (pos 1, l', ground (arith, run), same, (refl, due, calls))
        | ebadf ↦ (pos 1, l', ground (arith, run), same, (refl, due, calls))
        | eintr ↦ (negsuc 0, l', ground (arith, run), same, (refl, due, calls))
        | other ↦ (negsuc 0, l', ground (arith, run), same, (refl, due, calls))
      ]

  module _ (l : Looper) (g : IsConsistent l) (seq : ℕ) (r : Request)
      (at : find seq l.requests ≡ some r) where
    abbrev erased : Looper
    erased = record l {
      requests = erase seq l.requests;
      sequence_number_by_fd = erase r.fd l.sequence_number_by_fd;
    }

    erased-IsConsistent : IsConsistent erased
    erased-IsConsistent =
        Registry-erase l.requests l.sequence_number_by_fd l.next_request_seq g seq r at

    erased-gone : get_fd_state_debug r.fd erased ≡ none
    unfolding get_fd_state_debug
    erased-gone = ground (arith, find-erase r.fd r.fd l.sequence_number_by_fd, eqb_ℤ_iff r.fd r.fd)

    erased-others : (fd : ℤ) → fd ≢ r.fd → get_fd_state_debug fd erased ≡ get_fd_state_debug fd l
    unfolding get_fd_state_debug
    erased-others fd differs =
        let not_r : eqb_ℤ r.fd fd ≡ false = ground (arith, eqb_ℤ_iff r.fd fd) in
        elim (Option-cases (find fd l.sequence_number_by_fd)) [
          | inl e ↦ ground (arith, find-erase r.fd fd l.sequence_number_by_fd)
          | inr (s, e) ↦
              let (q, found, own) = g.leads fd s e in
              let kept : seq ≢ s = ground (arith, g.leads fd s e) in
              ground
                (arith, find-erase r.fd fd l.sequence_number_by_fd, find-erase seq s l.requests)
        ]

  abbrev Ends : ℤ → Looper → Run ℤ → Type 0
  Ends fd l run =
      (res : ℤ) × (l' : Looper) × (run ≡ ok res l') × IsConsistent l' × Removed sys fd l res l'

  module _ (seq : ℕ) (r : Request) (l : Looper) (g : IsConsistent l)
      (at : find seq l.requests ≡ some r) where
    abbrev changes : List Change
    changes = deletions l.kqueue_fd seq

    -- The state after the request to the kernel.
    abbrev asked : Looper
    asked = log (kevents l.kqueue_fd changes) (erased l g seq r at)

    runs :
        remove_sequence_number sys seq l
        ≡ removed sys (sys.kevent l.system_calls l.kqueue_fd changes) asked
    unfolding remove_sequence_number create_kqueue_events_for_delete
    runs = rw (remove_sequence_number, at) refl

    registered : get_fd_state_debug r.fd l ≡ some r
    unfolding get_fd_state_debug
    registered = rw (get_fd_state_debug, g.owned seq r at) at

    -- What was erased has no part in the answer.
    answered :
        (failed : Option Errno) (res : ℤ) (l' : Looper)
        → Answered failed asked res l'
        → Answered failed (log (kevents l.kqueue_fd changes) l) res l'
    answered none res l' h = h
    answered (some e) res l' h = h

    remove_registered : Ends r.fd l (remove_sequence_number sys seq l)
    unfolding get_fd_state_debug
    remove_registered =
        let failed = sys.kevent l.system_calls l.kqueue_fd changes in
        let (res, l', run, same, after) = removed-After failed asked in
        (
          res,
          l',
          runs ∙ run,
          SameRegistry-IsConsistent asked l' same (erased-IsConsistent l g seq r at),
          inr (
            seq,
            g.owned seq r at,
            (r, registered),
            SameRegistry-state asked l' same r.fd ∙ erased-gone l g seq r at,
            λ fd' differs.
                SameRegistry-state asked l' same fd' ∙ erased-others l g seq r at fd' differs,
            answered failed res l' after,
          ),
        )

  -- On a consistent looper that can be woken, `removeFd` always returns, and keeps it consistent. It
  -- gives 0 and does nothing for a descriptor that is not registered. Else the descriptor is
  -- registered no more and the others are as before, and the kernel is asked once, to delete both
  -- filters of the queue's own descriptor, not of the one that is removed. Where it does so the answer
  -- is 1; where it fails, the answer is 1 for EBADF and ENOENT and -1 for any other error, the queue is to be
  -- built anew, and the looper is woken unless that was so already.
  pub remove_fd-Removed : (fd : ℤ) (l : Looper) → IsConsistent l → Ends fd l (remove_fd sys fd l)
  unfolding remove_fd get_fd_state_debug
  remove_fd-Removed fd l g = elim (Option-cases (find fd l.sequence_number_by_fd)) [
    | inl out ↦ (pos 0, l, ground arith, g, inl (refl, ground arith, refl))
    | inr (seq, numbered) ↦
        let (r, at, own) = g.leads fd seq numbered in
        subst (Ends fd l) (sym (rw (remove_fd, numbered) refl)) (
          subst (λ x. Ends x l (remove_sequence_number sys seq l)) own
            (remove_registered seq r l g at))
  ]
