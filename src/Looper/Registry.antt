-- ===== src/Looper/Registry.antt =====
-- The two maps of registered descriptors of libutils/Looper.cpp: each descriptor has one request, and
-- each request the descriptor that leads to it.
use android_native_mac_ports.Base.{
  ℕ, ◌+◌, ◌<◌, ◌≡◌, sym, ap, ◌∙◌, ◌≢◌, ◌↔◌, ◌⊎◌, subst, inl, inr, Bool, true, false, Option, none,
  some, List, arith, ◌==◌, if◌then◌else◌, Bool-cases, Option-cases, find, erase, assign, emplace,
  nat_key, find-erase, find-assign, find-emplace,
}
use android_native_mac_ports.Base.Int.{ℤ, eqb_ℤ, eqb_ℤ_iff, int_key}
use android_native_mac_ports.Looper.State.{Request, poll_callback}

-- `n` is the next sequence number.
pub record Registry (rs : List (ℕ × Request)) (seqs : List (ℤ × ℕ)) (n : ℕ) : Type 0 where
  pub leads :
      (fd : ℤ) (seq : ℕ)
      → find fd seqs ≡ some seq
      → (r : Request) × (find seq rs ≡ some r) × (r.fd ≡ fd)
  pub owned : (seq : ℕ) (r : Request) → find seq rs ≡ some r → find r.fd seqs ≡ some seq
  pub taken : (seq : ℕ) (r : Request) → find seq rs ≡ some r → (1 < seq) × (seq < n)
  pub callable :
      (seq : ℕ) (r : Request)
      → find seq rs ≡ some r
      → r.ident ≡ poll_callback
      → (cb : ℕ) × (r.callback ≡ some cb)
  pub above : 1 < n

-- A request whose identifier asks for a callback has one.
abbrev pub IsCallable : Request → Type 0
IsCallable r = r.ident ≡ poll_callback → (cb : ℕ) × (r.callback ≡ some cb)

-- The request of a descriptor.
abbrev pub request_of : List (ℕ × Request) → List (ℤ × ℕ) → ℤ → Option Request
request_of rs seqs fd = elim (find fd seqs) [ none ↦ none | some seq ↦ find seq rs ]

-- Maps `rs'` and `seqs'` that differ from `rs` and `seqs` by the request `r` alone.
pub record Put (rs rs' : List (ℕ × Request)) (seqs seqs' : List (ℤ × ℕ)) (n : ℕ) (r : Request)
    : Type 0 where
  pub good : Registry rs' seqs' (n + 1)
  pub found : request_of rs' seqs' r.fd ≡ some r
  pub others : (fd : ℤ) → fd ≢ r.fd → request_of rs' seqs' fd ≡ request_of rs seqs fd

module _ (rs : List (ℕ × Request)) (seqs : List (ℤ × ℕ)) (n : ℕ) (g : Registry rs seqs n) where
  pub unused : find n rs ≡ none
  unused = elim (Option-cases (find n rs)) [
    | inl e ↦ e
    | inr (r, e) ↦ absurd (omega (arith, g.taken n r e))
  ]

  pub Registry-skip : Registry rs seqs (n + 1)
  Registry-skip = record {
    leads = g.leads;
    owned = g.owned;
    taken = λ seq r e. omega (arith, g.taken seq r e);
    callable = g.callable;
    above = omega (arith, g.above);
  }

  -- Maps in which `r` is the request number `n`, in place of those that `gone` holds of: the request
  -- with its descriptor, if there is one.
  module _ (r : Request) (able : IsCallable r) (gone : ℕ → Bool)
      (replaced : (seq : ℕ) (q : Request)
        → find seq rs ≡ some q
        → (gone seq ≡ true) ↔ (q.fd ≡ r.fd))
      (rs' : List (ℕ × Request)) (seqs' : List (ℤ × ℕ))
      (in_rs : (seq : ℕ)
        → find seq rs' ≡ (if n == seq then some r else if gone seq then none else find seq rs))
      (in_seqs : (fd : ℤ) → find fd seqs' ≡ (if eqb_ℤ r.fd fd then some n else find fd seqs)) where
    found_cases :
        (seq : ℕ) (q : Request)
        → find seq rs' ≡ some q
        → ((n ≡ seq) × (r ≡ q)) ⊎ ((n ≢ seq) × (gone seq ≡ false) × (find seq rs ≡ some q))
    found_cases seq q e = elim (Bool-cases (n == seq)) [
      | inl same ↦ inl (ground (arith, in_rs seq))
      | inr differs ↦ inr (ground (arith, in_rs seq))
    ]

    put-leads :
        (fd : ℤ) (seq : ℕ)
        → find fd seqs' ≡ some seq
        → (q : Request) × (find seq rs' ≡ some q) × (q.fd ≡ fd)
    put-leads fd seq e = elim (Bool-cases (eqb_ℤ r.fd fd)) [
      | inl same ↦
          let number : n ≡ seq = ground (arith, in_seqs fd) in
          (r, ground (arith, in_rs seq), (eqb_ℤ_iff r.fd fd).0 same)
      | inr differs ↦
          let old : find fd seqs ≡ some seq = rw differs at (sym (in_seqs fd) ∙ e) in
          let (q, at, own) = g.leads fd seq old in
          let kept : gone seq ≡ false = ground (arith, replaced seq q at) in
          (q, ground (arith, in_rs seq, g.taken seq q at), own)
    ]

    put-owned : (seq : ℕ) (q : Request) → find seq rs' ≡ some q → find q.fd seqs' ≡ some seq
    put-owned seq q e = elim (found_cases seq q e) [
      | inl (same, new) ↦
          subst (λ (x : Request). find x.fd seqs' ≡ some seq) new (ground (arith, in_seqs r.fd))
      | inr (differs, kept, at) ↦
          ground (arith, in_seqs q.fd, g.owned seq q at, replaced seq q at, eqb_ℤ_iff r.fd q.fd)
    ]

    put-found : request_of rs' seqs' r.fd ≡ some r
    put-found = ground (arith, in_seqs r.fd, in_rs n, eqb_ℤ_iff r.fd r.fd)

    put-others : (fd : ℤ) → fd ≢ r.fd → request_of rs' seqs' fd ≡ request_of rs seqs fd
    put-others fd differs =
        let not_r : eqb_ℤ r.fd fd ≡ false = ground (arith, eqb_ℤ_iff r.fd fd) in
        elim (Option-cases (find fd seqs)) [
          | inl e ↦ ground (arith, in_seqs fd)
          | inr (seq, e) ↦
              let (q, at, own) = g.leads fd seq e in
              let kept : gone seq ≡ false = ground (arith, replaced seq q at) in
              ground (arith, in_seqs fd, in_rs seq, g.taken seq q at)
        ]

    Registry-put : Registry rs' seqs' (n + 1)
    Registry-put = record {
      leads = put-leads;
      owned = put-owned;
      taken = λ seq q e. elim (found_cases seq q e) [
        | inl (same, new) ↦ omega (arith, g.above)
        | inr (differs, kept, at) ↦ omega (arith, g.taken seq q at)
      ];
      callable = λ seq q e. elim (found_cases seq q e) [
        | inl (same, new) ↦ subst IsCallable new able
        | inr (differs, kept, at) ↦ g.callable seq q at
      ];
      above = omega (arith, g.above);
    }

    put : Put rs rs' seqs seqs' n r
    put = record { good = Registry-put; found = put-found; others = put-others }

  module _ (r : Request) (able : IsCallable r) where
    pub Put-emplace : find r.fd seqs ≡ none → Put rs (emplace n r rs) seqs (emplace r.fd n seqs) n r
    Put-emplace out =
        put r able (λ _. false) (λ seq q e. (λ f. cc, λ same. no_owner seq q e same)) _ _
          (λ seq. find-emplace n seq r rs unused) (λ fd. find-emplace r.fd fd n seqs out)
      where
        no_owner : (seq : ℕ) (q : Request) → find seq rs ≡ some q → q.fd ≡ r.fd → false ≡ true
        no_owner seq q e same = cc (g.owned seq q e, ap (λ (x : ℤ). find x seqs) same, out)

    pub Put-replace :
        (old : ℕ)
        → find r.fd seqs ≡ some old
        → Put rs (emplace n r (erase old rs)) seqs (assign r.fd n seqs) n r
    Put-replace old at =
        put r able (λ seq. old == seq) owner _ _ in_new (λ fd. find-assign r.fd fd n seqs)
      where
        owner :
            (seq : ℕ) (q : Request) → find seq rs ≡ some q → ((old == seq) ≡ true) ↔ (q.fd ≡ r.fd)
        owner seq q e = (
          λ same. ground (arith, g.leads r.fd old at),
          λ same. ground (arith, g.owned seq q e, ap (λ (x : ℤ). find x seqs) same),
        )

        out : find n (erase old rs) ≡ none
        out = ground (arith, find-erase old n rs, unused)

        in_new :
            (seq : ℕ)
            → find seq (emplace n r (erase old rs))
              ≡ (if n == seq then some r else if old == seq then none else find seq rs)
        in_new seq = ground (arith, find-emplace n seq r (erase old rs) out, find-erase old seq rs)

  module _ (seq : ℕ) (r : Request) (at : find seq rs ≡ some r) where
    still :
        (s : ℕ) (q : Request) → find s (erase seq rs) ≡ some q → (seq ≢ s) × (find s rs ≡ some q)
    still s q e = (ground (arith, find-erase seq s rs), ground (arith, find-erase seq s rs))

    erase-leads :
        (fd : ℤ) (s : ℕ)
        → find fd (erase r.fd seqs) ≡ some s
        → (q : Request) × (find s (erase seq rs) ≡ some q) × (q.fd ≡ fd)
    erase-leads fd s e =
        let old : find fd seqs ≡ some s = ground (arith, find-erase r.fd fd seqs) in
        let (q, found, own) = g.leads fd s old in
        (q, ground (arith, find-erase seq s rs, find-erase r.fd fd seqs, eqb_ℤ_iff r.fd fd), own)

    erase-owned :
        (s : ℕ) (q : Request)
        → find s (erase seq rs) ≡ some q
        → find q.fd (erase r.fd seqs) ≡ some s
    erase-owned s q e =
        let (differs, found) = still s q e in
        ground (
          arith,
          find-erase r.fd q.fd seqs,
          g.owned s q found,
          g.owned seq r at,
          eqb_ℤ_iff r.fd q.fd,
          same_owner q,
        )
      where
        same_owner : (q : Request) → r.fd ≡ q.fd → find r.fd seqs ≡ find q.fd seqs
        same_owner q same = ap (λ (x : ℤ). find x seqs) same

    pub Registry-erase : Registry (erase seq rs) (erase r.fd seqs) n
    Registry-erase = record {
      leads = erase-leads;
      owned = erase-owned;
      taken = λ s q e. g.taken s q (still s q e).1;
      callable = λ s q e. g.callable s q (still s q e).1;
      above = g.above;
    }
