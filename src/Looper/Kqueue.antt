-- ===== src/Looper/Kqueue.antt =====
-- Events of a registration that is no more (libutils/Looper.cpp): kqueue may still report them.
use android_native_mac_ports.Base.{
  ℕ, ◌-◌, ◌^◌, ◌<◌, ◌≡◌, refl, sym, ap, ◌∙◌, inl, inr, false, none, some, [], ◌∷◌, arith, ◌==◌,
  find, erase, emplace, nat_key, find-erase, find-emplace,
}
use android_native_mac_ports.Base.Int.{ℤ, pos, int_key}
use android_native_mac_ports.Looper.State.{
  Request, Event, Looper, System, Run, ok, abort, out_of_fuel,
}
use android_native_mac_ports.Looper.Requests.{register}
use android_native_mac_ports.Looper.Registry.{unused}
use android_native_mac_ports.Looper.Poll.{handle_events}
use android_native_mac_ports.Looper.Adding.{IsConsistent, register-cases}

-- No request has the number `e.udata`, and it is not that of the wake event.
ignored :
    (e : Event) (l : Looper)
    → 1 < e.udata
    → find e.udata l.requests ≡ none
    → handle_events (e ∷ []) l ≡ ok tt l
unfolding handle_events
ignored e l big gone =
    let plain : (e.udata == 1) ≡ false = ground arith in rw (handle_events, plain, gone) refl

module _ (sys : System) (r : Request) (l : Looper) (g : IsConsistent l)
    (small : l.next_request_seq < 2 ^ 64 - 1) (old : ℕ)
    (at : find r.fd l.sequence_number_by_fd ≡ some old) where
  replaced :
      (l' : Looper)
      → register sys l.next_request_seq r l ≡ ok (pos 1) l'
      → find old l'.requests ≡ none
  replaced l' run = elim (register-cases sys r l g small) [
    | inl (err, refusal, e) ↦ absurd (ground arith)
    | inr (inl (done, out, e)) ↦ absurd (ground arith)
    | inr (inr (s, done, found, e)) ↦
        let (q, own, _) = g.leads r.fd old at in
        let same : s ≡ old = ground arith in
        let out : find n (erase s l.requests) ≡ none =
          ground
            (arith, find-erase s n l.requests, unused l.requests l.sequence_number_by_fd n g) in
        let added : find old l'.requests ≡ find old (emplace n r (erase s l.requests)) =
          ap
            (λ (run : Run ℤ). elim run [
              | ok _ x ↦ find old x.requests
              | abort ↦ none
              | out_of_fuel ↦ none
            ])
            (sym run ∙ e) in
        ground (
          arith,
          find-emplace n old r (erase s l.requests) out,
          find-erase s old l.requests,
          g.taken old q own,
        )
  ]
    where
      n : ℕ
      n = l.next_request_seq

  -- Once `addFd` has registered a descriptor anew, an event that the kernel still has for the old
  -- registration is dropped: it is no response and changes nothing.
  pub register-drops_old :
      (l' : Looper) (e : Event)
      → register sys l.next_request_seq r l ≡ ok (pos 1) l'
      → e.udata ≡ old
      → handle_events (e ∷ []) l' ≡ ok tt l'
  register-drops_old l' e run number =
      let (q, own, _) = g.leads r.fd old at in
      ignored e l' (omega (arith, g.taken old q own))
        (ap (λ (k : ℕ). find k l'.requests) number ∙ replaced l' run)
