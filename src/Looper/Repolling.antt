-- ===== src/Looper/Repolling.antt =====
-- `repoll` of libutils/Looper.cpp, as compiled for kqueue.
use android_native_mac_ports.Base.{
  ℕ, ◌≡◌, refl, ◌⊎◌, inl, inr, true, none, some, arith, Option-cases, find, nat_key,
}
use android_native_mac_ports.Base.Int.{ℤ, pos, eqb_ℤ, eqb_ℤ_iff, int_key}
use android_native_mac_ports.Looper.State.{Request, Looper, System, Run, ok, kevents, log}
use android_native_mac_ports.Looper.Requests.{repoll, get_fd_state_debug}
use android_native_mac_ports.Looper.Adding.{IsConsistent, wanted, wanted_lem}

-- What `repoll` gives: 0 and no effect where the descriptor is not registered; else the kernel is asked
-- once, to add the filters of its request, and the answer is 1 where it takes them, else 0.
abbrev pub Repolled : System → ℤ → Looper → Run ℤ → Type 0
Repolled sys fd l run =
    ((get_fd_state_debug fd l ≡ none) × (run ≡ ok (pos 0) l))
    ⊎ ((seq : ℕ) × (r : Request) × (find fd l.sequence_number_by_fd ≡ some seq)
        × (get_fd_state_debug fd l ≡ some r)
        × (run
            ≡ ok
                (elim (sys.kevent l.system_calls l.kqueue_fd (wanted fd r.events seq)) [
                  | none ↦ pos 1
                  | some _ ↦ pos 0
                ])
                (log (kevents l.kqueue_fd (wanted fd r.events seq)) l)))

-- On a consistent looper `repoll` never aborts. It gives 0 and does nothing for a descriptor that is not
-- registered. Else it asks the kernel once, to add the filters of the descriptor's request again under
-- its number, gives 1 where the kernel takes them and 0 where it does not, and changes nothing else.
pub repoll-Repolled :
    (sys : System) (fd : ℤ) (l : Looper) → IsConsistent l → Repolled sys fd l (repoll sys fd l)
unfolding repoll get_fd_state_debug
repoll-Repolled sys fd l g = elim (Option-cases (find fd l.sequence_number_by_fd)) [
  | inl out ↦ inl (ground arith, ground arith)
  | inr (seq, numbered) ↦
      let (r, at, own) = g.leads fd seq numbered in
      let same : eqb_ℤ fd r.fd ≡ true = ground (arith, eqb_ℤ_iff fd r.fd) in
      inr (
        seq,
        r,
        numbered,
        rw (get_fd_state_debug, numbered) at,
        rw (repoll, numbered, at, same) (rw (wanted_lem fd r.events seq) refl),
      )
]
