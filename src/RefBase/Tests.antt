-- ===== src/RefBase/Tests.antt =====
-- Runs of libutils/RefBase.cpp, and its theorems at concrete states.
use android_native_mac_ports.Base.{
  update, ◌≡◌, refl, inr, true, false, some, none, Option, arith, [], ◌∷◌,
}
use android_native_mac_ports.RefBase.State.{
  State, Run, ok, abort, fault, initial_strong_value, object_deleted, refs_deleted, ◌>>=◌, ◌>>◌,
  ref_base, new_object,
}
use android_native_mac_ports.RefBase.Counts.{
  inc_weak, dec_weak, inc_strong, dec_strong, attempt_inc_strong, create_weak,
  extend_object_lifetime,
}
use android_native_mac_ports.RefBase.Holders.{
  Quiet, living, weakly_held, Held, fresh, owned, weakly,
}
use android_native_mac_ports.RefBase.Changes.{
  Becomes, Releases, inc_strong-Held, inc_weak-Held, dec_weak-Held,
}
use android_native_mac_ports.RefBase.Promotion.{Promoted, attempt_inc_strong-Promoted}
use android_native_mac_ports.RefBase.WeakMessages.{weak_handle_message, weak_handle_message-alive}
use android_native_mac_ports.RefBase.Pointers.{sp_clear, Objects, sp_assign, wp_promote}
use android_native_mac_ports.RefBase.Assignment.{sp_assign-same, wp_promote-alive}
use android_native_mac_ports.RefBase.Histories.{
  History, Fate, created, weak_comes, weak_goes, extended, History-Held,
}

abbrev state {ℓ} : {A : Type ℓ} → Run A → Option State
state (ok a s) = some s
state abort = none
state fault = none

runs : Unit {0}
unfolding inc_weak dec_weak inc_strong dec_strong attempt_inc_strong create_weak
    extend_object_lifetime ◌>>=◌ ◌>>◌
runs = tt

-- A strong pointer and a weak one come, the strong one goes, and the weak one is not made strong.
deleted_once :
    state (
      (inc_strong ref_base >> create_weak >> dec_strong ref_base >> attempt_inc_strong ref_base)
        new_object)
    ≡ some (weakly_held 1 false)
unfolding runs
deleted_once = refl

-- With an extended lifetime the weak pointer is made strong again.
kept :
    state (
      (extend_object_lifetime ref_base 1
          >> inc_strong ref_base
          >> create_weak
          >> dec_strong ref_base
          >> attempt_inc_strong ref_base)
        new_object)
    ≡ some (living 1 2 true)
unfolding runs
kept = refl

-- One `decStrong` too many is a use of a deleted object.
too_many : (inc_strong ref_base >> dec_strong ref_base >> dec_strong ref_base) new_object ≡ fault
unfolding runs
too_many = refl

quiet : Quiet ref_base
quiet = record {
  heap = refl;
  first = λ s. refl;
  last_strong = λ s. refl;
  last_weak = λ s. refl;
  attempted = λ s. refl;
}

two : Held (living 2 3 false) 2 1
two = owned false (omega arith) (omega arith) refl

inc_strong-Held_example : Becomes (inc_strong ref_base new_object) tt 1 0
inc_strong-Held_example =
    inc_strong-Held ref_base quiet new_object 0 0 (fresh false refl (omega arith) refl) (inr refl)
      refl (omega arith)

inc_weak-Held_example : Becomes (inc_weak (living 2 3 false)) tt 2 2
inc_weak-Held_example = inc_weak-Held (living 2 3 false) 2 1 two refl (omega arith)

dec_weak-Held_example : Releases (dec_weak ref_base (living 2 3 false)) (living 2 3 false) 2 0
dec_weak-Held_example = dec_weak-Held ref_base quiet (living 2 3 false) 2 0 two

attempt_inc_strong-Promoted_example : Promoted ref_base quiet (weakly_held 1 false) 0 1
attempt_inc_strong-Promoted_example =
    attempt_inc_strong-Promoted ref_base quiet (weakly_held 1 false) 0 1
      (weakly false refl (omega arith) (omega arith) refl) (omega arith) (omega arith)

-- An object whose lifetime is extended gets a weak pointer, never a strong one, and the weak one goes.
abbrev ended_unused : State
ended_unused = record {
  strong = initial_strong_value;
  weak = 0;
  lifetime_weak = true;
  alive = false;
  refs_alive = false;
  deletions = object_deleted ∷ refs_deleted ∷ [];
}

history : History ref_base ended_unused 0 0 true
unfolding runs
history =
    weak_goes (living initial_strong_value 1 true) ended_unused 0 0 false
      (weak_comes (living initial_strong_value 0 true) (living initial_strong_value 1 true) 0 0
        false (extended 1 new_object (living initial_strong_value 0 true) 0 0 false created refl)
        refl (omega arith) refl)
      refl

History-Held_example : Held ended_unused 0 0 × Fate true ended_unused
History-Held_example = History-Held ref_base quiet ended_unused 0 0 true history

-- Object 0 has a strong pointer, object 1 two and a weak one, and a weak one is left of object 2.
abbrev objects : Objects
objects = update (update (λ _. weakly_held 1 false) 0 (living 1 1 false)) 1 (living 2 3 false)

single : Held (living 1 1 false) 1 0
single = owned false (omega arith) (omega arith) refl

sp_assign-same_example :
    (o' : Objects) × (sp_assign (λ _. ref_base) (some 0) (some 0) objects ≡ some (some 0, o'))
    × Held (o' 0) 1 0
sp_assign-same_example =
    sp_assign-same (λ _. ref_base) (λ _. quiet) 0 0 0 objects single refl (omega arith)

wp_promote-alive_example :
    (o' : Objects) × (wp_promote (λ _. ref_base) (some 2) objects ≡ some (none, o'))
    × Held (o' 2) 0 1
wp_promote-alive_example =
    wp_promote-alive (λ _. ref_base) (λ _. quiet) 2 0 1 objects
      (weakly false refl (omega arith) (omega arith) refl) (omega arith) (omega arith)

weak_handle_message-alive_example :
    (o' : Objects) × (weak_handle_message (λ _. ref_base) (λ _ o. some (tt, o)) (some 1) objects
      ≡ sp_clear (λ _. ref_base) (some 1) o')
    × Held (o' 1) 3 1
weak_handle_message-alive_example =
    weak_handle_message-alive (λ _. ref_base) (λ _. quiet) (λ _ o. some (tt, o)) 1 2 1 objects two
      (omega arith) (omega arith)
