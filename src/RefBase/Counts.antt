-- ===== src/RefBase/Counts.antt =====
-- The operations of libutils/RefBase.cpp. Each is one atomic step, so that a compare-and-exchange
-- succeeds at its first try.
use android_native_mac_ports.Base.{
  ℕ, Bool, true, false, ◌&&◌, ◌||◌, not, ◌∷◌, ◌==◌, test_bit, if◌then◌else◌,
}
use android_native_mac_ports.RefBase.State.{
  object_deleted, refs_deleted, ok, abort, fault, M, pure, ◌>>=◌, ◌>>◌, Hooks, initial_strong_value,
  is_natural, add_32, sub_32, bad_strong, bad_weak,
}

-- A read of the object's own members, and one of its `weakref_impl`'s.
abbrev pub use_object : M (Unit {0})
use_object s = if s.alive then ok tt s else fault

abbrev pub use_refs : M (Unit {0})
use_refs s = if s.refs_alive then ok tt s else fault

abbrev pub set_strong : ℕ → M (Unit {0})
set_strong n s = ok tt (record s { strong = n })

abbrev pub set_weak : ℕ → M (Unit {0})
set_weak n s = ok tt (record s { weak = n })

-- `LOG_ALWAYS_FATAL_IF(bad)`, and `ALOG_ASSERT(!bad)`, which the build turns on.
abbrev pub fatal_if : Bool → M (Unit {0})
fatal_if bad s = if bad then abort else ok tt s

abbrev pub when : Bool → M (Unit {0}) → M (Unit {0})
when b m s = if b then m s else ok tt s

abbrev pub choose {ℓ} : {A : Type ℓ} → Bool → M A → M A → M A
choose b m k s = if b then m s else k s

-- `weakref_type::incWeak`
unfoldable pub inc_weak : M (Unit {0})
inc_weak s = (use_refs >> set_weak (add_32 s.weak 1) >> fatal_if (not (is_natural s.weak))) s

-- `weakref_type::incWeakRequireWeak`
unfoldable pub inc_weak_require_weak : M (Unit {0})
inc_weak_require_weak s =
    (use_refs >> set_weak (add_32 s.weak 1) >> fatal_if (s.weak == 0 || not (is_natural s.weak))) s

-- `delete impl`
unfoldable pub delete_refs : M (Unit {0})
delete_refs s =
    if s.refs_alive
    then ok tt (record s { refs_alive = false; deletions = refs_deleted ∷ s.deletions })
    else fault

-- `RefBase::~RefBase`, run by a `delete` of the object.
unfoldable pub delete_object : M (Unit {0})
unfolding delete_refs
delete_object s =
    (use_object
        >> use_refs
        >> choose s.lifetime_weak (when (s.weak == 0) delete_refs)
            (fatal_if (not (s.strong == initial_strong_value) && not (s.strong == 0)))
        >> (λ s'. ok tt (record s' { alive = false; deletions = object_deleted ∷ s'.deletions })))
      s

-- `weakref_type::decWeak`
unfoldable pub dec_weak : Hooks → M (Unit {0})
unfolding delete_refs delete_object
dec_weak hooks s =
    (use_refs
        >> set_weak (sub_32 s.weak 1)
        >> fatal_if (bad_weak s.weak)
        >> when (s.weak == 1) (
            choose s.lifetime_weak (hooks.on_last_weak_ref >> delete_object)
              (when (not (s.strong == initial_strong_value)) delete_refs)))
      s

-- `RefBase::incStrong`
unfoldable pub inc_strong : Hooks → M (Unit {0})
unfolding inc_weak
inc_strong hooks s =
    (use_object
        >> inc_weak
        >> set_strong (add_32 s.strong 1)
        >> fatal_if (s.strong == 0 || not (is_natural s.strong))
        >> when (s.strong == initial_strong_value) (
            fatal_if hooks.on_stack
            >> set_strong (sub_32 (add_32 s.strong 1) initial_strong_value)
            >> hooks.on_first_ref))
      s

-- `RefBase::incStrongRequireStrong`
unfoldable pub inc_strong_require_strong : M (Unit {0})
unfolding inc_weak
inc_strong_require_strong s =
    (use_object
        >> inc_weak
        >> set_strong (add_32 s.strong 1)
        >> fatal_if
            (s.strong == 0 || not (is_natural s.strong) || s.strong == initial_strong_value))
      s

-- `RefBase::forceIncStrong`
unfoldable pub force_inc_strong : Hooks → M (Unit {0})
unfolding inc_weak
force_inc_strong hooks s =
    (use_object
        >> inc_weak
        >> set_strong (add_32 s.strong 1)
        >> fatal_if (not (is_natural s.strong))
        >> choose (s.strong == initial_strong_value)
            (set_strong (sub_32 (add_32 s.strong 1) initial_strong_value) >> hooks.on_first_ref)
            (when (s.strong == 0) hooks.on_first_ref))
      s

-- `RefBase::decStrong`
unfoldable pub dec_strong : Hooks → M (Unit {0})
unfolding delete_object dec_weak
dec_strong hooks s =
    (use_object
        >> use_refs
        >> set_strong (sub_32 s.strong 1)
        >> fatal_if (bad_strong s.strong)
        >> when (s.strong == 1)
            (hooks.on_last_strong_ref >> (λ s'. when (not s'.lifetime_weak) delete_object s'))
        >> dec_weak hooks)
      s

-- The part of `attemptIncStrong` behind an accepted `onIncStrongAttempted`.
unfoldable pub attempt_accepted : Hooks → M Bool
attempt_accepted hooks s =
    (set_strong (add_32 s.strong 1)
        >> when (not (s.strong == 0 || s.strong == initial_strong_value)) hooks.on_last_strong_ref
        >> when (s.strong == initial_strong_value)
            (λ s'. set_strong (sub_32 s'.strong initial_strong_value) s')
        >> pure true)
      s

-- The part of `attemptIncStrong` for a strong count `c` that is not positive or never was set.
unfoldable pub attempt_unowned : Hooks → ℕ → M Bool
unfolding dec_weak attempt_accepted
attempt_unowned hooks c s =
    choose s.lifetime_weak
      (hooks.on_inc_strong_attempted
        >>= (λ accepted. choose accepted (attempt_accepted hooks) (dec_weak hooks >> pure false)))
      (choose (c == 0 || not (is_natural c)) (dec_weak hooks >> pure false)
        (set_strong (sub_32 (add_32 c 1) initial_strong_value) >> pure true))
      s

-- `weakref_type::attemptIncStrong`
unfoldable pub attempt_inc_strong : Hooks → M Bool
unfolding inc_weak attempt_unowned
attempt_inc_strong hooks s =
    (inc_weak
        >> fatal_if (not (is_natural s.strong))
        >> choose (s.strong == 0 || not (is_natural s.strong) || s.strong == initial_strong_value)
            (attempt_unowned hooks s.strong) (set_strong (add_32 s.strong 1) >> pure true))
      s

-- `weakref_type::attemptIncWeak`
unfoldable pub attempt_inc_weak : M Bool
attempt_inc_weak s =
    (use_refs
        >> fatal_if (not (is_natural s.weak))
        >> choose (s.weak == 0 || not (is_natural s.weak)) (pure false)
            (set_weak (add_32 s.weak 1) >> pure true))
      s

-- `RefBase::createWeak`
unfoldable pub create_weak : M (Unit {0})
unfolding inc_weak
create_weak = use_object >> inc_weak

-- `RefBase::extendObjectLifetime(mode)`
unfoldable pub extend_object_lifetime : Hooks → ℕ → M (Unit {0})
extend_object_lifetime hooks mode =
    use_object
    >> fatal_if hooks.on_stack
    >> (λ s. ok tt (record s { lifetime_weak = s.lifetime_weak || test_bit mode 0 }))

unfoldable pub get_strong_count : M ℕ
get_strong_count s = (use_object >> pure s.strong) s

unfoldable pub get_weak_count : M ℕ
get_weak_count s = (use_refs >> pure s.weak) s
