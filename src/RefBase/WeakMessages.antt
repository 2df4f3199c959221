-- ===== src/RefBase/WeakMessages.antt =====
-- `WeakMessageHandler` of libutils/Looper.cpp: a handler that holds its target weakly.
use android_native_mac_ports.Base.{
  ℕ, suc, ◌+◌, ◌<◌, ◌≡◌, refl, Bool, true, false, Option, none, some, if◌then◌else◌,
}
use android_native_mac_ports.RefBase.State.{Hooks, count_limit}
use android_native_mac_ports.RefBase.Holders.{Quiet, Held}
use android_native_mac_ports.RefBase.Pointers.{Objects, P, ◌>>=◌, ◌>>◌, pure, wp_promote, sp_clear}
use android_native_mac_ports.RefBase.Assignment.{binds, wp_promote-alive}

-- `if (handler != nullptr) handler->handleMessage(message);`
abbrev pub if_handler : Option ℕ → (ℕ → P (Unit {0})) → P (Unit {0})
if_handler none handle_message = pure tt
if_handler (some p) handle_message = handle_message p

-- `handleMessage`; what the target does with the message is a parameter. The local `sp` goes at the end.
unfoldable pub weak_handle_message : (ℕ → Hooks) → (ℕ → P (Unit {0})) → Option ℕ → P (Option ℕ)
unfolding wp_promote sp_clear
weak_handle_message hooks handle_message m_handler = do
  handler ← wp_promote hooks m_handler
  if_handler handler handle_message
  sp_clear hooks handler

-- A message for a target that lives is handled while a strong pointer more holds the target, which is
-- given up behind it. For a target that was deleted nothing happens, and it is not touched.
pub weak_handle_message-alive :
    (hooks : ℕ → Hooks) (q : (p : ℕ) → Quiet (hooks p)) (handle_message : ℕ → P (Unit {0}))
    (p n m : ℕ) (o : Objects)
    → Held (o p) n m
    → 0 < m
    → suc (n + m) < count_limit
    → (o' : Objects) × (weak_handle_message hooks handle_message (some p) o ≡ (
        if (o p).alive then (handle_message p >> sp_clear hooks (some p)) o' else some (none, o')))
      × Held (o' p) (if (o p).alive then suc n else n) m
unfolding weak_handle_message
weak_handle_message-alive hooks q handle_message p n m o h some_weak room =
    let (o', run, held) = wp_promote-alive hooks q p n m o h some_weak room in
    (
      o',
      binds (wp_promote hooks (some p)) _ o o' (if (o p).alive then some p else none) _ run
          (by_alive (o p).alive o'),
      held,
    )
  where
    by_alive :
        (b : Bool) (o' : Objects)
        → (if_handler (if b then some p else none) handle_message
              >> sp_clear hooks (if b then some p else none))
            o'
          ≡ (if b then (handle_message p >> sp_clear hooks (some p)) o' else some (none, o'))
    by_alive true o' = refl
    by_alive false o' = refl
