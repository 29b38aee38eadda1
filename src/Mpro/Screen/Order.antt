-- ===== src/Mpro/Screen/Order.antt =====
-- mpro_screen.c: who is notified, and in what order.
use packages.Base.{ℕ, ◌≡◌, ◌≢◌, refl, none, some, List, [], ◌∷◌, ◌++◌, arith, All}
use packages.Mpro.Screen.Listeners.{
  Listener, call, listener_register, list_del, listener_unregister, notify_off, notify_on,
  notify_wake,
}

module _ {S : Type 0} where
  notify_off-append :
      (ls ms : List (Listener S)) (s : S)
      → notify_off (ls ++ ms) s ≡ notify_off ms (notify_off ls s)
  unfolding notify_off
  notify_off-append [] ms s = refl
  notify_off-append (l ∷ ls) ms s = notify_off-append ls ms (call l.screen_off s)

  notify_on-append :
      (ls ms : List (Listener S)) (s : S) → notify_on (ls ++ ms) s ≡ notify_on ms (notify_on ls s)
  unfolding notify_on
  notify_on-append [] ms s = refl
  notify_on-append (l ∷ ls) ms s = notify_on-append ls ms (call l.screen_on s)

  notify_wake-append :
      (ls ms : List (Listener S)) (s : S)
      → notify_wake (ls ++ ms) s ≡ notify_wake ms (notify_wake ls s)
  unfolding notify_wake
  notify_wake-append [] ms s = refl
  notify_wake-append (l ∷ ls) ms s = notify_wake-append ls ms (call l.screen_wake s)

  -- A listener that registers is called once by each notification, after all that were there before.
  pub notify-register :
      (l : Listener S) (ls : List (Listener S)) (s : S)
      → let ls' = (listener_register l ls).0 in
        (notify_off ls' s ≡ call l.screen_off (notify_off ls s))
        × (notify_on ls' s ≡ call l.screen_on (notify_on ls s))
        × (notify_wake ls' s ≡ call l.screen_wake (notify_wake ls s))
  unfolding listener_register notify_off notify_on notify_wake
  notify-register l ls s = (
    notify_off-append ls (l ∷ []) s,
    notify_on-append ls (l ∷ []) s,
    notify_wake-append ls (l ∷ []) s,
  )

  abbrev pub HasOther : ℕ → Listener S → Type 0
  HasOther n l = l.node ≢ n

  list_del-append :
      (l : Listener S) (before after : List (Listener S))
      → All (HasOther l.node) before
      → list_del l.node (before ++ l ∷ after) ≡ before ++ after
  unfolding list_del
  list_del-append l [] after h = ground arith
  list_del-append l (m ∷ before) after h = ground (arith, list_del-append l before after h.1)

  -- Unregistering takes out that listener and no other, wherever it stands, and keeps the order of
  -- the others, if no node before it has the same address; unregistering a null pointer changes
  -- nothing.
  pub unregister_lem :
      (l : Listener S) (before after : List (Listener S))
      → All (HasOther l.node) before
      → (listener_unregister (some l) (before ++ l ∷ after) ≡ before ++ after)
        × (listener_unregister none (before ++ after) ≡ before ++ after)
  unfolding listener_unregister
  unregister_lem l before after h = (list_del-append l before after h, refl)
