-- ===== src/Mpro/Screen/Listeners.antt =====
-- mpro_screen.c and mpro.h: the list of listeners and the three notifications. A callback is a
-- function on the state `S` of the child drivers; the mutex makes each notification one step.
use packages.Base.{ℕ, Option, none, some, List, [], ◌∷◌, ◌++◌, ◌==◌, if◌then◌else◌}
use packages.Base.Errno.{Ret}

-- `struct mpro_screen_listener`; `node` stands for the list node's address.
pub record Listener (S : Type 0) : Type 0 where
  pub node : ℕ
  pub screen_off : Option (S → S)
  pub screen_on : Option (S → S)
  pub screen_wake : Option (S → S)

-- A callback is called if it is there.
abbrev pub call {ℓ} : {S : Type ℓ} → Option (S → S) → S → S
call none s = s
call (some f) s = f s

module _ {S : Type 0} where
  -- `mpro_screen_listener_register`: the new list and 0.
  unfoldable pub listener_register : Listener S → List (Listener S) → List (Listener S) × Ret
  listener_register l ls = (ls ++ l ∷ [], 0)

  -- `list_del`: the first node with that address.
  unfoldable pub list_del : ℕ → List (Listener S) → List (Listener S)
  list_del n [] = []
  list_del n (l ∷ ls) = let rest = list_del n ls in if l.node == n then ls else l ∷ rest

  -- `mpro_screen_listener_unregister`; a null pointer is ignored.
  unfoldable pub listener_unregister : Option (Listener S) → List (Listener S) → List (Listener S)
  unfolding list_del
  listener_unregister none ls = ls
  listener_unregister (some l) ls = list_del l.node ls

  unfoldable pub notify_off : List (Listener S) → S → S
  notify_off [] s = s
  notify_off (l ∷ ls) s = notify_off ls (call l.screen_off s)

  unfoldable pub notify_on : List (Listener S) → S → S
  notify_on [] s = s
  notify_on (l ∷ ls) s = notify_on ls (call l.screen_on s)

  unfoldable pub notify_wake : List (Listener S) → S → S
  notify_wake [] s = s
  notify_wake (l ∷ ls) s = notify_wake ls (call l.screen_wake s)
