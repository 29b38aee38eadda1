-- ===== src/Mpro/Touch/Listeners.antt =====
-- mpro_touch.c: the listeners of the touch URB, and the completion that hands them a packet. A callback is a
-- function on the state `S` of the child drivers.
use packages.Base.{ℕ, ◌≡◌, refl, Option, none, some, List, [], ◌∷◌, ◌++◌, ◌==◌, if◌then◌else◌}
use packages.Base.Errno.{Ret}
use packages.Mpro.Touch.Urb.{TouchUrb, delivers, irq_complete}

-- `struct mpro_touch_listener`; `node` stands for the list node's address. A callback takes the packet and its
-- length.
pub record TouchListener (S : Type 0) : Type 0 where
  pub node : ℕ
  pub touch_packet : Option (List ℕ → ℕ → S → S)

module _ {S : Type 0} where
  -- A callback is called if it is there.
  abbrev pub hand : Option (List ℕ → ℕ → S → S) → List ℕ → ℕ → S → S
  hand none packet len s = s
  hand (some f) packet len s = f packet len s

  -- The loop over the listeners.
  unfoldable pub deliver : List (TouchListener S) → List ℕ → ℕ → S → S
  deliver [] packet len s = s
  deliver (l ∷ ls) packet len s = deliver ls packet len (hand l.touch_packet packet len s)

  -- `mpro_touch_listener_register`: the new list and 0.
  unfoldable pub touch_listener_register :
      TouchListener S → List (TouchListener S) → List (TouchListener S) × Ret
  touch_listener_register l ls = (ls ++ l ∷ [], 0)

  -- `list_del`: the first node with that address.
  unfoldable pub remove_node : ℕ → List (TouchListener S) → List (TouchListener S)
  remove_node n [] = []
  remove_node n (l ∷ ls) = let rest = remove_node n ls in if l.node == n then ls else l ∷ rest

  -- `mpro_touch_listener_unregister`; a null pointer is ignored.
  unfoldable pub touch_listener_unregister :
      Option (TouchListener S) → List (TouchListener S) → List (TouchListener S)
  touch_listener_unregister none ls = ls
  touch_listener_unregister (some l) ls = remove_node l.node ls

  -- `mpro_touch__irq_complete` with its listeners.
  unfoldable pub complete :
      List (TouchListener S) → Ret → List ℕ → ℕ → Ret → TouchUrb × S → TouchUrb × S
  complete ls status packet len ret (u, s) =
      (irq_complete status ret u, if delivers status len then deliver ls packet len s else s)

  deliver-append :
      (ls ms : List (TouchListener S)) (packet : List ℕ) (len : ℕ) (s : S)
      → deliver (ls ++ ms) packet len s ≡ deliver ms packet len (deliver ls packet len s)
  unfolding deliver
  deliver-append [] ms packet len s = refl
  deliver-append (l ∷ ls) ms packet len s =
      deliver-append ls ms packet len (hand l.touch_packet packet len s)

  -- A listener that registers is handed each packet that is delivered once, after all that were there before.
  pub deliver-register :
      (l : TouchListener S) (ls : List (TouchListener S)) (packet : List ℕ) (len : ℕ) (s : S)
      → deliver (touch_listener_register l ls).0 packet len s
        ≡ hand l.touch_packet packet len (deliver ls packet len s)
  unfolding touch_listener_register deliver
  deliver-register l ls packet len s = deliver-append ls (l ∷ []) packet len s
