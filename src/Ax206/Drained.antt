-- ===== src/Ax206/Drained.antt =====
-- drm/ax206-drm-plane.c: what the panel shows when the blit worker has ended.
use packages.Base.{
  ℕ, ◌-◌, ◌<◌, ◌≡◌, refl, ◌∙◌, true, false, List, [], ◌∷◌, ◌++◌, not, All, if-cases, arith,
}
use packages.Ax206.Screen.{Picture, Display}
use packages.Ax206.Flush.{mark_dirty, flush, flush_rows, empty_box, blit_turn}
use packages.Ax206.Coherent.{shown, IsCoherent}
use packages.Ax206.Worker.{flushes, works, Update-IsCoherent}
use packages.Ax206.Loop.{Damage, Round, arrive, Drawn, work_fn, work_fn-IsAtRest, is_stopped}

-- The display is connected and awake, and agrees with the panel outside the dirty rectangle.
record IsLive (d : Display) (p : Picture) : Type 0 where
  connected : d.connected ≡ true
  awake : d.idle_active ≡ false
  coherent : IsCoherent d p

flush-IsLive :
    (source : Picture) (x1 y1 x2 y2 : ℕ) (d : Display) (p : Picture)
    → IsLive d p
    → IsLive (flush source x1 y1 x2 y2 d) p
unfolding flush mark_dirty
flush-IsLive source x1 y1 x2 y2 d p h =
    let b = flush_rows d source (y2 - y1) (x2 - x1) x1 y1 (empty_box d) in
    record {
      connected =
          if-cases (λ (e : Display). e.connected ≡ true) (not b.changed) (λ same. h.connected)
            (λ other. h.connected);
      awake =
          if-cases (λ (e : Display). e.idle_active ≡ false) (not b.changed) (λ same. h.awake)
            (λ other. h.awake);
      coherent = Update-IsCoherent (flushes source x1 y1 x2 y2) h.coherent;
    }

arrive-IsLive : (gs : List Damage) (d : Display) (p : Picture) → IsLive d p → IsLive (arrive gs d) p
unfolding arrive
arrive-IsLive [] d p h = h
arrive-IsLive (g ∷ gs) d p h =
    arrive-IsLive gs _ p (flush-IsLive g.source g.x1 g.y1 g.x2 g.y2 d p h)

turn_keeps :
    (d : Display)
    → ((blit_turn true d).1.connected ≡ d.connected)
      × ((blit_turn true d).1.idle_active ≡ d.idle_active)
unfolding blit_turn
turn_keeps d = ground arith

turn-IsLive :
    (d : Display) (p : Picture)
    → IsLive d p
    → IsLive (blit_turn true d).1 (shown (blit_turn true d).0 p)
turn-IsLive d p h =
    let kept = turn_keeps d in
    record {
      connected = kept.0 ∙ h.connected;
      awake = kept.1 ∙ h.awake;
      coherent = Update-IsCoherent (works h.connected h.awake) h.coherent;
    }

abbrev Live : Drawn → Type 0
Live w = IsLive w.display w.panel

-- Do all allocations succeed?
abbrev pub Allocates : List Round → Type 0
Allocates rs = All (λ (r : Round). r.alloc_ok ≡ true) rs

work-Live :
    (rs : List Round) (d : Display) (p : Picture)
    → Allocates rs
    → IsLive d p
    → Live (work_fn rs d p)
unfolding work_fn
work-Live [] d p ok h = h
work-Live (r ∷ rs) d p (ok, oks) h = rw ok (
    if-cases Live (is_stopped (blit_turn true d).0) (λ ends. turn-IsLive d p h)
      (λ goes_on. work-Live rs _ _ oks (arrive-IsLive r.damages _ _ (turn-IsLive d p h))))

clean_shows :
    (d : Display) (p : Picture) (x y : ℕ)
    → IsCoherent d p
    → d.blit_dirty ≡ false
    → x < d.width
    → y < d.height
    → d.shadow x y ≡ p x y
clean_shows d p x y h clean hx hy = ground (arith, clean, h.agrees x y)

all_append :
    (rs : List Round) (a b : Round)
    → Allocates rs
    → a.alloc_ok ≡ true
    → b.alloc_ok ≡ true
    → Allocates (rs ++ a ∷ b ∷ [])
all_append [] a b oks ha hb = (ha, (hb, tt))
all_append (r ∷ rs) a b (ok, oks) ha hb = (ok, all_append rs a b oks ha hb)

-- On a display that is connected and awake, and agrees with the panel outside the dirty rectangle, with
-- allocations and transfers that succeed: however the damage arrives during the transfers, after two turns
-- without new damage the worker has ended, and every pixel of the panel shows the shadow buffer.
pub work_fn-drained :
    (rs : List Round) (d : Display) (p : Picture)
    → d.connected ≡ true
    → d.idle_active ≡ false
    → IsCoherent d p
    → Allocates rs
    → let quiet : Round = record { alloc_ok = true; damages = [] } in
      let w = work_fn (rs ++ quiet ∷ quiet ∷ []) d p in
      (w.ended ≡ true)
      × ((x y : ℕ)
          → x < w.display.width
          → y < w.display.height
          → w.display.shadow x y ≡ w.panel x y)
work_fn-drained rs d p connected awake coherent oks =
    let quiet : Round = record { alloc_ok = true; damages = [] } in
    let w = work_fn (rs ++ quiet ∷ quiet ∷ []) d p in
    let rest = work_fn-IsAtRest rs true true d p in
    let start : IsLive d p = record { connected = connected; awake = awake; coherent = coherent } in
    let live =
      work-Live (rs ++ quiet ∷ quiet ∷ []) d p (all_append rs quiet quiet oks refl refl) start in
    (rest.ended, λ x y hx hy. clean_shows w.display w.panel x y live.coherent rest.clean hx hy)
