-- ===== src/Beada/Tests/Drm.antt =====
-- Examples of the DRM child: each theorem with hypotheses, applied where they hold.
use packages.Base.{
  ℕ, zero, suc, ◌%◌, ◌<◌, ◌≡◌, refl, true, false, Option, none, List, [], ◌∷◌, All, arith, get_or,
  length,
}
use packages.Beada.Link.Device.{Link, bulk_result}
use packages.Beada.Link.Steps.{IsInStep}
use packages.Beada.Drm.Blit.{Blit, Rect, blit_rect}
use packages.Beada.Drm.Coord.{IsFitting}
use packages.Beada.Drm.Picture.{blit_rect-places}
use packages.Beada.Drm.Colour.{AreBytes, IsByteTable, HasColour}
use packages.Mpro.Drm.Pixel.{Lut}
use packages.Beada.Drm.Pipe.{
  Screen, Commit, pipe_update, pipe_disable, rotation_store, rotation_swaps_dims,
}
use packages.Beada.Drm.Shown.{
  IsSound, update, disable, rotate, Calls, none_yet, then_call, Calls-IsInStep,
}
use packages.Beada.Drm.Delivered.{CanShow, IsDelivered, pipe_update-IsDelivered}
use packages.Mpro.Drm.Edid.{sum}
use packages.Mpro.Drm.Identity.{field12, high, low}
use packages.Beada.Info.Query.{PanelInfo}
use packages.Beada.Drm.Edid.{shown_mm, edid_update}
use packages.Beada.Drm.Identity.{edid_update-timing}
use packages.Beada.Tests.Link.{host, fresh, done, fresh-IsInStep, no_bytes, done_whole}

-- A picture of 2 by 1 pixels, a red and a blue one, for a panel of 1 by 2.
abbrev stripe : ℕ → Blit
stripe rot = record {
  out_w = 1;
  out_h = 2;
  src_w = 2;
  src_h = 1;
  rot = rot;
  is_xrgb = true;
  pitch = 8;
  bytes = 0 ∷ 0 ∷ 255 ∷ 0 ∷ 255 ∷ 0 ∷ 0 ∷ 0 ∷ [];
  gamma = none;
  bgr = false;
}

stripe-IsFitting : IsFitting (stripe 2)
stripe-IsFitting = record { across = refl; down = refl }

abbrev all : Rect
all = record { x1 = 0; y1 = 0; x2 = 2; y2 = 1 }

-- A list of bytes reads as bytes, also past its end.
below_256 : (bs : List ℕ) → All (λ b. b < 256) bs → AreBytes bs
below_256 [] h i = omega arith
below_256 (b ∷ bs) h zero = h.0
below_256 (b ∷ bs) h (suc i) = below_256 bs h.1 i

stripe_bytes : AreBytes (stripe 2).bytes
stripe_bytes = below_256 (0 ∷ 0 ∷ 255 ∷ 0 ∷ 255 ∷ 0 ∷ 0 ∷ 0 ∷ []) (ground arith)

abbrev no_gamma : Option Lut
no_gamma = none

linear : IsByteTable no_gamma
linear channel v h = h

blit_rect-places_example :
    HasColour false none true
      (stripe 2).bytes
      4
      (get_or (blit_rect (stripe 2) all (7 ∷ 7 ∷ [])) 1 0)
    × (length (blit_rect (stripe 2) all (7 ∷ 7 ∷ [])) ≡ 2)
blit_rect-places_example =
    blit_rect-places (stripe 2) all 1 0 (7 ∷ 7 ∷ []) stripe-IsFitting stripe_bytes linear
      (omega arith) (omega arith) (omega arith) (omega arith) (omega arith) (omega arith)
      (omega arith) (omega arith) (omega arith)

-- The panel of 1 by 2, turned by 90 degrees.
abbrev panel : Screen
panel = record {
  panel_w = 1;
  panel_h = 2;
  width = 2;
  height = 1;
  rotation = 2;
  noblank = false;
  shadow = 7 ∷ 7 ∷ [];
  shadow_valid = false;
  lut = λ c i. i;
  gamma_valid = false;
}

abbrev picture : Commit
picture = record {
  has_fb = true;
  active = true;
  entered = true;
  mapped = true;
  color_mgmt_changed = false;
  gamma_lut = none;
  fb_w = 2;
  fb_h = 1;
  is_xrgb = true;
  pitch = 8;
  bytes = 0 ∷ 0 ∷ 255 ∷ 0 ∷ 255 ∷ 0 ∷ 0 ∷ 0 ∷ [];
  bgr = false;
}

panel-CanShow : CanShow picture panel fresh (done 270) (done 4)
unfolding rotation_swaps_dims bulk_result
panel-CanShow = record {
  has_fb = refl;
  active = refl;
  entered = refl;
  mapped = refl;
  fb_w = refl;
  fb_h = refl;
  full = refl;
  across = refl;
  down = refl;
  wide = omega arith;
  high = omega arith;
  small = omega arith;
  idle = refl;
  answering = record { connected = refl; awake = refl; tagged = refl; received = refl };
  session = refl;
}

abbrev same : ℕ → ℕ
same v = v

pipe_update-IsDelivered_example :
    IsDelivered host
      (done 270)
      (done 4)
      picture
      none
      panel
      fresh
      1
      0
      (pipe_update host same (done 0) (done 0) picture panel fresh)
pipe_update-IsDelivered_example =
    pipe_update-IsDelivered host same (done 0) (done 0) (done 270) (done 4) picture panel fresh 1 0
      panel-CanShow stripe_bytes linear (omega arith) (omega arith)

panel-IsSound : IsSound panel
unfolding rotation_swaps_dims
panel-IsSound = record { full = refl; across = refl; down = refl }

-- A commit, a rotation by 180 degrees, and the end of the picture.
abbrev drawn : Screen × Link
drawn = pipe_update host same (done 0) (done 0) picture panel fresh

abbrev turned : Screen
turned = (rotation_store 0 2 drawn.0).1

abbrev gone : Screen × Link
gone = pipe_disable host (done 270) (done 4) (done 270) (done 4) turned drawn.1

evening : Calls host panel fresh gone.0 gone.1
evening =
    then_call
      (then_call (then_call none_yet (update same (done 0) (done 0) picture no_bytes)) (rotate 0 2))
      (disable (done 270) (done 4) (done 270) (done 4) done_whole done_whole)

Calls-IsInStep_example : IsSound gone.0 × IsInStep host gone.1
Calls-IsInStep_example = Calls-IsInStep panel-IsSound fresh-IsInStep evening

-- The panel "6", turned by 90 degrees.
abbrev panel_info : PanelInfo
panel_info = record {
  width = 480;
  height = 1280;
  width_mm = 67;
  height_mm = 181;
  max_brightness = 100;
  current_brightness = 50;
  model = 54 ∷ [];
}

abbrev wide_panel : Screen
wide_panel = record panel { panel_w = 480; panel_h = 1280; width = 1280; height = 480 }

edid_update-timing_example :
    (length (edid_update panel_info wide_panel) ≡ 128)
    × (sum (edid_update panel_info wide_panel) % 256 ≡ 0)
    × (field12 (edid_update panel_info wide_panel) 56 (high 58) ≡ 1280)
    × (field12 (edid_update panel_info wide_panel) 59 (high 61) ≡ 480)
    × (field12 (edid_update panel_info wide_panel) 57 (low 58) ≡ 128)
    × (field12 (edid_update panel_info wide_panel) 60 (low 61) ≡ 45)
    × (field12 (edid_update panel_info wide_panel) 66 (high 68)
        ≡ (shown_mm panel_info wide_panel).0)
    × (field12 (edid_update panel_info wide_panel) 67 (low 68) ≡ (shown_mm panel_info wide_panel).1)
unfolding shown_mm rotation_swaps_dims
edid_update-timing_example =
    edid_update-timing panel_info wide_panel (omega arith) (omega arith) (omega arith) (omega arith)
