-- ===== src/Mpro/Model.antt =====
-- kernel/mpro/src/mpro_model.c: the table of models and the lookup at probe time.
use packages.Base.{
  ℕ, Bool, true, false, Option, none, some, List, [], ◌∷◌, ◌==◌, ◌&&◌, if◌then◌else◌,
}
use packages.Base.Errno.{Ret, enodev}

-- `struct mpro_model_info`; the two strings are for the log only.
pub record ModelInfo : Type 0 where
  pub screen_id : ℕ
  pub width : ℕ
  pub height : ℕ
  pub width_mm : ℕ
  pub height_mm : ℕ
  pub margin : ℕ
  pub native_rotation : ℕ
  pub touch_invert_x : Bool
  pub touch_invert_y : Bool
  pub touch_swap_xy : Bool

-- DRM_MODE_ROTATE_0, DRM_MODE_ROTATE_180 and DRM_MODE_REFLECT_X are bits 0, 2 and 4.
abbrev rotate_0 : ℕ
rotate_0 = 1

abbrev rotate_180_reflect_x : ℕ
rotate_180_reflect_x = 20

abbrev row : ℕ → ℕ → ℕ → ℕ → ℕ → ℕ → ℕ → Bool → ModelInfo
row id w h wm hm margin rotation invert_x = record {
  screen_id = id;
  width = w;
  height = h;
  width_mm = wm;
  height_mm = hm;
  margin = margin;
  native_rotation = rotation;
  touch_invert_x = invert_x;
  touch_invert_y = false;
  touch_swap_xy = false;
}

abbrev pub mpro_models : List ModelInfo
mpro_models =
    row 0x0000 480 800 0 0 0 rotate_180_reflect_x true
    ∷ row 0x0005 480 854 62 110 0 rotate_180_reflect_x true
    ∷ row 0x0005 480 854 62 119 320 rotate_0 false
    ∷ row 0x1005 720 1280 62 110 0 rotate_180_reflect_x true
    ∷ row 0x0304 480 800 56 94 0 rotate_180_reflect_x true
    ∷ row 0x0004 480 800 53 86 0 rotate_180_reflect_x true
    ∷ row 0x0b04 480 800 53 86 0 rotate_180_reflect_x true
    ∷ row 0x0104 480 800 53 86 0 rotate_180_reflect_x true
    ∷ row 0x0007 800 480 89 148 0 rotate_180_reflect_x true
    ∷ row 0x0403 800 800 88 88 0 rotate_180_reflect_x true
    ∷ row 0x000a 1024 600 222 125 0 rotate_180_reflect_x true
    ∷ []

-- `mpro_detect_margin`, on `mpro->screen` and `mpro->version`.
unfoldable pub detect_margin : ℕ → ℕ → ℕ
detect_margin screen version = if screen == 5 then (if version == 3 then 0 else 320) else 0

-- The loop of `mpro_get_model` over the table: the first row with that screen and margin.
unfoldable pub find_model : List ModelInfo → ℕ → ℕ → Option ModelInfo
find_model [] screen margin = none
find_model (m ∷ ms) screen margin =
    if m.screen_id == screen && m.margin == margin then some m else find_model ms screen margin

-- `mpro_get_model`: the new `mpro->model` and the return value.
unfoldable pub get_model : ℕ → ℕ → Option ModelInfo × Ret
unfolding detect_margin find_model
get_model screen version = elim (find_model mpro_models screen (detect_margin screen version)) [
  | some m ↦ (some m, 0)
  | none ↦ (none, enodev)
]
