-- ===== src/Mpro/Backlight/Told.antt =====
-- backlight/mpro_backlight.c: what the device was told last.
use packages.Base.{
  ℕ, zero, suc, ◌+◌, ◌-◌, ◌*◌, ◌/◌, ◌%◌, ◌^◌, ◌≤◌, ◌≡◌, Bool, true, false, List, [], ◌∷◌, not, ◌||◌,
  ◌==◌, ltb, min, if◌then◌else◌,
}
use packages.Base.Int.{ℤ, pos_part}
use packages.Base.Errno.{Ret}
use packages.Mpro.Backlight.Child.{
  MproBacklight, backlight_command, update, bl_screen_off, bl_screen_on, gamma_store,
}

-- The curve with the exponent `n`, from 0 to 255, without machine widths.
abbrev pub exact_power : ℕ → ℕ → ℕ
exact_power v zero = 255
exact_power v (suc n) = v ^ suc n / 255 ^ n

-- The level for a value under a gamma in hundredths: between two whole exponents the curves are mixed,
-- and the ends stay as they are.
abbrev pub level_of : ℕ → ℕ → ℕ
level_of gamma v =
    if gamma == 100 || (v == 0 || v == 255)
    then v
    else min
        ((exact_power v (gamma / 100) * (100 - gamma % 100)
            + exact_power v (suc (gamma / 100)) * (gamma % 100))
          / 100)
        255

abbrev last : List (List ℕ) → List ℕ
last [] = []
last (c ∷ cs) = c

-- For a screen that is on or off, a value and a gamma: the last command sets the level that they call
-- for, the value is a byte and the gamma is in its range; the state has them as its own.
pub record IsTold (on : Bool) (value gamma : ℕ) (mb : MproBacklight) : Type 0 where
  pub told : last mb.sent ≡ backlight_command (if on then level_of gamma value else 0)
  pub byte : value ≤ 255
  pub low : 50 ≤ gamma
  pub high : gamma ≤ 400
  pub screen : mb.screen_on ≡ on
  pub stored : mb.stored_value ≡ value
  pub curved : mb.gamma_x100 ≡ gamma

-- A sequence of callbacks, each with the result of its command. It tells whether the screen is on, the
-- value that was asked for last, and the gamma that was accepted last.
pub data Callbacks (mb : MproBacklight) (value gamma : ℕ)
    : Bool → ℕ → ℕ → MproBacklight → Type 0 where
  none_yet : Callbacks mb value gamma true value gamma mb
  updated :
      {on : Bool} {v g : ℕ} {m : MproBacklight} (ret : Ret) (requested : ℤ)
      → Callbacks mb value gamma on v g m
      → Callbacks mb value gamma on (min (pos_part requested) 255) g (update ret requested m).1
  went_off :
      {on : Bool} {v g : ℕ} {m : MproBacklight} (ret : Ret)
      → Callbacks mb value gamma on v g m
      → Callbacks mb value gamma false v g (bl_screen_off ret m)
  came_on :
      {on : Bool} {v g : ℕ} {m : MproBacklight} (ret : Ret)
      → Callbacks mb value gamma on v g m
      → Callbacks mb value gamma true v g (bl_screen_on ret m)
  stored :
      {on : Bool} {v g : ℕ} {m : MproBacklight} (ret : Ret) (new_gamma : ℕ)
      → 50 ≤ new_gamma
      → new_gamma ≤ 400
      → Callbacks mb value gamma on v g m
      → Callbacks mb value gamma on v new_gamma (gamma_store ret 0 new_gamma m).1
  refused :
      {on : Bool} {v g : ℕ} {m : MproBacklight} (ret parsed : Ret) (new_gamma : ℕ)
      → (not (parsed == 0) || (ltb new_gamma 50 || ltb 400 new_gamma)) ≡ true
      → Callbacks mb value gamma on v g m
      → Callbacks mb value gamma on v g (gamma_store ret parsed new_gamma m).1

-- The gamma of the module parameter, if it is in its range.
abbrev pub start_gamma : ℤ → ℕ
start_gamma wanted =
    if ltb (pos_part wanted) 50 || ltb 400 (pos_part wanted) then 100 else pos_part wanted
