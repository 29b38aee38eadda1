-- ===== src/Mpro/Backlight/Parse.antt =====
-- mpro.h: mpro_parse_gamma_x100, which the sysfs stores of the backlight and the DRM child call.
use packages.Base.{
  ℕ, ◌+◌, ◌*◌, ◌/◌, ◌%◌, ◌^◌, ◌≤◌, ◌<◌, ◌≡◌, ◌≢◌, refl, ap, false, Option, none, some, List, [],
  ◌∷◌, ◌++◌, All, ◌&&◌, ◌==◌, ltb, leb, if◌then◌else◌, arith,
}
use packages.Base.Errno.{Ret, einval}

-- `strchr` for the dot (46): what follows it.
unfoldable pub after_dot : List ℕ → Option (List ℕ)
after_dot [] = none
after_dot (c ∷ cs) = let rest = after_dot cs in if c == 46 then some cs else rest

-- The loop that counts digits (48 to 57).
unfoldable pub frac_digits : List ℕ → ℕ
frac_digits [] = 0
frac_digits (c ∷ cs) = let rest = frac_digits cs in if leb 48 c && leb c 57 then rest + 1 else 0

-- `whole * 100 + frac` in 32 bits.
abbrev pub gamma_x100 : ℕ → ℕ → ℕ
gamma_x100 whole frac = (whole * 100 + frac) % 2 ^ 32

-- The result and what is stored, for the conversions that `sscanf` made with the format "%u.%u".
unfoldable pub scale_gamma : List ℕ → Option (List ℕ) → Ret × Option ℕ
scale_gamma [] dot = (einval, none)
scale_gamma (whole ∷ []) dot = (0, some (gamma_x100 whole 0))
scale_gamma (whole ∷ frac ∷ rest) none = (0, some (gamma_x100 whole frac))
scale_gamma (whole ∷ frac ∷ rest) (some s) =
    let digits = frac_digits s in
    if digits == 1
    then (0, some (gamma_x100 whole (frac * 10)))
    else if ltb 2 digits
    then (einval, none)
    else (0, some (gamma_x100 whole frac))

-- `mpro_parse_gamma_x100`; `scan` gives the numbers that `sscanf` stores.
unfoldable pub parse_gamma_x100 : (List ℕ → List ℕ) → List ℕ → Ret × Option ℕ
parse_gamma_x100 scan buf = scale_gamma (scan buf) (after_dot buf)

abbrev pub IsDigit : ℕ → Type 0
IsDigit c = (48 ≤ c) × (c ≤ 57)

after_dot-append :
    (ds rest : List ℕ) → All (λ c. c ≢ 46) ds → after_dot (ds ++ 46 ∷ rest) ≡ some rest
unfolding after_dot
after_dot-append [] rest h = refl
after_dot-append (d ∷ ds) rest (ne, h) =
    let other : (d == 46) ≡ false = ground (arith, ne) in rw other (after_dot-append ds rest h)

two_digits : (a b : ℕ) → IsDigit a → IsDigit b → frac_digits (a ∷ b ∷ 10 ∷ []) ≡ 2
unfolding frac_digits
two_digits a b ha hb = ground arith

one_digit : (a : ℕ) → IsDigit a → frac_digits (a ∷ 10 ∷ []) ≡ 1
unfolding frac_digits
one_digit a ha = ground arith

-- What `gamma_show` prints, digits without a dot, a dot, two digits and a newline, is read back as
-- the number it was printed from, if the scanner finds the number before and after the dot. With one
-- digit after the dot the fraction counts tenths.
pub parse_gamma_x100-show :
    (scan : List ℕ → List ℕ) (ds : List ℕ) (g whole a b c tenths : ℕ)
    → g < 2 ^ 32
    → whole * 100 + tenths * 10 < 2 ^ 32
    → All (λ e. e ≢ 46) ds
    → IsDigit a
    → IsDigit b
    → IsDigit c
    → scan (ds ++ 46 ∷ a ∷ b ∷ 10 ∷ []) ≡ g / 100 ∷ g % 100 ∷ []
    → scan (ds ++ 46 ∷ c ∷ 10 ∷ []) ≡ whole ∷ tenths ∷ []
    → (parse_gamma_x100 scan (ds ++ 46 ∷ a ∷ b ∷ 10 ∷ []) ≡ (0, some g))
      × (parse_gamma_x100 scan (ds ++ 46 ∷ c ∷ 10 ∷ []) ≡ (0, some (whole * 100 + tenths * 10)))
unfolding parse_gamma_x100 scale_gamma
parse_gamma_x100-show scan ds g whole a b c tenths small fits plain ha hb hc e f = (
  rw (e, after_dot-append ds (a ∷ b ∷ 10 ∷ []) plain, two_digits a b ha hb)
      (ap (λ (v : ℕ). (0, some v)) (omega arith)),
  rw (f, after_dot-append ds (c ∷ 10 ∷ []) plain, one_digit c hc)
      (ap (λ (v : ℕ). (0, some v)) (omega arith)),
)
