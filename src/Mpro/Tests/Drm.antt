-- ===== src/Mpro/Tests/Drm.antt =====
-- The DRM child on concrete panels, pictures and pixels.
use packages.Base.{ℕ, ◌+◌, ◌*◌, ◌≡◌, List, [], ◌∷◌, arith, get_or}
use packages.Mpro.Drm.Update.{copy_rows}
use packages.Mpro.Drm.Damage.{copy_rows-get}

abbrev shadow : List ℕ
shadow = 10 ∷ 11 ∷ 12 ∷ 13 ∷ 20 ∷ 21 ∷ 22 ∷ 23 ∷ 30 ∷ 31 ∷ 32 ∷ 33 ∷ []

-- Two rows of two bytes, from row 1 and byte 1: 21, 22, 31 and 32.
copy_rows-get_example :
    get_or (copy_rows shadow 4 1 2 1 2) (1 * 2 + 0) 0 ≡ get_or shadow ((1 + 1) * 4 + 1 + 0) 0
copy_rows-get_example =
    copy_rows-get shadow 4 1 2 1 2 1 0 (omega arith) (omega arith) (omega arith) (omega arith)
