-- ===== src/Mpro/Rotation/Mode.antt =====
-- mpro_drm.h: a rotation is a `u16` with one of four angle bits and two reflection bits.
use packages.Base.{ℕ, ◌+◌, ◌*◌, ◌/◌, ◌%◌, Bool, List, [], ◌∷◌, ◌==◌, ◌||◌, get_or, if◌then◌else◌}
use mathlib.Core.Bool.{xor}

-- DRM_MODE_ROTATE_0, 90, 180, 270 are bits 0 to 3, DRM_MODE_REFLECT_X and Y are bits 4 and 5.
abbrev pub rotate_0 : ℕ
rotate_0 = 1

abbrev pub rotate_90 : ℕ
rotate_90 = 2

abbrev pub rotate_180 : ℕ
rotate_180 = 4

abbrev pub rotate_270 : ℕ
rotate_270 = 8

-- A rotation value with one angle bit.
abbrev pub mode : ℕ → Bool → Bool → ℕ
mode angle rx ry = angle + (if rx then 16 else 0) + (if ry then 32 else 0)

-- `rotation & (the four angles)`, and the two tests of a reflection.
abbrev pub angle_bits : ℕ → ℕ
angle_bits r = r % 16

abbrev pub has_reflect_x : ℕ → Bool
has_reflect_x r = r / 16 % 2 == 1

abbrev pub has_reflect_y : ℕ → Bool
has_reflect_y r = r / 32 % 2 == 1

-- `__builtin_ctz` of the angle bits: the position of the lowest one. It is undefined at 0, where the
-- table would be read out of range; 4 stands for that.
abbrev pub ctz_angle : ℕ → ℕ
ctz_angle a =
    if a % 2 == 1
    then 0
    else if a / 2 % 2 == 1
    then 1
    else if a / 4 % 2 == 1
    then 2
    else if a / 8 % 2 == 1
    then 3
    else 4

abbrev angle_add : List (List ℕ)
angle_add =
    (1 ∷ 2 ∷ 4 ∷ 8 ∷ []) ∷ (2 ∷ 4 ∷ 8 ∷ 1 ∷ []) ∷ (4 ∷ 8 ∷ 1 ∷ 2 ∷ []) ∷ (8 ∷ 1 ∷ 2 ∷ 4 ∷ []) ∷ []

-- The entry of the table for two sets of angle bits; `angle_index` is the identity on 0 to 3.
unfoldable pub table_entry : ℕ → ℕ → ℕ
table_entry base extra = get_or (get_or angle_add (ctz_angle base) []) (ctz_angle extra) 0

-- `mpro_drm__compose_rotation`.
unfoldable pub compose_rotation : ℕ → ℕ → ℕ
compose_rotation base extra =
    table_entry (angle_bits base) (angle_bits extra)
    + (if xor (has_reflect_x base) (has_reflect_x extra) then 16 else 0)
    + (if xor (has_reflect_y base) (has_reflect_y extra) then 32 else 0)

-- `mpro_drm__rotation_swaps_dims`.
unfoldable pub rotation_swaps_dims : ℕ → Bool
rotation_swaps_dims r =
    let angle = r % 16 + r / 64 * 64 in angle == rotate_90 || angle == rotate_270
