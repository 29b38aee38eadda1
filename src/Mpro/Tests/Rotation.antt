-- ===== src/Mpro/Tests/Rotation.antt =====
-- The rotation of pictures and the composition of rotations, on small pictures.
use packages.Base.{ℕ, ◌≡◌, true, false, List, [], ◌∷◌, arith, get_or}
use packages.Mpro.Rotation.Mode.{mode, compose_rotation}
use packages.Mpro.Rotation.Buffer.{rotate_buffer}
use packages.Mpro.Rotation.Picture.{offset, rotate_buffer-shown}
use packages.Mpro.Rotation.Compose.{
  quarter, half, bit, shown, place, opposite, compose_rotation-place, compose_rotation-opposite,
}

abbrev picture : List ℕ
picture = 1 ∷ 2 ∷ 3 ∷ 4 ∷ 5 ∷ 6 ∷ []

abbrev blank : List ℕ
blank = 0 ∷ 0 ∷ 0 ∷ 0 ∷ 0 ∷ 0 ∷ []

-- Three pixels wide and two lines high, turned by 90 degrees and mirrored.
rotate_buffer-shown_example :
    get_or
      (rotate_buffer 3 2 (mode (bit quarter) true false) picture blank)
      (offset 2 (shown quarter true false 3 2 (2, 1)))
      0
    ≡ 6
rotate_buffer-shown_example =
    rotate_buffer-shown 3 2 2 1 (omega arith) (omega arith) quarter true false picture blank
      (omega arith) (omega arith)

compose_rotation-place_example :
    let base = mode (bit half) true true in
    let extra = mode (bit quarter) false true in
    place 3 2 (compose_rotation base extra) (2, 1) ≡ place 2 3 base (place 3 2 extra (2, 1))
compose_rotation-place_example =
    compose_rotation-place 3 2 2 1 (omega arith) (omega arith) half quarter true false true

compose_rotation-opposite_example :
    let base = mode (bit half) true false in
    let extra = mode (bit quarter) false false in
    place 3 2 (compose_rotation base extra) (2, 1)
    ≡ opposite (place 2 3 base (place 3 2 extra (2, 1))) (2, 3)
compose_rotation-opposite_example =
    compose_rotation-opposite 3 2 2 1 (omega arith) (omega arith) half true false false false
