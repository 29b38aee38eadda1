-- ===== src/Mpro/Touch/Reports.antt =====
-- touchscreen: what is reported of a packet.
use packages.Base.{
  ℕ, zero, suc, ◌+◌, ◌*◌, ◌<◌, ◌≡◌, refl, Bool, false, List, [], ◌∷◌, arith, get_or, take,
}
use native.Mathlib.Nat.{mod-eq_of_lt}
use packages.Mpro.Model.{ModelInfo}
use packages.Mpro.Rotation.Mode.{mode}
use packages.Mpro.Rotation.Compose.{Angle, upright, quarter, half, three_quarters, bit, wide}
use packages.Mpro.Touch.Coord.{Point, rotate, calibrate}
use packages.Mpro.Touch.Packet.{TouchPoint, touch_point, packet_reports, touch_position}

get_or-take : (n k : ℕ) (xs : List ℕ) → k < n → get_or (take n xs) k 0 ≡ get_or xs k 0
get_or-take zero k xs h = elim h [ ]
get_or-take (suc n) k [] h = refl
get_or-take (suc n) zero (x ∷ xs) h = refl
get_or-take (suc n) (suc k) (x ∷ xs) h = get_or-take n k xs (omega arith)

touch_point-take :
    (bytes : List ℕ) (i : ℕ) → i < 2 → touch_point (take 13 bytes) i ≡ touch_point bytes i
unfolding touch_point
touch_point-take bytes i h = ground (
  arith,
  get_or-take 13 (3 + 6 * i + 0) bytes,
  get_or-take 13 (3 + 6 * i + 1) bytes,
  get_or-take 13 (3 + 6 * i + 2) bytes,
  get_or-take 13 (3 + 6 * i + 3) bytes,
)

-- The driver reads no more than the first 13 bytes of a packet, though `struct mpro_touch_packet` has
-- 15 and a packet only 14: what follows changes no report.
pub packet_reports-take :
    (m : ModelInfo) (r : ℕ) (bytes : List ℕ)
    → packet_reports m r (take 13 bytes) ≡ packet_reports m r bytes
unfolding packet_reports
packet_reports-take m r bytes =
    rw (touch_point-take bytes 0 (omega arith), touch_point-take bytes 1 (omega arith))

calibrate_bounds :
    (m : ModelInfo) (p : Point)
    → m.width < 65536
    → m.height < 65536
    → m.touch_swap_xy ≡ false
    → p.x < m.width
    → p.y < m.height
    → ((calibrate m p).x < m.width) × ((calibrate m p).y < m.height)
unfolding calibrate
calibrate_bounds m p hw hh swap hx hy = ground arith

module _ (w h : ℕ) (p : Point) (hw : w < 65536) (hh : h < 65536) (hx : p.x < w) (hy : p.y < h) where
  rotate_bounds :
      (a : Angle) (rx ry : Bool)
      → let q = rotate (mode (bit a) rx ry) w h p in (q.x < wide a w h) × (q.y < wide a h w)
  unfolding rotate
  rotate_bounds upright rx ry = ground arith
  rotate_bounds quarter rx ry = ground arith
  rotate_bounds half rx ry = ground arith
  rotate_bounds three_quarters rx ry = ground arith

-- A touch at raw coordinates inside the panel, on a model that does not swap the axes, is reported
-- inside the plane, at every angle and with any reflections.
pub touch_position-bounds :
    (m : ModelInfo) (a : Angle) (rx ry : Bool) (p : TouchPoint)
    → m.width < 65536
    → m.height < 65536
    → m.touch_swap_xy ≡ false
    → p.xh * 256 + p.xl < m.width
    → p.yh * 256 + p.yl < m.height
    → let q = touch_position m (mode (bit a) rx ry) p in
      (q.x < wide a m.width m.height) × (q.y < wide a m.height m.width)
unfolding touch_position
touch_position-bounds m a rx ry p hw hh swap hx hy =
    let raw : Point = record { x = p.xh * 256 + p.xl; y = p.yh * 256 + p.yl } in
    let inside = calibrate_bounds m raw hw hh swap hx hy in
    rw (mod-eq_of_lt hw, mod-eq_of_lt hh)
      (rotate_bounds m.width m.height (calibrate m raw) hw hh inside.0 inside.1 a rx ry)
