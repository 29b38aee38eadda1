-- ===== src/Mpro/Touch/Packet.antt =====
-- touchscreen/mpro_touchscreen.h and mpro_touchscreen.c: what a touch packet says and what is
-- reported of it to the input core.
use packages.Base.{
  ℕ, ◌+◌, ◌*◌, ◌/◌, ◌%◌, Bool, true, false, Option, none, some, List, [], ◌∷◌, ◌++◌, ◌==◌, ◌||◌,
  leb, get_or, if◌then◌else◌,
}
use packages.Mpro.Model.{ModelInfo}
use packages.Mpro.Rotation.Mode.{compose_rotation}
use packages.Mpro.Touch.Coord.{Point, rotate, calibrate}

-- MPRO_TOUCH_MAX_SLOTS.
abbrev pub max_slots : ℕ
max_slots = 2

-- The fields of `struct mpro_touch_point` that the driver uses; the bit fields start at the low end
-- of their byte.
pub record TouchPoint : Type 0 where
  pub xh : ℕ
  pub state : ℕ
  pub xl : ℕ
  pub yh : ℕ
  pub slot : ℕ
  pub yl : ℕ

-- Point `i` of `struct mpro_touch_packet`: three bytes, then six for each point.
unfoldable pub touch_point : List ℕ → ℕ → TouchPoint
touch_point bytes i =
    let at = λ (k : ℕ). get_or bytes (3 + 6 * i + k) 0 in
    record {
      xh = at 0 % 16;
      state = at 0 / 64 % 4;
      xl = at 1;
      yh = at 2 % 16;
      slot = at 2 / 16 % 16;
      yl = at 3;
    }

-- What the driver tells the input core.
pub data Report : Type 0 where
  slot_state : ℕ → Bool → Report
  position : ℕ → ℕ → Report
  sync_frame : Report

-- `mpro_ts__get_rotation`: `drm` holds the native and the plane's rotation when the child is there.
unfoldable pub get_rotation : Option (ℕ × ℕ) → ℕ
unfolding compose_rotation
get_rotation none = 1
get_rotation (some (native, plane)) = compose_rotation native plane

-- The point that an active touch is reported at.
unfoldable pub touch_position : ModelInfo → ℕ → TouchPoint → Point
touch_position m r p =
    rotate r (m.width % 65536) (m.height % 65536)
      (calibrate m (record { x = p.xh * 256 + p.xl; y = p.yh * 256 + p.yl }))

abbrev pub is_active : TouchPoint → Bool
is_active p = p.state == 2

-- One turn of the loop of `mpro_ts__handle_packet`: the reports, and whether the touch is active.
unfoldable pub handle_point : ModelInfo → ℕ → TouchPoint → List Report × Bool
unfolding touch_position
handle_point m r p =
    let q = touch_position m r p in
    if leb max_slots p.slot
    then ([], false)
    else if is_active p
    then (slot_state p.slot true ∷ position q.x q.y ∷ [], true)
    else (slot_state p.slot false ∷ [], false)

-- The loop over both points and the end of the frame.
unfoldable pub packet_reports : ModelInfo → ℕ → List ℕ → List Report × Bool
packet_reports m r bytes =
    let first = handle_point m r (touch_point bytes 0) in
    let second = handle_point m r (touch_point bytes 1) in
    (first.0 ++ (second.0 ++ sync_frame ∷ []), first.1 || second.1)
