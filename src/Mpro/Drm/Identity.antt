-- ===== src/Mpro/Drm/Identity.antt =====
-- drm/mpro_drm_edid.c: what a reader of the EDID block finds.
use packages.Base.{
  ℕ, ◌+◌, ◌*◌, ◌/◌, ◌%◌, ◌<◌, ◌≡◌, refl, List, [], ◌∷◌, ◌++◌, arith, length, get_or,
}
use packages.Mpro.Model.{ModelInfo}
use packages.Mpro.Drm.Edid.{sum, checksum_byte, edid_body, create_edid, hblank, vblank}

-- Where the four high bits of a field are: in the high or the low nibble of a byte.
pub data Nibble : Type 0 where
  high : ℕ → Nibble
  low : ℕ → Nibble

-- A field of 12 bits as a reader of the block gets it: the byte at `i` and four bits at `n`.
abbrev pub field12 : List ℕ → ℕ → Nibble → ℕ
field12 block i (high j) = get_or block i 0 + get_or block j 0 / 16 * 256
field12 block i (low j) = get_or block i 0 + get_or block j 0 % 16 * 256

sum-append : (xs ys : List ℕ) → sum (xs ++ ys) ≡ sum xs + sum ys
sum-append [] ys = omega arith
sum-append (x ∷ xs) ys = omega (arith, sum-append xs ys)

pub closed_sum : (xs : List ℕ) → sum (xs ++ checksum_byte xs ∷ []) % 256 ≡ 0
unfolding checksum_byte
closed_sum xs = omega (arith, sum-append xs (checksum_byte xs ∷ []))

edid_length :
    (screen : ℕ) (m : ModelInfo) (tm_year : ℕ) → length (create_edid screen m tm_year) ≡ 128
unfolding create_edid edid_body
edid_length screen m tm_year = refl

-- The block has 128 bytes, which sum to 0 modulo 256, for every model and clock.
pub create_edid-checksum :
    (screen : ℕ) (m : ModelInfo) (tm_year : ℕ)
    → (length (create_edid screen m tm_year) ≡ 128) × (sum (create_edid screen m tm_year) % 256 ≡ 0)
unfolding create_edid
create_edid-checksum screen m tm_year =
    (edid_length screen m tm_year, closed_sum (edid_body screen m tm_year))

-- A reader finds the model in the preferred timing: from the low bytes and the shared high nibbles
-- it gets the resolution, the blanking and the size in millimetres, all below 4096.
pub create_edid-timing :
    (screen : ℕ) (m : ModelInfo) (tm_year : ℕ)
    → m.width < 4096
    → m.height < 4096
    → m.width_mm < 4096
    → m.height_mm < 4096
    → (field12 (create_edid screen m tm_year) 56 (high 58) ≡ m.width)
      × (field12 (create_edid screen m tm_year) 59 (high 61) ≡ m.height)
      × (field12 (create_edid screen m tm_year) 57 (low 58) ≡ hblank)
      × (field12 (create_edid screen m tm_year) 60 (low 61) ≡ vblank)
      × (field12 (create_edid screen m tm_year) 66 (high 68) ≡ m.width_mm)
      × (field12 (create_edid screen m tm_year) 67 (low 68) ≡ m.height_mm)
unfolding create_edid edid_body
create_edid-timing screen m tm_year hw hh hwm hhm =
    (omega arith, omega arith, omega arith, omega arith, omega arith, omega arith)
