-- ===== src/Mpro/Drm/Edid.antt =====
-- drm/mpro_drm_edid.c: the EDID block of the panel.
use packages.Base.{ℕ, ◌+◌, ◌-◌, ◌*◌, ◌/◌, ◌%◌, List, [], ◌∷◌, ◌++◌, replicate}
use packages.Mpro.Model.{ModelInfo}

-- `v & 0xff`, `v >> 8 & 0xf`, and two nibbles in one byte.
abbrev pub lo : ℕ → ℕ
lo v = v % 256

abbrev pub hi4 : ℕ → ℕ
hi4 v = v / 256 % 16

abbrev pub nibbles : ℕ → ℕ → ℕ
nibbles a b = a * 16 + b

-- MPRO_TIMING_*.
abbrev pub hsync_off : ℕ
hsync_off = 40

abbrev pub hsync_pulse : ℕ
hsync_pulse = 48

abbrev pub hblank : ℕ
hblank = 40 + 48 + 40

abbrev pub vsync_off : ℕ
vsync_off = 13

abbrev pub vsync_pulse : ℕ
vsync_pulse = 3

abbrev pub vblank : ℕ
vblank = 13 + 3 + 29

abbrev pub clock_10khz : ℕ
clock_10khz = 29729 / 10

-- Bytes 0x00 to 0x13: header, manufacturer "VOC", product, serial, date, version. The year less 1990
-- is kept as a byte, so that a clock before 1990 wraps around.
abbrev head_bytes : ℕ → ℕ → List ℕ
head_bytes screen tm_year =
    let mfg : ℕ = (86 - 64) * 1024 + (79 - 64) * 32 + (67 - 64) in
    0
    ∷ 255
    ∷ 255
    ∷ 255
    ∷ 255
    ∷ 255
    ∷ 255
    ∷ 0
    ∷ mfg / 256 % 256
    ∷ mfg % 256
    ∷ lo screen
    ∷ screen / 256 % 256
    ∷ lo screen
    ∷ screen / 256 % 256
    ∷ screen / 65536 % 256
    ∷ screen / 16777216 % 256
    ∷ 1
    ∷ (tm_year + 1900 + 256 - 1990) % 256
    ∷ 1
    ∷ 3
    ∷ []

-- Bytes 0x14 to 0x35: basic parameters, chromaticity, unused timings.
abbrev display_bytes : ModelInfo → List ℕ
display_bytes m =
    0x80
    ∷ (m.width_mm + 9) / 10 % 256
    ∷ (m.height_mm + 9) / 10 % 256
    ∷ 120
    ∷ 0x0a
    ∷ 0xee
    ∷ 0x91
    ∷ 0xa3
    ∷ 0x54
    ∷ 0x4c
    ∷ 0x99
    ∷ 0x26
    ∷ 0x0f
    ∷ 0x50
    ∷ 0x54
    ∷ 0
    ∷ 0
    ∷ 0
    ∷ replicate 16 1

-- Bytes 0x36 to 0x47: the preferred timing.
abbrev timing_bytes : ModelInfo → List ℕ
timing_bytes m =
    lo clock_10khz
    ∷ clock_10khz / 256 % 256
    ∷ lo m.width
    ∷ lo hblank
    ∷ nibbles (hi4 m.width) (hi4 hblank)
    ∷ lo m.height
    ∷ lo vblank
    ∷ nibbles (hi4 m.height) (hi4 vblank)
    ∷ lo hsync_off
    ∷ lo hsync_pulse
    ∷ nibbles (vsync_off % 16) (vsync_pulse % 16)
    ∷ (hsync_off / 256 % 4 * 64
        + hsync_pulse / 256 % 4 * 16
        + vsync_off / 16 % 4 * 4
        + vsync_pulse / 16 % 4)
    ∷ lo m.width_mm
    ∷ lo m.height_mm
    ∷ nibbles (hi4 m.width_mm) (hi4 m.height_mm)
    ∷ 0
    ∷ 0
    ∷ 0x18
    ∷ []

-- Bytes 0x48 to 0x7e: the name "VoCore MPRO", the range limits, a dummy, no extension.
abbrev descriptor_bytes : List ℕ
descriptor_bytes =
    0
    ∷ 0
    ∷ 0
    ∷ 0xfc
    ∷ 0
    ∷ 86
    ∷ 111
    ∷ 67
    ∷ 111
    ∷ 114
    ∷ 101
    ∷ 32
    ∷ 77
    ∷ 80
    ∷ 82
    ∷ 79
    ∷ 0x0a
    ∷ 0x20
    ∷ 0
    ∷ 0
    ∷ 0
    ∷ 0xfd
    ∷ 0
    ∷ 50
    ∷ 75
    ∷ 30
    ∷ 80
    ∷ (clock_10khz / 100 + 1)
    ∷ 0
    ∷ 0x0a
    ∷ 0x20
    ∷ 0x20
    ∷ 0x20
    ∷ 0x20
    ∷ 0x20
    ∷ 0x20
    ∷ 0
    ∷ 0
    ∷ 0
    ∷ 0x10
    ∷ 0
    ∷ 0
    ∷ 0
    ∷ 0
    ∷ 0
    ∷ 0
    ∷ 0
    ∷ 0
    ∷ 0
    ∷ 0
    ∷ 0
    ∷ 0
    ∷ 0
    ∷ 0
    ∷ 0
    ∷ []

abbrev pub sum : List ℕ → ℕ
sum [] = 0
sum (b ∷ bs) = b + sum bs

-- The last byte: the 128 bytes sum to 0 modulo 256.
unfoldable pub checksum_byte : List ℕ → ℕ
checksum_byte bytes = (256 - sum bytes % 256) % 256

-- The first 127 bytes.
unfoldable pub edid_body : ℕ → ModelInfo → ℕ → List ℕ
edid_body screen m tm_year =
    head_bytes screen tm_year ++ (display_bytes m ++ (timing_bytes m ++ descriptor_bytes))

-- `mpro_drm__create_edid`: the block that is handed to the connector. `tm_year` is the year of the
-- clock less 1900.
unfoldable pub create_edid : ℕ → ModelInfo → ℕ → List ℕ
create_edid screen m tm_year =
    let body = edid_body screen m tm_year in body ++ checksum_byte body ∷ []
