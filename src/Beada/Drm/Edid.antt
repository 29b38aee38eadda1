-- ===== src/Beada/Drm/Edid.antt =====
-- drm/beada-drm-edid.c: the EDID block of the panel, as the current rotation shows it.
use packages.Base.{
  ℕ, ◌+◌, ◌-◌, ◌*◌, ◌/◌, ◌%◌, ◌^◌, List, [], ◌∷◌, ◌++◌, length, take, replicate, ltb, if◌then◌else◌,
}
use packages.Mpro.Drm.Edid.{
  lo, hi4, nibbles, hblank, vblank, hsync_off, hsync_pulse, vsync_off, vsync_pulse, checksum_byte,
}
use packages.Beada.Info.Query.{PanelInfo}
use packages.Beada.Drm.Pipe.{Screen, rotation_swaps_dims}

-- `pnp_id` of "NXE".
abbrev pnp_id : ℕ
pnp_id = (78 - 64) * 1024 + (88 - 64) * 32 + (69 - 64)

-- `DIV_ROUND_CLOSEST(w * h * 60, 10000)` in 32 bits: a clock in units of 10 kHz.
unfoldable pub clock_10khz : ℕ → ℕ → ℕ
clock_10khz w h = (w * h * 60 % 2 ^ 32 + 5000) % 2 ^ 32 / 10000

-- The size in millimetres, swapped with the rotation: the width and the height.
unfoldable pub shown_mm : PanelInfo → Screen → ℕ × ℕ
shown_mm p s =
    if rotation_swaps_dims s.rotation then (p.height_mm, p.width_mm) else (p.width_mm, p.height_mm)

-- Bytes 0x00 to 0x13; BEADA_EDID_YEAR is 2025.
abbrev head_bytes : PanelInfo → List ℕ
head_bytes p =
    0
    ∷ 255
    ∷ 255
    ∷ 255
    ∷ 255
    ∷ 255
    ∷ 255
    ∷ 0
    ∷ pnp_id / 256 % 256
    ∷ pnp_id % 256
    ∷ lo p.width
    ∷ p.width / 256 % 256
    ∷ lo p.width
    ∷ lo p.height
    ∷ p.width / 256 % 256
    ∷ p.height / 256 % 256
    ∷ 1
    ∷ (2025 - 1990)
    ∷ 1
    ∷ 3
    ∷ []

-- Bytes 0x14 to 0x35.
abbrev display_bytes : PanelInfo → List ℕ
display_bytes p =
    0x80
    ∷ (p.width_mm + 9) / 10 % 256
    ∷ (p.height_mm + 9) / 10 % 256
    ∷ 120
    ∷ 0x0a
    ∷ 0xee
    ∷ 0x91
    ∷ 0xa3
    ∷ 0x54
    ∷ 0x4c
    ∷ 0x99
    ∷ 0x26
    ∷ 0x0f
    ∷ 0x50
    ∷ 0x54
    ∷ 0
    ∷ 0
    ∷ 0
    ∷ replicate 16 1

-- `write_detailed_timing`; the BEADA_TIMING constants are those of the MPro driver.
unfoldable pub write_detailed_timing : PanelInfo → Screen → List ℕ
write_detailed_timing p s =
    let clock = clock_10khz (s.width + hblank) (s.height + vblank) in
    let (wm, hm) = shown_mm p s in
    lo clock
    ∷ clock / 256 % 256
    ∷ lo s.width
    ∷ lo hblank
    ∷ nibbles (hi4 s.width) (hi4 hblank)
    ∷ lo s.height
    ∷ lo vblank
    ∷ nibbles (hi4 s.height) (hi4 vblank)
    ∷ lo hsync_off
    ∷ lo hsync_pulse
    ∷ nibbles (vsync_off % 16) (vsync_pulse % 16)
    ∷ (hsync_off / 256 % 4 * 64
        + hsync_pulse / 256 % 4 * 16
        + vsync_off / 16 % 4 * 4
        + vsync_pulse / 16 % 4)
    ∷ lo wm
    ∷ lo hm
    ∷ nibbles (hi4 wm) (hi4 hm)
    ∷ 0
    ∷ 0
    ∷ 0x18
    ∷ []

-- The 13 bytes of text of `write_descriptor_text`.
unfoldable pub text_field : List ℕ → List ℕ
text_field text =
    let t = take 13 text in
    t ++ (if ltb (length t) 13 then 0x0a ∷ replicate (12 - length t) 0x20 else [])

-- `write_descriptor_text`.
unfoldable pub write_descriptor_text : ℕ → List ℕ → List ℕ
write_descriptor_text type text = 0 ∷ 0 ∷ 0 ∷ type ∷ 0 ∷ text_field text

-- "BeadaPanel " and the model, in a buffer of 16 bytes.
unfoldable pub monitor_name : List ℕ → List ℕ
monitor_name model = take 15 (66 ∷ 101 ∷ 97 ∷ 100 ∷ 97 ∷ 80 ∷ 97 ∷ 110 ∷ 101 ∷ 108 ∷ 32 ∷ model)

-- `write_range_limits`.
unfoldable pub write_range_limits : ℕ → List ℕ
write_range_limits max_clock_10khz =
    0
    ∷ 0
    ∷ 0
    ∷ 0xfd
    ∷ 0
    ∷ 50
    ∷ 75
    ∷ 30
    ∷ 80
    ∷ (max_clock_10khz / 100 + 1) % 256
    ∷ 0
    ∷ 0x0a
    ∷ 0x20
    ∷ 0x20
    ∷ 0x20
    ∷ 0x20
    ∷ 0x20
    ∷ 0x20
    ∷ []

-- The first 127 bytes of `beada_edid_update`: bytes 0x6c to 0x7d are a dummy descriptor with the tag
-- 0x10, then no extension.
unfoldable pub edid_block : PanelInfo → Screen → List ℕ
edid_block p s =
    head_bytes p
    ++ (display_bytes p
        ++ (write_detailed_timing p s
            ++ (write_descriptor_text 0xfc (monitor_name p.model)
                ++ (write_range_limits (clock_10khz (s.width + 200) (s.height + 50))
                    ++ (0 ∷ 0 ∷ 0 ∷ 0x10 ∷ replicate 14 0 ++ 0 ∷ [])))))

-- `beada_edid_update`: the block that is handed to the connector.
unfoldable pub edid_update : PanelInfo → Screen → List ℕ
edid_update p s = let body = edid_block p s in body ++ checksum_byte body ∷ []
