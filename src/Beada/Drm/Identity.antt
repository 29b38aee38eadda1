-- ===== src/Beada/Drm/Identity.antt =====
-- drm/beada-drm-edid.c: what a reader of the EDID block finds.
use packages.Base.{
  ℕ, ◌+◌, ◌-◌, ◌%◌, ◌≤◌, ◌<◌, ◌≡◌, List, [], ◌∷◌, ◌++◌, length, length-append, length-take,
  length-replicate, take, replicate, ltb, ltb→lt, Bool-cases, inl, inr, arith,
}
use packages.Mpro.Drm.Edid.{sum, hblank, vblank, checksum_byte}
use packages.Mpro.Drm.Identity.{field12, high, low, closed_sum}
use packages.Beada.Info.Query.{PanelInfo}
use packages.Beada.Drm.Pipe.{Screen}
use packages.Beada.Drm.Edid.{
  clock_10khz, shown_mm, write_detailed_timing, text_field, write_descriptor_text, monitor_name,
  write_range_limits, edid_block, edid_update,
}

length-text_field : (text : List ℕ) → length (text_field text) ≡ 13
unfolding text_field
length-text_field text =
    let t = take 13 text in
    elim (Bool-cases (ltb (length t) 13)) [
      | inl short ↦ rw short (
          omega (
            arith,
            length-append t (0x0a ∷ replicate (12 - length t) 0x20),
            length-replicate {A = ℕ} (12 - length t) 0x20,
            ltb→lt (length t) 13 short,
          ))
      | inr full ↦
          let long : 13 ≤ length t = ground arith in
          rw full (omega (arith, length-append t [], length-take 13 text, long))
    ]

-- For every panel and rotation the block has 128 bytes that sum to 0 modulo 256, and for sides and
-- sizes below 4096 a reader of the preferred timing finds the current width and height, the blanking,
-- and the size in millimetres turned with the rotation.
pub edid_update-timing :
    (p : PanelInfo) (s : Screen)
    → s.width < 4096
    → s.height < 4096
    → (shown_mm p s).0 < 4096
    → (shown_mm p s).1 < 4096
    → let block = edid_update p s in
      (length block ≡ 128)
      × (sum block % 256 ≡ 0)
      × (field12 block 56 (high 58) ≡ s.width)
      × (field12 block 59 (high 61) ≡ s.height)
      × (field12 block 57 (low 58) ≡ hblank)
      × (field12 block 60 (low 61) ≡ vblank)
      × (field12 block 66 (high 68) ≡ (shown_mm p s).0)
      × (field12 block 67 (low 68) ≡ (shown_mm p s).1)
unfolding edid_update edid_block write_detailed_timing write_descriptor_text write_range_limits
edid_update-timing p s hw hh hwm hhm =
    let field = text_field (monitor_name p.model) in
    let rest =
      write_range_limits (clock_10khz (s.width + 200) (s.height + 50))
      ++ (0 ∷ 0 ∷ 0 ∷ 0x10 ∷ replicate 14 0 ++ 0 ∷ []) in
    (
      omega (
        arith,
        length-append (field ++ rest) (checksum_byte (edid_block p s) ∷ []),
        length-append field rest,
        length-text_field (monitor_name p.model),
      ),
      closed_sum (edid_block p s),
      omega arith,
      omega arith,
      omega arith,
      omega arith,
      omega arith,
      omega arith,
    )
