-- ===== src/Mpro/Protocol/Version.antt =====
-- mpro_protocol.c: when the driver believes that the firmware can take compressed frames.
use packages.Base.{
  ℕ, ◌-◌, min, ◌<◌, ◌≤◌, ◌≡◌, ◌≢◌, refl, true, false, Option, none, some, List, [], ◌∷◌, arith,
  ◌==◌, ltb, length, All, take, length-take,
}
use packages.Base.{◌⊎◌, inl, inr, sym, ◌∙◌, Bool-cases, ap, ◌||◌}
use packages.Base.Int.{ℤ, pos, negsuc, ltb_ℤ, pos_part}
use packages.Mpro.Pipeline.Alloc.{firmware_supports_lz4}
use packages.Mpro.Protocol.Firmware.{
  FirmwareAnswer, Scanner, Firmware, until_nul, get_firmware_string, skip_v, s16_max, check_version,
  parse_firmware_version, with_version, with_string, finish_firmware, unset, get_firmware,
}

length-until_nul : (bs : List ℕ) → length (until_nul bs) ≤ length bs
unfolding until_nul
length-until_nul [] = omega arith
length-until_nul (b ∷ bs) = ground (arith, length-until_nul bs)

until_nul-nonzero : (bs : List ℕ) → All (λ b. b ≢ 0) (until_nul bs)
unfolding until_nul
until_nul-nonzero [] = tt
until_nul-nonzero (b ∷ bs) = ground (arith, until_nul-nonzero bs)

abbrev cut : FirmwareAnswer → ℕ → List ℕ
cut a outlen = take (min (pos_part a.count) (outlen - 1)) a.bytes

get_firmware_string-cases :
    (a : FirmwareAnswer) (outlen : ℕ)
    → ((get_firmware_string a outlen).1 ≡ none)
      ⊎ (((get_firmware_string a outlen).1 ≡ some (until_nul (cut a outlen)))
          × (ltb_ℤ (pos 0) (get_firmware_string a outlen).0 ≡ true))
unfolding get_firmware_string
get_firmware_string-cases a outlen = ground arith

abbrev string_or_empty : Option (List ℕ) → List ℕ
string_or_empty none = []
string_or_empty (some s) = s

-- The string that is stored fits the buffer with its NUL, and has no NUL inside.
pub get_firmware_string-fits :
    (a : FirmwareAnswer) (outlen : ℕ) (str : List ℕ)
    → 0 < outlen
    → (get_firmware_string a outlen).1 ≡ some str
    → (length str < outlen) × All (λ b. b ≢ 0) str
get_firmware_string-fits a outlen str h e = elim (get_firmware_string-cases a outlen) [
  | inl k ↦ ground (arith, sym k ∙ e)
  | inr k ↦
      let same : until_nul (cut a outlen) ≡ str = ap string_or_empty (sym k.0 ∙ e) in
      rw (← same) (
        omega (
          arith,
          length-until_nul (cut a outlen),
          length-take (min (pos_part a.count) (outlen - 1)) a.bytes,
        ),
        until_nul-nonzero (cut a outlen),
      )
]

-- What the firmware must have said for the driver to send compressed frames.
pub record IsCapable (scan : Scanner) (f : Firmware) : Type 0 where
  pub maj : ℕ
  pub min : ℕ
  pub scanned : scan (skip_v f.string) ≡ maj ∷ min ∷ []
  pub major : f.major ≡ pos maj
  pub minor : f.minor ≡ pos min
  pub small : (maj ≤ s16_max) × (min ≤ s16_max)
  pub recent : (0 < maj) ⊎ (22 ≤ min)

-- The numbers before the string is looked at.
abbrev IsUnset : Firmware → Type 0
IsUnset f = (f.major ≡ negsuc 0) × (f.minor ≡ negsuc 0)

unset_lem : (f : Firmware) → IsUnset f → firmware_supports_lz4 f.major f.minor ≡ false
unfolding firmware_supports_lz4
unset_lem f h = rw (h.0) refl

recent_lem :
    (maj min : ℕ) → firmware_supports_lz4 (pos maj) (pos min) ≡ true → (0 < maj) ⊎ (22 ≤ min)
unfolding firmware_supports_lz4
recent_lem maj min h = ground arith

unset-IsCapable :
    (scan : Scanner) (f : Firmware)
    → IsUnset f
    → firmware_supports_lz4 f.major f.minor ≡ true
    → IsCapable scan f
unset-IsCapable scan f u h = absurd (ground (arith, sym h ∙ unset_lem f u))

version-IsCapable :
    (scan : Scanner) (f : Firmware) (vs : List ℕ)
    → scan (skip_v f.string) ≡ vs
    → IsUnset f
    → firmware_supports_lz4
        (with_version (check_version vs) f).major
        (with_version (check_version vs) f).minor
      ≡ true
    → IsCapable scan (with_version (check_version vs) f)
unfolding with_version check_version
version-IsCapable scan f [] e u h = unset-IsCapable scan f u h
version-IsCapable scan f (a ∷ []) e u h = unset-IsCapable scan f u h
version-IsCapable scan f (maj ∷ min ∷ []) e u h =
    elim (Bool-cases (ltb s16_max maj || ltb s16_max min)) [
      | inl out ↦ rw out (unset-IsCapable scan f u (rw out at h))
      | inr ok ↦ rw ok (record {
        maj = maj;
        min = min;
        scanned = e;
        major = refl;
        minor = refl;
        small = (ground (arith, ok), ground (arith, ok));
        recent = recent_lem maj min (rw ok at h);
      })
    ]
version-IsCapable scan f (a ∷ b ∷ c ∷ cs) e u h = unset-IsCapable scan f u h

finish_firmware-IsCapable :
    (scan : Scanner) (ret : ℤ) (f : Firmware)
    → IsUnset f
    → firmware_supports_lz4
        (finish_firmware scan ret f).1.major
        (finish_firmware scan ret f).1.minor
      ≡ true
    → ((finish_firmware scan ret f).0 ≡ 0) × IsCapable scan (finish_firmware scan ret f).1
unfolding finish_firmware parse_firmware_version
finish_firmware-IsCapable scan ret f u h = elim (Bool-cases (ltb_ℤ ret (pos 0))) [
  | inl low ↦ absurd (ground (arith, sym (rw low at h) ∙ unset_lem f u))
  | inr ok ↦ elim (Bool-cases (pos_part ret == 0)) [
    | inl empty ↦ absurd (ground (arith, sym (rw (ok, empty) at h) ∙ unset_lem f u))
    | inr some_bytes ↦
        rw (ok, some_bytes)
          (
            refl,
            version-IsCapable scan f (scan (skip_v f.string)) refl u (rw (ok, some_bytes) at h),
          )
  ]
]

with_string-IsUnset : (o : Option (List ℕ)) → IsUnset (with_string o unset)
unfolding with_string
with_string-IsUnset none = (refl, refl)
with_string-IsUnset (some str) = (refl, refl)

-- The driver believes that the firmware takes compressed frames only when the query succeeded and
-- the scanner found two numbers in the stored string, past a leading `v`, both fit in 16 bits, and
-- they are a version of 0.22 or later, whatever the scanner and the device answer.
pub get_firmware-IsCapable :
    (scan : Scanner) (a : FirmwareAnswer)
    → firmware_supports_lz4 (get_firmware scan a).1.major (get_firmware scan a).1.minor ≡ true
    → ((get_firmware scan a).0 ≡ 0) × IsCapable scan (get_firmware scan a).1
unfolding get_firmware
get_firmware-IsCapable scan a h =
    let (ret, str) = get_firmware_string a 64 in
    finish_firmware-IsCapable scan ret (with_string str unset) (with_string-IsUnset str) h
