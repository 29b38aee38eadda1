-- ===== src/Mpro/Protocol/Firmware.antt =====
-- mpro_protocol.c: the firmware's version string and its two numbers.
use packages.Base.{
  ℕ, ◌-◌, min, Option, none, some, List, [], ◌∷◌, ◌==◌, ◌||◌, ltb, take, if◌then◌else◌,
}
use packages.Base.Int.{ℤ, pos, negsuc, ltb_ℤ, pos_part, neg_part}
use packages.Base.Errno.{Ret, einval, erange, eio}

-- What `usb_control_msg` returns in the four steps, a count or -errno, and the bytes that are in the
-- buffer after the last one.
pub record FirmwareAnswer : Type 0 where
  pub descriptor : ℤ
  pub status : ℤ
  pub sub_info : ℤ
  pub count : ℤ
  pub bytes : List ℕ

-- `sscanf` with the format "%u.%u": the values of the conversions that were made.
abbrev pub Scanner : Type 0
Scanner = List ℕ → List ℕ

-- The firmware's fields of `struct mpro_device`; a string is its bytes without the final NUL.
pub record Firmware : Type 0 where
  pub major : ℤ
  pub minor : ℤ
  pub string : List ℕ

-- The bytes before the first NUL.
unfoldable pub until_nul : List ℕ → List ℕ
until_nul [] = []
until_nul (b ∷ bs) = let rest = until_nul bs in if b == 0 then [] else b ∷ rest

-- `mpro_get_firmware_string` with a buffer of `outlen` bytes: the result, and the string if one was
-- written.
unfoldable pub get_firmware_string : FirmwareAnswer → ℕ → ℤ × Option (List ℕ)
get_firmware_string a outlen =
    if ltb_ℤ a.descriptor (pos 0)
    then (a.descriptor, none)
    else if ltb_ℤ a.status (pos 0)
    then (a.status, none)
    else if ltb_ℤ a.sub_info (pos 0)
    then (a.sub_info, none)
    else if ltb_ℤ (pos 0) a.count
    then (a.count, some (until_nul (take (min (pos_part a.count) (outlen - 1)) a.bytes)))
    else (a.count, none)

-- A leading 'v' or 'V' is skipped.
unfoldable pub skip_v : List ℕ → List ℕ
skip_v [] = []
skip_v (c ∷ cs) = if c == 118 || c == 86 then cs else c ∷ cs

-- S16_MAX.
abbrev pub s16_max : ℕ
s16_max = 32767

unfoldable pub check_version : List ℕ → Ret × Option (ℕ × ℕ)
check_version [] = (einval, none)
check_version (a ∷ []) = (einval, none)
check_version (maj ∷ min ∷ []) =
    if ltb s16_max maj || ltb s16_max min then (erange, none) else (0, some (maj, min))
check_version (a ∷ b ∷ c ∷ cs) = (einval, none)

-- `mpro_parse_firmware_version`: the result, and the two numbers if they are stored.
unfoldable pub parse_firmware_version : Scanner → List ℕ → Ret × Option (ℕ × ℕ)
parse_firmware_version scan str = check_version (scan (skip_v str))

-- "unknown".
abbrev pub unknown : List ℕ
unknown = 117 ∷ 110 ∷ 107 ∷ 110 ∷ 111 ∷ 119 ∷ 110 ∷ []

unfoldable pub with_version : Ret × Option (ℕ × ℕ) → Firmware → Firmware
with_version (ret, none) f = f
with_version (ret, some (maj, min)) f = record f { major = pos maj; minor = pos min }

unfoldable pub with_string : Option (List ℕ) → Firmware → Firmware
with_string none f = f
with_string (some str) f = record f { string = str }

-- `mpro_get_firmware` past the query of the string, which returned `ret`.
unfoldable pub finish_firmware : Scanner → ℤ → Firmware → Ret × Firmware
finish_firmware scan ret f =
    if ltb_ℤ ret (pos 0)
    then (neg_part ret, f)
    else if pos_part ret == 0
    then (eio, f)
    else (0, with_version (parse_firmware_version scan f.string) f)

-- The values that are stored before anything can fail.
abbrev pub unset : Firmware
unset = record { major = negsuc 0; minor = negsuc 0; string = unknown }

-- `mpro_get_firmware`; the field has 64 bytes.
unfoldable pub get_firmware : Scanner → FirmwareAnswer → Ret × Firmware
get_firmware scan a =
    let (ret, str) = get_firmware_string a 64 in finish_firmware scan ret (with_string str unset)
