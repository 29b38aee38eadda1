-- ===== src/Mpro/Tests/Protocol.antt =====
-- mpro_protocol.c on concrete answers.
use packages.Base.{◌+◌, ◌*◌, ◌-◌, ◌≡◌, refl, true, [], ◌∷◌}
use packages.Base.Int.{pos}
use packages.Mpro.Protocol.Request.{Answer}
use packages.Mpro.Protocol.Firmware.{
  FirmwareAnswer, Scanner, until_nul, get_firmware_string, skip_v, check_version,
  parse_firmware_version, with_version, with_string, finish_firmware, get_firmware,
}
use packages.Mpro.Protocol.Version.{IsCapable, get_firmware-IsCapable}
use packages.Mpro.Pipeline.Alloc.{firmware_supports_lz4}

-- The answer to the query of the screen: a status byte, then 5.
abbrev screen_five : Answer
screen_five = record { sent = 0; status = 0; payload = 0; bytes = 0x51 ∷ 5 ∷ 0 ∷ 0 ∷ 0 ∷ [] }

-- "v0.25", then a NUL and what was in the buffer.
abbrev answer : FirmwareAnswer
answer = record {
  descriptor = pos 5;
  status = pos 1;
  sub_info = pos 5;
  count = pos 8;
  bytes = 118 ∷ 48 ∷ 46 ∷ 50 ∷ 53 ∷ 0 ∷ 9 ∷ 9 ∷ [];
}

-- Reads one digit, a byte that it takes for the dot, and two digits.
abbrev short_scanner : Scanner
short_scanner (a ∷ dot ∷ b ∷ c ∷ rest) = (a - 48) ∷ ((b - 48) * 10 + (c - 48)) ∷ []
short_scanner s = []

answer_supports :
    firmware_supports_lz4
      (get_firmware short_scanner answer).1.major
      (get_firmware short_scanner answer).1.minor
    ≡ true
unfolding firmware_supports_lz4 get_firmware get_firmware_string until_nul finish_firmware
    with_string with_version parse_firmware_version check_version skip_v
answer_supports = refl

get_firmware-IsCapable_example :
    ((get_firmware short_scanner answer).0 ≡ 0)
    × IsCapable short_scanner (get_firmware short_scanner answer).1
get_firmware-IsCapable_example = get_firmware-IsCapable short_scanner answer answer_supports
