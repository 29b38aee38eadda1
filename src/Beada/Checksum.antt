-- ===== src/Beada/Checksum.antt =====
-- kernel/beadapanel/src/beada-protocol.c: the checksum and the two message headers, as bytes.
use packages.Base.{
  ℕ, ◌+◌, ◌-◌, ◌*◌, ◌/◌, ◌%◌, ◌^◌, Bool, Option, none, some, List, [], ◌∷◌, ◌++◌, take, replicate,
  length, if◌then◌else◌,
}

-- The sum of the 16-bit words, little endian; an odd byte at the end is left out.
unfoldable pub sum_words : List ℕ → ℕ
sum_words [] = 0
sum_words (b ∷ []) = 0
sum_words (lo ∷ hi ∷ bs) = lo + 256 * hi + sum_words bs

-- The two folds of the carries into 16 bits, and the complement.
unfoldable pub fold_sum : ℕ → ℕ
fold_sum sum =
    let once = (sum / 65536 + sum % 65536) % 2 ^ 32 in
    let twice = (once + once / 65536) % 2 ^ 32 in 65535 - twice % 65536

-- `beada_checksum16`, with an `unsigned long` of 32 bits.
unfoldable pub checksum16 : List ℕ → ℕ
checksum16 bytes = fold_sum (sum_words bytes % 2 ^ 32)

-- A `__sum16` as it lies in memory: the code stores it in the byte order of the host.
unfoldable pub store16 : Bool → ℕ → List ℕ
store16 big_endian v =
    if big_endian then v / 256 % 256 ∷ v % 256 ∷ [] else v % 256 ∷ v / 256 % 256 ∷ []

-- `strscpy` into a zeroed field of `size` bytes: at most `size - 1` bytes, then zeros. The string
-- has no NUL inside.
unfoldable pub padded : ℕ → List ℕ → List ℕ
padded size str = let kept = take (size - 1) str in kept ++ replicate (size - length kept) 0

-- "PANEL-LINK" and "STATUS-LINK".
abbrev pub panel_link : List ℕ
panel_link = 80 ∷ 65 ∷ 78 ∷ 69 ∷ 76 ∷ 45 ∷ 76 ∷ 73 ∷ 78 ∷ 75 ∷ []

abbrev pub status_link : List ℕ
status_link = 83 ∷ 84 ∷ 65 ∷ 84 ∷ 85 ∷ 83 ∷ 45 ∷ 76 ∷ 73 ∷ 78 ∷ 75 ∷ []

unfoldable pub format_field : Option (List ℕ) → List ℕ
format_field none = replicate 256 0
format_field (some str) = padded 256 str

-- The first 268 bytes of `struct panellink_tag`; PL_VERSION is 1.
unfoldable pub pl_body : ℕ → Option (List ℕ) → List ℕ
pl_body type fmt = panel_link ++ (1 ∷ type % 256 ∷ format_field fmt)

-- `pl_fill_tag`.
unfoldable pub pl_fill_tag : Bool → ℕ → Option (List ℕ) → List ℕ
pl_fill_tag big_endian type fmt =
    pl_body type fmt ++ store16 big_endian (checksum16 (pl_body type fmt))

-- The first 18 bytes of `struct statuslink_tag`; SL_VERSION is 2.
unfoldable pub sl_body : ℕ → ℕ → List ℕ
sl_body type packet_len =
    status_link ++ (2 ∷ type % 256 ∷ 0 ∷ 0 ∷ 0 ∷ packet_len % 256 ∷ packet_len / 256 % 256 ∷ [])

-- `sl_fill_tag`.
unfoldable pub sl_fill_tag : Bool → ℕ → ℕ → List ℕ
sl_fill_tag big_endian type packet_len =
    sl_body type packet_len ++ store16 big_endian (checksum16 (sl_body type packet_len))
