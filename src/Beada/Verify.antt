-- ===== src/Beada/Verify.antt =====
-- kernel/beadapanel/src/beada-protocol.c: a receiver's test of the checksum.
use packages.Base.{
  ℕ, ◌+◌, ◌-◌, ◌*◌, ◌/◌, ◌%◌, ◌^◌, ◌<◌, ◌≤◌, ◌≡◌, refl, Bool, true, false, Option, ltb, ◌&&◌, zero,
  suc, ap, ◌∙◌, take, replicate, length-take, length-replicate, length-append, none, some, List, [],
  ◌∷◌, ◌++◌, arith, length, All,
}
use packages.Beada.Checksum.{
  panel_link, status_link, sum_words, fold_sum, checksum16, store16, padded, format_field, pl_body,
  pl_fill_tag, sl_body, sl_fill_tag,
}

-- The complement of the folded sum brings the sum to a multiple of 65535 that is not 0.
fold_sum-closes : (s : ℕ) → s < 2 ^ 32 - 65536 → fold_sum (s + fold_sum s) ≡ 0
unfolding fold_sum
fold_sum-closes s h = omega arith

fold_sum-small : (s : ℕ) → fold_sum s < 65536
unfolding fold_sum
fold_sum-small s = omega arith

abbrev pub IsByte : ℕ → Type 0
IsByte b = b < 256

sum_words-append :
    (bs : List ℕ) (lo hi : ℕ)
    → length bs % 2 ≡ 0
    → sum_words (bs ++ lo ∷ hi ∷ []) ≡ sum_words bs + (lo + 256 * hi)
unfolding sum_words
sum_words-append [] lo hi e = omega arith
sum_words-append (b ∷ []) lo hi e = absurd (omega arith)
sum_words-append (b ∷ c ∷ bs) lo hi e = omega (arith, sum_words-append bs lo hi (omega arith))

sum_words_bound : (bs : List ℕ) → All IsByte bs → 2 * sum_words bs ≤ 65535 * length bs
unfolding sum_words
sum_words_bound [] h = omega arith
sum_words_bound (b ∷ []) h = omega arith
sum_words_bound (b ∷ c ∷ bs) h = omega (arith, h.0, h.1.0, sum_words_bound bs h.1.1)

-- A message of whole words, followed by its checksum as a little-endian host stores it.
checksum16-closes :
    (bs : List ℕ)
    → All IsByte bs
    → length bs % 2 ≡ 0
    → length bs ≤ 131000
    → checksum16 (bs ++ store16 false (checksum16 bs)) ≡ 0
unfolding checksum16 store16
checksum16-closes bs h e l =
    let s = sum_words bs in
    let c = checksum16 bs in
    let small : s < 2 ^ 32 - 65536 = omega (arith, sum_words_bound bs h) in
    let fits : s % 2 ^ 32 ≡ s = omega arith in
    let c_is : c ≡ fold_sum s = ap fold_sum fits in
    let total : sum_words (bs ++ c % 256 ∷ c / 256 % 256 ∷ []) % 2 ^ 32 ≡ s + fold_sum s =
      omega (arith, sum_words-append bs (c % 256) (c / 256 % 256) e, c_is, fold_sum-small s) in
    ap fold_sum total ∙ fold_sum-closes s small

All-append : (xs ys : List ℕ) → All IsByte xs → All IsByte ys → All IsByte (xs ++ ys)
All-append [] ys h k = k
All-append (x ∷ xs) ys h k = (h.0, All-append xs ys h.1 k)

All-take : (n : ℕ) (xs : List ℕ) → All IsByte xs → All IsByte (take n xs)
All-take zero xs h = tt
All-take (suc n) [] h = tt
All-take (suc n) (x ∷ xs) h = (h.0, All-take n xs h.1)

All-zeros : (n : ℕ) → All IsByte (replicate n 0)
All-zeros zero = tt
All-zeros (suc n) = (omega arith, All-zeros n)

abbrev all_below : List ℕ → Bool
all_below [] = true
all_below (b ∷ bs) = ltb b 256 && all_below bs

bytes_below : (bs : List ℕ) → all_below bs ≡ true → All IsByte bs
bytes_below [] h = tt
bytes_below (b ∷ bs) h = (ground arith, bytes_below bs (ground arith))

-- The bytes of a format string, when there is one.
abbrev pub format_bytes : Option (List ℕ) → List ℕ
format_bytes none = []
format_bytes (some str) = str

length-format_field : (fmt : Option (List ℕ)) → length (format_field fmt) ≡ 256
unfolding format_field padded
length-format_field none = length-replicate {A = ℕ} 256 0
length-format_field (some str) =
    let kept = take 255 str in
    omega (
      arith,
      length-append kept (replicate (256 - length kept) 0),
      length-replicate {A = ℕ} (256 - length kept) 0,
      length-take 255 str,
    )

format_field-All :
    (fmt : Option (List ℕ)) → All IsByte (format_bytes fmt) → All IsByte (format_field fmt)
unfolding format_field padded
format_field-All none h = All-zeros 256
format_field-All (some str) h =
    All-append (take 255 str) (replicate (256 - length (take 255 str)) 0) (All-take 255 str h)
      (All-zeros (256 - length (take 255 str)))

pl_body-All :
    (type : ℕ) (fmt : Option (List ℕ))
    → All IsByte (format_bytes fmt)
    → All IsByte (pl_body type fmt) × (length (pl_body type fmt) ≡ 268)
unfolding pl_body
pl_body-All type fmt h = (
  All-append panel_link (1 ∷ type % 256 ∷ format_field fmt) (bytes_below panel_link refl)
      (omega arith, (omega arith, format_field-All fmt h)),
  omega (arith, length-format_field fmt),
)

sl_body-All :
    (type packet_len : ℕ)
    → All IsByte (sl_body type packet_len) × (length (sl_body type packet_len) ≡ 18)
unfolding sl_body
sl_body-All type packet_len =
    let end : List ℕ =
      2 ∷ type % 256 ∷ 0 ∷ 0 ∷ 0 ∷ packet_len % 256 ∷ packet_len / 256 % 256 ∷ [] in
    (
      All-append status_link end (bytes_below status_link refl) (
        omega arith,
        (
          omega arith,
          (omega arith, (omega arith, (omega arith, (omega arith, (omega arith, tt))))),
        ),
      ),
      refl,
    )

length-stored : (bs : List ℕ) (c : ℕ) → length (bs ++ store16 false c) ≡ length bs + 2
unfolding store16
length-stored bs c = length-append bs (c % 256 ∷ c / 256 % 256 ∷ [])

-- Both headers, for any type, length and format string of bytes, on a little-endian host: they have
-- their 270 and 20 bytes, and the checksum of the whole header, its checksum included, is 0.
pub fill_tag-closes :
    (type packet_len : ℕ) (fmt : Option (List ℕ))
    → All IsByte (format_bytes fmt)
    → (length (pl_fill_tag false type fmt) ≡ 270)
      × (checksum16 (pl_fill_tag false type fmt) ≡ 0)
      × (length (sl_fill_tag false type packet_len) ≡ 20)
      × (checksum16 (sl_fill_tag false type packet_len) ≡ 0)
unfolding pl_fill_tag sl_fill_tag
fill_tag-closes type packet_len fmt h =
    let (pl_bytes, pl_len) = pl_body-All type fmt h in
    let (sl_bytes, sl_len) = sl_body-All type packet_len in
    let pl = pl_body type fmt in
    let sl = sl_body type packet_len in
    (
      omega (arith, length-stored pl (checksum16 pl)),
      checksum16-closes pl pl_bytes (omega (arith, pl_len)) (omega (arith, pl_len)),
      omega (arith, length-stored sl (checksum16 sl)),
      checksum16-closes sl sl_bytes (omega (arith, sl_len)) (omega (arith, sl_len)),
    )
