-- ===== src/Beada/Link/Conversation.antt =====
-- The conversation that the device expects on its Panel-Link, as the comments of beada-pipeline.c
-- and beada-priv.h describe it, and the driver's part in it.
use packages.Base.{
  ℕ, ◌*◌, ◌<◌, ◌≡◌, refl, ◌∙◌, List, [], ◌∷◌, arith, false, not, ◌&&◌, ◌||◌, ◌==◌, length, take,
  ltb, Bool-cases, inl, inr,
}
use packages.Beada.Link.Device.{
  Packet, to_panel, to_status, piece, bus_back, Link, Host, Bulk, bulk_out, bulk_result,
}
use packages.Beada.Link.Frames.{start_tag, send_pixels, after_start, pl_send, max_frame_bytes}

-- What the device may receive, latest packet first, and the dimensions that it has latched then, 0
-- by 0 for none: a START tag only when it has latched nothing, and a tag of which a part is missing
-- latches nothing; pixels only of the size that it has latched, in full or the beginning of them;
-- commands, or the beginning of one, at any time. A bus that comes back starts a new session.
pub data Conversation (host : Host) : List Packet → ℕ → ℕ → Type 0 where
  silent : Conversation host [] 0 0
  started :
      {ps : List Packet} (w h : ℕ)
      → 0 < w
      → 0 < h
      → Conversation host ps 0 0
      → Conversation host (start_tag host w h ∷ ps) w h
  started_in_part :
      {ps : List Packet} (w h n : ℕ)
      → 0 < w
      → 0 < h
      → n < 270
      → Conversation host ps 0 0
      → Conversation host (piece (start_tag host w h) n ∷ ps) 0 0
  shown_in_part :
      {ps : List Packet} {w h : ℕ} (pixels : List ℕ) (n : ℕ)
      → length pixels ≡ w * h * 2
      → 0 < w
      → Conversation host ps w h
      → Conversation host (piece (to_panel pixels) n ∷ ps) w h
  commanded_in_part :
      {ps : List Packet} {w h : ℕ} (command : List ℕ) (n : ℕ)
      → Conversation host ps w h
      → Conversation host (piece (to_status command) n ∷ ps) w h
  shown :
      {ps : List Packet} {w h : ℕ} (pixels : List ℕ)
      → length pixels ≡ w * h * 2
      → 0 < w
      → Conversation host ps w h
      → Conversation host (to_panel pixels ∷ ps) w h
  commanded :
      {ps : List Packet} {w h : ℕ} (command : List ℕ)
      → Conversation host ps w h
      → Conversation host (to_status command ∷ ps) w h
  resumed :
      {ps : List Packet} {w h : ℕ}
      → Conversation host ps w h
      → Conversation host (bus_back ∷ ps) 0 0

-- A transfer of `len` bytes that is reported as failed has left out a part.
abbrev pub IsPartial : Bulk → ℕ → Type 0
IsPartial b len = (bulk_result b len == 0) ≡ false → b.transferred < len

pub transfer-Conversation :
    {host : Host} {ps qs : List Packet} {v w g h : ℕ}
    → qs ≡ ps
    → v ≡ w
    → g ≡ h
    → Conversation host ps w h
    → Conversation host qs v g
transfer-Conversation e f g c = rw (e, f, g) c

-- The conversation of a device whose state the driver knows.
abbrev pub IsTalking : Host → Link → Type 0
IsTalking host l = Conversation host l.wire l.cached_w l.cached_h

module _ (host : Host) where
  send_pixels-IsTalking :
      (body : Bulk) (buf : List ℕ) (len : ℕ) (l : Link)
      → 0 < l.cached_w
      → length (take len buf) ≡ l.cached_w * l.cached_h * 2
      → IsTalking host l
      → IsTalking host (send_pixels body buf len l).1
  unfolding send_pixels bulk_out
  send_pixels-IsTalking body buf len l wide full c = elim (Bool-cases (ltb max_frame_bytes len)) [
    | inl large ↦ rw large c
    | inr fits ↦ elim (Bool-cases (bulk_result body len == 0)) [
      | inl done ↦ rw (fits, done) (shown (take len buf) full wide c)
      | inr failed ↦ rw (fits, failed) (shown_in_part (take len buf) body.transferred full wide c)
    ]
  ]

  pub pl_send-IsTalking :
      (tag body : Bulk) (buf : List ℕ) (len w h : ℕ) (l : Link)
      → 0 < w
      → 0 < h
      → length (take len buf) ≡ w * h * 2
      → IsPartial tag 270
      → IsTalking host l
      → IsTalking host (pl_send host tag body buf len w h l).1
  unfolding pl_send after_start bulk_out
  pl_send-IsTalking tag body buf len w h l wide high full part c =
      elim (Bool-cases (l.cached_w == 0 && l.cached_h == 0)) [
        | inl fresh ↦ elim (Bool-cases (bulk_result tag 270 == 0)) [
          | inl done ↦
              rw (fresh, done)
                (send_pixels-IsTalking body buf len
                  (record l { wire = start_tag host w h ∷ l.wire; cached_w = w; cached_h = h }) wide
                  full
                  (started w h wide high
                    (transfer-Conversation refl (ground arith) (ground arith) c)))
          | inr failed ↦
              rw (fresh, failed)
                (transfer-Conversation refl (ground arith) (ground arith) (
                  started_in_part w h tag.transferred wide high (part failed)
                    (transfer-Conversation refl (ground arith) (ground arith) c)))
        ]
        | inr latched ↦ elim (Bool-cases (not (w == l.cached_w) || not (h == l.cached_h))) [
          | inl other ↦ rw (latched, other) c
          | inr same ↦
              rw (latched, same)
                (send_pixels-IsTalking body buf len l (ground arith) (full ∙ ground arith) c)
        ]
      ]
