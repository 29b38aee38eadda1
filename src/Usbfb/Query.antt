-- ===== src/Usbfb/Query.antt =====
-- usbfb.c: the two queries of the probe, usbfb_get_info and usbfb_get_version.
use packages.Base.{
  ℕ, ◌+◌, ◌*◌, ◌^◌, ◌≡◌, inl, inr, refl, Bool, Bool-cases, true, false, List, [], ◌∷◌,
  if◌then◌else◌, arith,
}
use packages.Base.Int.{ℤ, pos, ltb_ℤ}
use packages.Usbfb.Geometry.{Geometry, choose_geometry, info_code}
use packages.Usbfb.Screen.{Screen, put}

-- What `usb_control_msg` returns in the three steps, and the bytes that arrive in the last two.
pub record Reply : Type 0 where
  pub sent : ℤ
  pub status : ℤ
  pub payload : ℤ
  pub first : List ℕ
  pub bytes : List ℕ

-- The bytes of the query; the last one is 0xfc for the information and 0xf8 for the version.
abbrev pub query_bytes : ℕ → List ℕ
query_bytes code = 0x51 ∷ 0x02 ∷ 0x04 ∷ 0x1f ∷ code ∷ []

-- `usbfb_get_info` and `usbfb_get_version`: whether the result is 1, and the state.
unfoldable pub query : ℕ → Reply → Screen → Bool × Screen
query code r s =
    let asked = record s { cmd = put (query_bytes code) s.cmd; cmd_len = 5 } in
    if ltb_ℤ r.sent (pos 5)
    then (false, asked)
    else let answered = record asked { cmd = put r.first asked.cmd; cmd_len = 1 } in
      if ltb_ℤ r.status (pos 1)
      then (false, answered)
      else let read = record answered { cmd = put r.bytes answered.cmd; cmd_len = 5 } in
        if ltb_ℤ r.payload (pos 5) then (false, read) else (true, record read { cmd_len = 0 })

-- The geometry that the probe takes after the query of the information, whatever its result.
unfoldable pub probe_geometry : Reply → Screen → Geometry
probe_geometry r s = choose_geometry (info_code (query 0xfc r s).1.cmd)

-- The reply to a query: a status byte and a code of four bytes.
abbrev reply_bytes : ℕ → ℕ → ℕ → ℕ → ℕ → List ℕ
reply_bytes s a b c d = s ∷ a ∷ b ∷ c ∷ d ∷ []

-- If the query of the information succeeds, the probe takes the geometry of the code that the screen
-- named, in little endian after a status byte, and leaves no command behind.
pub probe_geometry-code :
    (r : Reply) (s : Screen) (t a b c d : ℕ)
    → r.bytes ≡ reply_bytes t a b c d
    → (query 0xfc r s).0 ≡ true
    → (probe_geometry r s ≡ choose_geometry (a + 2 ^ 8 * b + 2 ^ 16 * c + 2 ^ 24 * d))
      × ((query 0xfc r s).1.cmd_len ≡ 0)
unfolding probe_geometry query info_code
probe_geometry-code r s t a b c d e done = elim (Bool-cases (ltb_ℤ r.sent (pos 5))) [
  | inl low ↦ absurd (ground (arith, rw low at done))
  | inr sent ↦ elim (Bool-cases (ltb_ℤ r.status (pos 1))) [
    | inl low ↦ absurd (ground (arith, rw (sent, low) at done))
    | inr status ↦ elim (Bool-cases (ltb_ℤ r.payload (pos 5))) [
      | inl low ↦ absurd (ground (arith, rw (sent, status, low) at done))
      | inr payload ↦ rw (sent, status, payload, e) (refl, refl)
    ]
  ]
]
