-- ===== src/Mpro/Protocol/Exchange.antt =====
-- mpro_protocol.c: what a caller of the query gets.
use packages.Base.{
  ℕ, ◌+◌, ◌<◌, ◌^◌, ◌≡◌, true, some, List, ◌∷◌, arith, not, ◌&&◌, ◌==◌, flag, length, is_some, ◌||◌,
}
use packages.Mpro.Pipeline.Submit.{le32}
use packages.Mpro.Protocol.Request.{Answer, make_request, request_u32}

-- Something is stored for the caller exactly when all three steps succeed and bytes were asked for;
-- each step is made only when the ones before it succeeded; and a query without an answer ends after
-- the first step, with its result.
pub make_request-steps :
    (a : Answer) (tx : List ℕ) (rxlen : ℕ)
    → let (ts, ret, rx) = make_request a tx rxlen in
      let asks = not (rxlen == 0) in
      (is_some rx ≡ (asks && (a.sent == 0 && (a.status == 0 && a.payload == 0))))
      × ((ret == 0) ≡ (a.sent == 0 && (not asks || (a.status == 0 && a.payload == 0))))
      × (length ts ≡ 1 + flag (asks && a.sent == 0) + flag (asks && (a.sent == 0 && a.status == 0)))
unfolding make_request
make_request-steps a tx rxlen = ground arith

-- A device that answers a query with a status byte, whatever it is, and a 32-bit number in little
-- endian gives the caller that number.
pub request_u32-value :
    (a : Answer) (tx : List ℕ) (status v : ℕ)
    → v < 2 ^ 32
    → a.sent ≡ 0
    → a.status ≡ 0
    → a.payload ≡ 0
    → a.bytes ≡ status ∷ le32 v
    → request_u32 true a tx ≡ (0, some v)
unfolding request_u32
request_u32-value a tx status v hv hs ht hp hb = ground arith
