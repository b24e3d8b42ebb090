-- ===== src/Pairing/Header.antt =====
-- The four-byte header of a pairing message.
use bondify.Common.{ℕ, ◌<◌, ◌^◌, ◌≡◌, refl, arith, length}
use bondify.Common.Bytes.{write, overwrite, be, of_be-be}
use bondify.Common.Result.{ok}
use bondify.Pairing.{marshal_header, unmarshal_header}

-- UnmarshalHeader reads back the type and the payload length that MarshalHeader wrote, if they fit in
-- a byte and in two, and the header is four bytes long.
pub header_round_trip :
    (msg_type payload_len : ℕ)
    → msg_type < 256
    → payload_len < 2 ^ 16
    → (length (marshal_header msg_type payload_len) ≡ 4)
      × (unmarshal_header (marshal_header msg_type payload_len) ≡ ok (msg_type, payload_len))
unfolding marshal_header unmarshal_header write overwrite be
header_round_trip msg_type payload_len small fits =
    (refl, ground (arith, of_be-be 2 payload_len fits))
