-- ===== src/Packets.antt =====
-- core/bond/data.go and core/bond/control.go: sealed packets on the wire. CBOR is a parameter of
-- its users; here a control payload is its bytes.
pub mod RoundTrip
pub mod Tamper
pub mod Tests
use bondify.Common.{ℕ, ◌+◌, List, [], ◌∷◌, ◌++◌, length, drop, replicate}
use bondify.Common.Bytes.{write, be}
use bondify.Common.Result.{Result, ok, err, ◌>>=◌}
use bondify.Crypto.Session.{Aead, Session, CryptoError, seal, unseal}
use bondify.Proto.{
  ProtoError, OuterHeader, InnerDataHeader, marshal_outer, marshal_inner, unmarshal_inner, version,
  outer_fixed_len, outer_prefix_len, inner_header_len,
}

pub data PacketError : Type 0 where
  proto : ProtoError → PacketError
  crypto : CryptoError → PacketError

abbrev pub of_proto : {A : Type 0} → Result ProtoError A → Result PacketError A
of_proto (ok a) = ok a
of_proto (err e) = err (proto e)

abbrev pub of_crypto : {A : Type 0} → Result CryptoError A → Result PacketError A
of_crypto (ok a) = ok a
of_crypto (err e) = err (crypto e)

-- `be32(dst[at:], v)`
abbrev pub be32 : List ℕ → ℕ → ℕ → List ℕ
be32 dst at v = write dst at (be 4 v)

-- adBuf: the outer prefix's fixed fields, the reserved ones zero.
unfoldable pub associated_data : ℕ → ℕ → ℕ → List ℕ
associated_data typ vers session_index =
    be32 (write (write (replicate outer_fixed_len 0) 0 (typ ∷ [])) 1 (vers ∷ [])) 4 session_index

-- MarshalOuter into a buffer for prefix and ciphertext, then the copy.
unfoldable pub with_outer : ℕ → ℕ → List ℕ × List ℕ → Result PacketError (List ℕ)
with_outer typ session_index (ciphertext, nonce) =
    of_proto (
      marshal_outer (replicate (outer_prefix_len + length ciphertext) 0)
        (record { typ = typ; version = version; session_index = session_index; nonce = nonce }))
    >>= λ out. ok (write out outer_prefix_len ciphertext)

-- The inner header and the payload in one buffer.
unfoldable pub inner_plaintext : InnerDataHeader → List ℕ → Result PacketError (List ℕ)
inner_plaintext inner payload =
    of_proto (marshal_inner (replicate (inner_header_len + length payload) 0) inner) >>= λ buf.
    ok (write buf inner_header_len payload)

-- UnmarshalInner, and what follows the bytes it consumed.
unfoldable pub parse_inner : List ℕ → Result PacketError (InnerDataHeader × List ℕ)
parse_inner plaintext = of_proto (unmarshal_inner plaintext) >>= λ r. ok (r.0, drop r.1 plaintext)

module _ (aead : Aead) where
  unfoldable pub seal_control : Session → ℕ → ℕ → ℕ → List ℕ → Result PacketError (List ℕ) × Session
  seal_control sess typ session_index path payload =
      let (sealed, sess') =
        seal aead sess path payload (associated_data typ version session_index) in
      (of_crypto sealed >>= with_outer typ session_index, sess')

  -- The rest of sealPacket is sealControl's code, on the inner plaintext.
  abbrev pub seal_inner :
      Session → ℕ → ℕ → ℕ → Result PacketError (List ℕ) → Result PacketError (List ℕ) × Session
  seal_inner sess typ session_index path (err e) = (err e, sess)
  seal_inner sess typ session_index path (ok plaintext) =
      seal_control sess typ session_index path plaintext

  unfoldable pub seal_packet :
      Session → ℕ → ℕ → ℕ → InnerDataHeader → List ℕ → Result PacketError (List ℕ) × Session
  seal_packet sess typ session_index path inner payload =
      seal_inner sess typ session_index path (inner_plaintext inner payload)

  unfoldable pub open_control :
      Session → OuterHeader → ℕ → List ℕ → Result CryptoError (List ℕ) × Session
  open_control sess oh path ciphertext =
      unseal aead sess path ciphertext (associated_data oh.typ oh.version oh.session_index) oh.nonce

  unfoldable pub open_packet :
      Session → OuterHeader → ℕ → List ℕ → Result PacketError (InnerDataHeader × List ℕ) × Session
  open_packet sess oh path ciphertext =
      let (opened, sess') = open_control sess oh path ciphertext in
      (of_crypto opened >>= parse_inner, sess')
