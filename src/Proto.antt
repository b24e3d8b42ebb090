-- ===== src/Proto.antt =====
-- The BOND/1 wire format: core/proto/proto.go. A byte slice is a list of numbers, a packet type is
-- its byte. A marshalling function returns the new contents of `dst`.
pub mod RoundTrip
pub mod Tests
use Prim.Native.Nat.{bit_and}
use Prim.Native.String.{String}
use bondify.Common.{
  ℕ, ◌+◌, ◌^◌, ◌<◌, ◌≡◌, Bool, not, List, [], ◌∷◌, ◌==◌, ltb, if◌then◌else◌, length,
}
use bondify.Common.Bytes.{byte, slice, write, be, of_be}
use bondify.Common.Result.{Result, ok, err}

abbrev pub version : ℕ
version = 1

abbrev pub type_handshake_init : ℕ
type_handshake_init = 0x01

abbrev pub type_handshake_resp : ℕ
type_handshake_resp = 0x02

abbrev pub type_data : ℕ
type_data = 0x10

abbrev pub type_fec : ℕ
type_fec = 0x11

abbrev pub type_probe : ℕ
type_probe = 0x20

abbrev pub type_probe_ack : ℕ
type_probe_ack = 0x21

abbrev pub type_ack : ℕ
type_ack = 0x30

abbrev pub type_path_add : ℕ
type_path_add = 0x40

abbrev pub type_path_drop : ℕ
type_path_drop = 0x41

abbrev pub type_ctrl : ℕ
type_ctrl = 0x50

abbrev pub type_keepalive : ℕ
type_keepalive = 0x60

-- `Type.String`
unfoldable pub type_string : ℕ → String
type_string t =
    if t == type_handshake_init
    then "HANDSHAKE_INIT"
    else if t == type_handshake_resp
    then "HANDSHAKE_RESP"
    else if t == type_data
    then "DATA"
    else if t == type_fec
    then "FEC"
    else if t == type_probe
    then "PROBE"
    else if t == type_probe_ack
    then "PROBE_ACK"
    else if t == type_ack
    then "ACK"
    else if t == type_path_add
    then "PATH_ADD"
    else if t == type_path_drop
    then "PATH_DROP"
    else if t == type_ctrl
    then "CTRL"
    else if t == type_keepalive
    then "KEEPALIVE"
    else "UNKNOWN"

abbrev pub flag_dup : ℕ
flag_dup = 1

abbrev pub flag_rtx : ℕ
flag_rtx = 2

abbrev pub flag_latency : ℕ
flag_latency = 4

abbrev pub flag_bulk : ℕ
flag_bulk = 8

abbrev pub flag_fec_protected : ℕ
flag_fec_protected = 16

abbrev pub flag_push : ℕ
flag_push = 32

abbrev pub outer_fixed_len : ℕ
outer_fixed_len = 8

abbrev pub nonce_len : ℕ
nonce_len = 12

abbrev pub outer_prefix_len : ℕ
outer_prefix_len = outer_fixed_len + nonce_len

abbrev pub auth_tag_len : ℕ
auth_tag_len = 16

abbrev pub inner_header_len : ℕ
inner_header_len = 20

abbrev pub header_overhead : ℕ
header_overhead = outer_prefix_len + inner_header_len + auth_tag_len

abbrev pub fec_header_len : ℕ
fec_header_len = 4

pub data ProtoError : Type 0 where
  short_buffer : ProtoError

pub record OuterHeader : Type 0 where
  pub typ : ℕ
  pub version : ℕ
  pub session_index : ℕ
  pub nonce : List ℕ

-- The ranges of the Go field types.
pub record OuterFits (h : OuterHeader) : Type 0 where
  pub typ_fits : h.typ < 256
  pub version_fits : h.version < 256
  pub index_fits : h.session_index < 2 ^ 32
  pub nonce_fits : length h.nonce ≡ nonce_len

unfoldable pub marshal_outer : List ℕ → OuterHeader → Result ProtoError (List ℕ)
marshal_outer dst h = if ltb (length dst) outer_prefix_len then err short_buffer else ok copied
  where
    typed : List ℕ
    typed = write (write dst 0 (h.typ ∷ [])) 1 (h.version ∷ [])

    reserved : List ℕ
    reserved = write (write typed 2 (0 ∷ [])) 3 (0 ∷ [])

    copied : List ℕ
    copied = write (write reserved 4 (be 4 h.session_index)) 8 h.nonce

-- The header and the number of bytes consumed.
unfoldable pub unmarshal_outer : List ℕ → Result ProtoError (OuterHeader × ℕ)
unmarshal_outer src =
    if ltb (length src) outer_prefix_len
    then err short_buffer
    else ok (
      record {
        typ = byte src 0;
        version = byte src 1;
        session_index = of_be (slice src 4 4);
        nonce = slice src 8 nonce_len;
      },
      outer_prefix_len,
    )

pub record InnerDataHeader : Type 0 where
  pub gsn : ℕ
  pub psn : ℕ
  pub path_id : ℕ
  pub flags : ℕ
  pub payload_len : ℕ
  pub generation_id : ℕ
  pub gen_index : ℕ

-- The ranges of the Go field types.
pub record InnerFits (h : InnerDataHeader) : Type 0 where
  pub gsn_fits : h.gsn < 2 ^ 64
  pub psn_fits : h.psn < 2 ^ 32
  pub path_id_fits : h.path_id < 256
  pub flags_fits : h.flags < 256
  pub payload_len_fits : h.payload_len < 2 ^ 16
  pub generation_id_fits : h.generation_id < 2 ^ 16
  pub gen_index_fits : h.gen_index < 256

unfoldable pub marshal_inner : List ℕ → InnerDataHeader → Result ProtoError (List ℕ)
marshal_inner dst h = if ltb (length dst) inner_header_len then err short_buffer else ok padded
  where
    numbered : List ℕ
    numbered = write (write dst 0 (be 8 h.gsn)) 8 (be 4 h.psn)

    flagged : List ℕ
    flagged = write (write numbered 12 (h.path_id ∷ [])) 13 (h.flags ∷ [])

    sized : List ℕ
    sized = write (write flagged 14 (be 2 h.payload_len)) 16 (be 2 h.generation_id)

    padded : List ℕ
    padded = write (write sized 18 (h.gen_index ∷ [])) 19 (0 ∷ [])

unfoldable pub unmarshal_inner : List ℕ → Result ProtoError (InnerDataHeader × ℕ)
unmarshal_inner src =
    if ltb (length src) inner_header_len
    then err short_buffer
    else ok (
      record {
        gsn = of_be (slice src 0 8);
        psn = of_be (slice src 8 4);
        path_id = byte src 12;
        flags = byte src 13;
        payload_len = of_be (slice src 14 2);
        generation_id = of_be (slice src 16 2);
        gen_index = byte src 18;
      },
      inner_header_len,
    )

unfoldable pub has_flag : ℕ → ℕ → Bool
has_flag flags f = not (bit_and flags f == 0)

pub record FecHeader : Type 0 where
  pub n : ℕ
  pub m : ℕ
  pub w : ℕ

-- The ranges of the Go field types.
pub record FecFits (h : FecHeader) : Type 0 where
  pub n_fits : h.n < 256
  pub m_fits : h.m < 256
  pub w_fits : h.w < 2 ^ 16

unfoldable pub marshal_fec_header : List ℕ → FecHeader → Result ProtoError (List ℕ)
marshal_fec_header dst h =
    if ltb (length dst) fec_header_len
    then err short_buffer
    else ok (write (write (write dst 0 (h.n ∷ [])) 1 (h.m ∷ [])) 2 (be 2 h.w))

unfoldable pub unmarshal_fec_header : List ℕ → Result ProtoError (FecHeader × ℕ)
unmarshal_fec_header src =
    if ltb (length src) fec_header_len
    then err short_buffer
    else ok (record { n = byte src 0; m = byte src 1; w = of_be (slice src 2 2) }, fec_header_len)
