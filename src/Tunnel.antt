-- ===== src/Tunnel.antt =====
-- What core/bond/client.go and core/bond/relay.go share: counters, headers, the payloads of
-- control packets. CBOR of github.com/fxamacker/cbor is a parameter.
use bondify.Common.{
  ℕ, ◌+◌, ◌%◌, ◌^◌, Bool, Option, none, some, List, [], ◌∷◌, ◌==◌, if◌then◌else◌, length,
}
use bondify.Common.Result.{Result, ok, err}
use bondify.BondPath.{BondPath, Stats, ProbePayload, ProbeAckPayload}
use bondify.Fec.Receiver.{FecGenBuffer, Shards, handle_data, unmarshal_recovered}
use bondify.Fec.Sender.{FecSender, next_slot}
use bondify.Common.Int.{ℤ}
use bondify.Packets.{PacketError, inner_plaintext}
use bondify.Proto.{InnerDataHeader, flag_fec_protected, flag_push, has_flag}
use bondify.Reorder.{Buffer, push}
use bondify.Reorder.Heap.{Packet}

pub record PathAddPayload : Type 0 where
  pub path_id : ℕ

-- `is_ack` is the test of Kind against "path_add_ack".
pub record CtrlPathAddAck : Type 0 where
  pub is_ack : Bool
  pub path_id : ℕ

-- HandshakeRespPayload, with addresses as numbers.
pub record HandshakeRespPayload : Type 0 where
  pub session_index : ℕ
  pub tunnel_ip : ℕ
  pub prefix : ℕ
  pub gateway_ip : ℕ
  pub dns : List ℕ
  pub mtu : ℕ
  pub keepalive_sec : ℕ

-- marshalCBOR and unmarshalCBOR at the payload types; none is an error.
pub record Cbor : Type 0 where
  pub marshal_probe : ProbePayload → Option (List ℕ)
  pub unmarshal_probe : List ℕ → Option ProbePayload
  pub marshal_probe_ack : ProbeAckPayload → Option (List ℕ)
  pub unmarshal_probe_ack : List ℕ → Option ProbeAckPayload
  pub marshal_path_add : PathAddPayload → Option (List ℕ)
  pub unmarshal_path_add : List ℕ → Option PathAddPayload
  pub marshal_path_add_ack : CtrlPathAddAck → Option (List ℕ)
  pub unmarshal_path_add_ack : List ℕ → Option CtrlPathAddAck
  pub marshal_handshake_resp : HandshakeRespPayload → Option (List ℕ)
  pub unmarshal_handshake_resp : List ℕ → Option HandshakeRespPayload

abbrev pub next_u64 : ℕ → ℕ
next_u64 n = (n + 1) % 2 ^ 64

abbrev pub count_tx : ℕ → Stats → Stats
count_tx bytes s = record s {
  tx_packets = next_u64 s.tx_packets;
  tx_bytes = (s.tx_bytes + bytes) % 2 ^ 64;
}

abbrev pub count_rx : ℕ → Stats → Stats
count_rx bytes s = record s {
  rx_packets = next_u64 s.rx_packets;
  rx_bytes = (s.rx_bytes + bytes) % 2 ^ 64;
}

abbrev pub count_error : Stats → Stats
count_error s = record s { rx_errors = next_u64 s.rx_errors }

-- The header of a DATA packet with no generation.
abbrev pub data_header : ℕ → ℕ → ℕ → ℕ → ℕ → InnerDataHeader
data_header gsn psn path flags size = record {
  gsn = gsn;
  psn = psn;
  path_id = path;
  flags = flags;
  payload_len = size % 2 ^ 16;
  generation_id = 0;
  gen_index = 0;
}

-- `fecSend != nil`: the slot and the sender after NextSlot.
abbrev pub take_slot : ℕ → Option FecSender → Option (ℕ × ℕ) × Option FecSender
take_slot now none = (none, none)
take_slot now (some f) = let (slot, f') = next_slot f now in (some slot, some f')

abbrev pub with_slot : InnerDataHeader → Option (ℕ × ℕ) → InnerDataHeader
with_slot h none = h
with_slot h (some (gen_id, gen_index)) = record h {
  generation_id = gen_id;
  gen_index = gen_index % 256;
  flags = flag_fec_protected;
}

-- The header of a parity packet.
abbrev pub fec_header : ℕ → ℕ → ℕ → ℕ → ℕ → InnerDataHeader
fec_header psn path size gen_id gen_index = record (data_header 0 psn path 0 size) {
  generation_id = gen_id;
  gen_index = gen_index % 256;
}

abbrev pub packet_of : InnerDataHeader → List ℕ → Packet
packet_of h payload = record { gsn = h.gsn; payload = payload; push = has_flag h.flags flag_push }

abbrev pub keep_shard :
    FecGenBuffer → ℤ → InnerDataHeader → Result PacketError (List ℕ) → FecGenBuffer
keep_shard b now h (err e) = b
keep_shard b now h (ok plaintext) = handle_data b now h.generation_id h.gen_index plaintext

-- The last lines of the DATA case: a protected packet is kept for its generation.
unfoldable pub protect : Option FecGenBuffer → ℤ → InnerDataHeader → List ℕ → Option FecGenBuffer
protect none now h payload = none
protect (some b) now h payload =
    if has_flag h.flags flag_fec_protected
    then some (keep_shard b now h (inner_plaintext h payload))
    else some b

abbrev pub parsed_into :
    List (InnerDataHeader × List ℕ)
    → Option (InnerDataHeader × List ℕ)
    → List (InnerDataHeader × List ℕ)
parsed_into rest none = rest
parsed_into rest (some r) = r ∷ rest

-- The recovered packets whose headers parse.
unfoldable pub parse_recovered : Shards → List (InnerDataHeader × List ℕ)
parse_recovered [] = []
parse_recovered ((i, plain) ∷ recovered) =
    parsed_into (parse_recovered recovered) (unmarshal_recovered plain)

unfoldable pub push_all : List (InnerDataHeader × List ℕ) → Buffer → Buffer
push_all [] b = b
push_all ((h, payload) ∷ rs) b = push_all rs (push b (packet_of h payload))

unfoldable pub count_all : List (InnerDataHeader × List ℕ) → Stats → Stats
count_all [] s = s
count_all ((h, payload) ∷ rs) s = count_all rs (count_rx (length payload) s)

module _ {F : Type 0} where
  unfoldable pub find_path : ℕ → List (BondPath F) → Option (BondPath F)
  find_path id [] = none
  find_path id (p ∷ ps) = let rest = find_path id ps in if p.id == id then some p else rest

  -- The path object with the id, changed.
  unfoldable pub update_path : ℕ → (BondPath F → BondPath F) → List (BondPath F) → List (BondPath F)
  update_path id f [] = []
  update_path id f (p ∷ ps) =
      let rest = update_path id f ps in if p.id == id then f p ∷ ps else p ∷ rest
