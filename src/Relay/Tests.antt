-- ===== src/Relay/Tests.antt =====
-- A concrete relay with one session: core/bond/relay.go. Floats are thousandths, the toy cipher
-- appends a tag.
use bondify.Common.{
  ℕ, ◌≡◌, refl, true, false, Option, none, some, List, [], ◌∷◌, ◌==◌, if◌then◌else◌, arith,
}
use bondify.Common.Bytes.{of_be_from}
use bondify.Common.Float.{thousandths}
use bondify.Common.Int.{pos}
use bondify.Common.Result.{ok}
use bondify.Crypto.Handshake.{Noise}
use bondify.Crypto.Session.{Aead, new_session}
use bondify.Fec.{Codec}
use bondify.Packets.{associated_data}
use bondify.Proto.{OuterHeader, unmarshal_outer}
use bondify.BondPath.{no_stats}
use bondify.Relay.{UdpAddr, RelaySession, Relay, RelayConfig, new_relay_session}
use bondify.Relay.Handshake.{handle_udp}
use bondify.Relay.Strangers.{Harmless, handle_udp-Harmless}
use bondify.Tunnel.{Cbor}

pub toy_unseal : List ℕ → List ℕ → List ℕ → List ℕ → Option (List ℕ)
toy_unseal k n [] d = none
toy_unseal k n (t ∷ c) d = if t == 7 then some c else none

abbrev pub toy : Aead
toy = record { usable = λ k. true; seal = λ k n t d. 7 ∷ t; unseal = toy_unseal }

abbrev pub codec : Codec
codec = record { accepts = λ n m. false; parity = λ m shards. []; restore = λ n m shards. none }

-- Nothing can be marshalled, and no handshake is made.
abbrev pub cbor : Cbor
cbor = record {
  marshal_probe = λ p. none;
  unmarshal_probe = λ b. none;
  marshal_probe_ack = λ p. none;
  unmarshal_probe_ack = λ b. none;
  marshal_path_add = λ p. none;
  unmarshal_path_add = λ b. none;
  marshal_path_add_ack = λ p. none;
  unmarshal_path_add_ack = λ b. none;
  marshal_handshake_resp = λ p. none;
  unmarshal_handshake_resp = λ b. none;
}

abbrev noise : Noise
noise = record {
  HandshakeState = ℕ;
  initiate = λ k p. none;
  respond = λ k. none;
  read_message = λ s m. none;
  write_message = λ s m. none;
  peer_static = λ s. s;
}

abbrev pub cfg : RelayConfig
cfg = record {
  relay_key = 1;
  scheduler = "";
  mode = 0;
  fec = false;
  dns = [];
  mtu = 1400;
  keep_alive = 25;
  prefix = 24;
}

abbrev client : RelaySession ℕ
client = new_relay_session thousandths cfg 77 (new_session (1 ∷ []) (2 ∷ [])) 500

abbrev relay : Relay ℕ
relay = record {
  pool = record { base = 498; next = 501; end = 600; released = [] };
  sessions = (0, client) ∷ [];
  next_ref = 1;
  by_index = (77, 0) ∷ [];
  by_tunnel_ip = (500, 0) ∷ [];
  by_client_key = (9, 0) ∷ [];
  stats = no_stats;
}

-- A PROBE for session 77 whose ciphertext has no tag.
abbrev forged : List ℕ
forged = 0x20 ∷ 1 ∷ 0 ∷ 0 ∷ 0 ∷ 0 ∷ 0 ∷ 77 ∷ 3 ∷ 0 ∷ 0 ∷ 0 ∷ 0 ∷ 0 ∷ 0 ∷ 0 ∷ 0 ∷ 0 ∷ 0 ∷ 5 ∷ 8 ∷ []

abbrev header : OuterHeader
header = record {
  typ = 0x20;
  version = 1;
  session_index = 77;
  nonce = 3 ∷ 0 ∷ 0 ∷ 0 ∷ 0 ∷ 0 ∷ 0 ∷ 0 ∷ 0 ∷ 0 ∷ 0 ∷ 5 ∷ [];
}

parsed : unmarshal_outer forged ≡ ok (header, 20)
unfolding unmarshal_outer of_be_from
parsed = refl

untagged : (k n d : List ℕ) → toy_unseal k n (8 ∷ []) d ≡ none
unfolding toy_unseal
untagged k n d = refl

abbrev pub from_stranger : UdpAddr
from_stranger = record { ip = 3; port = 4 }

handle_udp-Harmless_example : Harmless relay (
    handle_udp thousandths toy codec cbor noise cfg
      (λ addr pkt. true)
      (pos 1000)
      []
      from_stranger
      forged
      relay)
handle_udp-Harmless_example =
    handle_udp-Harmless thousandths toy codec cbor noise cfg (λ addr pkt. true) (pos 1000) []
      from_stranger forged header 20 relay parsed (ground arith)
      (λ ref s i here.
        untagged s.sess.recv_key header.nonce
          (associated_data header.typ header.version header.session_index))
