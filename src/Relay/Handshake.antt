-- ===== src/Relay/Handshake.antt =====
-- core/bond/relay.go: handleHandshakeInit and the dispatch of handleUDP. `draws` are the numbers
-- that the random source yields; where they do not suffice the handler has not returned, and the
-- state is the one that it waits in.
use bondify.Common.{
  ℕ, ◌+◌, Bool, Option, none, some, List, [], if◌then◌else◌, ◌==◌, drop, replicate,
}
use bondify.Common.Assoc.{lookup, insert}
use bondify.Common.Float.{Float}
use bondify.Common.Int.{ℤ}
use bondify.Common.Result.{Result, ok, err}
use bondify.BondPath.{set_active}
use bondify.Crypto.Handshake.{Noise, new_responder, read_init, write_response}
use bondify.Crypto.Session.{Aead, Session}
use bondify.Fec.{Codec}
use bondify.Packets.{with_outer}
use bondify.Pool.{IpPool, PoolError, allocate, gateway}
use bondify.Proto.{
  ProtoError, OuterHeader, unmarshal_outer, type_handshake_init, type_handshake_resp, nonce_len,
}
use bondify.Relay.{
  UdpAddr, RelaySession, Relay, RelayConfig, Datagram, path_zero, new_session_index,
  new_relay_session, get_or_create_path, store_path, send_to, deref, serve_found,
}
use bondify.Tunnel.{Cbor, HandshakeRespPayload}

module _ {F : Type 0} (fl : Float F) (aead : Aead) (codec : Codec) (cbor : Cbor) (noise : Noise)
    (cfg : RelayConfig) (write_ok : UdpAddr → List ℕ → Bool) where
  abbrev Handled : Type 0
  Handled = List Datagram × Relay F

  -- The address and the index of a session to be, with the relay.
  abbrev pub indexed : ℕ → Option ℕ → Relay F → Option (ℕ × ℕ) × Relay F
  indexed ip none r = (none, r)
  indexed ip (some idx) r = (some (ip, idx), r)

  abbrev pub with_address :
      List ℕ → Result PoolError ℕ × IpPool → Relay F → Option (ℕ × ℕ) × Relay F
  with_address draws (err e, pool) r = (none, record r { pool = pool })
  with_address draws (ok ip, pool) r =
      indexed ip (new_session_index draws r.by_index) (record r { pool = pool })

  -- A client that is known keeps its address and its index.
  unfoldable pub assign : List ℕ → Option (ℕ × RelaySession F) → Relay F → Option (ℕ × ℕ) × Relay F
  assign draws (some (ref, s)) r = (some (s.tunnel_ip, s.session_index), r)
  assign draws none r = with_address draws (allocate r.pool) r

  abbrev pub response : ℕ → ℕ → Relay F → HandshakeRespPayload
  response ip idx r = record {
    session_index = idx;
    tunnel_ip = ip;
    prefix = cfg.prefix;
    gateway_ip = gateway r.pool;
    dns = cfg.dns;
    mtu = cfg.mtu;
    keepalive_sec = cfg.keep_alive;
  }

  -- The new session, with path 0 active.
  abbrev pub joined : ℕ → ℕ → UdpAddr → Session → RelaySession F
  joined ip idx src sess =
      let fresh = new_relay_session fl cfg idx sess ip in
      let p0 = (get_or_create_path fl path_zero src fresh).0 in
      store_path fl path_zero (record p0 { path = set_active p0.path }) fresh

  -- The three tables point to the new session.
  unfoldable pub register : ℕ → ℕ → ℕ → UdpAddr → Session → Relay F → Relay F
  register key ip idx src sess r = record r {
    sessions = insert r.next_ref (joined ip idx src sess) r.sessions;
    next_ref = r.next_ref + 1;
    by_index = insert idx r.next_ref r.by_index;
    by_tunnel_ip = insert ip r.next_ref r.by_tunnel_ip;
    by_client_key = insert key r.next_ref r.by_client_key;
  }

  abbrev pub respond_with : ℕ → ℕ → ℕ → UdpAddr → Option (List ℕ × Session) → Relay F → Handled
  respond_with key ip idx src none r = ([], r)
  respond_with key ip idx src (some (msg, sess)) r = (
    send_to fl aead codec cbor noise cfg write_ok src
        (with_outer type_handshake_resp idx (msg, replicate nonce_len 0)),
    register key ip idx src sess r,
  )

  abbrev pub marshalled :
      noise.HandshakeState → ℕ → ℕ → ℕ → UdpAddr → Option (List ℕ) → Relay F → Handled
  marshalled hs key ip idx src none r = ([], r)
  marshalled hs key ip idx src (some payload) r =
      respond_with key ip idx src (write_response noise hs payload) r

  abbrev pub assigned : noise.HandshakeState → ℕ → UdpAddr → Option (ℕ × ℕ) × Relay F → Handled
  assigned hs key src (none, r) = ([], r)
  assigned hs key src (some (ip, idx), r) =
      marshalled hs key ip idx src (cbor.marshal_handshake_resp (response ip idx r)) r

  abbrev pub initiated : List ℕ → UdpAddr → Option (ℕ × noise.HandshakeState) → Relay F → Handled
  initiated draws src none r = ([], r)
  initiated draws src (some (key, hs)) r =
      let existing = deref fl aead codec cbor noise cfg write_ok (lookup key r.by_client_key) r in
      assigned hs key src (assign draws existing r)

  abbrev pub responding :
      List ℕ → UdpAddr → List ℕ → Option noise.HandshakeState → Relay F → Handled
  responding draws src msg none r = ([], r)
  responding draws src msg (some hs) r = initiated draws src (read_init noise hs msg) r

  unfoldable pub handle_handshake_init : List ℕ → UdpAddr → List ℕ → Relay F → Handled
  handle_handshake_init draws src msg r =
      responding draws src msg (new_responder noise cfg.relay_key) r

  abbrev pub dispatch :
      ℤ → List ℕ → UdpAddr → List ℕ → Result ProtoError (OuterHeader × ℕ) → Relay F → Handled
  dispatch now draws src buf (err e) r = ([], r)
  dispatch now draws src buf (ok (oh, consumed)) r =
      let found =
        deref fl aead codec cbor noise cfg write_ok (lookup oh.session_index r.by_index) r in
      if oh.typ == type_handshake_init
      then handle_handshake_init draws src (drop consumed buf) r
      else serve_found fl aead codec cbor noise cfg write_ok now src oh (drop consumed buf) found r

  -- One datagram that the relay reads.
  unfoldable pub handle_udp : ℤ → List ℕ → UdpAddr → List ℕ → Relay F → Handled
  handle_udp now draws src buf r = dispatch now draws src buf (unmarshal_outer buf) r
