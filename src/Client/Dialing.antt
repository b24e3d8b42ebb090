-- ===== src/Client/Dialing.antt =====
-- core/bond/client.go: DialHandshake and addPath, behind the sockets. What comes back to each
-- attempt is an argument: nothing, after a failed write or read, or the bytes of a packet. A failed
-- ReadMessage of the Noise library leaves the handshake as it was.
use bondify.Common.{
  ℕ, zero, suc, ◌+◌, ◌-◌, ◌%◌, Bool, true, false, ◌&&◌, Option, none, some, List, [], ◌∷◌, ◌++◌,
  if◌then◌else◌, ◌==◌, drop,
}
use Prim.Native.String.{String}
use bondify.Common.Float.{Float}
use bondify.Common.Int.{ℤ, pos, ltb_ℤ, pos_part}
use bondify.Common.Result.{Result, ok, err}
use bondify.BondPath.{new_path, set_active, no_stats}
use bondify.Client.{ClientTunnel}
use bondify.Crypto.Handshake.{Noise, read_response}
use bondify.Crypto.Session.{Aead, Session, CryptoError}
use bondify.Fec.Sender.{new_fec_sender}
use bondify.Packets.{PacketError, seal_control, open_control}
use bondify.Proto.{
  ProtoError, OuterHeader, unmarshal_outer, type_handshake_resp, type_path_add, type_ctrl,
}
use bondify.Reorder.{new, default_deadline_min}
use bondify.Sched.Tiers.{Scheduler, new_scheduler}
use bondify.Tunnel.{Cbor, HandshakeRespPayload, CtrlPathAddAck}

-- What an attempt gets: a packet, or an error of the socket.
pub data Reply : Type 0 where
  nothing : Reply
  arrived : List ℕ → Reply

-- `if tries <= 0 { tries = 3 }`
abbrev pub tries_of : ℤ → ℕ
tries_of tries = if ltb_ℤ (pos 0) tries then pos_part tries else 3

-- The settings of ClientConfig that reach the tunnel.
pub record ClientConfig : Type 0 where
  pub scheduler : String
  pub mode : ℕ
  pub fec : Bool
  pub tries : ℤ
  pub path_count : ℕ

module _ {F : Type 0} (fl : Float F) (aead : Aead) (cbor : Cbor) (noise : Noise) where
  abbrev pub configured :
      Session → Option HandshakeRespPayload → Option (HandshakeRespPayload × Session)
  configured s none = none
  configured s (some cfg) = some (cfg, s)

  abbrev pub answered : Option (List ℕ × Session) → Option (HandshakeRespPayload × Session)
  answered none = none
  answered (some (payload, s)) = configured s (cbor.unmarshal_handshake_resp payload)

  abbrev pub handshake_reply :
      noise.HandshakeState
      → List ℕ
      → Result ProtoError (OuterHeader × ℕ)
      → Option (HandshakeRespPayload × Session)
  handshake_reply hs buf (err e) = none
  handshake_reply hs buf (ok (oh, consumed)) =
      if oh.typ == type_handshake_resp
      then answered (read_response noise hs (drop consumed buf))
      else none

  abbrev pub one_reply : noise.HandshakeState → Reply → Option (HandshakeRespPayload × Session)
  one_reply hs nothing = none
  one_reply hs (arrived buf) = handshake_reply hs buf (unmarshal_outer buf)

  abbrev pub first_some : {A : Type 0} → Option A → Option A → Option A
  first_some none rest = rest
  first_some (some a) rest = some a

  -- The loop over the attempts; none is the last error.
  unfoldable pub handshake_loop :
      noise.HandshakeState → ℕ → List Reply → Option (HandshakeRespPayload × Session)
  handshake_loop hs zero replies = none
  handshake_loop hs (suc left) [] = none
  handshake_loop hs (suc left) (r ∷ replies) =
      first_some (one_reply hs r) (handshake_loop hs left replies)

  abbrev pub is_ack_for : ℕ → Option CtrlPathAddAck → Bool
  is_ack_for id none = false
  is_ack_for id (some ack) = ack.is_ack && (ack.path_id == id)

  abbrev pub acked_by : ℕ → Result CryptoError (List ℕ) → Bool
  acked_by id (err e) = false
  acked_by id (ok text) = is_ack_for id (cbor.unmarshal_path_add_ack text)

  abbrev pub path_add_reply :
      ℕ → Session → List ℕ → Result ProtoError (OuterHeader × ℕ) → Bool × Session
  path_add_reply id s buf (err e) = (false, s)
  path_add_reply id s buf (ok (oh, consumed)) =
      let (opened, s') = open_control aead s oh id (drop consumed buf) in
      if oh.typ == type_ctrl then (acked_by id opened, s') else (false, s)

  abbrev pub one_ack : ℕ → Session → Reply → Bool × Session
  one_ack id s nothing = (false, s)
  one_ack id s (arrived buf) = path_add_reply id s buf (unmarshal_outer buf)

  -- The loop of addPath: whether the path was acknowledged, and the session after it.
  unfoldable pub path_add_loop : ℕ → ℕ → List Reply → Session → Bool × Session
  path_add_loop id zero replies s = (false, s)
  path_add_loop id (suc left) [] s = (false, s)
  path_add_loop id (suc left) (r ∷ replies) s =
      let (acked, s') = one_ack id s r in
      let rest = path_add_loop id left replies s' in if acked then (true, s') else rest

  abbrev pub with_path : ℕ → Bool × Session → ClientTunnel F → Bool × ClientTunnel F
  with_path id (false, s) t = (false, record t { sess = s })
  with_path id (true, s) t =
      (true, record t { sess = s; paths = t.paths ++ set_active (new_path fl id) ∷ [] })

  abbrev pub try_path_add :
      ℕ
      → ℕ
      → List Reply
      → Result PacketError (List ℕ) × Session
      → ClientTunnel F
      → Bool × ClientTunnel F
  try_path_add id tries replies (err e, s) t = (false, record t { sess = s })
  try_path_add id tries replies (ok pkt, s) t = with_path id (path_add_loop id tries replies s) t

  abbrev pub marshalled_path_add :
      ℕ → ℕ → List Reply → Option (List ℕ) → ClientTunnel F → Bool × ClientTunnel F
  marshalled_path_add id tries replies none t = (false, t)
  marshalled_path_add id tries replies (some payload) t =
      try_path_add id tries replies
        (seal_control aead t.sess type_path_add t.session_index id payload) t

  -- addPath on a socket that is open: whether the path joined, and the tunnel.
  unfoldable pub add_path : ℕ → ℕ → List Reply → ClientTunnel F → Bool × ClientTunnel F
  add_path id tries replies t =
      marshalled_path_add id tries replies (cbor.marshal_path_add (record { path_id = id })) t

  -- A path whose socket could not be opened has no replies.
  abbrev pub join_path : ℕ → ℕ → Option (List Reply) → ClientTunnel F → ClientTunnel F
  join_path id tries none t = t
  join_path id tries (some replies) t = (add_path id tries replies t).1

  -- The loop over the further paths, from number `id` on, with each one's replies. One that
  -- fails to join is left out.
  unfoldable pub add_paths : ℕ → ℕ → ℕ → (ℕ → Option (List Reply)) → ClientTunnel F → ClientTunnel F
  add_paths zero id tries replies t = t
  add_paths (suc left) id tries replies t =
      add_paths left (id + 1) tries replies (join_path (id % 256) tries (replies id) t)

  abbrev pub new_tunnel :
      ClientConfig → Scheduler F → HandshakeRespPayload → Session → ClientTunnel F
  new_tunnel cfg scheduler resp s = record {
    sess = s;
    session_index = resp.session_index;
    sched = scheduler;
    reorder_buf = new default_deadline_min (pos 0);
    mode = cfg.mode;
    fec_send = if cfg.fec then some new_fec_sender else none;
    fec_recv = if cfg.fec then some [] else none;
    paths = set_active (new_path fl 0) ∷ [];
    send_gsn = 0;
    stats = no_stats;
  }

  abbrev pub established :
      ClientConfig
      → (ℕ → Option (List Reply))
      → Option (HandshakeRespPayload × Session)
      → Option (Scheduler F)
      → Option (ClientTunnel F × HandshakeRespPayload)
  established cfg replies none scheduler = none
  established cfg replies (some (resp, s)) none = none
  established cfg replies (some (resp, s)) (some scheduler) =
      let t = new_tunnel cfg scheduler resp s in
      let more = (if cfg.path_count == 0 then 1 else cfg.path_count) in
      some (add_paths (more - 1) 1 (tries_of cfg.tries) replies t, resp)

  abbrev pub handshake_on :
      noise.HandshakeState → ℕ → Option (List Reply) → Option (HandshakeRespPayload × Session)
  handshake_on hs tries none = none
  handshake_on hs tries (some replies) = handshake_loop hs tries replies

  -- DialHandshake on the sockets that could be opened, once HANDSHAKE_INIT is built; none is an
  -- error.
  unfoldable pub dial_handshake :
      ClientConfig
      → noise.HandshakeState
      → (ℕ → Option (List Reply))
      → Option (ClientTunnel F × HandshakeRespPayload)
  dial_handshake cfg hs replies =
      established cfg replies (handshake_on hs (tries_of cfg.tries) (replies 0))
        (new_scheduler fl cfg.scheduler)
