-- ===== src/Relay.antt =====
-- core/bond/relay.go: the relay's sessions, its tables and its handlers of arriving packets. A
-- session is an object that three tables point to: here a number, `sessions` being the store. A
-- tunnel address and a client's key are their numbers. The handlers run one after the other, as
-- ServeUDP calls them; `write_ok addr packet` says whether a write succeeds.
pub mod Handshake
pub mod Sending
pub mod Tables
pub mod Strangers
pub mod Runs
pub mod Tests
pub mod RunTests
use Prim.Native.String.{String}
use bondify.Common.{
  ℕ, zero, suc, ◌+◌, ◌/◌, ◌%◌, ◌^◌, Bool, true, false, ◌&&◌, ◌||◌, not, Option, none, some, List,
  [], ◌∷◌, ◌++◌, if◌then◌else◌, length, drop, map, ◌==◌, ltb,
}
use bondify.Common.Assoc.{lookup, insert}
use bondify.Common.Bytes.{byte, slice, of_be}
use bondify.Common.Float.{Float}
use bondify.Common.Int.{ℤ, pos, ◌-ℤ◌, ltb_ℤ}
use bondify.Common.Result.{Result, ok, err}
use bondify.BondPath.{
  BondPath, Stats, ProbePayload, ProbeAckPayload, new_path, no_stats, set_active, record_recv,
  last_activity, path_dead_timeout,
}
use bondify.BondPath.Health.{handle_probe_ack}
use bondify.Crypto.Handshake.{Noise, new_responder, read_init, write_response}
use bondify.Crypto.Session.{Aead, Session, CryptoError}
use bondify.Fec.{Codec}
use bondify.Fec.Receiver.{FecGenBuffer, Shards, handle_fec}
use bondify.Fec.Sender.{FecSender, new_fec_sender}
use bondify.Packets.{PacketError, seal_control, open_control, open_packet, with_outer}
use bondify.Pool.{IpPool, PoolError, allocate, gateway}
use bondify.Proto.{
  ProtoError, OuterHeader, InnerDataHeader, FecHeader, unmarshal_outer, unmarshal_fec_header,
  type_handshake_init, type_handshake_resp, type_data, type_fec, type_path_add, type_probe,
  type_probe_ack, type_ctrl,
}
use bondify.Reorder.{Buffer, new, default_deadline_min, push}
use bondify.Sched.{State, dead}
use bondify.Sched.Tiers.{Scheduler, new_round_robin, new_scheduler}
use bondify.Tunnel.{
  Cbor, PathAddPayload, HandshakeRespPayload, count_rx, count_error, packet_of, protect,
  parse_recovered, push_all, count_all,
}

pub record UdpAddr : Type 0 where
  pub ip : ℕ
  pub port : ℕ

unfoldable pub udp_addr_equal : UdpAddr → UdpAddr → Bool
udp_addr_equal a b = (a.ip == b.ip) && (a.port == b.port)

-- A path with its remote address.
pub record RelayPath (F : Type 0) : Type 0 where
  pub path : BondPath F
  pub addr : Option UdpAddr

pub record RelaySession (F : Type 0) : Type 0 where
  pub session_index : ℕ
  pub sess : Session
  pub tunnel_ip : ℕ
  pub paths : List (ℕ × RelayPath F)
  pub sched : Scheduler F
  pub reorder_buf : Buffer
  pub mode : ℕ
  pub fec_send : Option FecSender
  pub fec_recv : Option FecGenBuffer
  pub send_gsn : ℕ
  pub stats : Stats

pub record Relay (F : Type 0) : Type 0 where
  pub pool : IpPool
  pub sessions : List (ℕ × RelaySession F)
  pub next_ref : ℕ
  pub by_index : List (ℕ × ℕ)
  pub by_tunnel_ip : List (ℕ × ℕ)
  pub by_client_key : List (ℕ × ℕ)
  pub stats : Stats

pub record RelayConfig : Type 0 where
  pub relay_key : ℕ
  pub scheduler : String
  pub mode : ℕ
  pub fec : Bool
  pub dns : List ℕ
  pub mtu : ℕ
  pub keep_alive : ℕ
  pub prefix : ℕ

pub record Datagram : Type 0 where
  pub addr : UdpAddr
  pub bytes : List ℕ

abbrev pub path_zero : ℕ
path_zero = 0

-- The destination address of an IPv4 packet.
unfoldable pub dest_ipv4 : List ℕ → Option ℕ
dest_ipv4 pkt =
    if ltb (length pkt) 20 || not (byte pkt 0 / 16 == 4)
    then none
    else some (of_be (slice pkt 16 4))

-- The top byte of the nonce.
abbrev pub path_id_hint : OuterHeader → ℕ
path_id_hint oh = byte oh.nonce 0

abbrev pub is_alive : State → Bool
is_alive s = elim s [ dead ↦ false | _ ↦ true ]

-- newSessionIndex, on the numbers that the random source yields; none if they do not suffice.
unfoldable pub new_session_index : List ℕ → List (ℕ × ℕ) → Option ℕ
new_session_index [] table = none
new_session_index (idx ∷ draws) table =
    let rest = new_session_index draws table in
    if idx == 0 then rest else elim (lookup idx table) [ none ↦ some idx | some ref ↦ rest ]

module _ {F : Type 0} (fl : Float F) where
  abbrev pub or_round_robin : Option (Scheduler F) → Scheduler F
  or_round_robin none = new_round_robin fl
  or_round_robin (some s) = s

  abbrev pub new_relay_session : RelayConfig → ℕ → Session → ℕ → RelaySession F
  new_relay_session cfg session_index sess tunnel_ip = record {
    session_index = session_index;
    sess = sess;
    tunnel_ip = tunnel_ip;
    paths = [];
    sched = or_round_robin (new_scheduler fl cfg.scheduler);
    reorder_buf = new default_deadline_min (pos 0);
    mode = cfg.mode;
    fec_send = if cfg.fec then some new_fec_sender else none;
    fec_recv = if cfg.fec then some [] else none;
    send_gsn = 0;
    stats = no_stats;
  }

  -- The path that getOrCreatePath returns, and whether it is new.
  abbrev pub path_or_new : ℕ → UdpAddr → Option (RelayPath F) → RelayPath F × Bool
  path_or_new id addr none = (record { path = new_path fl id; addr = some addr }, true)
  path_or_new id addr (some p) = (p, false)

  unfoldable pub get_or_create_path : ℕ → UdpAddr → RelaySession F → RelayPath F × Bool
  get_or_create_path id addr s = path_or_new id addr (lookup id s.paths)

  abbrev pub store_path : ℕ → RelayPath F → RelaySession F → RelaySession F
  store_path id p s = record s { paths = insert id p s.paths }

  -- `cur == nil || !udpAddrEqual(cur, src)`
  abbrev pub rebound : UdpAddr → Option UdpAddr → Option UdpAddr
  rebound src none = some src
  rebound src (some cur) = if udp_addr_equal cur src then some cur else some src

  abbrev pub moved : UdpAddr → RelayPath F × Bool → RelayPath F
  moved src (p, true) = p
  moved src (p, false) = record p { addr = rebound src p.addr }

  -- The path of an authentic packet: found or created, its address followed, the arrival recorded.
  unfoldable pub touch_path : ℤ → ℕ → UdpAddr → RelaySession F → RelayPath F
  touch_path now id src s =
      let p = moved src (get_or_create_path id src s) in
      record p { path = (record_recv now p.path).1 }

  -- livenessLoop on one path.
  unfoldable pub expire_path : ℤ → RelayPath F → RelayPath F
  expire_path now p =
      if is_alive p.path.state && ltb_ℤ path_dead_timeout (last_activity now p.path)
      then record p { path = record p.path { state = dead } }
      else p

  unfoldable pub expire_paths : ℤ → List (ℕ × RelayPath F) → List (ℕ × RelayPath F)
  expire_paths now [] = []
  expire_paths now ((id, p) ∷ ps) = (id, expire_path now p) ∷ expire_paths now ps

  -- A tick of livenessLoop over the sessions of the index table.
  unfoldable pub expire_session : ℤ → Option (RelaySession F) → ℕ → Relay F → Relay F
  expire_session now none ref r = r
  expire_session now (some s) ref r = record r {
    sessions = insert ref (record s { paths = expire_paths now s.paths }) r.sessions;
  }

  unfoldable pub expire_all : ℤ → List (ℕ × ℕ) → Relay F → Relay F
  expire_all now [] r = r
  expire_all now ((idx, ref) ∷ table) r =
      expire_all now table (expire_session now (lookup ref r.sessions) ref r)

  abbrev pub liveness_tick : ℤ → Relay F → Relay F
  liveness_tick now r = expire_all now r.by_index r

-- A tick of ServeReorder: the indices seen, and the sessions that get a drain of their own.
unfoldable pub serve_reorder_tick : List (ℕ × ℕ) → List (ℕ × Bool) → List ℕ × List (ℕ × Bool)
serve_reorder_tick [] seen = ([], seen)
serve_reorder_tick ((idx, ref) ∷ table) seen =
    let (started, seen') = serve_reorder_tick table (insert idx true seen) in
    let rest = serve_reorder_tick table seen in
    elim (lookup idx seen) [ none ↦ (ref ∷ started, seen') | some b ↦ rest ]

module _ {F : Type 0} (fl : Float F) (aead : Aead) (codec : Codec) (cbor : Cbor) (noise : Noise)
    (cfg : RelayConfig) (write_ok : UdpAddr → List ℕ → Bool) where
  abbrev pub Handled : Type 0
  Handled = List Datagram × Relay F

  abbrev pub put : ℕ → RelaySession F → Relay F → Relay F
  put ref s r = record r { sessions = insert ref s r.sessions }

  abbrev pub send_to : UdpAddr → Result PacketError (List ℕ) → List Datagram
  send_to addr (err e) = []
  send_to addr (ok pkt) = if write_ok addr pkt then record { addr = addr; bytes = pkt } ∷ [] else []

  -- handleData from what openPacket returned.
  unfoldable pub accept_data :
      ℤ
      → UdpAddr
      → ℕ
      → ℕ
      → Result PacketError (InnerDataHeader × List ℕ) × Session
      → RelaySession F
      → Relay F
      → Relay F
  accept_data now src id ref (err e, sess) s r =
      let r' = record r { stats = count_error r.stats } in
      put ref (record s { sess = sess; stats = count_error s.stats }) r'
  accept_data now src id ref (ok (inner, payload), sess) s r =
      let p = touch_path fl now id src s in
      let counted = record p {
        path = record p.path { stats = count_rx (length payload) p.path.stats };
      } in
      put ref
        (record s {
          sess = sess;
          paths = insert id counted s.paths;
          stats = count_rx (length payload) s.stats;
          reorder_buf = push s.reorder_buf (packet_of inner payload);
          fec_recv = protect s.fec_recv now inner payload;
        })
        (record r { stats = count_rx (length payload) r.stats })

  abbrev pub deliver_recovered : ℕ → Shards × FecGenBuffer → RelaySession F → Relay F → Relay F
  deliver_recovered ref (recovered, b) s r =
      let rs = parse_recovered recovered in
      put ref
        (record s {
          fec_recv = some b;
          stats = count_all rs s.stats;
          reorder_buf = push_all rs s.reorder_buf;
        })
        (record r { stats = count_all rs r.stats })

  unfoldable pub accept_parity :
      ℤ
      → ℕ
      → InnerDataHeader
      → List ℕ
      → Option FecGenBuffer
      → Result ProtoError (FecHeader × ℕ)
      → RelaySession F
      → Relay F
      → Relay F
  accept_parity now ref inner payload none header s r = put ref s r
  accept_parity now ref inner payload (some b) (err e) s r = put ref s r
  accept_parity now ref inner payload (some b) (ok (fh, n)) s r =
      deliver_recovered ref
        (handle_fec codec b now inner.generation_id fh.n fh.m fh.w (pos inner.gen_index -ℤ pos fh.n)
          (drop n payload))
        s r

  unfoldable pub accept_fec :
      ℤ
      → UdpAddr
      → ℕ
      → ℕ
      → Result PacketError (InnerDataHeader × List ℕ) × Session
      → RelaySession F
      → Relay F
      → Relay F
  accept_fec now src id ref (err e, sess) s r =
      let r' = record r { stats = count_error r.stats } in
      put ref (record s { sess = sess; stats = count_error s.stats }) r'
  accept_fec now src id ref (ok (inner, payload), sess) s r =
      accept_parity now ref inner payload s.fec_recv (unmarshal_fec_header payload)
        (store_path fl id (touch_path fl now id src s) (record s { sess = sess })) r

  -- A control packet to an address, of a payload that CBOR may have refused.
  abbrev pub reply_control :
      ℕ → ℕ → UdpAddr → ℕ → Option (List ℕ) → RelaySession F → Relay F → Handled
  reply_control typ id addr ref none s r = ([], put ref s r)
  reply_control typ id addr ref (some text) s r =
      let (sealed, sess) = seal_control aead s.sess typ s.session_index id text in
      (send_to addr sealed, put ref (record s { sess = sess }) r)

  abbrev pub add_path : UdpAddr → ℕ → Option PathAddPayload → RelaySession F → Relay F → Handled
  add_path src ref none s r = ([], put ref s r)
  add_path src ref (some req) s r =
      let p = (get_or_create_path fl req.path_id src s).0 in
      let joined = record p { path = set_active p.path } in
      reply_control type_ctrl req.path_id src ref
        (cbor.marshal_path_add_ack (record { is_ack = true; path_id = req.path_id }))
        (store_path fl req.path_id joined s) r

  unfoldable pub accept_path_add :
      UdpAddr → ℕ → Result CryptoError (List ℕ) × Session → RelaySession F → Relay F → Handled
  accept_path_add src ref (err e, sess) s r = ([], put ref (record s { sess = sess }) r)
  accept_path_add src ref (ok text, sess) s r =
      add_path src ref (cbor.unmarshal_path_add text) (record s { sess = sess }) r

  -- handleProbe follows the source without comparing it first.
  abbrev pub followed : UdpAddr → RelayPath F × Bool → RelayPath F
  followed src (p, true) = p
  followed src (p, false) = record p { addr = some src }

  abbrev pub answer_probe :
      ℤ → UdpAddr → ℕ → ℕ → Option ProbePayload → RelaySession F → Relay F → Handled
  answer_probe now src id ref none s r = ([], put ref s r)
  answer_probe now src id ref (some probe) s r =
      let p = followed src (get_or_create_path fl id src s) in
      let (recv_psn, p') = record_recv now p.path in
      let ack : ProbeAckPayload = record {
        sent_at = probe.sent_at;
        sent_psn = probe.sent_psn;
        recv_psn = recv_psn;
      } in
      reply_control type_probe_ack id src ref (cbor.marshal_probe_ack ack)
        (store_path fl id (record p { path = p' }) s) r

  unfoldable pub accept_probe :
      ℤ
      → UdpAddr
      → ℕ
      → ℕ
      → Result CryptoError (List ℕ) × Session
      → RelaySession F
      → Relay F
      → Handled
  accept_probe now src id ref (err e, sess) s r = ([], put ref (record s { sess = sess }) r)
  accept_probe now src id ref (ok text, sess) s r =
      answer_probe now src id ref (cbor.unmarshal_probe text) (record s { sess = sess }) r

  abbrev pub fold_into :
      ℤ → ℕ → ℕ → RelayPath F → Option ProbeAckPayload → RelaySession F → Relay F → Relay F
  fold_into now id ref p none s r = put ref s r
  fold_into now id ref p (some ack) s r =
      put ref (store_path fl id (record p { path = handle_probe_ack fl ack now p.path }) s) r

  unfoldable pub accept_probe_ack :
      ℤ
      → ℕ
      → ℕ
      → RelayPath F
      → Result CryptoError (List ℕ) × Session
      → RelaySession F
      → Relay F
      → Relay F
  accept_probe_ack now id ref p (err e, sess) s r = put ref (record s { sess = sess }) r
  accept_probe_ack now id ref p (ok text, sess) s r =
      fold_into now id ref p (cbor.unmarshal_probe_ack text) (record s { sess = sess }) r

  -- handleProbeAck opens the packet only on a path that exists.
  abbrev pub handle_probe_ack_on :
      ℤ → OuterHeader → List ℕ → ℕ → Option (RelayPath F) → RelaySession F → Relay F → Relay F
  handle_probe_ack_on now oh c ref none s r = r
  handle_probe_ack_on now oh c ref (some p) s r =
      accept_probe_ack now (path_id_hint oh) ref p (open_control aead s.sess oh (path_id_hint oh) c)
        s r

  -- The handlers of a packet for a session that exists, by type.
  unfoldable pub serve : ℤ → UdpAddr → OuterHeader → List ℕ → ℕ → RelaySession F → Relay F → Handled
  serve now src oh c ref s r =
      let id = path_id_hint oh in
      if oh.typ == type_data
      then ([], accept_data now src id ref (open_packet aead s.sess oh id c) s r)
      else if oh.typ == type_fec
      then ([], accept_fec now src id ref (open_packet aead s.sess oh id c) s r)
      else if oh.typ == type_path_add
      then accept_path_add src ref (open_control aead s.sess oh id c) s r
      else if oh.typ == type_probe
      then accept_probe now src id ref (open_control aead s.sess oh id c) s r
      else if oh.typ == type_probe_ack
      then ([], handle_probe_ack_on now oh c ref (lookup id s.paths) s r)
      else ([], r)

  -- `r.byIndex[oh.SessionIndex]`, through the store.
  abbrev pub deref : Option ℕ → Relay F → Option (ℕ × RelaySession F)
  deref none r = none
  deref (some ref) r = elim (lookup ref r.sessions) [ none ↦ none | some s ↦ some (ref, s) ]

  abbrev pub serve_found :
      ℤ → UdpAddr → OuterHeader → List ℕ → Option (ℕ × RelaySession F) → Relay F → Handled
  serve_found now src oh c none r = ([], r)
  serve_found now src oh c (some (ref, s)) r = serve now src oh c ref s r
