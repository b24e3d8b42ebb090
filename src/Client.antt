-- ===== src/Client.antt =====
-- core/bond/client.go: the tunnel of a client, its sending side and its reading of one packet. The
-- sockets are an argument: `write path packet` says whether the write succeeds, and the packets
-- written are returned with the path that carries them. A path object is found by its id, which
-- DialHandshake gives to one path only. Several goroutines run these functions; each is a sequence
-- of steps here, with no other goroutine in between.
pub mod Reading
pub mod Dialing
use bondify.Common.{
  ℕ, ◌+◌, ◌%◌, ◌^◌, Bool, Option, none, some, List, [], ◌∷◌, ◌++◌, if◌then◌else◌, length, replicate,
  ltb, ◌==◌, map, not,
}
use bondify.Common.Bytes.{write}
use bondify.Common.Float.{Float}
use bondify.Common.Int.{ℤ, pos_part}
use bondify.Common.Result.{Result, ok, err}
use bondify.BondPath.{BondPath, Stats, next_send_psn, view}
use bondify.Crypto.Session.{Aead, Session}
use bondify.Fec.{Codec}
use bondify.Fec.Receiver.{FecGenBuffer, gc}
use bondify.Fec.Sender.{FecSender, Parity, record_shard, flush}
use bondify.Modes.{
  mode_redundant, dup_factor, select_redundant_paths, healthiest_path, fec_loss_estimate,
}
use bondify.Packets.{PacketError, inner_plaintext, seal_packet}
use bondify.Proto.{
  ProtoError, InnerDataHeader, type_data, type_fec, flag_dup, fec_header_len, marshal_fec_header,
}
use bondify.Reorder.{Buffer}
use bondify.Sched.{PathView}
use bondify.Sched.Tiers.{Scheduler, sched_next}
use bondify.Tunnel.{
  next_u64, count_tx, data_header, take_slot, with_slot, fec_header, find_path, update_path,
}

pub record ClientTunnel (F : Type 0) : Type 0 where
  pub sess : Session
  pub session_index : ℕ
  pub sched : Scheduler F
  pub reorder_buf : Buffer
  pub mode : ℕ
  pub fec_send : Option FecSender
  pub fec_recv : Option FecGenBuffer
  pub paths : List (BondPath F)
  pub send_gsn : ℕ
  pub stats : Stats

-- The bytes written on the socket of a path.
pub record Datagram : Type 0 where
  pub path : ℕ
  pub bytes : List ℕ

-- A FEC header and the shard behind it.
unfoldable pub fec_payload : Parity → Result ProtoError (List ℕ)
fec_payload p =
    marshal_fec_header (replicate (fec_header_len + length p.shard) 0)
      (record { n = p.n % 256; m = p.m % 256; w = p.w % 2 ^ 16 })

module _ {F : Type 0} where
  -- Stamps the next PSN of a path.
  abbrev pub stamped : BondPath F → ClientTunnel F → ClientTunnel F
  stamped p t = record t { paths = update_path p.id (λ q. (next_send_psn q).1) t.paths }

  abbrev pub count_path_tx : ℕ → ℕ → ClientTunnel F → ClientTunnel F
  count_path_tx id bytes t = record t {
    paths = update_path id (λ q. record q { stats = count_tx bytes q.stats }) t.paths;
  }

  abbrev pub count_tunnel_tx : ℕ → ClientTunnel F → ClientTunnel F
  count_tunnel_tx bytes t = record t { stats = count_tx bytes t.stats }

  abbrev pub take_gsn : ClientTunnel F → ClientTunnel F
  take_gsn t = record t { send_gsn = next_u64 t.send_gsn }

module _ {F : Type 0} (fl : Float F) (aead : Aead) (codec : Codec)
    (write_ok : ℕ → List ℕ → Bool) where
  abbrev pub Sent : Type 0
  Sent = List Datagram × ClientTunnel F

  -- sealPacket on the tunnel's session, for a path.
  abbrev pub seal_on :
      ℕ
      → ℕ
      → InnerDataHeader
      → List ℕ
      → ClientTunnel F
      → Result PacketError (List ℕ) × ClientTunnel F
  seal_on typ path header payload t =
      let (sealed, sess') = seal_packet aead t.sess typ t.session_index path header payload in
      (sealed, record t { sess = sess' })

  -- A packet of which nothing is counted: parity.
  abbrev pub write_parity : ℕ → Result PacketError (List ℕ) × ClientTunnel F → Sent
  write_parity path (err e, t) = ([], t)
  write_parity path (ok pkt, t) =
      if write_ok path pkt then (record { path = path; bytes = pkt } ∷ [], t) else ([], t)

  abbrev pub carry_parity :
      Parity → Option (BondPath F) → Result ProtoError (List ℕ) → ClientTunnel F → Sent
  carry_parity parity none payload t = ([], t)
  carry_parity parity (some p) (err e) t = ([], t)
  carry_parity parity (some p) (ok header) t =
      let payload = write header fec_header_len parity.shard in
      let inner = fec_header p.send_psn p.id (length payload) parity.gen_id parity.gen_index in
      write_parity p.id (seal_on type_fec p.id inner payload (stamped p t))

  unfoldable pub send_fec_parity : ℤ → Parity → ClientTunnel F → Sent
  send_fec_parity now parity t =
      carry_parity parity (healthiest_path fl now t.paths) (fec_payload parity) t

  -- The calls of sendParity that one closing generation makes.
  unfoldable pub send_parities : ℤ → List Parity → ClientTunnel F → Sent
  send_parities now [] t = ([], t)
  send_parities now (p ∷ ps) t =
      let (out, t') = send_fec_parity now p t in
      let (more, t'') = send_parities now ps t' in (out ++ more, t'')

  abbrev pub with_sender : List Parity × FecSender → ℤ → ClientTunnel F → Sent
  with_sender (parities, f) now t = send_parities now parities (record t { fec_send = some f })

  -- Record, once the packet is on the wire, if there is a slot and the inner packet was marshalled.
  unfoldable pub record_sent :
      ℤ → Option (ℕ × ℕ) → Result PacketError (List ℕ) → Option FecSender → ClientTunnel F → Sent
  record_sent now none inner f t = ([], t)
  record_sent now (some slot) (err e) f t = ([], t)
  record_sent now (some slot) (ok inner) none t = ([], t)
  record_sent now (some (gen_id, gen_index)) (ok inner) (some f) t =
      with_sender (record_shard fl codec f (fec_loss_estimate fl t.paths) gen_id gen_index inner)
        now t

  -- sendSpeed from the sealing on.
  abbrev pub write_data :
      ℤ
      → ℕ
      → ℕ
      → Option (ℕ × ℕ)
      → Result PacketError (List ℕ)
      → Result PacketError (List ℕ) × ClientTunnel F
      → Sent
  write_data now path bytes slot inner (err e, t) = ([], t)
  write_data now path bytes slot inner (ok pkt, t) =
      let counted = count_path_tx path bytes (count_tunnel_tx bytes t) in
      let (parity, t') = record_sent now slot inner t.fec_send counted in
      if write_ok path pkt then (record { path = path; bytes = pkt } ∷ parity, t') else ([], t)

  unfoldable pub send_on : ℤ → List ℕ → Option (BondPath F) → ClientTunnel F → Sent
  send_on now payload none t = ([], t)
  send_on now payload (some p) t =
      let (slot, f) = take_slot (pos_part now) t.fec_send in
      let header = with_slot (data_header t.send_gsn p.send_psn p.id 0 (length payload)) slot in
      let ready = record (stamped p (take_gsn t)) { fec_send = f } in
      write_data now p.id (length payload) slot (inner_plaintext header payload)
        (seal_on type_data p.id header payload ready)

  abbrev pub chosen_path : Option (PathView F) → List (BondPath F) → Option (BondPath F)
  chosen_path none ps = none
  chosen_path (some v) ps = find_path v.id ps

  unfoldable pub send_speed : ℤ → List ℕ → ClientTunnel F → Sent
  send_speed now payload t =
      let (choice, s) = sched_next fl t.sched (map (view fl now) t.paths) in
      send_on now payload (chosen_path choice t.paths) (record t { sched = s })

  abbrev pub write_copy : ℕ → ℕ → Result PacketError (List ℕ) × ClientTunnel F → Sent
  write_copy path bytes (err e, t) = ([], t)
  write_copy path bytes (ok pkt, t) =
      if write_ok path pkt
      then (record { path = path; bytes = pkt } ∷ [], count_path_tx path bytes t)
      else ([], t)

  abbrev pub send_copy : ℕ → ℕ → List ℕ → BondPath F → ClientTunnel F → Sent
  send_copy gsn flags payload p t = write_copy p.id (length payload) (
      seal_on type_data p.id (data_header gsn p.send_psn p.id flags (length payload)) payload
        (stamped p t))

  -- The loop over the paths; `flags` are those of the next copy, DUP after the first.
  unfoldable pub send_copies : ℕ → ℕ → List ℕ → List (BondPath F) → ClientTunnel F → Sent
  send_copies gsn flags payload [] t = ([], t)
  send_copies gsn flags payload (p ∷ ps) t =
      let (out, t') = send_copy gsn flags payload p t in
      let (more, t'') = send_copies gsn flag_dup payload ps t' in (out ++ more, t'')

  unfoldable pub send_redundant : ℤ → List ℕ → ClientTunnel F → Sent
  send_redundant now payload t =
      let chosen = select_redundant_paths now t.paths dup_factor in
      let (out, t') = send_copies t.send_gsn 0 payload chosen (take_gsn t) in
      if length chosen == 0 then ([], t) else (out, count_tunnel_tx (length payload) t')

  -- One packet of tunToNet.
  unfoldable pub send_packet : ℤ → List ℕ → ClientTunnel F → Sent
  send_packet now payload t =
      if t.mode == mode_redundant then send_redundant now payload t else send_speed now payload t

  abbrev pub flush_sender : ℤ → ℕ → Option FecSender → ClientTunnel F → Sent
  flush_sender now age none t = ([], t)
  flush_sender now age (some f) t =
      with_sender (flush fl codec f (fec_loss_estimate fl t.paths) (pos_part now) age) now t

  abbrev pub gc_receiver : ℤ → ℤ → Option FecGenBuffer → Option FecGenBuffer
  gc_receiver now age none = none
  gc_receiver now age (some b) = some (gc b now age)
