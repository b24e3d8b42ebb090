-- ===== src/Relay/Sending.antt =====
-- core/bond/relay.go: the relay's return traffic on one session. `totals` are the relay's Stats.
use bondify.Common.{
  ℕ, Bool, Option, none, some, List, [], ◌∷◌, ◌++◌, if◌then◌else◌, length, map, ◌==◌,
}
use bondify.Common.Assoc.{lookup, insert}
use bondify.Common.Bytes.{write}
use bondify.Common.Float.{Float}
use bondify.Common.Int.{ℤ, pos_part}
use bondify.Common.Result.{Result, ok, err}
use bondify.BondPath.{BondPath, Stats, next_send_psn, view}
use bondify.Client.{fec_payload}
use bondify.Crypto.Session.{Aead}
use bondify.Fec.{Codec}
use bondify.Fec.Sender.{FecSender, Parity, record_shard}
use bondify.Modes.{
  mode_redundant, dup_factor, select_redundant_paths, healthiest_path, fec_loss_estimate,
}
use bondify.Packets.{PacketError, inner_plaintext, seal_packet}
use bondify.Proto.{ProtoError, InnerDataHeader, type_data, type_fec, flag_dup, fec_header_len}
use bondify.Relay.{UdpAddr, RelayPath, RelaySession, Relay, Datagram, dest_ipv4}
use bondify.Sched.{PathView}
use bondify.Sched.Tiers.{sched_next}
use bondify.Tunnel.{next_u64, count_tx, data_header, take_slot, with_slot, fec_header}

-- The session that sends, with the relay's counters.
pub record Returning (F : Type 0) : Type 0 where
  pub session : RelaySession F
  pub totals : Stats

module _ {F : Type 0} where
  -- pathSlice and schedPaths.
  unfoldable pub path_slice : List (ℕ × RelayPath F) → List (BondPath F)
  path_slice [] = []
  path_slice ((id, p) ∷ ps) = p.path ∷ path_slice ps

  abbrev pub addr_of : Option (RelayPath F) → Option UdpAddr
  addr_of none = none
  addr_of (some p) = p.addr

  -- The path object with the id, changed.
  abbrev pub changed :
      ℕ
      → (BondPath F → BondPath F)
      → Option (RelayPath F)
      → List (ℕ × RelayPath F)
      → List (ℕ × RelayPath F)
  changed id f none ps = ps
  changed id f (some p) ps = insert id (record p { path = f p.path }) ps

  unfoldable pub update_path : ℕ → (BondPath F → BondPath F) → RelaySession F → RelaySession F
  update_path id f s = record s { paths = changed id f (lookup id s.paths) s.paths }

  abbrev pub stamped : ℕ → RelaySession F → RelaySession F
  stamped id s = update_path id (λ q. (next_send_psn q).1) s

  abbrev pub count_path_tx : ℕ → ℕ → RelaySession F → RelaySession F
  count_path_tx id bytes s = update_path id (λ q. record q { stats = count_tx bytes q.stats }) s

  abbrev pub take_gsn : RelaySession F → RelaySession F
  take_gsn s = record s { send_gsn = next_u64 s.send_gsn }

module _ {F : Type 0} (fl : Float F) (aead : Aead) (codec : Codec)
    (write_ok : UdpAddr → List ℕ → Bool) where
  abbrev pub Sent : Type 0
  Sent = List Datagram × RelaySession F

  abbrev pub seal_on :
      ℕ
      → ℕ
      → InnerDataHeader
      → List ℕ
      → RelaySession F
      → Result PacketError (List ℕ) × RelaySession F
  seal_on typ id header payload s =
      let (sealed, sess') = seal_packet aead s.sess typ s.session_index id header payload in
      (sealed, record s { sess = sess' })

  abbrev pub write_parity : UdpAddr → Result PacketError (List ℕ) × RelaySession F → Sent
  write_parity addr (err e, s) = ([], s)
  write_parity addr (ok pkt, s) =
      if write_ok addr pkt then (record { addr = addr; bytes = pkt } ∷ [], s) else ([], s)

  abbrev pub parity_to :
      Parity → BondPath F → Option UdpAddr → Result ProtoError (List ℕ) → RelaySession F → Sent
  parity_to parity p none header s = ([], s)
  parity_to parity p (some addr) (err e) s = ([], s)
  parity_to parity p (some addr) (ok header) s =
      let payload = write header fec_header_len parity.shard in
      let inner = fec_header p.send_psn p.id (length payload) parity.gen_id parity.gen_index in
      write_parity addr (seal_on type_fec p.id inner payload (stamped p.id s))

  abbrev pub carry_parity : Parity → Option (BondPath F) → RelaySession F → Sent
  carry_parity parity none s = ([], s)
  carry_parity parity (some p) s =
      parity_to parity p (addr_of (lookup p.id s.paths)) (fec_payload parity) s

  unfoldable pub send_fec_parity : ℤ → Parity → RelaySession F → Sent
  send_fec_parity now parity s = carry_parity parity (healthiest_path fl now (path_slice s.paths)) s

  unfoldable pub send_parities : ℤ → List Parity → RelaySession F → Sent
  send_parities now [] s = ([], s)
  send_parities now (p ∷ ps) s =
      let (out, s') = send_fec_parity now p s in
      let (more, s'') = send_parities now ps s' in (out ++ more, s'')

  abbrev pub with_sender : List Parity × FecSender → ℤ → RelaySession F → Sent
  with_sender (parities, f) now s = send_parities now parities (record s { fec_send = some f })

  unfoldable pub record_sent :
      ℤ → Option (ℕ × ℕ) → Result PacketError (List ℕ) → Option FecSender → RelaySession F → Sent
  record_sent now none inner f s = ([], s)
  record_sent now (some slot) (err e) f s = ([], s)
  record_sent now (some slot) (ok inner) none s = ([], s)
  record_sent now (some (gen_id, gen_index)) (ok inner) (some f) s =
      let loss = fec_loss_estimate fl (path_slice s.paths) in
      with_sender (record_shard fl codec f loss gen_id gen_index inner) now s

  abbrev pub with_totals : Stats → Sent → List Datagram × Returning F
  with_totals totals (out, s) = (out, record { session = s; totals = totals })

  -- sendSpeed from the sealing on.
  abbrev pub write_data :
      ℤ
      → UdpAddr
      → ℕ
      → ℕ
      → Option (ℕ × ℕ)
      → Result PacketError (List ℕ)
      → Result PacketError (List ℕ) × RelaySession F
      → Stats
      → List Datagram × Returning F
  write_data now addr id bytes slot inner (err e, s) totals = with_totals totals ([], s)
  write_data now addr id bytes slot inner (ok pkt, s) totals =
      let (parity, s') = record_sent now slot inner s.fec_send (count_path_tx id bytes s) in
      if write_ok addr pkt
      then with_totals (count_tx bytes totals) (record { addr = addr; bytes = pkt } ∷ parity, s')
      else with_totals totals ([], s)

  unfoldable pub send_to_path :
      ℤ → List ℕ → BondPath F → Option UdpAddr → Returning F → List Datagram × Returning F
  send_to_path now payload p none r = ([], r)
  send_to_path now payload p (some addr) r =
      let s = r.session in
      let (slot, f) = take_slot (pos_part now) s.fec_send in
      let header = with_slot (data_header s.send_gsn p.send_psn p.id 0 (length payload)) slot in
      let ready = record (stamped p.id (take_gsn s)) { fec_send = f } in
      write_data now addr p.id (length payload) slot (inner_plaintext header payload)
        (seal_on type_data p.id header payload ready) r.totals

  abbrev pub send_on : ℤ → List ℕ → Option (RelayPath F) → Returning F → List Datagram × Returning F
  send_on now payload none r = ([], r)
  send_on now payload (some p) r = send_to_path now payload p.path p.addr r

  abbrev pub chosen_path : Option (PathView F) → List (ℕ × RelayPath F) → Option (RelayPath F)
  chosen_path none ps = none
  chosen_path (some v) ps = lookup v.id ps

  unfoldable pub send_speed : ℤ → List ℕ → Returning F → List Datagram × Returning F
  send_speed now payload r =
      let s = r.session in
      let (choice, sch) = sched_next fl s.sched (map (view fl now) (path_slice s.paths)) in
      send_on now payload (chosen_path choice s.paths)
        (record r { session = record s { sched = sch } })

  abbrev pub write_copy : UdpAddr → ℕ → ℕ → Result PacketError (List ℕ) × RelaySession F → Sent
  write_copy addr id bytes (err e, s) = ([], s)
  write_copy addr id bytes (ok pkt, s) =
      if write_ok addr pkt
      then (record { addr = addr; bytes = pkt } ∷ [], count_path_tx id bytes s)
      else ([], s)

  abbrev pub send_copy : ℕ → ℕ → List ℕ → BondPath F → Option UdpAddr → RelaySession F → Sent
  send_copy gsn flags payload p none s = ([], s)
  send_copy gsn flags payload p (some addr) s = write_copy addr p.id (length payload) (
      seal_on type_data p.id (data_header gsn p.send_psn p.id flags (length payload)) payload
        (stamped p.id s))

  unfoldable pub send_copies : ℕ → ℕ → List ℕ → List (BondPath F) → RelaySession F → Sent
  send_copies gsn flags payload [] s = ([], s)
  send_copies gsn flags payload (p ∷ ps) s =
      let (out, s') = send_copy gsn flags payload p (addr_of (lookup p.id s.paths)) s in
      let (more, s'') = send_copies gsn flag_dup payload ps s' in (out ++ more, s'')

  unfoldable pub send_redundant : ℤ → List ℕ → Returning F → List Datagram × Returning F
  send_redundant now payload r =
      let s = r.session in
      let chosen = select_redundant_paths now (path_slice s.paths) dup_factor in
      if length chosen == 0
      then ([], r)
      else with_totals (count_tx (length payload) r.totals)
          (send_copies s.send_gsn 0 payload chosen (take_gsn s))

  abbrev pub with_session : ℕ → Relay F → List Datagram × Returning F → List Datagram × Relay F
  with_session ref r (out, t) =
      (out, record r { sessions = insert ref t.session r.sessions; stats = t.totals })

  abbrev pub send_back :
      ℤ → List ℕ → ℕ → Option (RelaySession F) → Relay F → List Datagram × Relay F
  send_back now pkt ref none r = ([], r)
  send_back now pkt ref (some s) r =
      let sending : Returning F = record { session = s; totals = r.stats } in
      with_session ref r (
        if s.mode == mode_redundant
        then send_redundant now pkt sending
        else send_speed now pkt sending)

  abbrev pub owned : ℤ → List ℕ → Option ℕ → Relay F → List Datagram × Relay F
  owned now pkt none r = ([], r)
  owned now pkt (some ref) r = send_back now pkt ref (lookup ref r.sessions) r

  abbrev pub addressed : ℤ → List ℕ → Option ℕ → Relay F → List Datagram × Relay F
  addressed now pkt none r = ([], r)
  addressed now pkt (some dst) r = owned now pkt (lookup dst r.by_tunnel_ip) r

  -- ServeTUN on one packet of the device.
  unfoldable pub serve_tun_packet : ℤ → List ℕ → Relay F → List Datagram × Relay F
  serve_tun_packet now pkt r = addressed now pkt (dest_ipv4 pkt) r
