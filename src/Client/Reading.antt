-- ===== src/Client/Reading.antt =====
-- core/bond/client.go: one packet in pathReadLoop, one tick of probeLoop and of fecMaintenanceLoop.
use bondify.Common.{
  ℕ, Bool, true, false, ◌&&◌, not, Option, none, some, List, [], ◌∷◌, if◌then◌else◌, length, ◌==◌,
  drop,
}
use bondify.Common.Float.{Float}
use bondify.Common.Int.{ℤ, pos, ◌-ℤ◌, ltb_ℤ}
use bondify.Common.Result.{Result, ok, err}
use bondify.BondPath.{BondPath, ProbePayload, ProbeAckPayload, record_recv, build_probe}
use bondify.BondPath.Health.{handle_probe_ack, handle_probe_missed}
use bondify.Client.{ClientTunnel, Datagram, flush_sender, gc_receiver}
use bondify.Crypto.Session.{Aead, Session, CryptoError}
use bondify.Fec.{Codec}
use bondify.Fec.Receiver.{FecGenBuffer, Shards, handle_fec}
use bondify.Packets.{PacketError, seal_control, open_control, open_packet}
use bondify.Proto.{
  ProtoError, OuterHeader, InnerDataHeader, FecHeader, unmarshal_outer, unmarshal_fec_header,
  type_data, type_fec, type_probe, type_probe_ack,
}
use bondify.Reorder.{push}
use bondify.Sched.{State, dead}
use bondify.Tunnel.{
  Cbor, count_rx, count_error, packet_of, protect, parse_recovered, push_all, count_all, find_path,
  update_path,
}

-- One goroutine of probeLoop: its variables between two ticks.
pub record Prober : Type 0 where
  pub first : Bool
  pub last_ack_seen : ℤ
  pub interval : ℤ

abbrev pub probe_interval : ℤ
probe_interval = pos 200_000_000

abbrev pub probe_idle_after : ℤ
probe_idle_after = pos 30_000_000_000

abbrev pub probe_idle_interval : ℤ
probe_idle_interval = pos 1_000_000_000

abbrev pub fec_gen_timeout : ℕ
fec_gen_timeout = 30_000_000

abbrev pub new_prober : Prober
new_prober = record { first = true; last_ack_seen = pos 0; interval = probe_interval }

abbrev pub is_dead : State → Bool
is_dead s = elim s [ dead ↦ true | _ ↦ false ]

abbrev pub same_time : ℤ → ℤ → Bool
same_time a b = not (ltb_ℤ a b) && not (ltb_ℤ b a)

module _ {F : Type 0} (fl : Float F) (aead : Aead) (codec : Codec) (cbor : Cbor)
    (write_ok : ℕ → List ℕ → Bool) where
  abbrev pub Replied : Type 0
  Replied = List Datagram × ClientTunnel F

  -- The case of a DATA packet, from what openPacket returned.
  unfoldable pub read_data :
      ℤ
      → ℕ
      → Result PacketError (InnerDataHeader × List ℕ) × Session
      → ClientTunnel F
      → ClientTunnel F
  read_data now id (err e, sess) t = record t { sess = sess; stats = count_error t.stats }
  read_data now id (ok (inner, payload), sess) t = record t {
    sess = sess;
    paths =
        update_path id
          (λ q. record (record_recv now q).1 { stats = count_rx (length payload) q.stats }) t.paths;
    stats = count_rx (length payload) t.stats;
    reorder_buf = push t.reorder_buf (packet_of inner payload);
    fec_recv = protect t.fec_recv now inner payload;
  }

  abbrev pub deliver_recovered : Shards × FecGenBuffer → ClientTunnel F → ClientTunnel F
  deliver_recovered (recovered, b) t =
      let rs = parse_recovered recovered in
      record t {
        fec_recv = some b;
        stats = count_all rs t.stats;
        reorder_buf = push_all rs t.reorder_buf;
      }

  -- A parity packet, where FEC is enabled and its header parses.
  unfoldable pub read_parity :
      ℤ
      → InnerDataHeader
      → List ℕ
      → Option FecGenBuffer
      → Result ProtoError (FecHeader × ℕ)
      → ClientTunnel F
      → ClientTunnel F
  read_parity now inner payload none header t = t
  read_parity now inner payload (some b) (err e) t = t
  read_parity now inner payload (some b) (ok (fh, n)) t =
      deliver_recovered
        (handle_fec codec b now inner.generation_id fh.n fh.m fh.w (pos inner.gen_index -ℤ pos fh.n)
          (drop n payload))
        t

  unfoldable pub read_fec :
      ℤ
      → ℕ
      → Result PacketError (InnerDataHeader × List ℕ) × Session
      → ClientTunnel F
      → ClientTunnel F
  read_fec now id (err e, sess) t = record t { sess = sess; stats = count_error t.stats }
  read_fec now id (ok (inner, payload), sess) t =
      read_parity now inner payload t.fec_recv (unmarshal_fec_header payload)
        (record t { sess = sess; paths = update_path id (λ q. (record_recv now q).1) t.paths })

  abbrev pub fold_into : ℤ → ℕ → Option ProbeAckPayload → ClientTunnel F → ClientTunnel F
  fold_into now id none t = t
  fold_into now id (some ack) t = record t {
    paths = update_path id (handle_probe_ack fl ack now) t.paths;
  }

  unfoldable pub read_probe_ack :
      ℤ → ℕ → Result CryptoError (List ℕ) × Session → ClientTunnel F → ClientTunnel F
  read_probe_ack now id (err e, sess) t = record t { sess = sess }
  read_probe_ack now id (ok text, sess) t =
      fold_into now id (cbor.unmarshal_probe_ack text) (record t { sess = sess })

  -- A control packet with a payload that CBOR may have refused; a failed write is ignored.
  abbrev pub write_control : ℕ → ℕ → Option (List ℕ) → ClientTunnel F → Replied
  write_control typ id none t = ([], t)
  write_control typ id (some text) t =
      let (sealed, sess) = seal_control aead t.sess typ t.session_index id text in
      (
        elim sealed [
          | ok pkt ↦ if write_ok id pkt then record { path = id; bytes = pkt } ∷ [] else []
          | err e ↦ []
        ],
        record t { sess = sess },
      )

  abbrev pub answer_probe :
      ℤ → ℕ → Option ProbePayload → Option (BondPath F) → ClientTunnel F → Replied
  answer_probe now id none p t = ([], t)
  answer_probe now id (some probe) none t = ([], t)
  answer_probe now id (some probe) (some p) t =
      let ack : ProbeAckPayload = record {
        sent_at = probe.sent_at;
        sent_psn = probe.sent_psn;
        recv_psn = p.recv_psn;
      } in
      write_control type_probe_ack id (cbor.marshal_probe_ack ack)
        (record t { paths = update_path id (λ q. (record_recv now q).1) t.paths })

  unfoldable pub read_probe :
      ℤ → ℕ → Result CryptoError (List ℕ) × Session → ClientTunnel F → Replied
  read_probe now id (err e, sess) t = ([], record t { sess = sess })
  read_probe now id (ok text, sess) t =
      answer_probe now id (cbor.unmarshal_probe text) (find_path id t.paths)
        (record t { sess = sess })

  -- The switch on the outer type; other types do nothing.
  unfoldable pub dispatch : ℤ → ℕ → OuterHeader → List ℕ → ClientTunnel F → Replied
  dispatch now id oh ciphertext t =
      if oh.typ == type_data
      then ([], read_data now id (open_packet aead t.sess oh id ciphertext) t)
      else if oh.typ == type_fec
      then ([], read_fec now id (open_packet aead t.sess oh id ciphertext) t)
      else if oh.typ == type_probe_ack
      then ([], read_probe_ack now id (open_control aead t.sess oh id ciphertext) t)
      else if oh.typ == type_probe
      then read_probe now id (open_control aead t.sess oh id ciphertext) t
      else ([], t)

  abbrev pub routed :
      ℤ → ℕ → List ℕ → Result ProtoError (OuterHeader × ℕ) → ClientTunnel F → Replied
  routed now id buf (err e) t = ([], t)
  routed now id buf (ok (oh, consumed)) t = dispatch now id oh (drop consumed buf) t

  -- One packet that the socket of path `id` yields.
  unfoldable pub read_packet : ℤ → ℕ → List ℕ → ClientTunnel F → Replied
  read_packet now id buf t = routed now id buf (unmarshal_outer buf) t

  -- A miss is an ack time that has not changed since the last probe.
  abbrev pub note_miss : ℤ → Prober → BondPath F → BondPath F
  note_miss now s p =
      if not s.first && same_time p.last_probe_ack_at s.last_ack_seen
      then handle_probe_missed now p
      else p

  -- `time.Since(lastSentAt) > ProbeIdleAfter`, with the two readings of the clock.
  abbrev pub wanted : ℤ → ℤ → ℤ
  wanted sent later =
      if ltb_ℤ probe_idle_after (later -ℤ sent) then probe_idle_interval else probe_interval

  abbrev pub ack_time : Option (BondPath F) → ℤ
  ack_time none = pos 0
  ack_time (some p) = p.last_probe_ack_at

  -- A tick of probeLoop on a path that it finds; none where the loop returns.
  unfoldable pub probe_path :
      ℤ → ℤ → Prober → BondPath F → ClientTunnel F → Option (Prober × Replied)
  probe_path now later s p t =
      let noted = update_path p.id (note_miss now s) t.paths in
      let probe = (build_probe now p).0 in
      let ready = record t { paths = update_path p.id (λ q. (build_probe now q).1) noted } in
      let (out, t') = write_control type_probe p.id (cbor.marshal_probe probe) ready in
      let s' : Prober = record {
        first = false;
        last_ack_seen = ack_time (find_path p.id t'.paths);
        interval = wanted now later;
      } in
      if is_dead p.state then none else some (s', (out, t'))

  abbrev pub probe_found :
      ℤ → ℤ → Prober → Option (BondPath F) → ClientTunnel F → Option (Prober × Replied)
  probe_found now later s none t = none
  probe_found now later s (some p) t = probe_path now later s p t

  unfoldable pub probe_tick : ℤ → ℤ → Prober → ℕ → ClientTunnel F → Option (Prober × Replied)
  probe_tick now later s id t = probe_found now later s (find_path id t.paths) t

  -- A tick of fecMaintenanceLoop.
  unfoldable pub fec_maintenance : ℤ → ClientTunnel F → Replied
  fec_maintenance now t =
      let (out, t') = flush_sender fl aead codec write_ok now fec_gen_timeout t.fec_send t in
      (
        out,
        record t' {
          fec_recv = gc_receiver fl aead codec write_ok now (pos 1_000_000_000) t'.fec_recv;
        },
      )
