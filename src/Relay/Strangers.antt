-- ===== src/Relay/Strangers.antt =====
-- core/bond/relay.go: what a packet that fails authentication does to the relay.
use bondify.Common.{
  ℕ, ◌≡◌, ◌≢◌, ◌∙◌, refl, sym, ap, subst, Bool, Option, none, some, List, [], arith, ◌==◌, drop,
  if_intro,
}
use bondify.Common.Assoc.{lookup, insert, lookup-insert}
use bondify.Common.Float.{Float}
use bondify.Common.Int.{ℤ}
use bondify.Common.Result.{Result, ok, err}
use bondify.Crypto.Handshake.{Noise}
use bondify.Crypto.Session.{Aead, Session, Arrival, CryptoError}
use bondify.Crypto.Session.Replays.{
  window_of, Opened, refused, accepted, receive-Opened, SameSender, receive-SameSender,
}
use bondify.Fec.{Codec}
use bondify.Packets.{associated_data, open_control, open_packet}
use bondify.Proto.{
  OuterHeader, unmarshal_outer, type_handshake_init, type_data, type_fec, type_path_add, type_probe,
  type_probe_ack,
}
use bondify.Relay.{
  UdpAddr, RelayPath, RelaySession, Relay, RelayConfig, Datagram, path_id_hint, put, accept_data,
  accept_fec, accept_path_add, accept_probe, accept_probe_ack, handle_probe_ack_on, serve,
  serve_found, deref,
}
use bondify.Relay.Handshake.{handle_udp}
use bondify.Tunnel.{Cbor, count_error}
use bondify.BondPath.{Stats}

-- All counters but that of errors.
abbrev pub SameTraffic : Stats → Stats → Type 0
SameTraffic s t =
    (t.tx_packets ≡ s.tx_packets)
    × (t.rx_packets ≡ s.rx_packets)
    × (t.tx_bytes ≡ s.tx_bytes)
    × (t.rx_bytes ≡ s.rx_bytes)

module _ {F : Type 0} where
  -- Of a session only the counter of errors may differ, and whether a window that has accepted
  -- nothing is stored or not.
  pub record Untouched (s t : RelaySession F) : Type 0 where
    pub session_index : t.session_index ≡ s.session_index
    pub tunnel_ip : t.tunnel_ip ≡ s.tunnel_ip
    pub paths : t.paths ≡ s.paths
    pub sched : t.sched ≡ s.sched
    pub reorder_buf : t.reorder_buf ≡ s.reorder_buf
    pub fec_send : t.fec_send ≡ s.fec_send
    pub fec_recv : t.fec_recv ≡ s.fec_recv
    pub send_gsn : t.send_gsn ≡ s.send_gsn
    pub windows : (q : ℕ) → window_of t.sess q ≡ window_of s.sess q
    pub recv_key : t.sess.recv_key ≡ s.sess.recv_key
    pub sender : SameSender s.sess t.sess
    pub mode : t.mode ≡ s.mode
    pub traffic : SameTraffic s.stats t.stats

  abbrev pub Alike : Option (RelaySession F) → Option (RelaySession F) → Type 0
  Alike none none = Unit
  Alike none (some t) = ⊥
  Alike (some s) none = ⊥
  Alike (some s) (some t) = Untouched s t

  -- No reply, the same tables and pool, and every session untouched.
  pub record Harmless (r : Relay F) (res : List Datagram × Relay F) : Type 0 where
    pub silent : res.0 ≡ []
    pub pool : res.1.pool ≡ r.pool
    pub by_index : res.1.by_index ≡ r.by_index
    pub by_tunnel_ip : res.1.by_tunnel_ip ≡ r.by_tunnel_ip
    pub by_client_key : res.1.by_client_key ≡ r.by_client_key
    pub next_ref : res.1.next_ref ≡ r.next_ref
    pub traffic : SameTraffic r.stats res.1.stats
    pub sessions : (ref : ℕ) → Alike (lookup ref r.sessions) (lookup ref res.1.sessions)

  Untouched-refl : (s : RelaySession F) → Untouched s s
  Untouched-refl s = record {
    session_index = refl;
    tunnel_ip = refl;
    paths = refl;
    sched = refl;
    reorder_buf = refl;
    fec_send = refl;
    fec_recv = refl;
    send_gsn = refl;
    windows = λ q. refl;
    recv_key = refl;
    sender = (refl, refl);
    mode = refl;
    traffic = (refl, refl, refl, refl);
  }

  Alike-refl : (o : Option (RelaySession F)) → Alike o o
  Alike-refl none = tt
  Alike-refl (some s) = Untouched-refl s

  ignored : (r : Relay F) → Harmless r ([], r)
  ignored r = record {
    silent = refl;
    pool = refl;
    by_index = refl;
    by_tunnel_ip = refl;
    by_client_key = refl;
    next_ref = refl;
    traffic = (refl, refl, refl, refl);
    sessions = λ ref. Alike-refl (lookup ref r.sessions);
  }

  inserted :
      (ref : ℕ) (s t : RelaySession F) (store : List (ℕ × RelaySession F))
      → lookup ref store ≡ some s
      → Untouched s t
      → (q : ℕ) → Alike (lookup q store) (lookup q (insert ref t store))
  inserted ref s t store e u q = rw (lookup-insert ref q t store) (
      if_intro (Alike (lookup q store)) (ref == q)
        (λ k. subst (λ o. Alike o (some t)) (sym e ∙ ap (λ n. lookup n store) (ground arith)) u)
        (λ k. Alike-refl (lookup q store)))

  stored :
      (r : Relay F) (totals : Stats) (ref : ℕ) (s t : RelaySession F)
      → lookup ref r.sessions ≡ some s
      → Untouched s t
      → SameTraffic r.stats totals
      → Harmless r ([], record r { stats = totals; sessions = insert ref t r.sessions })
  stored r totals ref s t here u same = record {
    silent = refl;
    pool = refl;
    by_index = refl;
    by_tunnel_ip = refl;
    by_client_key = refl;
    next_ref = refl;
    traffic = same;
    sessions = inserted ref s t r.sessions here u;
  }

  -- Another session state of the cipher, with the same windows, and other counters.
  resealed :
      (s : RelaySession F) (t : Session) (counters : Stats)
      → ((q : ℕ) → window_of t q ≡ window_of s.sess q)
      → t.recv_key ≡ s.sess.recv_key
      → SameSender s.sess t
      → SameTraffic s.stats counters
      → Untouched s (record s { sess = t; stats = counters })
  resealed s t counters same key sender traffic = record {
    session_index = refl;
    tunnel_ip = refl;
    paths = refl;
    sched = refl;
    reorder_buf = refl;
    fec_send = refl;
    fec_recv = refl;
    send_gsn = refl;
    windows = same;
    recv_key = key;
    sender = sender;
    mode = refl;
    traffic = traffic;
  }

module _ (aead : Aead) where
  -- A packet that fails authentication, as open_control sees it.
  refused_open :
      (s : Session) (oh : OuterHeader) (id : ℕ) (c : List ℕ)
      → aead.unseal s.recv_key oh.nonce c (associated_data oh.typ oh.version oh.session_index)
        ≡ none
      → (e : CryptoError) × (t : Session) × (open_control aead s oh id c ≡ (err e, t))
        × ((q : ℕ) → window_of t q ≡ window_of s q)
        × (t.recv_key ≡ s.recv_key)
        × SameSender s t
  unfolding open_control
  refused_open s oh id c h =
      let ad = associated_data oh.typ oh.version oh.session_index in
      let a : Arrival = record { path = id; ciphertext = c; ad = ad; nonce = oh.nonce } in
      from_opened s a (receive-Opened aead s a) (receive-SameSender aead s a) h
    where
      from_opened :
          (s : Session) (a : Arrival) {res : Result CryptoError (List ℕ) × Session}
          → Opened aead s a res
          → SameSender s res.1
          → aead.unseal s.recv_key a.nonce a.ciphertext a.ad ≡ none
          → (e : CryptoError) × (t : Session) × (res ≡ (err e, t))
            × ((q : ℕ) → window_of t q ≡ window_of s q)
            × (t.recv_key ≡ s.recv_key)
            × SameSender s t
      from_opened s a (refused e t same key) sender h = (e, t, refl, same, key, sender)
      from_opened s a (accepted x t route fresh auth marks key) sender h = absurd (ground arith)

module _ {F : Type 0} (fl : Float F) (aead : Aead) (codec : Codec) (cbor : Cbor) (noise : Noise)
    (cfg : RelayConfig) (write_ok : UdpAddr → List ℕ → Bool) where
  -- handleProbeAck ignores a packet for a path that it does not know.
  probe_ack-Harmless :
      (now : ℤ) (oh : OuterHeader) (c : List ℕ) (ref : ℕ) (p : Option (RelayPath F))
      (s : RelaySession F) (r : Relay F) (e : CryptoError) (t : Session)
      → open_control aead s.sess oh (path_id_hint oh) c ≡ (err e, t)
      → Harmless r ([], put fl aead codec cbor noise cfg write_ok ref (record s { sess = t }) r)
      → Harmless r
          ([], handle_probe_ack_on fl aead codec cbor noise cfg write_ok now oh c ref p s r)
  unfolding accept_probe_ack
  probe_ack-Harmless now oh c ref none s r e t opened kept = ignored r
  probe_ack-Harmless now oh c ref (some p) s r e t opened kept = rw opened kept

  serve-Harmless :
      (now : ℤ) (src : UdpAddr) (oh : OuterHeader) (c : List ℕ) (ref : ℕ) (s : RelaySession F)
      (r : Relay F)
      → lookup ref r.sessions ≡ some s
      → aead.unseal s.sess.recv_key oh.nonce c (associated_data oh.typ oh.version oh.session_index)
        ≡ none
      → Harmless r (serve fl aead codec cbor noise cfg write_ok now src oh c ref s r)
  unfolding serve open_packet accept_data accept_fec accept_path_add accept_probe accept_probe_ack
  serve-Harmless now src oh c ref s r here forged =
      let id = path_id_hint oh in
      let (e, t, opened, same, key, sender) = refused_open aead s.sess oh id c forged in
      let kept =
        stored r r.stats ref s (record s { sess = t }) here
          (resealed s t s.stats same key sender (refl, refl, refl, refl))
          (refl, refl, refl, refl) in
      let counted =
        stored r (count_error r.stats) ref s (record s { sess = t; stats = count_error s.stats })
          here (resealed s t (count_error s.stats) same key sender (refl, refl, refl, refl))
          (refl, refl, refl, refl) in
      rw opened (
        if_intro (Harmless r) (oh.typ == type_data) (λ _. counted)
          (λ _.
            if_intro (Harmless r) (oh.typ == type_fec) (λ _. counted)
              (λ _.
                if_intro (Harmless r) (oh.typ == type_path_add) (λ _. kept)
                  (λ _.
                    if_intro (Harmless r) (oh.typ == type_probe) (λ _. kept)
                      (λ _.
                        if_intro (Harmless r) (oh.typ == type_probe_ack)
                          (λ _.
                            probe_ack-Harmless now oh c ref (lookup id s.paths) s r e t opened kept)
                          (λ _. ignored r))))))

  -- A packet that is no HANDSHAKE_INIT and that fails authentication under the session whose index it
  -- carries, if there is one, draws no reply and leaves the pool, the tables and every session as
  -- they were: paths, addresses, mode, keys, receive windows, the nonce counters and the GSN of what is
  -- sent, the reordering and FEC buffers, the counters of packets and bytes. Only counters of errors
  -- may change, and a window that has accepted nothing may be stored.
  pub handle_udp-Harmless :
      (now : ℤ) (draws : List ℕ) (src : UdpAddr) (buf : List ℕ) (oh : OuterHeader) (n : ℕ)
      (r : Relay F)
      → unmarshal_outer buf ≡ ok (oh, n)
      → oh.typ ≢ type_handshake_init
      → ((ref : ℕ) (s : RelaySession F)
          → lookup oh.session_index r.by_index ≡ some ref
          → lookup ref r.sessions ≡ some s
          → aead.unseal s.sess.recv_key oh.nonce
              (drop n buf)
              (associated_data oh.typ oh.version oh.session_index)
            ≡ none)
      → Harmless r (handle_udp fl aead codec cbor noise cfg write_ok now draws src buf r)
  unfolding handle_udp
  handle_udp-Harmless now draws src buf oh n r parsed other forged = rw parsed (
      if_intro (Harmless r) (oh.typ == type_handshake_init) (λ e. absurd (other (ground arith)))
        (λ _. found (lookup oh.session_index r.by_index) refl))
    where
      found_session :
          (ref : ℕ) (o : Option (RelaySession F))
          → lookup oh.session_index r.by_index ≡ some ref
          → lookup ref r.sessions ≡ o
          → Harmless r (
              serve_found fl aead codec cbor noise cfg write_ok now src oh
                (drop n buf)
                (elim o [ none ↦ none | some s ↦ some (ref, s) ])
                r)
      found_session ref none e f = ignored r
      found_session ref (some s) e f =
          serve-Harmless now src oh (drop n buf) ref s r f (forged ref s e f)

      found :
          (o : Option ℕ)
          → lookup oh.session_index r.by_index ≡ o
          → Harmless r (
              serve_found fl aead codec cbor noise cfg write_ok now src oh
                (drop n buf)
                (deref fl aead codec cbor noise cfg write_ok o r)
                r)
      found none e = ignored r
      found (some ref) e = found_session ref (lookup ref r.sessions) e refl
