-- ===== src/Relay/Tables/Served.antt =====
-- core/bond/relay.go: every handler of a session's packets keeps the tables.
use bondify.Common.{ℕ, ◌≡◌, refl, Bool, Option, none, some, List, ◌==◌, if_intro}
use bondify.Common.Assoc.{lookup, insert}
use bondify.Common.Float.{Float}
use bondify.Common.Int.{ℤ}
use bondify.Common.Result.{Result, ok, err}
use bondify.BondPath.{ProbePayload, ProbeAckPayload, Stats}
use bondify.Crypto.Handshake.{Noise}
use bondify.Crypto.Session.{Aead, Session, CryptoError}
use bondify.Fec.{Codec}
use bondify.Fec.Receiver.{FecGenBuffer}
use bondify.Packets.{PacketError, open_control, open_packet, seal_control}
use bondify.Proto.{
  ProtoError, FecHeader, InnerDataHeader, OuterHeader, unmarshal_fec_header, type_data, type_fec,
  type_path_add, type_probe, type_probe_ack,
}
use bondify.Relay.{
  UdpAddr, RelayPath, RelaySession, Relay, RelayConfig, Datagram, path_id_hint, accept_data,
  accept_fec, accept_parity, accept_path_add, accept_probe, accept_probe_ack, add_path,
  answer_probe, reply_control, fold_into, handle_probe_ack_on, serve,
}
use bondify.Relay.Tables.Carried.{Carried, Carried-refl, insert-Carried}
use bondify.Tunnel.{Cbor, PathAddPayload}

module _ {F : Type 0} (fl : Float F) (aead : Aead) (codec : Codec) (cbor : Cbor) (noise : Noise)
    (cfg : RelayConfig) (write_ok : UdpAddr → List ℕ → Bool) (now : ℤ) (src : UdpAddr) (ref : ℕ)
    (r : Relay F) (old : RelaySession F) (here : lookup ref r.sessions ≡ some old) where
  back :
      (totals : Stats) (s : RelaySession F)
      → s.session_index ≡ old.session_index
      → s.tunnel_ip ≡ old.tunnel_ip
      → Carried r (record r { stats = totals; sessions = insert ref s r.sessions })
  back totals s e f = insert-Carried r totals ref old s here e f

  replied :
      (typ id : ℕ) (addr : UdpAddr) (text : Option (List ℕ)) (s : RelaySession F)
      → s.session_index ≡ old.session_index
      → s.tunnel_ip ≡ old.tunnel_ip
      → Carried r (reply_control fl aead codec cbor noise cfg write_ok typ id addr ref text s r).1
  replied typ id addr none s e f = back r.stats s e f
  replied typ id addr (some text) s e f =
      let t = seal_control aead s.sess typ s.session_index id text in
      back r.stats (record s { sess = t.1 }) e f

  data_kept :
      (id : ℕ) (opened : Result PacketError (InnerDataHeader × List ℕ) × Session)
      → Carried r (accept_data fl aead codec cbor noise cfg write_ok now src id ref opened old r)
  unfolding accept_data
  data_kept id (err e, t) = back _ _ refl refl
  data_kept id (ok (inner, payload), t) = back _ _ refl refl

  parity_kept :
      (inner : InnerDataHeader) (payload : List ℕ) (b : Option FecGenBuffer)
      (header : Result ProtoError (FecHeader × ℕ)) (s : RelaySession F)
      → s.session_index ≡ old.session_index
      → s.tunnel_ip ≡ old.tunnel_ip
      → Carried r
          (accept_parity fl aead codec cbor noise cfg write_ok now ref inner payload b header s r)
  unfolding accept_parity
  parity_kept inner payload none header s e f = back _ _ e f
  parity_kept inner payload (some b) (err x) s e f = back _ _ e f
  parity_kept inner payload (some b) (ok (fh, n)) s e f = back _ _ e f

  fec_kept :
      (id : ℕ) (opened : Result PacketError (InnerDataHeader × List ℕ) × Session)
      → Carried r (accept_fec fl aead codec cbor noise cfg write_ok now src id ref opened old r)
  unfolding accept_fec
  fec_kept id (err e, t) = back _ _ refl refl
  fec_kept id (ok (inner, payload), t) =
      parity_kept inner payload old.fec_recv (unmarshal_fec_header payload) _ refl refl

  path_added :
      (req : Option PathAddPayload) (t : Session)
      → Carried r
          (add_path fl aead codec cbor noise cfg write_ok src ref req (record old { sess = t }) r).1
  path_added none t = back _ _ refl refl
  path_added (some req) t = replied _ _ _ _ _ refl refl

  path_add_kept :
      (opened : Result CryptoError (List ℕ) × Session)
      → Carried r (accept_path_add fl aead codec cbor noise cfg write_ok src ref opened old r).1
  unfolding accept_path_add
  path_add_kept (err e, t) = back _ _ refl refl
  path_add_kept (ok text, t) = path_added (cbor.unmarshal_path_add text) t

  probe_answered :
      (id : ℕ) (probe : Option ProbePayload) (t : Session)
      → Carried r
          (answer_probe fl aead codec cbor noise cfg write_ok now src id ref probe
            (record old { sess = t })
            r).1
  probe_answered id none t = back _ _ refl refl
  probe_answered id (some probe) t = replied _ _ _ _ _ refl refl

  probe_kept :
      (id : ℕ) (opened : Result CryptoError (List ℕ) × Session)
      → Carried r (accept_probe fl aead codec cbor noise cfg write_ok now src id ref opened old r).1
  unfolding accept_probe
  probe_kept id (err e, t) = back _ _ refl refl
  probe_kept id (ok text, t) = probe_answered id (cbor.unmarshal_probe text) t

  ack_folded :
      (id : ℕ) (p : RelayPath F) (ack : Option ProbeAckPayload) (t : Session)
      → Carried r (
          fold_into fl aead codec cbor noise cfg write_ok now id ref p ack
            (record old { sess = t })
            r)
  ack_folded id p none t = back _ _ refl refl
  ack_folded id p (some ack) t = back _ _ refl refl

  probe_ack_kept :
      (oh : OuterHeader) (c : List ℕ) (p : Option (RelayPath F))
      → Carried r (handle_probe_ack_on fl aead codec cbor noise cfg write_ok now oh c ref p old r)
  unfolding accept_probe_ack
  probe_ack_kept oh c none = Carried-refl r
  probe_ack_kept oh c (some p) = opened (open_control aead old.sess oh (path_id_hint oh) c)
    where
      opened :
          (res : Result CryptoError (List ℕ) × Session)
          → Carried r (
              accept_probe_ack fl aead codec cbor noise cfg write_ok now
                (path_id_hint oh)
                ref
                p
                res
                old
                r)
      opened (err e, t) = back _ _ refl refl
      opened (ok text, t) = ack_folded (path_id_hint oh) p (cbor.unmarshal_probe_ack text) t

  abbrev Kept : List Datagram × Relay F → Type 0
  Kept res = Carried r res.1

  pub serve-Carried :
      (oh : OuterHeader) (c : List ℕ)
      → Carried r (serve fl aead codec cbor noise cfg write_ok now src oh c ref old r).1
  unfolding serve
  serve-Carried oh c =
      let id = path_id_hint oh in
      let control = open_control aead old.sess oh id c in
      let packet = open_packet aead old.sess oh id c in
      if_intro Kept (oh.typ == type_data) (λ _. data_kept id packet)
        (λ _.
          if_intro Kept (oh.typ == type_fec) (λ _. fec_kept id packet)
            (λ _.
              if_intro Kept (oh.typ == type_path_add) (λ _. path_add_kept control)
                (λ _.
                  if_intro Kept (oh.typ == type_probe) (λ _. probe_kept id control)
                    (λ _.
                      if_intro Kept (oh.typ == type_probe_ack)
                        (λ _. probe_ack_kept oh c (lookup id old.paths)) (λ _. Carried-refl r)))))
