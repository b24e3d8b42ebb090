-- ===== src/Relay/Tables/Returned.antt =====
-- core/bond/relay.go: return traffic keeps the tables.
use bondify.Common.{ℕ, ◌≡◌, refl, Bool, Option, none, some, List, [], ◌∷◌, ◌==◌, if_intro, length}
use bondify.Common.Assoc.{lookup}
use bondify.Common.Float.{Float}
use bondify.Common.Int.{ℤ}
use bondify.Common.Result.{Result, ok, err}
use bondify.BondPath.{BondPath, Stats}
use bondify.Client.{fec_payload}
use bondify.Crypto.Session.{Aead}
use bondify.Fec.{Codec}
use bondify.Fec.Sender.{FecSender, Parity}
use bondify.Modes.{mode_redundant, dup_factor, select_redundant_paths, healthiest_path}
use bondify.Packets.{PacketError}
use bondify.Proto.{ProtoError, flag_dup}
use bondify.Relay.{UdpAddr, RelayPath, RelaySession, Relay, Datagram, dest_ipv4}
use bondify.Relay.Sending.{
  Returning, path_slice, addr_of, write_parity, parity_to, carry_parity, send_fec_parity,
  send_parities, record_sent, write_data, send_to_path, send_on, send_speed, write_copy, send_copy,
  send_copies, send_redundant, send_back, owned, addressed, serve_tun_packet, take_gsn, update_path,
}
use bondify.Relay.Tables.Carried.{Carried, Carried-refl, insert-Carried}

module _ {F : Type 0} (fl : Float F) (aead : Aead) (codec : Codec)
    (write_ok : UdpAddr → List ℕ → Bool) (old : RelaySession F) where
  -- The index and the address of the session that sends.
  abbrev Same : RelaySession F → Type 0
  Same s = (s.session_index ≡ old.session_index) × (s.tunnel_ip ≡ old.tunnel_ip)

  abbrev SameOut : List Datagram × RelaySession F → Type 0
  SameOut res = Same res.1

  abbrev SameAfter : List Datagram × Returning F → Type 0
  SameAfter res = Same res.1.session

  written_parity :
      (addr : UdpAddr) (res : Result PacketError (List ℕ) × RelaySession F)
      → Same res.1
      → SameOut (write_parity fl aead codec write_ok addr res)
  written_parity addr (err e, s) h = h
  written_parity addr (ok pkt, s) h = if_intro SameOut (write_ok addr pkt) (λ _. h) (λ _. h)

  parity_out :
      (parity : Parity) (p : BondPath F) (addr : Option UdpAddr)
      (header : Result ProtoError (List ℕ)) (s : RelaySession F)
      → Same s
      → SameOut (parity_to fl aead codec write_ok parity p addr header s)
  unfolding update_path
  parity_out parity p none header s h = h
  parity_out parity p (some addr) (err e) s h = h
  parity_out parity p (some addr) (ok header) s h = written_parity addr _ h

  parity_carried :
      (parity : Parity) (p : Option (BondPath F)) (s : RelaySession F)
      → Same s
      → SameOut (carry_parity fl aead codec write_ok parity p s)
  parity_carried parity none s h = h
  parity_carried parity (some p) s h =
      parity_out parity p (addr_of (lookup p.id s.paths)) (fec_payload parity) s h

  parities_out :
      (now : ℤ) (ps : List Parity) (s : RelaySession F)
      → Same s
      → SameOut (send_parities fl aead codec write_ok now ps s)
  unfolding send_parities send_fec_parity
  parities_out now [] s h = h
  parities_out now (p ∷ ps) s h =
      parities_out now ps _ (parity_carried p (healthiest_path fl now (path_slice s.paths)) s h)

  shard_recorded :
      (now : ℤ) (slot : Option (ℕ × ℕ)) (inner : Result PacketError (List ℕ)) (f : Option FecSender)
      (s : RelaySession F)
      → Same s
      → SameOut (record_sent fl aead codec write_ok now slot inner f s)
  unfolding record_sent
  shard_recorded now none inner f s h = h
  shard_recorded now (some slot) (err e) f s h = h
  shard_recorded now (some slot) (ok inner) none s h = h
  shard_recorded now (some (gen_id, gen_index)) (ok inner) (some f) s h = parities_out now _ _ h

  data_written :
      (now : ℤ) (addr : UdpAddr) (id bytes : ℕ) (slot : Option (ℕ × ℕ))
      (inner : Result PacketError (List ℕ)) (res : Result PacketError (List ℕ) × RelaySession F)
      (totals : Stats)
      → Same res.1
      → SameAfter (write_data fl aead codec write_ok now addr id bytes slot inner res totals)
  unfolding update_path
  data_written now addr id bytes slot inner (err e, s) totals h = h
  data_written now addr id bytes slot inner (ok pkt, s) totals h =
      if_intro SameAfter (write_ok addr pkt) (λ _. shard_recorded now slot inner s.fec_send _ h)
        (λ _. h)

  data_sent :
      (now : ℤ) (payload : List ℕ) (p : Option (RelayPath F)) (r : Returning F)
      → Same r.session
      → SameAfter (send_on fl aead codec write_ok now payload p r)
  unfolding send_to_path update_path
  data_sent now payload none r h = h
  data_sent now payload (some p) r h = to_address p.addr
    where
      to_address :
          (addr : Option UdpAddr)
          → SameAfter (send_to_path fl aead codec write_ok now payload p.path addr r)
      to_address none = h
      to_address (some addr) = data_written now addr _ _ _ _ _ r.totals h

  copy_written :
      (addr : UdpAddr) (id bytes : ℕ) (res : Result PacketError (List ℕ) × RelaySession F)
      → Same res.1
      → SameOut (write_copy fl aead codec write_ok addr id bytes res)
  unfolding update_path
  copy_written addr id bytes (err e, s) h = h
  copy_written addr id bytes (ok pkt, s) h = if_intro SameOut (write_ok addr pkt) (λ _. h) (λ _. h)

  copy_sent :
      (gsn flags : ℕ) (payload : List ℕ) (p : BondPath F) (addr : Option UdpAddr)
      (s : RelaySession F)
      → Same s
      → SameOut (send_copy fl aead codec write_ok gsn flags payload p addr s)
  unfolding update_path
  copy_sent gsn flags payload p none s h = h
  copy_sent gsn flags payload p (some addr) s h = copy_written addr _ _ _ h

  copies_sent :
      (gsn flags : ℕ) (payload : List ℕ) (ps : List (BondPath F)) (s : RelaySession F)
      → Same s
      → SameOut (send_copies fl aead codec write_ok gsn flags payload ps s)
  unfolding send_copies
  copies_sent gsn flags payload [] s h = h
  copies_sent gsn flags payload (p ∷ ps) s h =
      copies_sent gsn flag_dup payload ps _
        (copy_sent gsn flags payload p (addr_of (lookup p.id s.paths)) s h)

  speed_sent :
      (now : ℤ) (payload : List ℕ) (r : Returning F)
      → Same r.session
      → SameAfter (send_speed fl aead codec write_ok now payload r)
  unfolding send_speed
  speed_sent now payload r h = data_sent now payload _ _ h

  redundant_sent :
      (now : ℤ) (payload : List ℕ) (r : Returning F)
      → Same r.session
      → SameAfter (send_redundant fl aead codec write_ok now payload r)
  unfolding send_redundant
  redundant_sent now payload r h =
      let s = r.session in
      let chosen = select_redundant_paths now (path_slice s.paths) dup_factor in
      if_intro SameAfter (length chosen == 0) (λ _. h)
        (λ _. copies_sent s.send_gsn 0 payload chosen (take_gsn s) h)

module _ {F : Type 0} (fl : Float F) (aead : Aead) (codec : Codec)
    (write_ok : UdpAddr → List ℕ → Bool) where
  pub serve_tun_packet-Carried :
      (now : ℤ) (pkt : List ℕ) (r : Relay F)
      → Carried r (serve_tun_packet fl aead codec write_ok now pkt r).1
  unfolding serve_tun_packet
  serve_tun_packet-Carried now pkt r = to_address (dest_ipv4 pkt)
    where
      from_session :
          (ref : ℕ) (o : Option (RelaySession F))
          → lookup ref r.sessions ≡ o
          → Carried r (send_back fl aead codec write_ok now pkt ref o r).1
      from_session ref none e = Carried-refl r
      from_session ref (some s) e =
          let sending : Returning F = record { session = s; totals = r.stats } in
          let (i, b) =
            if_intro (SameAfter fl aead codec write_ok s) (s.mode == mode_redundant)
              (λ _. redundant_sent fl aead codec write_ok s now pkt sending (refl, refl))
              (λ _. speed_sent fl aead codec write_ok s now pkt sending (refl, refl)) in
          insert-Carried r _ ref s _ e i b

      to_owner : (o : Option ℕ) → Carried r (owned fl aead codec write_ok now pkt o r).1
      to_owner none = Carried-refl r
      to_owner (some ref) = from_session ref (lookup ref r.sessions) refl

      to_address : (o : Option ℕ) → Carried r (addressed fl aead codec write_ok now pkt o r).1
      to_address none = Carried-refl r
      to_address (some dst) = to_owner (lookup dst r.by_tunnel_ip)
