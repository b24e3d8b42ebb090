-- ===== src/Relay/Tables/Greeted.antt =====
-- core/bond/relay.go: handleHandshakeInit keeps the tables, whatever it does on the way.
use bondify.Common.{ℕ, ◌≡◌, ◌==◌, refl, Bool, Option, none, some, List, if_intro, drop}
use bondify.Common.Assoc.{lookup}
use bondify.Common.Float.{Float}
use bondify.Common.Int.{ℤ}
use bondify.Common.Result.{Result, ok, err}
use bondify.Crypto.Handshake.{Noise, new_responder, read_init, write_response}
use bondify.Crypto.Session.{Aead, Session}
use bondify.Fec.{Codec}
use bondify.Proto.{ProtoError, OuterHeader, unmarshal_outer, type_handshake_init}
use bondify.Relay.{UdpAddr, RelaySession, Relay, RelayConfig, Datagram, serve_found, deref}
use bondify.Relay.Handshake.{
  respond_with, marshalled, assigned, initiated, responding, handle_handshake_init, dispatch,
  handle_udp,
}
use bondify.Relay.Tables.{Agree}
use bondify.Relay.Tables.Assigned.{Assigned, assign-Assigned}
use bondify.Relay.Tables.Carried.{carried-Agree}
use bondify.Relay.Tables.Rekeyed.{Free, register-Agree}
use bondify.Relay.Tables.Served.{serve-Carried}
use bondify.Tunnel.{Cbor}

module _ {F : Type 0} (fl : Float F) (aead : Aead) (codec : Codec) (cbor : Cbor) (noise : Noise)
    (cfg : RelayConfig) (write_ok : UdpAddr → List ℕ → Bool) where
  respond_with-Agree :
      (key ip idx : ℕ) (src : UdpAddr) (res : Option (List ℕ × Session)) (r : Relay F)
      → Agree r
      → Free r key ip idx
      → Agree (respond_with fl aead codec cbor noise cfg write_ok key ip idx src res r).1
  respond_with-Agree key ip idx src none r a f = a
  respond_with-Agree key ip idx src (some (msg, sess)) r a f =
      register-Agree fl aead codec cbor noise cfg write_ok key ip idx src sess r a f

  marshalled-Agree :
      (hs : noise.HandshakeState) (key ip idx : ℕ) (src : UdpAddr) (text : Option (List ℕ))
      (r : Relay F)
      → Agree r
      → Free r key ip idx
      → Agree (marshalled fl aead codec cbor noise cfg write_ok hs key ip idx src text r).1
  marshalled-Agree hs key ip idx src none r a f = a
  marshalled-Agree hs key ip idx src (some text) r a f =
      respond_with-Agree key ip idx src (write_response noise hs text) r a f

  assigned-Agree :
      (hs : noise.HandshakeState) (key : ℕ) (src : UdpAddr) (res : Option (ℕ × ℕ) × Relay F)
      → Assigned fl aead codec cbor noise cfg write_ok key res
      → Agree (assigned fl aead codec cbor noise cfg write_ok hs key src res).1
  assigned-Agree hs key src (none, r) a = a
  assigned-Agree hs key src (some (ip, idx), r) (a, f) = marshalled-Agree hs key ip idx src _ r a f

  initiated-Agree :
      (draws : List ℕ) (src : UdpAddr) (res : Option (ℕ × noise.HandshakeState)) (r : Relay F)
      → Agree r
      → Agree (initiated fl aead codec cbor noise cfg write_ok draws src res r).1
  initiated-Agree draws src none r a = a
  initiated-Agree draws src (some (key, hs)) r a =
      assigned-Agree hs key src _
        (assign-Assigned fl aead codec cbor noise cfg write_ok draws r key a)

  handle_handshake_init-Agree :
      (draws : List ℕ) (src : UdpAddr) (msg : List ℕ) (r : Relay F)
      → Agree r
      → Agree (handle_handshake_init fl aead codec cbor noise cfg write_ok draws src msg r).1
  unfolding handle_handshake_init
  handle_handshake_init-Agree draws src msg r a = answered (new_responder noise cfg.relay_key)
    where
      answered :
          (res : Option noise.HandshakeState)
          → Agree (responding fl aead codec cbor noise cfg write_ok draws src msg res r).1
      answered none = a
      answered (some hs) = initiated-Agree draws src (read_init noise hs msg) r a

  served-Agree :
      (now : ℤ) (src : UdpAddr) (oh : OuterHeader) (c : List ℕ) (o : Option ℕ) (r : Relay F)
      → Agree r
      → Agree
          (serve_found fl aead codec cbor noise cfg write_ok now src oh c
            (deref fl aead codec cbor noise cfg write_ok o r)
            r).1
  served-Agree now src oh c none r a = a
  served-Agree now src oh c (some ref) r a = of_session (lookup ref r.sessions) refl
    where
      of_session :
          (o : Option (RelaySession F))
          → lookup ref r.sessions ≡ o
          → Agree
              (serve_found fl aead codec cbor noise cfg write_ok now src oh c
                (elim o [ none ↦ none | some s ↦ some (ref, s) ])
                r).1
      of_session none e = a
      of_session (some s) e =
          carried-Agree r _
            (serve-Carried fl aead codec cbor noise cfg write_ok now src ref r s e oh c) a

  -- After any datagram, authentic or not, on a relay whose tables agree they agree again: the index,
  -- the address and the client that stand in a table belong to one session that the others lead to
  -- under its own index and address, two clients share no session, and every address in use has been
  -- given out. The pool's network ends below the top of the address space.
  pub handle_udp-Agree :
      (now : ℤ) (draws : List ℕ) (src : UdpAddr) (buf : List ℕ) (r : Relay F)
      → Agree r
      → Agree (handle_udp fl aead codec cbor noise cfg write_ok now draws src buf r).1
  unfolding handle_udp
  handle_udp-Agree now draws src buf r a = dispatched (unmarshal_outer buf)
    where
      dispatched :
          (res : Result ProtoError (OuterHeader × ℕ))
          → Agree (dispatch fl aead codec cbor noise cfg write_ok now draws src buf res r).1
      dispatched (err e) = a
      dispatched (ok (oh, n)) =
          if_intro {A = List Datagram × Relay F} (λ res. Agree res.1)
            (oh.typ == type_handshake_init)
            (λ _. handle_handshake_init-Agree draws src (drop n buf) r a)
            (λ _. served-Agree now src oh (drop n buf) (lookup oh.session_index r.by_index) r a)
