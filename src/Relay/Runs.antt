-- ===== src/Relay/Runs.antt =====
-- core/bond/relay.go: NewRelay, and whole runs of the relay: datagrams from the socket, packets from
-- the device and ticks of livenessLoop, in any order.
use bondify.Common.{
  ℕ, ◌+◌, ◌-◌, ◌^◌, ◌<◌, ◌≡◌, refl, ap, subst, Bool, true, false, Option, none, some, List, [], ◌∷◌,
  arith, if◌then◌else◌,
}
use bondify.Common.Assoc.{lookup}
use bondify.Common.Float.{Float}
use bondify.Common.Int.{ℤ}
use bondify.Common.Result.{Result, ok, err}
use bondify.BondPath.{no_stats}
use bondify.Crypto.Handshake.{Noise}
use bondify.Crypto.Session.{Aead}
use bondify.Fec.{Codec}
use bondify.Pool.{IpPool, PoolError, new_ip_pool}
use bondify.Pool.Distinctness.{new_ip_pool-Made}
use bondify.Relay.{
  UdpAddr, RelaySession, Relay, RelayConfig, expire_session, expire_all, liveness_tick,
}
use bondify.Relay.Handshake.{handle_udp}
use bondify.Relay.Sending.{serve_tun_packet}
use bondify.Relay.Tables.{Agree}
use bondify.Relay.Tables.Carried.{insert-Carried, carried-Agree}
use bondify.Relay.Tables.Greeted.{handle_udp-Agree}
use bondify.Relay.Tables.Returned.{serve_tun_packet-Carried}
use bondify.Sched.Tiers.{Scheduler, new_scheduler}
use bondify.Tunnel.{Cbor}

pub data RelayError : Type 0 where
  unknown_scheduler not_listening : RelayError
  no_pool : PoolError → RelayError

pub data Event : Type 0 where
  -- a datagram, with the numbers that the random source yields
  arrives : ℤ → List ℕ → UdpAddr → List ℕ → Event
  -- a packet of the device
  returns : ℤ → List ℕ → Event
  -- a tick of livenessLoop
  ticks : ℤ → Event

module _ {V : Type 0} where
  nothing_in : {A : Type 0} → (key : ℕ) (v : V) → lookup key [] ≡ some v → A
  unfolding lookup
  nothing_in key v h = absurd (ground arith)

module _ {F : Type 0} where
  -- The maps are empty.
  abbrev pub empty_relay : IpPool → Relay F
  empty_relay pool = record {
    pool = pool;
    sessions = [];
    next_ref = 0;
    by_index = [];
    by_tunnel_ip = [];
    by_client_key = [];
    stats = no_stats;
  }

  abbrev pub started : Bool → IpPool → Result RelayError (Relay F)
  started listens pool = if listens then ok (empty_relay pool) else err not_listening

  abbrev pub with_pool :
      Bool → Option (Scheduler F) → Result PoolError IpPool → Result RelayError (Relay F)
  with_pool listens none pool = err unknown_scheduler
  with_pool listens (some s) (err e) = err (no_pool e)
  with_pool listens (some s) (ok pool) = started listens pool

  -- NewRelay; `listens` is whether the address resolves and the socket opens.
  unfoldable pub new_relay : Float F → RelayConfig → ℕ → ℕ → Bool → Result RelayError (Relay F)
  new_relay fl cfg base host_bits listens =
      with_pool listens (new_scheduler fl cfg.scheduler) (new_ip_pool base host_bits)

  relay_of : Relay F → Result RelayError (Relay F) → Relay F
  relay_of d (ok r) = r
  relay_of d (err e) = d

  empty_relay-Agree :
      (pool : IpPool) → pool.released ≡ [] → pool.end < 2 ^ 32 - 1 → Agree (empty_relay pool)
  empty_relay-Agree pool free room = record {
    index = λ idx ref h. nothing_in idx ref h;
    address = λ ip ref h. nothing_in ip ref h;
    client = λ key ref h. nothing_in key ref h;
    alone = λ key other ref h g. nothing_in key ref h;
    fresh = λ ref s h. nothing_in ref s h;
    given = λ ip ref h. nothing_in ip ref h;
    unreleased = free;
    room = room;
  }

module _ {F : Type 0} (fl : Float F) (aead : Aead) (codec : Codec) (cbor : Cbor) (noise : Noise)
    (cfg : RelayConfig) (write_ok : UdpAddr → List ℕ → Bool) where
  abbrev react : Event → Relay F → Relay F
  react (arrives now draws src buf) r =
      (handle_udp fl aead codec cbor noise cfg write_ok now draws src buf r).1
  react (returns now pkt) r = (serve_tun_packet fl aead codec write_ok now pkt r).1
  react (ticks now) r = liveness_tick fl now r

  unfoldable pub run : List Event → Relay F → Relay F
  run [] r = r
  run (e ∷ es) r = run es (react e r)

  expired-Agree :
      (now : ℤ) (table : List (ℕ × ℕ)) (r : Relay F) → Agree r → Agree (expire_all fl now table r)
  unfolding expire_all expire_session
  expired-Agree now [] r a = a
  expired-Agree now ((idx, ref) ∷ table) r a =
      expired-Agree now table _ (found (lookup ref r.sessions) refl)
    where
      found :
          (o : Option (RelaySession F))
          → lookup ref r.sessions ≡ o
          → Agree (expire_session fl now o ref r)
      found none e = a
      found (some s) e = carried-Agree r _ (insert-Carried r r.stats ref s _ e refl refl) a

  run_on-Agree : (es : List Event) (r : Relay F) → Agree r → Agree (run es r)
  unfolding run
  run_on-Agree [] r a = a
  run_on-Agree (arrives now draws src buf ∷ es) r a =
      run_on-Agree es _
        (handle_udp-Agree fl aead codec cbor noise cfg write_ok now draws src buf r a)
  run_on-Agree (returns now pkt ∷ es) r a =
      run_on-Agree es _
        (carried-Agree r _ (serve_tun_packet-Carried fl aead codec write_ok now pkt r) a)
  run_on-Agree (ticks now ∷ es) r a = run_on-Agree es _ (expired-Agree now r.by_index r a)

  started-Agree :
      (base host_bits : ℕ) (listens : Bool) (s : Option (Scheduler F))
      (made : Result PoolError IpPool) (r : Relay F)
      → new_ip_pool base host_bits ≡ made
      → with_pool listens s made ≡ ok r
      → base + 2 ^ host_bits < 2 ^ 32
      → Agree r
  unfolding relay_of
  started-Agree base host_bits listens none made r e h room = absurd (ground arith)
  started-Agree base host_bits listens (some s) (err x) r e h room = absurd (ground arith)
  started-Agree base host_bits false (some s) (ok pool) r e h room = absurd (ground arith)
  started-Agree base host_bits true (some s) (ok pool) r e h room =
      let m = new_ip_pool-Made base host_bits pool e (omega arith) room in
      let last = m.last_fresh in
      subst Agree (ap (relay_of r) h) (empty_relay-Agree pool m.none_free (omega arith))

  -- On a relay that NewRelay has made, whose pool's network ends below the top of the address space,
  -- after any sequence of datagrams, authentic or not, of packets from the device and of ticks of
  -- livenessLoop: whatever index, address or client's key stands in a table leads to one session,
  -- which the other tables lead to under its own index and its own address; two clients share no
  -- session; every address in use has been given out by the pool.
  pub run-Agree :
      (base host_bits : ℕ) (listens : Bool) (es : List Event) (r : Relay F)
      → new_relay fl cfg base host_bits listens ≡ ok r
      → base + 2 ^ host_bits < 2 ^ 32
      → Agree (run es r)
  unfolding new_relay
  run-Agree base host_bits listens es r made room = run_on-Agree es r (
      started-Agree base host_bits listens (new_scheduler fl cfg.scheduler)
        (new_ip_pool base host_bits) r refl made room)
