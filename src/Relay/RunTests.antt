-- ===== src/Relay/RunTests.antt =====
-- A concrete relay that two clients greet, one of them twice: core/bond/relay.go.
use bondify.Common.{ℕ, ◌≡◌, refl, true, Option, none, some, List, [], ◌∷◌, ◌++◌, replicate, arith}
use bondify.Common.Float.{thousandths}
use bondify.Common.Int.{pos}
use bondify.Common.Result.{ok}
use bondify.Crypto.Handshake.{Noise}
use bondify.Pool.{IpPool, new_ip_pool}
use bondify.Sched.Tiers.{new_scheduler}
use bondify.Relay.{Relay}
use bondify.Relay.Runs.{Event, arrives, returns, ticks, empty_relay, new_relay, run, run-Agree}
use bondify.Relay.Tables.{Agree}
use bondify.Relay.Tests.{toy, codec, cbor, cfg, from_stranger}
use bondify.Tunnel.{Cbor}

-- The first byte of a message is the client's key, and the transport keys are fixed.
key_read : ℕ → List ℕ → Option (List ℕ × Option (List ℕ × List ℕ) × ℕ)
key_read s [] = none
key_read s (k ∷ m) = some (m, none, k)

abbrev greeting : Noise
greeting = record {
  HandshakeState = ℕ;
  initiate = λ k p. some k;
  respond = λ k. some k;
  read_message = key_read;
  write_message = λ s m. some (m, some (1 ∷ [], 2 ∷ []), s);
  peer_static = λ s. s;
}

abbrev marshals : Cbor
marshals = record cbor { marshal_handshake_resp = λ p. some (9 ∷ []) }

-- A HANDSHAKE_INIT of the client with this key.
abbrev init : ℕ → List ℕ
init key = (1 ∷ 1 ∷ []) ++ replicate {A = ℕ} 18 0 ++ (key ∷ [])

abbrev pool : IpPool
pool = record { base = 512; next = 514; end = 767; released = [] }

abbrev events : List Event
events =
    arrives (pos 1000) (77 ∷ []) from_stranger (init 5)
    ∷ arrives (pos 2000) (77 ∷ 78 ∷ []) from_stranger (init 6)
    ∷ returns (pos 3000) []
    ∷ arrives (pos 4000) [] from_stranger (init 5)
    ∷ ticks (pos 5000)
    ∷ []

abbrev first : Relay ℕ
first = empty_relay pool

made : new_relay thousandths cfg 512 8 true ≡ ok first
unfolding new_relay new_scheduler new_ip_pool
made = refl

run-Agree_example :
    Agree (run thousandths toy codec marshals greeting cfg (λ addr pkt. true) events first)
run-Agree_example =
    run-Agree thousandths toy codec marshals greeting cfg (λ addr pkt. true) 512 8 true events first
      made (omega arith)
