-- ===== src/Crypto/Handshake.antt =====
-- core/crypto/handshake.go: the Noise handshake of github.com/flynn/noise, which is a parameter. A
-- key is its number; the keys of a transport cipher, which newSession extracts, are its bytes.
use bondify.Common.{ℕ, Option, none, some, List}
use bondify.Crypto.Session.{Session, new_session}

-- NewHandshakeState for a role, the own key pair and the peer's key; ReadMessage and WriteMessage,
-- with the two transport keys where the pattern is complete; PeerStatic.
pub record Noise : Type 1 where
  pub HandshakeState : Type 0
  pub initiate : ℕ → ℕ → Option HandshakeState
  pub respond : ℕ → Option HandshakeState
  pub read_message :
      HandshakeState → List ℕ → Option (List ℕ × Option (List ℕ × List ℕ) × HandshakeState)
  pub write_message :
      HandshakeState → List ℕ → Option (List ℕ × Option (List ℕ × List ℕ) × HandshakeState)
  pub peer_static : HandshakeState → ℕ

-- `cs1 == nil || cs2 == nil`, then newSession on the two keys.
abbrev pub split_initiator : List ℕ → Option (List ℕ × List ℕ) → Option (List ℕ × Session)
split_initiator bytes none = none
split_initiator bytes (some (k1, k2)) = some (bytes, new_session k1 k2)

abbrev pub split_responder : List ℕ → Option (List ℕ × List ℕ) → Option (List ℕ × Session)
split_responder bytes none = none
split_responder bytes (some (k1, k2)) = some (bytes, new_session k2 k1)

-- An error is none.
module _ (noise : Noise) where
  open noise use {HandshakeState, initiate, respond, read_message, write_message, peer_static}

  unfoldable pub new_initiator : ℕ → ℕ → Option HandshakeState
  new_initiator local remote_static = initiate local remote_static

  unfoldable pub new_responder : ℕ → Option HandshakeState
  new_responder local = respond local

  unfoldable pub write_init : HandshakeState → List ℕ → Option (List ℕ × HandshakeState)
  write_init hs payload = elim (write_message hs payload) [
    | none ↦ none
    | some (msg, keys, hs') ↦ some (msg, hs')
  ]

  unfoldable pub read_response : HandshakeState → List ℕ → Option (List ℕ × Session)
  read_response hs msg = elim (read_message hs msg) [
    | none ↦ none
    | some (payload, keys, hs') ↦ split_initiator payload keys
  ]

  unfoldable pub read_init : HandshakeState → List ℕ → Option (ℕ × HandshakeState)
  read_init hs msg = elim (read_message hs msg) [
    | none ↦ none
    | some (payload, keys, hs') ↦ some (peer_static hs', hs')
  ]

  unfoldable pub write_response : HandshakeState → List ℕ → Option (List ℕ × Session)
  write_response hs payload = elim (write_message hs payload) [
    | none ↦ none
    | some (msg, keys, hs') ↦ split_responder msg keys
  ]
