-- ===== src/Crypto.antt =====
-- core/crypto: the replay window (replay.go), the transport session (session.go) and the handshake
-- (handshake.go) over the Noise library, a parameter. base64 of keys (encoding.go) has no model.
pub mod Replay
pub mod Session
pub mod Handshake
