-- ===== src/Crypto/Session.antt =====
-- core/crypto/session.go: per-path nonces over two directional keys. The cipher is a parameter,
-- chacha20poly1305's New, Seal and Open; `usable` says whether New accepts a key.
pub mod Nonces
pub mod Replays
pub mod Delivery
pub mod Tests
use Prim.Native.Nat.{bit_or}
use bondify.Common.{
  ℕ, zero, suc, ◌+◌, ◌*◌, ◌/◌, ◌%◌, ◌^◌, ◌≡◌, Bool, true, false, not, Option, none, some, List, [],
  ◌∷◌, ◌++◌, ◌==◌, if◌then◌else◌, Option-cases,
}
use bondify.Common.Assoc.{lookup, insert}
use bondify.Common.Bytes.{byte}
use bondify.Common.Result.{Result, ok, err}
use bondify.Crypto.Replay.{
  ReplayWindow, replay_window_size, new_replay_window, check_only, mark_seen,
}

pub record Aead : Type 0 where
  pub usable : List ℕ → Bool
  pub seal : List ℕ → List ℕ → List ℕ → List ℕ → List ℕ
  pub unseal : List ℕ → List ℕ → List ℕ → List ℕ → Option (List ℕ)

pub data CryptoError : Type 0 where
  auth_failed replay bad_key : CryptoError

-- The maps from path to send counter and to receive window.
pub record Session : Type 0 where
  pub send_key : List ℕ
  pub recv_key : List ℕ
  pub send_ctrs : List (ℕ × ℕ)
  pub recv_wins : List (ℕ × ReplayWindow)

unfoldable pub new_session : List ℕ → List ℕ → Session
new_session send recv = record { send_key = send; recv_key = recv; send_ctrs = []; recv_wins = [] }

unfoldable pub build_nonce : ℕ → ℕ → List ℕ
build_nonce path c =
    path
    ∷ 0
    ∷ 0
    ∷ 0
    ∷ (c / 2 ^ 56 % 256)
    ∷ (c / 2 ^ 48 % 256)
    ∷ (c / 2 ^ 40 % 256)
    ∷ (c / 2 ^ 32 % 256)
    ∷ (c / 2 ^ 24 % 256)
    ∷ (c / 2 ^ 16 % 256)
    ∷ (c / 2 ^ 8 % 256)
    ∷ (c % 256)
    ∷ []

-- The Go expression associates to the left.
unfoldable pub nonce_counter : List ℕ → ℕ
nonce_counter n =
    let high =
      bit_or (bit_or (bit_or (byte n 4 * 2 ^ 56) (byte n 5 * 2 ^ 48)) (byte n 6 * 2 ^ 40))
        (byte n 7 * 2 ^ 32) in
    bit_or
      (bit_or (bit_or (bit_or high (byte n 8 * 2 ^ 24)) (byte n 9 * 2 ^ 16)) (byte n 10 * 2 ^ 8))
      (byte n 11)

abbrev pub counter_of : Session → ℕ → ℕ
counter_of s path = elim (lookup path s.send_ctrs) [ none ↦ 0 | some c ↦ c ]

-- The counter to use, and the session with the next one stored.
unfoldable pub next_send_counter : Session → ℕ → ℕ × Session
next_send_counter s path =
    let c = counter_of s path in
    (c, record s { send_ctrs = insert path ((c + 1) % 2 ^ 64) s.send_ctrs })

-- The window of a path, created empty on first use.
unfoldable pub recv_window : Session → ℕ → ReplayWindow × Session
recv_window s path = elim (lookup path s.recv_wins) [
  | some w ↦ (w, s)
  | none ↦
      let w = new_replay_window replay_window_size in
      (w, record s { recv_wins = insert path w s.recv_wins })
]

module _ (aead : Aead) where
  -- The ciphertext and the nonce, and the session after the call.
  unfoldable pub seal :
      Session → ℕ → List ℕ → List ℕ → Result CryptoError (List ℕ × List ℕ) × Session
  seal s path plaintext ad =
      if not (aead.usable s.send_key)
      then (err bad_key, s)
      else let (c, s') = next_send_counter s path in
        let nonce = build_nonce path c in (ok (aead.seal s.send_key nonce plaintext ad, nonce), s')

  -- Open behind the nonce and replay tests, on the path's window.
  unfoldable pub open_checked :
      Session → ℕ → ReplayWindow → List ℕ → List ℕ → List ℕ → Result CryptoError (List ℕ) × Session
  open_checked s path w ciphertext ad nonce =
      if not (check_only w (nonce_counter nonce))
      then (err replay, s)
      else if not (aead.usable s.recv_key)
      then (err bad_key, s)
      else elim (aead.unseal s.recv_key nonce ciphertext ad) [
        | none ↦ (err auth_failed, s)
        | some plaintext ↦ (
          ok plaintext,
          record s { recv_wins = insert path (mark_seen w (nonce_counter nonce)) s.recv_wins },
        )
      ]

  unfoldable pub unseal :
      Session → ℕ → List ℕ → List ℕ → List ℕ → Result CryptoError (List ℕ) × Session
  unseal s path ciphertext ad nonce =
      if not (byte nonce 0 == path)
      then (err auth_failed, s)
      else let (w, s') = recv_window s path in open_checked s' path w ciphertext ad nonce

-- An arriving packet, as Open takes it.
pub record Arrival : Type 0 where
  pub path : ℕ
  pub ciphertext : List ℕ
  pub ad : List ℕ
  pub nonce : List ℕ

module _ (aead : Aead) where
  abbrev pub receive : Session → Arrival → Result CryptoError (List ℕ) × Session
  receive s a = unseal aead s a.path a.ciphertext a.ad a.nonce

  -- The session after a run of arrivals, accepted or not.
  unfoldable pub receive_all : Session → List Arrival → Session
  receive_all s [] = s
  receive_all s (a ∷ as') = receive_all (receive s a).1 as'

  abbrev pub nonce_list : Result CryptoError (List ℕ × List ℕ) → List (List ℕ)
  nonce_list (ok (ciphertext, nonce)) = nonce ∷ []
  nonce_list (err e) = []

  -- The nonces that a run of Seal calls hands out, for packets given by path, plaintext and ad.
  unfoldable pub sealed_nonces : Session → List (ℕ × List ℕ × List ℕ) → List (List ℕ)
  sealed_nonces s [] = []
  sealed_nonces s ((path, plaintext, ad) ∷ ps) =
      let (sealed, s') = seal aead s path plaintext ad in nonce_list sealed ++ sealed_nonces s' ps
