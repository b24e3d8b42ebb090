-- ===== src/Crypto/Session/Tests.antt =====
-- Concrete sessions: core/crypto/session.go, with a toy cipher that appends a tag.
use bondify.Common.{
  ℕ, ◌<◌, ◌^◌, ◌≡◌, refl, true, Option, none, some, ◌==◌, if◌then◌else◌, List, [], ◌∷◌, arith,
  Distinct,
}
use bondify.Common.Result.{ok, err}
use bondify.Common.Assoc.{lookup, insert}
use bondify.Crypto.Replay.{new_replay_window, check_only}
use bondify.Crypto.Session.{
  Aead, Arrival, CryptoError, new_session, build_nonce, nonce_counter, sealed_nonces, receive,
  receive_all, seal, unseal, counter_of, open_checked, recv_window,
}
use bondify.Crypto.Session.Replays.{window_of}
use bondify.Crypto.Session.Nonces.{seal-Distinct_nonces}
use bondify.Crypto.Session.Delivery.{nonce_accepted_once, forgeries_burn_nothing, seal-unseal}

-- The tag 7 stands before the plaintext.
abbrev toy_unseal : List ℕ → List ℕ → List ℕ → List ℕ → Option (List ℕ)
toy_unseal k n [] d = none
toy_unseal k n (t ∷ c) d = if t == 7 then some c else none

abbrev toy : Aead
toy = record { usable = λ k. true; seal = λ k n t d. 7 ∷ t; unseal = toy_unseal }

abbrev key : List ℕ
key = 1 ∷ 2 ∷ []

abbrev genuine : Arrival
genuine = record { path = 3; ciphertext = 7 ∷ 9 ∷ []; ad = []; nonce = build_nonce 3 5 }

abbrev forged : Arrival
forged = record { path = 3; ciphertext = []; ad = []; nonce = build_nonce 3 900 }

abbrev packets : List (ℕ × List ℕ × List ℕ)
packets = (0, 5 ∷ [], []) ∷ (1, 6 ∷ [], []) ∷ (0, 5 ∷ [], []) ∷ []

seal-Distinct_nonces_example : Distinct (sealed_nonces toy (new_session key key) packets)
seal-Distinct_nonces_example = seal-Distinct_nonces toy key key packets (omega arith)

accepted :
    (receive toy (receive_all toy (new_session key key) (forged ∷ [])) genuine).0 ≡ ok (9 ∷ [])
unfolding receive_all unseal open_checked recv_window new_session new_replay_window check_only
    build_nonce nonce_counter lookup insert
accepted = refl

nonce_accepted_once_example :
    (e : CryptoError) × ((receive toy
        (receive_all toy
          (receive toy (receive_all toy (new_session key key) (forged ∷ [])) genuine).1
          (forged ∷ []))
        genuine).0
      ≡ err e)
nonce_accepted_once_example =
    nonce_accepted_once toy key key (forged ∷ []) genuine (forged ∷ []) genuine (9 ∷ []) accepted
      refl

forgeries_burn_nothing_example :
    window_of (receive_all toy (new_session key key) (forged ∷ forged ∷ [])) 3
    ≡ window_of (new_session key key) 3
forgeries_burn_nothing_example =
    forgeries_burn_nothing toy (new_session key key) (forged ∷ forged ∷ []) (refl, (refl, tt)) 3

low : counter_of (new_session key key) 3 < 2 ^ 64
unfolding new_session lookup
low = omega arith

fresh : check_only (window_of (new_session key key) 3) (counter_of (new_session key key) 3) ≡ true
unfolding new_session lookup check_only new_replay_window
fresh = refl

seal-unseal_example :
    (c n : List ℕ) × ((seal toy (new_session key key) 3 (9 ∷ []) []).0 ≡ ok (c, n))
    × ((unseal toy (new_session key key) 3 c [] n).0 ≡ ok (9 ∷ []))
unfolding new_session
seal-unseal_example =
    seal-unseal toy (new_session key key) (new_session key key) 3 (9 ∷ []) [] (λ k n t d. refl) refl
      refl low fresh
