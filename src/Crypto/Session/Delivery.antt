-- ===== src/Crypto/Session/Delivery.antt =====
-- What Seal and Open promise together: at most one acceptance of a nonce, no effect of forgeries,
-- and delivery of what the peer sealed.
use bondify.Common.{ℕ, ◌^◌, ◌<◌, ◌≡◌, refl, ◌∙◌, true, none, some, List, [], ◌∷◌, arith, All}
use bondify.Common.Assoc.{contains, lookup}
use bondify.Common.Bytes.{byte}
use bondify.Common.Result.{Result, ok, err}
use bondify.Crypto.Replay.{check_only, marked}
use bondify.Crypto.Replay.Refinement.{acceptable-contains, check_only-marked}
use bondify.Crypto.Session.{
  Aead, Session, Arrival, CryptoError, new_session, build_nonce, nonce_counter, counter_of,
  next_send_counter, open_checked, seal, unseal, receive, receive_all,
}
use bondify.Crypto.Session.Nonces.{build_nonce_lem}
use bondify.Crypto.Session.Replays.{
  window_of, Opened, refused, accepted, receive-Opened, Backed, after, receive_all-Grown,
  recv_window-found, recv_window-key,
}

module _ (aead : Aead) where
  new-Backed : (send recv : List ℕ) → Backed aead (new_session send recv) (λ p. [])
  unfolding new_session lookup marked
  new-Backed send recv p = refl

  -- After an acceptance the counter is in the path's history.
  accepted-Grown :
      (s : Session) (a : Arrival) (h : ℕ → List ℕ) {text : List ℕ}
      {r : Result CryptoError (List ℕ) × Session}
      → Opened aead s a r
      → r.0 ≡ ok text
      → Backed aead s h
      → (g : ℕ → List ℕ) × Backed aead r.1 g
        × (contains (g (byte a.nonce 0)) (nonce_counter a.nonce) ≡ true)
  unfolding after marked contains
  accepted-Grown s a h (refused e t same key) ok_r b = cc
  accepted-Grown s a h (accepted text t route fresh authentic marks key) ok_r b = (
    after aead h a.path (nonce_counter a.nonce),
    (λ q. ground (arith, marks q, b q, b a.path)),
    ground (arith, route),
  )

  seen-refused :
      (s : Session) (a : Arrival) (h : ℕ → List ℕ) {r : Result CryptoError (List ℕ) × Session}
      → Opened aead s a r
      → Backed aead s h
      → contains (h (byte a.nonce 0)) (nonce_counter a.nonce) ≡ true
      → (e : CryptoError) × (r.0 ≡ err e)
  seen-refused s a h (refused e t same key) b seen = (e, refl)
  seen-refused s a h (accepted text t route fresh authentic marks key) b seen = absurd (
      ground (
        arith,
        route,
        b a.path,
        check_only-marked (h a.path) (nonce_counter a.nonce),
        acceptable-contains (h a.path) (nonce_counter a.nonce),
      ))

  -- Once Open has accepted a packet, it refuses every later packet with the same nonce, whatever
  -- arrived before and in between, and whatever path the later packet claims.
  pub nonce_accepted_once :
      (send recv : List ℕ) (before : List Arrival) (a : Arrival) (between : List Arrival)
      (b : Arrival) (text : List ℕ)
      → let s = receive_all aead (new_session send recv) before in
        (receive aead s a).0 ≡ ok text
        → b.nonce ≡ a.nonce
        → (e : CryptoError) × ((receive aead (receive_all aead (receive aead s a).1 between) b).0
            ≡ err e)
  nonce_accepted_once send recv before a between b text got same =
      let s = receive_all aead (new_session send recv) before in
      let (h, bh, _) =
        receive_all-Grown aead (new_session send recv) before (λ p. []) (new-Backed send recv) in
      let (g, bg, seen) = accepted-Grown s a h (receive-Opened aead s a) got bh in
      let (k, bk, more) = receive_all-Grown aead (receive aead s a).1 between g bg in
      let u = receive_all aead (receive aead s a).1 between in
      seen-refused u b k (receive-Opened aead u b) bk
        (rw same (more (byte a.nonce 0) (nonce_counter a.nonce) seen))

  forged-kept :
      (s : Session) (a : Arrival) {r : Result CryptoError (List ℕ) × Session}
      → Opened aead s a r
      → aead.unseal s.recv_key a.nonce a.ciphertext a.ad ≡ none
      → ((q : ℕ) → window_of r.1 q ≡ window_of s q) × (r.1.recv_key ≡ s.recv_key)
  forged-kept s a (refused e t same key) h = (same, key)
  forged-kept s a (accepted text t route fresh authentic marks key) h = absurd (ground arith)

  -- Packets that fail authentication leave every receive window as it was, however many arrive, so
  -- they use up no counter of the real sender.
  pub forgeries_burn_nothing :
      (s : Session) (forged : List Arrival)
      → All (λ a. aead.unseal s.recv_key a.nonce a.ciphertext a.ad ≡ none) forged
      → (q : ℕ) → window_of (receive_all aead s forged) q ≡ window_of s q
  unfolding receive_all
  forgeries_burn_nothing s [] h q = refl
  forgeries_burn_nothing s (a ∷ as') h q =
      let (same, key) = forged-kept s a (receive-Opened aead s a) h.0 in
      forgeries_burn_nothing (receive aead s a).1 as' (rw key h.1) q ∙ same q

  -- What one end seals the other end opens to the same plaintext, if the cipher inverts, the ends
  -- share a usable key, the counter has not overflowed and the receiver's window accepts it.
  pub seal-unseal :
      (s r : Session) (path : ℕ) (text ad : List ℕ)
      → ((k n t d : List ℕ) → aead.unseal k n (aead.seal k n t d) d ≡ some t)
      → aead.usable s.send_key ≡ true
      → r.recv_key ≡ s.send_key
      → counter_of s path < 2 ^ 64
      → check_only (window_of r path) (counter_of s path) ≡ true
      → (c n : List ℕ) × ((seal aead s path text ad).0 ≡ ok (c, n))
        × ((unseal aead r path c ad n).0 ≡ ok text)
  unfolding seal unseal open_checked next_send_counter
  seal-unseal s r path text ad inverts usable shared below fresh =
      let n = build_nonce path (counter_of s path) in
      (
        aead.seal s.send_key n text ad,
        n,
        ground arith,
        ground (
          arith,
          build_nonce_lem path (counter_of s path) below,
          recv_window-found r path,
          recv_window-key r path,
          inverts s.send_key n text ad,
        ),
      )
