-- ===== src/Crypto/Session/Replays.antt =====
-- What Open does to the receive windows, and what follows over a run of arrivals.
use bondify.Common.{
  ℕ, ◌≡◌, refl, sym, ◌∙◌, true, none, some, List, [], ◌∷◌, arith, ◌==◌, if◌then◌else◌, inl, inr,
  Option-cases, not, if_intro, subst,
}
use bondify.Common.Assoc.{contains, lookup, lookup-insert}
use bondify.Common.Bytes.{byte}
use bondify.Common.Result.{Result, ok, err}
use bondify.Crypto.Replay.{ReplayWindow, new_replay_window, check_only, mark_seen, marked}
use bondify.Crypto.Session.{
  Aead, Session, Arrival, CryptoError, auth_failed, replay, bad_key, nonce_counter, recv_window,
  open_checked, unseal, receive, receive_all,
}

abbrev pub window_of : Session → ℕ → ReplayWindow
window_of s p = elim (lookup p s.recv_wins) [ none ↦ new_replay_window 8192 | some w ↦ w ]

-- The windows of a session after Open accepted counter `c` on path `p`.
abbrev pub MarksOnly : Session → Session → ℕ → ℕ → Type 0
MarksOnly s t p c =
    (q : ℕ) → window_of t q ≡ (if p == q then mark_seen (window_of s p) c else window_of s q)

module _ (s : Session) (p : ℕ) where
  pub recv_window-found : (recv_window s p).0 ≡ window_of s p
  unfolding recv_window
  recv_window-found = ground arith

  pub recv_window-kept : (q : ℕ) → window_of (recv_window s p).1 q ≡ window_of s q
  unfolding recv_window
  recv_window-kept q = ground (arith, lookup-insert p q (new_replay_window 8192) s.recv_wins)

  pub recv_window-key : (recv_window s p).1.recv_key ≡ s.recv_key
  unfolding recv_window
  recv_window-key = ground arith

-- The sending side of a session: its key and its counters.
abbrev pub SameSender : Session → Session → Type 0
SameSender s t = (t.send_key ≡ s.send_key) × (t.send_ctrs ≡ s.send_ctrs)

recv_window-SameSender : (s : Session) (p : ℕ) → SameSender s (recv_window s p).1
unfolding recv_window
recv_window-SameSender s p = (ground arith, ground arith)

module _ (aead : Aead) where
  open_checked-SameSender :
      (s t : Session) (a : Arrival) (w : ReplayWindow)
      → SameSender s t
      → SameSender s (open_checked aead t a.path w a.ciphertext a.ad a.nonce).1
  unfolding open_checked
  open_checked-SameSender s t a w h =
      let P = λ (r : Result CryptoError (List ℕ) × Session). SameSender s r.1 in
      if_intro P (not (check_only w (nonce_counter a.nonce))) (λ e. h)
        λ e.
          if_intro P (not (aead.usable t.recv_key)) (λ f. h)
            λ f. elim (Option-cases (aead.unseal t.recv_key a.nonce a.ciphertext a.ad)) [
              | inl g ↦ rw g h
              | inr (text, g) ↦ rw g h
            ]

  -- Open leaves the sending side alone, whatever arrives.
  pub receive-SameSender : (s : Session) (a : Arrival) → SameSender s (receive aead s a).1
  unfolding unseal
  receive-SameSender s a =
      if_intro (λ (r : Result CryptoError (List ℕ) × Session). SameSender s r.1)
        (not (byte a.nonce 0 == a.path)) (λ e. (refl, refl))
        λ e.
          open_checked-SameSender s (recv_window s a.path).1 a (recv_window s a.path).0
            (recv_window-SameSender s a.path)

  -- The outcomes of Open: an error that leaves every window as it was, or the plaintext of an
  -- authentic packet with an acceptable counter, which is then marked on that path alone.
  pub data Opened (s : Session) (a : Arrival) : Result CryptoError (List ℕ) × Session → Type 0 where
    refused :
        (e : CryptoError) (t : Session)
        → ((q : ℕ) → window_of t q ≡ window_of s q)
        → t.recv_key ≡ s.recv_key
        → Opened s a (err e, t)
    accepted :
        (text : List ℕ) (t : Session)
        → byte a.nonce 0 ≡ a.path
        → check_only (window_of s a.path) (nonce_counter a.nonce) ≡ true
        → aead.unseal s.recv_key a.nonce a.ciphertext a.ad ≡ some text
        → MarksOnly s t a.path (nonce_counter a.nonce)
        → t.recv_key ≡ s.recv_key
        → Opened s a (ok text, t)

  open_checked-Opened :
      (s t : Session) (a : Arrival)
      → byte a.nonce 0 ≡ a.path
      → ((q : ℕ) → window_of t q ≡ window_of s q)
      → t.recv_key ≡ s.recv_key
      → Opened s a (open_checked aead t a.path (window_of s a.path) a.ciphertext a.ad a.nonce)
  unfolding open_checked
  open_checked-Opened s t a route same key =
      let c = nonce_counter a.nonce in
      let w = window_of s a.path in
      let P = Opened s a in
      if_intro P (not (check_only w c)) (λ e. refused replay t same key)
        λ e.
          if_intro P (not (aead.usable t.recv_key)) (λ f. refused bad_key t same key)
            λ f. elim (Option-cases (aead.unseal t.recv_key a.nonce a.ciphertext a.ad)) [
              | inl g ↦ rw g (refused auth_failed t same key)
              | inr (text, g) ↦ rw g (
                  accepted text _ route (ground arith) (rw (← key) g)
                    (λ q.
                      ground (arith, lookup-insert a.path q (mark_seen w c) t.recv_wins, same q))
                    key)
            ]

  pub receive-Opened : (s : Session) (a : Arrival) → Opened s a (receive aead s a)
  unfolding unseal
  receive-Opened s a =
      if_intro (Opened s a) (not (byte a.nonce 0 == a.path))
        (λ e. refused auth_failed s (λ q. refl) refl)
        λ e.
          subst
            (λ w.
              Opened s a
                (open_checked aead (recv_window s a.path).1 a.path w a.ciphertext a.ad a.nonce))
            (sym (recv_window-found s a.path))
            (open_checked-Opened s (recv_window s a.path).1 a (ground arith)
              (recv_window-kept s a.path) (recv_window-key s a.path))

  -- Every window is the one that a history of accepted counters leads to.
  abbrev pub Backed : Session → (ℕ → List ℕ) → Type 0
  Backed s h = (p : ℕ) → window_of s p ≡ marked (h p)

  -- A session whose windows come from histories that hold at least those of `h`.
  abbrev pub Grown : (ℕ → List ℕ) → Session → Type 0
  Grown h s =
      (g : ℕ → List ℕ) × Backed s g
      × ((p c : ℕ) → contains (h p) c ≡ true → contains (g p) c ≡ true)

  unfoldable pub after : (h : ℕ → List ℕ) (p c : ℕ) → ℕ → List ℕ
  after h p c q = if p == q then c ∷ h q else h q

  Opened-Grown :
      (s : Session) (a : Arrival) (h : ℕ → List ℕ) {r : Result CryptoError (List ℕ) × Session}
      → Opened s a r
      → Backed s h
      → Grown h r.1
  unfolding after marked contains
  Opened-Grown s a h (refused e t same key) b = (h, (λ p. same p ∙ b p), λ p c m. m)
  Opened-Grown s a h (accepted text t route fresh authentic marks key) b = (
    after h a.path (nonce_counter a.nonce),
    (λ q. ground (arith, marks q, b q, b a.path)),
    λ q c m. ground arith,
  )

  pub receive_all-Grown :
      (s : Session) (as' : List Arrival) (h : ℕ → List ℕ)
      → Backed s h
      → Grown h (receive_all aead s as')
  unfolding receive_all
  receive_all-Grown s [] h b = (h, b, λ p c m. m)
  receive_all-Grown s (a ∷ as') h b =
      let (g, bg, more) = Opened-Grown s a h (receive-Opened s a) b in
      let (k, bk, rest) = receive_all-Grown (receive aead s a).1 as' g bg in
      (k, bk, λ p c m. rest p c (more p c m))
