-- ===== src/Packets/Tamper.antt =====
-- The outer prefix's type, version and session index are authenticated, though sent in the clear.
use bondify.Common.{ℕ, ◌^◌, ◌<◌, ◌≡◌, refl, sym, ap, ◌∙◌, some, List, arith, drop, ◌⊎◌, inl, inr}
use bondify.Common.Bytes.{of_be, of_be-be, byte}
use bondify.Common.Result.{Result, ok, err, ◌>>=◌}
use bondify.Crypto.Session.{Aead, Session, Arrival, CryptoError}
use bondify.Crypto.Session.Replays.{Opened, refused, accepted, receive-Opened}
use bondify.Proto.{OuterHeader, OuterFits, InnerDataHeader, version}
use bondify.Packets.{of_crypto, associated_data, parse_inner, open_control, open_packet}
use bondify.Packets.RoundTrip.{associated_data-bytes}

same_fields :
    (t v i t' v' i' : ℕ)
    → i < 2 ^ 32
    → i' < 2 ^ 32
    → associated_data t v i ≡ associated_data t' v' i'
    → (t ≡ t') × (v ≡ v') × (i ≡ i')
same_fields t v i t' v' i' h h' e =
    let f = sym (associated_data-bytes t v i) ∙ e ∙ associated_data-bytes t' v' i' in
    (
      ap (λ (l : List ℕ). byte l 0) f,
      ap (λ (l : List ℕ). byte l 1) f,
      sym (of_be-be 4 i h) ∙ ap (λ (l : List ℕ). of_be (drop 4 l)) f ∙ of_be-be 4 i' h',
    )

module _ (aead : Aead) where
  -- What the cipher authenticates: it opens a ciphertext of its own under no other data.
  abbrev pub Authentic : Type 0
  Authentic = (k n m t d d' x : List ℕ) → aead.unseal k n (aead.seal k m t d) d' ≡ some x → d ≡ d'

  -- The ciphertext opens under the header `oh`, as a control packet or as a DATA or FEC packet.
  abbrev pub Opens : Session → OuterHeader → ℕ → List ℕ → Type 0
  Opens r oh path c =
      ((text : List ℕ) × ((open_control aead r oh path c).0 ≡ ok text))
      ⊎ ((x : InnerDataHeader × List ℕ) × ((open_packet aead r oh path c).0 ≡ ok x))

  unsealed :
      (r : Session) (oh : OuterHeader) (path : ℕ) (c : List ℕ)
      → Opens r oh path c
      → (text : List ℕ) × ((open_control aead r oh path c).0 ≡ ok text)
  unfolding open_packet
  unsealed r oh path c (inl o) = o
  unsealed r oh path c (inr (x, o)) = succeeded (open_control aead r oh path c).0 x o
    where
      succeeded :
          (m : Result CryptoError (List ℕ)) (x : InnerDataHeader × List ℕ)
          → (of_crypto m >>= parse_inner) ≡ ok x
          → (text : List ℕ) × (m ≡ ok text)
      succeeded (ok text) x h = (text, refl)
      succeeded (err e) x h = absurd (ground arith)

  authentic :
      (r : Session) (a : Arrival) {res : Result CryptoError (List ℕ) × Session} (text : List ℕ)
      → Opened aead r a res
      → res.0 ≡ ok text
      → (t : List ℕ) × (aead.unseal r.recv_key a.nonce a.ciphertext a.ad ≡ some t)
  authentic r a text (refused e t same key) h = absurd (ground arith)
  authentic r a text (accepted t s route fresh auth marks key) h = (t, auth)

  -- What was sealed for one type and session index opens under no header whose type, version or
  -- session index differs, on any path and under any nonce, if the cipher authenticates the
  -- associated data and the fields are in range.
  pub header_authenticated :
      (r : Session) (oh : OuterHeader) (path typ session_index : ℕ) (nonce text : List ℕ)
      → Authentic
      → OuterFits oh
      → session_index < 2 ^ 32
      → Opens r oh path
          (aead.seal r.recv_key nonce text (associated_data typ version session_index))
      → (oh.typ ≡ typ) × (oh.version ≡ version) × (oh.session_index ≡ session_index)
  unfolding open_control
  header_authenticated r oh path typ session_index nonce text law fits below opens =
      let c = aead.seal r.recv_key nonce text (associated_data typ version session_index) in
      let ad = associated_data oh.typ oh.version oh.session_index in
      let a : Arrival = record { path = path; ciphertext = c; ad = ad; nonce = oh.nonce } in
      let (y, o) = unsealed r oh path c opens in
      let (t, u) = authentic r a y (receive-Opened aead r a) o in
      let e =
        law r.recv_key oh.nonce nonce text (associated_data typ version session_index) ad t u in
      same_fields oh.typ oh.version oh.session_index typ version session_index fits.index_fits below
        (sym e)
