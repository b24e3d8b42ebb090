-- ===== src/Packets/RoundTrip.antt =====
-- What one end seals with sealPacket the other end parses, opens and parses again.
use mathlib.Core.List.{append-nil}
use bondify.Common.{
  ℕ, zero, suc, ◌+◌, ◌^◌, ◌≤◌, ◌<◌, ◌≡◌, refl, sym, ap, ◌∙◌, subst, true, some, List, [], ◌∷◌, ◌++◌,
  arith, length, drop, replicate, length-replicate, length-drop,
}
use bondify.Common.Bytes.{write, be, overwrite, overwrite-append, drop-append, length-be}
use bondify.Common.Result.{Result, ok}
use bondify.Crypto.Replay.{check_only}
use bondify.Crypto.Session.{
  Aead, Session, CryptoError, build_nonce, counter_of, next_send_counter, seal, unseal,
}
use bondify.Crypto.Session.Nonces.{build_nonce_lem}
use bondify.Crypto.Session.Replays.{window_of}
use bondify.Crypto.Session.Delivery.{seal-unseal}
use bondify.Proto.{OuterHeader, InnerDataHeader, InnerFits, unmarshal_outer, version}
use bondify.Proto.RoundTrip.{
  outer_bytes, inner_bytes, marshal_outer-bytes, marshal_inner-bytes, unmarshal_outer-bytes,
  unmarshal_inner-bytes,
}
use bondify.Packets.{
  associated_data, with_outer, inner_plaintext, parse_inner, seal_control, seal_packet,
  open_control, open_packet,
}

write-append : (xs tail bs : List ℕ) → write (xs ++ tail) (length xs) bs ≡ xs ++ overwrite bs tail
unfolding write
write-append [] tail bs = refl
write-append (x ∷ xs) tail bs = ap (λ (l : List ℕ). x ∷ l) (write-append xs tail bs)

drop_all : (n : ℕ) (xs : List ℕ) → length xs ≤ n → drop n xs ≡ []
drop_all zero [] h = refl
drop_all zero (x ∷ xs) h = absurd (omega arith)
drop_all (suc n) [] h = refl
drop_all (suc n) (x ∷ xs) h = drop_all n xs (omega arith)

-- A buffer with room for the header and the payload, filled by both.
filled :
    (header payload : List ℕ)
    → length header ≡ 20
    → write (header ++ drop 20 (replicate (20 + length payload) 0)) 20 payload ≡ header ++ payload
filled header payload h =
    let tail = drop 20 (replicate (20 + length payload) 0) in
    let size : length tail ≡ length payload =
      length-drop 20 (replicate (20 + length payload) 0)
      ∙ omega (arith, length-replicate {0} {A = ℕ} (20 + length payload) 0) in
    subst (λ k. write (header ++ tail) k payload ≡ header ++ payload) h
      (write-append header tail payload
        ∙ ap (λ (l : List ℕ). header ++ l)
            (overwrite-append payload tail (omega (arith, size))
              ∙ ap (λ (l : List ℕ). payload ++ l)
                  (drop_all (length payload) tail (omega (arith, size)))
              ∙ append-nil payload))

abbrev pub header_of : ℕ → ℕ → List ℕ → OuterHeader
header_of typ session_index nonce = record {
  typ = typ;
  version = version;
  session_index = session_index;
  nonce = nonce;
}

length-outer_bytes : (oh : OuterHeader) → length oh.nonce ≡ 12 → length (outer_bytes oh) ≡ 20
unfolding be
length-outer_bytes oh n = omega (arith, n)

-- The prefix, then the ciphertext.
with_outer-bytes :
    (typ session_index : ℕ) (ciphertext nonce : List ℕ)
    → length nonce ≡ 12
    → with_outer typ session_index (ciphertext, nonce)
      ≡ ok (outer_bytes (header_of typ session_index nonce) ++ ciphertext)
unfolding with_outer be
with_outer-bytes typ session_index ciphertext nonce n =
    let h = header_of typ session_index nonce in
    let dst = replicate {A = ℕ} (20 + length ciphertext) 0 in
    let size : 20 ≤ length dst =
      omega (arith, length-replicate {0} {A = ℕ} (20 + length ciphertext) 0) in
    rw (marshal_outer-bytes dst h size n)
      (ap ok (filled (outer_bytes h) ciphertext (omega (arith, n, length-be 4 session_index))))

inner_plaintext-bytes :
    (inner : InnerDataHeader) (payload : List ℕ)
    → inner_plaintext inner payload ≡ ok (inner_bytes inner ++ payload)
unfolding inner_plaintext be
inner_plaintext-bytes inner payload =
    let dst = replicate {A = ℕ} (20 + length payload) 0 in
    let size : 20 ≤ length dst =
      omega (arith, length-replicate {0} {A = ℕ} (20 + length payload) 0) in
    rw (marshal_inner-bytes dst inner size) (ap ok (filled (inner_bytes inner) payload refl))

pub parse_inner-bytes :
    (inner : InnerDataHeader) (payload : List ℕ)
    → InnerFits inner
    → parse_inner (inner_bytes inner ++ payload) ≡ ok (inner, payload)
unfolding parse_inner be
parse_inner-bytes inner payload f = rw (unmarshal_inner-bytes inner payload f) refl

-- The associated data is the first eight bytes of the prefix.
pub associated_data-bytes :
    (typ vers session_index : ℕ)
    → associated_data typ vers session_index ≡ typ ∷ vers ∷ 0 ∷ 0 ∷ be 4 session_index
unfolding associated_data write be
associated_data-bytes typ vers session_index = refl

module _ (aead : Aead) where
  nonce_of : Session → ℕ → List ℕ
  nonce_of s path = build_nonce path (counter_of s path)

  nonce-length :
      (s : Session) (path : ℕ) → counter_of s path < 2 ^ 64 → length (nonce_of s path) ≡ 12
  unfolding nonce_of
  nonce-length s path below = (build_nonce_lem path (counter_of s path) below).0

  seal_ok :
      (s : Session) (path : ℕ) (text ad : List ℕ)
      → aead.usable s.send_key ≡ true
      → (seal aead s path text ad).0
        ≡ ok (aead.seal s.send_key (nonce_of s path) text ad, nonce_of s path)
  unfolding seal next_send_counter nonce_of
  seal_ok s path text ad usable = rw usable refl

  abbrev ciphertext_of : Session → ℕ → ℕ → ℕ → List ℕ → List ℕ
  ciphertext_of s typ session_index path text =
      aead.seal s.send_key (nonce_of s path) text (associated_data typ version session_index)

  sealed_bytes :
      (s : Session) (typ session_index path : ℕ) (text : List ℕ)
      → aead.usable s.send_key ≡ true
      → counter_of s path < 2 ^ 64
      → (seal_control aead s typ session_index path text).0
        ≡ ok (
            outer_bytes (header_of typ session_index (nonce_of s path))
            ++ ciphertext_of s typ session_index path text)
  unfolding seal_control
  sealed_bytes s typ session_index path text usable below =
      rw (seal_ok s path text (associated_data typ version session_index) usable) (
        with_outer-bytes typ session_index (ciphertext_of s typ session_index path text)
          (nonce_of s path) (nonce-length s path below))

  opened :
      (s r : Session) (path : ℕ) (text ad : List ℕ)
      → ((k n t d : List ℕ) → aead.unseal k n (aead.seal k n t d) d ≡ some t)
      → aead.usable s.send_key ≡ true
      → r.recv_key ≡ s.send_key
      → counter_of s path < 2 ^ 64
      → check_only (window_of r path) (counter_of s path) ≡ true
      → (unseal aead r path (aead.seal s.send_key (nonce_of s path) text ad) ad (nonce_of s path)).0
        ≡ ok text
  opened s r path text ad inverts usable shared below fresh =
      let (c, n, e, o) = seal-unseal aead s r path text ad inverts usable shared below fresh in
      let (ec, en) = same_pair (sym e ∙ seal_ok s path text ad usable) in
      subst (λ k. (unseal aead r path k ad (nonce_of s path)).0 ≡ ok text) ec
        (subst (λ m. (unseal aead r path c ad m).0 ≡ ok text) en o)
    where
      same_pair :
          {a b c d : List ℕ}
          → ◌≡◌ {A = Result CryptoError (List ℕ × List ℕ)} (ok (a, b)) (ok (c, d))
          → (a ≡ c) × (b ≡ d)
      same_pair h = (cc, cc)

  -- A DATA or FEC packet that sealPacket builds is parsed by the receiver to the header that went in
  -- and opened by openPacket to the same inner header and payload, if the cipher inverts, the ends
  -- share a usable key, the counter has not overflowed, the receiver's window accepts it and the
  -- fields fit.
  pub packet_round_trip :
      (s r : Session) (typ session_index path : ℕ) (inner : InnerDataHeader) (payload : List ℕ)
      → ((k n t d : List ℕ) → aead.unseal k n (aead.seal k n t d) d ≡ some t)
      → aead.usable s.send_key ≡ true
      → r.recv_key ≡ s.send_key
      → counter_of s path < 2 ^ 64
      → check_only (window_of r path) (counter_of s path) ≡ true
      → InnerFits inner
      → typ < 256
      → session_index < 2 ^ 32
      → (pkt : List ℕ) × (oh : OuterHeader) × ((seal_packet aead s typ session_index path inner
            payload).0
          ≡ ok pkt)
        × (unmarshal_outer pkt ≡ ok (oh, 20))
        × (oh.typ ≡ typ)
        × (oh.session_index ≡ session_index)
        × ((open_packet aead r oh path (drop 20 pkt)).0 ≡ ok (inner, payload))
  unfolding seal_packet open_packet open_control
  packet_round_trip s r typ session_index path inner payload inverts usable shared below fresh f t
        i =
      let text = inner_bytes inner ++ payload in
      let oh = header_of typ session_index (nonce_of s path) in
      let c = ciphertext_of s typ session_index path text in
      let n : length (nonce_of s path) ≡ 12 = nonce-length s path below in
      let cut =
        subst (λ k. drop k (outer_bytes oh ++ c) ≡ c) (length-outer_bytes oh n)
          (drop-append (outer_bytes oh) c) in
      (
        outer_bytes oh ++ c,
        oh,
        rw (inner_plaintext-bytes inner payload)
            (sealed_bytes s typ session_index path text usable below),
        unmarshal_outer-bytes oh c
            (record { typ_fits = t; version_fits = omega arith; index_fits = i; nonce_fits = n }),
        refl,
        refl,
        rw
            (
              cut,
              opened s r path text (associated_data typ version session_index) inverts usable shared
                  below fresh,
            )
            (parse_inner-bytes inner payload f),
      )
