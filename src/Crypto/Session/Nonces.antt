-- ===== src/Crypto/Session/Nonces.antt =====
-- The nonce construction of session.go, and the nonces of a session's Seal calls.
use Prim.Native.Nat.{bit_or}
use bondify.Common.{
  ℕ, ◌+◌, ◌*◌, ◌/◌, ◌%◌, ◌^◌, ◌≤◌, ◌<◌, ◌≡◌, ◌≢◌, refl, ap, ◌∙◌, List, [], ◌∷◌, arith, length, All,
  All-map, Distinct, if◌then◌else◌, ◌⊎◌, ◌==◌, Bool-cases, inl, inr,
}
use bondify.Common.Assoc.{lookup, lookup-insert}
use bondify.Common.Bits.{bit_or-shifted, bit_or-scale}
use bondify.Common.Bytes.{byte}
use bondify.Common.Result.{ok, err}
use bondify.Crypto.Session.{
  Aead, Session, new_session, build_nonce, nonce_counter, counter_of, next_send_counter, seal,
  sealed_nonces, bad_key,
}

or_byte : (k a b : ℕ) → b < 256 → bit_or (a * 256 * 2 ^ k) (b * 2 ^ k) ≡ (a * 256 + b) * 2 ^ k
or_byte k a b h = bit_or-scale k (a * 256) b ∙ ap (λ t. t * 2 ^ k) (bit_or-shifted 8 a b h)

-- Or-ing in the byte at shift `k` completes the counter down to that shift.
or_next :
    (k high low : ℕ)
    → high ≡ low / 256
    → bit_or (high * 256 * 2 ^ k) (low % 256 * 2 ^ k) ≡ low * 2 ^ k
or_next k high low h = or_byte k high (low % 256) (omega arith) ∙ ap (λ t. t * 2 ^ k) (omega arith)

-- Reading the big-endian bytes of a counter back.
nonce_counter-build_nonce : (path c : ℕ) → c < 2 ^ 64 → nonce_counter (build_nonce path c) ≡ c
unfolding build_nonce nonce_counter
nonce_counter-build_nonce path c h =
    let top : c / 2 ^ 56 % 256 * 2 ^ 56 ≡ c / 2 ^ 56 * 256 * 2 ^ 48 = omega arith in
    let s48 : bit_or (c / 2 ^ 56 * 256 * 2 ^ 48) (c / 2 ^ 48 % 256 * 2 ^ 48)
        ≡ c / 2 ^ 48 * 256 * 2 ^ 40 =
      or_next 48 (c / 2 ^ 56) (c / 2 ^ 48) (omega arith) ∙ omega arith in
    let s40 : bit_or (c / 2 ^ 48 * 256 * 2 ^ 40) (c / 2 ^ 40 % 256 * 2 ^ 40)
        ≡ c / 2 ^ 40 * 256 * 2 ^ 32 =
      or_next 40 (c / 2 ^ 48) (c / 2 ^ 40) (omega arith) ∙ omega arith in
    let s32 : bit_or (c / 2 ^ 40 * 256 * 2 ^ 32) (c / 2 ^ 32 % 256 * 2 ^ 32)
        ≡ c / 2 ^ 32 * 256 * 2 ^ 24 =
      or_next 32 (c / 2 ^ 40) (c / 2 ^ 32) (omega arith) ∙ omega arith in
    let s24 : bit_or (c / 2 ^ 32 * 256 * 2 ^ 24) (c / 2 ^ 24 % 256 * 2 ^ 24)
        ≡ c / 2 ^ 24 * 256 * 2 ^ 16 =
      or_next 24 (c / 2 ^ 32) (c / 2 ^ 24) (omega arith) ∙ omega arith in
    let s16 : bit_or (c / 2 ^ 24 * 256 * 2 ^ 16) (c / 2 ^ 16 % 256 * 2 ^ 16)
        ≡ c / 2 ^ 16 * 256 * 2 ^ 8 =
      or_next 16 (c / 2 ^ 24) (c / 2 ^ 16) (omega arith) ∙ omega arith in
    let s8 : bit_or (c / 2 ^ 16 * 256 * 2 ^ 8) (c / 2 ^ 8 % 256 * 2 ^ 8) ≡ c / 2 ^ 8 * 2 ^ 8 =
      or_next 8 (c / 2 ^ 16) (c / 2 ^ 8) (omega arith) in
    rw (top, s48, s40, s32, s24, s16, s8)
      (bit_or-shifted 8 (c / 2 ^ 8) (c % 256) (omega arith) ∙ omega arith)

-- The nonce of a path and a counter below 2^64 is 12 bytes long, starts with the path and carries
-- the counter, so the two can be read back.
pub build_nonce_lem :
    (path c : ℕ)
    → c < 2 ^ 64
    → (length (build_nonce path c) ≡ 12)
      × (byte (build_nonce path c) 0 ≡ path)
      × (nonce_counter (build_nonce path c) ≡ c)
build_nonce_lem path c h =
    (unfold build_nonce in refl, unfold build_nonce in refl, nonce_counter-build_nonce path c h)

module _ (aead : Aead) where
  -- What Seal does: refuse an unusable key and change nothing, or use up one counter of the path.
  seal_cases :
      (s : Session) (p : ℕ) (text ad : List ℕ)
      → (seal aead s p text ad ≡ (err bad_key, s))
        ⊎ ((c : List ℕ) × (seal aead s p text ad
              ≡ (ok (c, build_nonce p (counter_of s p)), (next_send_counter s p).1)))
  unfolding seal next_send_counter
  seal_cases s p text ad = elim (Bool-cases (aead.usable s.send_key)) [
    | inl e ↦ inr (aead.seal s.send_key (build_nonce p (counter_of s p)) text ad, rw e)
    | inr e ↦ inl (rw e)
  ]

  counter_of-next :
      (s : Session) (p q : ℕ)
      → counter_of (next_send_counter s p).1 q
        ≡ (if p == q then (counter_of s p + 1) % 2 ^ 64 else counter_of s q)
  unfolding next_send_counter
  counter_of-next s p q =
      ground (arith, lookup-insert p q ((counter_of s p + 1) % 2 ^ 64) s.send_ctrs)

  counters-rise :
      (s : Session) (ps : List (ℕ × List ℕ × List ℕ))
      → ((p : ℕ) → counter_of s p + length ps < 2 ^ 64)
      → All (λ n. counter_of s (byte n 0) ≤ nonce_counter n) (sealed_nonces aead s ps)
        × Distinct (sealed_nonces aead s ps)
  unfolding sealed_nonces
  counters-rise s [] h = (tt, tt)
  counters-rise s ((p, text, ad) ∷ ps) h = elim (seal_cases s p text ad) [
    | inl e ↦ rw e (counters-rise s ps λ q. omega (arith, h q))
    | inr (c, e) ↦
        let s' = (next_send_counter s p).1 in
        let nonce = build_nonce p (counter_of s p) in
        let read = build_nonce_lem p (counter_of s p) (omega (arith, h p)) in
        let ih = counters-rise s' ps λ q. ground (arith, h p, h q, counter_of-next s p q) in
        let later =
          All-map {Q = λ n. counter_of s (byte n 0) ≤ nonce_counter n} (sealed_nonces aead s' ps)
            (λ n low. ground (arith, counter_of-next s p (byte n 0), h p)) ih.0 in
        let fresh =
          All-map {Q = λ n. nonce ≢ n} (sealed_nonces aead s' ps)
            (λ n low same. ground (arith, counter_of-next s p (byte n 0), read, h p, same)) ih.0 in
        rw e ((ground (arith, read), later), (fresh, ih.1))
  ]

-- No two Seal calls of a session use the same nonce, on whatever paths they are made, as long as
-- there are fewer than 2^64 of them.
pub seal-Distinct_nonces :
    (aead : Aead) (send recv : List ℕ) (ps : List (ℕ × List ℕ × List ℕ))
    → length ps < 2 ^ 64
    → Distinct (sealed_nonces aead (new_session send recv) ps)
unfolding new_session lookup
seal-Distinct_nonces aead send recv ps h =
    (counters-rise aead (new_session send recv) ps λ p. omega arith).1
