-- ===== src/Fec/Shards.antt =====
-- core/fec/fec.go: encodeShard and decodeShard.
use bondify.Common.{
  ℕ, zero, suc, ◌+◌, ◌-◌, ◌/◌, ◌%◌, ◌^◌, ◌<◌, ◌≤◌, ◌≡◌, refl, ap, ◌∙◌, List, ◌∷◌, ◌++◌, arith,
  length, replicate, drop, length-replicate, length-append, guard_passes,
}
use bondify.Common.Bytes.{write, overwrite, be, of_be-be, overwrite-append, take-append}
use bondify.Common.Result.{ok}
use bondify.Fec.{encode_shard, decode_shard, length_prefix}

drop-replicate : (n w : ℕ) → drop {A = ℕ} n (replicate w 0) ≡ replicate (w - n) 0
drop-replicate zero w = ap (λ k. replicate {A = ℕ} k 0) (omega arith)
drop-replicate (suc n) zero = ap (λ k. replicate {A = ℕ} k 0) {x = 0} {y = 0 - suc n} (omega arith)
drop-replicate (suc n) (suc w) = drop-replicate n w ∙ ap (λ k. replicate {A = ℕ} k 0) (omega arith)

write_past : (a b : ℕ) (xs bs : List ℕ) → write (a ∷ b ∷ xs) 2 bs ≡ a ∷ b ∷ overwrite bs xs
unfolding write
write_past a b xs bs = refl

filled :
    (payload : List ℕ) (v : ℕ)
    → length payload ≤ v
    → write (write (replicate (suc (suc v)) 0) 0 (be 2 (length payload))) 2 payload
      ≡ be 2 (length payload) ++ payload ++ replicate (v - length payload) 0
unfolding be write overwrite
filled payload v h =
    let fits : length payload ≤ length (replicate v 0) =
      omega (arith, length-replicate {A = ℕ} v 0) in
    ap (λ t. (length payload / 256 % 256) ∷ (length payload % 256) ∷ t)
      (overwrite-append payload (replicate v 0) fits
        ∙ ap (λ t. payload ++ t) (drop-replicate (length payload) v))

-- The shard of a payload that fits: its length in two bytes, the payload, zeros.
pub encode_shard-bytes :
    (payload : List ℕ) (w : ℕ)
    → length payload + 2 ≤ w
    → length payload < 2 ^ 16
    → encode_shard payload w
      ≡ ok (be 2 (length payload) ++ payload ++ replicate (w - 2 - length payload) 0)
unfolding encode_shard
encode_shard-bytes payload zero fits short = absurd (omega arith)
encode_shard-bytes payload (suc zero) fits short = absurd (omega arith)
encode_shard-bytes payload (suc (suc v)) fits short =
    guard_passes (suc (suc v)) (length payload + length_prefix) _ _ fits
    ∙ guard_passes (2 ^ 16 - 1) (length payload) _ _ (omega arith)
    ∙ ap ok (
        filled payload v (omega arith)
        ∙ ap (λ k. be 2 (length payload) ++ payload ++ replicate k 0) {x = v - length payload}
            {y = suc (suc v) - 2 - length payload} (omega arith))

-- A payload of less than 2^16 bytes that fits in the width becomes a shard of exactly that width,
-- from which decodeShard reads the payload back.
pub shard_round_trip :
    (payload : List ℕ) (w : ℕ)
    → length payload + 2 ≤ w
    → length payload < 2 ^ 16
    → (s : List ℕ) × (encode_shard payload w ≡ ok s)
      × (length s ≡ w)
      × (decode_shard s ≡ ok payload)
unfolding decode_shard be
shard_round_trip payload w fits short =
    let rest : List ℕ = replicate (w - 2 - length payload) 0 in
    let s = be 2 (length payload) ++ payload ++ rest in
    let wide : length s ≡ w =
      omega
        (arith, length-append payload rest, length-replicate {A = ℕ} (w - 2 - length payload) 0) in
    (
      s,
      encode_shard-bytes payload w fits short,
      wide,
      ground (arith, of_be-be 2 (length payload) short, take-append payload rest),
    )
