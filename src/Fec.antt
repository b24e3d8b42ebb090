-- ===== src/Fec.antt =====
-- core/fec/fec.go: forward error correction over a generation of packets. The Reed-Solomon code of
-- github.com/klauspost/reedsolomon is a parameter: `parity m shards` are the parity shards that
-- Encode computes, `restore` is Reconstruct on shards that may be missing (nil in Go).
pub mod Shards
pub mod Sender
pub mod Receiver
pub mod Recovery
pub mod Tests
use bondify.Common.{
  ℕ, zero, suc, ◌+◌, ◌-◌, ◌*◌, ◌^◌, Bool, true, false, ◌||◌, not, Option, none, some, List, [], ◌∷◌,
  ◌++◌, map, ltb, leb, ◌==◌, if◌then◌else◌, length, replicate, take, drop, get_elem?,
}
use bondify.Common.Bytes.{slice, write, be, of_be}
use bondify.Common.Float.{Float}
use bondify.Common.Int.{ℤ, pos, ltb_ℤ}
use bondify.Common.Result.{Result, ok, err, ◌>>=◌}

abbrev pub k_max : ℕ
k_max = 10

abbrev pub length_prefix : ℕ
length_prefix = 2

pub data FecError : Type 0 where
  too_few_shards empty_generation payload_too_wide payload_too_long short_shard bad_prefix :
      FecError
  bad_count bad_parity_width bad_codec : FecError

-- RedundancyFor, on a number of data shards that fits in an int.
module _ {F : Type 0} (fl : Float F) where
  unfoldable pub redundancy_ratio : F → F
  redundancy_ratio loss =
      let ratio = fl.mul loss (fl.ratio 5 1) in
      let raised = if fl.lt ratio (fl.of_int (pos 0)) then fl.of_int (pos 0) else ratio in
      if fl.lt (fl.ratio 25 100) raised then fl.ratio 25 100 else raised

  unfoldable pub redundancy_for : F → ℤ → ℤ
  redundancy_for loss n =
      if not (ltb_ℤ (pos 0) n)
      then pos 0
      else let m = fl.ceil (fl.mul (redundancy_ratio loss) (fl.of_int n)) in
        if ltb_ℤ n m then n else m

abbrev pub shard_width : ℕ → ℕ
shard_width max_payload_len = length_prefix + max_payload_len

unfoldable pub encode_shard : List ℕ → ℕ → Result FecError (List ℕ)
encode_shard payload w =
    if ltb w (length payload + length_prefix)
    then err payload_too_wide
    else if ltb (2 ^ 16 - 1) (length payload)
    then err payload_too_long
    else ok (write (write (replicate w 0) 0 (be 2 (length payload))) length_prefix payload)

unfoldable pub decode_shard : List ℕ → Result FecError (List ℕ)
decode_shard buf =
    if ltb (length buf) length_prefix
    then err short_shard
    else let n = of_be (slice buf 0 length_prefix) in
      if ltb (length buf) (length_prefix + n)
      then err bad_prefix
      else ok (slice buf length_prefix n)

-- The loops that fill the first n shards.
unfoldable pub encode_shards : List (List ℕ) → ℕ → Result FecError (List (List ℕ))
encode_shards [] w = ok []
encode_shards (p ∷ ps) w = encode_shard p w >>= λ s. encode_shards ps w >>= λ rest. ok (s ∷ rest)

-- The library: New's test of the counts, Encode and Reconstruct.
pub record Codec : Type 0 where
  pub accepts : ℕ → ℕ → Bool
  pub parity : ℕ → List (List ℕ) → List (List ℕ)
  pub restore : ℕ → ℕ → List (Option (List ℕ)) → Option (List (List ℕ))

module _ (codec : Codec) where
  unfoldable pub encode_parity : List (List ℕ) → ℕ → ℕ → Result FecError (List (List ℕ))
  encode_parity data_shards w m =
      if length data_shards == 0
      then err empty_generation
      else if m == 0
      then ok []
      else if not (codec.accepts (length data_shards) m)
      then err bad_codec
      else encode_shards data_shards w >>= λ shards. ok (codec.parity m shards)

-- Shard `i` of Reconstruct's first loop; the flag says whether i < n.
unfoldable pub gather_one : Bool → List ℕ → Bool → ℕ → Result FecError (Option (List ℕ))
gather_one is_data shard false w = ok none
gather_one true shard true w = encode_shard shard w >>= λ s. ok (some s)
gather_one false shard true w = if length shard == w then ok (some shard) else err bad_parity_width

-- The first loop; the first argument is the number of data shards still to come.
unfoldable pub gather : ℕ → List (List ℕ) → List Bool → ℕ → Result FecError (List (Option (List ℕ)))
gather left (s ∷ ss) (p ∷ ps) w =
    gather_one (ltb 0 left) s p w >>= λ x. gather (left - 1) ss ps w >>= λ rest. ok (x ∷ rest)
gather left [] ps w = ok []
gather left (s ∷ ss) [] w = ok []

abbrev pub have_count : List Bool → ℕ
have_count [] = 0
have_count (p ∷ ps) = (if p then 1 else 0) + have_count ps

-- The last loop, over the data shards from index `i` on.
unfoldable pub recover : ℕ → ℕ → List Bool → List (List ℕ) → Result FecError (List (ℕ × List ℕ))
recover zero i ps ss = ok []
recover (suc left) i (true ∷ ps) (s ∷ ss) = recover left (i + 1) ps ss
recover (suc left) i (false ∷ ps) (s ∷ ss) =
    decode_shard s >>= λ payload. recover left (i + 1) ps ss >>= λ rest. ok ((i, payload) ∷ rest)
recover (suc left) i [] ss = ok []
recover (suc left) i (p ∷ ps) [] = ok []

abbrev pub or_codec_error : Option (List (List ℕ)) → Result FecError (List (List ℕ))
or_codec_error none = err bad_codec
or_codec_error (some shards) = ok shards

module _ (codec : Codec) where
  -- Reconstruct; the map of recovered payloads as a list, by rising index.
  unfoldable pub reconstruct :
      List (List ℕ) → List Bool → ℕ → ℕ → ℕ → Result FecError (List (ℕ × List ℕ))
  reconstruct shards present n m w =
      if n == 0
      then err empty_generation
      else if not (length shards == n + m) || not (length present == n + m)
      then err bad_count
      else gather n shards present w >>= λ rs.
          if ltb (have_count present) n
          then err too_few_shards
          else if not (codec.accepts n m)
          then err bad_codec
          else or_codec_error (codec.restore n m rs) >>= λ full. recover n 0 present full
