-- ===== src/Fec/Tests.antt =====
-- Concrete shards: core/fec/fec.go.
use bondify.Common.{
  ℕ, ◌+◌, ◌≤◌, Bool, true, false, Option, none, some, replicate, ◌≡◌, refl, sym, ◌∙◌, subst, List,
  [], ◌∷◌, ◌++◌, arith, length,
}
use bondify.Common.Bytes.{write, overwrite, be}
use bondify.Common.Result.{Result, ok}
use bondify.Fec.{
  FecError, encode_shard, decode_shard, encode_shards, encode_parity, reconstruct, have_count,
}
use bondify.Fec.Recovery.{Mds, arrived, masked, missing, reconstruct_recovers}
use bondify.Common.Float.{thousandths}
use bondify.Fec.{Codec}
use bondify.Fec.Shards.{shard_round_trip}
use bondify.Fec.Sender.{FecSender, record_shard}
use bondify.Fec.Sender.Generations.{Collecting, Recorded, record_shard-Recorded}

shard_round_trip_example :
    (s : List ℕ) × (encode_shard (9 ∷ 8 ∷ 7 ∷ []) 12 ≡ ok s)
    × (length s ≡ 12)
    × (decode_shard s ≡ ok (9 ∷ 8 ∷ 7 ∷ []))
shard_round_trip_example = shard_round_trip (9 ∷ 8 ∷ 7 ∷ []) 12 (omega arith) (omega arith)

-- A codec whose parity shards are empty.
abbrev blank : Codec
blank = record {
  accepts = λ n m. true;
  parity = λ m shards. replicate m [];
  restore = λ n m shards. none;
}

-- Nine packets of one byte in the last generation before the number wraps.
abbrev nine : FecSender
nine = record {
  gen_id = 65_535;
  shards = replicate {A = List ℕ} 9 (7 ∷ []);
  max_len = 1;
  opened_at = 5;
}

nearly_full : Collecting nine
nearly_full = record { room = omega arith; fits = omega arith }

record_shard-Recorded_example :
    Recorded thousandths blank nine 50 65_535 9
      (9 ∷ 8 ∷ [])
      (record_shard thousandths blank nine 50 65_535 9 (9 ∷ 8 ∷ []))
record_shard-Recorded_example =
    record_shard-Recorded thousandths blank nine 50 65_535 9 (9 ∷ 8 ∷ []) nearly_full

first_held : List (Option (List ℕ)) → Option (List ℕ)
first_held [] = none
first_held (none ∷ rs) = first_held rs
first_held (some s ∷ rs) = some s

copied : ℕ → Option (List ℕ) → Option (List (List ℕ))
copied n none = none
copied n (some s) = some (replicate n s)

parity_of : ℕ → List (List ℕ) → List (List ℕ)
parity_of m [] = []
parity_of m (s ∷ ss) = replicate m s

-- The repetition code, which is the Reed-Solomon code of a generation of one packet.
copies : Codec
copies = record {
  accepts = λ n m. true;
  parity = parity_of;
  restore = λ n m rs. copied (n + m) (first_held rs);
}

abbrev one_packet : List (List ℕ)
one_packet = (9 ∷ 8 ∷ []) ∷ []

shard : List ℕ
shard = 0 ∷ 2 ∷ 9 ∷ 8 ∷ []

copies_of_one : Mds copies 4 1 (shard ∷ [])
unfolding copies copied parity_of first_held shard
copies_of_one = record { accepted = refl; counted = refl; sized = (refl, tt); restores = back }
  where
    back :
        (flags : List Bool)
        → length flags ≡ 2
        → 1 ≤ have_count flags
        → copies.restore 1 1 (masked flags (shard ∷ shard ∷ [])) ≡ some (shard ∷ shard ∷ [])
    back [] h k = absurd (omega arith)
    back (a ∷ []) h k = absurd (omega arith)
    back (true ∷ true ∷ []) h k = refl
    back (true ∷ false ∷ []) h k = refl
    back (false ∷ true ∷ []) h k = refl
    back (false ∷ false ∷ []) h k = absurd (omega arith)
    back (a ∷ b ∷ c ∷ rest) h k = absurd (omega arith)

shards_of_one : encode_shards one_packet 4 ≡ ok (shard ∷ [])
unfolding encode_shards encode_shard write overwrite be shard
shards_of_one = refl

promise : (ss : List (List ℕ)) → encode_shards one_packet 4 ≡ ok ss → Mds copies 4 1 ss
promise ss e = subst (Mds copies 4 1) (same (sym shards_of_one ∙ e)) copies_of_one
  where
    same : {a b : List (List ℕ)} → ◌≡◌ {A = Result FecError (List (List ℕ))} (ok a) (ok b) → a ≡ b
    same h = cc

reconstruct_recovers_example :
    (parity : List (List ℕ)) × (encode_parity copies one_packet 4 1 ≡ ok parity)
    × (reconstruct copies
          (arrived (false ∷ true ∷ []) (one_packet ++ parity))
          (false ∷ true ∷ [])
          1
          1
          4
        ≡ ok (missing 0 (false ∷ true ∷ []) one_packet))
reconstruct_recovers_example =
    reconstruct_recovers copies one_packet 4 1 (false ∷ true ∷ []) (omega arith) (omega arith)
      ((omega arith, omega arith), tt) promise refl (omega arith)
