-- ===== src/Fec/Recovery.antt =====
-- core/fec/fec.go: what EncodeParity protects Reconstruct gives back, from any n of the n + m shards.
use bondify.Common.{
  ℕ, suc, ◌+◌, ◌-◌, ◌^◌, ◌<◌, ◌≤◌, ◌≡◌, refl, ap, Bool, true, false, Option, none, some, List, [],
  ◌∷◌, ◌++◌, arith, ltb, ◌==◌, if◌then◌else◌, length, length-append, All,
}
use bondify.Common.Result.{ok}
use bondify.Fec.{
  Codec, encode_shard, decode_shard, encode_shards, encode_parity, gather_one, gather, have_count,
  recover, reconstruct,
}
use bondify.Fec.Shards.{shard_round_trip}

-- The shards that arrived; the others are nil.
abbrev pub arrived : List Bool → List (List ℕ) → List (List ℕ)
arrived [] xs = []
arrived (b ∷ bs) [] = []
arrived (b ∷ bs) (x ∷ xs) = (if b then x else []) ∷ arrived bs xs

abbrev pub masked : List Bool → List (List ℕ) → List (Option (List ℕ))
masked [] xs = []
masked (b ∷ bs) [] = []
masked (b ∷ bs) (x ∷ xs) = (if b then some x else none) ∷ masked bs xs

-- The payloads that did not arrive, with their indices from `i` on.
abbrev pub missing : ℕ → List Bool → List (List ℕ) → List (ℕ × List ℕ)
missing i [] ps = []
missing i (b ∷ bs) [] = []
missing i (true ∷ bs) (p ∷ ps) = missing (i + 1) bs ps
missing i (false ∷ bs) (p ∷ ps) = (i, p) ∷ missing (i + 1) bs ps

abbrev pub Fits : ℕ → List ℕ → Type 0
Fits w p = (length p + 2 ≤ w) × (length p < 2 ^ 16)

-- What the library promises of the data shards `ss`: m parity shards as wide as they are, and all
-- shards back from as many as there are data shards, whichever they are.
pub record Mds (codec : Codec) (w m : ℕ) (ss : List (List ℕ)) : Type 0 where
  pub accepted : codec.accepts (length ss) m ≡ true
  pub counted : length (codec.parity m ss) ≡ m
  pub sized : All (λ q. length q ≡ w) (codec.parity m ss)
  pub restores :
      (flags : List Bool)
      → length flags ≡ length ss + m
      → length ss ≤ have_count flags
      → codec.restore (length ss) m (masked flags (ss ++ codec.parity m ss))
        ≡ some (ss ++ codec.parity m ss)

abbrev Encoded : ℕ → List (List ℕ) → List (List ℕ) → Type 0
Encoded w [] [] = Unit
Encoded w [] (s ∷ ss) = ⊥
Encoded w (p ∷ ps) [] = ⊥
Encoded w (p ∷ ps) (s ∷ ss) =
    ((encode_shard p w ≡ ok s) × (decode_shard s ≡ ok p)) × Encoded w ps ss

encoded :
    (w : ℕ) (ps : List (List ℕ))
    → All (Fits w) ps
    → (ss : List (List ℕ)) × (encode_shards ps w ≡ ok ss) × Encoded w ps ss
unfolding encode_shards
encoded w [] a = ([], refl, tt)
encoded w (p ∷ ps) ((h, k), a) =
    let (s, e, l, d) = shard_round_trip p w h k in
    let (ss, f, g) = encoded w ps a in (s ∷ ss, rw (e, f) refl, ((e, d), g))

length-Encoded : (w : ℕ) (ps ss : List (List ℕ)) → Encoded w ps ss → length ps ≡ length ss
length-Encoded w [] [] e = refl
length-Encoded w [] (s ∷ ss) e = absurd e
length-Encoded w (p ∷ ps) [] e = absurd e
length-Encoded w (p ∷ ps) (s ∷ ss) (e, f) = ap suc (length-Encoded w ps ss f)

-- The parity part of the first loop.
gather_parity :
    (flags : List Bool) (qs : List (List ℕ)) (w : ℕ)
    → All (λ q. length q ≡ w) qs
    → gather 0 (arrived flags qs) flags w ≡ ok (masked flags qs)
unfolding gather gather_one
gather_parity [] qs w a = refl
gather_parity (b ∷ bs) [] w a = refl
gather_parity (true ∷ bs) (q ∷ qs) w (h, a) =
    let test : (length q == w) ≡ true = ground arith in rw (test, gather_parity bs qs w a) refl
gather_parity (false ∷ bs) (q ∷ qs) w (h, a) = rw (gather_parity bs qs w a) refl

gather_all :
    (flags : List Bool) (ps ss qs : List (List ℕ)) (w : ℕ)
    → Encoded w ps ss
    → All (λ q. length q ≡ w) qs
    → gather (length ps) (arrived flags (ps ++ qs)) flags w ≡ ok (masked flags (ss ++ qs))
unfolding gather gather_one
gather_all flags [] [] qs w e a = gather_parity flags qs w a
gather_all flags [] (s ∷ ss) qs w e a = absurd e
gather_all flags (p ∷ ps) [] qs w e a = absurd e
gather_all [] (p ∷ ps) (s ∷ ss) qs w e a = refl
gather_all (true ∷ bs) (p ∷ ps) (s ∷ ss) qs w ((e, d), f) a =
    let n : suc (length ps) - 1 ≡ length ps = omega arith in
    let test : ltb 0 (suc (length ps)) ≡ true = ground arith in
    rw (test, e, n, gather_all bs ps ss qs w f a) refl
gather_all (false ∷ bs) (p ∷ ps) (s ∷ ss) qs w ((e, d), f) a =
    let n : suc (length ps) - 1 ≡ length ps = omega arith in
    rw (n, gather_all bs ps ss qs w f a) refl

recover-missing :
    (i : ℕ) (flags : List Bool) (ps ss qs : List (List ℕ)) (w : ℕ)
    → Encoded w ps ss
    → recover (length ps) i flags (ss ++ qs) ≡ ok (missing i flags ps)
unfolding recover
recover-missing i [] [] [] qs w e = refl
recover-missing i (b ∷ bs) [] [] qs w e = refl
recover-missing i flags [] (s ∷ ss) qs w e = absurd e
recover-missing i flags (p ∷ ps) [] qs w e = absurd e
recover-missing i [] (p ∷ ps) (s ∷ ss) qs w e = refl
recover-missing i (true ∷ bs) (p ∷ ps) (s ∷ ss) qs w (e, f) =
    recover-missing (i + 1) bs ps ss qs w f
recover-missing i (false ∷ bs) (p ∷ ps) (s ∷ ss) qs w ((e, d), f) =
    rw (d, recover-missing (i + 1) bs ps ss qs w f) refl

length-arrived :
    (flags : List Bool) (xs : List (List ℕ))
    → length flags ≡ length xs
    → length (arrived flags xs) ≡ length flags
length-arrived [] xs h = refl
length-arrived (b ∷ bs) [] h = absurd (omega arith)
length-arrived (b ∷ bs) (x ∷ xs) h = ap suc (length-arrived bs xs (omega arith))

module _ (codec : Codec) where
  -- Where each of the n packets fits in the width and m parity shards are asked for, EncodeParity
  -- succeeds, and from any n or more of the n + m shards Reconstruct returns exactly the missing
  -- packets under their indices, if the Reed-Solomon library keeps its promise for this generation.
  pub reconstruct_recovers :
      (ps : List (List ℕ)) (w m : ℕ) (flags : List Bool)
      → 0 < length ps
      → 0 < m
      → All (Fits w) ps
      → ((ss : List (List ℕ)) → encode_shards ps w ≡ ok ss → Mds codec w m ss)
      → length flags ≡ length ps + m
      → length ps ≤ have_count flags
      → (parity : List (List ℕ)) × (encode_parity codec ps w m ≡ ok parity)
        × (reconstruct codec (arrived flags (ps ++ parity)) flags (length ps) m w
            ≡ ok (missing 0 flags ps))
  unfolding encode_parity reconstruct
  reconstruct_recovers ps w m flags some_data some_parity fits law size enough =
      let (ss, e, f) = encoded w ps fits in
      let mds = law ss e in
      let same = length-Encoded w ps ss f in
      let qs = codec.parity m ss in
      let n = length ps in
      let not_empty : (n == 0) ≡ false = ground arith in
      let some_wanted : (m == 0) ≡ false = ground arith in
      let accepts : codec.accepts n m ≡ true = rw same mds.accepted in
      let all_in : (length flags == n + m) ≡ true = ground arith in
      let shards_in : (length (arrived flags (ps ++ qs)) == n + m) ≡ true =
        ground (arith, length-arrived flags (ps ++ qs), length-append ps qs, mds.counted) in
      let enough_have : ltb (have_count flags) n ≡ false = ground arith in
      let back : codec.restore n m (masked flags (ss ++ qs)) ≡ some (ss ++ qs) =
        rw same (mds.restores flags (omega arith) (omega arith)) in
      (
        qs,
        rw (not_empty, some_wanted, accepts, e) refl,
        rw
            (
              not_empty,
              shards_in,
              all_in,
              gather_all flags ps ss qs w f mds.sized,
              enough_have,
              accepts,
              back,
            )
            (recover-missing 0 flags ps ss qs w f),
      )
