-- ===== src/Fec/Receiver.antt =====
-- core/bond/fec.go: fecGenBuffer, which keeps the shards of the generations that are arriving and
-- recovers missing packets. Maps are association lists; the clock's readings are arguments.
use bondify.Common.{
  ℕ, zero, suc, ◌+◌, Bool, true, false, ◌&&◌, ◌||◌, not, Option, none, some, List, [], ◌∷◌, ◌++◌,
  ltb, leb, ◌==◌, if◌then◌else◌, length,
}
use bondify.Common.Assoc.{lookup, insert}
use bondify.Common.Int.{ℤ, pos, ltb_ℤ, pos_part, ◌-ℤ◌}
use bondify.Common.Result.{Result, ok, err}
use bondify.Fec.{Codec, FecError, reconstruct}
use bondify.Packets.{PacketError, parse_inner}
use bondify.Proto.{InnerDataHeader}

abbrev pub Shards : Type 0
Shards = List (ℕ × List ℕ)

pub record FecGeneration : Type 0 where
  pub n : ℕ
  pub m : ℕ
  pub w : ℕ
  pub data_shards : Shards
  pub parity_shards : Shards
  pub first_seen : ℤ

abbrev pub FecGenBuffer : Type 0
FecGenBuffer = List (ℕ × FecGeneration)

abbrev pub new_generation : ℤ → FecGeneration
new_generation now = record {
  n = 0;
  m = 0;
  w = 0;
  data_shards = [];
  parity_shards = [];
  first_seen = now;
}

abbrev pub or_new : ℤ → Option FecGeneration → FecGeneration
or_new now none = new_generation now
or_new now (some g) = g

-- getOrCreateLocked; a generation that it creates is stored by the caller's write.
unfoldable pub get_or_create : FecGenBuffer → ℤ → ℕ → FecGeneration
get_or_create b now gen_id = or_new now (lookup gen_id b)

unfoldable pub handle_data : FecGenBuffer → ℤ → ℕ → ℕ → List ℕ → FecGenBuffer
handle_data b now gen_id gen_index plaintext =
    let g = get_or_create b now gen_id in
    insert gen_id (record g { data_shards = insert gen_index plaintext g.data_shards }) b

-- The count of the data shards with an index below n.
unfoldable pub count_below : ℕ → Shards → ℕ
count_below n [] = 0
count_below n ((i, d) ∷ held) = (if ltb i n then 1 else 0) + count_below n held

abbrev pub or_nil : Option (List ℕ) → List ℕ
or_nil none = []
or_nil (some d) = d

abbrev pub is_held : Option (List ℕ) → Bool
is_held none = false
is_held (some d) = true

-- `shards` and `present`, from index `i` on for `left` places.
unfoldable pub shards_of : ℕ → ℕ → Shards → List (List ℕ)
shards_of zero i held = []
shards_of (suc left) i held = or_nil (lookup i held) ∷ shards_of left (i + 1) held

unfoldable pub present_of : ℕ → ℕ → Shards → List Bool
present_of zero i held = []
present_of (suc left) i held = is_held (lookup i held) ∷ present_of left (i + 1) held

unfoldable pub store_all : Shards → Shards → Shards
store_all [] held = held
store_all ((i, d) ∷ recovered) held = store_all recovered (insert i d held)

-- The numbers of the wire are not negative but for the parity index.
abbrev pub is_malformed : ℕ → ℕ → ℕ → ℤ → Bool
is_malformed n m w parity_index =
    not (ltb 0 n)
    || not (ltb 0 m)
    || not (ltb 0 w)
    || ltb_ℤ parity_index (pos 0)
    || not (ltb_ℤ parity_index (pos m))

abbrev pub same_geometry : FecGeneration → ℕ → ℕ → ℕ → Bool
same_geometry g n m w = (g.n == n) && (g.m == m) && (g.w == w)

-- Nothing is missing, or too little has arrived.
abbrev pub cannot_recover : FecGeneration → Bool
cannot_recover g =
    leb g.n (count_below g.n g.data_shards)
    || ltb (count_below g.n g.data_shards + length g.parity_shards) g.n

abbrev pub recovered_into : FecGeneration → Result FecError Shards → Shards × FecGeneration
recovered_into g (err e) = ([], g)
recovered_into g (ok recovered) =
    (recovered, record g { data_shards = store_all recovered g.data_shards })

module _ (codec : Codec) where
  -- The call of Reconstruct, with what it recovers stored.
  unfoldable pub attempt : FecGeneration → Shards × FecGeneration
  attempt g = recovered_into g (
      reconstruct codec (shards_of g.n 0 g.data_shards ++ shards_of g.m 0 g.parity_shards)
        (present_of g.n 0 g.data_shards ++ present_of g.m 0 g.parity_shards) g.n g.m g.w)

  -- HandleFEC from the point where the generation's geometry is settled.
  unfoldable pub with_parity : FecGeneration → ℕ → List ℕ → Shards × FecGeneration
  with_parity g parity_index shard =
      let g' = record g { parity_shards = insert parity_index shard g.parity_shards } in
      if cannot_recover g' then ([], g') else attempt g'

  unfoldable pub handle_fec : FecGenBuffer → ℤ → ℕ → ℕ → ℕ → ℕ → ℤ → List ℕ → Shards × FecGenBuffer
  handle_fec b now gen_id n m w parity_index shard =
      let g = get_or_create b now gen_id in
      let settled = if g.n == 0 then record g { n = n; m = m; w = w } else g in
      let (recovered, g') = with_parity settled (pos_part parity_index) shard in
      if is_malformed n m w parity_index
      then ([], b)
      else if not (same_geometry settled n m w)
      then ([], insert gen_id g b)
      else (recovered, insert gen_id g' b)

-- GC.
unfoldable pub gc : FecGenBuffer → ℤ → ℤ → FecGenBuffer
gc [] now max_age = []
gc ((id, g) ∷ b) now max_age =
    let rest = gc b now max_age in
    if ltb_ℤ max_age (now -ℤ g.first_seen) then rest else (id, g) ∷ rest

abbrev pub ok_only : {A : Type 0} → Result PacketError A → Option A
ok_only (ok r) = some r
ok_only (err e) = none

-- unmarshalRecovered; none stands for false.
unfoldable pub unmarshal_recovered : List ℕ → Option (InnerDataHeader × List ℕ)
unmarshal_recovered plaintext = ok_only (parse_inner plaintext)
