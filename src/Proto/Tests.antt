-- ===== src/Proto/Tests.antt =====
-- Concrete headers: core/proto/proto.go.
use bondify.Common.{◌≡◌, refl, ◌++◌, arith, replicate, drop}
use bondify.Common.Result.{ok, ◌>>=◌}
use bondify.Proto.{
  OuterHeader, InnerDataHeader, FecHeader, marshal_outer, unmarshal_outer, marshal_inner,
  unmarshal_inner, type_data, version, flag_push,
}
use bondify.Proto.RoundTrip.{outer_bytes, inner_bytes, outer_round_trip, inner_round_trip}

abbrev outer : OuterHeader
outer = record {
  typ = type_data;
  version = version;
  session_index = 70_000;
  nonce = replicate 12 9;
}

abbrev inner : InnerDataHeader
inner = record {
  gsn = 1_000_000;
  psn = 77;
  path_id = 2;
  flags = flag_push;
  payload_len = 1400;
  generation_id = 3;
  gen_index = 4;
}

abbrev parity : FecHeader
parity = record { n = 10; m = 3; w = 1402 }

outer_round_trip_example :
    (marshal_outer (replicate 24 1) outer ≡ ok (outer_bytes outer ++ drop 20 (replicate 24 1)))
    × ((marshal_outer (replicate 24 1) outer >>= unmarshal_outer) ≡ ok (outer, 20))
outer_round_trip_example =
    outer_round_trip (replicate 24 1) outer
      (record {
        typ_fits = omega arith;
        version_fits = omega arith;
        index_fits = omega arith;
        nonce_fits = refl;
      })
      (omega arith)

inner_round_trip_example :
    (marshal_inner (replicate 24 1) inner ≡ ok (inner_bytes inner ++ drop 20 (replicate 24 1)))
    × ((marshal_inner (replicate 24 1) inner >>= unmarshal_inner) ≡ ok (inner, 20))
inner_round_trip_example =
    inner_round_trip (replicate 24 1) inner
      (record {
        gsn_fits = omega arith;
        psn_fits = omega arith;
        path_id_fits = omega arith;
        flags_fits = omega arith;
        payload_len_fits = omega arith;
        generation_id_fits = omega arith;
        gen_index_fits = omega arith;
      })
      (omega arith)
