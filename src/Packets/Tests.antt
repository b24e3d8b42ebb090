-- ===== src/Packets/Tests.antt =====
-- A concrete packet: core/bond/data.go, with a toy cipher that sends the associated data along.
use bondify.Common.{
  ℕ, ◌^◌, ◌<◌, ◌≡◌, refl, ap, Bool, true, false, ◌&&◌, Option, none, some, List, [], ◌∷◌, ◌++◌,
  arith, length, take, drop, ◌==◌, if◌then◌else◌, inl,
}
use bondify.Common.Assoc.{lookup}
use bondify.Common.Bytes.{take-append, drop-append, be, write, overwrite}
use bondify.Common.Result.{ok}
use bondify.Crypto.Replay.{check_only, new_replay_window}
use bondify.Crypto.Session.{
  Aead, new_session, counter_of, build_nonce, unseal, open_checked, recv_window, nonce_counter,
}
use bondify.Crypto.Session.Replays.{window_of}
use bondify.Proto.{
  OuterHeader, InnerDataHeader, InnerFits, OuterFits, unmarshal_outer, type_data, type_probe,
}
use bondify.Packets.{associated_data, seal_packet, open_packet, open_control}
use bondify.Packets.RoundTrip.{packet_round_trip, header_of}
use bondify.Packets.Tamper.{Authentic, header_authenticated}

same : List ℕ → List ℕ → Bool
same [] [] = true
same [] (y ∷ ys) = false
same (x ∷ xs) [] = false
same (x ∷ xs) (y ∷ ys) = x == y && same xs ys

same_refl : (xs : List ℕ) → same xs xs ≡ true
unfolding same
same_refl [] = refl
same_refl (x ∷ xs) = ground (arith, same_refl xs)

eq_of_same : (xs ys : List ℕ) → same xs ys ≡ true → xs ≡ ys
unfolding same
eq_of_same [] [] h = refl
eq_of_same [] (y ∷ ys) h = absurd (ground arith)
eq_of_same (x ∷ xs) [] h = absurd (ground arith)
eq_of_same (x ∷ xs) (y ∷ ys) h = ground (arith, eq_of_same xs ys)

toy_unseal : List ℕ → List ℕ → List ℕ → List ℕ → Option (List ℕ)
toy_unseal k n [] d = none
toy_unseal k n (size ∷ rest) d = if same (take size rest) d then some (drop size rest) else none

toy : Aead
toy = record { usable = λ k. true; seal = λ k n t d. length d ∷ (d ++ t); unseal = toy_unseal }

inverts : (k n t d : List ℕ) → toy.unseal k n (toy.seal k n t d) d ≡ some t
unfolding toy toy_unseal
inverts k n t d = rw (take-append d t, same_refl d) (ap some (drop-append d t))

law : Authentic toy
unfolding toy toy_unseal
law k n m t d d' x h =
    eq_of_same d d'
      (tested (take (length d) (d ++ t)) (drop (length d) (d ++ t)) (take-append d t) h)
  where
    tested :
        (a r : List ℕ) → a ≡ d → (if same a d' then some r else none) ≡ some x → same d d' ≡ true
    tested a r e h = ground (arith, ap (λ (l : List ℕ). same l d') e)

key : List ℕ
key = 1 ∷ 2 ∷ []

abbrev inner : InnerDataHeader
inner = record {
  gsn = 70_000;
  psn = 3;
  path_id = 2;
  flags = 16;
  payload_len = 2;
  generation_id = 5;
  gen_index = 1;
}

fits : InnerFits inner
fits = omega arith

usable : toy.usable (new_session key key).send_key ≡ true
unfolding toy
usable = refl

low : counter_of (new_session key key) 2 < 2 ^ 64
unfolding new_session lookup
low = omega arith

fresh : check_only (window_of (new_session key key) 2) (counter_of (new_session key key) 2) ≡ true
unfolding new_session lookup check_only new_replay_window
fresh = refl

shared : (new_session key key).recv_key ≡ (new_session key key).send_key
unfolding new_session
shared = refl

packet_round_trip_example :
    (pkt : List ℕ) × (oh : OuterHeader) × ((seal_packet toy
        (new_session key key)
        type_data
        77
        2
        inner
        (8 ∷ 9 ∷ [])).0
      ≡ ok pkt)
    × (unmarshal_outer pkt ≡ ok (oh, 20))
    × (oh.typ ≡ type_data)
    × (oh.session_index ≡ 77)
    × ((open_packet toy (new_session key key) oh 2 (drop 20 pkt)).0 ≡ ok (inner, 8 ∷ 9 ∷ []))
packet_round_trip_example =
    packet_round_trip toy (new_session key key) (new_session key key) type_data 77 2 inner
      (8 ∷ 9 ∷ []) inverts usable shared low fresh fits (omega arith) (omega arith)

abbrev probe : OuterHeader
probe = header_of type_probe 77 (build_nonce 2 0)

probe_fits : OuterFits probe
unfolding build_nonce
probe_fits = omega arith

abbrev sent : List ℕ
sent =
    toy.seal (new_session key key).recv_key (build_nonce 2 0) (8 ∷ [])
      (associated_data type_probe 1 77)

opens : (open_control toy (new_session key key) probe 2 sent).0 ≡ ok (8 ∷ [])
unfolding open_control unseal open_checked recv_window new_session new_replay_window check_only
    build_nonce nonce_counter lookup toy toy_unseal same associated_data write overwrite be
opens = refl

header_authenticated_example :
    (probe.typ ≡ type_probe) × (probe.version ≡ 1) × (probe.session_index ≡ 77)
header_authenticated_example =
    header_authenticated toy (new_session key key) probe 2 type_probe 77 (build_nonce 2 0) (8 ∷ [])
      law probe_fits (omega arith) (inl (8 ∷ [], opens))
