-- ===== src/Pairing/Tests.antt =====
-- Concrete codes and peers: core/pairbond/pairbond.go.
use bondify.Common.{
  ℕ, length, ◌≤◌, ◌≡◌, refl, false, none, List, [], ◌∷◌, arith, ◌==◌, if◌then◌else◌,
}
use bondify.Common.Assoc.{lookup, insert}
use bondify.Common.Result.{ok, err}
use bondify.Pairing.{
  marshal_header, unmarshal_header, Peer, Registry, issue, consume, gc_locked, redeem, add, revoke,
  get, count, max_peers, bad_code, not_paired,
}
use bondify.Pairing.Header.{header_round_trip}
use bondify.Pairing.Codes.{Call, issues, consumes, call, calls, code_opens_once}
use bondify.Pairing.Peers.{
  adds, revokes, changes, AddResult, add-AddResult, peers_bounded, revoked_is_gone,
}

abbrev issued : List Call
issued = issues 1000 42 ∷ issues 1500 43 ∷ []

opened : (consume 2000 2001 42 (calls [] issued)).0 ≡ ok tt
unfolding calls call issue consume gc_locked redeem lookup insert
opened = refl

code_opens_once_example :
    (consume 3000 3001 42 (
      calls
        (consume 2000 2001 42 (calls [] issued)).1
        (issues 2500 44 ∷ consumes 2600 2601 44 ∷ []))).0
    ≡ err bad_code
code_opens_once_example =
    code_opens_once issued (issues 2500 44 ∷ consumes 2600 2601 44 ∷ []) 2000 2001 3000 3001 42
      opened ((omega arith), tt)

abbrev peer : ℕ → Peer
peer n = record { id = n; remote_addr = 9; accepted_at = 100; revoked = false }

abbrev registry : Registry
registry = (1, peer 1) ∷ (2, peer 2) ∷ []

add-AddResult_example : AddResult registry (peer 3) (add registry (peer 3))
add-AddResult_example = add-AddResult registry (peer 3)

peers_bounded_example :
    count (changes [] (adds (peer 1) ∷ adds (peer 2) ∷ revokes 1 ∷ adds (peer 3) ∷ [])) ≤ max_peers
peers_bounded_example =
    peers_bounded (adds (peer 1) ∷ adds (peer 2) ∷ revokes 1 ∷ adds (peer 3) ∷ [])

revoked_is_gone_example :
    let s = (revoke registry 1).1 in
    ((j : ℕ) → get s j ≡ (if 1 == j then none else get registry j))
    × ((revoke s 1).0 ≡ err not_paired)
revoked_is_gone_example = revoked_is_gone registry 1

header_round_trip_example :
    (length (marshal_header 16 1400) ≡ 4)
    × (unmarshal_header (marshal_header 16 1400) ≡ ok (16, 1400))
header_round_trip_example = header_round_trip 16 1400 (omega arith) (omega arith)
