-- ===== src/Pairing/Peers.antt =====
-- The registry of peers: its bound, and what Add, Revoke and Get do to one another.
use bondify.Common.{
  ℕ, ◌+◌, ◌<◌, ◌≤◌, ◌≡◌, ◌∙◌, subst, refl, true, Option, none, some, List, [], ◌∷◌, arith, leb,
  ◌==◌, if◌then◌else◌, length, if_intro, Option-cases, inl, inr, ◌⊎◌,
}
use bondify.Common.Assoc.{lookup, lookup-insert, lookup-delete, length-insert, length-delete}
use bondify.Common.Result.{Result, ok, err}
use bondify.Pairing.{
  Peer, Registry, add, revoke, unregister, get, count, max_peers, PairError, too_many_peers,
  already_paired, not_paired,
}

pub data Change : Type 0 where
  adds : Peer → Change
  revokes : ℕ → Change

unfoldable pub change : Registry → Change → Registry
change r (adds p) = (add r p).1
change r (revokes id) = (revoke r id).1

unfoldable pub changes : Registry → List Change → Registry
changes r [] = r
changes r (c ∷ cs) = changes (change r c) cs

-- What Add comes to.
abbrev pub AddResult : Registry → Peer → Result PairError (Unit {0}) × Registry → Type 0
AddResult r p s =
    ((s.0 ≡ ok tt)
      × (get r p.id ≡ none)
      × (count s.1 ≡ count r + 1)
      × (count r < max_peers)
      × ((id : ℕ) → get s.1 id ≡ (if p.id == id then some p else get r id)))
    ⊎ ((s.1 ≡ r)
        × (((s.0 ≡ err too_many_peers) × (max_peers ≤ count r))
            ⊎ ((s.0 ≡ err already_paired)
                × (count r < max_peers)
                × ((old : Peer) × (get r p.id ≡ some old)))))

-- Add ends in one of three ways: fewer than four peers are registered and the id is free, it
-- succeeds, the new peer is registered under its id, one more is registered, and every other id is
-- as it was; four or more are registered, it returns ErrTooManyPeers; fewer are and the id is taken,
-- it returns ErrAlreadyPaired. With an error the registry is as it was.
pub add-AddResult : (r : Registry) (p : Peer) → AddResult r p (add r p)
unfolding add
add-AddResult r p =
    if_intro (AddResult r p) (leb max_peers (length r)) (λ e. inr (refl, inl (refl, ground arith)))
      λ e. elim (Option-cases (lookup p.id r)) [
        | inl f ↦ rw f (
            inl
              (refl, refl, length-insert p.id p r f, ground arith, λ id. lookup-insert p.id id p r))
        | inr (old, f) ↦ rw f (inr (refl, inr (refl, ground arith, (old, refl))))
      ]

unregister-bound : (r : Registry) (id : ℕ) (o : Option Peer) → count (unregister r id o).1 ≤ count r
unfolding unregister
unregister-bound r id none = omega arith
unregister-bound r id (some p) = length-delete id r

change-bound : (r : Registry) (c : Change) → count r ≤ max_peers → count (change r c) ≤ max_peers
unfolding change revoke
change-bound r (adds p) h = elim (add-AddResult r p) [
  | inl (o, free, one, room, rest) ↦ omega arith
  | inr (same, why) ↦ rw same h
]
change-bound r (revokes id) h = omega (arith, unregister-bound r id (lookup id r))

changes-bound :
    (r : Registry) (cs : List Change) → count r ≤ max_peers → count (changes r cs) ≤ max_peers
unfolding changes
changes-bound r [] h = h
changes-bound r (c ∷ cs) h = changes-bound (change r c) cs (change-bound r c h)

-- Never more than four peers are registered, whatever peers are added and revoked.
pub peers_bounded : (cs : List Change) → count (changes [] cs) ≤ max_peers
peers_bounded cs = changes-bound [] cs (omega arith)

unregister_lem :
    (r : Registry) (id : ℕ) (o : Option Peer)
    → lookup id r ≡ o
    → (j : ℕ) → get (unregister r id o).1 j ≡ (if id == j then none else get r j)
unfolding unregister
unregister_lem r id none f j = if_intro (λ q. get r j ≡ q) (id == j) (λ e. absent e) λ e. refl
  where
    absent : (id == j) ≡ true → get r j ≡ none
    absent e = subst (λ k. lookup k r ≡ none) (ground arith) f
unregister_lem r id (some p) f j = lookup-delete id j r

-- After Revoke of an id nobody is registered under it, the other peers are as they were, and a
-- second Revoke is refused with ErrNotPaired.
pub revoked_is_gone :
    (r : Registry) (id : ℕ)
    → let s = (revoke r id).1 in
      ((j : ℕ) → get s j ≡ (if id == j then none else get r j)) × ((revoke s id).0 ≡ err not_paired)
unfolding revoke unregister
revoked_is_gone r id =
    let after = unregister_lem r id (lookup id r) refl in
    let gone : get (revoke r id).1 id ≡ none = after id ∙ ground arith in (after, rw gone refl)
