-- ===== src/Sched/HolAware/Candidate.antt =====
-- core/sched/tier4_hol_aware.go: the slow path that HoLAware.Next falls back on, and a full turn over
-- the tied paths.
use bondify.Common.{
  ℕ, suc, ◌+◌, ◌%◌, ◌<◌, ◌≡◌, refl, ap, ◌∙◌, get_elem?, subst, Bool, true, false, ◌||◌, not, Option,
  none, some, List, [], ◌∷◌, arith, ◌==◌, if◌then◌else◌, length, if_intro, Bool-cases, inl, inr,
}
use bondify.Common.Int.{ℤ, ltb_ℤ, ◌≤ℤ◌}
use bondify.Sched.{PathView, has_room}
use bondify.Sched.Rotation.{ScanFound, passes, slot-turn, turn}
use bondify.Sched.Ties.{measured, Among, path_in}
use bondify.Sched.HolAware.{better, slowest_from}

from_zero : (n cursor k : ℕ) → (cursor + (0 + k)) % n ≡ (cursor + k) % n
from_zero n cursor k = ap (λ m. (cursor + m) % n) (omega arith)

module _ {F : Type 0} where
  -- A property of the candidate, if there is one.
  abbrev pub OfBest : (PathView F → ℤ → Type 0) → Option (PathView F × ℤ) → Type 0
  OfBest P none = Unit
  OfBest P (some (p, rtt)) = P p rtt

  better-OfBest :
      (P : PathView F → ℤ → Type 0) (best : Option (PathView F × ℤ)) (p : PathView F) (rtt : ℤ)
      → OfBest P best
      → P p rtt
      → OfBest P (better best p rtt)
  better-OfBest P none p rtt b h = h
  better-OfBest P (some (q, slow)) p rtt b h = if_intro (OfBest P) (ltb_ℤ rtt slow) (λ e. h) λ e. b

  unfoldable pub skips : List (PathView F) → PathView F → Bool
  skips primary p = path_in primary p || not (has_room p)

  pub slowest_from-OfBest :
      (P : PathView F → ℤ → Type 0) (primary : List (PathView F)) (best : Option (PathView F × ℤ))
      (ps : List (PathView F))
      → OfBest P best
      → ((q : PathView F) → Among q ps → skips primary q ≡ false → P q (measured q.rtt_min))
      → OfBest P (slowest_from primary best ps)
  unfolding slowest_from skips
  slowest_from-OfBest P primary best [] b h = b
  slowest_from-OfBest P primary best (p ∷ ps) b h =
      let best' = if skips primary p then best else better best p (measured p.rtt_min) in
      slowest_from-OfBest P primary best' ps
        (if_intro (OfBest P) (skips primary p) (λ e. b)
          λ e. better-OfBest P best p (measured p.rtt_min) b (h p (inl refl) e))
        λ q a s. h q (inr a) s

  -- There is a candidate, and its round trip is at most this.
  abbrev pub Below : Option (PathView F × ℤ) → ℤ → Type 0
  Below none n = ⊥
  Below (some (p, rtt)) n = rtt ≤ℤ n

  better-Below :
      (best : Option (PathView F × ℤ)) (p : PathView F) (rtt n : ℤ)
      → Below best n
      → Below (better best p rtt) n
  better-Below none p rtt n h = absurd h
  better-Below (some (q, slow)) p rtt n h =
      if_intro (λ o. Below o n) (ltb_ℤ rtt slow) (λ e. ground arith) (λ e. h)

  better-Below-own :
      (best : Option (PathView F × ℤ)) (p : PathView F) (rtt : ℤ) → Below (better best p rtt) rtt
  better-Below-own none p rtt = omega arith
  better-Below-own (some (q, slow)) p rtt =
      if_intro (λ o. Below o rtt) (ltb_ℤ rtt slow) (λ e. omega arith) (λ e. ground arith)

  -- The candidate of the loop is never given up for a slower one.
  kept :
      (primary : List (PathView F)) (best : Option (PathView F × ℤ)) (ps : List (PathView F))
      (n : ℤ)
      → Below best n
      → Below (slowest_from primary best ps) n
  unfolding slowest_from skips
  kept primary best [] n b = b
  kept primary best (p ∷ ps) n b =
      kept primary (if skips primary p then best else better best p (measured p.rtt_min)) ps n (
        if_intro (λ o. Below o n) (skips primary p) (λ e. b)
          λ e. better-Below best p (measured p.rtt_min) n b)

  -- It is at most as slow as any path that the loop does not skip.
  pub found :
      (primary : List (PathView F)) (best : Option (PathView F × ℤ)) (ps : List (PathView F))
      (q : PathView F)
      → Among q ps
      → skips primary q ≡ false
      → Below (slowest_from primary best ps) (measured q.rtt_min)
  unfolding slowest_from skips
  found primary best [] q a s = elim a [ ]
  found primary best (p ∷ ps) q a s =
      let best' = if skips primary p then best else better best p (measured p.rtt_min) in
      elim a [
        | inl here ↦
            subst (λ r. Below (slowest_from primary best' ps) (measured r.rtt_min)) here
              (kept primary best' ps (measured p.rtt_min) (
                if_intro (λ o. Below o (measured p.rtt_min)) (skips primary p)
                  (λ e. absurd (let f = subst (λ r. skips primary r ≡ true) here e in cc))
                  λ e. better-Below-own best p (measured p.rtt_min)))
        | inr later ↦ found primary best' ps q later s
      ]

  pub path_in-Among :
      (primary : List (PathView F)) (p : PathView F)
      → path_in primary p ≡ true
      → (q : PathView F) × Among q primary × (q.id ≡ p.id)
  unfolding path_in
  path_in-Among [] p h = absurd (ground arith)
  path_in-Among (q ∷ ps) p h = elim (Bool-cases (q.id == p.id)) [
    | inl e ↦ (q, inl refl, ground arith)
    | inr e ↦ (let (r, a, s) = path_in-Among ps p (ground arith) in (r, inr a, s))
  ]

  pub place_of :
      (ps : List (PathView F)) (q : PathView F)
      → Among q ps
      → (j : ℕ) × (j < length ps) × (get_elem? ps j ≡ some q)
  place_of [] q a = elim a [ ]
  place_of (p ∷ ps) q a = elim a [
    | inl e ↦ (0, omega arith, ap some e)
    | inr k ↦ (let (j, b, e) = place_of ps q k in (suc j, omega arith, e))
  ]

  -- A full turn that finds nothing has looked at every path.
  pub full_turn_blocks :
      (primary : List (PathView F)) (cursor : ℕ)
      → (0 < length primary → cursor < length primary)
      → ScanFound has_room primary cursor (length primary) 0 none
      → (q : PathView F) → Among q primary
      → has_room q ≡ false
  full_turn_blocks primary cursor low full q a =
      let (j, b, e) = place_of primary q a in
      let (t, s) = slot-turn (length primary) cursor j (low (omega arith)) b in
      let f = full (turn (length primary) cursor j) t in
      let at = from_zero (length primary) cursor (turn (length primary) cursor j) ∙ s in
      subst (λ o. holds o ≡ false) e (subst (λ m. passes has_room primary m ≡ false) at f)
    where
      holds : Option (PathView F) → Bool
      holds none = false
      holds (some p) = has_room p
