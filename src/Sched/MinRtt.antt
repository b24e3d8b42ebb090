-- ===== src/Sched/MinRtt.antt =====
-- core/sched/tier3_min_rtt_cwnd.go: Tier 3, the lowest round trip with room, rotating among ties.
use bondify.Common.{
  ℕ, ◌+◌, ◌%◌, ◌<◌, ◌≡◌, Option, none, some, List, [], ◌∷◌, arith, leb, ◌==◌, if◌then◌else◌, length,
  get_elem?,
}
use bondify.Common.Float.{Float}
use bondify.Common.Int.{ℤ}
use bondify.Sched.{PathView, is_eligible, eligible_paths}
use bondify.Sched.Ties.Fastest.{
  Usable, Least, Tied, keep-Usable, Usable-keep, fastest_rtt-Least, is_tied-Tied,
}
use bondify.Sched.Rotation.{get_elem?-present}
use bondify.Sched.Ties.{
  InLimits, some_tied, Among, fastest_rtt, is_tied, fastest_tied_set, Shrinks, get_elem?-Among,
  keep_sound,
}

module _ {F : Type 0} (fl : Float F) where
  -- The choice on the cursor, from the tied paths.
  unfoldable pub rotate : ℕ → List (PathView F) → Option (PathView F) × ℕ
  rotate cursor primary =
      let n = length primary in
      if n == 0
      then (none, cursor)
      else let start = if leb n cursor then 0 else cursor in
        (get_elem? primary start, (start + 1) % n)

  -- MinRTTCwnd.Next on its cursor.
  unfoldable pub min_rtt_next : ℕ → List (PathView F) → Option (PathView F) × ℕ
  min_rtt_next cursor ps =
      let elig = eligible_paths ps in
      if length elig == 0 then (none, cursor) else rotate cursor (fastest_tied_set fl elig).1

  rotation_picks :
      (cursor : ℕ) (primary : List (PathView F))
      → 0 < length primary
      → (p : PathView F) × ((rotate cursor primary).0 ≡ some p) × Among p primary
  unfolding rotate
  rotation_picks cursor primary n =
      let start = if leb (length primary) cursor then 0 else cursor in
      let (p, e) = get_elem?-present primary start (ground arith) in
      (p, ground arith, get_elem?-Among primary start p e)

  nonempty : (p : PathView F) (ps : List (PathView F)) → Among p ps → 0 < length ps
  nonempty p [] h = elim h [ ]
  nonempty p (q ∷ ps) h = omega arith

  -- A path that Next may return: ACTIVE, BOND and with room, and tied for the least round trip of all
  -- such paths.
  abbrev pub Fast : List (PathView F) → PathView F → Type 0
  Fast ps p = Usable ps p × ((m : ℤ) × Least (Usable ps) m × Tied fl m p)

  -- If some path is ACTIVE, of role BOND and has room, 0.15 of a duration is neither negative nor
  -- longer than it, and every measured round trip is below 2^61 ns, Next returns such a path, and its
  -- round trip is at most 15 %, or two milliseconds if that is more, above the least one of all such
  -- paths; where none of them has a measured round trip, it is any of them.
  pub min_rtt_next-Fast :
      (cursor : ℕ) (ps : List (PathView F)) (q : PathView F)
      → Shrinks fl
      → ((p : PathView F) → Among p ps → InLimits fl p)
      → Usable ps q
      → (p : PathView F) × ((min_rtt_next cursor ps).0 ≡ some p) × Fast ps p
  unfolding min_rtt_next eligible_paths fastest_tied_set
  min_rtt_next-Fast cursor ps q law range u =
      let elig = eligible_paths ps in
      let q' = Usable-keep ps q u in
      let limits =
        λ (p : PathView F) (a : Among p elig). range p (keep_sound is_eligible ps p a).0 in
      let (r, tied_r) = some_tied fl elig q law limits q' in
      let (p, e, t) =
        rotation_picks cursor (fastest_tied_set fl elig).1
          (nonempty r (fastest_tied_set fl elig).1 tied_r) in
      let (a, tied) = keep_sound (is_tied fl (fastest_rtt elig)) elig p t in
      let some' = nonempty q elig q' in
      (
        p,
        ground arith,
        (
          keep-Usable ps p a,
          (
            fastest_rtt elig,
            fastest_rtt-Least (Usable ps) elig (keep-Usable ps) (Usable-keep ps),
            is_tied-Tied fl (fastest_rtt elig) p tied,
          ),
        ),
      )
