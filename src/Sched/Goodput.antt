-- ===== src/Sched/Goodput.antt =====
-- core/sched/tier2_weighted_goodput.go: Tier 2, smooth weighted round robin. Missing map entries
-- read as zero.
use bondify.Common.{
  ℕ, ◌<◌, ◌≡◌, refl, Bool, true, false, ◌&&◌, ◌||◌, not, Option, none, some, List, [], ◌∷◌, arith,
  ◌==◌, if◌then◌else◌, length, if_intro, inl, inr, ◌⊎◌, Bool-cases,
}
use bondify.Common.Assoc.{lookup, insert}
use bondify.Common.Float.{Float}
use bondify.Common.Int.{pos}
use bondify.Sched.{PathView, is_eligible, eligible_paths}
use bondify.Sched.Ties.{Among, keep_sound, keep_complete}

-- The running maximum: `best`, `bestCW`, `totalWeight` and the map.
pub record Tally (F : Type 0) : Type 0 where
  pub weights : List (ℕ × F)
  pub total : F
  pub best : Option (PathView F × F)

module _ {F : Type 0} (fl : Float F) where
  abbrev pub float_zero : F
  float_zero = fl.of_int (pos 0)

  abbrev pub is_positive : F → Bool
  is_positive x = fl.lt float_zero x

  -- The first loop, from the value of `minGoodput` so far. `minGoodput == 0` holds until a positive
  -- sample is stored.
  unfoldable pub min_goodput_from : F → List (PathView F) → F
  min_goodput_from acc [] = acc
  min_goodput_from acc (p ∷ ps) =
      min_goodput_from
        (if is_positive p.goodput && (not (is_positive acc) || fl.lt p.goodput acc)
          then p.goodput
          else acc)
        ps

  unfoldable pub weight_of : F → PathView F → F
  weight_of least p =
      if not (is_positive least) || not (is_positive p.goodput)
      then fl.ratio 1 1
      else fl.div p.goodput least

  abbrev pub weight_at : List (ℕ × F) → ℕ → F
  weight_at weights id = elim (lookup id weights) [ none ↦ float_zero | some w ↦ w ]

  abbrev pub heavier : Option (PathView F × F) → PathView F → F → Option (PathView F × F)
  heavier none p cw = some (p, cw)
  heavier (some (q, top)) p cw = if fl.lt top cw then some (p, cw) else some (q, top)

  -- The second loop.
  unfoldable pub tally : F → Tally F → List (PathView F) → Tally F
  tally least t [] = t
  tally least t (p ∷ ps) =
      let wt = weight_of least p in
      let cw = fl.add (weight_at t.weights p.id) wt in
      tally least
        (record {
          weights = insert p.id cw t.weights;
          total = fl.add t.total wt;
          best = heavier t.best p cw;
        })
        ps

  abbrev pub debit :
      Tally F → List (ℕ × F) → Option (PathView F × F) → Option (PathView F) × List (ℕ × F)
  debit t weights none = (none, weights)
  debit t weights (some (p, top)) =
      (some p, insert p.id (fl.sub (weight_at weights p.id) t.total) weights)

  -- WeightedGoodput.Next on its map. The loop leaves a best path, as there is an eligible one.
  unfoldable pub weighted_next :
      List (ℕ × F) → List (PathView F) → Option (PathView F) × List (ℕ × F)
  weighted_next weights ps =
      let elig = eligible_paths ps in
      if length elig == 0
      then (none, weights)
      else let least = min_goodput_from float_zero elig in
        let t = tally least (record { weights = weights; total = float_zero; best = none }) elig in
        debit t t.weights t.best

  -- The best path so far, if there is one, stands in the list.
  abbrev BestIn : List (PathView F) → Option (PathView F × F) → Type 0
  BestIn all none = Unit
  BestIn all (some (p, top)) = Among p all

  heavier-BestIn :
      (all : List (PathView F)) (best : Option (PathView F × F)) (p : PathView F) (cw : F)
      → BestIn all best
      → Among p all
      → BestIn all (heavier best p cw)
  heavier-BestIn all none p cw b a = a
  heavier-BestIn all (some (q, top)) p cw b a = if_intro (BestIn all) (fl.lt top cw) (λ e. a) λ e. b

  tally-BestIn :
      (least : F) (all : List (PathView F)) (t : Tally F) (ps : List (PathView F))
      → ((p : PathView F) → Among p ps → Among p all)
      → BestIn all t.best
      → BestIn all (tally least t ps).best
  unfolding tally
  tally-BestIn least all t [] inside b = b
  tally-BestIn least all t (p ∷ ps) inside b =
      let wt = weight_of least p in
      let cw = fl.add (weight_at t.weights p.id) wt in
      tally-BestIn least all
        (record {
          weights = insert p.id cw t.weights;
          total = fl.add t.total wt;
          best = heavier t.best p cw;
        })
        ps (λ q a. inside q (inr a)) (heavier-BestIn all t.best p cw b (inside p (inl refl)))

  abbrev IsSome : Option (PathView F × F) → Type 0
  IsSome o = (d : PathView F × F) × (o ≡ some d)

  heavier-IsSome :
      (best : Option (PathView F × F)) (p : PathView F) (cw : F) → IsSome (heavier best p cw)
  heavier-IsSome none p cw = ((p, cw), refl)
  heavier-IsSome (some (q, top)) p cw =
      if_intro IsSome (fl.lt top cw) (λ e. ((p, cw), refl)) λ e. ((q, top), refl)

  tally-IsSome :
      (least : F) (t : Tally F) (ps : List (PathView F))
      → (0 < length ps) ⊎ IsSome t.best
      → IsSome (tally least t ps).best
  unfolding tally
  tally-IsSome least t [] (inl h) = absurd (omega arith)
  tally-IsSome least t [] (inr h) = h
  tally-IsSome least t (p ∷ ps) h =
      let wt = weight_of least p in
      let cw = fl.add (weight_at t.weights p.id) wt in
      tally-IsSome least
        (record {
          weights = insert p.id cw t.weights;
          total = fl.add t.total wt;
          best = heavier t.best p cw;
        })
        ps (inr (heavier-IsSome t.best p cw))

  -- What Next comes to: an eligible path, or none if there is no eligible one.
  abbrev pub Weighed : List (PathView F) → Option (PathView F) → Type 0
  Weighed ps none = (p : PathView F) → Among p ps → is_eligible p ≡ false
  Weighed ps (some p) = Among p ps × (is_eligible p ≡ true)

  debit-Weighed :
      (ps : List (PathView F)) (t : Tally F) (best : Option (PathView F × F))
      → IsSome best
      → BestIn (eligible_paths ps) best
      → Weighed ps (debit t t.weights best).0
  unfolding eligible_paths
  debit-Weighed ps t none (d, e) b = absurd (ground arith)
  debit-Weighed ps t (some (p, top)) s b = keep_sound is_eligible ps p b

  nothing_eligible :
      (ps : List (PathView F))
      → length (eligible_paths ps) ≡ 0
      → (p : PathView F) → Among p ps
      → is_eligible p ≡ false
  unfolding eligible_paths
  nothing_eligible ps e p a = elim (Bool-cases (is_eligible p)) [
    | inr e' ↦ e'
    | inl e' ↦ absurd (vacant (eligible_paths ps) e (keep_complete is_eligible ps p a e'))
  ]
    where
      vacant : (qs : List (PathView F)) → length qs ≡ 0 → Among p qs → ⊥
      vacant [] e a = a
      vacant (q ∷ qs) e a = absurd (omega arith)

  -- WeightedGoodput.Next returns an eligible path, and none only if no path is eligible, whatever
  -- the goodput samples and the accumulated weights.
  pub weighted_next-Weighed :
      (weights : List (ℕ × F)) (ps : List (PathView F)) → Weighed ps (weighted_next weights ps).0
  unfolding weighted_next
  weighted_next-Weighed weights ps =
      let elig = eligible_paths ps in
      if_intro (λ (r : Option (PathView F) × List (ℕ × F)). Weighed ps r.0) (length elig == 0)
        (λ e. nothing_eligible ps (ground arith))
        λ e.
          let least = min_goodput_from float_zero elig in
          let start : Tally F = record { weights = weights; total = float_zero; best = none } in
          let t = tally least start elig in
          debit-Weighed ps t t.best (tally-IsSome least start elig (inl (ground arith)))
            (tally-BestIn least elig start elig (λ p a. a) tt)
