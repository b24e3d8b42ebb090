-- ===== src/Sched/Tests.antt =====
-- Concrete paths for the four schedulers: core/sched. Floats are thousandths.
use bondify.Common.{ℕ, ◌≡◌, sym, ap, ◌∙◌, refl, some, List, [], ◌∷◌, arith, inl, inr, subst}
use bondify.Common.Float.{thousandths}
use bondify.Common.Int.{pos}
use bondify.Sched.{PathView, active, degraded, bond, next}
use bondify.Sched.Fairness.{Picked, Served, next-Picked, no_starvation}
use bondify.Sched.Ties.{Among, Shrinks, InLimits}
use bondify.Sched.MinRtt.{min_rtt_next, Fast, min_rtt_next-Fast}
use bondify.Sched.Goodput.{Weighed, weighted_next, weighted_next-Weighed}
use bondify.Sched.HolAware.{new_hol_aware, hol_next}
use bondify.Sched.HolAware.Strictness.{InBounds, Scaling, hol_next-InBounds}
use bondify.Sched.HolAware.Choice.{Chosen, DistinctIds, hol_next-Chosen}

-- A fast path that is full, a slow one with room, and one that is degraded.
abbrev fast : PathView ℕ
fast = record {
  id = 0;
  state = active;
  role = bond;
  in_flight = pos 100;
  cwnd = pos 100;
  rtt_min = pos 15_000_000;
  goodput = 5000;
}

abbrev slow : PathView ℕ
slow = record {
  id = 1;
  state = active;
  role = bond;
  in_flight = pos 0;
  cwnd = pos 100;
  rtt_min = pos 200_000_000;
  goodput = 2000;
}

abbrev down : PathView ℕ
down = record {
  id = 2;
  state = degraded;
  role = bond;
  in_flight = pos 0;
  cwnd = pos 100;
  rtt_min = pos 0;
  goodput = 0;
}

abbrev paths : List (PathView ℕ)
paths = fast ∷ slow ∷ down ∷ []

next-Picked_example : Picked 2 paths (next 2 paths).0 (next 2 paths).1
next-Picked_example = next-Picked 2 paths (omega arith)

no_starvation_example : Served 1 2 (paths ∷ paths ∷ paths ∷ [])
no_starvation_example =
    no_starvation 1 3 2 (paths ∷ paths ∷ paths ∷ [])
      ((refl, refl), ((refl, refl), ((refl, refl), tt))) (omega arith) (omega arith) (omega arith)

weighted_next-Weighed_example : Weighed thousandths paths (weighted_next thousandths [] paths).0
weighted_next-Weighed_example = weighted_next-Weighed thousandths [] paths

shrinks : Shrinks thousandths
shrinks n = omega arith

limits : (p : PathView ℕ) → Among p paths → InLimits thousandths p
limits p (inl e) = subst (InLimits thousandths) e (inr (15_000_000, refl, omega arith))
limits p (inr (inl e)) = subst (InLimits thousandths) e (inr (200_000_000, refl, omega arith))
limits p (inr (inr (inl e))) = subst (InLimits thousandths) e (inl refl)
limits p (inr (inr (inr e))) = elim e [ ]

min_rtt_next-Fast_example :
    (p : PathView ℕ) × ((min_rtt_next thousandths 0 paths).0 ≡ some p) × Fast thousandths paths p
min_rtt_next-Fast_example =
    min_rtt_next-Fast thousandths 0 paths slow shrinks limits
      ((inr (inl refl), refl, refl), λ h. omega arith)

start_bounds : InBounds thousandths (new_hol_aware thousandths)
start_bounds = (refl, refl)

scaling : Scaling thousandths
scaling = record {
  shrinks = λ h b. ground arith;
  grows = λ h b. ground arith;
  irreflexive = λ x. ground arith;
  apart = refl;
}

hol_next-InBounds_example :
    InBounds thousandths (hol_next thousandths (new_hol_aware thousandths) paths).1
hol_next-InBounds_example =
    hol_next-InBounds thousandths (new_hol_aware thousandths) paths scaling start_bounds

abbrev path_id : PathView ℕ → ℕ
path_id p = p.id

distinct : DistinctIds thousandths paths
distinct p q (inl a) (inl b) e = sym a ∙ b
distinct p q (inl a) (inr (inl b)) e =
    absurd (let i = ap path_id a in let j = ap path_id b in omega arith)
distinct p q (inl a) (inr (inr (inl b))) e =
    absurd (let i = ap path_id a in let j = ap path_id b in omega arith)
distinct p q (inl a) (inr (inr (inr b))) e = elim b [ ]
distinct p q (inr (inl a)) (inl b) e =
    absurd (let i = ap path_id a in let j = ap path_id b in omega arith)
distinct p q (inr (inl a)) (inr (inl b)) e = sym a ∙ b
distinct p q (inr (inl a)) (inr (inr (inl b))) e =
    absurd (let i = ap path_id a in let j = ap path_id b in omega arith)
distinct p q (inr (inl a)) (inr (inr (inr b))) e = elim b [ ]
distinct p q (inr (inr (inl a))) (inl b) e =
    absurd (let i = ap path_id a in let j = ap path_id b in omega arith)
distinct p q (inr (inr (inl a))) (inr (inl b)) e =
    absurd (let i = ap path_id a in let j = ap path_id b in omega arith)
distinct p q (inr (inr (inl a))) (inr (inr (inl b))) e = sym a ∙ b
distinct p q (inr (inr (inl a))) (inr (inr (inr b))) e = elim b [ ]
distinct p q (inr (inr (inr a))) b e = elim a [ ]

hol_next-Chosen_example :
    Chosen thousandths
      (new_hol_aware thousandths)
      paths
      (hol_next thousandths (new_hol_aware thousandths) paths).0
      (hol_next thousandths (new_hol_aware thousandths) paths).1
hol_next-Chosen_example = hol_next-Chosen thousandths (new_hol_aware thousandths) paths distinct
