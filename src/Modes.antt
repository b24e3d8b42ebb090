-- ===== src/Modes.antt =====
-- core/bond/mode.go: the sending modes, and the choice of paths in REDUNDANT mode and for parity.
-- A Mode is its number. RTTMin also drops old samples of each path that it is asked of, which
-- changes none of its later answers.
pub mod Redundant
pub mod Tests
use Prim.Native.String.{String}
use text.Mathlib.Text.{◌==◌ as str_eq}
use bondify.Common.{
  ℕ, Bool, ◌&&◌, ◌||◌, not, Option, none, some, List, [], ◌∷◌, ◌==◌, if◌then◌else◌, take,
}
use bondify.Common.Float.{Float}
use bondify.Common.Int.{ℤ, ltb_ℤ}
use bondify.Congestion.{float_zero}
use bondify.Sched.{is_active, is_bond}
use bondify.Sched.Ties.{measured}
use bondify.BondPath.{BondPath, rtt_min}

abbrev pub mode_speed : ℕ
mode_speed = 0

abbrev pub mode_redundant : ℕ
mode_redundant = 1

unfoldable pub mode_string : ℕ → String
mode_string m =
    if m == mode_speed then "SPEED" else if m == mode_redundant then "REDUNDANT" else "UNKNOWN"

-- None is the error.
unfoldable pub mode_from_string : String → Option ℕ
mode_from_string s =
    if str_eq s "" || str_eq s "speed"
    then some mode_speed
    else if str_eq s "redundant"
    then some mode_redundant
    else none

abbrev pub dup_factor : ℕ
dup_factor = 2

module _ {F : Type 0} where
  abbrev pub is_usable : BondPath F → Bool
  is_usable p = is_active p.state && is_bond p.role

  abbrev pub can_take : BondPath F → Bool
  can_take p = is_usable p && ltb_ℤ p.inflight p.cc.cwnd

  -- The loop that collects the eligible paths.
  unfoldable pub collect : (BondPath F → Bool) → List (BondPath F) → List (BondPath F)
  collect test [] = []
  collect test (p ∷ ps) = let rest = collect test ps in if test p then p ∷ rest else rest

  -- RTTMin, with MaxInt64 for a path with no round trip yet.
  abbrev pub rank : ℤ → BondPath F → ℤ
  rank now p = measured (rtt_min now p).0

  unfoldable pub place : ℤ → BondPath F → List (BondPath F) → List (BondPath F)
  place now p [] = p ∷ []
  place now p (q ∷ qs) =
      let rest = place now p qs in if ltb_ℤ (rank now q) (rank now p) then q ∷ rest else p ∷ q ∷ qs

  -- sort.Slice by rank. Go leaves the order of equals open; here they keep theirs.
  unfoldable pub sort_by_rank : ℤ → List (BondPath F) → List (BondPath F)
  sort_by_rank now [] = []
  sort_by_rank now (p ∷ ps) = place now p (sort_by_rank now ps)

  unfoldable pub select_redundant_paths : ℤ → List (BondPath F) → ℕ → List (BondPath F)
  select_redundant_paths now ps n = take n (sort_by_rank now (collect can_take ps))

module _ {F : Type 0} (fl : Float F) where
  -- `loss < bestLoss || (loss == bestLoss && rtt < bestRTT)`; equal is neither less nor greater.
  abbrev pub is_healthier : ℤ → BondPath F → BondPath F → Bool
  is_healthier now p best =
      fl.lt p.loss_ewma best.loss_ewma
      || (not (fl.lt best.loss_ewma p.loss_ewma) && ltb_ℤ (rank now p) (rank now best))

  abbrev pub healthier : ℤ → Option (BondPath F) → BondPath F → Option (BondPath F)
  healthier now none p = some p
  healthier now (some best) p = if is_healthier now p best then some p else some best

  -- The loop, from the best path so far.
  unfoldable pub healthiest_from : ℤ → Option (BondPath F) → List (BondPath F) → Option (BondPath F)
  healthiest_from now best [] = best
  healthiest_from now best (p ∷ ps) =
      healthiest_from now (if not (is_usable p) then best else healthier now best p) ps

  unfoldable pub healthiest_path : ℤ → List (BondPath F) → Option (BondPath F)
  unfolding healthiest_from
  healthiest_path now ps = healthiest_from now none ps

  -- The loop of fecLossEstimate (client.go and relay.go), from the greatest loss so far.
  unfoldable pub worst_loss_from : F → List (BondPath F) → F
  worst_loss_from worst [] = worst
  worst_loss_from worst (p ∷ ps) =
      worst_loss_from (if is_usable p && fl.lt worst p.loss_ewma then p.loss_ewma else worst) ps

  unfoldable pub fec_loss_estimate : List (BondPath F) → F
  unfolding worst_loss_from
  fec_loss_estimate ps = worst_loss_from (float_zero fl) ps
