-- ===== src/Sched/Tiers.antt =====
-- core/sched/sched.go: the Scheduler interface, its four implementations by name, each with the
-- state that its Next keeps.
use Prim.Native.String.{String}
use text.Mathlib.Text.{◌==◌ as str_eq}
use bondify.Common.{ℕ, ◌||◌, Option, none, some, List, [], if◌then◌else◌}
use bondify.Common.Float.{Float}
use bondify.Sched.{PathView, next}
use bondify.Sched.Goodput.{weighted_next}
use bondify.Sched.MinRtt.{min_rtt_next}
use bondify.Sched.HolAware.{HolAware, new_hol_aware, hol_next}

pub data Scheduler (F : Type 0) : Type 0 where
  round_robin : ℕ → Scheduler F
  weighted_goodput : List (ℕ × F) → Scheduler F
  min_rtt_cwnd : ℕ → Scheduler F
  hol_aware : HolAware F → Scheduler F

module _ {F : Type 0} (fl : Float F) where
  abbrev pub new_round_robin : Scheduler F
  new_round_robin = round_robin 0

  -- New; none is the error.
  unfoldable pub new_scheduler : String → Option (Scheduler F)
  new_scheduler name =
      if str_eq name "" || str_eq name "round-robin"
      then some new_round_robin
      else if str_eq name "weighted-goodput"
      then some (weighted_goodput [])
      else if str_eq name "min-rtt-cwnd"
      then some (min_rtt_cwnd 0)
      else if str_eq name "hol-aware"
      then some (hol_aware (new_hol_aware fl))
      else none

  -- Next of the interface. No tier reads the packet's size.
  unfoldable pub sched_next : Scheduler F → List (PathView F) → Option (PathView F) × Scheduler F
  sched_next (round_robin cursor) ps = let (p, c) = next cursor ps in (p, round_robin c)
  sched_next (weighted_goodput weights) ps =
      let (p, w) = weighted_next fl weights ps in (p, weighted_goodput w)
  sched_next (min_rtt_cwnd cursor) ps =
      let (p, c) = min_rtt_next fl cursor ps in (p, min_rtt_cwnd c)
  sched_next (hol_aware h) ps = let (p, g) = hol_next fl h ps in (p, hol_aware g)
