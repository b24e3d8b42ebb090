-- ===== src/Sched/HolAware.antt =====
-- core/sched/tier4_hol_aware.go: Tier 4, which may wait for a fast path instead of using a slow one.
pub mod Candidate
pub mod Choice
pub mod Strictness
use bondify.Common.{
  ℕ, zero, suc, ◌+◌, ◌^◌, Bool, true, false, ◌&&◌, ◌||◌, not, Option, none, some, List, [], ◌∷◌,
  ltb, leb, ◌==◌, if◌then◌else◌, length,
}
use bondify.Common.Float.{Float}
use bondify.Common.Int.{ℤ, pos, ltb_ℤ}
use bondify.Sched.{PathView, has_room, in_bond, active_bond_paths, scan, past}
use bondify.Sched.Ties.{unmeasured_rtt, measured, path_in, fastest_tied_set}

pub record HolAware (F : Type 0) : Type 0 where
  pub lambda : F
  pub cursor : ℕ

module _ {F : Type 0} where
  abbrev pub better : Option (PathView F × ℤ) → PathView F → ℤ → Option (PathView F × ℤ)
  better none p rtt = some (p, rtt)
  better (some (q, slow)) p rtt = if ltb_ℤ rtt slow then some (p, rtt) else some (q, slow)

  -- The slow path's loop: the candidate so far, with its round trip.
  unfoldable pub slowest_from :
      List (PathView F) → Option (PathView F × ℤ) → List (PathView F) → Option (PathView F × ℤ)
  slowest_from primary best [] = best
  slowest_from primary best (p ∷ ps) =
      slowest_from primary
        (if path_in primary p || not (has_room p) then best else better best p (measured p.rtt_min))
        ps

module _ {F : Type 0} (fl : Float F) where
  abbrev pub lambda_init : F
  lambda_init = fl.ratio 1 1

  abbrev pub lambda_min : F
  lambda_min = fl.ratio 5 10

  abbrev pub lambda_max : F
  lambda_max = fl.ratio 4 1

  abbrev pub new_hol_aware : HolAware F
  new_hol_aware = record { lambda = lambda_init; cursor = 0 }

  unfoldable pub decay : HolAware F → HolAware F
  decay h =
      let scaled = fl.mul h.lambda (fl.ratio 98 100) in
      record h { lambda = if fl.lt scaled lambda_min then lambda_min else scaled }

  unfoldable pub raise : HolAware F → HolAware F
  raise h =
      let scaled = fl.mul h.lambda (fl.ratio 115 100) in
      record h { lambda = if fl.lt lambda_max scaled then lambda_max else scaled }

  abbrev pub projected_slow : HolAware F → ℤ → ℤ
  projected_slow h slow_rtt = fl.to_int (fl.mul h.lambda (fl.of_int slow_rtt))

  -- Next from the point where no tied path has room.
  unfoldable pub use_slow :
      HolAware F → ℤ → Option (PathView F × ℤ) → Option (PathView F) × HolAware F
  use_slow h fastest none = (none, h)
  use_slow h fastest (some (slow, slow_rtt)) =
      if not (ltb_ℤ fastest unmeasured_rtt)
      then (some slow, decay h)
      else if not (ltb_ℤ fastest (projected_slow h slow_rtt))
      then (some slow, decay h)
      else (none, raise h)

  -- `if h.cursor >= n { h.cursor = 0 }`, under `n > 0`
  abbrev pub rewound : HolAware F → ℕ → HolAware F
  rewound h n = if ltb 0 n && leb n h.cursor then record h { cursor = 0 } else h

  unfoldable pub send_tied :
      HolAware F
      → ℕ
      → ℤ
      → Option (PathView F × ℤ)
      → Option (ℕ × PathView F)
      → Option (PathView F) × HolAware F
  send_tied h n fastest slow none = use_slow h fastest slow
  send_tied h n fastest slow (some (idx, p)) = (some p, decay (record h { cursor = past n idx }))

  -- The loop over the tied paths runs no round when there are none.
  unfoldable pub hol_next : HolAware F → List (PathView F) → Option (PathView F) × HolAware F
  hol_next h ps =
      let bond = active_bond_paths ps in
      if length bond == 0
      then (none, h)
      else let (fastest, primary) = fastest_tied_set fl bond in
        let n = length primary in
        let h' = rewound h n in
        let slow = slowest_from primary none bond in
        send_tied h' n fastest slow (scan has_room primary h'.cursor n 0)
