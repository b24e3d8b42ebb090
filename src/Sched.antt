-- ===== src/Sched.antt =====
-- core/sched/sched.go: the paths a scheduler sees, the eligibility tests and Tier 1, round
-- robin; the other tiers are the children. A scheduler's mutex makes Next one function. `F` stands for float64; in_flight, cwnd and rtt_min are int64.
pub mod Rotation
pub mod Fairness
pub mod Ties
pub mod MinRtt
pub mod HolAware
pub mod Goodput
pub mod Tiers
pub mod Tests
use Prim.Native.String.{String}
use bondify.Common.{
  ℕ, zero, suc, ◌+◌, ◌%◌, Bool, true, false, ◌&&◌, Option, none, some, List, [], ◌∷◌, leb, ◌==◌,
  if◌then◌else◌, length, get_elem?,
}
use bondify.Common.Int.{ℤ, ltb_ℤ}

pub data State : Type 0 where
  joining active degraded dead : State

pub data Role : Type 0 where
  bond backup disabled : Role

unfoldable pub state_string : State → String
state_string joining = "JOINING"
state_string active = "ACTIVE"
state_string degraded = "DEGRADED"
state_string dead = "DEAD"

unfoldable pub role_string : Role → String
role_string bond = "BOND"
role_string backup = "BACKUP"
role_string disabled = "DISABLED"

abbrev pub is_active : State → Bool
is_active active = true
is_active joining = false
is_active degraded = false
is_active dead = false

abbrev pub is_bond : Role → Bool
is_bond bond = true
is_bond backup = false
is_bond disabled = false

-- A snapshot of what the Path interface reports.
pub record PathView (F : Type 0) : Type 0 where
  pub id : ℕ
  pub state : State
  pub role : Role
  pub in_flight : ℤ
  pub cwnd : ℤ
  pub rtt_min : ℤ
  pub goodput : F

-- `cursor = idx + 1; if cursor >= n { cursor = 0 }`
abbrev pub past : ℕ → ℕ → ℕ
past n idx = if leb n (idx + 1) then 0 else idx + 1

module _ {F : Type 0} where
  abbrev pub has_room : PathView F → Bool
  has_room p = ltb_ℤ p.in_flight p.cwnd

  abbrev pub in_bond : PathView F → Bool
  in_bond p = is_active p.state && is_bond p.role

  abbrev pub is_eligible : PathView F → Bool
  is_eligible p = in_bond p && has_room p

  -- The loop that the two filters share.
  unfoldable pub keep : (PathView F → Bool) → List (PathView F) → List (PathView F)
  keep test [] = []
  keep test (p ∷ ps) = let rest = keep test ps in if test p then p ∷ rest else rest

  unfoldable pub eligible_paths : List (PathView F) → List (PathView F)
  eligible_paths ps = keep is_eligible ps

  unfoldable pub active_bond_paths : List (PathView F) → List (PathView F)
  active_bond_paths ps = keep in_bond ps

  abbrev pub try_path :
      (PathView F → Bool)
      → ℕ
      → Option (PathView F)
      → Option (ℕ × PathView F)
      → Option (ℕ × PathView F)
  try_path test idx none rest = none
  try_path test idx (some p) rest = if test p then some (idx, p) else rest

  -- `for i := ...; i < n; i++` over `paths[(cursor+i) % n]`: the first path that passes the test,
  -- with its index. The last two arguments are the rounds left and `i`.
  unfoldable pub scan :
      (PathView F → Bool) → List (PathView F) → ℕ → ℕ → ℕ → Option (ℕ × PathView F)
  scan test ps cursor zero i = none
  scan test ps cursor (suc left) i =
      let rest = scan test ps cursor left (i + 1) in
      let idx = (cursor + i) % length ps in try_path test idx (get_elem? ps idx) rest

  -- RoundRobin.Next on its cursor.
  unfoldable pub next : ℕ → List (PathView F) → Option (PathView F) × ℕ
  next cursor ps =
      if length ps == 0 then (none, cursor) else elim (scan is_eligible ps cursor (length ps) 0) [
        | none ↦ (none, cursor)
        | some (idx, p) ↦ (some p, past (length ps) idx)
      ]
