-- ===== src/Budget.antt =====
-- core/classify/classify.go and core/budget/budget.go: traffic classes and their token buckets. `F`
-- stands for float64; an instant is its nanoseconds, and a clock reading is an argument. A nil
-- *Budget, which allows everything, is not a value here.
pub mod Buckets
pub mod Tests
use Prim.Native.String.{String}
use bondify.Common.{
  ℕ, Bool, true, false, not, Option, none, some, List, [], ◌∷◌, ltb, if◌then◌else◌,
}
use bondify.Common.Assoc.{lookup, insert}
use bondify.Common.Float.{Float}
use bondify.Common.Int.{ℤ, pos, ltb_ℤ, ◌-ℤ◌}

-- A class is its uint8.
abbrev pub latency : ℕ
latency = 0

abbrev pub realtime : ℕ
realtime = 1

abbrev pub interactive : ℕ
interactive = 2

abbrev pub bulk : ℕ
bulk = 3

unfoldable pub class_string : ℕ → String
class_string c =
    if ltb c 1
    then "LATENCY"
    else if ltb c 2
    then "REALTIME"
    else if ltb c 3
    then "INTERACTIVE"
    else if ltb c 4
    then "BULK"
    else "UNKNOWN"

pub record Config : Type 0 where
  pub latency_bps : ℤ
  pub realtime_bps : ℤ
  pub interactive_bps : ℤ
  pub bulk_bps : ℤ

abbrev pub unlimited : Config
unlimited = record {
  latency_bps = pos 0;
  realtime_bps = pos 0;
  interactive_bps = pos 0;
  bulk_bps = pos 0;
}

pub record Bucket (F : Type 0) : Type 0 where
  pub rate : F
  pub tokens : F
  pub cap : F
  pub last : ℕ

module _ {F : Type 0} (fl : Float F) where
  abbrev pub nought : F
  nought = fl.of_int (pos 0)

  -- New's `add`.
  unfoldable pub new_bucket : ℕ → ℤ → Bucket F
  new_bucket now bps =
      if not (ltb_ℤ (pos 0) bps)
      then record { rate = nought; tokens = nought; cap = nought; last = 0 }
      else record { rate = fl.of_int bps; tokens = fl.of_int bps; cap = fl.of_int bps; last = now }

  -- The four clock readings of New may differ; one serves for all.
  unfoldable pub new_budget : ℕ → Config → List (ℕ × Bucket F)
  new_budget now cfg =
      (latency, new_bucket now cfg.latency_bps)
      ∷ (realtime, new_bucket now cfg.realtime_bps)
      ∷ (interactive, new_bucket now cfg.interactive_bps)
      ∷ (bulk, new_bucket now cfg.bulk_bps)
      ∷ []

  abbrev pub elapsed_since : Bucket F → ℕ → F
  elapsed_since b now = fl.div (fl.of_int (pos now -ℤ pos b.last)) (fl.of_int (pos 1_000_000_000))

  abbrev pub capped : F → F → F
  capped cap tokens = if fl.lt cap tokens then cap else tokens

  unfoldable pub refill : Bucket F → ℕ → Bucket F
  refill b now =
      let elapsed = elapsed_since b now in
      if fl.lt nought elapsed
      then record b { tokens = capped b.cap (fl.add b.tokens (fl.mul elapsed b.rate)); last = now }
      else b

  -- Allow on a bucket with a rate: the answer and the bucket.
  unfoldable pub take_tokens : Bucket F → ℕ → Bool × Bucket F
  take_tokens b n =
      let need = fl.of_int (pos n) in
      if fl.lt b.tokens need then (false, b) else (true, record b { tokens = fl.sub b.tokens need })

  unfoldable pub allow_bucket :
      List (ℕ × Bucket F) → ℕ → ℕ → ℕ → Option (Bucket F) → Bool × List (ℕ × Bucket F)
  allow_bucket budget now c n none = (true, budget)
  allow_bucket budget now c n (some b) =
      if not (fl.lt nought b.rate)
      then (true, budget)
      else let (ok, b') = take_tokens (refill b now) n in (ok, insert c b' budget)

  unfoldable pub allow : List (ℕ × Bucket F) → ℕ → ℕ → ℕ → Bool × List (ℕ × Bucket F)
  unfolding allow_bucket
  allow budget now c n = allow_bucket budget now c n (lookup c budget)

  unfoldable pub remaining_in : ℕ → Option (Bucket F) → F
  remaining_in now none = nought
  remaining_in now (some b) =
      if not (fl.lt nought b.rate)
      then nought
      else capped b.cap (fl.add b.tokens (fl.mul (elapsed_since b now) b.rate))

  unfoldable pub remaining : List (ℕ × Bucket F) → ℕ → ℕ → F
  remaining budget now c = remaining_in now (lookup c budget)
