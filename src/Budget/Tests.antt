-- ===== src/Budget/Tests.antt =====
-- A concrete budget: core/budget/budget.go. Floats are thousandths.
use bondify.Common.{ℕ, List, [], ◌∷◌, arith}
use bondify.Common.Assoc.{lookup}
use bondify.Common.Float.{thousandths}
use bondify.Budget.{Bucket, bulk, allow}
use bondify.Budget.Buckets.{Order, AllCapped, Allowed, allow-Allowed}

abbrev bucket : Bucket ℕ
bucket = record { rate = 500_000; tokens = 200_000; cap = 500_000; last = 0 }

abbrev budget : List (ℕ × Bucket ℕ)
budget = (bulk, bucket) ∷ []

order : Order thousandths
order = record { irreflexive = λ x. ground arith; lessens = λ bound x n h. ground arith }

within : AllCapped thousandths budget
unfolding lookup
within c b e = ground arith

allow-Allowed_example :
    Allowed thousandths budget bulk (allow thousandths budget 1_000_000_000 bulk 300)
allow-Allowed_example = allow-Allowed thousandths budget 1_000_000_000 bulk 300 order within
