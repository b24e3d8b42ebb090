-- ===== src/Budget/Buckets.antt =====
-- A bucket never holds more than its burst, one class does not touch another, and a class without a
-- rate is never refused.
use bondify.Common.{
  ℕ, ◌≡◌, refl, ◌∙◌, sym, subst, Bool, true, false, not, Option, none, some, List, ◌==◌, if_intro,
  arith,
}
use bondify.Common.Assoc.{lookup, insert, lookup-insert}
use bondify.Common.Float.{Float}
use bondify.Common.Int.{pos}
use bondify.Budget.{Bucket, nought, refill, take_tokens, allow_bucket, allow, elapsed_since}

module _ {F : Type 0} (fl : Float F) where
  -- The tokens do not exceed the burst.
  abbrev pub Capped : Bucket F → Type 0
  Capped b = fl.lt b.cap b.tokens ≡ false

  -- Of the float order: nothing is below itself, and taking a non-negative amount from a number that
  -- is not above a bound leaves it not above the bound.
  pub record Order : Type 0 where
    pub irreflexive : (x : F) → fl.lt x x ≡ false
    pub lessens :
        (bound x : F) (n : ℕ)
        → fl.lt bound x ≡ false
        → fl.lt bound (fl.sub x (fl.of_int (pos n))) ≡ false

  refill-Capped : Order → (b : Bucket F) (now : ℕ) → Capped b → Capped (refill fl b now)
  unfolding refill
  refill-Capped law b now h =
      let more = fl.add b.tokens (fl.mul (elapsed_since fl b now) b.rate) in
      if_intro Capped (fl.lt (nought fl) (elapsed_since fl b now))
        (λ e.
          if_intro (λ t. fl.lt b.cap t ≡ false) (fl.lt b.cap more) (λ f. law.irreflexive b.cap)
            λ f. f)
        λ e. h

  take-Capped : Order → (b : Bucket F) (n : ℕ) → Capped b → Capped (take_tokens fl b n).1
  unfolding take_tokens
  take-Capped law b n h =
      if_intro (λ (r : Bool × Bucket F). Capped r.1) (fl.lt b.tokens (fl.of_int (pos n))) (λ e. h)
        λ e. law.lessens b.cap b.tokens n h

  abbrev pub AllCapped : List (ℕ × Bucket F) → Type 0
  AllCapped budget = (c : ℕ) (b : Bucket F) → lookup c budget ≡ some b → Capped b

  inner : (b b' : Bucket F) → some b ≡ some b' → b ≡ b'
  inner b b' g = cc

  rated :
      (b b' : Bucket F)
      → some b ≡ some b'
      → not (fl.lt (nought fl) b.rate) ≡ false
      → fl.lt (nought fl) b'.rate ≡ false
      → ⊥
  rated b b' g f r =
      let r' = subst (λ (x : Bucket F). fl.lt (nought fl) x.rate ≡ false) (sym (inner b b' g)) r in
      ground arith

  insert-AllCapped :
      (budget : List (ℕ × Bucket F)) (c : ℕ) (b : Bucket F)
      → AllCapped budget
      → Capped b
      → AllCapped (insert c b budget)
  insert-AllCapped budget c b all h d b' e =
      if_intro (λ o. o ≡ some b' → Capped b') (c == d) (λ f g. subst Capped (inner b b' g) h)
        (λ f g. all d b' g) (sym (lookup-insert c d b budget) ∙ e)

  -- What Allow comes to for a bucket that is there or not.
  pub record Allowed (budget : List (ℕ × Bucket F)) (c : ℕ) (r : Bool × List (ℕ × Bucket F))
      : Type 0 where
    pub capped_still : AllCapped r.1
    pub others : (d : ℕ) → (c == d) ≡ false → lookup d r.1 ≡ lookup d budget
    pub free :
        (b : Bucket F)
        → lookup c budget ≡ some b
        → fl.lt (nought fl) b.rate ≡ false
        → r ≡ (true, budget)

  -- If taking from a number does not raise it in the float order, and every bucket is within its
  -- burst, Allow keeps them so, leaves the buckets of the other classes as they are, and lets a class
  -- without a rate send anything without touching the budget.
  pub allow-Allowed :
      (budget : List (ℕ × Bucket F)) (now c n : ℕ)
      → Order
      → AllCapped budget
      → Allowed budget c (allow fl budget now c n)
  unfolding allow
  allow-Allowed budget now c n law all = by_bucket (lookup c budget) refl
    where
      by_bucket :
          (o : Option (Bucket F))
          → lookup c budget ≡ o
          → Allowed budget c (allow_bucket fl budget now c n o)
      by_bucket none e =
          unfold allow_bucket in
          record { capped_still = all; others = λ d f. refl; free = λ b g r. refl }
      by_bucket (some b) e =
          unfold allow_bucket in
          if_intro (Allowed budget c) (not (fl.lt (nought fl) b.rate))
            (λ f. record { capped_still = all; others = λ d g. refl; free = λ b' g r. refl })
            λ f.
              let taken = take_tokens fl (refill fl b now) n in
              record {
                capped_still =
                    insert-AllCapped budget c taken.1 all
                      (take-Capped law (refill fl b now) n (refill-Capped law b now (all c b e)));
                others = λ d g. lookup-insert c d taken.1 budget ∙ rw g refl;
                free = λ b' g r. absurd (rated b b' (sym e ∙ g) f r);
              }
