-- ===== src/Sched/Rotation.antt =====
-- The rotation loop of sched.go and tier4_hol_aware.go: what it finds, and when it finds nothing.
use bondify.Common.{
  ℕ, zero, suc, ◌+◌, ◌-◌, ◌%◌, ◌<◌, ◌≡◌, refl, ◌∙◌, subst, ltb, sym, Bool, true, false, Option,
  none, some, List, [], ◌∷◌, arith, if◌then◌else◌, length, get_elem?, inl, inr, Bool-cases,
  if_intro,
}
use native.Mathlib.Nat.{mod-lt, mod-eq_of_lt, mod-eq-sub-mod}
use bondify.Sched.{PathView, scan, try_path}

pub get_elem?-present {ℓ} :
    {A : Type ℓ} (xs : List A) (i : ℕ) → i < length xs → (x : A) × (get_elem? xs i ≡ some x)
get_elem?-present [] i h = absurd (omega arith)
get_elem?-present (x ∷ xs) zero h = (x, refl)
get_elem?-present (x ∷ xs) (suc i) h = get_elem?-present xs i (omega arith)

-- Does the path at an index pass the test?
abbrev pub passes : {F : Type 0} → (PathView F → Bool) → List (PathView F) → ℕ → Bool
passes test ps i = elim (get_elem? ps i) [ none ↦ false | some p ↦ test p ]

module _ {F : Type 0} (test : PathView F → Bool) (ps : List (PathView F)) (cursor : ℕ) where
  -- The index of the path looked at in round `i`.
  abbrev pub slot : ℕ → ℕ
  slot i = (cursor + i) % length ps

  -- The first of the rounds from `i` on whose path passes.
  pub record Found (left i idx : ℕ) (p : PathView F) : Type 0 where
    pub round : ℕ
    pub bound : round < left
    pub place : idx ≡ slot (i + round)
    pub entry : get_elem? ps idx ≡ some p
    pub good : test p ≡ true
    pub skipped : (k : ℕ) → k < round → passes test ps (slot (i + k)) ≡ false

  abbrev pub ScanFound : ℕ → ℕ → Option (ℕ × PathView F) → Type 0
  ScanFound left i none = (k : ℕ) → k < left → passes test ps (slot (i + k)) ≡ false
  ScanFound left i (some (idx, p)) = Found left i idx p

  fails_later :
      (f : ℕ → Bool) (left i : ℕ)
      → f i ≡ false
      → ((k : ℕ) → k < left → f (i + 1 + k) ≡ false)
      → (k : ℕ) → k < suc left
      → f (i + k) ≡ false
  fails_later f left i e h zero b = subst (λ m. f m ≡ false) (omega arith) e
  fails_later f left i e h (suc k) b = subst (λ m. f m ≡ false) (omega arith) (h k (omega arith))

  later :
      (left i : ℕ) (r : Option (ℕ × PathView F))
      → passes test ps (slot i) ≡ false
      → ScanFound left (i + 1) r
      → ScanFound (suc left) i r
  later left i none f h = fails_later (λ m. passes test ps (slot m)) left i f h
  later left i (some (idx, p)) f h = record {
    round = suc h.round;
    bound = omega (arith, h.bound);
    place = subst (λ m. idx ≡ slot m) (omega arith) h.place;
    entry = h.entry;
    good = h.good;
    skipped = fails_later (λ m. passes test ps (slot m)) h.round i f h.skipped;
  }

  pub scan-Found : (left i : ℕ) → 0 < length ps → ScanFound left i (scan test ps cursor left i)
  unfolding scan
  scan-Found zero i n = λ k b. absurd (omega arith)
  scan-Found (suc left) i n =
      let (p, e) = get_elem?-present ps (slot i) (mod-lt (cursor + i) n) in
      let rest = scan-Found left (i + 1) n in
      let r = scan test ps cursor left (i + 1) in
      subst (λ o. ScanFound (suc left) i (try_path test (slot i) o r)) (sym e)
        (if_intro (ScanFound (suc left) i) (test p)
          (λ g. record {
            round = 0;
            bound = omega arith;
            place = subst (λ m. slot i ≡ slot m) (omega arith) refl;
            entry = e;
            good = g;
            skipped = λ k b. absurd (omega arith);
          })
          λ g. later left i r (rw (passes, e) g) rest)

-- A slot without the remainder.
pub slot_lem :
    (n cursor k : ℕ)
    → cursor < n
    → k < n
    → (cursor + k) % n ≡ (if ltb (cursor + k) n then cursor + k else cursor + k - n)
slot_lem n cursor k hc hk = elim (Bool-cases (ltb (cursor + k) n)) [
  | inl e ↦ rw e (mod-eq_of_lt (ground arith))
  | inr e ↦ rw e (mod-eq-sub-mod (ground arith) ∙ mod-eq_of_lt (ground arith))
]

-- How many rounds it takes from the cursor to an index.
abbrev pub turn : ℕ → ℕ → ℕ → ℕ
turn n cursor j = if ltb j cursor then n + j - cursor else j - cursor

pub slot-turn :
    (n cursor j : ℕ)
    → cursor < n
    → j < n
    → (turn n cursor j < n) × ((cursor + turn n cursor j) % n ≡ j)
slot-turn n cursor j hc hj =
    let b : turn n cursor j < n = ground arith in
    (b, slot_lem n cursor (turn n cursor j) hc b ∙ ground arith)
