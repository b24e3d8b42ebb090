-- ===== src/Modes/Redundant.antt =====
-- core/bond/mode.go: the paths that carry the copies of a packet are the fastest ones with room.
use bondify.Common.{
  ℕ, zero, suc, ◌+◌, ◌≤◌, ◌≡◌, ◌⊎◌, ◌∙◌, refl, ap, inl, inr, Bool, true, ◌&&◌, List, [], ◌∷◌, arith,
  if◌then◌else◌, length, take, drop, All, Bool-cases, if_intro,
}
use bondify.Common.Int.{ℤ, ltb_ℤ, ◌≤ℤ◌}
use bondify.BondPath.{BondPath}
use bondify.Modes.{can_take, collect, rank, place, sort_by_rank, select_redundant_paths}

module _ {F : Type 0} where
  -- How many paths pass a test.
  unfoldable pub count : (BondPath F → Bool) → List (BondPath F) → ℕ
  count f [] = 0
  count f (p ∷ ps) = (if f p then 1 else 0) + count f ps

  abbrev pub NoSlower : ℤ → List (BondPath F) → BondPath F → Type 0
  NoSlower now ps p = All (λ q. rank now p ≤ℤ rank now q) ps

  abbrev pub Ascending : ℤ → List (BondPath F) → Type 0
  Ascending now [] = Unit
  Ascending now (p ∷ ps) = NoSlower now ps p × Ascending now ps

  -- The eligible paths are those chosen and the rest; none of the rest is faster than a chosen one;
  -- only if fewer than n are eligible are fewer chosen.
  pub record Selected (now : ℤ) (ps : List (BondPath F)) (n : ℕ) (chosen rest : List (BondPath F))
      : Type 0 where
    pub split :
        (f : BondPath F → Bool) → count f chosen + count f rest ≡ count (λ p. can_take p && f p) ps
    pub usable : All (λ p. can_take p ≡ true) chosen
    pub ascending : Ascending now chosen
    pub fastest : All (NoSlower now rest) chosen
    pub size : (length chosen ≡ n) ⊎ ((length chosen ≤ n) × (rest ≡ []))

  count-collect :
      (f : BondPath F → Bool) (ps : List (BondPath F))
      → count f (collect can_take ps) ≡ count (λ p. can_take p && f p) ps
  unfolding count collect
  count-collect f [] = refl
  count-collect f (p ∷ ps) = elim (Bool-cases (can_take p)) [
    | inl e ↦ rw e (omega (arith, count-collect f ps))
    | inr e ↦ rw e (omega (arith, count-collect f ps))
  ]

  collect-All :
      (ps : List (BondPath F)) → All (λ (p : BondPath F). can_take p ≡ true) (collect can_take ps)
  unfolding collect
  collect-All [] = tt
  collect-All (p ∷ ps) =
      if_intro (All (λ (q : BondPath F). can_take q ≡ true)) (can_take p) (λ e. (e, collect-All ps))
        (λ e. collect-All ps)

  place-All :
      (P : BondPath F → Type 0) (now : ℤ) (p : BondPath F) (qs : List (BondPath F))
      → P p
      → All P qs
      → All P (place now p qs)
  unfolding place
  place-All P now p [] h a = (h, tt)
  place-All P now p (q ∷ qs) h (k, a) =
      if_intro (All P) (ltb_ℤ (rank now q) (rank now p)) (λ e. (k, place-All P now p qs h a))
        (λ e. (h, (k, a)))

  count-place :
      (f : BondPath F → Bool) (now : ℤ) (p : BondPath F) (qs : List (BondPath F))
      → count f (place now p qs) ≡ (if f p then 1 else 0) + count f qs
  unfolding count place
  count-place f now p [] = refl
  count-place f now p (q ∷ qs) = elim (Bool-cases (ltb_ℤ (rank now q) (rank now p))) [
    | inl e ↦ rw e (omega (arith, count-place f now p qs))
    | inr e ↦ rw e refl
  ]

  slower_still :
      (now : ℤ) (p q : BondPath F) (qs : List (BondPath F))
      → rank now p ≤ℤ rank now q
      → NoSlower now qs q
      → NoSlower now qs p
  slower_still now p q [] h a = tt
  slower_still now p q (r ∷ rs) h (k, a) = (omega arith, slower_still now p q rs h a)

  place-Ascending :
      (now : ℤ) (p : BondPath F) (qs : List (BondPath F))
      → Ascending now qs
      → Ascending now (place now p qs)
  unfolding place
  place-Ascending now p [] a = (tt, tt)
  place-Ascending now p (q ∷ qs) (h, a) =
      if_intro (Ascending now) (ltb_ℤ (rank now q) (rank now p))
        (λ e. (
          place-All (λ r. rank now q ≤ℤ rank now r) now p qs (ground arith) h,
          place-Ascending now p qs a,
        ))
        (λ e.
          let le : rank now p ≤ℤ rank now q = ground arith in
          ((le, slower_still now p q qs le h), (h, a)))

  sort-Ascending : (now : ℤ) (ps : List (BondPath F)) → Ascending now (sort_by_rank now ps)
  unfolding sort_by_rank
  sort-Ascending now [] = tt
  sort-Ascending now (p ∷ ps) = place-Ascending now p (sort_by_rank now ps) (sort-Ascending now ps)

  count-sort :
      (f : BondPath F → Bool) (now : ℤ) (ps : List (BondPath F))
      → count f (sort_by_rank now ps) ≡ count f ps
  unfolding sort_by_rank count
  count-sort f now [] = refl
  count-sort f now (p ∷ ps) =
      count-place f now p (sort_by_rank now ps)
      ∙ ap (λ (n : ℕ). (if f p then 1 else 0) + n) (count-sort f now ps)

  sort-All :
      (P : BondPath F → Type 0) (now : ℤ) (ps : List (BondPath F))
      → All P ps
      → All P (sort_by_rank now ps)
  unfolding sort_by_rank
  sort-All P now [] a = tt
  sort-All P now (p ∷ ps) (h, a) = place-All P now p (sort_by_rank now ps) h (sort-All P now ps a)

  count-take :
      (f : BondPath F → Bool) (n : ℕ) (ps : List (BondPath F))
      → count f (take n ps) + count f (drop n ps) ≡ count f ps
  unfolding count
  count-take f zero ps = omega arith
  count-take f (suc n) [] = omega arith
  count-take f (suc n) (p ∷ ps) = omega (arith, count-take f n ps)

  take-All :
      (P : BondPath F → Type 0) (n : ℕ) (ps : List (BondPath F)) → All P ps → All P (take n ps)
  take-All P zero ps a = tt
  take-All P (suc n) [] a = tt
  take-All P (suc n) (p ∷ ps) (h, a) = (h, take-All P n ps a)

  drop-All :
      (P : BondPath F → Type 0) (n : ℕ) (ps : List (BondPath F)) → All P ps → All P (drop n ps)
  drop-All P zero ps a = a
  drop-All P (suc n) [] a = tt
  drop-All P (suc n) (p ∷ ps) (h, a) = drop-All P n ps a

  cut :
      (now : ℤ) (n : ℕ) (ps : List (BondPath F))
      → Ascending now ps
      → Ascending now (take n ps) × All (NoSlower now (drop n ps)) (take n ps)
  cut now zero ps a = (tt, tt)
  cut now (suc n) [] a = (tt, tt)
  cut now (suc n) (p ∷ ps) (h, a) =
      let (b, c) = cut now n ps a in
      (
        (take-All (λ q. rank now p ≤ℤ rank now q) n ps h, b),
        (drop-All (λ q. rank now p ≤ℤ rank now q) n ps h, c),
      )

  taken :
      (n : ℕ) (ps : List (BondPath F))
      → (length (take n ps) ≡ n) ⊎ ((length (take n ps) ≤ n) × (drop n ps ≡ []))
  taken zero ps = inl refl
  taken (suc n) [] = inr (omega arith, refl)
  taken (suc n) (p ∷ ps) = elim (taken n ps) [
    | inl e ↦ inl (ap suc e)
    | inr (h, e) ↦ inr (omega arith, e)
  ]

  -- The paths that REDUNDANT mode sends on are eligible (ACTIVE, BOND, with room), in the order of
  -- their round trips, and with the eligible paths left out they make up all the eligible ones; none
  -- left out is faster than a chosen one, and n are chosen unless fewer are eligible.
  pub select-Selected :
      (now : ℤ) (ps : List (BondPath F)) (n : ℕ)
      → (rest : List (BondPath F)) × Selected now ps n (select_redundant_paths now ps n) rest
  unfolding select_redundant_paths
  select-Selected now ps n =
      let sorted = sort_by_rank now (collect can_take ps) in
      let (a, b) = cut now n sorted (sort-Ascending now (collect can_take ps)) in
      (
        drop n sorted,
        record {
          split = λ f.
              count-take f n sorted ∙ count-sort f now (collect can_take ps) ∙ count-collect f ps;
          usable =
              take-All (λ (p : BondPath F). can_take p ≡ true) n sorted
                (sort-All (λ (p : BondPath F). can_take p ≡ true) now (collect can_take ps)
                  (collect-All ps));
          ascending = a;
          fastest = b;
          size = taken n sorted;
        },
      )
