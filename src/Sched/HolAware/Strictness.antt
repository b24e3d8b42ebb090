-- ===== src/Sched/HolAware/Strictness.antt =====
-- The adaptive strictness stays in its documented range, 0.5 to 4.
use bondify.Common.{
  ◌≡◌, false, not, ◌==◌, Option, none, some, List, length, if_intro, ltb, leb, ◌&&◌, ℕ,
}
use bondify.Common.Float.{Float}
use bondify.Common.Int.{ℤ, ltb_ℤ}
use bondify.Sched.{PathView, has_room, active_bond_paths, scan, past}
use bondify.Sched.Ties.{unmeasured_rtt, fastest_tied_set}
use bondify.Sched.HolAware.{
  HolAware, lambda_min, lambda_max, decay, raise, projected_slow, use_slow, send_tied, rewound,
  hol_next, slowest_from,
}

module _ {F : Type 0} (fl : Float F) where
  -- Not below the minimum and not above the maximum.
  abbrev pub InBounds : HolAware F → Type 0
  InBounds h = (fl.lt h.lambda (lambda_min fl) ≡ false) × (fl.lt (lambda_max fl) h.lambda ≡ false)

  -- Of the float order: 0.98 x is not above a bound that x is not above, 1.15 x not below a bound that
  -- x is not below, for x from 0.5 to 4; and the two bounds are ordered.
  pub record Scaling : Type 0 where
    pub shrinks :
        (h : HolAware F)
        → InBounds h
        → fl.lt (lambda_max fl) (fl.mul h.lambda (fl.ratio 98 100)) ≡ false
    pub grows :
        (h : HolAware F)
        → InBounds h
        → fl.lt (fl.mul h.lambda (fl.ratio 115 100)) (lambda_min fl) ≡ false
    pub irreflexive : (x : F) → fl.lt x x ≡ false
    pub apart : fl.lt (lambda_max fl) (lambda_min fl) ≡ false

  decay-InBounds : Scaling → (h : HolAware F) → InBounds h → InBounds (decay fl h)
  unfolding decay
  decay-InBounds law h b =
      let scaled = fl.mul h.lambda (fl.ratio 98 100) in
      if_intro (λ x. (fl.lt x (lambda_min fl) ≡ false) × (fl.lt (lambda_max fl) x ≡ false))
        (fl.lt scaled (lambda_min fl)) (λ e. (law.irreflexive (lambda_min fl), law.apart))
        λ e. (e, law.shrinks h b)

  raise-InBounds : Scaling → (h : HolAware F) → InBounds h → InBounds (raise fl h)
  unfolding raise
  raise-InBounds law h b =
      let scaled = fl.mul h.lambda (fl.ratio 115 100) in
      if_intro (λ x. (fl.lt x (lambda_min fl) ≡ false) × (fl.lt (lambda_max fl) x ≡ false))
        (fl.lt (lambda_max fl) scaled) (λ e. (law.apart, law.irreflexive (lambda_max fl)))
        λ e. (law.grows h b, e)

  use_slow-InBounds :
      Scaling
      → (h : HolAware F) (fastest : ℤ) (found : Option (PathView F × ℤ)) → InBounds h
      → InBounds (use_slow fl h fastest found).1
  unfolding use_slow
  use_slow-InBounds law h fastest none b = b
  use_slow-InBounds law h fastest (some (slow, rtt)) b =
      if_intro (λ (r : Option (PathView F) × HolAware F). InBounds r.1)
        (not (ltb_ℤ fastest unmeasured_rtt)) (λ e. decay-InBounds law h b)
        λ e.
          if_intro (λ (r : Option (PathView F) × HolAware F). InBounds r.1)
            (not (ltb_ℤ fastest (projected_slow fl h rtt))) (λ f. decay-InBounds law h b)
            λ f. raise-InBounds law h b

  after_scan :
      Scaling
      → (h : HolAware F) (n : ℕ) (fastest : ℤ) (slow : Option (PathView F × ℤ))
        (r : Option (ℕ × PathView F))
      → InBounds h
      → InBounds (send_tied fl h n fastest slow r).1
  unfolding send_tied
  after_scan law h n fastest slow none b = use_slow-InBounds law h fastest slow b
  after_scan law h n fastest slow (some (idx, p)) b =
      decay-InBounds law (record h { cursor = past n idx }) b

  -- If scaling by 0.98 and by 1.15 respects the order of floats near the bounds, every call of
  -- HoLAware.Next keeps lambda between its two bounds.
  pub hol_next-InBounds :
      (h : HolAware F) (ps : List (PathView F))
      → Scaling
      → InBounds h
      → InBounds (hol_next fl h ps).1
  unfolding hol_next
  hol_next-InBounds h ps law b =
      if_intro (λ (r : Option (PathView F) × HolAware F). InBounds r.1)
        (length (active_bond_paths ps) == 0) (λ e. b)
        λ e.
          let bond = active_bond_paths ps in
          let set = fastest_tied_set fl bond in
          let n = length set.1 in
          let h' = rewound fl h n in
          let b' : InBounds h' = if_intro InBounds (ltb 0 n && leb n h.cursor) (λ f. b) (λ f. b) in
          after_scan law h' n set.0 (slowest_from set.1 none bond)
            (scan has_room set.1 h'.cursor n 0) b'
