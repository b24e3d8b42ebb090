-- ===== src/Sched/Ties.antt =====
-- core/sched/tier3_min_rtt_cwnd.go: the set of paths that tie for fastest.
pub mod Fastest
use bondify.Common.{
  ℕ, zero, suc, ◌+◌, ◌-◌, ◌^◌, ◌<◌, ◌≤◌, ◌≡◌, ap, refl, ◌∙◌, sym, subst, Bool, true, false, ◌||◌,
  not, some, List, [], ◌∷◌, arith, ◌==◌, if◌then◌else◌, get_elem?, ◌⊎◌, inl, inr, if_intro,
}
use bondify.Common.Float.{Float}
use bondify.Common.Int.{ℤ, pos, pos_part, ltb_ℤ, ◌+ℤ◌, ◌≤ℤ◌, wrap_int64, wrap_small, +ℤ_pos}
use bondify.Sched.{PathView, keep}

abbrev pub unmeasured_rtt : ℤ
unmeasured_rtt = pos (2 ^ 63 - 1)

abbrev pub tie_rtt_min : ℤ
tie_rtt_min = pos 2_000_000

-- `rtt := p.RTTMin(); if rtt <= 0 { rtt = unmeasuredRTT }`
abbrev pub measured : ℤ → ℤ
measured rtt = if ltb_ℤ (pos 0) rtt then rtt else unmeasured_rtt

abbrev pub Among : {F : Type 0} → PathView F → List (PathView F) → Type 0
Among p [] = ⊥
Among p (q ∷ ps) = (q ≡ p) ⊎ Among p ps

module _ {F : Type 0} where
  -- The first loop, from the value of `fastest` so far.
  unfoldable pub fastest_from : ℤ → List (PathView F) → ℤ
  fastest_from acc [] = acc
  fastest_from acc (p ∷ ps) =
      fastest_from (if ltb_ℤ (measured p.rtt_min) acc then measured p.rtt_min else acc) ps

  abbrev pub fastest_rtt : List (PathView F) → ℤ
  fastest_rtt ps = fastest_from unmeasured_rtt ps

  unfoldable pub path_in : List (PathView F) → PathView F → Bool
  path_in [] p = false
  path_in (q ∷ set) p = q.id == p.id || path_in set p

  pub get_elem?-Among :
      (ps : List (PathView F)) (i : ℕ) (p : PathView F) → get_elem? ps i ≡ some p → Among p ps
  get_elem?-Among [] i p h = absurd (ground arith)
  get_elem?-Among (q ∷ ps) zero p h = inl (some_inj q p h)
    where
      some_inj : (q p : PathView F) → some q ≡ some p → q ≡ p
      some_inj q p h = cc
  get_elem?-Among (q ∷ ps) (suc i) p h = inr (get_elem?-Among ps i p h)

  pub keep_sound :
      (test : PathView F → Bool) (ps : List (PathView F)) (p : PathView F)
      → Among p (keep test ps)
      → Among p ps × (test p ≡ true)
  unfolding keep
  keep_sound test [] p h = elim h [ ]
  keep_sound test (q ∷ ps) p h =
      if_intro (λ ks. Among p ks → Among p (q ∷ ps) × (test p ≡ true)) (test q)
        (λ e h. elim h [
          | inl s ↦ (inl s, subst (λ r. test r ≡ true) s e)
          | inr k ↦ (let (a, t) = keep_sound test ps p k in (inr a, t))
        ])
        (λ e h. let (a, t) = keep_sound test ps p h in (inr a, t)) h

  pub keep_complete :
      (test : PathView F → Bool) (ps : List (PathView F)) (p : PathView F)
      → Among p ps
      → test p ≡ true
      → Among p (keep test ps)
  unfolding keep
  keep_complete test [] p h t = h
  keep_complete test (q ∷ ps) p h t =
      if_intro (λ ks. Among p ks) (test q)
        (λ e. elim h [ inl s ↦ inl s | inr k ↦ inr (keep_complete test ps p k t) ])
        (λ e. elim h [
          | inl s ↦ absurd (let f = subst (λ r. test r ≡ false) s e in cc)
          | inr k ↦ keep_complete test ps p k t
        ])

  -- The least round trip, which some path has unless it is the starting value.
  pub fastest_from-least :
      (acc : ℤ) (ps : List (PathView F))
      → (fastest_from acc ps ≤ℤ acc)
        × ((p : PathView F) → Among p ps → fastest_from acc ps ≤ℤ measured p.rtt_min)
        × ((fastest_from acc ps ≡ acc)
            ⊎ ((p : PathView F) × Among p ps × (fastest_from acc ps ≡ measured p.rtt_min)))
  unfolding fastest_from
  fastest_from-least acc [] = (omega arith, (λ p h. elim h [ ]), inl refl)
  fastest_from-least acc (q ∷ ps) =
      let m = measured q.rtt_min in
      let acc' = if ltb_ℤ m acc then m else acc in
      let (a, b, c) = fastest_from-least acc' ps in
      let (l, k, w) = lesser m acc in
      (
        omega arith,
        (λ p h. elim h [
          | inl s ↦
              subst (λ (r : PathView F). fastest_from acc' ps ≤ℤ measured r.rtt_min) s (omega arith)
          | inr t ↦ b p t
        ]),
        elim c [
          | inl e ↦ elim w [ inl f ↦ inl (e ∙ f) | inr f ↦ inr (q, inl refl, e ∙ f) ]
          | inr (p, t, e) ↦ inr (p, inr t, e)
        ],
      )
    where
      lesser :
          (m acc : ℤ)
          → let r = if ltb_ℤ m acc then m else acc in (r ≤ℤ acc) × (r ≤ℤ m) × ((r ≡ acc) ⊎ (r ≡ m))
      lesser m acc =
          if_intro (λ r. (r ≤ℤ acc) × (r ≤ℤ m) × ((r ≡ acc) ⊎ (r ≡ m))) (ltb_ℤ m acc)
            (λ e. (ground arith, omega arith, inr refl)) λ e. (omega arith, ground arith, inl refl)

module _ {F : Type 0} (fl : Float F) where
  unfoldable pub tie_window : ℤ → ℤ
  tie_window fastest =
      if ltb_ℤ fastest unmeasured_rtt
      then (let window = fl.to_int (fl.mul (fl.of_int fastest) (fl.ratio 15 100)) in
          if ltb_ℤ window tie_rtt_min then tie_rtt_min else window)
      else pos 0

  unfoldable pub is_tied : ℤ → PathView F → Bool
  unfolding tie_window
  is_tied fastest p =
      not (ltb_ℤ fastest unmeasured_rtt)
      || not (ltb_ℤ (wrap_int64 (fastest +ℤ tie_window fastest)) (measured p.rtt_min))

  unfoldable pub fastest_tied_set : List (PathView F) → ℤ × List (PathView F)
  fastest_tied_set ps = (fastest_rtt ps, keep (is_tied (fastest_rtt ps)) ps)

  -- Multiplying a duration by 0.15 does not make it longer or negative.
  abbrev pub Shrinks : Type 0
  Shrinks =
      (n : ℕ)
      → let w = fl.to_int (fl.mul (fl.of_int (pos n)) (fl.ratio 15 100)) in
        (pos 0 ≤ℤ w) × (w ≤ℤ pos n)

  nonneg : (z : ℤ) → pos 0 ≤ℤ z → z ≡ pos (pos_part z)
  nonneg z h = ground arith

  window_bound : Shrinks → (n : ℕ) → (w : ℕ) × (tie_window (pos n) ≡ pos w) × (w ≤ n + 2_000_000)
  unfolding tie_window
  window_bound law n =
      let z = fl.to_int (fl.mul (fl.of_int (pos n)) (fl.ratio 15 100)) in
      let (low, high) = law n in
      if_intro (λ t. (w : ℕ) × (t ≡ pos w) × (w ≤ n + 2_000_000)) (ltb_ℤ (pos n) unmeasured_rtt)
        (λ e.
          if_intro (λ t. (w : ℕ) × (t ≡ pos w) × (w ≤ n + 2_000_000)) (ltb_ℤ z tie_rtt_min)
            (λ f. (2_000_000, refl, omega arith)) λ f. (pos_part z, nonneg z low, ground arith))
        λ e. (0, refl, omega arith)

  -- The path that sets the minimum is tied for it, if its round trip is below 2^61 ns.
  pub fastest-is_tied :
      Shrinks
      → (n : ℕ) (p : PathView F) → measured p.rtt_min ≡ pos n
      → n < 2 ^ 61
      → is_tied (pos n) p ≡ true
  unfolding is_tied
  fastest-is_tied law n p e h =
      let (w, f, b) = window_bound law n in
      let sum : wrap_int64 (pos n +ℤ pos w) ≡ pos (n + w) =
        ap wrap_int64 (+ℤ_pos n w) ∙ wrap_small (n + w) (omega arith) in
      rw (f, sum, e) (ground arith)

  -- A path with no round trip yet, or with one below 2^61 ns (73 years).
  abbrev pub InLimits : PathView F → Type 0
  InLimits p =
      (measured p.rtt_min ≡ unmeasured_rtt)
      ⊎ ((n : ℕ) × (measured p.rtt_min ≡ pos n) × (n < 2 ^ 61))

  all_tied :
      (ps : List (PathView F))
      → fastest_rtt ps ≡ unmeasured_rtt
      → (q : PathView F) → Among q ps
      → Among q (fastest_tied_set ps).1
  unfolding fastest_tied_set is_tied
  all_tied ps e q a = keep_complete (is_tied (fastest_rtt ps)) ps q a (rw e refl)

  -- Some path ties for fastest.
  pub some_tied :
      (ps : List (PathView F)) (q : PathView F)
      → Shrinks
      → ((p : PathView F) → Among p ps → InLimits p)
      → Among q ps
      → (p : PathView F) × Among p (fastest_tied_set ps).1
  unfolding fastest_tied_set
  some_tied ps q law range here = elim (fastest_from-least unmeasured_rtt ps).2 [
    | inl e ↦ (q, all_tied ps e q here)
    | inr (p, a, e) ↦ elim (range p a) [
      | inl f ↦ (q, all_tied ps (e ∙ f) q here)
      | inr (n, f, b) ↦
          let t = subst (λ z. is_tied z p ≡ true) (sym (e ∙ f)) (fastest-is_tied law n p f b) in
          (p, keep_complete (is_tied (fastest_rtt ps)) ps p a t)
    ]
  ]
