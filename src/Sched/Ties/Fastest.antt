-- ===== src/Sched/Ties/Fastest.antt =====
-- core/sched/tier3_min_rtt_cwnd.go: what it is to be tied for fastest, said of the paths themselves,
-- and that the two loops compute it.
use bondify.Common.{
  ◌^◌, ◌-◌, Bool-cases, ◌≡◌, ◌↔◌, refl, sym, ◌∙◌, subst, Bool, true, false, ◌&&◌, ◌||◌, not, List,
  arith, ◌⊎◌, inl, inr, if_intro,
}
use bondify.Common.Float.{Float}
use bondify.Common.Int.{ℤ, pos, ltb_ℤ, ◌≤ℤ◌, ◌+ℤ◌, wrap_int64}
use bondify.Sched.{
  PathView, State, Role, active, bond, keep, in_bond, has_room, is_eligible, is_active, is_bond,
}
use bondify.Sched.Ties.{
  Among, unmeasured_rtt, measured, fastest_from-least, fastest_rtt, tie_window, is_tied,
  tie_rtt_min, keep_sound, keep_complete,
}

module _ {F : Type 0} where
  -- ACTIVE, and of role BOND.
  abbrev pub Bonded : List (PathView F) → PathView F → Type 0
  Bonded ps p = Among p ps × (p.state ≡ active) × (p.role ≡ bond)

  -- The same with fewer bytes in flight than the congestion window.
  abbrev pub Usable : List (PathView F) → PathView F → Type 0
  Usable ps p = Bonded ps p × (¬ (p.cwnd ≤ℤ p.in_flight))

  -- The round trip of a path, the greatest int64 while none is measured.
  abbrev pub RoundTrip : PathView F → ℤ → Type 0
  RoundTrip p n =
      ((p.rtt_min ≤ℤ pos 0) × (n ≡ pos (2 ^ 63 - 1))) ⊎ ((¬ (p.rtt_min ≤ℤ pos 0)) × (n ≡ p.rtt_min))

  -- The least round trip of the paths in a set.
  pub record Least (P : PathView F → Type 0) (m : ℤ) : Type 0 where
    pub below : (q : PathView F) (n : ℤ) → P q → RoundTrip q n → m ≤ℤ n
    pub met : (m ≡ pos (2 ^ 63 - 1)) ⊎ ((q : PathView F) × P q × RoundTrip q m)

  pub measured-RoundTrip : (p : PathView F) → RoundTrip p (measured p.rtt_min)
  measured-RoundTrip p =
      if_intro (RoundTrip p) (ltb_ℤ (pos 0) p.rtt_min)
        (λ e. inr ((λ h. absurd (ground arith)), refl)) (λ e. inl (ground arith, refl))

  pub RoundTrip-measured : (p : PathView F) (n : ℤ) → RoundTrip p n → n ≡ measured p.rtt_min
  RoundTrip-measured p n (inl (low, e)) =
      if_intro (λ z. n ≡ z) (ltb_ℤ (pos 0) p.rtt_min) (λ g. absurd (ground arith)) (λ g. e)
  RoundTrip-measured p n (inr (high, e)) =
      if_intro (λ z. n ≡ z) (ltb_ℤ (pos 0) p.rtt_min) (λ g. e) (λ g. absurd (high (ground arith)))

  pub in_bond-Bonded : (p : PathView F) → (in_bond p ≡ true) ↔ (p.state ≡ active) × (p.role ≡ bond)
  in_bond-Bonded p = both p.state p.role
    where
      both :
          (s : State) (r : Role) → ((is_active s && is_bond r) ≡ true) ↔ (s ≡ active) × (r ≡ bond)
      both s r =
          (λ e. (ground arith, ground arith), λ c. (let a = c.0 in let b = c.1 in ground arith))

module _ {F : Type 0} (fl : Float F) where
  -- Fifteen per cent of the least round trip, or two milliseconds where that is more.
  abbrev pub Window : ℤ → ℤ → Type 0
  Window m w =
      let share = fl.to_int (fl.mul (fl.of_int m) (fl.ratio 15 100)) in
      (pos 2_000_000 ≤ℤ w) × (share ≤ℤ w) × ((w ≡ pos 2_000_000) ⊎ (w ≡ share))

  -- The path is tied for fastest, `m` being the least round trip: none is measured, or the path's own
  -- is at most the window above it, as int64 numbers.
  abbrev pub Tied : ℤ → PathView F → Type 0
  Tied m p =
      (pos (2 ^ 63 - 1) ≤ℤ m)
      ⊎ ((w : ℤ) × (n : ℤ) × Window m w × RoundTrip p n × (n ≤ℤ wrap_int64 (m +ℤ w)))

  tie_window-Window : (m : ℤ) → ¬ (pos (2 ^ 63 - 1) ≤ℤ m) → Window m (tie_window fl m)
  unfolding tie_window
  tie_window-Window m h =
      let share = fl.to_int (fl.mul (fl.of_int m) (fl.ratio 15 100)) in
      if_intro (Window m) (ltb_ℤ m unmeasured_rtt)
        (λ e.
          if_intro (Window m) (ltb_ℤ share tie_rtt_min) (λ f. (omega arith, ground arith, inl refl))
            (λ f. (ground arith, omega arith, inr refl)))
        (λ e. absurd (h (ground arith)))

  Window-unique : (m v w : ℤ) → Window m v → Window m w → v ≡ w
  Window-unique m v w (low, above, inl e) (low', above', inl f) = e ∙ sym f
  Window-unique m v w (low, above, inl e) (low', above', inr f) = ground arith
  Window-unique m v w (low, above, inr e) (low', above', inl f) = ground arith
  Window-unique m v w (low, above, inr e) (low', above', inr f) = e ∙ sym f

  pub is_tied-Tied : (m : ℤ) (p : PathView F) → is_tied fl m p ≡ true → Tied m p
  unfolding is_tied
  is_tied-Tied m p h = elim (Bool-cases (ltb_ℤ m unmeasured_rtt)) [
    | inl e ↦ inr (
      tie_window fl m,
      measured p.rtt_min,
      tie_window-Window m (λ k. ground arith),
      measured-RoundTrip p,
      close (wrap_int64 (m +ℤ tie_window fl m)) (measured p.rtt_min) (ltb_ℤ m unmeasured_rtt) e h,
    )
    | inr e ↦ inl (ground arith)
  ]
    where
      close : (sum n : ℤ) (b : Bool) → b ≡ true → (not b || not (ltb_ℤ sum n)) ≡ true → n ≤ℤ sum
      close sum n true e h = ground arith
      close sum n false e h = absurd (ground arith)

  pub Tied-is_tied : (m : ℤ) (p : PathView F) → Tied m p → is_tied fl m p ≡ true
  unfolding is_tied
  Tied-is_tied m p (inl h) = open' (ltb_ℤ m unmeasured_rtt) _ (ground arith)
    where
      open' : (b c : Bool) → b ≡ false → (not b || c) ≡ true
      open' b c e = rw e refl
  Tied-is_tied m p (inr (w, n, size, trip, h)) = elim (Bool-cases (ltb_ℤ m unmeasured_rtt)) [
    | inl e ↦
        let v =
          Window-unique m w (tie_window fl m) size (tie_window-Window m (λ k. ground arith)) in
        let r = RoundTrip-measured p n trip in
        close (ltb_ℤ m unmeasured_rtt) (wrap_int64 (m +ℤ tie_window fl m)) (measured p.rtt_min) (
          subst (λ z. z ≤ℤ wrap_int64 (m +ℤ tie_window fl m)) r
            (subst (λ z. n ≤ℤ wrap_int64 (m +ℤ z)) v h))
    | inr e ↦ open' (ltb_ℤ m unmeasured_rtt) _ e
  ]
    where
      open' : (b c : Bool) → b ≡ false → (not b || c) ≡ true
      open' b c e = rw e refl

      close : (b : Bool) (sum n : ℤ) → n ≤ℤ sum → (not b || not (ltb_ℤ sum n)) ≡ true
      close b sum n h = ground arith

both_true : (a b : Bool) → (a && b) ≡ true → (a ≡ true) × (b ≡ true)
both_true a b h = (ground arith, ground arith)

module _ {F : Type 0} where
  -- The first loop finds the least round trip of the paths it runs over.
  pub fastest_rtt-Least :
      (P : PathView F → Type 0) (set : List (PathView F))
      → ((q : PathView F) → Among q set → P q)
      → ((q : PathView F) → P q → Among q set)
      → Least P (fastest_rtt set)
  fastest_rtt-Least P set sound complete =
      let (cap, below, met) = fastest_from-least unmeasured_rtt set in
      record {
        below = λ q n here trip.
            subst (λ z. fastest_rtt set ≤ℤ z) (sym (RoundTrip-measured q n trip))
              (below q (complete q here));
        met = elim met [
          | inl e ↦ inl e
          | inr (q, here, e) ↦
              inr (q, sound q here, subst (RoundTrip q) (sym e) (measured-RoundTrip q))
        ];
      }

  pub keep-Bonded :
      (ps : List (PathView F)) (q : PathView F) → Among q (keep in_bond ps) → Bonded ps q
  keep-Bonded ps q here =
      let (a, b) = keep_sound in_bond ps q here in let (s, r) = (in_bond-Bonded q).0 b in (a, s, r)

  pub Bonded-keep :
      (ps : List (PathView F)) (q : PathView F) → Bonded ps q → Among q (keep in_bond ps)
  Bonded-keep ps q (here, s, r) = keep_complete in_bond ps q here ((in_bond-Bonded q).1 (s, r))

  pub room-Usable :
      (ps : List (PathView F)) (q : PathView F) → Bonded ps q → has_room q ≡ true → Usable ps q
  room-Usable ps q b h = (b, λ k. ground arith)

  pub Usable-room : (ps : List (PathView F)) (q : PathView F) → Usable ps q → has_room q ≡ true
  Usable-room ps q (b, h) = room q.in_flight q.cwnd h
    where
      room : (x y : ℤ) → ¬ (y ≤ℤ x) → ltb_ℤ x y ≡ true
      room x y h = ground arith

  pub keep-Usable :
      (ps : List (PathView F)) (q : PathView F) → Among q (keep is_eligible ps) → Usable ps q
  keep-Usable ps q here =
      let (a, e) = keep_sound is_eligible ps q here in
      let (b, r) = both_true (in_bond q) (has_room q) e in
      let (active', bond') = (in_bond-Bonded q).0 b in room-Usable ps q (a, active', bond') r

  pub Usable-keep :
      (ps : List (PathView F)) (q : PathView F) → Usable ps q → Among q (keep is_eligible ps)
  Usable-keep ps q u =
      keep_complete is_eligible ps q u.0.0
        (both (in_bond q) (has_room q) ((in_bond-Bonded q).1 (u.0.1, u.0.2)) (Usable-room ps q u))
    where
      both : (a b : Bool) → a ≡ true → b ≡ true → (a && b) ≡ true
      both a b e f = ground arith
