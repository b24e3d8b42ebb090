-- ===== src/Sched/HolAware/Choice.antt =====
-- core/sched/tier4_hol_aware.go: what HoLAware.Next sends on, and when it waits.
use bondify.Common.{
  ℕ, ◌-◌, ◌^◌, ◌<◌, ◌⊎◌, ◌≡◌, refl, sym, subst, Bool, true, false, ◌&&◌, ◌||◌, not, Option, none,
  some, List, [], ◌∷◌, arith, ltb, leb, ◌==◌, length, if_intro, Bool-cases, inl, inr,
}
use bondify.Common.Float.{Float}
use bondify.Common.Int.{ℤ, pos, ltb_ℤ, ◌≤ℤ◌}
use bondify.Sched.{PathView, has_room, active_bond_paths, scan, past}
use bondify.Sched.Rotation.{ScanFound, scan-Found}
use bondify.Sched.Ties.{
  unmeasured_rtt, measured, Among, get_elem?-Among, keep_sound, keep_complete, path_in, is_tied,
  fastest_rtt, fastest_tied_set,
}
use bondify.Sched.Ties.Fastest.{
  Bonded, Usable, RoundTrip, Least, Tied, measured-RoundTrip, RoundTrip-measured, is_tied-Tied,
  Tied-is_tied, fastest_rtt-Least, keep-Bonded, Bonded-keep, room-Usable, Usable-room,
}
use bondify.Sched.HolAware.Candidate.{
  OfBest, Below, skips, slowest_from-OfBest, found, path_in-Among, place_of, full_turn_blocks,
}
use bondify.Sched.HolAware.{
  HolAware, decay, raise, projected_slow, slowest_from, use_slow, send_tied, rewound, hol_next,
}

module _ {F : Type 0} (fl : Float F) where
  -- No usable path is tied for fastest, and this one, with its round trip, is the least of the usable
  -- ones.
  pub record Fallback (m : ℤ) (ps : List (PathView F)) (p : PathView F) (n : ℤ) : Type 0 where
    pub full : (q : PathView F) → Usable ps q → ¬ Tied fl m q
    pub usable : Usable ps p
    pub trip : RoundTrip p n
    pub least : (q : PathView F) (k : ℤ) → Usable ps q → RoundTrip q k → n ≤ℤ k

  -- The least round trip is measured, and lambda times the other one is above it.
  abbrev pub Waits : F → ℤ → ℤ → Type 0
  Waits lambda m n =
      (¬ (pos (2 ^ 63 - 1) ≤ℤ m)) × (¬ (fl.to_int (fl.mul lambda (fl.of_int n)) ≤ℤ m))

  -- Times 0.98, but not below 0.5.
  abbrev pub Lowered : F → F → Type 0
  Lowered l k =
      let scaled = fl.mul l (fl.ratio 98 100) in
      ((fl.lt scaled (fl.ratio 5 10) ≡ true) × (k ≡ fl.ratio 5 10))
      ⊎ ((fl.lt scaled (fl.ratio 5 10) ≡ false) × (k ≡ scaled))

  -- Times 1.15, but not above 4.
  abbrev pub Raised : F → F → Type 0
  Raised l k =
      let scaled = fl.mul l (fl.ratio 115 100) in
      ((fl.lt (fl.ratio 4 1) scaled ≡ true) × (k ≡ fl.ratio 4 1))
      ⊎ ((fl.lt (fl.ratio 4 1) scaled ≡ false) × (k ≡ scaled))

  -- What comes back, and the new lambda.
  abbrev pub Outcome : F → ℤ → List (PathView F) → Option (PathView F) → F → Type 0
  Outcome l m ps (some p) k =
      ((Usable ps p × Tied fl m p) ⊎ ((n : ℤ) × Fallback m ps p n × (¬ Waits l m n))) × Lowered l k
  Outcome l m ps none k =
      (((q : PathView F) → ¬ Usable ps q) × (k ≡ l))
      ⊎ ((p : PathView F) × (n : ℤ) × Fallback m ps p n × Waits l m n × Raised l k)

  abbrev pub Chosen : HolAware F → List (PathView F) → Option (PathView F) → HolAware F → Type 0
  Chosen h ps o h' = (m : ℤ) × Least (Bonded ps) m × Outcome h.lambda m ps o h'.lambda

  abbrev pub DistinctIds : List (PathView F) → Type 0
  DistinctIds ps = (p q : PathView F) → Among p ps → Among q ps → p.id ≡ q.id → p ≡ q

  decay-Lowered : (h : HolAware F) → Lowered h.lambda (decay fl h).lambda
  unfolding decay
  decay-Lowered h =
      if_intro (Lowered h.lambda) (fl.lt (fl.mul h.lambda (fl.ratio 98 100)) (fl.ratio 5 10))
        (λ e. inl (e, refl)) (λ e. inr (e, refl))

  raise-Raised : (h : HolAware F) → Raised h.lambda (raise fl h).lambda
  unfolding raise
  raise-Raised h =
      if_intro (Raised h.lambda) (fl.lt (fl.ratio 4 1) (fl.mul h.lambda (fl.ratio 115 100)))
        (λ e. inl (e, refl)) (λ e. inr (e, refl))

  abbrev pub Ended : List (PathView F) → ℤ → F → Option (PathView F) × HolAware F → Type 0
  Ended ps m l r = Outcome l m ps r.0 r.1.lambda

  -- Behind the full tied paths.
  waiting :
      (h : HolAware F) (ps : List (PathView F)) (m : ℤ) (o : Option (PathView F × ℤ))
      → OfBest (λ p n. Usable ps p × RoundTrip p n) o
      → ((q : PathView F) → Usable ps q → Below o (measured q.rtt_min))
      → ((q : PathView F) → Usable ps q → ¬ Tied fl m q)
      → Ended ps m h.lambda (use_slow fl h m o)
  unfolding use_slow
  waiting h ps m none b least full = inl ((λ q u. least q u), refl)
  waiting h ps m (some (slow, n)) (u, trip) least full =
      let fallback : Fallback m ps slow n = record {
        full = full;
        usable = u;
        trip = trip;
        least = λ q k v t. subst (λ z. n ≤ℤ z) (sym (RoundTrip-measured q k t)) (least q v);
      } in
      if_intro (Ended ps m h.lambda) (not (ltb_ℤ m unmeasured_rtt))
        (λ g. (inr (n, fallback, λ w. w.0 (ground arith)), decay-Lowered h))
        λ g.
          if_intro (Ended ps m h.lambda) (not (ltb_ℤ m (projected_slow fl h n)))
            (λ k. (inr (n, fallback, λ w. w.1 (ground arith)), decay-Lowered h))
            λ k. inr (slow, n, fallback, ((λ w. ground arith), (λ w. ground arith)), raise-Raised h)

  tied_paths : List (PathView F) → List (PathView F)
  tied_paths ps = (fastest_tied_set fl (active_bond_paths ps)).1

  tied_paths-Tied :
      (ps : List (PathView F)) (p : PathView F)
      → Among p (tied_paths ps)
      → Bonded ps p × Tied fl (fastest_rtt (active_bond_paths ps)) p
  unfolding tied_paths fastest_tied_set active_bond_paths
  tied_paths-Tied ps p here =
      let m = fastest_rtt (active_bond_paths ps) in
      let (inside, tied) = keep_sound (is_tied fl m) (active_bond_paths ps) p here in
      (keep-Bonded ps p inside, is_tied-Tied fl m p tied)

  Tied-tied_paths :
      (ps : List (PathView F)) (p : PathView F)
      → Bonded ps p
      → Tied fl (fastest_rtt (active_bond_paths ps)) p
      → Among p (tied_paths ps)
  unfolding tied_paths fastest_tied_set active_bond_paths
  Tied-tied_paths ps p b t =
      let m = fastest_rtt (active_bond_paths ps) in
      keep_complete (is_tied fl m) (active_bond_paths ps) p (Bonded-keep ps p b)
        (Tied-is_tied fl m p t)

  clash : {A : Type 0} {b : Bool} → b ≡ true → b ≡ false → A
  clash e f = absurd (ground arith)

  -- A usable path is not skipped where the tied paths are full.
  not_skipped :
      (ps : List (PathView F)) (q : PathView F)
      → DistinctIds ps
      → ((r : PathView F) → Among r (tied_paths ps) → has_room r ≡ false)
      → Usable ps q
      → skips (tied_paths ps) q ≡ false
  unfolding skips
  not_skipped ps q ids full u =
      let room = Usable-room ps q u in
      elim (Bool-cases (path_in (tied_paths ps) q)) [
        | inl e ↦
            let (r, a, same) = path_in-Among (tied_paths ps) q e in
            let equal = ids r q (tied_paths-Tied ps r a).0.0 u.0.0 same in
            clash room (subst (λ x. has_room x ≡ false) equal (full r a))
        | inr e ↦ neither (path_in (tied_paths ps) q) (has_room q) e room
      ]
    where
      neither : (a b : Bool) → a ≡ false → b ≡ true → (a || not b) ≡ false
      neither a b e f = ground arith

  skipped_not :
      (ps : List (PathView F)) (q : PathView F)
      → skips (tied_paths ps) q ≡ false
      → has_room q ≡ true
  unfolding skips
  skipped_not ps q s = room (path_in (tied_paths ps) q) (has_room q) s
    where
      room : (a b : Bool) → (a || not b) ≡ false → b ≡ true
      room a b h = ground arith

  -- Behind the loop over the tied paths.
  after_turn :
      (h : HolAware F) (ps : List (PathView F)) (r : Option (ℕ × PathView F))
      → DistinctIds ps
      → (0 < length (tied_paths ps) → h.cursor < length (tied_paths ps))
      → ScanFound has_room (tied_paths ps) h.cursor (length (tied_paths ps)) 0 r
      → let m = fastest_rtt (active_bond_paths ps) in
        Ended ps m h.lambda (
          send_tied fl h
            (length (tied_paths ps))
            m
            (slowest_from (tied_paths ps) none (active_bond_paths ps))
            r)
  unfolding send_tied
  after_turn h ps (some (idx, p)) ids low f =
      let (b, t) = tied_paths-Tied ps p (get_elem?-Among (tied_paths ps) idx p f.entry) in
      (
        inl (room-Usable ps p b f.good, t),
        decay-Lowered (record h { cursor = past (length (tied_paths ps)) idx }),
      )
  after_turn h ps none ids low f =
      let set = active_bond_paths ps in
      let primary = tied_paths ps in
      let full = full_turn_blocks primary h.cursor low f in
      waiting h ps (fastest_rtt set) (slowest_from primary none set)
        (slowest_from-OfBest (λ p n. Usable ps p × RoundTrip p n) primary none set tt
          λ q a s. (
            room-Usable ps q (unfold active_bond_paths in keep-Bonded ps q a) (skipped_not ps q s),
            measured-RoundTrip q,
          ))
        (λ q u.
          found primary none set q (unfold active_bond_paths in Bonded-keep ps q u.0)
            (not_skipped ps q ids full u))
        (λ q u t. clash (Usable-room ps q u) (full q (Tied-tied_paths ps q u.0 t)))

  rewound_lem :
      (h : HolAware F) (n : ℕ)
      → (0 < n → (rewound fl h n).cursor < n) × ((rewound fl h n).lambda ≡ h.lambda)
  rewound_lem h n =
      if_intro (λ (k : HolAware F). (0 < n → k.cursor < n) × (k.lambda ≡ h.lambda))
        (ltb 0 n && leb n h.cursor) {y = h} (λ f. ((λ b. b), refl)) λ f. ((λ b. ground arith), refl)

  full_turn :
      (primary : List (PathView F)) (cursor : ℕ)
      → ScanFound has_room primary cursor
          (length primary)
          0
          (scan has_room primary cursor (length primary) 0)
  full_turn [] cursor = unfold scan in λ k b. absurd (omega arith)
  full_turn (p ∷ ps) cursor = scan-Found has_room (p ∷ ps) cursor (length (p ∷ ps)) 0 (omega arith)

  -- With distinct path ids, HoLAware.Next does one of these things, where a usable path is an
  -- ACTIVE one of role BOND with room, and the tied paths are those whose round trip is at most 15
  -- %, or two milliseconds if that is more, above the least one of all ACTIVE paths of role BOND
  -- (by int64 arithmetic; all of them while none is measured). It returns a usable tied path. Or
  -- no usable path is tied, and it returns a usable path with the least round trip among the
  -- usable ones, the least of all being unmeasured or lambda times the returned path's not above
  -- it. Or the same with lambda times that path's above it, and it returns none. Or no path is
  -- usable, and it returns none. Returning a path scales lambda by 0.98, not below 0.5; waiting
  -- scales it by 1.15, not above 4; with no usable path it stays.
  pub hol_next-Chosen :
      (h : HolAware F) (ps : List (PathView F))
      → DistinctIds ps
      → Chosen h ps (hol_next fl h ps).0 (hol_next fl h ps).1
  unfolding hol_next tied_paths fastest_tied_set
  hol_next-Chosen h ps ids =
      let set = active_bond_paths ps in
      let primary = tied_paths ps in
      let n = length primary in
      let m = fastest_rtt set in
      let outcome : Ended ps m h.lambda (hol_next fl h ps) =
        if_intro (Ended ps m h.lambda) (length set == 0)
          (λ e. inl (
            (λ q u.
                let (j, b, k) = place_of set q (unfold active_bond_paths in Bonded-keep ps q u.0) in
                ground arith),
            refl,
          ))
          λ e.
            let h' = rewound fl h n in
            let (low, same) = rewound_lem h n in
            let r = scan has_room primary h'.cursor n 0 in
            let s = send_tied fl h' n m (slowest_from primary none set) r in
            subst (λ l. Ended ps m l s) same
              (after_turn h' ps r ids low (full_turn primary h'.cursor)) in
      (
        m,
        unfold active_bond_paths in
            fastest_rtt-Least (Bonded ps) set (keep-Bonded ps) (Bonded-keep ps),
        outcome,
      )
