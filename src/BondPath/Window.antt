-- ===== src/BondPath/Window.antt =====
-- core/bond/path.go: the windowed minimum of the round trips, against the whole history of acks.
use bondify.Common.{
  ℕ, ◌≡◌, ◌⊎◌, ◌∙◌, refl, sym, ap, inl, inr, subst, true, false, List, [], ◌∷◌, ◌++◌, arith,
  if◌then◌else◌, Bool-cases, if_intro, All,
}
use mathlib.Core.List.{append-nil, append_assoc}
use bondify.Common.Float.{Float}
use bondify.Common.Int.{ℤ, pos, ltb_ℤ, ◌-ℤ◌, ◌≤ℤ◌, -ℤ_parts}
use bondify.BondPath.{
  BondPath, RttSample, ProbeAckPayload, is_old, prune_old, min_rtt, least_from, rtt_min, new_path,
}
use bondify.BondPath.Health.{fold_ack, verdict, handle_probe_ack, handle_probe_missed}
use bondify.BondPath.Folded.{fold_ack-Folded}
use bondify.BondPath.Graph.{ProbeEvent, acked, missed, handle_event, run, miss_keeps}

-- The samples of the last ten seconds, wherever they stand.
unfoldable pub recent : ℤ → List RttSample → List RttSample
recent now [] = []
recent now (s ∷ samples) = let rest = recent now samples in if is_old now s then rest else s ∷ rest

abbrev InOrder : List RttSample → Type 0
InOrder [] = Unit
InOrder (s ∷ samples) = All (λ (r : RttSample). s.at ≤ℤ r.at) samples × InOrder samples

abbrev Until : ℤ → List RttSample → Type 0
Until t samples = All (λ (r : RttSample). r.at ≤ℤ t) samples

is_old_mono :
    (t u : ℤ) (s r : RttSample) → t ≤ℤ u → r.at ≤ℤ s.at → is_old t s ≡ true → is_old u r ≡ true
is_old_mono t u s r h k e = ground (arith, -ℤ_parts t s.at, -ℤ_parts u r.at)

recent-append :
    (now : ℤ) (xs ys : List RttSample) → recent now (xs ++ ys) ≡ recent now xs ++ recent now ys
unfolding recent
recent-append now [] ys = refl
recent-append now (x ∷ xs) ys = elim (Bool-cases (is_old now x)) [
  | inl e ↦ rw e (recent-append now xs ys)
  | inr e ↦ rw e (ap (λ (l : List RttSample). x ∷ l) (recent-append now xs ys))
]

-- What was old at an earlier time is old.
recent-recent : (t u : ℤ) (xs : List RttSample) → t ≤ℤ u → recent u (recent t xs) ≡ recent u xs
unfolding recent
recent-recent t u [] h = refl
recent-recent t u (x ∷ xs) h = elim (Bool-cases (is_old t x)) [
  | inl e ↦ rw (e, is_old_mono t u x x h (omega arith) e) (recent-recent t u xs h)
  | inr e ↦
      rw e (ap (λ (l : List RttSample). if is_old u x then l else x ∷ l) (recent-recent t u xs h))
]

nothing_old :
    (now : ℤ) (s : RttSample) (xs : List RttSample)
    → is_old now s ≡ false
    → All (λ (r : RttSample). s.at ≤ℤ r.at) xs
    → recent now xs ≡ xs
unfolding recent
nothing_old now s [] e a = refl
nothing_old now s (x ∷ xs) e (h, a) = elim (Bool-cases (is_old now x)) [
  | inl f ↦ absurd (let g = is_old_mono now now x s (omega arith) h f in cc)
  | inr f ↦ rw f (ap (λ (l : List RttSample). x ∷ l) (nothing_old now s xs e a))
]

-- In the order of time, a cut at the first recent sample is as good as a filter.
prune_old-eq-recent :
    (xs : List RttSample) (now : ℤ) → InOrder xs → prune_old xs now ≡ recent now xs
unfolding prune_old recent
prune_old-eq-recent [] now o = refl
prune_old-eq-recent (x ∷ xs) now (h, o) = elim (Bool-cases (is_old now x)) [
  | inl e ↦ rw e (prune_old-eq-recent xs now o)
  | inr e ↦ rw e (ap (λ (l : List RttSample). x ∷ l) (sym (nothing_old now x xs e h)))
]

All-recent :
    (P : RttSample → Type 0) (now : ℤ) (xs : List RttSample) → All P xs → All P (recent now xs)
unfolding recent
All-recent P now [] a = tt
All-recent P now (x ∷ xs) (p, a) =
    if_intro (All P) (is_old now x) (λ _. All-recent P now xs a) (λ _. (p, All-recent P now xs a))

recent-InOrder : (now : ℤ) (xs : List RttSample) → InOrder xs → InOrder (recent now xs)
unfolding recent
recent-InOrder now [] o = tt
recent-InOrder now (x ∷ xs) (h, o) =
    if_intro InOrder (is_old now x) (λ _. recent-InOrder now xs o)
      (λ _. (All-recent (λ (r : RttSample). x.at ≤ℤ r.at) now xs h, recent-InOrder now xs o))

snoc-InOrder :
    (s : RttSample) (xs : List RttSample) → InOrder xs → Until s.at xs → InOrder (xs ++ s ∷ [])
snoc-InOrder s [] o u = (tt, tt)
snoc-InOrder s (x ∷ xs) (h, o) (k, u) = (snoc-All xs h, snoc-InOrder s xs o u)
  where
    snoc-All :
        (ys : List RttSample)
        → All (λ (r : RttSample). x.at ≤ℤ r.at) ys
        → All (λ (r : RttSample). x.at ≤ℤ r.at) (ys ++ s ∷ [])
    snoc-All [] a = (k, tt)
    snoc-All (y ∷ ys) (b, a) = (b, snoc-All ys a)

Until-snoc :
    (s : RttSample) (t : ℤ) (xs : List RttSample)
    → t ≤ℤ s.at
    → Until t xs
    → Until s.at (xs ++ s ∷ [])
Until-snoc s t [] h u = (omega arith, tt)
Until-snoc s t (x ∷ xs) h (k, u) = (omega arith, Until-snoc s t xs h u)

Until-mono : (t u : ℤ) (xs : List RttSample) → t ≤ℤ u → Until t xs → Until u xs
Until-mono t u [] h a = tt
Until-mono t u (x ∷ xs) h (k, a) = (omega arith, Until-mono t u xs h a)

abbrev pub event_time : ProbeEvent → ℤ
event_time (acked ack now) = now
event_time (missed now) = now

-- The events happen one after the other, from `t` on and up to `u`.
abbrev pub Timed : ℤ → List ProbeEvent → ℤ → Type 0
Timed t [] u = t ≤ℤ u
Timed t (e ∷ es) u = (t ≤ℤ event_time e) × Timed (event_time e) es u

-- The round trip that each timely ack shows, with the time of the ack.
unfoldable pub history : List ProbeEvent → List RttSample
history [] = []
history (missed now ∷ es) = history es
history (acked ack now ∷ es) =
    let rest = history es in
    if ltb_ℤ (now -ℤ ack.sent_at) (pos 0)
    then rest
    else record { at = now; rtt = now -ℤ ack.sent_at } ∷ rest

abbrev Has : ℤ → List RttSample → Type 0
Has m [] = ⊥
Has m (s ∷ samples) = (s.rtt ≡ m) ⊎ Has m samples

-- `m` is the least round trip among the samples, or 0 where there are none.
abbrev pub IsLeast : ℤ → List RttSample → Type 0
IsLeast m [] = m ≡ pos 0
IsLeast m (s ∷ samples) = All (λ (r : RttSample). m ≤ℤ r.rtt) (s ∷ samples) × Has m (s ∷ samples)

least_from-least :
    (m : ℤ) (xs : List RttSample)
    → (least_from m xs ≤ℤ m)
      × All (λ (r : RttSample). least_from m xs ≤ℤ r.rtt) xs
      × ((least_from m xs ≡ m) ⊎ Has (least_from m xs) xs)
unfolding least_from
least_from-least m [] = (omega arith, tt, inl refl)
least_from-least m (x ∷ xs) =
    let (a, b, c) = least_from-least (if ltb_ℤ x.rtt m then x.rtt else m) xs in
    let (k, l, w) = lesser x.rtt m in
    (
      omega arith,
      (omega arith, b),
      elim c [
        | inl e ↦ elim w [ inl f ↦ inl (e ∙ f) | inr f ↦ inr (inl (sym (e ∙ f))) ]
        | inr h ↦ inr (inr h)
      ],
    )
  where
    lesser :
        (x m : ℤ) → let r = if ltb_ℤ x m then x else m in (r ≤ℤ m) × (r ≤ℤ x) × ((r ≡ m) ⊎ (r ≡ x))
    lesser x m =
        if_intro (λ r. (r ≤ℤ m) × (r ≤ℤ x) × ((r ≡ m) ⊎ (r ≡ x))) (ltb_ℤ x m)
          (λ e. (ground arith, omega arith, inr refl)) λ e. (omega arith, ground arith, inl refl)

min_rtt-IsLeast : (xs : List RttSample) → IsLeast (min_rtt xs) xs
unfolding min_rtt
min_rtt-IsLeast [] = refl
min_rtt-IsLeast (x ∷ xs) =
    let (a, b, c) = least_from-least x.rtt xs in
    ((a, b), elim c [ inl f ↦ inl (sym f) | inr h ↦ inr h ])

module _ {F : Type 0} (fl : Float F) where
  -- The path's samples are in order, none is later than `t`, and from `t` on they show the same
  -- recent samples as the history does.
  record Windowed (t : ℤ) (past : List RttSample) (p : BondPath F) : Type 0 where
    order : InOrder p.rtt_samples
    until : Until t p.rtt_samples
    agrees : (u : ℤ) → t ≤ℤ u → recent u p.rtt_samples ≡ recent u past

  Windowed-mono :
      (t u : ℤ) (past : List RttSample) (p q : BondPath F)
      → t ≤ℤ u
      → q.rtt_samples ≡ p.rtt_samples
      → Windowed t past p
      → Windowed u past q
  Windowed-mono t u past p q h e w = record {
    order = subst InOrder (sym e) w.order;
    until = subst (Until u) (sym e) (Until-mono t u p.rtt_samples h w.until);
    agrees = λ v k. ap (recent v) e ∙ w.agrees v (omega arith);
  }

  abbrev sample_of : ProbeAckPayload → ℤ → RttSample
  sample_of ack now = record { at = now; rtt = now -ℤ ack.sent_at }

  -- One sample more.
  ack-Windowed :
      (t : ℤ) (past : List RttSample) (p q : BondPath F) (ack : ProbeAckPayload) (now : ℤ)
      → t ≤ℤ now
      → q.rtt_samples ≡ prune_old (p.rtt_samples ++ sample_of ack now ∷ []) now
      → Windowed t past p
      → Windowed now (past ++ sample_of ack now ∷ []) q
  ack-Windowed t past p q ack now h e w =
      let s = sample_of ack now in
      let xs = p.rtt_samples ++ s ∷ [] in
      let o = snoc-InOrder s p.rtt_samples w.order (Until-mono t now p.rtt_samples h w.until) in
      let f = e ∙ prune_old-eq-recent xs now o in
      record {
        order = subst InOrder (sym f) (recent-InOrder now xs o);
        until = subst (Until now) (sym f) (
            All-recent (λ (r : RttSample). r.at ≤ℤ now) now xs
              (Until-snoc s t p.rtt_samples h w.until));
        agrees = λ u k.
            ap (recent u) f
            ∙ recent-recent now u xs k
            ∙ recent-append u p.rtt_samples (s ∷ [])
            ∙ ap (λ (l : List RttSample). l ++ recent u (s ∷ [])) (w.agrees u (omega arith))
            ∙ sym (recent-append u past (s ∷ []));
      }

  run-Windowed :
      (t u : ℤ) (es : List ProbeEvent) (past : List RttSample) (p : BondPath F)
      → Timed t es u
      → Windowed t past p
      → Windowed u (past ++ history es) (run fl es p)
  unfolding run handle_event history handle_probe_ack
  run-Windowed t u [] past p h w =
      subst (λ l. Windowed u l p) (sym (append-nil past)) (Windowed-mono t u past p p h refl w)
  run-Windowed t u (missed now ∷ es) past p (h, k) w =
      run-Windowed now u es past (handle_probe_missed now p) k
        (Windowed-mono t now past p (handle_probe_missed now p) h ((miss_keeps now p).1) w)
  run-Windowed t u (acked ack now ∷ es) past p (h, k) w =
      elim (Bool-cases (ltb_ℤ (now -ℤ ack.sent_at) (pos 0))) [
        | inl e ↦ rw e (run-Windowed now u es past p k (Windowed-mono t now past p p h refl w))
        | inr e ↦
            let s = sample_of ack now in
            let f = fold_ack fl ack now p in
            let q = record f {
              last_probe_ack_at = now;
              state = verdict fl f.state f.loss_ewma f.healthy_probes;
            } in
            rw e (
              subst (λ l. Windowed u l (run fl es q)) (append_assoc past (s ∷ []) (history es))
                (run-Windowed now u es (past ++ s ∷ []) q k
                  (ack-Windowed t past p q ack now h ((fold_ack-Folded fl ack now p).samples) w)))
      ]

  -- However the probes of a path are answered or missed, one event after the other, RTTMin is the
  -- least round trip of all timely acks that are at most ten seconds old, and 0 where there is
  -- none: the pruning on the way loses nothing.
  pub rtt_min-IsLeast :
      (id : ℕ) (es : List ProbeEvent) (start now : ℤ)
      → Timed start es now
      → IsLeast (rtt_min now (run fl es (new_path fl id))).0 (recent now (history es))
  unfolding rtt_min
  rtt_min-IsLeast id es start now h =
      let w =
        run-Windowed start now es [] (new_path fl id) h
          (record { order = tt; until = tt; agrees = λ u k. refl }) in
      let xs = (run fl es (new_path fl id)).rtt_samples in
      let e = prune_old-eq-recent xs now w.order ∙ w.agrees now (omega arith) in
      rw e (min_rtt-IsLeast (recent now (history es)))
