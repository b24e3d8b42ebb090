-- ===== src/BondPath/Arrows.antt =====
-- core/bond/path.go: the arrows between a path's states, each with the event that takes it and its
-- guard, against the two handlers.
use bondify.Common.{
  ℕ, ◌+◌, ◌≤◌, ◌≡◌, ◌≢◌, ◌⊎◌, refl, inl, inr, Bool, true, false, ◌&&◌, arith, leb, if_intro,
}
use bondify.Common.Float.{Float}
use bondify.Common.Int.{ℤ, pos, ltb_ℤ, ◌-ℤ◌, ◌≤ℤ◌}
use bondify.Sched.{State, joining, active, degraded, dead}
use bondify.BondPath.{BondPath, ProbeAckPayload}
use bondify.BondPath.Folded.{fold_ack-Folded}
use bondify.BondPath.Graph.{
  ProbeEvent, acked, missed, over_iff, after_miss, three_missed, handle_probe_missed-state,
}
use bondify.BondPath.Health.{
  fold_ack, verdict, handle_probe_ack, handle_probe_missed, is_low, is_silent,
}

-- An ack that arrives before its probe was sent is ignored.
abbrev pub early : ProbeAckPayload → ℤ → Bool
early ack now = ltb_ℤ (now -ℤ ack.sent_at) (pos 0)

-- Something came from the peer before, the last time over ten seconds ago.
abbrev pub Silent : ℤ → ℤ → Type 0
Silent last now = (last ≢ pos 0) × (¬ (now -ℤ last ≤ℤ pos 10_000_000_000))

module _ {F : Type 0} (fl : Float F) where
  -- The arrows that an event takes after `m` missed and `h` answered probes in a row: `loss` is the
  -- averaged loss with the event's own interval, `last` the time of the last packet from the peer.
  pub data Arrow (m h : ℕ) (loss : F) (last : ℤ) : ProbeEvent → State → State → Type 0 where
    join :
        (ack : ProbeAckPayload) (now : ℤ)
        → early ack now ≡ false
        → Arrow m h loss last (acked ack now) joining active
    lossy :
        (ack : ProbeAckPayload) (now : ℤ)
        → early ack now ≡ false
        → fl.lt (fl.ratio 15 100) loss ≡ true
        → Arrow m h loss last (acked ack now) active degraded
    recover :
        (ack : ProbeAckPayload) (now : ℤ)
        → early ack now ≡ false
        → fl.lt (fl.ratio 15 100) loss ≡ false
        → 3 ≤ h + 1
        → Arrow m h loss last (acked ack now) degraded active
    unanswered :
        (now : ℤ) → 3 ≤ m + 1 → ¬ Silent last now → Arrow m h loss last (missed now) active degraded
    expire :
        (now : ℤ) (s : State) → s ≢ dead → Silent last now → Arrow m h loss last (missed now) s dead

  -- The state stays or takes an arrow, and an arrow that it can take it takes.
  pub record Moved (m h : ℕ) (loss : F) (last : ℤ) (e : ProbeEvent) (s t : State) : Type 0 where
    pub along : (t ≡ s) ⊎ Arrow m h loss last e s t
    pub taken : (u : State) → Arrow m h loss last e s u → t ≡ u

  module _ (m h : ℕ) (loss : F) (last : ℤ) where
    missed_along :
        (now : ℤ) (s : State) (three silent : Bool)
        → (three ≡ true → 3 ≤ m + 1)
        → (silent ≡ true → Silent last now)
        → (silent ≡ false → ¬ Silent last now)
        → (after_miss s three silent ≡ s)
          ⊎ Arrow m h loss last (missed now) s (after_miss s three silent)
    unfolding after_miss
    missed_along now joining three true a b c =
        inr (expire now joining (λ e. ground arith) (b refl))
    missed_along now active three true a b c = inr (expire now active (λ e. ground arith) (b refl))
    missed_along now degraded three true a b c =
        inr (expire now degraded (λ e. ground arith) (b refl))
    missed_along now dead three true a b c = inl refl
    missed_along now joining true false a b c = inl refl
    missed_along now joining false false a b c = inl refl
    missed_along now active true false a b c = inr (unanswered now (a refl) (c refl))
    missed_along now active false false a b c = inl refl
    missed_along now degraded true false a b c = inl refl
    missed_along now degraded false false a b c = inl refl
    missed_along now dead true false a b c = inl refl
    missed_along now dead false false a b c = inl refl

    missed_taken :
        (now : ℤ) (three silent : Bool)
        → (3 ≤ m + 1 → three ≡ true)
        → (silent ≡ true → Silent last now)
        → (silent ≡ false → ¬ Silent last now)
        → {s u : State} → Arrow m h loss last (missed now) s u
        → after_miss s three silent ≡ u
    unfolding after_miss
    missed_taken now three true a b c (unanswered _ most quiet) = absurd (quiet (b refl))
    missed_taken now three false a b c (unanswered _ most quiet) = rw (a most) refl
    missed_taken now three true a b c (expire _ _ ne silent) = refl
    missed_taken now three false a b c (expire _ _ ne silent) = absurd (c refl silent)

    acked_along :
        (ack : ProbeAckPayload) (now : ℤ) (s : State)
        → early ack now ≡ false
        → (verdict fl s loss (h + 1) ≡ s)
          ⊎ Arrow m h loss last (acked ack now) s (verdict fl s loss (h + 1))
    unfolding verdict
    acked_along ack now joining e = inr (join ack now e)
    acked_along ack now active e =
        if_intro (λ t. (t ≡ active) ⊎ Arrow m h loss last (acked ack now) active t)
          (fl.lt (fl.ratio 15 100) loss) (λ f. inr (lossy ack now e f)) (λ f. inl refl)
    acked_along ack now degraded e =
        if_intro (λ t. (t ≡ degraded) ⊎ Arrow m h loss last (acked ack now) degraded t)
          (is_low fl loss && leb 3 (h + 1))
          (λ f. inr (recover ack now e (ground arith) (ground arith))) (λ f. inl refl)
    acked_along ack now dead e = inl refl

    acked_taken :
        (ack : ProbeAckPayload) (now : ℤ) {s u : State}
        → Arrow m h loss last (acked ack now) s u
        → (verdict fl s loss (h + 1) ≡ u) × (early ack now ≡ false)
    unfolding verdict
    acked_taken ack now (join _ _ e) = (refl, e)
    acked_taken ack now (lossy _ _ e f) = (rw f refl, e)
    acked_taken ack now (recover _ _ e f g) = (ground arith, e)

  -- One event, on a path that has these counters.
  pub missed-Moved :
      (now : ℤ) (p : BondPath F) (loss : F)
      → Moved p.missed_probes p.healthy_probes loss p.last_probe_ack_at
          (missed now)
          p.state
          (handle_probe_missed now p).state
  unfolding three_missed
  missed-Moved now p loss =
      let m = p.missed_probes in
      let last = p.last_probe_ack_at in
      let (f, g) = over_iff last (now -ℤ last) in
      let quiet = λ (e : is_silent now p ≡ false) (s : Silent last now). clash (g s) e in
      rw (handle_probe_missed-state now p) (record {
        along =
            missed_along m p.healthy_probes loss last now p.state (three_missed p) (is_silent now p)
              (λ e. ground arith) f quiet;
        taken = λ u a.
            missed_taken m p.healthy_probes loss last now (three_missed p) (is_silent now p)
              (λ e. ground arith) f quiet a;
      })
    where
      clash : {b : Bool} → b ≡ true → b ≡ false → ⊥
      clash e f = ground arith

  pub acked-Moved :
      (ack : ProbeAckPayload) (now : ℤ) (p : BondPath F)
      → Moved p.missed_probes p.healthy_probes
          (handle_probe_ack fl ack now p).loss_ewma
          p.last_probe_ack_at
          (acked ack now)
          p.state
          (handle_probe_ack fl ack now p).state
  unfolding handle_probe_ack
  acked-Moved ack now p =
      let q = fold_ack fl ack now p in
      let f = fold_ack-Folded fl ack now p in
      let M = Moved p.missed_probes p.healthy_probes in
      if_intro
        (λ (t : BondPath F). M t.loss_ewma p.last_probe_ack_at (acked ack now) p.state t.state)
        (early ack now)
        (λ e. record {
          along = inl refl;
          taken = λ u a. absurd (
              clash e
                (acked_taken p.missed_probes p.healthy_probes p.loss_ewma p.last_probe_ack_at ack
                  now a).1);
        })
        (λ e.
          rw (f.state, f.healthy)
            (record {
              along =
                  acked_along p.missed_probes p.healthy_probes q.loss_ewma p.last_probe_ack_at ack
                    now p.state e;
              taken = λ u a.
                  (acked_taken p.missed_probes p.healthy_probes q.loss_ewma p.last_probe_ack_at ack
                    now a).0;
            }))
    where
      clash : {b : Bool} → b ≡ true → b ≡ false → ⊥
      clash e f = ground arith
