-- ===== src/BondPath/Graph.antt =====
-- core/bond/path.go: the diagram of a path's states (PROTOCOL.md, section 5) against the code.
use bondify.Common.{
  ℕ, zero, suc, ◌+◌, ◌≡◌, ◌≢◌, ◌↔◌, refl, sym, inl, inr, subst, Bool, true, false, ◌&&◌, not, List,
  [], ◌∷◌, arith, leb, if◌then◌else◌, Bool-cases, if_intro,
}
use bondify.Common.Float.{Float}
use bondify.Common.Int.{ℤ, pos, negsuc, ltb_ℤ, ◌-ℤ◌, ◌≤ℤ◌}
use bondify.Sched.{State, joining, active, degraded, dead, is_active}
use bondify.BondPath.{
  BondPath, ProbeAckPayload, is_never, path_dead_timeout, missed_probes_to_degrade,
  healthy_probes_to_undegrade,
}
use bondify.BondPath.Folded.{fold_ack-Folded}
use bondify.BondPath.Health.{
  fold_ack, verdict, handle_probe_ack, handle_probe_missed, is_silent, is_low, degrade_loss,
  degrade, count_miss, kill_if, degrade_if,
}

-- What the probe loop and the read loop tell a path.
pub data ProbeEvent : Type 0 where
  acked : ProbeAckPayload → ℤ → ProbeEvent
  missed : ℤ → ProbeEvent

infix 40 ◌⟶◌ ◌⟶*◌
-- An arrow's label is the event's part that the diagram writes on it.
pub data ◌⟶◌ : State → State → Type 0 where
  join : joining ⟶ active
  spike : active ⟶ degraded
  recover : degraded ⟶ active
  expire : {s : State} → s ≢ dead → s ⟶ dead

pub data ◌⟶*◌ : State → State → Type 0 where
  here : {s : State} → s ⟶* s
  step : {s t u : State} → s ⟶ t → t ⟶* u → s ⟶* u

pub ⟶*-trans : {s t u : State} → s ⟶* t → t ⟶* u → s ⟶* u
⟶*-trans here q = q
⟶*-trans (step e p) q = step e (⟶*-trans p q)

-- The test for silence, on the two times it looks at.
abbrev pub over : ℤ → ℤ → Bool
over last since = not (is_never last) && ltb_ℤ path_dead_timeout since

pub over_iff :
    (last since : ℤ) → (over last since ≡ true) ↔ (last ≢ pos 0) × (¬ (since ≤ℤ pos 10_000_000_000))
over_iff (pos zero) since = (λ e. absurd (ground arith), λ c. absurd (c.0 refl))
over_iff (pos (suc n)) since = (
  λ e. (λ f. absurd (ground arith), λ f. absurd (ground arith)),
  λ c. (let k = c.1 in ground arith),
)
over_iff (negsuc n) since = (
  λ e. (λ f. absurd (ground arith), λ f. absurd (ground arith)),
  λ c. (let k = c.1 in ground arith),
)

one : {s t : State} → s ⟶ t → s ⟶* t
one e = step e here

unfoldable pub after_miss : State → Bool → Bool → State
after_miss s three silent = if silent then dead else if three && is_active s then degraded else s

after_miss-⟶* : (s : State) (three silent : Bool) → s ⟶* after_miss s three silent
unfolding after_miss
after_miss-⟶* joining three true = one (expire (ground arith))
after_miss-⟶* active three true = one (expire (ground arith))
after_miss-⟶* degraded three true = one (expire (ground arith))
after_miss-⟶* dead three true = here
after_miss-⟶* joining true false = here
after_miss-⟶* joining false false = here
after_miss-⟶* active true false = one spike
after_miss-⟶* active false false = here
after_miss-⟶* degraded true false = here
after_miss-⟶* degraded false false = here
after_miss-⟶* dead true false = here
after_miss-⟶* dead false false = here

after_miss-eq-dead :
    (s : State) (three silent : Bool)
    → s ≢ dead
    → (after_miss s three silent ≡ dead) ↔ (silent ≡ true)
unfolding after_miss
after_miss-eq-dead s three true ne = (λ _. refl, λ _. refl)
after_miss-eq-dead joining true false ne = (λ e. absurd (ground arith), λ e. absurd (ground arith))
after_miss-eq-dead joining false false ne = (λ e. absurd (ground arith), λ e. absurd (ground arith))
after_miss-eq-dead active true false ne = (λ e. absurd (ground arith), λ e. absurd (ground arith))
after_miss-eq-dead active false false ne = (λ e. absurd (ground arith), λ e. absurd (ground arith))
after_miss-eq-dead degraded true false ne = (λ e. absurd (ground arith), λ e. absurd (ground arith))
after_miss-eq-dead degraded false false ne =
    (λ e. absurd (ground arith), λ e. absurd (ground arith))
after_miss-eq-dead dead three false ne = absurd (ne refl)

module _ {F : Type 0} where
  unfoldable pub three_missed : BondPath F → Bool
  three_missed p = leb missed_probes_to_degrade (p.missed_probes + 1)

  -- The two tests of HandleProbeMissed look at the path as it was.
  pub handle_probe_missed-state :
      (now : ℤ) (p : BondPath F)
      → (handle_probe_missed now p).state ≡ after_miss p.state (three_missed p) (is_silent now p)
  unfolding handle_probe_missed three_missed after_miss
  handle_probe_missed-state now p =
      elim (Bool-cases (leb missed_probes_to_degrade (p.missed_probes + 1) && is_active p.state)) [
        | inl e ↦ rw e (split (degrade (count_miss p)) (is_silent now p))
        | inr e ↦ rw e (split (count_miss p) (is_silent now p))
      ]
    where
      split : (q : BondPath F) (b : Bool) → (kill_if b q).state ≡ (if b then dead else q.state)
      split q true = refl
      split q false = refl

  pub miss_keeps :
      (now : ℤ) (p : BondPath F)
      → ((handle_probe_missed now p).missed_probes ≡ p.missed_probes + 1)
        × ((handle_probe_missed now p).rtt_samples ≡ p.rtt_samples)
  unfolding handle_probe_missed
  miss_keeps now p =
      let third = leb missed_probes_to_degrade (p.missed_probes + 1) && is_active p.state in
      kept third (is_silent now (degrade_if third (count_miss p))) (count_miss p)
    where
      kept :
          (b c : Bool) (q : BondPath F)
          → ((kill_if c (degrade_if b q)).missed_probes ≡ q.missed_probes)
            × ((kill_if c (degrade_if b q)).rtt_samples ≡ q.rtt_samples)
      kept true true q = (refl, refl)
      kept true false q = (refl, refl)
      kept false true q = (refl, refl)
      kept false false q = (refl, refl)

module _ {F : Type 0} (fl : Float F) where
  unfoldable pub handle_event : ProbeEvent → BondPath F → BondPath F
  handle_event (acked ack now) p = handle_probe_ack fl ack now p
  handle_event (missed now) p = handle_probe_missed now p

  unfoldable pub run : List ProbeEvent → BondPath F → BondPath F
  run [] p = p
  run (e ∷ es) p = run es (handle_event e p)

  verdict-⟶* : (s : State) (loss : F) (healthy : ℕ) → s ⟶* verdict fl s loss healthy
  unfolding verdict
  verdict-⟶* joining loss healthy = one join
  verdict-⟶* active loss healthy =
      if_intro (λ t. active ⟶* t) (fl.lt (degrade_loss fl) loss) (λ _. one spike) (λ _. here)
  verdict-⟶* degraded loss healthy =
      if_intro (λ t. degraded ⟶* t) (is_low fl loss && leb healthy_probes_to_undegrade healthy)
        (λ _. one recover) (λ _. here)
  verdict-⟶* dead loss healthy = here

  acked-⟶* :
      (ack : ProbeAckPayload) (now : ℤ) (p : BondPath F)
      → p.state ⟶* (handle_probe_ack fl ack now p).state
  unfolding handle_probe_ack
  acked-⟶* ack now p =
      if_intro (λ (q : BondPath F). p.state ⟶* q.state) (ltb_ℤ (now -ℤ ack.sent_at) (pos 0))
        (λ _. here)
        (λ _.
          let f = fold_ack fl ack now p in
          subst (λ s. s ⟶* verdict fl f.state f.loss_ewma f.healthy_probes)
            (fold_ack-Folded fl ack now p).state (verdict-⟶* f.state f.loss_ewma f.healthy_probes))

  missed-⟶* : (now : ℤ) (p : BondPath F) → p.state ⟶* (handle_probe_missed now p).state
  missed-⟶* now p =
      subst (λ t. p.state ⟶* t) (sym (handle_probe_missed-state now p))
        (after_miss-⟶* p.state (three_missed p) (is_silent now p))

  -- A path's state moves along the arrows of the diagram only, whatever probes are answered or
  -- missed, and whenever: from JOINING to ACTIVE, between ACTIVE and DEGRADED, and from each state
  -- but DEAD to DEAD.
  pub run-⟶* : (es : List ProbeEvent) (p : BondPath F) → p.state ⟶* (run es p).state
  unfolding run handle_event
  run-⟶* [] p = here
  run-⟶* (acked ack now ∷ es) p =
      ⟶*-trans (acked-⟶* ack now p) (run-⟶* es (handle_probe_ack fl ack now p))
  run-⟶* (missed now ∷ es) p = ⟶*-trans (missed-⟶* now p) (run-⟶* es (handle_probe_missed now p))

  dead-⟶* : {s t : State} → s ⟶* t → s ≡ dead → t ≡ dead
  dead-⟶* here e = e
  dead-⟶* (step join p) e = absurd (ground arith)
  dead-⟶* (step spike p) e = absurd (ground arith)
  dead-⟶* (step recover p) e = absurd (ground arith)
  dead-⟶* (step (expire ne) p) e = absurd (ne e)

  -- No probe event brings a DEAD path back, and a path that is not DEAD dies at a missed probe
  -- exactly when something came from the peer before, the last time over ten seconds ago.
  pub death :
      (p : BondPath F)
      → (p.state ≡ dead → (es : List ProbeEvent) → (run es p).state ≡ dead)
        × ((now : ℤ)
            → p.state ≢ dead
            → ((handle_probe_missed now p).state ≡ dead)
              ↔ (p.last_probe_ack_at ≢ pos 0)
                × (¬ (now -ℤ p.last_probe_ack_at ≤ℤ pos 10_000_000_000)))
  unfolding after_miss three_missed
  death p = (
    (λ e es. dead-⟶* (run-⟶* es p) e),
    (λ now ne.
        rw (handle_probe_missed-state now p)
          (decide p.state (three_missed p) p.last_probe_ack_at (now -ℤ p.last_probe_ack_at) ne)),
  )
    where
      decide :
          (s : State) (three : Bool) (last since : ℤ)
          → s ≢ dead
          → (after_miss s three (over last since) ≡ dead)
            ↔ (last ≢ pos 0) × (¬ (since ≤ℤ pos 10_000_000_000))
      decide s three last since ne =
          let (f, g) = after_miss-eq-dead s three (over last since) ne in
          let (h, k) = over_iff last since in (λ e. h (f e), λ c. g (k c))
