-- ===== src/BondPath/Hysteresis.antt =====
-- core/bond/path.go: how answered probes bring a path back into use.
use bondify.Common.{
  ℕ, zero, suc, ◌+◌, ◌-◌, ◌%◌, ◌^◌, ◌<◌, ◌≤◌, ◌≡◌, ◌≢◌, ◌⊎◌, ◌↔◌, ◌∙◌, refl, sym, ap, ap₂, inl, inr,
  subst, true, ◌&&◌, List, [], ◌∷◌, arith, leb, Bool-cases, if_intro, length, All,
}
use bondify.Common.Float.{Float}
use bondify.Common.Int.{ℤ, pos, ltb_ℤ, ◌-ℤ◌, ◌≤ℤ◌}
use bondify.Congestion.{float_zero}
use bondify.Sched.{State, joining, active, degraded, dead}
use bondify.BondPath.{BondPath, ProbeAckPayload, sub_u32}
use bondify.BondPath.Health.{
  fold_ack, verdict, handle_probe_ack, is_low, degrade_loss, averaged, inst_loss,
}
use bondify.BondPath.Folded.{fold_ack-Folded, next_loss}
use bondify.BondPath.Graph.{ProbeEvent, acked, handle_event, run}

abbrev pub Ack : Type 0
Ack = ProbeAckPayload × ℤ

-- The round trip that the ack shows is not negative.
abbrev pub IsTimely : Ack → Type 0
IsTimely (ack, now) = pos 0 ≤ℤ (now -ℤ ack.sent_at)

-- The ack echoes the counter `k` of sent packets.
abbrev pub Echoes : ℕ → Ack → Type 0
Echoes k (ack, now) = ack.sent_psn ≡ k

abbrev pub acks : List Ack → List ProbeEvent
acks [] = []
acks ((ack, now) ∷ rest) = acked ack now ∷ acks rest

abbrev pub IsSettled : State → Type 0
IsSettled s = (s ≡ active) ⊎ (s ≡ degraded)

module _ {F : Type 0} (fl : Float F) where
  -- What a timely ack makes of the fields that the verdict looks at.
  record Judged (ack : ProbeAckPayload) (p q : BondPath F) : Type 0 where
    state : q.state ≡ verdict fl p.state q.loss_ewma q.healthy_probes
    healthy : q.healthy_probes ≡ p.healthy_probes + 1
    loss : q.loss_ewma ≡ next_loss fl ack p
    acked_psn : q.last_probe_acked_psn ≡ ack.sent_psn

  ack-Judged :
      (ack : ProbeAckPayload) (now : ℤ) (p : BondPath F)
      → IsTimely (ack, now)
      → Judged ack p (handle_probe_ack fl ack now p)
  unfolding handle_probe_ack
  ack-Judged ack now p h =
      let f = fold_ack-Folded fl ack now p in
      if_intro (Judged ack p) (ltb_ℤ (now -ℤ ack.sent_at) (pos 0)) (λ e. absurd (ground arith))
        (λ e. record {
          state =
              ap
                (λ s.
                  verdict fl s (fold_ack fl ack now p).loss_ewma
                    (fold_ack fl ack now p).healthy_probes)
                f.state;
          healthy = f.healthy;
          loss = f.loss;
          acked_psn = f.acked;
        })

  verdict-IsSettled :
      (s : State) (loss : F) (healthy : ℕ) → s ≢ dead → IsSettled (verdict fl s loss healthy)
  unfolding verdict
  verdict-IsSettled joining loss healthy ne = inl refl
  verdict-IsSettled active loss healthy ne =
      if_intro IsSettled (fl.lt (degrade_loss fl) loss) (λ _. inr refl) (λ _. inl refl)
  verdict-IsSettled degraded loss healthy ne =
      if_intro IsSettled (is_low fl loss && leb 3 healthy) (λ _. inl refl) (λ _. inr refl)
  verdict-IsSettled dead loss healthy ne = absurd (ne refl)

  verdict-eq-active :
      (s : State) (loss : F) (healthy : ℕ)
      → IsSettled s
      → 3 ≤ healthy
      → (verdict fl s loss healthy ≡ active) ↔ (is_low fl loss ≡ true)
  unfolding verdict
  verdict-eq-active joining loss healthy s h = absurd (ground arith)
  verdict-eq-active dead loss healthy s h = absurd (ground arith)
  verdict-eq-active active loss healthy s h = elim (Bool-cases (fl.lt (degrade_loss fl) loss)) [
    | inl e ↦ (rw e (λ f. absurd (ground arith)), rw e (λ f. absurd (ground arith)))
    | inr e ↦ (rw e (λ f. refl), rw e (λ f. refl))
  ]
  verdict-eq-active degraded loss healthy s h =
      let k : leb 3 healthy ≡ true = ground arith in
      elim (Bool-cases (fl.lt (degrade_loss fl) loss)) [
        | inl e ↦ (rw e (λ f. absurd (ground arith)), rw e (λ f. absurd (ground arith)))
        | inr e ↦ (rw e (λ f. refl), rw (e, k) (λ f. refl))
      ]

  settled-ne-dead : (s : State) → IsSettled s → s ≢ dead
  settled-ne-dead s h e = ground arith

  -- From a settled state on, the last ack decides.
  last_decides :
      (a : Ack) (rest : List Ack) (p : BondPath F)
      → All IsTimely (a ∷ rest)
      → IsSettled p.state
      → 3 ≤ p.healthy_probes + length (a ∷ rest)
      → let q = run fl (acks (a ∷ rest)) p in (q.state ≡ active) ↔ (is_low fl q.loss_ewma ≡ true)
  unfolding run handle_event
  last_decides (ack, now) [] p (t, _) s h =
      let q = handle_probe_ack fl ack now p in
      let j = ack-Judged ack now p t in
      rw j.state
        (verdict-eq-active p.state q.loss_ewma q.healthy_probes s (rw j.healthy (omega arith)))
  last_decides (ack, now) (b ∷ rest) p (t, ts) s h =
      let q = handle_probe_ack fl ack now p in
      let j = ack-Judged ack now p t in
      last_decides b rest q ts
        (subst IsSettled (sym j.state)
          (verdict-IsSettled p.state q.loss_ewma q.healthy_probes (settled-ne-dead p.state s)))
        (rw j.healthy (omega arith))

  -- After three PROBE_ACKs in a row or more, with no missed probe between, a path that is not DEAD
  -- is ACTIVE exactly when its averaged loss is at most 15 %.
  pub three_acks :
      (rest : List Ack) (p : BondPath F)
      → All IsTimely rest
      → 3 ≤ length rest
      → p.state ≢ dead
      → let q = run fl (acks rest) p in (q.state ≡ active) ↔ (is_low fl q.loss_ewma ≡ true)
  unfolding run handle_event
  three_acks [] p ts h ne = absurd (omega arith)
  three_acks ((ack, now) ∷ []) p ts h ne = absurd (omega arith)
  three_acks ((ack, now) ∷ b ∷ rest) p (t, ts) h ne =
      let q = handle_probe_ack fl ack now p in
      let j = ack-Judged ack now p t in
      last_decides b rest q ts
        (subst IsSettled (sym j.state) (verdict-IsSettled p.state q.loss_ewma q.healthy_probes ne))
        (rw j.healthy (omega arith))

  -- The average after intervals with no loss.
  unfoldable pub decayed : ℕ → F → F
  decayed zero loss = loss
  decayed (suc n) loss = decayed n (averaged fl loss (float_zero fl))

  idle_loss : (n : ℕ) (recv : ℕ) → n < 2 ^ 32 → inst_loss fl (sub_u32 n n) recv ≡ float_zero fl
  unfolding inst_loss
  idle_loss n recv h = let e : (n + 2 ^ 32 - n) % 2 ^ 32 ≡ 0 = omega arith in rw e refl

  idle-decayed :
      (k : ℕ) (rest : List Ack) (p : BondPath F)
      → All IsTimely rest
      → All (Echoes k) rest
      → p.last_probe_acked_psn ≡ k
      → k < 2 ^ 32
      → (run fl (acks rest) p).loss_ewma ≡ decayed (length rest) p.loss_ewma
  unfolding run handle_event decayed
  idle-decayed k [] p ts es e h = refl
  idle-decayed k ((ack, now) ∷ rest) p (t, ts) (c, es) e h =
      let q = handle_probe_ack fl ack now p in
      let j = ack-Judged ack now p t in
      let r = sub_u32 ack.recv_psn p.last_probe_acked_recv_psn in
      let quiet = ap₂ (λ (a b : ℕ). inst_loss fl (sub_u32 a b) r) c e ∙ idle_loss k r h in
      idle-decayed k rest q ts es (j.acked_psn ∙ c) h
      ∙ ap (decayed (length rest)) (j.loss ∙ ap (averaged fl p.loss_ewma) quiet)

  -- A path on which no DATA is sent is not stranded: once three or more timely PROBE_ACKs in a row
  -- have come, and so many that the averaged loss, to which each adds an interval with no loss,
  -- has decayed to 15 %, a path that was not DEAD is ACTIVE.
  pub idle_recovery :
      (rest : List Ack) (p : BondPath F)
      → All IsTimely rest
      → All (Echoes p.last_probe_acked_psn) rest
      → 3 ≤ length rest
      → p.last_probe_acked_psn < 2 ^ 32
      → is_low fl (decayed (length rest) p.loss_ewma) ≡ true
      → p.state ≢ dead
      → (run fl (acks rest) p).state ≡ active
  idle_recovery rest p ts is h h' low ne =
      (three_acks rest p ts h ne).1
        (rw (idle-decayed p.last_probe_acked_psn rest p ts is refl h') low)
