-- ===== src/BondPath/Folded.antt =====
-- core/bond/path.go: the fields of a path that a PROBE_ACK changes, and those that it keeps.
use bondify.Common.{ℕ, ◌+◌, ◌≡◌, refl, ◌∙◌, ap, List, [], ◌∷◌, ◌++◌, arith, if_intro}
use bondify.Common.Float.{Float}
use bondify.Common.Int.{ℤ, ◌-ℤ◌}
use bondify.BondPath.{BondPath, RttSample, ProbeAckPayload, prune_old, sub_u32, is_never}
use bondify.BondPath.Health.{
  smooth_rtt, feed_cc, fold_ack, averaged, inst_loss, average_loss, store_rtt,
}

module _ {F : Type 0} (fl : Float F) where
  record Same (p q : BondPath F) : Type 0 where
    state : q.state ≡ p.state
    healthy : q.healthy_probes ≡ p.healthy_probes
    loss : q.loss_ewma ≡ p.loss_ewma
    samples : q.rtt_samples ≡ p.rtt_samples
    acked : q.last_probe_acked_psn ≡ p.last_probe_acked_psn
    acked_recv : q.last_probe_acked_recv_psn ≡ p.last_probe_acked_recv_psn

  smooth_rtt-Same : (rtt : ℤ) (p : BondPath F) → Same p (smooth_rtt fl rtt p)
  unfolding smooth_rtt
  smooth_rtt-Same rtt p =
      if_intro (Same p) (is_never p.srtt)
        (λ _. record {
          state = refl;
          healthy = refl;
          loss = refl;
          samples = refl;
          acked = refl;
          acked_recv = refl;
        })
        (λ _. record {
          state = refl;
          healthy = refl;
          loss = refl;
          samples = refl;
          acked = refl;
          acked_recv = refl;
        })

  feed_cc-Same : (now : ℤ) (sent recv : ℕ) (p : BondPath F) → Same p (feed_cc fl now sent recv p)
  unfolding feed_cc
  feed_cc-Same now sent recv p = ground arith

  -- The loss after the ack, from the deltas of the two counters.
  abbrev pub next_loss : ProbeAckPayload → BondPath F → F
  next_loss ack p = averaged fl p.loss_ewma (
      inst_loss fl (sub_u32 ack.sent_psn p.last_probe_acked_psn)
        (sub_u32 ack.recv_psn p.last_probe_acked_recv_psn))

  pub record Folded (ack : ProbeAckPayload) (now : ℤ) (p q : BondPath F) : Type 0 where
    pub state : q.state ≡ p.state
    pub healthy : q.healthy_probes ≡ p.healthy_probes + 1
    pub loss : q.loss_ewma ≡ next_loss ack p
    pub samples :
        q.rtt_samples
        ≡ prune_old (p.rtt_samples ++ record { at = now; rtt = now -ℤ ack.sent_at } ∷ []) now
    pub acked : q.last_probe_acked_psn ≡ ack.sent_psn

  pub fold_ack-Folded :
      (ack : ProbeAckPayload) (now : ℤ) (p : BondPath F) → Folded ack now p (fold_ack fl ack now p)
  unfolding fold_ack
  fold_ack-Folded ack now p =
      let rtt = now -ℤ ack.sent_at in
      let sent = sub_u32 ack.sent_psn p.last_probe_acked_psn in
      let recv = sub_u32 ack.recv_psn p.last_probe_acked_recv_psn in
      let smooth = smooth_rtt fl rtt p in
      let a = smooth_rtt-Same rtt p in
      let b =
        feed_cc-Same now sent recv (average_loss fl sent recv (store_rtt fl now rtt smooth)) in
      record {
        state = b.state ∙ a.state;
        healthy = ap (λ (n : ℕ). n + 1) (b.healthy ∙ a.healthy);
        loss = b.loss ∙ ap (λ (l : F). averaged fl l (inst_loss fl sent recv)) a.loss;
        samples =
            b.samples
            ∙ ap (λ (l : List RttSample). prune_old (l ++ record { at = now; rtt = rtt } ∷ []) now)
                a.samples;
        acked = refl;
      }
