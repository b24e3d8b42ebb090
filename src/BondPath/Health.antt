-- ===== src/BondPath/Health.antt =====
-- core/bond/path.go: what a PROBE_ACK and a missed one do to a path's estimates and its state.
use bondify.Common.{
  ℕ, ◌+◌, ◌-◌, ◌/◌, ◌%◌, ◌^◌, Bool, ◌&&◌, not, none, some, [], ◌∷◌, ◌++◌, ltb, leb, if◌then◌else◌,
}
use bondify.Common.Float.{Float}
use bondify.Common.Int.{ℤ, pos, negsuc, ltb_ℤ, ◌+ℤ◌, ◌-ℤ◌, wrap_int64}
use bondify.Congestion.{sample, float_zero}
use bondify.Sched.{State, joining, active, degraded, dead, is_active}
use bondify.BondPath.{
  BondPath, ProbeAckPayload, path_dead_timeout, missed_probes_to_degrade,
  healthy_probes_to_undegrade, min_rtt, prune_old, sub_u32, is_never,
}

-- Division of a duration by 2, towards 0.
abbrev pub half : ℤ → ℤ
half (pos n) = pos (n / 2)
half (negsuc n) = pos 0 -ℤ pos ((n + 1) / 2)

abbrev pub abs : ℤ → ℤ
abs z = if ltb_ℤ z (pos 0) then pos 0 -ℤ z else z

module _ {F : Type 0} where
  abbrev pub degrade : BondPath F → BondPath F
  degrade p = record p { state = degraded }

  -- The time since the last packet that counts as one from the peer is over ten seconds.
  abbrev pub is_silent : ℤ → BondPath F → Bool
  is_silent now p =
      not (is_never p.last_probe_ack_at) && ltb_ℤ path_dead_timeout (now -ℤ p.last_probe_ack_at)

  abbrev pub count_miss : BondPath F → BondPath F
  count_miss p = record p { missed_probes = p.missed_probes + 1; healthy_probes = 0 }

  abbrev pub degrade_if : Bool → BondPath F → BondPath F
  degrade_if test p = if test then degrade p else p

  abbrev pub kill_if : Bool → BondPath F → BondPath F
  kill_if test p = if test then record p { state = dead } else p

  unfoldable pub handle_probe_missed : ℤ → BondPath F → BondPath F
  handle_probe_missed now p =
      let missed = count_miss p in
      let judged =
        degrade_if (leb missed_probes_to_degrade missed.missed_probes && is_active missed.state)
          missed in
      kill_if (is_silent now judged) judged

module _ {F : Type 0} (fl : Float F) where
  abbrev pub degrade_loss : F
  degrade_loss = fl.ratio 15 100

  -- The smoothed round trip and its variation. `srtt == 0` means that there is none yet.
  unfoldable pub smooth_rtt : ℤ → BondPath F → BondPath F
  smooth_rtt rtt p =
      if is_never p.srtt
      then record p { srtt = rtt; rtt_var = half rtt }
      else let scaled = λ (c : F) (d : ℤ). fl.to_int (fl.mul c (fl.of_int d)) in
        record p {
          rtt_var =
              wrap_int64 (p.rtt_var +ℤ scaled (fl.ratio 1 4) (abs (rtt -ℤ p.srtt) -ℤ p.rtt_var));
          srtt = wrap_int64 (p.srtt +ℤ scaled (fl.ratio 1 8) (rtt -ℤ p.srtt));
        }

  abbrev pub store_rtt : ℤ → ℤ → BondPath F → BondPath F
  store_rtt now rtt p = record p {
    rtt_samples = prune_old (p.rtt_samples ++ record { at = now; rtt = rtt } ∷ []) now;
  }

  -- The loss of one interval: 0 where nothing was sent, and where more came in than went out.
  unfoldable pub inst_loss : ℕ → ℕ → F
  inst_loss delta_sent delta_recv =
      if ltb 0 delta_sent
      then (let loss =
            fl.sub (fl.of_int (pos 1))
              (fl.div (fl.of_int (pos delta_recv)) (fl.of_int (pos delta_sent))) in
          if fl.lt loss (float_zero fl) then float_zero fl else loss)
      else float_zero fl

  -- `lossEWMA += lossEWMAAlpha * (instLoss - lossEWMA)`
  abbrev pub averaged : F → F → F
  averaged ewma inst = fl.add ewma (fl.mul (fl.ratio 2 10) (fl.sub inst ewma))

  abbrev pub average_loss : ℕ → ℕ → BondPath F → BondPath F
  average_loss delta_sent delta_recv p = record p {
    loss_ewma = averaged p.loss_ewma (inst_loss delta_sent delta_recv);
  }

  -- The bytes sent since the last PROBE_ACK, scaled by the share that arrived.
  abbrev pub delivered_bytes : ℕ → ℕ → ℕ → ℤ
  delivered_bytes delta_bytes delta_sent delta_recv = fl.to_int (
      fl.div (fl.mul (fl.of_int (pos delta_bytes)) (fl.of_int (pos delta_recv)))
        (fl.of_int (pos delta_sent)))

  unfoldable pub feed_cc : ℤ → ℕ → ℕ → BondPath F → BondPath F
  feed_cc now delta_sent delta_recv p =
      let bytes = (p.stats.tx_bytes + 2 ^ 64 - p.last_probe_acked_tx_bytes) % 2 ^ 64 in
      elim p.last_probe_ack_time [
        | none ↦ p
        | some last ↦
            if ltb 0 delta_sent
            then record p {
              cc =
                  sample fl p.cc (delivered_bytes bytes delta_sent delta_recv) (now -ℤ last)
                    (min_rtt p.rtt_samples);
            }
            else p
      ]

  -- The part of HandleProbeAck under the mutex.
  unfoldable pub fold_ack : ProbeAckPayload → ℤ → BondPath F → BondPath F
  fold_ack ack now p =
      let rtt = now -ℤ ack.sent_at in
      let delta_sent = sub_u32 ack.sent_psn p.last_probe_acked_psn in
      let delta_recv = sub_u32 ack.recv_psn p.last_probe_acked_recv_psn in
      let measured = average_loss delta_sent delta_recv (store_rtt now rtt (smooth_rtt rtt p)) in
      let fed = feed_cc now delta_sent delta_recv measured in
      record fed {
        last_probe_acked_psn = ack.sent_psn;
        last_probe_acked_recv_psn = ack.recv_psn;
        last_probe_acked_tx_bytes = fed.stats.tx_bytes;
        last_probe_ack_time = some now;
        missed_probes = 0;
        healthy_probes = fed.healthy_probes + 1;
      }

  -- `loss <= DegradeLoss`, which is the negation of `loss > DegradeLoss` but for a NaN.
  abbrev pub is_low : F → Bool
  is_low loss = not (fl.lt degrade_loss loss)

  -- The switch on the state. A DEAD path has no case.
  unfoldable pub verdict : State → F → ℕ → State
  verdict joining loss healthy = active
  verdict degraded loss healthy =
      if is_low loss && leb healthy_probes_to_undegrade healthy then active else degraded
  verdict active loss healthy = if fl.lt degrade_loss loss then degraded else active
  verdict dead loss healthy = dead

  unfoldable pub handle_probe_ack : ProbeAckPayload → ℤ → BondPath F → BondPath F
  handle_probe_ack ack now p =
      let folded = fold_ack ack now p in
      if ltb_ℤ (now -ℤ ack.sent_at) (pos 0) then p else record folded {
        last_probe_ack_at = now;
        state = verdict folded.state folded.loss_ewma folded.healthy_probes;
      }
