-- ===== src/BondPath/Tests.antt =====
-- Concrete probes on a path: core/bond/path.go. Floats are signed thousandths.
use bondify.Common.{ℕ, ◌+◌, ◌≡◌, ◌≢◌, ◌↔◌, refl, List, [], ◌∷◌, map, arith, All, true}
use bondify.Common.Float.{signed_thousandths}
use bondify.Common.Int.{ℤ, pos, ◌+ℤ◌, ◌-ℤ◌, ◌*ℤ◌, ◌≤ℤ◌}
use bondify.Sched.{active, degraded, dead}
use bondify.BondPath.{BondPath, new_path, rtt_min}
use bondify.BondPath.Health.{handle_probe_missed, is_low}
use bondify.BondPath.Graph.{ProbeEvent, missed, run, death}
use bondify.BondPath.Window.{IsLeast, recent, history, rtt_min-IsLeast}
use bondify.BondPath.Hysteresis.{Ack, IsTimely, Echoes, acks, decayed, idle_recovery}
use bondify.BondPath.Misses.{IsOut, three_misses}

-- A PROBE sent at `sent`, answered after 50 ms; no DATA in between.
abbrev answer : ℕ → Ack
answer sent = (record { sent_at = pos sent; sent_psn = 0; recv_psn = 0 }, pos (sent + 50_000_000))

abbrev four : List Ack
four = answer 200_000_000 ∷ answer 400_000_000 ∷ answer 600_000_000 ∷ answer 800_000_000 ∷ []

-- A path that is degraded at a loss of 30 %.
abbrev lossy : BondPath ℤ
lossy = record (new_path signed_thousandths 1) { state = degraded; loss_ewma = pos 300 }

abbrev busy : BondPath ℤ
busy = record (new_path signed_thousandths 1) { state = active; last_probe_ack_at = pos 1 }

timely : All IsTimely four
unfolding ◌-ℤ◌
timely = omega arith

echoes : All (Echoes 0) four
echoes = omega arith

low : is_low signed_thousandths (decayed signed_thousandths 4 (pos 300)) ≡ true
unfolding decayed ◌+ℤ◌ ◌-ℤ◌ ◌*ℤ◌
low = refl

abbrev two_missed : List ProbeEvent
two_missed = missed (pos 5) ∷ missed (pos 6) ∷ []

death_example :
    (active ≡ dead → (es : List ProbeEvent) → (run signed_thousandths es busy).state ≡ dead)
    × ((now : ℤ)
        → active ≢ dead
        → ((handle_probe_missed now busy).state ≡ dead)
          ↔ (◌≢◌ {A = ℤ} (pos 1) (pos 0)) × (¬ (now -ℤ pos 1 ≤ℤ pos 10_000_000_000)))
death_example = death signed_thousandths busy

idle_recovery_example : (run signed_thousandths (acks four) lossy).state ≡ active
idle_recovery_example =
    idle_recovery signed_thousandths four lossy timely echoes (omega arith) (omega arith) low
      (ground arith)

three_misses_example :
    IsOut (run signed_thousandths (map missed (pos 2 ∷ pos 3 ∷ pos 4 ∷ [])) busy).state
three_misses_example =
    three_misses signed_thousandths (pos 2 ∷ pos 3 ∷ pos 4 ∷ []) busy (ground arith) (omega arith)

abbrev events : List ProbeEvent
events = acks four

rtt_min-IsLeast_example :
    IsLeast
      (rtt_min (pos 900_000_000) (run signed_thousandths events (new_path signed_thousandths 1))).0
      (recent (pos 900_000_000) (history events))
rtt_min-IsLeast_example =
    rtt_min-IsLeast signed_thousandths 1 events (pos 0) (pos 900_000_000) (omega arith)
