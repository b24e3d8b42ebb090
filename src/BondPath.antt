-- ===== src/BondPath.antt =====
-- core/bond/path.go: one path's record, its counters and its window of round trips. The source
-- calls the record Path. Times are nanoseconds on one clock, and a clock reading is an argument.
-- A method that locks the mutex, or updates an atomic, is one function. The socket and the remote
-- address are left out. `F` stands for float64.
pub mod Health
pub mod Folded
pub mod Graph
pub mod Arrows
pub mod Moves
pub mod Window
pub mod Hysteresis
pub mod Misses
pub mod Tests
use bondify.Common.{
  ℕ, ◌+◌, ◌-◌, ◌/◌, ◌%◌, ◌^◌, Bool, true, false, Option, none, List, [], ◌∷◌, ◌==◌, if◌then◌else◌,
}
use bondify.Common.Float.{Float}
use bondify.Common.Int.{ℤ, pos, negsuc, ltb_ℤ, ◌-ℤ◌}
use bondify.Congestion.{Controller, new_controller, delivery_rate, float_zero}
use bondify.Sched.{State, joining, active, Role, bond, PathView}

abbrev pub path_dead_timeout : ℤ
path_dead_timeout = pos 10_000_000_000

abbrev pub rtt_window : ℤ
rtt_window = pos 10_000_000_000

abbrev pub missed_probes_to_degrade : ℕ
missed_probes_to_degrade = 3

abbrev pub healthy_probes_to_undegrade : ℕ
healthy_probes_to_undegrade = 3

pub record RttSample : Type 0 where
  pub at : ℤ
  pub rtt : ℤ

pub record ProbePayload : Type 0 where
  pub sent_at : ℤ
  pub sent_psn : ℕ

pub record ProbeAckPayload : Type 0 where
  pub sent_at : ℤ
  pub sent_psn : ℕ
  pub recv_psn : ℕ

-- Stats of client.go: the counters of a path, a session, a tunnel or a relay.
pub record Stats : Type 0 where
  pub tx_packets : ℕ
  pub rx_packets : ℕ
  pub tx_bytes : ℕ
  pub rx_bytes : ℕ
  pub rx_errors : ℕ

abbrev pub no_stats : Stats
no_stats = record { tx_packets = 0; rx_packets = 0; tx_bytes = 0; rx_bytes = 0; rx_errors = 0 }

-- `last_probe_ack_time` is none where the source has the zero time.
pub record BondPath (F : Type 0) : Type 0 where
  pub id : ℕ
  pub role : Role
  pub state : State
  pub last_probe_ack_at : ℤ
  pub send_psn : ℕ
  pub recv_psn : ℕ
  pub inflight : ℤ
  pub cc : Controller F
  pub srtt : ℤ
  pub rtt_var : ℤ
  pub rtt_samples : List RttSample
  pub loss_ewma : F
  pub missed_probes : ℕ
  pub healthy_probes : ℕ
  pub last_probe_sent_psn : ℕ
  pub last_probe_acked_psn : ℕ
  pub last_probe_acked_recv_psn : ℕ
  pub last_probe_acked_tx_bytes : ℕ
  pub last_probe_ack_time : Option ℤ
  pub stats : Stats

-- The loop of minRTT over the samples after the first.
unfoldable pub least_from : ℤ → List RttSample → ℤ
least_from least [] = least
least_from least (s ∷ samples) = least_from (if ltb_ℤ s.rtt least then s.rtt else least) samples

unfoldable pub min_rtt : List RttSample → ℤ
min_rtt [] = pos 0
min_rtt (s ∷ samples) = least_from s.rtt samples

abbrev pub is_old : ℤ → RttSample → Bool
is_old now s = ltb_ℤ rtt_window (now -ℤ s.at)

-- The samples are cut at the first one that is not old.
unfoldable pub prune_old : List RttSample → ℤ → List RttSample
prune_old [] now = []
prune_old (s ∷ samples) now =
    let rest = prune_old samples now in if is_old now s then rest else s ∷ samples

-- A counter of 32 bits, and a difference of two.
abbrev pub next_u32 : ℕ → ℕ
next_u32 n = (n + 1) % 2 ^ 32

abbrev pub sub_u32 : ℕ → ℕ → ℕ
sub_u32 a b = (a + 2 ^ 32 - b) % 2 ^ 32

-- The time 0 stands for never.
abbrev pub is_never : ℤ → Bool
is_never t = elim t [ pos n ↦ n == 0 | negsuc n ↦ false ]

module _ {F : Type 0} where
  abbrev pub set_role : Role → BondPath F → BondPath F
  set_role r p = record p { role = r }

  abbrev pub set_active : BondPath F → BondPath F
  set_active p = record p { state = active }

  -- The PSN to stamp, and the path that has given it away.
  abbrev pub next_send_psn : BondPath F → ℕ × BondPath F
  next_send_psn p = (p.send_psn, record p { send_psn = next_u32 p.send_psn })

  abbrev pub record_recv : ℤ → BondPath F → ℕ × BondPath F
  record_recv now p =
      (p.recv_psn, record p { last_probe_ack_at = now; recv_psn = next_u32 p.recv_psn })

  unfoldable pub last_activity : ℤ → BondPath F → ℤ
  last_activity now p = if is_never p.last_probe_ack_at then pos 0 else now -ℤ p.last_probe_ack_at

  abbrev pub build_probe : ℤ → BondPath F → ProbePayload × BondPath F
  build_probe now p = (
    record { sent_at = now; sent_psn = p.send_psn },
    record p { last_probe_sent_psn = p.send_psn },
  )

  -- RTTMin also drops the old samples.
  unfoldable pub rtt_min : ℤ → BondPath F → ℤ × BondPath F
  rtt_min now p =
      let samples = prune_old p.rtt_samples now in
      (min_rtt samples, record p { rtt_samples = samples })

module _ {F : Type 0} (fl : Float F) where
  abbrev pub new_path : ℕ → BondPath F
  new_path id = record {
    id = id;
    role = bond;
    state = joining;
    last_probe_ack_at = pos 0;
    send_psn = 0;
    recv_psn = 0;
    inflight = pos 0;
    cc = new_controller fl;
    srtt = pos 0;
    rtt_var = pos 0;
    rtt_samples = [];
    loss_ewma = float_zero fl;
    missed_probes = 0;
    healthy_probes = 0;
    last_probe_sent_psn = 0;
    last_probe_acked_psn = 0;
    last_probe_acked_recv_psn = 0;
    last_probe_acked_tx_bytes = 0;
    last_probe_ack_time = none;
    stats = no_stats;
  }

  -- What the path shows a scheduler: ID, State, Role, InFlight, CWND, RTTMin and Goodput.
  unfoldable pub view : ℤ → BondPath F → PathView F
  view now p = record {
    id = p.id;
    state = p.state;
    role = p.role;
    in_flight = p.inflight;
    cwnd = p.cc.cwnd;
    rtt_min = (rtt_min now p).0;
    goodput = delivery_rate fl p.cc;
  }
