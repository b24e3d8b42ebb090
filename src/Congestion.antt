-- ===== src/Congestion.antt =====
-- core/cc/cc.go: a path's congestion window, from the greatest delivery rate of the last ten samples.
-- `F` stands for float64, durations are int64 nanoseconds.
pub mod Window
pub mod Tests
use bondify.Common.{
  ℕ, zero, suc, ◌+◌, ◌*◌, ◌%◌, Bool, ◌||◌, not, List, [], ◌∷◌, ltb, if◌then◌else◌, length, take,
  set, replicate,
}
use bondify.Common.Float.{Float}
use bondify.Common.Int.{ℤ, pos, ltb_ℤ}

abbrev pub btl_bw_window : ℕ
btl_bw_window = 10

abbrev pub min_cwnd : ℤ
min_cwnd = pos (8 * 1500)

abbrev pub max_cwnd : ℤ
max_cwnd = pos (64 * 1024 * 1024)

abbrev pub initial_cwnd : ℤ
initial_cwnd = pos (4 * 1024 * 1024)

-- `samples` is the ring buffer.
pub record Controller (F : Type 0) : Type 0 where
  pub samples : List F
  pub filled : ℕ
  pub next : ℕ
  pub cwnd : ℤ

module _ {F : Type 0} (fl : Float F) where
  abbrev pub float_zero : F
  float_zero = fl.of_int (pos 0)

  abbrev pub new_controller : Controller F
  new_controller = record {
    samples = replicate btl_bw_window float_zero;
    filled = 0;
    next = 0;
    cwnd = initial_cwnd;
  }

  -- `d.Seconds()`
  abbrev pub seconds : ℤ → F
  seconds d = fl.div (fl.of_int d) (fl.of_int (pos 1_000_000_000))

  -- The loop over the first `filled` samples.
  unfoldable pub greatest_from : F → List F → F
  greatest_from acc [] = acc
  greatest_from acc (x ∷ xs) = greatest_from (if fl.lt acc x then x else acc) xs

  unfoldable pub delivery_rate : Controller F → F
  delivery_rate c = greatest_from float_zero (take c.filled c.samples)

  unfoldable pub bounded : ℤ → ℤ
  bounded cwnd =
      let raised = if ltb_ℤ cwnd min_cwnd then min_cwnd else cwnd in
      if ltb_ℤ max_cwnd raised then max_cwnd else raised

  -- The ring buffer with one more sample.
  unfoldable pub stored : Controller F → F → Controller F
  stored c bps = record c {
    samples = set c.samples c.next bps;
    next = (c.next + 1) % btl_bw_window;
    filled = if ltb c.filled btl_bw_window then c.filled + 1 else c.filled;
  }

  unfoldable pub sample : Controller F → ℤ → ℤ → ℤ → Controller F
  sample c bytes_delivered elapsed rt_prop =
      if not (ltb_ℤ (pos 0) elapsed) || not (ltb_ℤ (pos 0) rt_prop)
      then c
      else let c' = stored c (fl.div (fl.of_int bytes_delivered) (seconds elapsed)) in
        let target = fl.mul (fl.mul (delivery_rate c') (seconds rt_prop)) (fl.ratio 2 1) in
        record c' { cwnd = bounded (fl.to_int target) }
