-- ===== src/Congestion/Window.antt =====
-- core/cc/cc.go: the bounds of the window and the shape of the ring buffer.
use native.Mathlib.Nat.{mod-lt}
use bondify.Common.{
  ◌+◌, ◌<◌, ◌≤◌, ◌≡◌, refl, ◌∙◌, ◌||◌, not, List, [], ◌∷◌, arith, length, length-set, if_intro,
}
use bondify.Common.Float.{Float}
use bondify.Common.Int.{ℤ, pos, ltb_ℤ, ◌≤ℤ◌}
use bondify.Congestion.{
  Controller, btl_bw_window, min_cwnd, max_cwnd, new_controller, stored, bounded, sample,
  delivery_rate, seconds,
}

module _ {F : Type 0} (fl : Float F) where
  -- The window within its bounds, ten places, and the next one among them.
  pub record Shaped (c : Controller F) : Type 0 where
    pub low : min_cwnd ≤ℤ c.cwnd
    pub high : c.cwnd ≤ℤ max_cwnd
    pub places : length c.samples ≡ btl_bw_window
    pub cursor : c.next < btl_bw_window
    pub count : c.filled ≤ btl_bw_window

  bounded_lem : (z : ℤ) → (min_cwnd ≤ℤ bounded fl z) × (bounded fl z ≤ℤ max_cwnd)
  unfolding bounded
  bounded_lem z = ground arith

  abbrev pub Reading : Type 0
  Reading = ℤ × ℤ × ℤ

  unfoldable pub samples_fed : Controller F → List Reading → Controller F
  samples_fed c [] = c
  samples_fed c ((bytes, elapsed, rt_prop) ∷ rs) =
      samples_fed (sample fl c bytes elapsed rt_prop) rs

  sample-Shaped :
      (c : Controller F) (bytes elapsed rt_prop : ℤ)
      → Shaped c
      → Shaped (sample fl c bytes elapsed rt_prop)
  unfolding sample stored
  sample-Shaped c bytes elapsed rt_prop s =
      let bps = fl.div (fl.of_int bytes) (seconds fl elapsed) in
      let c' = stored fl c bps in
      let target =
        fl.to_int (fl.mul (fl.mul (delivery_rate fl c') (seconds fl rt_prop)) (fl.ratio 2 1)) in
      if_intro Shaped (not (ltb_ℤ (pos 0) elapsed) || not (ltb_ℤ (pos 0) rt_prop)) (λ e. s)
        λ e. record {
          low = (bounded_lem target).0;
          high = (bounded_lem target).1;
          places = length-set c.samples c.next bps ∙ s.places;
          cursor = mod-lt (c.next + 1) (omega arith);
          count = (let k = s.count in ground arith);
        }

  fed-Shaped : (c : Controller F) (rs : List Reading) → Shaped c → Shaped (samples_fed c rs)
  unfolding samples_fed
  fed-Shaped c [] s = s
  fed-Shaped c ((bytes, elapsed, rt_prop) ∷ rs) s =
      fed-Shaped (sample fl c bytes elapsed rt_prop) rs (sample-Shaped c bytes elapsed rt_prop s)

  new-Shaped : Shaped (new_controller fl)
  new-Shaped = record {
    low = omega arith;
    high = omega arith;
    places = refl;
    cursor = omega arith;
    count = omega arith;
  }

  -- Whatever samples a new controller is fed, however the floats behave, its window stays between
  -- 12,000 bytes and 64 MiB, and its ring buffer keeps ten places with the cursor among them.
  pub window_bounded : (rs : List Reading) → Shaped (samples_fed (new_controller fl) rs)
  window_bounded rs = fed-Shaped (new_controller fl) rs new-Shaped
