-- ===== src/Congestion/Tests.antt =====
-- A concrete run of the controller: core/cc/cc.go. Floats are thousandths.
use bondify.Common.{List, [], ◌∷◌}
use bondify.Common.Float.{thousandths}
use bondify.Common.Int.{pos}
use bondify.Congestion.{new_controller}
use bondify.Congestion.Window.{Reading, Shaped, samples_fed, window_bounded}

-- A megabyte in 200 ms at 50 ms, then nothing.
abbrev readings : List (Reading thousandths)
readings =
    (pos 1_000_000, pos 200_000_000, pos 50_000_000) ∷ (pos 0, pos 200_000_000, pos 50_000_000) ∷ []

window_bounded_example :
    Shaped thousandths (samples_fed thousandths (new_controller thousandths) readings)
window_bounded_example = window_bounded thousandths readings
