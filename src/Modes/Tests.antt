-- ===== src/Modes/Tests.antt =====
-- Concrete paths for REDUNDANT mode: core/bond/mode.go. Floats are thousandths.
use bondify.Common.{ℕ, List, [], ◌∷◌}
use bondify.Common.Float.{thousandths}
use bondify.Common.Int.{pos}
use bondify.BondPath.{BondPath, new_path, set_active}
use bondify.Modes.{select_redundant_paths}
use bondify.Modes.Redundant.{Selected, select-Selected}

abbrev measured_path : ℕ → ℕ → BondPath ℕ
measured_path id rtt = record (set_active (new_path thousandths id)) {
  rtt_samples = record { at = pos 0; rtt = pos rtt } ∷ [];
}

-- One has no round trip yet, one is still joining.
abbrev paths : List (BondPath ℕ)
paths =
    set_active (new_path thousandths 0)
    ∷ measured_path 1 80_000_000
    ∷ new_path thousandths 2
    ∷ measured_path 3 20_000_000
    ∷ []

select-Selected_example :
    (rest : List (BondPath ℕ)) × Selected
      (pos 5_000_000)
      paths
      2
      (select_redundant_paths (pos 5_000_000) paths 2)
      rest
select-Selected_example = select-Selected (pos 5_000_000) paths 2
