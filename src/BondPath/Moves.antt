-- ===== src/BondPath/Moves.antt =====
-- core/bond/path.go: which event of a history moves a path to which state. How often probes were
-- missed, or answered, in a row is counted on the history, not read from the path.
use bondify.Common.{ℕ, ◌+◌, List, [], ◌∷◌, if◌then◌else◌}
use bondify.Common.Float.{Float}
use bondify.BondPath.{BondPath}
use bondify.BondPath.Arrows.{early}
use bondify.BondPath.Graph.{ProbeEvent, acked, missed}

-- The probes missed in a row at the end of a history that begins after `n` of them.
unfoldable pub missed_in_row : ℕ → List ProbeEvent → ℕ
missed_in_row n [] = n
missed_in_row n (missed now ∷ es) = missed_in_row (n + 1) es
missed_in_row n (acked ack now ∷ es) = missed_in_row (if early ack now then n else 0) es

-- The probes answered in a row.
unfoldable pub acked_in_row : ℕ → List ProbeEvent → ℕ
acked_in_row n [] = n
acked_in_row n (missed now ∷ es) = acked_in_row 0 es
acked_in_row n (acked ack now ∷ es) = acked_in_row (if early ack now then n else n + 1) es
