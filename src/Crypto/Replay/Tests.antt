-- ===== src/Crypto/Replay/Tests.antt =====
-- A concrete window: core/crypto/replay.go.
use bondify.Common.{◌≡◌, [], ◌∷◌}
use bondify.Crypto.Replay.{check_only, marked}
use bondify.Crypto.Replay.Refinement.{acceptable, check_only-marked}

check_only-marked_example :
    check_only (marked (130 ∷ 5 ∷ 64 ∷ [])) 64 ≡ acceptable (130 ∷ 5 ∷ 64 ∷ []) 64
check_only-marked_example = check_only-marked (130 ∷ 5 ∷ 64 ∷ []) 64
