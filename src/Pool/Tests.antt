-- ===== src/Pool/Tests.antt =====
-- A concrete pool, 10.0.0.0/24: core/bond/pool.go.
use bondify.Common.{ℕ, ◌+◌, ◌≤◌, ◌<◌, ◌^◌, ◌≡◌, refl, List, [], ◌∷◌, arith}
use bondify.Common.Result.{ok}
use bondify.Pool.{IpPool, new_ip_pool, gateway}
use bondify.Pool.Distinctness.{Request, asks, leaves, serve_all, occurs, leases_are_distinct}

abbrev network : ℕ
network = 167_772_160

abbrev pool : IpPool
pool = record { base = network; next = 167_772_162; end = 167_772_415; released = [] }

made : new_ip_pool network 8 ≡ ok pool
unfolding new_ip_pool
made = refl

abbrev requests : List Request
requests = asks ∷ asks ∷ leaves 167_772_162 ∷ asks ∷ leaves 5 ∷ []

leases_are_distinct_example :
    let l = serve_all (record { pool = pool; held = [] }) requests in
    (occurs 167_772_163 l.held + occurs 167_772_163 l.pool.released ≤ 1)
    × (0 < occurs 167_772_163 l.held
        → (gateway pool < 167_772_163) × (167_772_163 < network + 2 ^ 8))
leases_are_distinct_example =
    leases_are_distinct network 8 pool requests made (omega arith) (omega arith) 167_772_163
