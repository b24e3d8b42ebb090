-- ===== src/Relay/Tables.antt =====
-- core/bond/relay.go: the three tables point to the same sessions, also after a client shakes hands
-- again.
pub mod Rekeyed
pub mod Carried
pub mod Served
pub mod Assigned
pub mod Greeted
pub mod Returned
use bondify.Common.{
  ℕ, ◌+◌, ◌-◌, ◌^◌, ◌≤◌, ◌<◌, ◌≡◌, ◌≢◌, ◌⊎◌, ◌∙◌, refl, sym, Bool, true, false, Option, some, List,
  [], arith, if◌then◌else◌, ◌==◌, inl, inr,
}
use bondify.Common.Assoc.{lookup, insert, lookup-insert}
use bondify.Relay.{RelaySession, Relay}

module _ {ℓ} {V : Type ℓ} where
  -- An entry of a table after an insertion is the new one or an old one.
  pub entry :
      (k j : ℕ) (v w : V) (m : List (ℕ × V))
      → lookup j (insert k v m) ≡ some w
      → ((j ≡ k) × (some v ≡ some w)) ⊎ ((j ≢ k) × (lookup j m ≡ some w))
  entry k j v w m h = decide (k == j) refl (sym (lookup-insert k j v m) ∙ h)
    where
      decide :
          (b : Bool)
          → (k == j) ≡ b
          → (if b then some v else lookup j m) ≡ some w
          → ((j ≡ k) × (some v ≡ some w)) ⊎ ((j ≢ k) × (lookup j m ≡ some w))
      decide true e g = inl (ground arith, g)
      decide false e g = inr (λ f. ground arith, g)

module _ {F : Type 0} where
  -- The session that a reference stands for has this index and this address, and the tables point
  -- to it under both.
  pub record Points (r : Relay F) (ref idx ip : ℕ) : Type 0 where
    pub session : RelaySession F
    pub stored : lookup ref r.sessions ≡ some session
    pub its_index : session.session_index ≡ idx
    pub its_ip : session.tunnel_ip ≡ ip
    pub indexed : lookup idx r.by_index ≡ some ref
    pub addressed : lookup ip r.by_tunnel_ip ≡ some ref

  -- Every entry of a table points to a session that the other tables point to under the session's
  -- own index and address, no two clients share one, and the address is one that the pool, whose
  -- network ends below the top of the address space, has given out.
  pub record Agree (r : Relay F) : Type 0 where
    pub index : (idx ref : ℕ) → lookup idx r.by_index ≡ some ref → (ip : ℕ) × Points r ref idx ip
    pub address :
        (ip ref : ℕ) → lookup ip r.by_tunnel_ip ≡ some ref → (idx : ℕ) × Points r ref idx ip
    pub client :
        (key ref : ℕ)
        → lookup key r.by_client_key ≡ some ref
        → (idx : ℕ) × (ip : ℕ) × Points r ref idx ip
    pub alone :
        (key other ref : ℕ)
        → lookup key r.by_client_key ≡ some ref
        → lookup other r.by_client_key ≡ some ref
        → key ≡ other
    pub fresh : (ref : ℕ) (s : RelaySession F) → lookup ref r.sessions ≡ some s → ref < r.next_ref
    pub given : (ip ref : ℕ) → lookup ip r.by_tunnel_ip ≡ some ref → ip < r.pool.next
    pub unreleased : r.pool.released ≡ []
    pub room : r.pool.end < 2 ^ 32 - 1
