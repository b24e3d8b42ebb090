-- ===== src/Relay/Tables/Assigned.antt =====
-- core/bond/relay.go: the address and the index that handleHandshakeInit gives a client are its
-- own, or nobody's.
use bondify.Common.{
  ℕ, ◌+◌, ◌-◌, ◌^◌, ◌<◌, ◌≡◌, ◌∙◌, refl, sym, ap, subst, Bool, Option, none, some, List, [], ◌∷◌,
  arith, ltb, if_intro,
}
use bondify.Common.Assoc.{lookup}
use bondify.Common.Float.{Float}
use bondify.Common.Result.{Result, ok, err}
use bondify.Crypto.Handshake.{Noise}
use bondify.Crypto.Session.{Aead}
use bondify.Fec.{Codec}
use bondify.Pool.{IpPool, PoolError, allocate, allocate_fresh}
use bondify.Relay.{UdpAddr, Relay, RelayConfig, new_session_index, deref}
use bondify.Relay.Handshake.{indexed, with_address, assign}
use bondify.Relay.Tables.{Points, Agree}
use bondify.Relay.Tables.Carried.{pool-Carried, carried-Agree}
use bondify.Relay.Tables.Rekeyed.{Free}
use bondify.Tunnel.{Cbor}

-- What Allocate answers while no address has been released.
abbrev Granted : IpPool → Result PoolError ℕ × IpPool → Type 0
Granted p (err e, q) = q ≡ p
Granted p (ok ip, q) =
    (ip ≡ p.next) × (q.next ≡ p.next + 1) × (q.released ≡ p.released) × (q.end ≡ p.end)

allocate-Granted : (p : IpPool) → p.released ≡ [] → p.end < 2 ^ 32 - 1 → Granted p (allocate p)
unfolding allocate allocate_fresh
allocate-Granted p none_free room = from_released p.released none_free
  where
    from_released :
        (vs : List ℕ)
        → vs ≡ []
        → Granted p
            (elim vs [ [] ↦ allocate_fresh p | v ∷ vs ↦ (ok v, record p { released = vs }) ])
    from_released [] h =
        if_intro (Granted p) (ltb p.end p.next) (λ _. refl) (λ e. (refl, ground arith, refl, refl))
    from_released (v ∷ vs) h = absurd (ground arith)

new_session_index_new :
    (draws : List ℕ) (table : List (ℕ × ℕ)) (idx : ℕ)
    → new_session_index draws table ≡ some idx
    → lookup idx table ≡ none
unfolding new_session_index
new_session_index_new [] table idx h = ground arith
new_session_index_new (d ∷ draws) table idx h =
    ground (arith, new_session_index_new draws table idx)

module _ {F : Type 0} (fl : Float F) (aead : Aead) (codec : Codec) (cbor : Cbor) (noise : Noise)
    (cfg : RelayConfig) (write_ok : UdpAddr → List ℕ → Bool) where
  -- The tables agree, and the address and the index, if there are any, are free for the client.
  abbrev pub Assigned : ℕ → Option (ℕ × ℕ) × Relay F → Type 0
  Assigned key (none, q) = Agree q
  Assigned key (some (ip, idx), q) = Agree q × Free q key ip idx

  known-Free :
      (r : Relay F) (key ref idx ip : ℕ)
      → Agree r
      → lookup key r.by_client_key ≡ some ref
      → (p : Points r ref idx ip) → Free r key p.session.tunnel_ip p.session.session_index
  known-Free r key ref idx ip a known p = record {
    index = λ q h. known ∙ sym p.indexed ∙ ap (λ n. lookup n r.by_index) (sym p.its_index) ∙ h;
    address = λ q h. known ∙ sym p.addressed ∙ ap (λ n. lookup n r.by_tunnel_ip) (sym p.its_ip) ∙ h;
    own = λ q i b h o.
        let same : some p.session ≡ some o.session =
          sym p.stored ∙ ap (λ n. lookup n r.sessions) (ground arith) ∙ o.stored in
        (sym o.its_index ∙ ground (arith, same), sym o.its_ip ∙ ground (arith, same));
    given =
        a.given p.session.tunnel_ip ref (ap (λ n. lookup n r.by_tunnel_ip) p.its_ip ∙ p.addressed);
  }

  fresh-Free :
      (r : Relay F) (key idx : ℕ) (pool : IpPool)
      → Agree r
      → lookup key r.by_client_key ≡ none
      → lookup idx r.by_index ≡ none
      → pool.next ≡ r.pool.next + 1
      → Free (record r { pool = pool }) key r.pool.next idx
  fresh-Free r key idx pool a unknown unused grown = record {
    index = λ ref h. absurd (ground (arith, unused, h));
    address = λ ref h. absurd (let old = a.given r.pool.next ref h in ground arith);
    own = λ ref i b h p. absurd (ground (arith, unknown, h));
    given = ground arith;
  }

  indexed-Assigned :
      (r : Relay F) (key : ℕ) (pool : IpPool) (o : Option ℕ)
      → Agree r
      → Agree (record r { pool = pool })
      → lookup key r.by_client_key ≡ none
      → ((idx : ℕ) → o ≡ some idx → lookup idx r.by_index ≡ none)
      → pool.next ≡ r.pool.next + 1
      → Assigned key
          (indexed fl aead codec cbor noise cfg write_ok r.pool.next o (record r { pool = pool }))
  indexed-Assigned r key pool none a b unknown unused grown = b
  indexed-Assigned r key pool (some idx) a b unknown unused grown =
      (b, fresh-Free r key idx pool a unknown (unused idx refl) grown)

  address-Assigned :
      (draws : List ℕ) (r : Relay F) (key : ℕ) (res : Result PoolError ℕ × IpPool)
      → Agree r
      → lookup key r.by_client_key ≡ none
      → Granted r.pool res
      → Assigned key (with_address fl aead codec cbor noise cfg write_ok draws res r)
  address-Assigned draws r key (err e, q) a unknown same =
      carried-Agree r _
        (pool-Carried r q (ground (arith, same)) (ground (arith, same)) (ground (arith, same))) a
  address-Assigned draws r key (ok ip, q) a unknown (first, next, free, end) =
      let b = carried-Agree r _ (pool-Carried r q free end (ground arith)) a in
      rw first (
        indexed-Assigned r key q (new_session_index draws r.by_index) a b unknown
          (λ idx h. new_session_index_new draws r.by_index idx h) next)

  pub assign-Assigned :
      (draws : List ℕ) (r : Relay F) (key : ℕ)
      → Agree r
      → Assigned key (
          assign fl aead codec cbor noise cfg write_ok draws
            (deref fl aead codec cbor noise cfg write_ok (lookup key r.by_client_key) r)
            r)
  unfolding assign
  assign-Assigned draws r key a = known (lookup key r.by_client_key) refl
    where
      known :
          (o : Option ℕ)
          → lookup key r.by_client_key ≡ o
          → Assigned key (
              assign fl aead codec cbor noise cfg write_ok draws
                (deref fl aead codec cbor noise cfg write_ok o r)
                r)
      known none e =
          address-Assigned draws r key (allocate r.pool) a e
            (allocate-Granted r.pool a.unreleased a.room)
      known (some ref) e =
          let (idx, ip, p) = a.client key ref e in
          subst
            (λ found. Assigned key (
              assign fl aead codec cbor noise cfg write_ok draws
                (elim found [ none ↦ none | some s ↦ some (ref, s) ]) r))
            (sym p.stored) (a, known-Free r key ref idx ip a e p)
