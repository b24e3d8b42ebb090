-- ===== src/Relay/Tables/Carried.antt =====
-- core/bond/relay.go: changes that leave the tables and the places of the sessions as they are.
use bondify.Common.{
  ℕ, ◌≤◌, ◌<◌, ◌≡◌, ◌∙◌, refl, sym, ap, subst, Bool, true, false, some, List, arith, ◌==◌, inl, inr,
}
use bondify.Common.Assoc.{lookup, insert, lookup-insert}
use bondify.BondPath.{Stats}
use bondify.Pool.{IpPool}
use bondify.Relay.{RelaySession, Relay}
use bondify.Relay.Tables.{Points, Agree, entry}

module _ {F : Type 0} where
  -- A session with the index and the address of another.
  pub record Standing (s : RelaySession F) (m : List (ℕ × RelaySession F)) (k : ℕ) : Type 0 where
    pub session : RelaySession F
    pub stored : lookup k m ≡ some session
    pub same_index : session.session_index ≡ s.session_index
    pub same_ip : session.tunnel_ip ≡ s.tunnel_ip

  -- The tables are the same and so are the index and the address of every session; the pool may
  -- have given addresses out.
  pub record Carried (r q : Relay F) : Type 0 where
    pub by_index : q.by_index ≡ r.by_index
    pub by_tunnel_ip : q.by_tunnel_ip ≡ r.by_tunnel_ip
    pub by_client_key : q.by_client_key ≡ r.by_client_key
    pub next_ref : q.next_ref ≡ r.next_ref
    pub released : q.pool.released ≡ r.pool.released
    pub end : q.pool.end ≡ r.pool.end
    pub grown : r.pool.next ≤ q.pool.next
    pub forth :
        (ref : ℕ) (s : RelaySession F) → lookup ref r.sessions ≡ some s → Standing s q.sessions ref
    pub back :
        (ref : ℕ) (s : RelaySession F) → lookup ref q.sessions ≡ some s → Standing s r.sessions ref

  module _ (r q : Relay F) (c : Carried r q) where
    pub carried-Points : (ref i b : ℕ) → Points r ref i b → Points q ref i b
    carried-Points ref i b p =
        let s = c.forth ref p.session p.stored in
        record {
          session = s.session;
          stored = s.stored;
          its_index = s.same_index ∙ p.its_index;
          its_ip = s.same_ip ∙ p.its_ip;
          indexed = ap (λ m. lookup i m) c.by_index ∙ p.indexed;
          addressed = ap (λ m. lookup b m) c.by_tunnel_ip ∙ p.addressed;
        }

    returned-Points : (ref i b : ℕ) → Points q ref i b → Points r ref i b
    returned-Points ref i b p =
        let s = c.back ref p.session p.stored in
        record {
          session = s.session;
          stored = s.stored;
          its_index = s.same_index ∙ p.its_index;
          its_ip = s.same_ip ∙ p.its_ip;
          indexed = ap (λ m. lookup i m) (sym c.by_index) ∙ p.indexed;
          addressed = ap (λ m. lookup b m) (sym c.by_tunnel_ip) ∙ p.addressed;
        }

    pub carried-Agree : Agree r → Agree q
    carried-Agree a = record {
      index = λ i ref h.
          let (b, p) = a.index i ref (ap (λ m. lookup i m) (sym c.by_index) ∙ h) in
          (b, carried-Points ref i b p);
      address = λ b ref h.
          let (i, p) = a.address b ref (ap (λ m. lookup b m) (sym c.by_tunnel_ip) ∙ h) in
          (i, carried-Points ref i b p);
      client = λ key ref h.
          let (i, b, p) = a.client key ref (ap (λ m. lookup key m) (sym c.by_client_key) ∙ h) in
          (i, b, carried-Points ref i b p);
      alone = λ one two ref h k.
          a.alone one two ref (ap (λ m. lookup one m) (sym c.by_client_key) ∙ h)
            (ap (λ m. lookup two m) (sym c.by_client_key) ∙ k);
      fresh = λ ref s h.
          let t = c.back ref s h in
          subst (λ n. ref < n) (sym c.next_ref) (a.fresh ref t.session t.stored);
      given = λ b ref h.
          let old = a.given b ref (ap (λ m. lookup b m) (sym c.by_tunnel_ip) ∙ h) in
          let grown = c.grown in ground arith;
      unreleased = c.released ∙ a.unreleased;
      room = (let room = a.room in let end = c.end in ground arith);
    }

  still :
      (store : List (ℕ × RelaySession F)) (ref : ℕ) (s : RelaySession F)
      → lookup ref store ≡ some s
      → Standing s store ref
  still store ref s h = record { session = s; stored = h; same_index = refl; same_ip = refl }

  pub Carried-refl : (r : Relay F) → Carried r r
  Carried-refl r = record {
    by_index = refl;
    by_tunnel_ip = refl;
    by_client_key = refl;
    next_ref = refl;
    released = refl;
    end = refl;
    grown = omega arith;
    forth = still r.sessions;
    back = still r.sessions;
  }

  pub pool-Carried :
      (r : Relay F) (pool : IpPool)
      → pool.released ≡ r.pool.released
      → pool.end ≡ r.pool.end
      → r.pool.next ≤ pool.next
      → Carried r (record r { pool = pool })
  pool-Carried r pool e f g = record {
    by_index = refl;
    by_tunnel_ip = refl;
    by_client_key = refl;
    next_ref = refl;
    released = e;
    end = f;
    grown = g;
    forth = still r.sessions;
    back = still r.sessions;
  }

  module _ (store : List (ℕ × RelaySession F)) (ref : ℕ) (s t : RelaySession F)
      (here : lookup ref store ≡ some s) (i : t.session_index ≡ s.session_index)
      (b : t.tunnel_ip ≡ s.tunnel_ip) where
    put_forth :
        (q : ℕ) (u : RelaySession F) → lookup q store ≡ some u → Standing u (insert ref t store) q
    put_forth q u h = decide (ref == q) refl
      where
        decide : (d : Bool) → (ref == q) ≡ d → Standing u (insert ref t store) q
        decide true e =
            let same : some s ≡ some u = sym here ∙ ap (λ n. lookup n store) (ground arith) ∙ h in
            record {
              session = t;
              stored = lookup-insert ref q t store ∙ (rw e refl);
              same_index = i ∙ ground (arith, same);
              same_ip = b ∙ ground (arith, same);
            }
        decide false e = record {
          session = u;
          stored = lookup-insert ref q t store ∙ (rw e h);
          same_index = refl;
          same_ip = refl;
        }

    put_back :
        (q : ℕ) (u : RelaySession F) → lookup q (insert ref t store) ≡ some u → Standing u store q
    put_back q u h = elim (entry ref q t u store h) [
      | inl (e, g) ↦ record {
        session = s;
        stored = ap (λ n. lookup n store) e ∙ here;
        same_index = sym i ∙ ground (arith, g);
        same_ip = sym b ∙ ground (arith, g);
      }
      | inr (ne, g) ↦ still store q u g
    ]

  -- A session is written back with its index and its address.
  pub insert-Carried :
      (r : Relay F) (totals : Stats) (ref : ℕ) (s t : RelaySession F)
      → lookup ref r.sessions ≡ some s
      → t.session_index ≡ s.session_index
      → t.tunnel_ip ≡ s.tunnel_ip
      → Carried r (record r { stats = totals; sessions = insert ref t r.sessions })
  insert-Carried r totals ref s t here i b = record {
    by_index = refl;
    by_tunnel_ip = refl;
    by_client_key = refl;
    next_ref = refl;
    released = refl;
    end = refl;
    grown = omega arith;
    forth = put_forth r.sessions ref s t here i b;
    back = put_back r.sessions ref s t here i b;
  }
