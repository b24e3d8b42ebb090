-- ===== src/Pool/Distinctness.antt =====
-- No address has two holders, whatever clients come and go.
use native.Mathlib.Nat.{mod-eq_of_lt, add-mod_right}
use bondify.Common.{
  ℕ, ◌+◌, ◌-◌, ◌^◌, ◌%◌, ◌<◌, ◌≤◌, ◌≡◌, refl, ap, subst, ◌∙◌, List, [], ◌∷◌, arith, ltb, ◌==◌,
  if◌then◌else◌, if_intro, inl, inr, Bool-cases,
}
use bondify.Common.Result.{Result, ok, err}
use bondify.Pool.{
  IpPool, new_ip_pool, allocate, allocate_fresh, release, gateway, PoolError, wrap32,
}

-- The pool and the addresses its clients hold.
pub record Leases : Type 0 where
  pub pool : IpPool
  pub held : List ℕ

-- How often a number stands in a list.
unfoldable pub occurs : ℕ → List ℕ → ℕ
occurs v [] = 0
occurs v (x ∷ xs) = (if x == v then 1 else 0) + occurs v xs

-- One occurrence taken out.
unfoldable pub drop_one : ℕ → List ℕ → List ℕ
drop_one v [] = []
drop_one v (x ∷ xs) = let rest = drop_one v xs in if x == v then xs else x ∷ rest

occurs-drop_one :
    (v w : ℕ) (xs : List ℕ)
    → occurs w (drop_one v xs) + (if v == w then 1 else 0)
      ≡ occurs w xs + (if v == w then (if ltb 0 (occurs v xs) then 0 else 1) else 0)
unfolding occurs drop_one
occurs-drop_one v w [] = ground arith
occurs-drop_one v w (x ∷ xs) = ground (arith, occurs-drop_one v w xs)

pub data Request : Type 0 where
  -- a client asks for an address
  asks : Request
  -- a client that holds an address gives it back; for an address nobody holds nothing happens
  leaves : ℕ → Request

unfoldable pub granted : Result PoolError ℕ → List ℕ → List ℕ
granted (ok v) held = v ∷ held
granted (err e) held = held

unfoldable pub serve : Leases → Request → Leases
unfolding granted
serve l asks = let (r, p) = allocate l.pool in record { pool = p; held = granted r l.held }
serve l (leaves v) =
    if ltb 0 (occurs v l.held)
    then record { pool = release l.pool v; held = drop_one v l.held }
    else l

unfoldable pub serve_all : Leases → List Request → Leases
serve_all l [] = l
serve_all l (r ∷ rs) = serve_all (serve l r) rs

-- Every address handed out so far is held once or free once, no other is, and all lie between the
-- gateway and the next fresh address.
record Fair (first last : ℕ) (l : Leases) : Type 0 where
  once :
      (v : ℕ)
      → occurs v l.held + occurs v l.pool.released
        ≡ (if ltb v first then 0 else if ltb v l.pool.next then 1 else 0)
  from : first ≤ l.pool.next
  limit : l.pool.next ≤ last + 1
  stop : l.pool.end ≡ last

asks-Fair :
    (first last base next end : ℕ) (released held : List ℕ)
    → last + 1 < 2 ^ 32
    → Fair first last (record {
      pool = record { base = base; next = next; end = end; released = released };
      held = held;
    })
    → Fair first last (
        serve
          (record {
            pool = record { base = base; next = next; end = end; released = released };
            held = held;
          })
          asks)
unfolding serve granted allocate allocate_fresh occurs
asks-Fair first last base next end (v ∷ vs) held small f = record {
  once = λ w. omega (arith, f.once w);
  from = f.from;
  limit = f.limit;
  stop = f.stop;
}
asks-Fair first last base next end [] held small f =
    let l : Leases = record {
      pool = record { base = base; next = next; end = end; released = [] };
      held = held;
    } in
    elim (Bool-cases (ltb end next)) [
      | inl e ↦ rw e f
      | inr e ↦
          let wrap : (next + 1) % 2 ^ 32 ≡ next + 1 =
            mod-eq_of_lt (let a = f.limit in let b = f.stop in ground arith) in
          rw (e, wrap)
            (record {
              once = λ w. (let a = f.from in ground (arith, f.once w));
              from = (let a = f.from in omega arith);
              limit = (let b = f.stop in ground arith);
              stop = f.stop;
            })
    ]

leaves-Fair :
    (first last : ℕ) (l : Leases) (v : ℕ) → Fair first last l → Fair first last (serve l (leaves v))
unfolding serve release occurs
leaves-Fair first last l v f =
    if_intro (Fair first last) (ltb 0 (occurs v l.held))
      (λ e. record {
        once = λ w. ground (arith, f.once w, occurs-drop_one v w l.held);
        from = f.from;
        limit = f.limit;
        stop = f.stop;
      })
      λ e. f

serve_all-Fair :
    (first last : ℕ) (l : Leases) (rs : List Request)
    → last + 1 < 2 ^ 32
    → Fair first last l
    → Fair first last (serve_all l rs)
unfolding serve_all
serve_all-Fair first last l [] small f = f
serve_all-Fair first last l (asks ∷ rs) small f =
    serve_all-Fair first last (serve l asks) rs small
      (asks-Fair first last l.pool.base l.pool.next l.pool.end l.pool.released l.held small f)
serve_all-Fair first last l (leaves v ∷ rs) small f =
    serve_all-Fair first last (serve l (leaves v)) rs small (leaves-Fair first last l v f)

pub record Made (base size : ℕ) (pool : IpPool) : Type 0 where
  pub enough : 4 ≤ size
  pub same_base : pool.base ≡ base
  pub first_fresh : pool.next ≡ base + 2
  pub last_fresh : pool.end + 1 ≡ base + size
  pub none_free : pool.released ≡ []

pool_of : IpPool → Result PoolError IpPool → IpPool
pool_of d (ok p) = p
pool_of d (err e) = d

one_less : (n : ℕ) → 0 < n → n < 2 ^ 32 → wrap32 (n + (2 ^ 32 - 1)) ≡ n - 1
one_less n h k =
    ap wrap32 (omega arith)
    ∙ add-mod_right (n - 1) (2 ^ 32)
    ∙ mod-eq_of_lt {n = n - 1} (omega arith)

pub new_ip_pool-Made :
    (base host_bits : ℕ) (pool : IpPool)
    → new_ip_pool base host_bits ≡ ok pool
    → 2 ^ host_bits < 2 ^ 32
    → base + 2 ^ host_bits < 2 ^ 32
    → Made base (2 ^ host_bits) pool
unfolding new_ip_pool pool_of
new_ip_pool-Made base host_bits pool made small room =
    let size : wrap32 (2 ^ host_bits) ≡ 2 ^ host_bits = mod-eq_of_lt small in
    if_intro (λ r. r ≡ ok pool → Made base (2 ^ host_bits) pool) (ltb (wrap32 (2 ^ host_bits)) 4)
      (λ e m. absurd (ground arith))
      (λ e m.
        let n : 4 ≤ 2 ^ host_bits = ground arith in
        let grown : wrap32 (base + wrap32 (2 ^ host_bits)) ≡ base + 2 ^ host_bits =
          ap (λ k. wrap32 (base + k)) size ∙ mod-eq_of_lt room in
        subst (Made base (2 ^ host_bits)) (ap (pool_of pool) m) (record {
          enough = n;
          same_base = refl;
          first_fresh = mod-eq_of_lt (omega arith);
          last_fresh = rw grown (omega (arith, one_less (base + 2 ^ host_bits) (omega arith) room));
          none_free = refl;
        }))
      made

-- After any run of requests on a new pool of a network that ends below the top of the address space,
-- by clients that give back only addresses they hold, no address is held twice, no held address is
-- free, and every held address lies in the network, above the gateway.
pub leases_are_distinct :
    (base host_bits : ℕ) (pool : IpPool) (rs : List Request)
    → new_ip_pool base host_bits ≡ ok pool
    → 2 ^ host_bits < 2 ^ 32
    → base + 2 ^ host_bits < 2 ^ 32
    → (v : ℕ)
    → let l = serve_all (record { pool = pool; held = [] }) rs in
      (occurs v l.held + occurs v l.pool.released ≤ 1)
      × (0 < occurs v l.held → (gateway pool < v) × (v < base + 2 ^ host_bits))
unfolding occurs
leases_are_distinct base host_bits pool rs made small room v =
    let m = new_ip_pool-Made base host_bits pool made small room in
    let start : Fair (base + 2) pool.end (record { pool = pool; held = [] }) = record {
      once = λ w. (let a = m.first_fresh in rw m.none_free (ground arith));
      from = (let a = m.first_fresh in omega arith);
      limit = (let a = m.first_fresh in let b = m.last_fresh in let c = m.enough in omega arith);
      stop = refl;
    } in
    let gate : gateway pool ≡ base + 1 =
      rw m.same_base (mod-eq_of_lt (let c = m.enough in omega arith)) in
    let f =
      serve_all-Fair (base + 2) pool.end (record { pool = pool; held = [] }) rs
        (let b = m.last_fresh in omega arith) start in
    let low = f.from in
    let high = f.limit in
    let b = m.last_fresh in
    (ground (arith, f.once v), λ h. (ground (arith, f.once v), ground (arith, f.once v)))
