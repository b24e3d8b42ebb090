-- ===== src/Pool.antt =====
-- core/bond/pool.go: the relay's pool of tunnel addresses. An address is its 32-bit number; the
-- network is its base and the number of host bits, which net.ParseCIDR yields. `released` is the
-- free list with its end, from which Allocate takes, first.
pub mod Distinctness
pub mod Tests
use bondify.Common.{
  ℕ, ◌+◌, ◌-◌, ◌^◌, ◌%◌, Bool, Option, none, some, List, [], ◌∷◌, ltb, if◌then◌else◌,
}
use bondify.Common.Result.{Result, ok, err}

pub data PoolError : Type 0 where
  too_small exhausted : PoolError

pub record IpPool : Type 0 where
  pub base : ℕ
  pub next : ℕ
  pub end : ℕ
  pub released : List ℕ

abbrev pub wrap32 : ℕ → ℕ
wrap32 n = n % 2 ^ 32

-- NewIPPool, on a parsed network. `uint32(1) << 32` is 0.
unfoldable pub new_ip_pool : ℕ → ℕ → Result PoolError IpPool
new_ip_pool base host_bits =
    let size = wrap32 (2 ^ host_bits) in
    if ltb size 4
    then err too_small
    else ok (record {
      base = base;
      next = wrap32 (base + 2);
      end = wrap32 (wrap32 (base + size) + (2 ^ 32 - 1));
      released = [];
    })

abbrev pub gateway : IpPool → ℕ
gateway p = wrap32 (p.base + 1)

unfoldable pub allocate_fresh : IpPool → Result PoolError ℕ × IpPool
allocate_fresh p =
    if ltb p.end p.next
    then (err exhausted, p)
    else (ok p.next, record p { next = wrap32 (p.next + 1) })

unfoldable pub allocate : IpPool → Result PoolError ℕ × IpPool
unfolding allocate_fresh
allocate p = elim p.released [ [] ↦ allocate_fresh p | v ∷ vs ↦ (ok v, record p { released = vs }) ]

-- Release of an IPv4 address.
unfoldable pub release : IpPool → ℕ → IpPool
release p v = record p { released = v ∷ p.released }
