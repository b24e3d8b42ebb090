-- ===== src/Common/Bits.antt =====
-- The bits of a number, and what `&`, `|`, shifts and truncation do to each of them. The library
-- leaves `bit_and` and `bit_or` without laws at variables.
use Prim.Native.Nat.{min, max, bit_and, bit_or, digits, bit_and-bitwise, bit_or-bitwise}
use native.Mathlib.Nat.{
  pow-suc, pow-succ', div-div-eq-div-mul, one-le-pow, div-add-mod, mod-lt, mod-eq_of_lt,
  add-mul-mod_self_left,
}
use bondify.Common.{
  ℕ, zero, suc, ◌+◌, ◌-◌, ◌*◌, ◌/◌, ◌%◌, ◌^◌, ◌≤◌, ◌<◌, ◌≡◌, refl, sym, ap, ap₂, ◌∙◌, Bool, false,
  ◌&&◌, ◌||◌, not, arith, ltb, ◌==◌, if◌then◌else◌,
}

-- Bit `i` of `v`, counted from the least significant.
unfoldable pub bit_at : ℕ → ℕ → Bool
bit_at v zero = v % 2 == 1
bit_at v (suc i) = bit_at (v / 2) i

-- A bitwise operation is computed digit by digit: `rest` answers when the first number is used up.
module _ (rest : ℕ → ℕ) (pick : ℕ → ℕ → ℕ) where
  used_up : (k b : ℕ) → digits rest pick k 0 b ≡ rest b
  used_up zero b = refl
  used_up (suc k) b = refl

  -- Any two amounts of fuel that suffice give one result.
  either_fuel : (a b k l : ℕ) → a ≤ k → a ≤ l → digits rest pick k a b ≡ digits rest pick l a b
  either_fuel zero b k l hk hl = used_up k b ∙ sym (used_up l b)
  either_fuel (suc a) b zero l hk hl = absurd (omega arith)
  either_fuel (suc a) b (suc k) zero hk hl = absurd (omega arith)
  either_fuel (suc a) b (suc k) (suc l) hk hl =
      let tail = either_fuel (suc a / 2) (b / 2) k l (omega arith) (omega arith) in
      ap (λ t. t * 2 + pick (suc a % 2) (b % 2)) tail

  -- The lowest digit apart, for an operation that is computed so.
  lowest_digit :
      (op : ℕ → ℕ → ℕ)
      → ((a b : ℕ) → op a b ≡ digits rest pick a a b)
      → (a b : ℕ) → op (suc a) b ≡ op (suc a / 2) (b / 2) * 2 + pick (suc a % 2) (b % 2)
  lowest_digit op law a b =
      let tail = either_fuel (suc a / 2) (b / 2) a (suc a / 2) (omega arith) (omega arith) in
      law (suc a) b
      ∙ ap (λ t. t * 2 + pick (suc a % 2) (b % 2)) (tail ∙ sym (law (suc a / 2) (b / 2)))

bit_and_step : (v u : ℕ) → bit_and v u ≡ bit_and (v / 2) (u / 2) * 2 + min (v % 2) (u % 2)
bit_and_step (suc v) u = lowest_digit (λ b. zero) min bit_and bit_and-bitwise v u
bit_and_step zero u =
    let empty : (x : ℕ) → bit_and 0 x ≡ 0 = λ x. bit_and-bitwise 0 x in
    omega (arith, empty u, empty (u / 2))

zero-bit_or : (u : ℕ) → bit_or 0 u ≡ u
zero-bit_or = bit_or-bitwise 0

bit_or_step : (v u : ℕ) → bit_or v u ≡ bit_or (v / 2) (u / 2) * 2 + max (v % 2) (u % 2)
bit_or_step (suc v) u = lowest_digit (λ b. b) max bit_or bit_or-bitwise v u
bit_or_step zero u = omega (arith, zero-bit_or u, zero-bit_or (u / 2))

bit_and-zero_below : (bound v : ℕ) → v < bound → bit_and v 0 ≡ 0
bit_and-zero_below zero v h = absurd (omega arith)
bit_and-zero_below (suc bound) zero h = refl
bit_and-zero_below (suc bound) (suc v) h =
    let half = bit_and-zero_below bound (suc v / 2) (omega arith) in
    omega (arith, bit_and_step (suc v) 0)

-- `v & (1 << i) == 0` tests bit `i`.
pub bit_and-pow : (v i : ℕ) → (bit_and v (2 ^ i) == 0) ≡ not (bit_at v i)
unfolding bit_at
bit_and-pow v zero =
    ground (arith, bit_and_step v 1, bit_and-zero_below (v / 2 + 1) (v / 2) (omega arith))
bit_and-pow v (suc i) =
    let double : 2 ^ suc i ≡ 2 ^ i * 2 = pow-suc 2 i in
    let half : (2 ^ i * 2) / 2 ≡ 2 ^ i = omega arith in
    let step = bit_and_step v (2 ^ i * 2) in
    rw double (ground (arith, rw half at step, bit_and-pow (v / 2) i))

pub bit_at-zero : (i : ℕ) → bit_at 0 i ≡ false
unfolding bit_at
bit_at-zero zero = refl
bit_at-zero (suc i) = bit_at-zero i

pub bit_at-or : (a b i : ℕ) → bit_at (bit_or a b) i ≡ (bit_at a i || bit_at b i)
unfolding bit_at
bit_at-or a b zero = ground (arith, bit_or_step a b)
bit_at-or a b (suc i) =
    let half : bit_or a b / 2 ≡ bit_or (a / 2) (b / 2) = omega (arith, bit_or_step a b) in
    rw half (bit_at-or (a / 2) (b / 2) i)

pub bit_at-pow : (k i : ℕ) → bit_at (2 ^ k) i ≡ (i == k)
unfolding bit_at
bit_at-pow zero zero = refl
bit_at-pow zero (suc i) = rw (bit_at-zero i) (ground arith)
bit_at-pow (suc k) zero = ground (arith, pow-suc 2 k)
bit_at-pow (suc k) (suc i) =
    let half : 2 ^ suc k / 2 ≡ 2 ^ k = omega (arith, pow-suc 2 k) in
    rw half (bit_at-pow k i ∙ ground arith)

pub bit_at-shift_left :
    (v s i : ℕ) → bit_at (v * 2 ^ s) i ≡ (if ltb i s then false else bit_at v (i - s))
unfolding bit_at
bit_at-shift_left v zero i = let same : v * 2 ^ 0 ≡ v = omega arith in rw same (ground arith)
bit_at-shift_left v (suc s) zero =
    let double : v * 2 ^ suc s ≡ v * 2 ^ s * 2 =
      omega (arith, ap (λ (t : ℕ). v * t) (pow-suc 2 s)) in
    rw double (ground arith)
bit_at-shift_left v (suc s) (suc i) =
    let half : v * 2 ^ suc s / 2 ≡ v * 2 ^ s = omega (arith, ap (λ (t : ℕ). v * t) (pow-suc 2 s)) in
    rw half (bit_at-shift_left v s i ∙ ground arith)

pub bit_at-shift_right : (v s i : ℕ) → bit_at (v / 2 ^ s) i ≡ bit_at v (i + s)
unfolding bit_at
bit_at-shift_right v zero i =
    let same : v / 2 ^ 0 ≡ v = omega arith in let none : i + 0 ≡ i = omega arith in rw (same, none)
bit_at-shift_right v (suc s) i =
    let split : v / 2 ^ suc s ≡ v / 2 / 2 ^ s =
      rw (pow-succ' 2 s) (sym (div-div-eq-div-mul v 2 (2 ^ s))) in
    let next : i + suc s ≡ suc (i + s) = omega arith in
    rw (split, next) (bit_at-shift_right (v / 2) s i)

mod_double : (v p : ℕ) → 0 < p → (v % (p * 2) % 2 ≡ v % 2) × (v % (p * 2) / 2 ≡ v / 2 % p)
mod_double v p h =
    let q = v / (p * 2) in
    let r = v % (p * 2) in
    let whole : v ≡ p * 2 * q + r = sym (div-add-mod v (p * 2)) in
    let small : r < p * 2 = mod-lt v (omega arith) in
    let reduced : (r / 2 + p * q) % p ≡ r / 2 =
      add-mul-mod_self_left (r / 2) p q ∙ mod-eq_of_lt (omega arith) in
    let halved : v / 2 ≡ r / 2 + p * q = omega arith in (omega arith, rw halved (sym reduced))

pub bit_at-mod : (v w i : ℕ) → bit_at (v % 2 ^ w) i ≡ (ltb i w && bit_at v i)
unfolding bit_at
bit_at-mod v zero i =
    let none : v % 2 ^ 0 ≡ 0 = omega arith in rw none (bit_at-zero i ∙ ground arith)
bit_at-mod v (suc w) zero =
    ground (arith, pow-suc 2 w, mod_double v (2 ^ w) (one-le-pow w 2 (omega arith)))
bit_at-mod v (suc w) (suc i) =
    let half : v % 2 ^ suc w / 2 ≡ (v / 2) % 2 ^ w =
      rw (pow-suc 2 w) (mod_double v (2 ^ w) (one-le-pow w 2 (omega arith))).1 in
    rw half (bit_at-mod (v / 2) w i ∙ ground arith)

-- A number of `w` bits has no bit from `w` on.
pub bit_at_beyond : (v w i : ℕ) → v < 2 ^ w → w ≤ i → bit_at v i ≡ false
bit_at_beyond v w i h above =
    let whole : v % 2 ^ w ≡ v = mod-eq_of_lt h in rw whole at (bit_at-mod v w i) ∙ ground arith

-- `|` stays within the width of its operands.
pub bit_or-lt : (w a b : ℕ) → a < 2 ^ w → b < 2 ^ w → bit_or a b < 2 ^ w
bit_or-lt zero zero b p q = omega (arith, zero-bit_or b)
bit_or-lt zero (suc a) b p q = absurd (omega arith)
bit_or-lt (suc w) a b p q = omega (
  arith,
  pow-suc 2 w,
  bit_or_step a b,
  bit_or-lt w (a / 2) (b / 2) (omega (arith, pow-suc 2 w)) (omega (arith, pow-suc 2 w)),
)

bit_or-zero : (bound v : ℕ) → v < bound → bit_or v 0 ≡ v
bit_or-zero zero v h = absurd (omega arith)
bit_or-zero (suc bound) zero h = refl
bit_or-zero (suc bound) (suc v) h =
    let half = bit_or-zero bound (suc v / 2) (omega arith) in omega (arith, bit_or_step (suc v) 0)

-- `|` of a shifted number and one below the shift is a sum.
pub bit_or-shifted : (k a b : ℕ) → b < 2 ^ k → bit_or (a * 2 ^ k) b ≡ a * 2 ^ k + b
bit_or-shifted zero a zero h = omega (arith, bit_or-zero (a * 2 ^ 0 + 1) (a * 2 ^ 0) (omega arith))
bit_or-shifted zero a (suc b) h = absurd (omega arith)
bit_or-shifted (suc k) a b h =
    let split : a * 2 ^ suc k ≡ a * 2 ^ k * 2 =
      omega (arith, ap (λ (t : ℕ). a * t) (pow-suc 2 k)) in
    let ih = bit_or-shifted k a (b / 2) (omega (arith, pow-suc 2 k)) in
    rw split (ground (arith, bit_or_step (a * 2 ^ k * 2) b, ih))

half_double : (x : ℕ) → x * 2 / 2 ≡ x
half_double x = omega arith

-- `|` commutes with a shift of both operands.
pub bit_or-scale : (k a b : ℕ) → bit_or (a * 2 ^ k) (b * 2 ^ k) ≡ bit_or a b * 2 ^ k
bit_or-scale zero a b =
    let same : (x : ℕ) → x * 2 ^ 0 ≡ x = λ x. omega arith in rw (same a, same b, same (bit_or a b))
bit_or-scale (suc k) a b =
    let split : (x : ℕ) → x * 2 ^ suc k ≡ x * 2 ^ k * 2 =
      λ x. omega (arith, ap (λ (t : ℕ). x * t) (pow-suc 2 k)) in
    rw (split a, split b, split (bit_or a b))
      (omega (
        arith,
        bit_or_step (a * 2 ^ k * 2) (b * 2 ^ k * 2),
        ap₂ bit_or (half_double (a * 2 ^ k)) (half_double (b * 2 ^ k)),
        bit_or-scale k a b,
      ))
