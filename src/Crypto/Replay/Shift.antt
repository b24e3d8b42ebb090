-- ===== src/Crypto/Replay/Shift.antt =====
-- The bitset as one long row of bits, and the effect of shiftWords and of a single store on it.
use Prim.Native.Nat.{bit_or}
use native.Mathlib.Nat.{mod-lt, div-le_self, lt_of_le_of_lt, pow-le-pow_right}
use bondify.Common.{
  ℕ, zero, suc, ◌+◌, ◌-◌, ◌*◌, ◌/◌, ◌%◌, ◌^◌, ◌≤◌, ◌<◌, ◌≡◌, refl, ◌∙◌, Bool, false, ◌||◌, List, [],
  ◌∷◌, arith, ltb, ◌==◌, if◌then◌else◌, length, get_or, set, replicate, length-set,
  length-replicate,
}
use bondify.Common.Bits.{
  bit_at, bit_at-zero, bit_at-or, bit_at-pow, bit_at-shift_left, bit_at-shift_right, bit_at-mod,
  bit_at_beyond, bit_or-lt,
}
use bondify.Crypto.Replay.{shifted_word, shift_loop, shift_words, set_bit, word_mod}

-- Bit `k` of the whole row.
abbrev pub row_bit : List ℕ → ℕ → Bool
row_bit bits k = bit_at (get_or bits (k / 64) 0) (k % 64)

get_or-set :
    (xs : List ℕ) (i j v : ℕ)
    → get_or (set xs i v) j 0
      ≡ (if i == j then (if ltb i (length xs) then v else 0) else get_or xs j 0)
get_or-set [] i j v = ground arith
get_or-set (x ∷ xs) zero zero v = ground arith
get_or-set (x ∷ xs) zero (suc j) v = ground arith
get_or-set (x ∷ xs) (suc i) zero v = ground arith
get_or-set (x ∷ xs) (suc i) (suc j) v = ground (arith, get_or-set xs i j v)

get_or_beyond : (xs : List ℕ) (i : ℕ) → length xs ≤ i → get_or xs i 0 ≡ 0
get_or_beyond [] i h = refl
get_or_beyond (x ∷ xs) zero h = absurd (omega arith)
get_or_beyond (x ∷ xs) (suc i) h = get_or_beyond xs i (omega arith)

get_or-replicate : (n i : ℕ) → get_or {A = ℕ} (replicate n 0) i 0 ≡ 0
get_or-replicate zero i = refl
get_or-replicate (suc n) zero = refl
get_or-replicate (suc n) (suc i) = get_or-replicate n i

pub row_bit_beyond : (bits : List ℕ) (k : ℕ) → length bits * 64 ≤ k → row_bit bits k ≡ false
row_bit_beyond bits k h = rw (get_or_beyond bits (k / 64) (omega arith)) (bit_at-zero (k % 64))

pub row_bit-replicate : (n k : ℕ) → row_bit (replicate n 0) k ≡ false
row_bit-replicate n k = rw (get_or-replicate n (k / 64)) (bit_at-zero (k % 64))

-- The loop replaces each word below `n` by the shifted word of the row it started from.
shifted_word-set :
    (bits : List ℕ) (ws bs i j v : ℕ)
    → j < i
    → shifted_word (set bits i v) ws bs j ≡ shifted_word bits ws bs j
unfolding shifted_word
shifted_word-set bits ws bs i j v h =
    ground (arith, get_or-set bits i (j - ws) v, get_or-set bits i (j - ws - 1) v)

shift_loop-word :
    (n ws bs : ℕ) (bits : List ℕ) (j : ℕ)
    → n ≤ length bits
    → get_or (shift_loop n ws bs bits) j 0
      ≡ (if ltb j n then shifted_word bits ws bs j else get_or bits j 0)
unfolding shift_loop
shift_loop-word zero ws bs bits j h = ground arith
shift_loop-word (suc n) ws bs bits j h =
    let v = shifted_word bits ws bs n in
    ground (
      arith,
      shift_loop-word n ws bs (set bits n v) j,
      length-set bits n v,
      get_or-set bits n j v,
      shifted_word-set bits ws bs n j v,
    )

length-shift_loop : (n ws bs : ℕ) (bits : List ℕ) → length (shift_loop n ws bs bits) ≡ length bits
unfolding shift_loop
length-shift_loop zero ws bs bits = refl
length-shift_loop (suc n) ws bs bits =
    length-shift_loop n ws bs _ ∙ length-set bits n (shifted_word bits ws bs n)

pub length-shift_words : (bits : List ℕ) (n : ℕ) → length (shift_words bits n) ≡ length bits
unfolding shift_words
length-shift_words bits n = ground (
  arith,
  length-replicate {A = ℕ} (length bits) 0,
  length-shift_loop (length bits) (n / 64) (n % 64) bits,
)

-- One word of the shifted row, bit by bit.
shifted_word-bit :
    (bits : List ℕ) (ws bs i j : ℕ)
    → ((c : ℕ) → get_or bits c 0 < word_mod)
    → bs < 64
    → j < 64
    → bit_at (shifted_word bits ws bs i) j ≡ (
        if ltb (i * 64 + j) (ws * 64 + bs)
        then false
        else row_bit bits (i * 64 + j - (ws * 64 + bs)))
unfolding shifted_word
shifted_word-bit bits ws bs i j fit hb hj =
    let v = get_or bits (i - ws) 0 in
    let prev = get_or bits (i - ws - 1) 0 in
    ground (
      arith,
      bit_at-zero j,
      bit_at-or (v * 2 ^ bs % word_mod) (prev / 2 ^ (64 - bs)) j,
      bit_at-mod (v * 2 ^ bs) 64 j,
      bit_at-shift_left v bs j,
      bit_at-shift_right prev (64 - bs) j,
      bit_at_beyond prev 64 (j + (64 - bs)) (fit (i - ws - 1)),
    )

-- Shifting by `n` moves every bit up by `n` and clears the bits below.
pub row_bit-shift_words :
    (bits : List ℕ) (n k : ℕ)
    → ((c : ℕ) → get_or bits c 0 < word_mod)
    → k < length bits * 64
    → row_bit (shift_words bits n) k ≡ (if ltb k n then false else row_bit bits (k - n))
unfolding shift_words
row_bit-shift_words bits n k fit h =
    let len = length bits in
    ground (
      arith,
      row_bit-replicate len k,
      shift_loop-word len (n / 64) (n % 64) bits (k / 64) (omega arith),
      shifted_word-bit bits (n / 64) (n % 64) (k / 64) (k % 64) fit,
    )

pub row_bit-set_bit :
    (bits : List ℕ) (i k : ℕ)
    → i < length bits * 64
    → row_bit (set_bit bits i) k ≡ ((k == i) || row_bit bits k)
unfolding set_bit
row_bit-set_bit bits i k h = ground (
  arith,
  get_or-set bits (i / 64) (k / 64) (bit_or (get_or bits (i / 64) 0) (2 ^ (i % 64))),
  bit_at-or (get_or bits (i / 64) 0) (2 ^ (i % 64)) (k % 64),
  bit_at-pow (i % 64) (k % 64),
)

get_or-set-fits :
    (bits : List ℕ) (i v : ℕ)
    → v < word_mod
    → ((c : ℕ) → get_or bits c 0 < word_mod)
    → (c : ℕ) → get_or (set bits i v) c 0 < word_mod
get_or-set-fits bits i v h fit c = ground (arith, get_or-set bits i c v, fit c)

shifted_word-fits :
    (bits : List ℕ) (ws bs i : ℕ)
    → ((c : ℕ) → get_or bits c 0 < word_mod)
    → shifted_word bits ws bs i < word_mod
unfolding shifted_word
shifted_word-fits bits ws bs i fit =
    let v = get_or bits (i - ws) 0 in
    let prev = get_or bits (i - ws - 1) 0 in
    let p = 2 ^ (64 - bs) in
    let shrunk : prev / p < word_mod = lt_of_le_of_lt (div-le_self prev p) (fit (i - ws - 1)) in
    ground (
      arith,
      fit (i - ws),
      bit_or-lt 64 (v * 2 ^ bs % word_mod) (prev / p) (mod-lt (v * 2 ^ bs) (omega arith)) shrunk,
    )

shift_loop-fits :
    (n ws bs : ℕ) (bits : List ℕ)
    → ((c : ℕ) → get_or bits c 0 < word_mod)
    → (c : ℕ) → get_or (shift_loop n ws bs bits) c 0 < word_mod
unfolding shift_loop
shift_loop-fits zero ws bs bits fit c = fit c
shift_loop-fits (suc n) ws bs bits fit c =
    let v = shifted_word bits ws bs n in
    shift_loop-fits n ws bs (set bits n v)
      (get_or-set-fits bits n v (shifted_word-fits bits ws bs n fit) fit) c

pub shift_words-fits :
    (bits : List ℕ) (n : ℕ)
    → ((c : ℕ) → get_or bits c 0 < word_mod)
    → (c : ℕ) → get_or (shift_words bits n) c 0 < word_mod
unfolding shift_words
shift_words-fits bits n fit c = ground (
  arith,
  get_or-replicate (length bits) c,
  shift_loop-fits (length bits) (n / 64) (n % 64) bits fit c,
)

small_power : (i : ℕ) → i < 64 → 2 ^ i < word_mod
small_power i h =
    let below : 2 ^ i ≤ 2 ^ 63 = pow-le-pow_right (omega arith) {j = 63} (omega arith) in
    lt_of_le_of_lt below (omega arith)

pub set_bit-fits :
    (bits : List ℕ) (k : ℕ)
    → ((c : ℕ) → get_or bits c 0 < word_mod)
    → (c : ℕ) → get_or (set_bit bits k) c 0 < word_mod
unfolding set_bit
set_bit-fits bits k fit =
    get_or-set-fits bits (k / 64) _
      (bit_or-lt 64 _ (2 ^ (k % 64)) (fit (k / 64)) (small_power (k % 64) (omega arith))) fit

pub length-set_bit : (bits : List ℕ) (k : ℕ) → length (set_bit bits k) ≡ length bits
unfolding set_bit
length-set_bit bits k = length-set bits (k / 64) _

pub replicate-fits : (n c : ℕ) → get_or {A = ℕ} (replicate n 0) c 0 < word_mod
replicate-fits n c = rw (get_or-replicate n c) (omega arith)

-- `bits[0] = 1` on an empty bitset.
pub row_bit-first :
    (bits : List ℕ) (k : ℕ)
    → 0 < length bits
    → ((j : ℕ) → row_bit bits j ≡ false)
    → row_bit (set bits 0 1) k ≡ (k == 0)
row_bit-first bits k h blank =
    ground (arith, get_or-set bits 0 (k / 64) 1, bit_at-pow 0 (k % 64), blank k)

pub first-fits :
    (bits : List ℕ)
    → ((c : ℕ) → get_or bits c 0 < word_mod)
    → (c : ℕ) → get_or (set bits 0 1) c 0 < word_mod
first-fits bits fit = get_or-set-fits bits 0 1 (omega arith) fit
