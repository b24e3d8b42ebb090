-- ===== src/Common/Bytes.antt =====
-- Go byte slices as lists of numbers: reads, `copy` at an offset, big-endian integers
-- (encoding/binary's Uint16/32/64 and PutUint16/32/64).
use native.Mathlib.Nat.{pow-suc}
use bondify.Common.{
  ℕ, zero, suc, ◌+◌, ◌*◌, ◌/◌, ◌%◌, ◌^◌, ◌≤◌, ◌<◌, ◌≡◌, refl, ap, ◌∙◌, List, [], ◌∷◌, ◌++◌, arith,
  length, length-append, get_or, take, drop,
}

-- `src[i]`, read under a length test of the caller.
abbrev pub byte : List ℕ → ℕ → ℕ
byte src i = get_or src i 0

-- `src[from : from + n]`
abbrev pub slice : List ℕ → ℕ → ℕ → List ℕ
slice src from n = take n (drop from src)

-- `copy(dst[from:], bs)`; what does not fit is left out.
unfoldable pub overwrite : List ℕ → List ℕ → List ℕ
overwrite [] xs = xs
overwrite (b ∷ bs) [] = []
overwrite (b ∷ bs) (x ∷ xs) = b ∷ overwrite bs xs

unfoldable pub write : List ℕ → ℕ → List ℕ → List ℕ
unfolding overwrite
write xs zero bs = overwrite bs xs
write [] (suc from) bs = []
write (x ∷ xs) (suc from) bs = x ∷ write xs from bs

-- `v` as `n` bytes, the most significant first.
unfoldable pub be : ℕ → ℕ → List ℕ
be zero v = []
be (suc n) v = be n (v / 256) ++ (v % 256) ∷ []

-- The number that a list of bytes stands for, after `acc`.
unfoldable pub of_be_from : ℕ → List ℕ → ℕ
of_be_from acc [] = acc
of_be_from acc (b ∷ bs) = of_be_from (acc * 256 + b) bs

abbrev pub of_be : List ℕ → ℕ
of_be bs = of_be_from 0 bs

of_be_from-append :
    (acc : ℕ) (xs ys : List ℕ) → of_be_from acc (xs ++ ys) ≡ of_be_from (of_be_from acc xs) ys
unfolding of_be_from
of_be_from-append acc [] ys = refl
of_be_from-append acc (x ∷ xs) ys = of_be_from-append (acc * 256 + x) xs ys

of_be_from_one : (acc b : ℕ) → of_be_from acc (b ∷ []) ≡ acc * 256 + b
unfolding of_be_from
of_be_from_one acc b = refl

of_be_from_nil : (acc : ℕ) → of_be_from acc [] ≡ acc
unfolding of_be_from
of_be_from_nil acc = refl

-- Decoding an encoded number gives it back, if it fits.
pub of_be-be : (n v : ℕ) → v < 256 ^ n → of_be (be n v) ≡ v
unfolding be
of_be-be zero v h = omega (arith, of_be_from_nil 0)
of_be-be (suc n) v h =
    let low : v < 256 ^ n * 256 = omega (arith, pow-suc 256 n) in
    of_be_from-append 0 (be n (v / 256)) ((v % 256) ∷ [])
    ∙ of_be_from_one (of_be (be n (v / 256))) (v % 256)
    ∙ omega (arith, of_be-be n (v / 256) (omega arith))

pub length-be : (n v : ℕ) → length (be n v) ≡ n
unfolding be
length-be zero v = refl
length-be (suc n) v =
    omega (arith, length-append (be n (v / 256)) ((v % 256) ∷ []), length-be n (v / 256))

length-overwrite : (bs xs : List ℕ) → length (overwrite bs xs) ≡ length xs
unfolding overwrite
length-overwrite [] xs = refl
length-overwrite (b ∷ bs) [] = refl
length-overwrite (b ∷ bs) (x ∷ xs) = ap suc (length-overwrite bs xs)

pub length-write : (xs : List ℕ) (from : ℕ) (bs : List ℕ) → length (write xs from bs) ≡ length xs
unfolding write
length-write xs zero bs = length-overwrite bs xs
length-write [] (suc from) bs = refl
length-write (x ∷ xs) (suc from) bs = ap suc (length-write xs from bs)

-- A copy to the front.
pub overwrite-append :
    (bs xs : List ℕ) → length bs ≤ length xs → overwrite bs xs ≡ bs ++ drop (length bs) xs
unfolding overwrite
overwrite-append [] xs h = refl
overwrite-append (b ∷ bs) [] h = elim h [ ]
overwrite-append (b ∷ bs) (x ∷ xs) h = ap (◌∷◌ b) (overwrite-append bs xs (omega arith))

pub take-append : (xs ys : List ℕ) → take (length xs) (xs ++ ys) ≡ xs
take-append [] ys = refl
take-append (x ∷ xs) ys = ap (◌∷◌ x) (take-append xs ys)

pub drop-append : (xs ys : List ℕ) → drop (length xs) (xs ++ ys) ≡ ys
drop-append [] ys = refl
drop-append (x ∷ xs) ys = drop-append xs ys
