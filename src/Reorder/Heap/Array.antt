-- ===== src/Reorder/Heap/Array.antt =====
-- Slices of packets under reads, writes and swaps, and the equality of their contents.
use bondify.Common.{
  ℕ, zero, suc, ◌+◌, ◌<◌, ◌≤◌, ◌≡◌, refl, sym, ◌∙◌, List, [], ◌∷◌, ◌++◌, arith, ◌==◌, if◌then◌else◌,
  length, set, take, length-set, ℕ_discrete,
}
use bondify.Reorder.Heap.{Packet, at, key, swap}

-- The sum of a weight over the packets.
unfoldable pub total : (Packet → ℕ) → List Packet → ℕ
total f [] = 0
total f (p ∷ h) = f p + total f h

-- The same packets, each as often: no weight can tell the two apart.
abbrev pub Same : List Packet → List Packet → Type 0
Same h k = (f : Packet → ℕ) → total f h ≡ total f k

-- How many of the packets carry the number `g`.
abbrev pub has : ℕ → Packet → ℕ
has g p = if p.gsn == g then 1 else 0

abbrev pub count : ℕ → List Packet → ℕ
count g h = total (has g) h

pub total-append : (f : Packet → ℕ) (h k : List Packet) → total f (h ++ k) ≡ total f h + total f k
unfolding total
total-append f [] k = omega arith
total-append f (p ∷ h) k = omega (arith, total-append f h k)

pub at-set :
    (h : List Packet) (i j : ℕ) (p : Packet)
    → i < length h
    → at (set h i p) j ≡ (if i == j then p else at h j)
at-set [] i j p b = absurd (omega arith)
at-set (x ∷ h) zero zero p b = refl
at-set (x ∷ h) zero (suc j) p b = ground arith
at-set (x ∷ h) (suc i) zero p b = ground arith
at-set (x ∷ h) (suc i) (suc j) p b = ground (arith, at-set h i j p (omega arith))

total-set :
    (f : Packet → ℕ) (h : List Packet) (i : ℕ) (p : Packet)
    → i < length h
    → total f (set h i p) + f (at h i) ≡ total f h + f p
unfolding total
total-set f [] i p b = absurd (omega arith)
total-set f (x ∷ h) zero p b = omega arith
total-set f (x ∷ h) (suc i) p b = omega (arith, total-set f h i p (omega arith))

pub length-swap : (h : List Packet) (i j : ℕ) → length (swap h i j) ≡ length h
unfolding swap
length-swap h i j = length-set (set h i (at h j)) j (at h i) ∙ length-set h i (at h j)

module _ (h : List Packet) (i j : ℕ) (bi : i < length h) (bj : j < length h) where
  pub at-swap :
      (c : ℕ) → at (swap h i j) c ≡ (if j == c then at h i else if i == c then at h j else at h c)
  unfolding swap
  at-swap c =
      let inner = set h i (at h j) in
      ground (
        arith,
        at-set inner j c (at h i) (omega (arith, length-set h i (at h j))),
        at-set h i c (at h j) bi,
      )

  pub swap-Same : Same (swap h i j) h
  unfolding swap
  swap-Same f =
      let inner = set h i (at h j) in
      let kept : f (at inner j) ≡ f (at h j) = ground (arith, at-set h i j (at h j) bi) in
      omega (
        arith,
        kept,
        total-set f inner j (at h i) (omega (arith, length-set h i (at h j))),
        total-set f h i (at h j) bi,
      )

pub at-append : (h : List Packet) (p : Packet) (i : ℕ) → i < length h → at (h ++ p ∷ []) i ≡ at h i
at-append [] p i b = absurd (omega arith)
at-append (x ∷ h) p zero b = refl
at-append (x ∷ h) p (suc i) b = at-append h p i (omega arith)

pub at-take : (n : ℕ) (h : List Packet) (i : ℕ) → i < n → at (take n h) i ≡ at h i
at-take zero h i b = absurd (omega arith)
at-take (suc n) [] i b = refl
at-take (suc n) (x ∷ h) zero b = refl
at-take (suc n) (x ∷ h) (suc i) b = at-take n h i (omega arith)

-- Cutting off the last entry.
pub total-take :
    (f : Packet → ℕ) (n : ℕ) (h : List Packet)
    → length h ≡ suc n
    → total f (take n h) + f (at h n) ≡ total f h
unfolding total
total-take f n [] e = absurd (omega arith)
total-take f zero (x ∷ []) e = omega arith
total-take f zero (x ∷ y ∷ h) e = absurd (omega arith)
total-take f (suc n) (x ∷ h) e = omega (arith, total-take f n h (omega arith))

-- The length is a total.
pub total_one : (h : List Packet) → total (λ p. 1) h ≡ length h
unfolding total
total_one [] = refl
total_one (x ∷ h) = omega (arith, total_one h)

pub length-Same : (h k : List Packet) → Same h k → length h ≡ length k
length-Same h k s = sym (total_one h) ∙ s (λ p. 1) ∙ total_one k

-- A number that is present stands somewhere.
pub count-at : (g : ℕ) (h : List Packet) → 0 < count g h → (i : ℕ) × (i < length h) × (key h i ≡ g)
unfolding total
count-at g [] b = absurd (omega arith)
count-at g (x ∷ h) b = elim (ℕ_discrete x.gsn g) [
  | yes e ↦ (0, omega arith, e)
  | no e ↦ let (i, bi, k) = count-at g h (ground arith) in (suc i, omega arith, k)
]

pub total-at : (f : Packet → ℕ) (h : List Packet) (i : ℕ) → i < length h → f (at h i) ≤ total f h
unfolding total
total-at f [] i b = absurd (omega arith)
total-at f (x ∷ h) zero b = omega arith
total-at f (x ∷ h) (suc i) b = omega (arith, total-at f h i (omega arith))
