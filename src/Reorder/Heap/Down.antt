-- ===== src/Reorder/Heap/Down.antt =====
-- `down` and Pop: the least packet comes out, and the heap order comes back.
use bondify.Common.{
  ℕ, zero, suc, ◌+◌, ◌-◌, ◌*◌, ◌<◌, ◌≤◌, ◌≡◌, ◌≢◌, refl, ◌∙◌, ◌⊎◌, List, arith, leb, not, length,
  length-take, Bool-cases, inl, inr,
}
use bondify.Reorder.Heap.{Packet, at, key, less, swap, parent, smaller_child, down, pop}
use bondify.Reorder.Heap.Array.{
  total, Same, length-swap, at-swap, swap-Same, at-take, total-take, length-Same,
}
use bondify.Reorder.Heap.Up.{IsHeap}

abbrev IsHeapBelow : ℕ → List Packet → Type 0
IsHeapBelow n h = (c : ℕ) → 0 < c → c < n → key h (parent c) ≤ key h c

-- The order holds among the first `n` entries but for the edges below `i`, over which it holds from
-- the parent of `i` to its children.
record Sinking (h : List Packet) (i n : ℕ) : Type 0 where
  room : n ≤ length h
  edges : (c : ℕ) → 0 < c → c < n → parent c ≢ i → key h (parent c) ≤ key h c
  bridge : (c : ℕ) → 0 < c → c < n → parent c ≡ i → 0 < i → key h (parent i) ≤ key h c

record IsSmallerChild (h : List Packet) (i n j : ℕ) : Type 0 where
  inside : j < n
  child : (j ≡ 2 * i + 1) ⊎ (j ≡ 2 * i + 2)
  least : (c : ℕ) → 0 < c → c < n → parent c ≡ i → key h j ≤ key h c

smaller_child-IsSmallerChild :
    (h : List Packet) (i n : ℕ) → 2 * i + 1 < n → IsSmallerChild h i n (smaller_child h i n)
unfolding smaller_child
smaller_child-IsSmallerChild h i n b = record {
  inside = ground arith;
  child = ground arith;
  least = λ c p q e. let sides : (c ≡ 2 * i + 1) ⊎ (c ≡ 2 * i + 2) = omega arith in ground arith;
}

swap-Sinking :
    (h : List Packet) (i n j : ℕ)
    → Sinking h i n
    → IsSmallerChild h i n j
    → key h j < key h i
    → Sinking (swap h i j) j n
swap-Sinking h i n j s m low =
    let bj : j < length h = omega (arith, s.room, m.inside) in
    let at' = at-swap h i j (omega (arith, m.child)) bj in
    record {
      room = omega (arith, s.room, length-swap h i j);
      edges = λ c p b e.
          ground
            (arith, at' c, at' (parent c), s.edges c, s.bridge j, m.least c, m.child, m.inside);
      bridge = λ c p b e q. ground (arith, at' c, at' (parent j), s.edges c, m.child);
    }

-- What `down` leaves: the order, the packets, and the entries from `n` on.
abbrev Sunk : List Packet → ℕ → List Packet → Type 0
Sunk h n k = IsHeapBelow n k × Same k h × ((c : ℕ) → n ≤ c → at k c ≡ at h c)

down_restores :
    (fuel : ℕ) (h : List Packet) (i n : ℕ)
    → n - i < fuel
    → Sinking h i n
    → Sunk h n (down fuel h i n)
unfolding down
down_restores zero h i n f s = absurd (omega arith)
down_restores (suc fuel) h i n f s =
    let j = smaller_child h i n in
    elim (Bool-cases (leb n (2 * i + 1))) [
      | inl e ↦ rw (e, down) ((λ c p b. s.edges c p b (ground arith)), (λ g. refl), λ c b. refl)
      | inr e ↦
          let m = smaller_child-IsSmallerChild h i n (ground arith) in
          elim (Bool-cases (not (less h j i))) [
            | inl g ↦
                rw (e, g, down)
                  ((λ c p b. ground (arith, s.edges c, m.least c)), (λ w. refl), λ c b. refl)
            | inr g ↦
                let moved = swap h i j in
                let bi : i < length h = omega (arith, s.room, m.inside, m.child) in
                let bj : j < length h = omega (arith, s.room, m.inside) in
                let (order, same, rest) =
                  down_restores fuel moved j n (omega (arith, m.child, m.inside))
                    (swap-Sinking h i n j s m (ground arith)) in
                rw (e, g, down)
                  (
                    order,
                    (λ w. same w ∙ swap-Same h i j bi bj w),
                    λ c b. rest c b ∙ ground (arith, at-swap h i j bi bj c, m.inside, m.child),
                  )
          ]
    ]

-- What Pop returns: the packet at the root, and a heap of the others.
pub record Popped (h : List Packet) (r : Packet × List Packet) : Type 0 where
  pub root : r.0 ≡ at h 0
  pub order : IsHeap r.1
  pub rest : (f : Packet → ℕ) → total f r.1 + f r.0 ≡ total f h

pub pop-Popped : (h : List Packet) → IsHeap h → 0 < length h → Popped h (pop h)
unfolding pop
pop-Popped h order b =
    let n = length h - 1 in
    let moved = swap h 0 n in
    let size = length-swap h 0 n in
    let at' = at-swap h 0 n b (omega arith) in
    let start : Sinking moved 0 n = record {
      room = omega (arith, size);
      edges = λ c p q e. ground (arith, at' c, at' (parent c), order c);
      bridge = λ c p q e r. absurd (omega arith);
    } in
    let (sunk, same, kept) = down_restores (n + 1) moved 0 n (omega arith) start in
    let k = down (n + 1) moved 0 n in
    let long : length k ≡ suc n = omega (arith, length-Same k moved same, size) in
    record {
      root = kept n (omega arith) ∙ ground (arith, at' n);
      order =
          λ c p q. ground (arith, sunk c, at-take n k c, at-take n k (parent c), length-take n k);
      rest = λ f. omega (arith, total-take f n k long, same f, swap-Same h 0 n b (omega arith) f);
    }

-- The root of a heap carries the least number.
root_least_below :
    (fuel : ℕ) (h : List Packet) (i : ℕ) → IsHeap h → i < fuel → i < length h → key h 0 ≤ key h i
root_least_below zero h i order f b = absurd (omega arith)
root_least_below (suc fuel) h zero order f b = omega arith
root_least_below (suc fuel) h (suc i) order f b = omega (
  arith,
  order (suc i) (omega arith) b,
  root_least_below fuel h (parent (suc i)) order (omega arith) (omega arith),
)

pub root_least : (h : List Packet) (i : ℕ) → IsHeap h → i < length h → key h 0 ≤ key h i
root_least h i order b = root_least_below (suc i) h i order (omega arith) b
