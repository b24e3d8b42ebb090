-- ===== src/Reorder/Heap/Up.antt =====
-- `up` and Push: the heap order comes back.
use bondify.Common.{
  ℕ, zero, suc, ◌+◌, ◌<◌, ◌≤◌, ◌≡◌, ◌≢◌, refl, ◌∙◌, List, [], ◌∷◌, ◌++◌, arith, ◌==◌, not, ◌||◌,
  length, length-append, Bool-cases, inl, inr,
}
use bondify.Reorder.Heap.{Packet, key, less, swap, parent, up, push}
use bondify.Reorder.Heap.Array.{
  total, Same, length-swap, at-swap, swap-Same, at-append, total-append,
}

-- No packet has a smaller number than its parent.
abbrev pub IsHeap : List Packet → Type 0
IsHeap h = (c : ℕ) → 0 < c → c < length h → key h (parent c) ≤ key h c

-- The order holds but for the edge above `j`, over which it holds from grandparent to grandchild.
pub record Rising (h : List Packet) (j : ℕ) : Type 0 where
  pub inside : j < length h
  pub edges : (c : ℕ) → 0 < c → c < length h → c ≢ j → key h (parent c) ≤ key h c
  pub bridge : (c : ℕ) → 0 < c → c < length h → parent c ≡ j → 0 < j → key h (parent j) ≤ key h c

swap-Rising :
    (h : List Packet) (j : ℕ)
    → Rising h j
    → 0 < j
    → key h j < key h (parent j)
    → Rising (swap h (parent j) j) (parent j)
swap-Rising h j r pos low =
    let at' = at-swap h (parent j) j (omega (arith, r.inside)) r.inside in
    let size = length-swap h (parent j) j in
    record {
      inside = omega (arith, r.inside, size);
      edges = λ c p b n.
          ground (arith, at' c, at' (parent c), r.edges c, r.edges (parent j), r.bridge c, size);
      bridge = λ c p b e q.
          ground (arith, at' c, at' (parent (parent j)), r.edges c, r.edges (parent j), size);
    }

pub up_restores :
    (fuel : ℕ) (h : List Packet) (j : ℕ)
    → j < fuel
    → Rising h j
    → IsHeap (up fuel h j) × Same (up fuel h j) h
unfolding up
up_restores zero h j f r = absurd (omega arith)
up_restores (suc fuel) h j f r =
    let stop = parent j == j || not (less h j (parent j)) in
    elim (Bool-cases stop) [
      | inl e ↦ rw (e, up) ((λ c p b. ground (arith, r.edges c)), λ f. refl)
      | inr e ↦
          let moved = swap h (parent j) j in
          let (order, same) =
            up_restores fuel moved (parent j) (ground arith)
              (swap-Rising h j r (ground arith) (ground arith)) in
          let swapped = swap-Same h (parent j) j (omega (arith, r.inside)) r.inside in
          rw (e, up) (order, λ g. same g ∙ swapped g)
    ]

-- Push on a heap gives a heap with the packet added.
pub push_lem :
    (h : List Packet) (p : Packet)
    → IsHeap h
    → IsHeap (push h p) × ((f : Packet → ℕ) → total f (push h p) ≡ f p + total f h)
unfolding push
push_lem h p order =
    let n = length h in
    let longer = h ++ p ∷ [] in
    let size : length longer ≡ n + 1 = length-append h (p ∷ []) in
    let kept = at-append h p in
    let start : Rising longer n = record {
      inside = omega (arith, size);
      edges = λ c q b e. ground (arith, order c, kept c, kept (parent c), size);
      bridge = λ c q b e r. absurd (omega (arith, size));
    } in
    let (risen, same) = up_restores (n + 1) longer n (omega arith) start in
    (risen, λ f. same f ∙ total-append f h (p ∷ []) ∙ unfold total in omega arith)
