-- ===== src/Sched/Fairness.antt =====
-- RoundRobin.Next: the first eligible path in rotation order, none only if no path is eligible, and
-- no starvation.
use native.Mathlib.Nat.{mod-lt}
use bondify.Common.{
  ℕ, ◌+◌, ◌%◌, ◌<◌, ◌≤◌, ◌≡◌, refl, sym, ap, ◌∙◌, subst, Bool, true, false, Option, none, some,
  List, [], ◌∷◌, arith, ltb, ◌==◌, length, get_elem?, ◌⊎◌, inl, inr, Bool-cases, if_intro, All,
}
use bondify.Sched.{PathView, is_eligible, scan, past, next}
use bondify.Sched.Rotation.{passes, turn, Found, ScanFound, scan-Found, slot_lem, slot-turn}

from_zero : (n cursor k : ℕ) → (cursor + (0 + k)) % n ≡ (cursor + k) % n
from_zero n cursor k = ap (λ m. (cursor + m) % n) (omega arith)

module _ {F : Type 0} where
  abbrev pub eligible_at : List (PathView F) → ℕ → Bool
  eligible_at ps j = passes is_eligible ps j

  -- What a call of Next on at least one path comes to: an eligible path, and the cursor past it, or
  -- nothing.
  abbrev pub Picked : ℕ → List (PathView F) → Option (PathView F) → ℕ → Type 0
  Picked cursor ps none cursor' =
      (cursor' ≡ cursor) × ((j : ℕ) → j < length ps → eligible_at ps j ≡ false)
  Picked cursor ps (some p) cursor' =
      (idx : ℕ) × (cursor' ≡ past (length ps) idx)
      × (cursor' < length ps)
      × Found is_eligible ps cursor (length ps) 0 idx p

  from_scan :
      (cursor : ℕ) (ps : List (PathView F)) (r : Option (ℕ × PathView F))
      → scan is_eligible ps cursor (length ps) 0 ≡ r
      → cursor < length ps
      → ScanFound is_eligible ps cursor (length ps) 0 r
      → Picked cursor ps (next cursor ps).0 (next cursor ps).1
  unfolding next
  from_scan cursor ps none e h f =
      if_intro (λ (r : Option (PathView F) × ℕ). Picked cursor ps r.0 r.1) (length ps == 0)
        (λ z. absurd (ground arith))
        λ z. rw e (
          refl,
          λ j b.
              let (t, s) = slot-turn (length ps) cursor j h b in
              subst (λ m. eligible_at ps m ≡ false)
                (from_zero (length ps) cursor (turn (length ps) cursor j) ∙ s)
                (f (turn (length ps) cursor j) t),
        )
  from_scan cursor ps (some (idx, p)) e h f =
      if_intro (λ (r : Option (PathView F) × ℕ). Picked cursor ps r.0 r.1) (length ps == 0)
        (λ z. absurd (ground arith))
        λ z.
          let n : 0 < length ps = omega arith in
          let low = mod-lt (cursor + (0 + f.round)) n in
          rw e (idx, refl, ground (arith, f.place), f)

  -- With the cursor in range, Next on a list of paths returns the first eligible path in rotation
  -- order from the cursor and moves the cursor just past it, in range; it returns none, and leaves
  -- the cursor, only if no path is eligible.
  pub next-Picked :
      (cursor : ℕ) (ps : List (PathView F))
      → cursor < length ps
      → Picked cursor ps (next cursor ps).0 (next cursor ps).1
  next-Picked cursor ps h =
      from_scan cursor ps (scan is_eligible ps cursor (length ps) 0) refl h
        (scan-Found is_eligible ps cursor (length ps) 0 (omega arith))

  -- Does one of the calls of Next, on the snapshots in turn, return the path at index `j`?
  abbrev pub Served : ℕ → ℕ → List (List (PathView F)) → Type 0
  Served j cursor [] = ⊥
  Served j cursor (ps ∷ rest) =
      ((next cursor ps).0 ≡ get_elem? ps j) ⊎ Served j (next cursor ps).1 rest

  -- The path at `j` is chosen, or its turn comes nearer.
  nearer :
      (j cursor : ℕ) (ps : List (PathView F)) (r : Option (PathView F)) (cursor' : ℕ)
      → Picked cursor ps r cursor'
      → cursor < length ps
      → j < length ps
      → eligible_at ps j ≡ true
      → (r ≡ get_elem? ps j)
        ⊎ ((cursor' < length ps) × (turn (length ps) cursor' j < turn (length ps) cursor j))
  nearer j cursor ps none cursor' p hc hj e = absurd (let f = p.1 j hj in cc)
  nearer j cursor ps (some q) cursor' (idx, moved, low, f) hc hj e =
      let (tb, ts) = slot-turn (length ps) cursor j hc hj in
      let t = turn (length ps) cursor j in
      elim (Bool-cases (f.round == t)) [
        | inl same ↦
            let here : idx ≡ j = f.place ∙ ap (λ m. (cursor + m) % length ps) (ground arith) ∙ ts in
            inl (subst (λ m. some q ≡ get_elem? ps m) here (sym f.entry))
        | inr other ↦ elim (Bool-cases (ltb t f.round)) [
          | inl after ↦
              let s = f.skipped t (ground arith) in
              absurd (
                let g =
                  subst (λ m. eligible_at ps m ≡ false) (from_zero (length ps) cursor t ∙ ts) s in
                cc)
          | inr before ↦
              let place =
                f.place
                ∙ from_zero (length ps) cursor f.round
                ∙ slot_lem (length ps) cursor f.round hc f.bound in
              inr (low, ground arith)
        ]
      ]

  turn_comes :
      (j n cursor : ℕ) (snapshots : List (List (PathView F)))
      → All (λ ps. (length ps ≡ n) × (eligible_at ps j ≡ true)) snapshots
      → j < n
      → cursor < n
      → turn n cursor j < length snapshots
      → Served j cursor snapshots
  turn_comes j n cursor [] a hj hc h = absurd (omega arith)
  turn_comes j n cursor (ps ∷ rest) ((len, e), more) hj hc h =
      let c : cursor < length ps = omega arith in
      elim (nearer j cursor ps (next cursor ps).0 (next cursor ps).1 (next-Picked cursor ps c) c
        (omega arith) e) [
          | inl got ↦ inl got
          | inr (low, near) ↦
              inr (turn_comes j n (next cursor ps).1 rest more hj (omega arith) (ground arith))
        ]

  -- Round robin starves no path: from a cursor in range, while the number of paths stays `n` and the path at index `j` stays
  -- eligible, whatever the other paths do, one of `n` calls in a row returns it.
  pub no_starvation :
      (j n cursor : ℕ) (snapshots : List (List (PathView F)))
      → All (λ ps. (length ps ≡ n) × (eligible_at ps j ≡ true)) snapshots
      → j < n
      → cursor < n
      → n ≤ length snapshots
      → Served j cursor snapshots
  no_starvation j n cursor snapshots a hj hc h =
      turn_comes j n cursor snapshots a hj hc (omega (arith, (slot-turn n cursor j hc hj).0))
