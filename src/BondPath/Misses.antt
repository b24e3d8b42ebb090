-- ===== src/BondPath/Misses.antt =====
-- core/bond/path.go: how missed probes take a path out of use.
use bondify.Common.{
  ◌+◌, ◌≤◌, ◌≡◌, ◌≢◌, ◌⊎◌, ◌∙◌, refl, ap, inl, inr, Bool, true, List, [], ◌∷◌, map, arith, leb,
  length,
}
use bondify.Common.Float.{Float}
use bondify.Common.Int.{ℤ}
use bondify.Sched.{State, joining, active, degraded, dead}
use bondify.BondPath.{BondPath}
use bondify.BondPath.Health.{handle_probe_missed, is_silent}
use bondify.BondPath.Graph.{
  missed, handle_event, run, three_missed, after_miss, handle_probe_missed-state, miss_keeps,
}

abbrev pub IsOut : State → Type 0
IsOut s = (s ≡ degraded) ⊎ (s ≡ dead)

after_miss-IsOut : (s : State) (three silent : Bool) → IsOut s → IsOut (after_miss s three silent)
unfolding after_miss
after_miss-IsOut s three silent o = ground arith

third_miss : (silent : Bool) → IsOut (after_miss active true silent)
unfolding after_miss
third_miss silent = ground arith

active_miss :
    (three silent : Bool)
    → (IsOut (after_miss active three silent)) ⊎ (after_miss active three silent ≡ active)
unfolding after_miss
active_miss three silent = ground arith

module _ {F : Type 0} (fl : Float F) where
  misses-IsOut :
      (ts : List ℤ) (p : BondPath F) → IsOut p.state → IsOut (run fl (map missed ts) p).state
  unfolding run handle_event
  misses-IsOut [] p o = o
  misses-IsOut (now ∷ ts) p o = misses-IsOut ts (handle_probe_missed now p) (
      rw (handle_probe_missed-state now p)
        (after_miss-IsOut p.state (three_missed p) (is_silent now p) o))

  active_misses :
      (now : ℤ) (ts : List ℤ) (p : BondPath F)
      → p.state ≡ active
      → 3 ≤ p.missed_probes + length (now ∷ ts)
      → IsOut (run fl (map missed (now ∷ ts)) p).state
  unfolding run handle_event three_missed
  active_misses now [] p e h =
      let three : leb 3 (p.missed_probes + 1) ≡ true = ground arith in
      rw (handle_probe_missed-state now p, e, three) (third_miss (is_silent now p))
  active_misses now (t ∷ ts) p e h =
      let q = handle_probe_missed now p in
      let s =
        handle_probe_missed-state now p
        ∙ ap (λ s. after_miss s (three_missed p) (is_silent now p)) e in
      elim (active_miss (three_missed p) (is_silent now p)) [
        | inl o ↦ misses-IsOut (t ∷ ts) q (rw s o)
        | inr a ↦ active_misses t ts q (s ∙ a) (rw ((miss_keeps now p).0) (omega arith))
      ]

  -- Three missed probes in a row or more, with no PROBE_ACK between, take any path but a JOINING
  -- one out of use: it is DEGRADED or DEAD.
  pub three_misses :
      (ts : List ℤ) (p : BondPath F)
      → p.state ≢ joining
      → 3 ≤ length ts
      → IsOut (run fl (map missed ts) p).state
  three_misses [] p ne h = absurd (omega arith)
  three_misses (t ∷ ts) p ne h = elim (state_cases p.state ne) [
    | inl o ↦ misses-IsOut (t ∷ ts) p o
    | inr e ↦ active_misses t ts p e (omega arith)
  ]
    where
      state_cases : (s : State) → s ≢ joining → (IsOut s) ⊎ (s ≡ active)
      state_cases joining ne = absurd (ne refl)
      state_cases active ne = inr refl
      state_cases degraded ne = inl (inl refl)
      state_cases dead ne = inl (inr refl)
