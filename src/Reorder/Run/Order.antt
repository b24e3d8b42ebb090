-- ===== src/Reorder/Run/Order.antt =====
-- The consumer sees the ordered packets in strictly ascending order.
use mathlib.Core.List.{append_assoc, append-nil}
use native.Mathlib.Nat.{mod-eq_of_lt}
use bondify.Common.{
  ℕ, zero, suc, ◌+◌, ◌%◌, ◌^◌, ◌<◌, ◌≤◌, ◌≡◌, refl, sym, ap, ◌∙◌, true, false, ◌&&◌, not, Option,
  none, some, List, [], ◌∷◌, ◌++◌, arith, ltb, ◌==◌, if◌then◌else◌, length, All, All-map, if_intro,
  inl, inr, Bool-cases, subst,
}
use bondify.Common.Assoc.{contains}
use bondify.Common.Int.{ℤ, pos, ltb_ℤ}
use bondify.Reorder.Heap.{Packet, key, at}
use bondify.Reorder.Heap
use bondify.Reorder.Heap.Down.{pop-Popped}
use bondify.Reorder.{
  Buffer, Timer, new_from, set_deadline, offer, without_head, drain_head, drain_loop, drain_locked,
  force_release_head_locked, rearm_timer_locked, enqueue, relieve, push, on_deadline, out_capacity,
  is_started,
}
use bondify.Reorder.Invariant.{
  Inv, Good, drain_head-Inv, force-Inv, enqueue-Inv, drain-Good, head_present, other_fields-Inv,
  new_from-Good, push-Good, on_deadline-Good,
}
use bondify.Reorder.Run.{
  Event, arrives, expires, late, takes, retunes, System, expire, take_out, step, run, InRange,
}

-- The numbers of the packets that are subject to ordering (those without the PUSH flag).
unfoldable pub ordered : List Packet → List ℕ
ordered [] = []
ordered (p ∷ ps) = if p.push then ordered ps else p.gsn ∷ ordered ps

-- Strictly ascending.
abbrev pub Ascending : List ℕ → Type 0
Ascending [] = Unit
Ascending (x ∷ xs) = All (λ y. x < y) xs × Ascending xs

-- Ascending, and below a bound.
abbrev pub Below : ℕ → List ℕ → Type 0
Below n xs = Ascending xs × All (λ g. g < n) xs

-- What has been delivered or waits in the channel is ascending and below the next expected number.
abbrev pub Ordered : List Packet → Buffer → Type 0
Ordered done b = Below b.next_expected (ordered (done ++ b.out))

ordered-append : (xs ys : List Packet) → ordered (xs ++ ys) ≡ ordered xs ++ ordered ys
unfolding ordered
ordered-append [] ys = refl
ordered-append (p ∷ xs) ys = ground (arith, ordered-append xs ys)

Below-mono : (m n : ℕ) (xs : List ℕ) → m ≤ n → Below m xs → Below n xs
Below-mono m n xs h (a, b) = (a, All-map xs (λ g low. omega arith) b)

All-snoc : (P : ℕ → Type 0) (xs : List ℕ) (y : ℕ) → All P xs → P y → All P (xs ++ y ∷ [])
All-snoc P [] y h p = (p, tt)
All-snoc P (x ∷ xs) y h p = (h.0, All-snoc P xs y h.1 p)

Below-snoc : (xs : List ℕ) (y : ℕ) → Below y xs → Below (y + 1) (xs ++ y ∷ [])
Below-snoc [] y h = ((tt, tt), (omega arith, tt))
Below-snoc (x ∷ xs) y ((low, up), (small, rest)) =
    let (a, b) = Below-snoc xs y (up, rest) in
    ((All-snoc (λ z. x < z) xs y low small, a), (omega arith, b))

-- One more packet, of a number not below the bound, keeps the order.
ordered-snoc :
    (ps : List Packet) (p : Packet) (next : ℕ)
    → Below next (ordered ps)
    → next ≤ p.gsn
    → Below (p.gsn + 1) (ordered (ps ++ p ∷ []))
unfolding ordered
ordered-snoc ps p next b h = elim (Bool-cases p.push) [
  | inl e ↦
      rw (ordered-append ps (p ∷ []), ordered, e, append-nil (ordered ps))
        (Below-mono next (p.gsn + 1) (ordered ps) (omega arith) b)
  | inr e ↦
      rw (ordered-append ps (p ∷ []), ordered, e)
        (Below-snoc (ordered ps) p.gsn (Below-mono next p.gsn (ordered ps) h b))
]

-- The same where the channel may be full.
offer-Below :
    (done out : List Packet) (p : Packet) (next : ℕ)
    → Below next (ordered (done ++ out))
    → next ≤ p.gsn
    → Below (p.gsn + 1) (ordered (done ++ offer out p))
unfolding offer
offer-Below done out p next b h =
    if_intro (λ o. Below (p.gsn + 1) (ordered (done ++ o))) (ltb (length out) out_capacity)
      (λ e. rw (← append_assoc done out (p ∷ [])) (ordered-snoc (done ++ out) p next b h))
      λ e. Below-mono next (p.gsn + 1) (ordered (done ++ out)) (omega arith) b

module _ (done : List Packet) where
  drain_head-Ordered :
      (b : Buffer)
      → Inv b
      → 0 < length b.h
      → key b.h 0 ≡ b.next_expected
      → Ordered done b
      → Ordered done (drain_head b)
  unfolding drain_head without_head
  drain_head-Ordered b v n e o =
      let p = (Heap.pop b.h).0 in
      let root = ap (λ (q : Packet). q.gsn) (pop-Popped b.h v.order n).root in
      let small = v.fits (key b.h 0) (head_present b.h n) in
      let next : p.gsn + 1 ≡ (b.next_expected + 1) % 2 ^ 64 =
        omega (arith, root, e) ∙ sym (mod-eq_of_lt (omega (arith, e, small))) in
      subst (λ k. Below k (ordered (done ++ offer b.out p))) next
        (offer-Below done b.out p b.next_expected o (omega (arith, root, e)))

  force-Ordered : (b : Buffer) → Inv b → Ordered done b → Ordered done (force_release_head_locked b)
  unfolding force_release_head_locked without_head
  force-Ordered b v o =
      if_intro (Ordered done) (length b.h == 0) (λ e. o)
        λ e.
          let n : 0 < length b.h = ground arith in
          let p = (Heap.pop b.h).0 in
          let root = ap (λ (q : Packet). q.gsn) (pop-Popped b.h v.order n).root in
          let here = head_present b.h n in
          let next : p.gsn + 1 ≡ (p.gsn + 1) % 2 ^ 64 =
            sym (mod-eq_of_lt (omega (arith, root, v.fits (key b.h 0) here))) in
          subst (λ k. Below k (ordered (done ++ offer b.out p))) next
            (offer-Below done b.out p b.next_expected o
              (omega (arith, root, v.ahead (key b.h 0) here)))

  drain_loop-Ordered :
      (fuel : ℕ) (b : Buffer) → Inv b → Ordered done b → Ordered done (drain_loop fuel b)
  unfolding drain_loop
  drain_loop-Ordered zero b v o = o
  drain_loop-Ordered (suc fuel) b v o =
      if_intro (Ordered done) (ltb 0 (length b.h) && (key b.h 0 == b.next_expected))
        (λ e.
          let n : 0 < length b.h = ground arith in
          let k : key b.h 0 ≡ b.next_expected = ground arith in
          drain_loop-Ordered fuel (drain_head b) (drain_head-Inv b v n k)
            (drain_head-Ordered b v n k o))
        λ e. o

  drain-Ordered : (b : Buffer) → Inv b → Ordered done b → Ordered done (drain_locked b)
  unfolding drain_locked
  drain-Ordered b = drain_loop-Ordered (length b.h) b

  relieve-Ordered : (b : Buffer) → Inv b → Ordered done b → Ordered done (relieve b)
  unfolding relieve
  relieve-Ordered b v o =
      if_intro (Ordered done) (ltb_ℤ b.max_bytes (pos b.cur_bytes))
        (λ e. drain-Ordered _ (force-Inv b v) (force-Ordered b v o)) λ e. o

  rearm-Ordered : (b : Buffer) → Ordered done b → Ordered done (rearm_timer_locked b)
  unfolding rearm_timer_locked
  rearm-Ordered b o =
      if_intro (Ordered done) (length b.h == 0) (λ e. o)
        λ e.
          if_intro (Ordered done) (b.head_set && (key b.h 0 == b.head_gsn) && is_started b.timer)
            (λ f. o) λ f. o

  pushed-Ordered :
      (b : Buffer) (p : Packet)
      → p.push ≡ true
      → Ordered done b
      → Ordered done (record b { out = offer b.out p })
  unfolding offer ordered
  pushed-Ordered b p e o =
      if_intro (λ out. Ordered done (record b { out = out })) (ltb (length b.out) out_capacity)
        (λ f.
          rw
            (
              ← append_assoc done b.out (p ∷ []),
              ordered-append (done ++ b.out) (p ∷ []),
              e,
              append-nil (ordered (done ++ b.out)),
            )
            o)
        λ f. o

  push-Ordered :
      (b : Buffer) (p : Packet)
      → Good b
      → p.gsn + 1 < 2 ^ 64
      → Ordered done b
      → Ordered done (push b p)
  unfolding push enqueue
  push-Ordered b p g fit o =
      if_intro (Ordered done) p.push (λ e. pushed-Ordered b p e o)
        λ e.
          if_intro (Ordered done) (ltb p.gsn b.next_expected) (λ f. o)
            λ f.
              if_intro (Ordered done) (contains b.in_heap p.gsn) (λ k. o)
                λ k.
                  let v = enqueue-Inv b p g.0 (ground arith) k fit in
                  rearm-Ordered _
                    (relieve-Ordered _ (drain-Good _ v).0 (drain-Ordered (enqueue b p) v o))

  on_deadline-Ordered :
      (b : Buffer) (head : ℕ) → Good b → Ordered done b → Ordered done (on_deadline b head)
  unfolding on_deadline
  on_deadline-Ordered b head g o =
      if_intro (Ordered done) (length b.h == 0) (λ e. o)
        λ e.
          if_intro (Ordered done) (not (key b.h 0 == head)) (λ f. o)
            λ f. rearm-Ordered _ (drain-Ordered _ (force-Inv b g.0) (force-Ordered b g.0 o))

-- The invariant of a history.
abbrev pub Sound : System → Type 0
Sound s = Good s.buffer × Ordered s.delivered s.buffer

expire-Sound :
    (done : List Packet) (t : Option Timer) (b : Buffer)
    → Good b
    → Ordered done b
    → Good (expire t b) × Ordered done (expire t b)
unfolding expire
expire-Sound done none b g o = (g, o)
expire-Sound done (some t) b g o =
    let stopped = record b { timer = some (record t { pending = false }) } in
    let good : Good stopped = (other_fields-Inv b stopped g.0 refl refl refl refl, g.1) in
    if_intro (λ c. Good c × Ordered done c) t.pending
      (λ e. (on_deadline-Good stopped t.head good, on_deadline-Ordered done stopped t.head good o))
      λ e. (g, o)

take_out-Sound :
    (out : List Packet) (s : System) → s.buffer.out ≡ out → Sound s → Sound (take_out out s)
unfolding take_out
take_out-Sound [] s e v = v
take_out-Sound (p ∷ out) s e (g, o) = (
  (other_fields-Inv s.buffer _ g.0 refl refl refl refl, g.1),
  rw (append_assoc s.delivered (p ∷ []) out)
      (subst (λ k. Below s.buffer.next_expected (ordered (s.delivered ++ k))) e o),
)

set_deadline-Sound :
    (done : List Packet) (b : Buffer) (d : ℤ)
    → Good b
    → Ordered done b
    → Good (set_deadline b d) × Ordered done (set_deadline b d)
unfolding set_deadline
set_deadline-Sound done b d g o =
    ((other_fields-Inv b (set_deadline b d) g.0 refl refl refl refl, g.1), o)

pub step-Sound : (s : System) (e : Event) → InRange (e ∷ []) → Sound s → Sound (step s e)
unfolding step
step-Sound s (arrives p) r (g, o) =
    (push-Good s.buffer p g r.0, push-Ordered s.delivered s.buffer p g r.0 o)
step-Sound s expires r (g, o) = expire-Sound s.delivered s.buffer.timer s.buffer g o
step-Sound s (late h) r (g, o) =
    (on_deadline-Good s.buffer h g, on_deadline-Ordered s.delivered s.buffer h g o)
step-Sound s takes r v = take_out-Sound s.buffer.out s refl v
step-Sound s (retunes d) r (g, o) = set_deadline-Sound s.delivered s.buffer d g o

pub InRange-head : (e : Event) (es : List Event) → InRange (e ∷ es) → InRange (e ∷ []) × InRange es
InRange-head (arrives p) es r = ((r.0, tt), r.1)
InRange-head expires es r = (tt, r)
InRange-head (late h) es r = (tt, r)
InRange-head takes es r = (tt, r)
InRange-head (retunes d) es r = (tt, r)

pub run-Sound : (s : System) (es : List Event) → InRange es → Sound s → Sound (run s es)
unfolding run
run-Sound s [] r v = v
run-Sound s (e ∷ es) r v =
    let (now, later) = InRange-head e es r in run-Sound (step s e) es later (step-Sound s e now v)

abbrev pub fresh : ℕ → ℤ → ℤ → System
fresh start deadline bytes = record { buffer = new_from start deadline bytes; delivered = [] }

pub fresh-Sound : (start : ℕ) (deadline bytes : ℤ) → Sound (fresh start deadline bytes)
unfolding new_from ordered
fresh-Sound start deadline bytes = (new_from-Good start deadline bytes, (tt, tt))

Ascending-prefix : (xs ys : List ℕ) → Ascending (xs ++ ys) → Ascending xs
Ascending-prefix [] ys a = tt
Ascending-prefix (x ∷ xs) ys a = (All-prefix xs a.0, Ascending-prefix xs ys a.1)
  where
    All-prefix : (zs : List ℕ) → All (λ y. x < y) (zs ++ ys) → All (λ y. x < y) zs
    All-prefix [] h = tt
    All-prefix (z ∷ zs) h = (h.0, All-prefix zs h.1)

-- Whatever arrives (numbers below 2^64 - 1), however often, in whatever order, and whenever timers
-- fire, the packets that the consumer has received without the PUSH flag have strictly ascending
-- numbers: none is delivered twice, none after a later one.
pub delivered-Ascending :
    (start : ℕ) (deadline bytes : ℤ) (es : List Event)
    → InRange es
    → Ascending (ordered (run (fresh start deadline bytes) es).delivered)
delivered-Ascending start deadline bytes es r =
    let s = run (fresh start deadline bytes) es in
    let (g, o) = run-Sound (fresh start deadline bytes) es r (fresh-Sound start deadline bytes) in
    Ascending-prefix (ordered s.delivered) (ordered s.buffer.out)
      (subst Ascending (ordered-append s.delivered s.buffer.out) o.0)
