-- ===== src/Reorder/Run/Progress.antt =====
-- The deadline timer: while a packet waits, a pending timer stands for exactly the head of the
-- heap, and its callback moves the buffer past that head.
use native.Mathlib.Nat.{mod-eq_of_lt}
use bondify.Common.{
  ℕ, zero, suc, ◌+◌, ◌<◌, ◌≤◌, ◌≡◌, ◌≢◌, refl, subst, sym, ◌∙◌, ◌⊎◌, inl, inr, Bool, true, false,
  ◌&&◌, not, Option, none, some, List, [], ◌∷◌, arith, ltb, ◌==◌, length, if_intro, Bool-cases,
}
use bondify.Common.Assoc.{contains}
use bondify.Common.Int.{ℤ}
use bondify.Reorder.Heap.{Packet, key}
use bondify.Reorder.Heap.Array.{count}
use bondify.Reorder.Heap.Down.{pop-Popped}
use bondify.Reorder.{
  Buffer, Timer, new_from, set_deadline, without_head, drain_head, drain_loop, drain_locked,
  force_release_head_locked, rearm_timer_locked, enqueue, relieve, push, on_deadline, is_started,
}
use bondify.Reorder.Invariant.{
  Inv, drain_head-Inv, force-Inv, drain-Good, head_present, head_least, other_fields-Inv,
}
use bondify.Reorder.Run.{
  Event, arrives, expires, late, takes, retunes, System, expire, take_out, step, run, InRange,
}
use bondify.Reorder.Run.Order.{Sound, fresh, fresh-Sound, step-Sound, InRange-head}

-- Is `t` a timer that is pending for `g`?
abbrev pub waits_for : Option Timer → ℕ → Bool
waits_for none g = false
waits_for (some t) g = t.pending && (t.head == g)

abbrev pub is_pending : Option Timer → Bool
is_pending none = false
is_pending (some t) = t.pending

-- A set head has its timer.
abbrev Covered : Buffer → Type 0
Covered b = b.head_set ≡ true → waits_for b.timer b.head_gsn ≡ true

-- The timer is pending for the head if there is one, and not pending otherwise.
record Armed (b : Buffer) : Type 0 where
  covered : Covered b
  busy : 0 < length b.h → (b.head_set ≡ true) × (b.head_gsn ≡ key b.h 0)
  idle : length b.h ≡ 0 → (b.head_set ≡ false) × (is_pending b.timer ≡ false)

-- The fields that only rearmTimerLocked writes.
abbrev SameTimer : Buffer → Buffer → Type 0
SameTimer b c = (c.head_set ≡ b.head_set) × (c.head_gsn ≡ b.head_gsn) × (c.timer ≡ b.timer)

drain_loop-SameTimer : (fuel : ℕ) (b : Buffer) → SameTimer b (drain_loop fuel b)
unfolding drain_loop drain_head without_head
drain_loop-SameTimer zero b = (refl, refl, refl)
drain_loop-SameTimer (suc fuel) b =
    if_intro (SameTimer b) (ltb 0 (length b.h) && (key b.h 0 == b.next_expected))
      (λ e. drain_loop-SameTimer fuel (drain_head b)) λ e. (refl, refl, refl)

drain-SameTimer : (b : Buffer) → SameTimer b (drain_locked b)
unfolding drain_locked
drain-SameTimer b = drain_loop-SameTimer (length b.h) b

force-SameTimer : (b : Buffer) → SameTimer b (force_release_head_locked b)
unfolding force_release_head_locked without_head
force-SameTimer b = ground arith

relieve-SameTimer : (b : Buffer) → SameTimer b (relieve b)
unfolding relieve
relieve-SameTimer b =
    let f = force_release_head_locked b in ground (arith, force-SameTimer b, drain-SameTimer f)

-- rearmTimerLocked arms the timer unless it finds a head that was set without one.
rearm-Armed :
    (b : Buffer)
    → Covered b ⊎ (0 < length b.h → key b.h 0 ≢ b.head_gsn)
    → Armed (rearm_timer_locked b)
unfolding rearm_timer_locked
rearm-Armed b ready = elim (Bool-cases (length b.h == 0)) [
  | inl e ↦
      rw (e, rearm_timer_locked)
        (record {
          covered = λ h. cc;
          busy = λ n. absurd (ground arith);
          idle = λ z. (refl, ground arith);
        })
  | inr e ↦ elim (Bool-cases (b.head_set && (key b.h 0 == b.head_gsn) && is_started b.timer)) [
    | inl f ↦
        rw (e, f, rearm_timer_locked)
          (record {
            covered = ground arith;
            busy = λ n. ground arith;
            idle = λ z. absurd (ground arith);
          })
    | inr f ↦
        rw (e, f, rearm_timer_locked)
          (record {
            covered = λ h. ground arith;
            busy = λ n. (refl, refl);
            idle = λ z. absurd (ground arith);
          })
  ]
]

Covered-SameTimer : (b c : Buffer) → SameTimer b c → Covered b → Covered c
Covered-SameTimer b c (s, g, t) v = λ h. rw (t, g) (v (sym s ∙ h))

push-Armed : (b : Buffer) (p : Packet) → Armed b → Armed (push b p)
unfolding push enqueue
push-Armed b p a =
    if_intro Armed p.push (λ e. record { covered = a.covered; busy = a.busy; idle = a.idle })
      λ e.
        if_intro Armed (ltb p.gsn b.next_expected) (λ f. a)
          λ f.
            if_intro Armed (contains b.in_heap p.gsn) (λ k. a)
              λ k.
                let d = drain_locked (enqueue b p) in
                rearm-Armed (relieve d) (
                  inl (
                    Covered-SameTimer d (relieve d) (relieve-SameTimer d) (
                      Covered-SameTimer (enqueue b p) d (drain-SameTimer (enqueue b p)) a.covered)))

-- A callback of a timer that is no longer the buffer's.
late-Armed : (b : Buffer) (head : ℕ) → Armed b → Armed (on_deadline b head)
unfolding on_deadline
late-Armed b head a =
    if_intro Armed (length b.h == 0) (λ e. a)
      λ e.
        if_intro Armed (not (key b.h 0 == head)) (λ f. a)
          λ f.
            let d = force_release_head_locked b in
            rearm-Armed (drain_locked d) (
              inl (
                Covered-SameTimer d (drain_locked d) (drain-SameTimer d)
                  (Covered-SameTimer b d (force-SameTimer b) a.covered)))

-- Releasing the head moves next_expected just past it.
next_expected-force :
    (b : Buffer)
    → Inv b
    → 0 < length b.h
    → (force_release_head_locked b).next_expected ≡ key b.h 0 + 1
unfolding force_release_head_locked without_head
next_expected-force b v n =
    let p = pop-Popped b.h v.order n in
    ground (arith, p.root, mod-eq_of_lt (v.fits (key b.h 0) (head_present b.h n)))

drain_loop-next :
    (fuel : ℕ) (b : Buffer) → Inv b → b.next_expected ≤ (drain_loop fuel b).next_expected
unfolding drain_loop
drain_loop-next zero b v = omega arith
drain_loop-next (suc fuel) b v =
    if_intro (λ (r : Buffer). b.next_expected ≤ r.next_expected)
      (ltb 0 (length b.h) && (key b.h 0 == b.next_expected))
      (λ e.
        let n : 0 < length b.h = ground arith in
        let k : key b.h 0 ≡ b.next_expected = ground arith in
        let rest = drain_loop-next fuel (drain_head b) (drain_head-Inv b v n k) in
        let fit = v.fits (key b.h 0) (head_present b.h n) in
        let here : (drain_head b).next_expected ≡ b.next_expected + 1 =
          unfold drain_head without_head in mod-eq_of_lt (omega arith) in
        omega arith)
      λ e. omega arith

-- What a matching callback does.
record Released (b c : Buffer) : Type 0 where
  armed : Armed c
  passed : key b.h 0 < c.next_expected

on_deadline-Released :
    (b : Buffer)
    → Inv b
    → 0 < length b.h
    → b.head_gsn ≡ key b.h 0
    → Released b (on_deadline b (key b.h 0))
unfolding on_deadline
on_deadline-Released b v n g =
    if_intro (Released b) (length b.h == 0) (λ e. absurd (ground arith))
      λ e.
        if_intro (Released b) (not (key b.h 0 == key b.h 0)) (λ f. absurd (ground arith))
          λ f.
            let d = force_release_head_locked b in
            let r = drain_locked d in
            let i = force-Inv b v in
            let low : key b.h 0 < r.next_expected =
              unfold drain_locked in
              omega (arith, next_expected-force b v n, drain_loop-next (length d.h) d i) in
            let good = drain-Good d i in
            let (s, hg, t) = drain-SameTimer d in
            let (s', hg', t') = force-SameTimer b in
            record {
              armed = rearm-Armed r (
                  inr (λ m e'.
                    let later = good.0.ahead (key r.h 0) (head_present r.h m) in omega arith));
              passed = unfold rearm_timer_locked in ground arith;
            }

-- The pending timer's callback: whatever head waits, it is released.
abbrev Fired : Buffer → Buffer → Type 0
Fired b c = Armed c × (0 < length b.h → key b.h 0 < c.next_expected)

expire-Fired :
    (b : Buffer) (t : Option Timer) → b.timer ≡ t → Inv b → Armed b → Fired b (expire t b)
unfolding expire
expire-Fired b none e v a =
    let uncovered : b.head_set ≡ true → waits_for none b.head_gsn ≡ true =
      λ h. subst (λ k. waits_for k b.head_gsn ≡ true) e (a.covered h) in
    (a, λ n. absurd (let w = uncovered (a.busy n).0 in ground arith))
expire-Fired b (some t) e v a =
    let stopped = record b { timer = some (record t { pending = false }) } in
    let w : b.head_set ≡ true → waits_for (some t) b.head_gsn ≡ true =
      λ h. subst (λ k. waits_for k b.head_gsn ≡ true) e (a.covered h) in
    let i : length b.h ≡ 0 → is_pending (some t) ≡ false =
      λ z. subst (λ k. is_pending k ≡ false) e (a.idle z).1 in
    elim (Bool-cases (length b.h == 0)) [
      | inl z ↦
          if_intro (Fired b) t.pending (λ p. absurd (let off = i (ground arith) in ground arith))
            λ p. (a, λ n. absurd (ground arith))
      | inr z ↦
          let n : 0 < length b.h = ground arith in
          let (s, g) = a.busy n in
          let armed = w s in
          let same : t.head ≡ key b.h 0 = ground arith in
          let v' : Inv stopped = other_fields-Inv b stopped v refl refl refl refl in
          let r = on_deadline-Released stopped v' n g in
          if_intro (Fired b) t.pending
            (λ p. subst (λ k. Fired b (on_deadline stopped k)) (sym same) (r.armed, λ m. r.passed))
            λ p. absurd (ground arith)
    ]

-- The invariant of a history that this file adds to Sound.
abbrev Live : System → Type 0
Live s = Sound s × Armed s.buffer

take_out-Armed : (out : List Packet) (s : System) → Armed s.buffer → Armed (take_out out s).buffer
unfolding take_out
take_out-Armed [] s a = a
take_out-Armed (p ∷ out) s a = record { covered = a.covered; busy = a.busy; idle = a.idle }

step-Armed : (s : System) (e : Event) → Live s → Armed (step s e).buffer
unfolding step
step-Armed s (arrives p) (v, a) = push-Armed s.buffer p a
step-Armed s expires (v, a) = (expire-Fired s.buffer s.buffer.timer refl v.0.0 a).0
step-Armed s (late h) (v, a) = late-Armed s.buffer h a
step-Armed s takes (v, a) = take_out-Armed s.buffer.out s a
step-Armed s (retunes d) (v, a) =
    unfold set_deadline in record { covered = a.covered; busy = a.busy; idle = a.idle }

run-Live : (s : System) (es : List Event) → InRange es → Live s → Live (run s es)
unfolding run
run-Live s [] r l = l
run-Live s (e ∷ es) r l =
    let (now, later) = InRange-head e es r in
    run-Live (step s e) es later (step-Sound s e now l.0, step-Armed s e l)

fresh-Armed : (start : ℕ) (deadline bytes : ℤ) → Armed (new_from start deadline bytes)
unfolding new_from
fresh-Armed start deadline bytes = record {
  covered = λ h. absurd (ground arith);
  busy = λ n. absurd (omega arith);
  idle = λ z. (refl, refl);
}

-- After any history (numbers below 2^64 - 1) that leaves packets waiting, a timer is pending for
-- the least waiting number, and when it fires the buffer moves on past that number.
pub head_is_released :
    (start : ℕ) (deadline bytes : ℤ) (es : List Event)
    → InRange es
    → let b = (run (fresh start deadline bytes) es).buffer in
      0 < length b.h
      → (waits_for b.timer (key b.h 0) ≡ true)
        × ((g : ℕ) → 0 < count g b.h → key b.h 0 ≤ g)
        × (key b.h 0 < (step (run (fresh start deadline bytes) es) expires).buffer.next_expected)
unfolding step
head_is_released start deadline bytes es r n =
    let s = fresh start deadline bytes in
    let (v, a) =
      run-Live s es r (fresh-Sound start deadline bytes, fresh-Armed start deadline bytes) in
    let b = (run s es).buffer in
    let (set, same) = a.busy n in
    (rw (sym same) (a.covered set), head_least b v.0.0, (expire-Fired b b.timer refl v.0.0 a).1 n)
