-- ===== src/Reorder/Run/Duplicates.antt =====
-- REDUNDANT mode's second copies: once a number has arrived, its later copies change nothing.
use bondify.Common.{
  ℕ, zero, suc, ◌+◌, ◌%◌, ◌^◌, ◌<◌, ◌≡◌, refl, sym, ap, Bool, true, false, ◌&&◌, ◌||◌, not, Option,
  none, some, List, [], ◌∷◌, arith, ltb, ◌==◌, length, if_intro, subst,
}
use native.Mathlib.Nat.{mod-eq_of_lt}
use bondify.Common.Assoc.{contains, contains-remove}
use bondify.Common.Int.{ℤ, pos, ltb_ℤ}
use bondify.Reorder.Heap.{Packet, key, at}
use bondify.Reorder.Heap
use bondify.Reorder.Heap.Down.{pop-Popped}
use bondify.Reorder.{
  Buffer, Timer, set_deadline, without_head, drain_head, drain_loop, drain_locked,
  force_release_head_locked, rearm_timer_locked, enqueue, relieve, push, on_deadline, is_started,
}
use bondify.Reorder.Invariant.{
  Inv, Good, drain_head-Inv, force-Inv, enqueue-Inv, drain-Good, head_present, other_fields-Inv,
}
use bondify.Reorder.Run.{
  Event, arrives, expires, late, takes, retunes, System, expire, take_out, step, run, InRange,
}
use bondify.Reorder.Run.Order.{Sound, fresh, fresh-Sound, run-Sound, step-Sound, InRange-head}

-- The number has been passed, or is buffered.
abbrev pub known : Buffer → ℕ → Bool
known b g = ltb g b.next_expected || contains b.in_heap g

module _ (g : ℕ) where
  abbrev Known : Buffer → Type 0
  Known b = known b g ≡ true

  drain_head-Known :
      (b : Buffer)
      → Inv b
      → 0 < length b.h
      → key b.h 0 ≡ b.next_expected
      → Known b
      → Known (drain_head b)
  unfolding drain_head without_head
  drain_head-Known b v n e k =
      let p = (Heap.pop b.h).0 in
      let root = ap (λ (q : Packet). q.gsn) (pop-Popped b.h v.order n).root in
      let small = v.fits (key b.h 0) (head_present b.h n) in
      let next : (b.next_expected + 1) % 2 ^ 64 ≡ b.next_expected + 1 =
        mod-eq_of_lt (omega (arith, e, small)) in
      ground (arith, contains-remove p.gsn g b.in_heap)

  force-Known : (b : Buffer) → Inv b → Known b → Known (force_release_head_locked b)
  unfolding force_release_head_locked without_head
  force-Known b v k =
      if_intro Known (length b.h == 0) (λ e. k)
        λ e.
          let n : 0 < length b.h = ground arith in
          let p = (Heap.pop b.h).0 in
          let root = ap (λ (q : Packet). q.gsn) (pop-Popped b.h v.order n).root in
          let here = head_present b.h n in
          let low = v.ahead (key b.h 0) here in
          let next : (p.gsn + 1) % 2 ^ 64 ≡ p.gsn + 1 =
            mod-eq_of_lt (omega (arith, root, v.fits (key b.h 0) here)) in
          ground (arith, contains-remove p.gsn g b.in_heap)

  drain_loop-Known : (fuel : ℕ) (b : Buffer) → Inv b → Known b → Known (drain_loop fuel b)
  unfolding drain_loop
  drain_loop-Known zero b v k = k
  drain_loop-Known (suc fuel) b v k =
      if_intro Known (ltb 0 (length b.h) && (key b.h 0 == b.next_expected))
        (λ e.
          let n : 0 < length b.h = ground arith in
          let q : key b.h 0 ≡ b.next_expected = ground arith in
          drain_loop-Known fuel (drain_head b) (drain_head-Inv b v n q)
            (drain_head-Known b v n q k))
        λ e. k

  drain-Known : (b : Buffer) → Inv b → Known b → Known (drain_locked b)
  unfolding drain_locked
  drain-Known b = drain_loop-Known (length b.h) b

  relieve-Known : (b : Buffer) → Inv b → Known b → Known (relieve b)
  unfolding relieve
  relieve-Known b v k =
      if_intro Known (ltb_ℤ b.max_bytes (pos b.cur_bytes))
        (λ e. drain-Known _ (force-Inv b v) (force-Known b v k)) λ e. k

  rearm-Known : (b : Buffer) → Known b → Known (rearm_timer_locked b)
  unfolding rearm_timer_locked
  rearm-Known b k =
      if_intro Known (length b.h == 0) (λ e. k)
        λ e.
          if_intro Known (b.head_set && (key b.h 0 == b.head_gsn) && is_started b.timer) (λ f. k)
            λ f. k

  -- A packet that passes the three tests of Push.
  queued-Known :
      (b : Buffer) (p : Packet)
      → Inv (enqueue b p)
      → Known (enqueue b p)
      → Known (rearm_timer_locked (relieve (drain_locked (enqueue b p))))
  queued-Known b p v k =
      rearm-Known _ (relieve-Known _ (drain-Good _ v).0 (drain-Known (enqueue b p) v k))

  push-Known : (b : Buffer) (p : Packet) → Good b → p.gsn + 1 < 2 ^ 64 → Known b → Known (push b p)
  unfolding push
  push-Known b p good fit k =
      if_intro Known p.push (λ e. k)
        λ e.
          if_intro Known (ltb p.gsn b.next_expected) (λ f. k)
            λ f.
              if_intro Known (contains b.in_heap p.gsn) (λ q. k)
                λ q.
                  queued-Known b p (enqueue-Inv b p good.0 (ground arith) q fit)
                    (unfold enqueue contains in ground arith)

  on_deadline-Known : (b : Buffer) (head : ℕ) → Good b → Known b → Known (on_deadline b head)
  unfolding on_deadline
  on_deadline-Known b head good k =
      if_intro Known (length b.h == 0) (λ e. k)
        λ e.
          if_intro Known (not (key b.h 0 == head)) (λ f. k)
            λ f. rearm-Known _ (drain-Known _ (force-Inv b good.0) (force-Known b good.0 k))

  expire-Known : (t : Option Timer) (b : Buffer) → Good b → Known b → Known (expire t b)
  unfolding expire
  expire-Known none b good k = k
  expire-Known (some t) b good k =
      let stopped = record b { timer = some (record t { pending = false }) } in
      if_intro Known t.pending
        (λ e.
          on_deadline-Known stopped t.head
            (other_fields-Inv b stopped good.0 refl refl refl refl, good.1) k)
        λ e. k

  take_out-Known : (out : List Packet) (s : System) → Known s.buffer → Known (take_out out s).buffer
  unfolding take_out
  take_out-Known [] s k = k
  take_out-Known (p ∷ out) s k = k

  step-Known :
      (s : System) (e : Event)
      → InRange (e ∷ [])
      → Good s.buffer
      → Known s.buffer
      → Known (step s e).buffer
  unfolding step set_deadline
  step-Known s (arrives p) r good k = push-Known s.buffer p good r.0 k
  step-Known s expires r good k = expire-Known s.buffer.timer s.buffer good k
  step-Known s (late h) r good k = on_deadline-Known s.buffer h good k
  step-Known s takes r good k = take_out-Known s.buffer.out s k
  step-Known s (retunes d) r good k = k

  run-Known :
      (s : System) (es : List Event)
      → InRange es
      → Sound s
      → Known s.buffer
      → Known (run s es).buffer
  unfolding run
  run-Known s [] r v k = k
  run-Known s (e ∷ es) r v k =
      let (now, later) = InRange-head e es r in
      run-Known (step s e) es later (step-Sound s e now v) (step-Known s e now v.0 k)

-- An ordered packet that has arrived is passed or buffered.
arrived-Known :
    (b : Buffer) (p : Packet)
    → Good b
    → p.gsn + 1 < 2 ^ 64
    → p.push ≡ false
    → Known p.gsn (push b p)
unfolding push
arrived-Known b p good fit ord =
    if_intro (Known p.gsn) p.push (λ e. absurd (ground arith))
      λ e.
        if_intro (Known p.gsn) (ltb p.gsn b.next_expected) (λ f. ground arith)
          λ f.
            if_intro (Known p.gsn) (contains b.in_heap p.gsn) (λ q. ground arith)
              λ q.
                queued-Known p.gsn b p (enqueue-Inv b p good.0 (ground arith) q fit)
                  (unfold enqueue contains in ground arith)

unchanged :
    (s : System) (q : Packet) → q.push ≡ false → Known q.gsn s.buffer → step s (arrives q) ≡ s
unfolding step push
unchanged s q e k = ground arith

-- After a packet without the PUSH flag has arrived, and whatever happens then (numbers below
-- 2^64 - 1 throughout), another packet with its number and without the flag leaves the buffer
-- exactly as it is.
pub duplicate_ignored :
    (start : ℕ) (deadline bytes : ℤ) (before after : List Event) (p q : Packet)
    → InRange before
    → p.gsn + 1 < 2 ^ 64
    → InRange after
    → p.push ≡ false
    → q.push ≡ false
    → q.gsn ≡ p.gsn
    → let s = run (step (run (fresh start deadline bytes) before) (arrives p)) after in
      step s (arrives q) ≡ s
duplicate_ignored start deadline bytes before after p q rb fit ra ep eq same =
    let s0 = run (fresh start deadline bytes) before in
    let v0 = run-Sound (fresh start deadline bytes) before rb (fresh-Sound start deadline bytes) in
    let v1 = step-Sound s0 (arrives p) (fit, tt) v0 in
    let k =
      run-Known p.gsn (step s0 (arrives p)) after ra v1
        (unfold step in arrived-Known s0.buffer p v0.0 fit ep) in
    let s = run (step s0 (arrives p)) after in
    unchanged s q eq (subst (λ g. Known g s.buffer) (sym same) k)
