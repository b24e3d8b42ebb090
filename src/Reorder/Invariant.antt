-- ===== src/Reorder/Invariant.antt =====
-- The buffer's invariant, kept by every step of its methods.
use native.Mathlib.Nat.{mod-eq_of_lt}
use bondify.Common.{
  ℕ, zero, suc, ◌+◌, ◌^◌, ◌<◌, ◌≤◌, ◌≡◌, refl, ◌∙◌, false, ◌&&◌, List, arith, ltb, ◌==◌, not,
  if◌then◌else◌, length, if_intro, dec_lt,
}
use bondify.Common.Assoc.{contains, contains-remove}
use bondify.Common.Int.{ℤ, pos, ltb_ℤ}
use bondify.Reorder.Heap.{Packet, key, at}
use bondify.Reorder.Heap
use bondify.Reorder.Heap.Array.{total, count, has, count-at, total-at, total_one}
use bondify.Reorder.Heap.Up.{IsHeap, push_lem}
use bondify.Reorder.Heap.Down.{pop-Popped, root_least}
use bondify.Reorder.{
  Buffer, new_from, size, offer, without_head, drain_head, drain_loop, drain_locked,
  force_release_head_locked, rearm_timer_locked, enqueue, relieve, push, on_deadline,
}

pub record Inv (b : Buffer) : Type 0 where
  pub order : IsHeap b.h
  pub marks : (g : ℕ) → count g b.h ≡ (if contains b.in_heap g then 1 else 0)
  pub bytes : b.cur_bytes ≡ total size b.h
  pub ahead : (g : ℕ) → 0 < count g b.h → b.next_expected ≤ g
  pub fits : (g : ℕ) → 0 < count g b.h → g + 1 < 2 ^ 64

-- Nothing in the buffer is deliverable.
abbrev pub Settled : Buffer → Type 0
Settled b = count b.next_expected b.h ≡ 0

-- The head is present, and its number is the least.
pub head_least : (b : Buffer) → Inv b → (g : ℕ) → 0 < count g b.h → key b.h 0 ≤ g
head_least b v g c = let (i, bi, k) = count-at g b.h c in omega (arith, root_least b.h i v.order bi)

pub head_present : (h : List Packet) → 0 < length h → 0 < count (key h 0) h
head_present h b = ground (arith, total-at (has (key h 0)) h 0 b)

-- Taking the head out and moving past it.
past_head-Inv :
    (b : Buffer) (forced : ℕ) (out : List Packet)
    → Inv b
    → 0 < length b.h
    → Inv (record (without_head b).1 {
      next_expected = key b.h 0 + 1;
      forced_releases = forced;
      out = out;
    })
unfolding without_head
past_head-Inv b forced out v n =
    let p = pop-Popped b.h v.order n in
    let g0 = key b.h 0 in
    record {
      order = p.order;
      marks = λ g. ground (
        arith,
        p.root,
        p.rest (has g),
        v.marks g,
        contains-remove (Heap.pop b.h).0.gsn g b.in_heap,
      );
      bytes = omega (arith, v.bytes, p.rest size);
      ahead = λ g c. ground (arith, p.root, p.rest (has g), v.marks g, head_least b v g);
      fits = λ g c. ground (arith, p.rest (has g), v.fits g);
    }

-- Fields that the invariant does not read may change.
pub other_fields-Inv :
    (b c : Buffer)
    → Inv b
    → c.h ≡ b.h
    → c.in_heap ≡ b.in_heap
    → c.next_expected ≡ b.next_expected
    → c.cur_bytes ≡ b.cur_bytes
    → Inv c
other_fields-Inv b c v eh ei en eb = record {
  order = rw eh v.order;
  marks = λ g. rw (eh, ei) (v.marks g);
  bytes = rw (eh, eb) v.bytes;
  ahead = λ g. rw (eh, en) (v.ahead g);
  fits = λ g. rw eh (v.fits g);
}

pub drain_head-Inv :
    (b : Buffer) → Inv b → 0 < length b.h → key b.h 0 ≡ b.next_expected → Inv (drain_head b)
unfolding drain_head
drain_head-Inv b v n e =
    let small = v.fits (key b.h 0) (head_present b.h n) in
    other_fields-Inv _ (drain_head b)
      (past_head-Inv b b.forced_releases (offer b.out (without_head b).0) v n) refl refl
      (unfold without_head in (mod-eq_of_lt (omega arith) ∙ omega arith)) refl

pub force-Inv : (b : Buffer) → Inv b → Inv (force_release_head_locked b)
unfolding force_release_head_locked
force-Inv b v =
    if_intro Inv (length b.h == 0) (λ e. v)
      λ e.
        let n : 0 < length b.h = ground arith in
        let p = pop-Popped b.h v.order n in
        let small = v.fits (key b.h 0) (head_present b.h n) in
        other_fields-Inv _ _
          (past_head-Inv b b.forced_releases (offer b.out (without_head b).0) v n) refl refl
          (ground (arith, p.root, mod-eq_of_lt small)) refl

pub drain_loop-Inv : (fuel : ℕ) (b : Buffer) → Inv b → Inv (drain_loop fuel b)
unfolding drain_loop
drain_loop-Inv zero b v = v
drain_loop-Inv (suc fuel) b v =
    if_intro Inv (ltb 0 (length b.h) && (key b.h 0 == b.next_expected))
      (λ e. drain_loop-Inv fuel (drain_head b) (drain_head-Inv b v (ground arith) (ground arith)))
      λ e. v

length-drain_head : (b : Buffer) → Inv b → 0 < length b.h → length (drain_head b).h < length b.h
unfolding drain_head without_head
length-drain_head b v n =
    let p = pop-Popped b.h v.order n in
    omega (arith, total_one b.h, total_one (Heap.pop b.h).1, p.rest (λ q. 1))

stopped-Settled :
    (b : Buffer)
    → Inv b
    → (ltb 0 (length b.h) && (key b.h 0 == b.next_expected)) ≡ false
    → Settled b
stopped-Settled b v e = elim (dec_lt 0 (count b.next_expected b.h)) [
  | no none ↦ omega arith
  | yes some' ↦
      let (i, bi, k) = count-at b.next_expected b.h some' in
      let n : 0 < length b.h = omega arith in
      let low = head_least b v b.next_expected some' in
      let high = v.ahead (key b.h 0) (head_present b.h n) in absurd (ground arith)
]

drain_loop-Settled :
    (fuel : ℕ) (b : Buffer) → Inv b → length b.h ≤ fuel → Settled (drain_loop fuel b)
unfolding drain_loop
drain_loop-Settled zero b v f = stopped-Settled b v (ground arith)
drain_loop-Settled (suc fuel) b v f =
    if_intro Settled (ltb 0 (length b.h) && (key b.h 0 == b.next_expected))
      (λ e.
        drain_loop-Settled fuel (drain_head b) (drain_head-Inv b v (ground arith) (ground arith))
          (omega (arith, length-drain_head b v (ground arith))))
      λ e. stopped-Settled b v e

pub enqueue-Inv :
    (b : Buffer) (p : Packet)
    → Inv b
    → b.next_expected ≤ p.gsn
    → contains b.in_heap p.gsn ≡ false
    → p.gsn + 1 < 2 ^ 64
    → Inv (enqueue b p)
unfolding enqueue contains
enqueue-Inv b p v low new fit =
    let (order, sums) = push_lem b.h p v.order in
    record {
      order = order;
      marks = λ g. ground (arith, sums (has g), v.marks g);
      bytes = omega (arith, sums size, v.bytes);
      ahead = λ g c. ground (arith, sums (has g), v.ahead g);
      fits = λ g c. ground (arith, sums (has g), v.fits g);
    }

rearm-Inv : (b : Buffer) → Inv b → Inv (rearm_timer_locked b)
unfolding rearm_timer_locked
rearm-Inv b v = other_fields-Inv b _ v (ground arith) (ground arith) (ground arith) (ground arith)

-- What the two entry points leave behind.
abbrev pub Good : Buffer → Type 0
Good b = Inv b × Settled b

pub drain-Good : (b : Buffer) → Inv b → Good (drain_locked b)
unfolding drain_locked
drain-Good b v =
    (drain_loop-Inv (length b.h) b v, drain_loop-Settled (length b.h) b v (omega arith))

pub rearm-Good : (b : Buffer) → Good b → Good (rearm_timer_locked b)
rearm-Good b (v, s) = (rearm-Inv b v, rearm-Settled b s)
  where
    rearm-Settled : (b : Buffer) → Settled b → Settled (rearm_timer_locked b)
    rearm-Settled b s = unfold rearm_timer_locked in ground arith

pub relieve-Good : (b : Buffer) → Good b → Good (relieve b)
unfolding relieve
relieve-Good b g =
    if_intro Good (ltb_ℤ b.max_bytes (pos b.cur_bytes)) (λ e. drain-Good _ (force-Inv b g.0)) λ e. g

pub new_from-Good : (start : ℕ) (deadline bytes : ℤ) → Good (new_from start deadline bytes)
unfolding new_from total contains
new_from-Good start deadline bytes = (
  record {
    order = λ c p q. absurd (omega arith);
    marks = λ g. refl;
    bytes = refl;
    ahead = λ g c. absurd (omega arith);
    fits = λ g c. absurd (omega arith);
  },
  refl,
)

-- Push of a packet with a number below 2^64 - 1 keeps the invariant (heap order, the set and the byte
-- count agree with the heap, nothing waits below the next expected number), and leaves no packet of
-- the next expected number waiting, if both held before.
pub push-Good : (b : Buffer) (p : Packet) → Good b → p.gsn + 1 < 2 ^ 64 → Good (push b p)
unfolding push
push-Good b p g fit =
    if_intro Good p.push
      (λ e. (other_fields-Inv b (record b { out = offer b.out p }) g.0 refl refl refl refl, g.1))
      λ e.
        if_intro Good (ltb p.gsn b.next_expected) (λ f. g)
          λ f.
            if_intro Good (contains b.in_heap p.gsn) (λ k. g)
              λ k.
                rearm-Good _
                  (relieve-Good _ (drain-Good _ (enqueue-Inv b p g.0 (ground arith) k fit)))

-- A timer's callback, for whatever head it was armed, keeps the same invariant, and leaves no packet
-- of the next expected number waiting, if both held before.
pub on_deadline-Good : (b : Buffer) (head : ℕ) → Good b → Good (on_deadline b head)
unfolding on_deadline
on_deadline-Good b head g =
    if_intro Good (length b.h == 0) (λ e. g)
      λ e.
        if_intro Good (not (key b.h 0 == head)) (λ f. g)
          λ f. rearm-Good _ (drain-Good _ (force-Inv b g.0))
