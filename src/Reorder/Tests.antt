-- ===== src/Reorder/Tests.antt =====
-- Concrete histories of the reordering buffer: core/reorder/buffer.go.
use bondify.Common.{ℕ, ◌<◌, ◌≤◌, ◌≡◌, refl, true, false, List, [], ◌∷◌, arith, length}
use bondify.Common.Int.{pos}
use bondify.Reorder.Heap.{Packet, key}
use bondify.Reorder.Heap.Array.{count}
use bondify.Reorder.Heap
use bondify.Common.Assoc.{contains}
use bondify.Reorder.{
  new_from, push, on_deadline, clamp, enqueue, drain_locked, drain_loop, relieve,
  rearm_timer_locked,
}
use bondify.Reorder.Invariant.{Good, new_from-Good, push-Good, on_deadline-Good}
use bondify.Reorder.Run.{Event, arrives, expires, takes, step, run}
use bondify.Reorder.Run.Order.{Ascending, ordered, fresh, delivered-Ascending}
use bondify.Reorder.Run.Duplicates.{duplicate_ignored}
use bondify.Reorder.Run.Progress.{waits_for, head_is_released}

abbrev packet : ℕ → Packet
packet g = record { gsn = g; payload = 7 ∷ 8 ∷ []; push = false }

-- 2 and 1 overtake 0, which comes late; 5 waits for its deadline.
abbrev history : List Event
history =
    arrives (packet 2)
    ∷ arrives (packet 1)
    ∷ arrives (packet 0)
    ∷ takes
    ∷ takes
    ∷ arrives (packet 5)
    ∷ expires
    ∷ takes
    ∷ takes
    ∷ arrives (packet 3)
    ∷ []

delivered-Ascending_example :
    Ascending (ordered (run (fresh 0 (pos 50_000_000) (pos 1_000_000)) history).delivered)
delivered-Ascending_example =
    delivered-Ascending 0 (pos 50_000_000) (pos 1_000_000) history
      (omega arith, (omega arith, (omega arith, (omega arith, (omega arith, tt)))))

-- 5 and 4 wait behind the missing 0.
abbrev stuck : List Event
stuck = arrives (packet 5) ∷ arrives (packet 4) ∷ []

two_wait : 0 < length (run (fresh 0 (pos 50_000_000) (pos 1_000_000)) stuck).buffer.h
unfolding run step push new_from clamp enqueue drain_locked drain_loop relieve rearm_timer_locked
    contains Heap.push Heap.up Heap.swap Heap.less
two_wait = omega arith

head_is_released_example :
    let b = (run (fresh 0 (pos 50_000_000) (pos 1_000_000)) stuck).buffer in
    (waits_for b.timer (key b.h 0) ≡ true)
    × ((g : ℕ) → 0 < count g b.h → key b.h 0 ≤ g)
    × (key b.h 0
        < (step
            (run (fresh 0 (pos 50_000_000) (pos 1_000_000)) stuck)
            expires).buffer.next_expected)
head_is_released_example =
    head_is_released 0 (pos 50_000_000) (pos 1_000_000) stuck (omega arith, (omega arith, tt))
      two_wait

duplicate_ignored_example :
    let s =
      run
        (step (run (fresh 0 (pos 50_000_000) (pos 1_000_000)) []) (arrives (packet 3)))
        (expires ∷ []) in
    step s (arrives (packet 3)) ≡ s
duplicate_ignored_example =
    duplicate_ignored 0 (pos 50_000_000) (pos 1_000_000) [] (expires ∷ []) (packet 3) (packet 3) tt
      (omega arith) tt refl refl refl

push-Good_example : Good (push (new_from 0 (pos 50_000_000) (pos 1_000_000)) (packet 4))
push-Good_example =
    push-Good (new_from 0 (pos 50_000_000) (pos 1_000_000)) (packet 4)
      (new_from-Good 0 (pos 50_000_000) (pos 1_000_000)) (omega arith)

on_deadline-Good_example :
    Good (on_deadline (push (new_from 0 (pos 50_000_000) (pos 1_000_000)) (packet 4)) 4)
on_deadline-Good_example =
    on_deadline-Good (push (new_from 0 (pos 50_000_000) (pos 1_000_000)) (packet 4)) 4 (
      push-Good (new_from 0 (pos 50_000_000) (pos 1_000_000)) (packet 4)
        (new_from-Good 0 (pos 50_000_000) (pos 1_000_000)) (omega arith))
