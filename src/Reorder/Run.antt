-- ===== src/Reorder/Run.antt =====
-- Histories of a buffer: arrivals, timer callbacks, the consumer, deadline changes, in any order.
-- The mutex makes each of them one step. What the consumer has received is kept beside the buffer.
pub mod Order
pub mod Duplicates
pub mod Progress
use bondify.Common.{
  ℕ, ◌+◌, ◌<◌, ◌^◌, Bool, true, false, Option, none, some, List, [], ◌∷◌, ◌++◌, if◌then◌else◌,
}
use bondify.Common.Int.{ℤ}
use bondify.Reorder.Heap.{Packet}
use bondify.Reorder.{Buffer, Timer, push, on_deadline, set_deadline}

pub data Event : Type 0 where
  arrives : Packet → Event
  -- the pending timer's callback
  expires : Event
  -- a callback that was already waiting for the mutex when its timer was stopped
  late : ℕ → Event
  -- the consumer takes from the channel
  takes : Event
  retunes : ℤ → Event

pub record System : Type 0 where
  pub buffer : Buffer
  pub delivered : List Packet

expire : Option Timer → Buffer → Buffer
expire none b = b
expire (some t) b =
    if t.pending
    then on_deadline (record b { timer = some (record t { pending = false }) }) t.head
    else b

take_out : List Packet → System → System
take_out [] s = s
take_out (p ∷ out) s = record s {
  buffer = record s.buffer { out = out };
  delivered = s.delivered ++ p ∷ [];
}

unfoldable pub step : System → Event → System
unfolding expire take_out
step s (arrives p) = record s { buffer = push s.buffer p }
step s expires = record s { buffer = expire s.buffer.timer s.buffer }
step s (late g) = record s { buffer = on_deadline s.buffer g }
step s takes = take_out s.buffer.out s
step s (retunes d) = record s { buffer = set_deadline s.buffer d }

unfoldable pub run : System → List Event → System
run s [] = s
run s (e ∷ es) = run (step s e) es

-- Arriving numbers stay below 2^64 - 1, so that the next expected number does not wrap.
abbrev pub InRange : List Event → Type 0
InRange [] = Unit
InRange (arrives p ∷ es) = (p.gsn + 1 < 2 ^ 64) × InRange es
InRange (e ∷ es) = InRange es
