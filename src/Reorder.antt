-- ===== src/Reorder.antt =====
-- core/reorder/buffer.go: one direction's reordering buffer. A method holds the mutex throughout, so
-- it is one function from buffer to buffer. Durations are nanoseconds. `out` is the delivery channel
-- of capacity 1024, to which the code sends without blocking: a packet that finds it full is lost.
-- `timer` is the *time.Timer; the callback of a timer is an event of its own (Reorder/Run).
pub mod Heap
pub mod Invariant
pub mod Run
pub mod Tests
use bondify.Common.{
  ℕ, zero, suc, ◌+◌, ◌-◌, ◌*◌, ◌%◌, ◌^◌, Bool, true, false, not, ◌&&◌, Option, none, some, List, [],
  ◌∷◌, ◌++◌, ltb, ◌==◌, if◌then◌else◌, length,
}
use bondify.Common.Assoc.{contains, remove}
use bondify.Common.Int.{ℤ, pos, ltb_ℤ}
use bondify.Reorder.Heap.{Packet, key}
use bondify.Reorder.Heap

abbrev pub default_deadline_min : ℤ
default_deadline_min = pos 20_000_000

abbrev pub default_deadline_max : ℤ
default_deadline_max = pos 400_000_000

abbrev pub default_buf_min : ℤ
default_buf_min = pos (256 * 1024)

abbrev pub default_buf_max : ℤ
default_buf_max = pos (16 * 1024 * 1024)

abbrev pub out_capacity : ℕ
out_capacity = 1024

-- A started timer: the head it was armed for, its delay, and whether it is still pending.
pub record Timer : Type 0 where
  pub head : ℕ
  pub delay : ℤ
  pub pending : Bool

pub record Buffer : Type 0 where
  pub h : List Packet
  pub in_heap : List ℕ
  pub next_expected : ℕ
  pub deadline : ℤ
  pub max_bytes : ℤ
  pub cur_bytes : ℕ
  pub head_gsn : ℕ
  pub head_set : Bool
  pub timer : Option Timer
  pub forced_releases : ℕ
  pub out : List Packet

-- `if x < lo { x = lo }; if x > hi { x = hi }`
unfoldable pub clamp : ℤ → ℤ → ℤ → ℤ
clamp lo hi x = let raised = if ltb_ℤ x lo then lo else x in if ltb_ℤ hi raised then hi else raised

unfoldable pub new_from : ℕ → ℤ → ℤ → Buffer
new_from start deadline max_bytes = record {
  h = [];
  in_heap = [];
  next_expected = start;
  deadline = clamp default_deadline_min default_deadline_max deadline;
  max_bytes = clamp default_buf_min default_buf_max max_bytes;
  cur_bytes = 0;
  head_gsn = 0;
  head_set = false;
  timer = none;
  forced_releases = 0;
  out = [];
}

unfoldable pub new : ℤ → ℤ → Buffer
unfolding new_from
new deadline max_bytes = new_from 0 deadline max_bytes

unfoldable pub set_deadline : Buffer → ℤ → Buffer
set_deadline b d = record b { deadline = clamp default_deadline_min default_deadline_max d }

abbrev pub size : Packet → ℕ
size p = length p.payload

-- The non-blocking send to `out`.
unfoldable pub offer : List Packet → Packet → List Packet
offer out p = if ltb (length out) out_capacity then out ++ p ∷ [] else out

unfoldable pub emit_locked : Buffer → Packet → Buffer
unfolding offer
emit_locked b p = record b { out = offer b.out p }

-- The first lines of drainLocked's body and of forceReleaseHeadLocked: take the head out of the
-- heap, the set and the byte count.
unfoldable pub without_head : Buffer → Packet × Buffer
without_head b =
    let (p, k) = Heap.pop b.h in
    (p, record b { h = k; in_heap = remove p.gsn b.in_heap; cur_bytes = b.cur_bytes - size p })

-- The body of drainLocked's loop.
unfoldable pub drain_head : Buffer → Buffer
unfolding without_head emit_locked
drain_head b =
    let (p, b') = without_head b in
    emit_locked (record b' { next_expected = (b'.next_expected + 1) % 2 ^ 64 }) p

unfoldable pub drain_loop : ℕ → Buffer → Buffer
drain_loop zero b = b
drain_loop (suc fuel) b =
    let rest = drain_loop fuel (drain_head b) in
    if ltb 0 (length b.h) && (key b.h 0 == b.next_expected) then rest else b

-- Each round takes a packet out, so the length of the heap is fuel enough.
unfoldable pub drain_locked : Buffer → Buffer
drain_locked b = drain_loop (length b.h) b

unfoldable pub force_release_head_locked : Buffer → Buffer
unfolding without_head emit_locked
force_release_head_locked b =
    if length b.h == 0
    then b
    else let (p, b') = without_head b in
      let forced = (b'.forced_releases + 1) % 2 ^ 64 in
      emit_locked (record b' { next_expected = (p.gsn + 1) % 2 ^ 64; forced_releases = forced }) p

-- `timer.Stop()` on a timer that may be nil.
abbrev pub stop : Option Timer → Option Timer
stop none = none
stop (some t) = some (record t { pending = false })

abbrev pub is_started : Option Timer → Bool
is_started none = false
is_started (some t) = true

unfoldable pub rearm_timer_locked : Buffer → Buffer
rearm_timer_locked b =
    if length b.h == 0
    then record b { head_set = false; timer = stop b.timer }
    else let head = key b.h 0 in
      if b.head_set && (head == b.head_gsn) && is_started b.timer then b else record b {
        head_gsn = head;
        head_set = true;
        timer = some (record { head = head; delay = b.deadline; pending = true });
      }

-- Push behind its three early returns.
unfoldable pub enqueue : Buffer → Packet → Buffer
enqueue b p = record b {
  h = Heap.push b.h p;
  in_heap = p.gsn ∷ b.in_heap;
  cur_bytes = b.cur_bytes + size p;
}

unfoldable pub relieve : Buffer → Buffer
relieve b =
    if ltb_ℤ b.max_bytes (pos b.cur_bytes) then drain_locked (force_release_head_locked b) else b

unfoldable pub push : Buffer → Packet → Buffer
push b p =
    if p.push
    then record b { out = offer b.out p }
    else if ltb p.gsn b.next_expected
    then b
    else if contains b.in_heap p.gsn
    then b
    else rearm_timer_locked (relieve (drain_locked (enqueue b p)))

unfoldable pub on_deadline : Buffer → ℕ → Buffer
on_deadline b expected_head =
    if length b.h == 0
    then b
    else if not (key b.h 0 == expected_head)
    then b
    else rearm_timer_locked (drain_locked (force_release_head_locked b))
