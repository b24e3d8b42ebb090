-- ===== src/Crypto/Replay.antt =====
-- core/crypto/replay.go: the sliding window over received counters, a bitset of 64-bit words with
-- bit 0 of word 0 for the highest counter accepted. The mutex makes each method atomic, so a method
-- is one function. A counter is a number below 2^64, which every subtraction here stays inside.
pub mod Shift
pub mod Refinement
pub mod Tests
use Prim.Native.Nat.{bit_and, bit_or}
use bondify.Common.{
  ℕ, zero, suc, ◌+◌, ◌-◌, ◌*◌, ◌/◌, ◌%◌, ◌^◌, Bool, true, false, not, List, [], ◌∷◌, ltb, leb, ◌==◌,
  if◌then◌else◌, length, get_or, set, replicate,
}

abbrev pub replay_window_size : ℕ
replay_window_size = 8192

abbrev pub word_mod : ℕ
word_mod = 2 ^ 64

-- `max` is the highest counter accepted so far.
pub record ReplayWindow : Type 0 where
  pub max : ℕ
  pub bits : List ℕ
  pub inited : Bool

unfoldable pub new_replay_window : ℕ → ReplayWindow
new_replay_window size = record { max = 0; bits = replicate ((size + 63) / 64) 0; inited = false }

unfoldable pub check_only : ReplayWindow → ℕ → Bool
check_only w counter =
    if not w.inited
    then true
    else if ltb w.max counter
    then true
    else let back = w.max - counter in
      if leb (length w.bits * 64) back
      then false
      else bit_and (get_or w.bits (back / 64) 0) (2 ^ (back % 64)) == 0

-- The word that shiftWords stores at `i`, read off the words not yet overwritten.
unfoldable pub shifted_word : List ℕ → ℕ → ℕ → ℕ → ℕ
shifted_word bits word_shift bit_shift i =
    if ltb i word_shift
    then 0
    else let v = get_or bits (i - word_shift) 0 in
      if bit_shift == 0
      then v
      else let low = v * 2 ^ bit_shift % word_mod in
        if ltb (i - word_shift) 1
        then low
        else bit_or low (get_or bits (i - word_shift - 1) 0 / 2 ^ (64 - bit_shift))

-- `for i := len(bits) - 1; i >= 0; i--`; the first argument is `i + 1`.
unfoldable pub shift_loop : ℕ → ℕ → ℕ → List ℕ → List ℕ
shift_loop zero word_shift bit_shift bits = bits
shift_loop (suc i) word_shift bit_shift bits =
    shift_loop i word_shift bit_shift (set bits i (shifted_word bits word_shift bit_shift i))

unfoldable pub shift_words : List ℕ → ℕ → List ℕ
shift_words bits n =
    let word_shift = n / 64 in
    if leb (length bits) word_shift
    then replicate (length bits) 0
    else shift_loop (length bits) word_shift (n % 64) bits

-- `bits[word] |= 1 << bit`
pub set_bit : List ℕ → ℕ → List ℕ
set_bit bits k = set bits (k / 64) (bit_or (get_or bits (k / 64) 0) (2 ^ (k % 64)))

pub advanced : ReplayWindow → ℕ → List ℕ
advanced w shift =
    if leb (length w.bits * 64) shift then replicate (length w.bits) 0 else shift_words w.bits shift

-- The switch of MarkSeen, for a window that has accepted a counter before.
unfoldable pub mark_started : ReplayWindow → ℕ → ReplayWindow
mark_started w counter =
    if ltb w.max counter
    then record w { max = counter; bits = set_bit (advanced w (counter - w.max)) 0 }
    else (if counter == w.max
        then record w { bits = set_bit w.bits 0 }
        else (if ltb ((w.max - counter) / 64) (length w.bits)
            then record w { bits = set_bit w.bits (w.max - counter) }
            else w))

unfoldable pub mark_seen : ReplayWindow → ℕ → ReplayWindow
mark_seen w counter =
    if w.inited
    then mark_started w counter
    else record { max = counter; bits = set w.bits 0 1; inited = true }

-- The window after the counters of a history, the newest first.
unfoldable pub marked : List ℕ → ReplayWindow
marked [] = new_replay_window replay_window_size
marked (c ∷ cs) = mark_seen (marked cs) c
