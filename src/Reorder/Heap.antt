-- ===== src/Reorder/Heap.antt =====
-- The gsnHeap of core/reorder/buffer.go, and what it uses of Go's container/heap: Push, Pop, and
-- their loops `up` and `down` over a slice ordered by GSN. Slices are lists; the loops run on fuel,
-- the index plus one for `up` and the length plus one for `down`.
pub mod Array
pub mod Up
pub mod Down
use bondify.Common.{
  ℕ, zero, suc, ◌+◌, ◌-◌, ◌*◌, ◌/◌, ◌<◌, ◌≤◌, ◌≡◌, Bool, true, false, not, ◌&&◌, ◌||◌, List, [],
  ◌∷◌, ◌++◌, ltb, leb, ◌==◌, if◌then◌else◌, length, get_or, set, take,
}

pub record Packet : Type 0 where
  pub gsn : ℕ
  pub payload : List ℕ
  pub push : Bool

-- What a read past the end stands for; the code makes no such read.
abbrev pub no_packet : Packet
no_packet = record { gsn = 0; payload = []; push = false }

abbrev pub at : List Packet → ℕ → Packet
at h i = get_or h i no_packet

abbrev pub key : List Packet → ℕ → ℕ
key h i = (at h i).gsn

-- `gsnHeap.Less`
unfoldable pub less : List Packet → ℕ → ℕ → Bool
less h i j = ltb (key h i) (key h j)

-- `gsnHeap.Swap`
unfoldable pub swap : List Packet → ℕ → ℕ → List Packet
swap h i j = set (set h i (at h j)) j (at h i)

abbrev pub parent : ℕ → ℕ
parent j = (j - 1) / 2

unfoldable pub up : ℕ → List Packet → ℕ → List Packet
unfolding less
up zero h j = h
up (suc fuel) h j =
    let risen = up fuel (swap h (parent j) j) (parent j) in
    if parent j == j || not (less h j (parent j)) then h else risen

-- The smaller child of `i` among the first `n` entries, given that there is a left one.
unfoldable pub smaller_child : List Packet → ℕ → ℕ → ℕ
unfolding less
smaller_child h i n =
    let left = 2 * i + 1 in if ltb (left + 1) n && less h (left + 1) left then left + 1 else left

unfoldable pub down : ℕ → List Packet → ℕ → ℕ → List Packet
unfolding less
down zero h i n = h
down (suc fuel) h i n =
    let j = smaller_child h i n in
    let sunk = down fuel (swap h i j) j n in
    if leb n (2 * i + 1) then h else if not (less h j i) then h else sunk

-- `heap.Push`
unfoldable pub push : List Packet → Packet → List Packet
push h p = up (length h + 1) (h ++ p ∷ []) (length h)

-- `heap.Pop` on a heap that is not empty: the packet taken out, and the heap that is left.
unfoldable pub pop : List Packet → Packet × List Packet
pop h = let n = length h - 1 in let sunk = down (n + 1) (swap h 0 n) 0 n in (at sunk n, take n sunk)
