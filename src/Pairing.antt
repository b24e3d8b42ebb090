-- ===== src/Pairing.antt =====
-- core/pairbond/pairbond.go: pairing codes, the peers of a host, the message header. A code or a
-- peer id is the number of its string; instants and durations are nanoseconds. GenerateCode's
-- random bytes and the clock's readings are arguments.
pub mod Codes
pub mod Peers
pub mod Header
pub mod Tests
use bondify.Common.{
  ℕ, zero, suc, ◌+◌, ◌*◌, ◌%◌, Bool, true, false, ◌||◌, not, Option, none, some, List, [], ◌∷◌, map,
  ltb, leb, ◌==◌, if◌then◌else◌, length, replicate,
}
use bondify.Common.Assoc.{lookup, insert, delete}
use bondify.Common.Bytes.{byte, slice, write, be, of_be}
use bondify.Common.Result.{Result, ok, err}

abbrev pub code_len : ℕ
code_len = 6

abbrev pub code_ttl : ℕ
code_ttl = 300_000_000_000

abbrev pub max_peers : ℕ
max_peers = 4

abbrev pub alphabet_len : ℕ
alphabet_len = 32

pub data PairError : Type 0 where
  bad_code code_used too_many_peers not_paired already_paired short_header : PairError

-- GenerateCode, from the bytes of rand.Read: the indices into the alphabet.
unfoldable pub generate_code : List ℕ → List ℕ
generate_code bytes = map (λ b. b % alphabet_len) bytes

pub record CodeEntry : Type 0 where
  pub expires : ℕ
  pub used : Bool

abbrev pub CodeStore : Type 0
CodeStore = List (ℕ × CodeEntry)

-- `now.After(e.expires)`
abbrev pub is_expired : ℕ → CodeEntry → Bool
is_expired now e = ltb e.expires now

unfoldable pub gc_locked : ℕ → CodeStore → CodeStore
gc_locked now [] = []
gc_locked now ((c, e) ∷ s) =
    let rest = gc_locked now s in if is_expired now e || e.used then rest else (c, e) ∷ rest

-- Issue of the code that was generated, at `now`.
unfoldable pub issue : ℕ → ℕ → CodeStore → CodeStore
issue now code s = insert code (record { expires = now + code_ttl; used = false }) (gc_locked now s)

-- Consume behind the sweep: the second clock reading and what the map holds.
unfoldable pub redeem :
    ℕ → ℕ → CodeStore → Option CodeEntry → Result PairError (Unit {0}) × CodeStore
redeem now code s none = (err bad_code, s)
redeem now code s (some e) =
    if is_expired now e
    then (err bad_code, s)
    else if e.used
    then (err code_used, s)
    else (ok tt, insert code (record e { used = true }) s)

-- `now` is read by gcLocked, `later` by Consume itself.
unfoldable pub consume : ℕ → ℕ → ℕ → CodeStore → Result PairError (Unit {0}) × CodeStore
unfolding redeem
consume now later code s =
    let swept = gc_locked now s in redeem later code swept (lookup code swept)

unfoldable pub marshal_header : ℕ → ℕ → List ℕ
marshal_header msg_type payload_len =
    write (write (write (replicate 4 0) 0 (msg_type ∷ [])) 1 (0 ∷ [])) 2 (be 2 payload_len)

unfoldable pub unmarshal_header : List ℕ → Result PairError (ℕ × ℕ)
unmarshal_header b =
    if ltb (length b) 4 then err short_header else ok (byte b 0, of_be (slice b 2 2))

pub record Peer : Type 0 where
  pub id : ℕ
  pub remote_addr : ℕ
  pub accepted_at : ℕ
  pub revoked : Bool

abbrev pub Registry : Type 0
Registry = List (ℕ × Peer)

unfoldable pub add : Registry → Peer → Result PairError (Unit {0}) × Registry
add r p = if leb max_peers (length r) then (err too_many_peers, r) else elim (lookup p.id r) [
  | some old ↦ (err already_paired, r)
  | none ↦ (ok tt, insert p.id p r)
]

unfoldable pub unregister : Registry → ℕ → Option Peer → Result PairError Peer × Registry
unregister r id none = (err not_paired, r)
unregister r id (some p) = (ok (record p { revoked = true }), delete id r)

-- The peer that Revoke marks, for its holders, with the registry.
unfoldable pub revoke : Registry → ℕ → Result PairError Peer × Registry
unfolding unregister
revoke r id = unregister r id (lookup id r)

abbrev pub get : Registry → ℕ → Option Peer
get r id = lookup id r

abbrev pub count : Registry → ℕ
count r = length r
