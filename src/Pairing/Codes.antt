-- ===== src/Pairing/Codes.antt =====
-- core/pairbond/pairbond.go: histories of the store of pairing codes.
use bondify.Common.{
  ℕ, ◌+◌, ◌≤◌, ◌≡◌, ◌≢◌, refl, true, false, Option, none, some, List, [], ◌∷◌, arith, ltb, ◌==◌,
  if◌then◌else◌, if_intro,
}
use bondify.Common.Assoc.{lookup, insert}
use bondify.Common.Result.{Result, ok, err}
use bondify.Pairing.{
  CodeEntry, CodeStore, is_expired, gc_locked, issue, redeem, consume, code_ttl, bad_code,
  PairError,
}

-- A call of the store's methods, with the clock readings it takes.
pub data Call : Type 0 where
  issues : ℕ → ℕ → Call
  consumes : ℕ → ℕ → ℕ → Call

unfoldable pub call : CodeStore → Call → CodeStore
call s (issues now code) = issue now code s
call s (consumes now later code) = (consume now later code s).1

unfoldable pub calls : CodeStore → List Call → CodeStore
calls s [] = s
calls s (c ∷ cs) = calls (call s c) cs

-- The code is not issued by these calls.
abbrev pub NotIssued : ℕ → List Call → Type 0
NotIssued code [] = Unit
NotIssued code (issues now c ∷ cs) = (c ≢ code) × NotIssued code cs
NotIssued code (consumes now later c ∷ cs) = NotIssued code cs

-- How many entries stand under a code, and how many of them are unused.
unfoldable entries : ℕ → CodeStore → ℕ
entries code [] = 0
entries code ((c, e) ∷ s) = (if c == code then 1 else 0) + entries code s

unfoldable unspent : ℕ → CodeStore → ℕ
unspent code [] = 0
unspent code ((c, e) ∷ s) = (if c == code then if e.used then 0 else 1 else 0) + unspent code s

entries-gc :
    (now code : ℕ) (s : CodeStore)
    → (entries code (gc_locked now s) ≤ entries code s)
      × (entries code (gc_locked now s) ≤ unspent code s)
unfolding gc_locked entries unspent
entries-gc now code [] = (omega arith, omega arith)
entries-gc now code ((c, e) ∷ s) = ground (arith, entries-gc now code s)

unspent-gc : (now code : ℕ) (s : CodeStore) → unspent code (gc_locked now s) ≤ unspent code s
unfolding gc_locked unspent
unspent-gc now code [] = omega arith
unspent-gc now code ((c, e) ∷ s) = ground (arith, unspent-gc now code s)

unspent-entries : (code : ℕ) (s : CodeStore) → unspent code s ≤ entries code s
unfolding entries unspent
unspent-entries code [] = omega arith
unspent-entries code ((c, e) ∷ s) = ground (arith, unspent-entries code s)

entries-insert :
    (k code : ℕ) (v : CodeEntry) (s : CodeStore)
    → entries code s ≤ 1
    → entries code (insert k v s) ≤ 1
unfolding entries insert
entries-insert k code v [] h = ground arith
entries-insert k code v ((c, e) ∷ s) h =
    if_intro (λ m. entries code m ≤ 1) (c == k) (λ f. ground arith)
      λ f. ground (arith, same k code v s)
  where
    same :
        (k code : ℕ) (v : CodeEntry) (s : CodeStore)
        → entries code (insert k v s) ≤ (
            if k == code
            then (if ltb 0 (entries code s) then entries code s else 1)
            else entries code s)
    same k code v [] = ground arith
    same k code v ((c, e) ∷ s) =
        if_intro
          (λ m. entries code m ≤ (
            if k == code
            then (if ltb 0 (entries code ((c, e) ∷ s)) then entries code ((c, e) ∷ s) else 1)
            else entries code ((c, e) ∷ s)))
          (c == k) (λ f. ground arith) λ f. ground (arith, same k code v s)

unspent-insert :
    (k code : ℕ) (v : CodeEntry) (s : CodeStore)
    → entries code s ≤ 1
    → unspent code (insert k v s)
      ≤ (if k == code then (if v.used then 0 else 1) else unspent code s)
unfolding entries unspent insert
unspent-insert k code v [] h = ground arith
unspent-insert k code v ((c, e) ∷ s) h =
    if_intro
      (λ m.
        unspent code m
        ≤ (if k == code then (if v.used then 0 else 1) else unspent code ((c, e) ∷ s)))
      (c == k) (λ f. ground (arith, unspent-entries code s))
      λ f. ground (arith, unspent-insert k code v s)

lookup-entries : (code : ℕ) (s : CodeStore) → entries code s ≡ 0 → lookup code s ≡ none
unfolding entries lookup
lookup-entries code [] h = refl
lookup-entries code ((c, e) ∷ s) h = ground (arith, lookup-entries code s)

-- What redeem does to the entries of a code.
redeem-entries :
    (later c code : ℕ) (s : CodeStore) (o : Option CodeEntry)
    → entries code s ≤ 1
    → let r = redeem later c s o in
      (entries code r.1 ≤ 1)
      × (unspent code r.1 ≤ unspent code s)
      × (c ≡ code → r.0 ≡ ok tt → unspent code r.1 ≡ 0)
unfolding redeem
redeem-entries later c code s none h = (h, omega arith, λ e k. absurd (ground arith))
redeem-entries later c code s (some e) h =
    let used = record e { used = true } in
    let one = entries-insert c code used s h in
    let none' = unspent-insert c code used s h in
    if_intro
      (λ (r : Result PairError (Unit {0}) × CodeStore).
        (entries code r.1 ≤ 1)
        × (unspent code r.1 ≤ unspent code s)
        × (c ≡ code → r.0 ≡ ok tt → unspent code r.1 ≡ 0))
      (is_expired later e) (λ f. (h, omega arith, λ q k. absurd (ground arith)))
      λ f.
        if_intro
          (λ (r : Result PairError (Unit {0}) × CodeStore).
            (entries code r.1 ≤ 1)
            × (unspent code r.1 ≤ unspent code s)
            × (c ≡ code → r.0 ≡ ok tt → unspent code r.1 ≡ 0))
          e.used (λ g. (h, omega arith, λ q k. absurd (ground arith)))
          λ g. (one, ground arith, λ q k. ground arith)

-- One call keeps the entries of a code unique, and does not make a spent code usable.
call-entries :
    (code : ℕ) (s : CodeStore) (c : Call)
    → entries code s ≤ 1
    → (entries code (call s c) ≤ 1)
      × (NotIssued code (c ∷ []) → unspent code (call s c) ≤ unspent code s)
unfolding call consume issue
call-entries code s (issues now c) h =
    let fresh : CodeEntry = record { expires = now + code_ttl; used = false } in
    let g = entries-gc now code s in
    let i = entries-insert c code fresh (gc_locked now s) (omega arith) in
    let j = unspent-insert c code fresh (gc_locked now s) (omega arith) in
    (i, λ n. (let u = unspent-gc now code s in let m = n.0 in ground arith))
call-entries code s (consumes now later c) h =
    let g = entries-gc now code s in
    let swept = gc_locked now s in
    let r = redeem-entries later c code swept (lookup c swept) (omega arith) in
    (r.0, λ n. (let u = unspent-gc now code s in omega arith))

NotIssued-head :
    (code : ℕ) (c : Call) (cs : List Call)
    → NotIssued code (c ∷ cs)
    → NotIssued code (c ∷ []) × NotIssued code cs
NotIssued-head code (issues now k) cs n = ((n.0, tt), n.1)
NotIssued-head code (consumes now later k) cs n = (tt, n)

calls-entries :
    (code : ℕ) (s : CodeStore) (cs : List Call) → entries code s ≤ 1 → entries code (calls s cs) ≤ 1
unfolding calls
calls-entries code s [] h = h
calls-entries code s (c ∷ cs) h = calls-entries code (call s c) cs (call-entries code s c h).0

calls-unspent :
    (code : ℕ) (s : CodeStore) (cs : List Call)
    → entries code s ≤ 1
    → NotIssued code cs
    → unspent code (calls s cs) ≤ unspent code s
unfolding calls
calls-unspent code s [] h n = omega arith
calls-unspent code s (c ∷ cs) h n =
    let (now, rest) = NotIssued-head code c cs n in
    let (one, less) = call-entries code s c h in
    omega (arith, less now, calls-unspent code (call s c) cs one rest)

-- Once a code has been consumed, every later attempt to consume it is refused with ErrBadCode,
-- whatever calls are made before and between and whenever, unless the same code is issued again.
pub code_opens_once :
    (before after : List Call) (now later now' later' code : ℕ)
    → let s = calls [] before in
      (consume now later code s).0 ≡ ok tt
      → NotIssued code after
      → (consume now' later' code (calls (consume now later code s).1 after)).0 ≡ err bad_code
unfolding consume redeem
code_opens_once before after now later now' later' code opened n =
    let s = calls [] before in
    let one : entries code s ≤ 1 = calls-entries code [] before (unfold entries in omega arith) in
    let swept = gc_locked now s in
    let g = entries-gc now code s in
    let r = redeem-entries later code code swept (lookup code swept) (omega arith) in
    let spent = r.2 refl opened in
    let s' = redeem later code swept (lookup code swept) in
    let done = calls-unspent code s'.1 after r.0 n in
    let gone = entries-gc now' code (calls s'.1 after) in
    rw (lookup-entries code (gc_locked now' (calls s'.1 after)) (omega arith)) refl
