-- ===== src/Common/Assoc.antt =====
-- Go maps keyed by numbers, as association lists. A key stands at most once in what the operations
-- below build; Go leaves the order of iteration open, and nothing here depends on it.
use bondify.Common.{
  ℕ, ◌+◌, ◌≤◌, ◌≡◌, refl, Bool, false, ◌||◌, Option, none, some, List, [], ◌∷◌, arith, ◌==◌,
  if◌then◌else◌, length,
}

module _ {ℓ} {V : Type ℓ} where
  -- `m[key]`, with whether it is there.
  unfoldable pub lookup : ℕ → List (ℕ × V) → Option V
  lookup key [] = none
  lookup key ((name, held) ∷ rest) =
      let later = lookup key rest in if name == key then some held else later

  unfoldable pub delete : ℕ → List (ℕ × V) → List (ℕ × V)
  delete k [] = []
  delete k ((j, w) ∷ m) = let rest = delete k m in if j == k then rest else (j, w) ∷ rest

  -- `m[key] = new`
  unfoldable pub insert : ℕ → V → List (ℕ × V) → List (ℕ × V)
  insert key new [] = (key, new) ∷ []
  insert key new ((name, held) ∷ rest) =
      let later = (name, held) ∷ insert key new rest in
      if name == key then (key, new) ∷ rest else later

  pub lookup-insert :
      (key asked : ℕ) (new : V) (m : List (ℕ × V))
      → lookup asked (insert key new m) ≡ (if key == asked then some new else lookup asked m)
  unfolding lookup insert
  lookup-insert key asked new [] = ground arith
  lookup-insert key asked new ((name, held) ∷ rest) =
      ground (arith, lookup-insert key asked new rest)

  pub lookup-delete :
      (k j : ℕ) (m : List (ℕ × V)) → lookup j (delete k m) ≡ (if k == j then none else lookup j m)
  unfolding lookup delete
  lookup-delete k j [] = ground arith
  lookup-delete k j ((i, w) ∷ m) = ground (arith, lookup-delete k j m)

  pub length-insert :
      (k : ℕ) (v : V) (m : List (ℕ × V)) → lookup k m ≡ none → length (insert k v m) ≡ length m + 1
  unfolding lookup insert
  length-insert k v [] h = refl
  length-insert k v ((i, w) ∷ m) h = ground (arith, length-insert k v m)

  pub length-delete : (k : ℕ) (m : List (ℕ × V)) → length (delete k m) ≤ length m
  unfolding delete
  length-delete k [] = omega arith
  length-delete k ((i, w) ∷ m) = ground (arith, length-delete k m)

-- A Go map used as a set of numbers.
unfoldable pub contains : List ℕ → ℕ → Bool
contains [] c = false
contains (x ∷ xs) c = c == x || contains xs c

unfoldable pub remove : ℕ → List ℕ → List ℕ
remove k [] = []
remove k (x ∷ xs) = let rest = remove k xs in if x == k then rest else x ∷ rest

pub contains-remove :
    (k c : ℕ) (xs : List ℕ) → contains (remove k xs) c ≡ (if k == c then false else contains xs c)
unfolding contains remove
contains-remove k c [] = ground arith
contains-remove k c (x ∷ xs) = ground (arith, contains-remove k c xs)
