-- ===== src/Crypto/Replay/Refinement.antt =====
-- The bitset refines the set of counters seen so far.
use Prim.Native.Nat.{max}
use bondify.Common.{
  ℕ, ◌-◌, ◌/◌, ◌%◌, ◌≤◌, ◌<◌, ◌≡◌, refl, ◌∙◌, Bool, true, false, not, List, [], ◌∷◌, arith, ltb,
  leb, ◌==◌, if◌then◌else◌, length, get_or, set, length-set, length-replicate, if_intro, subst,
}
use bondify.Common.Assoc.{contains}
use bondify.Common.Bits.{bit_and-pow}
use bondify.Crypto.Replay.{
  ReplayWindow, replay_window_size, word_mod, new_replay_window, check_only, mark_seen,
  mark_started, advanced, set_bit, marked,
}
use bondify.Crypto.Replay.Shift.{
  row_bit, row_bit-replicate, row_bit-shift_words, row_bit-set_bit, length-shift_words,
  length-set_bit, shift_words-fits, set_bit-fits, replicate-fits, row_bit-first, first-fits,
}

unfoldable pub highest : List ℕ → ℕ
highest [] = 0
highest (x ∷ xs) = max x (highest xs)

-- The specification: a counter is acceptable if it is above all those seen, or among the last 8192
-- of them in number and not seen.
unfoldable pub acceptable : List ℕ → ℕ → Bool
acceptable [] c = true
acceptable (x ∷ xs) c =
    if ltb (highest (x ∷ xs)) c
    then true
    else if leb replay_window_size (highest (x ∷ xs) - c)
    then false
    else not (contains (x ∷ xs) c)

abbrev started : List ℕ → Bool
started [] = false
started (x ∷ xs) = true

record Tracks (w : ReplayWindow) (cs : List ℕ) : Type 0 where
  size : length w.bits ≡ 128
  fits : (c : ℕ) → get_or w.bits c 0 < word_mod
  begun : w.inited ≡ started cs
  top : w.max ≡ highest cs
  blank : started cs ≡ false → (k : ℕ) → row_bit w.bits k ≡ false
  row : (k : ℕ) → k < 8192 → k ≤ w.max → row_bit w.bits k ≡ contains cs (w.max - k)

contains_above : (cs : List ℕ) (c : ℕ) → highest cs < c → contains cs c ≡ false
unfolding contains highest
contains_above [] c h = refl
contains_above (x ∷ xs) c h = ground (arith, contains_above xs c)

new-Tracks : Tracks (new_replay_window 8192) []
unfolding new_replay_window contains highest
new-Tracks = record {
  size = refl;
  fits = replicate-fits 128;
  begun = refl;
  top = refl;
  blank = λ e k. row_bit-replicate 128 k;
  row = λ k p q. row_bit-replicate 128 k;
}

advanced-row :
    (w : ReplayWindow) (s k : ℕ)
    → length w.bits ≡ 128
    → ((c : ℕ) → get_or w.bits c 0 < word_mod)
    → k < 8192
    → row_bit (advanced w s) k ≡ (if ltb k s then false else row_bit w.bits (k - s))
unfolding advanced
advanced-row w s k size fits h =
    ground (arith, row_bit-replicate (length w.bits) k, row_bit-shift_words w.bits s k fits)

first-Tracks :
    (w : ReplayWindow) (c : ℕ)
    → Tracks w []
    → Tracks (record { max = c; bits = set w.bits 0 1; inited = true }) (c ∷ [])
unfolding contains highest
first-Tracks w c t = record {
  size = length-set w.bits 0 1 ∙ t.size;
  fits = first-fits w.bits t.fits;
  begun = refl;
  top = ground arith;
  blank = λ e. absurd (ground arith);
  row = λ k p q.
      ground (arith, t.size, row_bit-first w.bits k (omega (arith, t.size)) (t.blank refl));
}

length-advanced : (w : ReplayWindow) (s : ℕ) → length (advanced w s) ≡ length w.bits
unfolding advanced
length-advanced w s =
    ground (arith, length-replicate {A = ℕ} (length w.bits) 0, length-shift_words w.bits s)

advanced-fits :
    (w : ReplayWindow) (s : ℕ)
    → ((c : ℕ) → get_or w.bits c 0 < word_mod)
    → (c : ℕ) → get_or (advanced w s) c 0 < word_mod
unfolding advanced
advanced-fits w s fit c =
    ground (arith, replicate-fits (length w.bits) c, shift_words-fits w.bits s fit c)

-- The three cases of a started window: a new highest counter, the same one, an older one.
raise-Tracks :
    (w : ReplayWindow) (x : ℕ) (xs : List ℕ) (c : ℕ)
    → Tracks w (x ∷ xs)
    → w.max < c
    → Tracks (record w { max = c; bits = set_bit (advanced w (c - w.max)) 0 }) (c ∷ x ∷ xs)
raise-Tracks w x xs c t above =
    let adv = advanced w (c - w.max) in
    let size : length adv ≡ 128 = length-advanced w (c - w.max) ∙ t.size in
    record {
      size = length-set_bit adv 0 ∙ size;
      fits = set_bit-fits adv 0 (advanced-fits w (c - w.max) t.fits);
      begun = t.begun;
      top = unfold highest in ground (arith, t.top);
      blank = λ e. absurd (ground arith);
      row = λ k p q.
          unfold contains in
          ground (
            arith,
            row_bit-set_bit adv 0 k (omega arith),
            advanced-row w (c - w.max) k t.size t.fits p,
            t.row (k - (c - w.max)),
            t.top,
            contains_above (x ∷ xs) (c - k),
          );
    }

repeat-Tracks :
    (w : ReplayWindow) (x : ℕ) (xs : List ℕ)
    → Tracks w (x ∷ xs)
    → Tracks (record w { bits = set_bit w.bits 0 }) (w.max ∷ x ∷ xs)
repeat-Tracks w x xs t = record {
  size = length-set_bit w.bits 0 ∙ t.size;
  fits = set_bit-fits w.bits 0 t.fits;
  begun = t.begun;
  top = unfold highest in ground (arith, t.top);
  blank = λ e. absurd (ground arith);
  row = λ k p q.
      unfold contains in
      ground (arith, t.size, row_bit-set_bit w.bits 0 k (omega (arith, t.size)), t.row k);
}

older-Tracks :
    (w : ReplayWindow) (x : ℕ) (xs : List ℕ) (c : ℕ)
    → Tracks w (x ∷ xs)
    → c < w.max
    → (w.max - c) / 64 < 128
    → Tracks (record w { bits = set_bit w.bits (w.max - c) }) (c ∷ x ∷ xs)
older-Tracks w x xs c t below inside = record {
  size = length-set_bit w.bits (w.max - c) ∙ t.size;
  fits = set_bit-fits w.bits (w.max - c) t.fits;
  begun = t.begun;
  top = unfold highest in ground (arith, t.top);
  blank = λ e. absurd (ground arith);
  row = λ k p q.
      unfold contains in
      ground (arith, t.size, row_bit-set_bit w.bits (w.max - c) k (omega (arith, t.size)), t.row k);
}

outside-Tracks :
    (w : ReplayWindow) (x : ℕ) (xs : List ℕ) (c : ℕ)
    → Tracks w (x ∷ xs)
    → c < w.max
    → 128 ≤ (w.max - c) / 64
    → Tracks w (c ∷ x ∷ xs)
outside-Tracks w x xs c t below outside = record {
  size = t.size;
  fits = t.fits;
  begun = t.begun;
  top = unfold highest in ground (arith, t.top);
  blank = λ e. absurd (ground arith);
  row = λ k p q. unfold contains in ground (arith, t.row k);
}

mark_started-Tracks :
    (w : ReplayWindow) (x : ℕ) (xs : List ℕ) (c : ℕ)
    → Tracks w (x ∷ xs)
    → Tracks (mark_started w c) (c ∷ x ∷ xs)
unfolding mark_started
mark_started-Tracks w x xs c t =
    let P = λ (u : ReplayWindow). Tracks u (c ∷ x ∷ xs) in
    if_intro P (ltb w.max c) (λ e. raise-Tracks w x xs c t (ground arith))
      λ e.
        if_intro P (c == w.max)
          (λ f.
            let same : w.max ≡ c = ground arith in
            subst (λ k. Tracks (record w { bits = set_bit w.bits 0 }) (k ∷ x ∷ xs)) same
              (repeat-Tracks w x xs t))
          λ f.
            if_intro P (ltb ((w.max - c) / 64) (length w.bits))
              (λ g. older-Tracks w x xs c t (ground arith) (ground (arith, t.size)))
              λ g. outside-Tracks w x xs c t (ground arith) (ground (arith, t.size))

mark_seen-Tracks :
    (w : ReplayWindow) (cs : List ℕ) (c : ℕ) → Tracks w cs → Tracks (mark_seen w c) (c ∷ cs)
unfolding mark_seen
mark_seen-Tracks w [] c t =
    if_intro (λ u. Tracks u (c ∷ [])) w.inited (λ e. absurd (ground (arith, t.begun)))
      λ e. first-Tracks w c t
mark_seen-Tracks w (x ∷ xs) c t =
    if_intro (λ u. Tracks u (c ∷ x ∷ xs)) w.inited (λ e. mark_started-Tracks w x xs c t)
      λ e. absurd (ground (arith, t.begun))

marked-Tracks : (cs : List ℕ) → Tracks (marked cs) cs
unfolding marked
marked-Tracks [] = new-Tracks
marked-Tracks (c ∷ cs) = mark_seen-Tracks (marked cs) cs c (marked-Tracks cs)

check_only-Tracks :
    (w : ReplayWindow) (cs : List ℕ) (c : ℕ) → Tracks w cs → check_only w c ≡ acceptable cs c
unfolding check_only acceptable
check_only-Tracks w [] c t = ground (arith, t.begun)
check_only-Tracks w (x ∷ xs) c t =
    let back = w.max - c in
    ground (
      arith,
      t.begun,
      t.size,
      t.top,
      t.row back,
      bit_and-pow (get_or w.bits (back / 64) 0) (back % 64),
    )

-- After any history of accepted counters CheckOnly accepts exactly the counters that are above all
-- of them, or less than 8192 below the highest and not among them; before any it accepts all.
pub check_only-marked : (cs : List ℕ) (c : ℕ) → check_only (marked cs) c ≡ acceptable cs c
check_only-marked cs c = check_only-Tracks (marked cs) cs c (marked-Tracks cs)

pub acceptable-contains : (cs : List ℕ) (c : ℕ) → contains cs c ≡ true → acceptable cs c ≡ false
unfolding acceptable
acceptable-contains [] c h = unfold contains in cc
acceptable-contains (x ∷ xs) c h = ground (arith, contains_above (x ∷ xs) c)
