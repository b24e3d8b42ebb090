-- ===== src/Fec/Sender/Generations.antt =====
-- core/bond/fec.go: what fecSender.Record does to a generation, and what it sends when one closes.
use bondify.Common.{
  ℕ, ◌+◌, ◌%◌, ◌^◌, ◌<◌, ◌≤◌, ◌≡◌, refl, sym, not, ◌||◌, List, [], ◌∷◌, ◌++◌, arith, leb, ◌==◌,
  length, length-append, All, if_intro, ◌⊎◌, inl, inr, subst,
}
use bondify.Common.Float.{Float}
use bondify.Common.Int.{pos, pos_part, ltb_ℤ, ◌≤ℤ◌}
use bondify.Common.Result.{Result, ok, err}
use bondify.Fec.{Codec, FecError, k_max, redundancy_for, shard_width, encode_parity}
use bondify.Fec.Sender.{
  FecSender, Parity, parity_calls, emitted, close_locked, with_shard, record_shard,
}

-- Room for another packet, and a width that fits every packet collected.
pub record Collecting (f : FecSender) : Type 0 where
  pub room : length f.shards < k_max
  pub fits : All (λ s. length s ≤ f.max_len) f.shards

-- Parity packets that carry these shards in this order, with indices that count up from the first.
abbrev pub Carry : ℕ → ℕ → ℕ → ℕ → ℕ → List (List ℕ) → List Parity → Type 0
Carry gen_id n m w index [] [] = Unit
Carry gen_id n m w index [] (p ∷ ps) = ⊥
Carry gen_id n m w index (s ∷ ss) [] = ⊥
Carry gen_id n m w index (s ∷ ss) (p ∷ ps) =
    ((p.gen_id ≡ gen_id)
      × (p.gen_index ≡ index)
      × (p.n ≡ n)
      × (p.m ≡ m)
      × (p.w ≡ w)
      × (p.shard ≡ s))
    × Carry gen_id n m w (index + 1) ss ps

parity_calls-Carry :
    (gen_id n m w index : ℕ) (ss : List (List ℕ))
    → Carry gen_id n m w index ss (parity_calls gen_id index n m w ss)
unfolding parity_calls
parity_calls-Carry gen_id n m w index [] = tt
parity_calls-Carry gen_id n m w index (s ∷ ss) =
    ((refl, refl, refl, refl, refl, refl), parity_calls-Carry gen_id n m w (index + 1) ss)

grown-fits :
    (ss : List (List ℕ)) (most more : ℕ) (t : List ℕ)
    → All (λ s. length s ≤ most) ss
    → most ≤ more
    → length t ≤ more
    → All (λ s. length s ≤ more) (ss ++ t ∷ [])
grown-fits [] most more t a h k = (k, tt)
grown-fits (s ∷ ss) most more t a h k = (omega (arith, a.0), grown-fits ss most more t a.1 h k)

padded :
    (most w : ℕ) (ss : List (List ℕ))
    → most + 2 ≤ w
    → All (λ s. length s ≤ most) ss
    → All (λ s. length s + 2 ≤ w) ss
padded most w [] h a = tt
padded most w (s ∷ ss) h a = (omega (arith, a.0), padded most w ss h a.1)

module _ {F : Type 0} (fl : Float F) (codec : Codec) where
  -- The parity packets of a generation of these packets: shards of a width that has room for the
  -- longest and its length, as many as RedundancyFor asks for at this loss. None where it asks for
  -- none or the codec refuses.
  abbrev pub Sent : ℕ → List (List ℕ) → F → List Parity → Type 0
  Sent gen_id shards loss ps =
      let m = redundancy_for fl loss (pos (length shards)) in
      (w : ℕ) × All (λ s. length s + 2 ≤ w) shards
      × (m ≤ℤ pos 0 → ps ≡ [])
      × ((e : FecError) → encode_parity codec shards w (pos_part m) ≡ err e → ps ≡ [])
      × ((ss : List (List ℕ))
          → ¬ (m ≤ℤ pos 0)
          → encode_parity codec shards w (pos_part m) ≡ ok ss
          → Carry gen_id (length shards) (pos_part m) w (length shards) ss ps)

  emitted-refused :
      (gen_id n m w : ℕ) (r : Result FecError (List (List ℕ))) (e : FecError)
      → r ≡ err e
      → emitted gen_id n m w r ≡ []
  unfolding emitted
  emitted-refused gen_id n m w (ok ss) e h = absurd (ground arith)
  emitted-refused gen_id n m w (err x) e h = refl

  emitted-Carry :
      (gen_id n m w : ℕ) (ss : List (List ℕ))
      → Carry gen_id n m w n ss (emitted gen_id n m w (ok ss))
  unfolding emitted
  emitted-Carry gen_id n m w ss = parity_calls-Carry gen_id n m w n ss

  -- A generation that is not empty closes: the next one, by its number, is open and empty.
  abbrev pub Closes : FecSender → F → List Parity × FecSender → Type 0
  Closes f loss r =
      Sent f.gen_id f.shards loss r.0
      × (r.1.shards ≡ [])
      × (r.1.max_len ≡ 0)
      × (r.1.gen_id ≡ (f.gen_id + 1) % 2 ^ 16)

  close-Closes :
      (f : FecSender) (loss : F)
      → 0 < length f.shards
      → All (λ s. length s ≤ f.max_len) f.shards
      → Closes f loss (close_locked fl codec f loss)
  unfolding close_locked
  close-Closes f loss some' fits =
      let n = length f.shards in
      let m = redundancy_for fl loss (pos n) in
      let w = shard_width f.max_len in
      let parity = encode_parity codec f.shards w (pos_part m) in
      let sent = emitted f.gen_id n (pos_part m) w parity in
      if_intro (Closes f loss) (n == 0) (λ e. absurd (ground arith))
        λ e. (
          (
            w,
            padded f.max_len w f.shards (omega arith) fits,
            (λ h.
                if_intro (λ ps. ps ≡ []) (ltb_ℤ (pos 0) m) (λ g. absurd (ground arith))
                  (λ g. refl)),
            (λ x h.
                if_intro (λ ps. ps ≡ []) (ltb_ℤ (pos 0) m)
                  (λ g. emitted-refused f.gen_id n (pos_part m) w parity x h) (λ g. refl)),
            (λ ss h k.
                if_intro (Carry f.gen_id n (pos_part m) w n ss) (ltb_ℤ (pos 0) m)
                  (λ g.
                    subst
                      (λ r.
                        Carry f.gen_id n (pos_part m) w n ss (emitted f.gen_id n (pos_part m) w r))
                      (sym k) (emitted-Carry f.gen_id n (pos_part m) w ss))
                  (λ g. absurd (h (ground arith)))),
          ),
          refl,
          refl,
          refl,
        )

  abbrev pub IsCurrent : FecSender → ℕ → ℕ → Type 0
  IsCurrent f gen_id gen_index = (gen_id ≡ f.gen_id) × (gen_index ≡ length f.shards)

  abbrev pub Recorded : FecSender → F → ℕ → ℕ → List ℕ → List Parity × FecSender → Type 0
  Recorded f loss gen_id gen_index plaintext r =
      Collecting r.1
      × (¬ IsCurrent f gen_id gen_index → r ≡ ([], f))
      × (IsCurrent f gen_id gen_index
          → ((length f.shards + 1 < k_max)
              × (r.0 ≡ [])
              × (r.1.shards ≡ f.shards ++ plaintext ∷ [])
              × (r.1.gen_id ≡ f.gen_id)
              × (r.1.opened_at ≡ f.opened_at))
            ⊎ ((length f.shards + 1 ≡ k_max)
                × Sent f.gen_id (f.shards ++ plaintext ∷ []) loss r.0
                × (r.1.shards ≡ [])
                × (r.1.max_len ≡ 0)
                × (r.1.gen_id ≡ (f.gen_id + 1) % 2 ^ 16)))

  -- For a sender with fewer than ten packets, none longer than its maximum, Record keeps both. Of a
  -- slot that is not the current one it changes nothing. Of the current slot it appends the packet to
  -- the generation and sends nothing; or, when that is the tenth, the next generation, by its number,
  -- is open and empty, and the parity packets sent carry, in order, the shards that EncodeParity
  -- computes of the ten packets, as many as RedundancyFor asks for at the loss, under the closed
  -- generation's number, with indices from 10 on and a width that has room for every packet and its
  -- length; none are sent where RedundancyFor asks for none or EncodeParity fails.
  pub record_shard-Recorded :
      (f : FecSender) (loss : F) (gen_id gen_index : ℕ) (plaintext : List ℕ)
      → Collecting f
      → Recorded f loss gen_id gen_index plaintext
          (record_shard fl codec f loss gen_id gen_index plaintext)
  unfolding record_shard
  record_shard-Recorded f loss gen_id gen_index plaintext c =
      let g = with_shard fl codec f plaintext in
      let longer = length-append f.shards (plaintext ∷ []) in
      let room = c.room in
      let fits : All (λ s. length s ≤ g.max_len) g.shards =
        grown-fits f.shards f.max_len g.max_len plaintext c.fits (ground arith) (ground arith) in
      if_intro (Recorded f loss gen_id gen_index plaintext)
        (not (gen_id == f.gen_id) || not (gen_index == length f.shards))
        (λ e. (c, (λ k. refl), λ k. absurd (let a = k.0 in let b = k.1 in ground arith)))
        λ e.
          if_intro (Recorded f loss gen_id gen_index plaintext) (leb k_max (length g.shards))
            (λ h.
              let (sent, shards, most, next) = close-Closes g loss (ground arith) fits in
              (
                record { room = rw shards (omega arith); fits = rw shards tt },
                (λ k. absurd (k (ground arith, ground arith))),
                λ k. inr (ground arith, sent, shards, most, next),
              ))
            λ h. (
              record { room = ground arith; fits = fits },
              (λ k. absurd (k (ground arith, ground arith))),
              λ k. inl (ground arith, refl, refl, refl, refl),
            )
