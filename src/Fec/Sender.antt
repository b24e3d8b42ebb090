-- ===== src/Fec/Sender.antt =====
-- core/bond/fec.go: fecSender, which collects the outgoing inner packets into generations and sends
-- parity when one closes. The loss estimate and the clock's readings are arguments; the calls of
-- sendParity are the packets returned.
pub mod Generations
use bondify.Common.{
  ℕ, ◌+◌, ◌-◌, ◌%◌, ◌^◌, ◌<◌, ◌≤◌, ◌≡◌, refl, Bool, true, false, ◌||◌, not, List, [], ◌∷◌, ◌++◌,
  arith, ltb, leb, ◌==◌, if◌then◌else◌, length, length-append, All, if_intro, ◌⊎◌, inl, inr,
}
use bondify.Common.Float.{Float}
use bondify.Common.Int.{pos, pos_part, ltb_ℤ}
use bondify.Common.Result.{Result, ok, err}
use bondify.Fec.{Codec, FecError, k_max, redundancy_for, shard_width, encode_parity}

pub record FecSender : Type 0 where
  pub gen_id : ℕ
  pub shards : List (List ℕ)
  pub max_len : ℕ
  pub opened_at : ℕ

abbrev pub new_fec_sender : FecSender
new_fec_sender = record { gen_id = 0; shards = []; max_len = 0; opened_at = 0 }

-- One call of sendParity.
pub record Parity : Type 0 where
  pub gen_id : ℕ
  pub gen_index : ℕ
  pub n : ℕ
  pub m : ℕ
  pub w : ℕ
  pub shard : List ℕ

-- NextSlot: the slot, and the sender with the time a generation was opened.
unfoldable pub next_slot : FecSender → ℕ → (ℕ × ℕ) × FecSender
next_slot f now =
    ((f.gen_id, length f.shards), if length f.shards == 0 then record f { opened_at = now } else f)

unfoldable pub parity_calls : ℕ → ℕ → ℕ → ℕ → ℕ → List (List ℕ) → List Parity
parity_calls gen_id index n m w [] = []
parity_calls gen_id index n m w (s ∷ ss) =
    record { gen_id = gen_id; gen_index = index; n = n; m = m; w = w; shard = s }
    ∷ parity_calls gen_id (index + 1) n m w ss

-- What closeLocked sends when EncodeParity has returned; an error sends nothing.
unfoldable pub emitted : ℕ → ℕ → ℕ → ℕ → Result FecError (List (List ℕ)) → List Parity
emitted gen_id n m w (ok parity) = parity_calls gen_id n n m w parity
emitted gen_id n m w (err e) = []

module _ {F : Type 0} (fl : Float F) (codec : Codec) where
  unfoldable pub close_locked : FecSender → F → List Parity × FecSender
  close_locked f loss =
      let n = length f.shards in
      if n == 0
      then ([], f)
      else let m = redundancy_for fl loss (pos n) in
        let w = shard_width f.max_len in
        let sent =
          emitted f.gen_id n (pos_part m) w (encode_parity codec f.shards w (pos_part m)) in
        (
          if ltb_ℤ (pos 0) m then sent else [],
          record f { gen_id = (f.gen_id + 1) % 2 ^ 16; shards = []; max_len = 0 },
        )

  abbrev pub with_shard : FecSender → List ℕ → FecSender
  with_shard f plaintext = record f {
    shards = f.shards ++ plaintext ∷ [];
    max_len = if ltb f.max_len (length plaintext) then length plaintext else f.max_len;
  }

  -- Record.
  unfoldable pub record_shard : FecSender → F → ℕ → ℕ → List ℕ → List Parity × FecSender
  record_shard f loss gen_id gen_index plaintext =
      if not (gen_id == f.gen_id) || not (gen_index == length f.shards)
      then ([], f)
      else let g = with_shard f plaintext in
        if leb k_max (length g.shards) then close_locked g loss else ([], g)

  -- Flush, with the time since the generation was opened.
  unfoldable pub flush : FecSender → F → ℕ → ℕ → List Parity × FecSender
  flush f loss now age =
      if (length f.shards == 0) || ltb (now - f.opened_at) age then ([], f) else close_locked f loss
