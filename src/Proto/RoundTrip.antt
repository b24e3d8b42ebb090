-- ===== src/Proto/RoundTrip.antt =====
-- Marshalling writes exactly the documented bytes, and parsing gives the header back.
use bondify.Common.{
  ℕ, ◌≤◌, ◌≡◌, ap, ◌∙◌, subst, List, [], ◌∷◌, ◌++◌, arith, length, drop, take, length-append,
  guard_passes,
}
use bondify.Common.Bytes.{overwrite, write, be, of_be-be, overwrite-append, take-append}
use bondify.Common.Result.{ok, ◌>>=◌}
use bondify.Proto.{
  OuterHeader, OuterFits, marshal_outer, unmarshal_outer, InnerDataHeader, InnerFits, marshal_inner,
  unmarshal_inner, FecHeader, FecFits, marshal_fec_header, unmarshal_fec_header,
}

-- PROTOCOL.md's outer header diagram, as bytes.
abbrev outer_front : OuterHeader → List ℕ
outer_front h = (h.typ ∷ h.version ∷ 0 ∷ 0 ∷ []) ++ be 4 h.session_index

abbrev pub outer_bytes : OuterHeader → List ℕ
outer_bytes h = outer_front h ++ h.nonce

abbrev pub fec_bytes : FecHeader → List ℕ
fec_bytes h = (h.n ∷ h.m ∷ []) ++ be 2 h.w

-- The inner DATA header diagram with its pad byte, as bytes.
abbrev pub inner_bytes : InnerDataHeader → List ℕ
inner_bytes h =
    be 8 h.gsn
    ++ (be 4 h.psn
        ++ ((h.path_id ∷ h.flags ∷ [])
            ++ (be 2 h.payload_len ++ (be 2 h.generation_id ++ (h.gen_index ∷ 0 ∷ [])))))

pub marshal_outer-bytes :
    (dst : List ℕ) (h : OuterHeader)
    → 20 ≤ length dst
    → length h.nonce ≡ 12
    → marshal_outer dst h ≡ ok (outer_bytes h ++ drop 20 dst)
unfolding marshal_outer write be
marshal_outer-bytes
      (a0 ∷ a1 ∷ a2 ∷ a3 ∷ a4 ∷ a5 ∷ a6 ∷ a7 ∷ b0 ∷ b1 ∷ b2 ∷ b3 ∷ b4 ∷ b5 ∷ b6 ∷ b7 ∷ b8 ∷ b9 ∷ b10
        ∷ b11 ∷ rest)
      h size n =
    let tail = b0 ∷ b1 ∷ b2 ∷ b3 ∷ b4 ∷ b5 ∷ b6 ∷ b7 ∷ b8 ∷ b9 ∷ b10 ∷ b11 ∷ rest in
    let copied : overwrite h.nonce tail ≡ h.nonce ++ drop 12 tail =
      subst (λ k. overwrite h.nonce tail ≡ h.nonce ++ drop k tail) n
        (overwrite-append h.nonce tail (omega arith)) in
    guard_passes _ 20 _ _ size ∙ ap (λ t. ok (outer_front h ++ t)) copied
marshal_outer-bytes dst h size n = absurd (omega arith)

pub marshal_inner-bytes :
    (dst : List ℕ) (h : InnerDataHeader)
    → 20 ≤ length dst
    → marshal_inner dst h ≡ ok (inner_bytes h ++ drop 20 dst)
unfolding marshal_inner write be
marshal_inner-bytes
      (a0 ∷ a1 ∷ a2 ∷ a3 ∷ a4 ∷ a5 ∷ a6 ∷ a7 ∷ b0 ∷ b1 ∷ b2 ∷ b3 ∷ b4 ∷ b5 ∷ b6 ∷ b7 ∷ b8 ∷ b9 ∷ b10
        ∷ b11 ∷ rest)
      h size =
    guard_passes _ 20 _ _ size
marshal_inner-bytes dst h size = absurd (omega arith)

marshal_fec-bytes :
    (dst : List ℕ) (h : FecHeader)
    → 4 ≤ length dst
    → marshal_fec_header dst h ≡ ok (fec_bytes h ++ drop 4 dst)
unfolding marshal_fec_header write be
marshal_fec-bytes (a0 ∷ a1 ∷ a2 ∷ a3 ∷ rest) h size = guard_passes _ 4 _ _ size
marshal_fec-bytes dst h size = absurd (omega arith)

pub unmarshal_outer-bytes :
    (h : OuterHeader) (rest : List ℕ)
    → OuterFits h
    → unmarshal_outer (outer_bytes h ++ rest) ≡ ok (h, 20)
unfolding unmarshal_outer be
unmarshal_outer-bytes h rest f =
    let nonce_read : take 12 (h.nonce ++ rest) ≡ h.nonce =
      subst (λ k. take k (h.nonce ++ rest) ≡ h.nonce) f.nonce_fits (take-append h.nonce rest) in
    ground (arith, length-append h.nonce rest, nonce_read, of_be-be 4 h.session_index f.index_fits)

pub unmarshal_inner-bytes :
    (h : InnerDataHeader) (rest : List ℕ)
    → InnerFits h
    → unmarshal_inner (inner_bytes h ++ rest) ≡ ok (h, 20)
unfolding unmarshal_inner be
unmarshal_inner-bytes h rest f = ground (
  arith,
  of_be-be 8 h.gsn f.gsn_fits,
  of_be-be 4 h.psn f.psn_fits,
  of_be-be 2 h.payload_len f.payload_len_fits,
  of_be-be 2 h.generation_id f.generation_id_fits,
)

unmarshal_fec-bytes :
    (h : FecHeader) (rest : List ℕ)
    → FecFits h
    → unmarshal_fec_header (fec_bytes h ++ rest) ≡ ok (h, 4)
unfolding unmarshal_fec_header be
unmarshal_fec-bytes h rest f = ground (arith, of_be-be 2 h.w f.w_fits)

-- For every outer header with fields in range and every buffer of at least 20 bytes, MarshalOuter
-- succeeds, writes the documented 20 bytes and leaves the rest of the buffer alone, and
-- UnmarshalOuter reads the same header back, consuming 20 bytes.
pub outer_round_trip :
    (dst : List ℕ) (h : OuterHeader)
    → OuterFits h
    → 20 ≤ length dst
    → (marshal_outer dst h ≡ ok (outer_bytes h ++ drop 20 dst))
      × ((marshal_outer dst h >>= unmarshal_outer) ≡ ok (h, 20))
outer_round_trip dst h f size =
    let written = marshal_outer-bytes dst h size f.nonce_fits in
    (written, rw written (unmarshal_outer-bytes h (drop 20 dst) f))

-- For every inner header with fields in range and every buffer of at least 20 bytes, MarshalInner
-- succeeds, writes the documented 20 bytes (the last one zero) and leaves the rest alone, and
-- UnmarshalInner reads the same header back, consuming 20 bytes.
pub inner_round_trip :
    (dst : List ℕ) (h : InnerDataHeader)
    → InnerFits h
    → 20 ≤ length dst
    → (marshal_inner dst h ≡ ok (inner_bytes h ++ drop 20 dst))
      × ((marshal_inner dst h >>= unmarshal_inner) ≡ ok (h, 20))
inner_round_trip dst h f size =
    let written = marshal_inner-bytes dst h size in
    (written, rw written (unmarshal_inner-bytes h (drop 20 dst) f))

-- For every FEC header with fields in range and every buffer of at least 4 bytes, MarshalFECHeader
-- succeeds and UnmarshalFECHeader reads the same header back, consuming 4 bytes.
pub fec_header_round_trip :
    (dst : List ℕ) (h : FecHeader)
    → FecFits h
    → 4 ≤ length dst
    → (marshal_fec_header dst h >>= unmarshal_fec_header) ≡ ok (h, 4)
fec_header_round_trip dst h f size =
    rw (marshal_fec-bytes dst h size) (unmarshal_fec-bytes h (drop 4 dst) f)
