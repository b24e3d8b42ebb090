-- ===== src/Relay/Tables/Rekeyed.antt =====
-- core/bond/relay.go: the tables after handleHandshakeInit has written a session into them.
use bondify.Common.{
  ℕ, ◌<◌, ◌≡◌, ◌≢◌, ◌∙◌, refl, sym, ap, subst, Bool, true, false, some, List, arith, ◌==◌, inl, inr,
}
use bondify.Common.Assoc.{lookup, lookup-insert}
use bondify.Common.Float.{Float}
use bondify.Crypto.Handshake.{Noise}
use bondify.Crypto.Session.{Aead, Session}
use bondify.Fec.{Codec}
use bondify.Relay.{UdpAddr, RelaySession, Relay, RelayConfig}
use bondify.Relay.Handshake.{joined, register}
use bondify.Relay.Tables.{Points, Agree, entry}
use bondify.Tunnel.{Cbor}

module _ {F : Type 0} where
  -- The address and the index are the client's own, or nobody's.
  pub record Free (r : Relay F) (key ip idx : ℕ) : Type 0 where
    pub index : (ref : ℕ) → lookup idx r.by_index ≡ some ref → lookup key r.by_client_key ≡ some ref
    pub address :
        (ref : ℕ) → lookup ip r.by_tunnel_ip ≡ some ref → lookup key r.by_client_key ≡ some ref
    pub own :
        (ref i b : ℕ)
        → lookup key r.by_client_key ≡ some ref
        → Points r ref i b
        → (i ≡ idx) × (b ≡ ip)
    pub given : ip < r.pool.next

module _ {F : Type 0} (fl : Float F) (aead : Aead) (codec : Codec) (cbor : Cbor) (noise : Noise)
    (cfg : RelayConfig) (write_ok : UdpAddr → List ℕ → Bool) (key ip idx : ℕ) (src : UdpAddr)
    (sess : Session) (r : Relay F) (a : Agree r) (f : Free r key ip idx) where
  abbrev made : RelaySession F
  made = joined fl aead codec cbor noise cfg write_ok ip idx src sess

  abbrev after : Relay F
  after = register fl aead codec cbor noise cfg write_ok key ip idx src sess r

  kept : (ref i b : ℕ) → Points r ref i b → i ≢ idx → b ≢ ip → Points after ref i b
  unfolding register
  kept ref i b p ni nb =
      let old = a.fresh ref p.session p.stored in
      let other : (r.next_ref == ref) ≡ false = ground arith in
      record {
        session = p.session;
        stored = lookup-insert r.next_ref ref made r.sessions ∙ (rw other (p.stored));
        its_index = p.its_index;
        its_ip = p.its_ip;
        indexed = ground (arith, lookup-insert idx i r.next_ref r.by_index, p.indexed);
        addressed = ground (arith, lookup-insert ip b r.next_ref r.by_tunnel_ip, p.addressed);
      }

  newest : Points after r.next_ref idx ip
  unfolding register
  newest =
      let self : (r.next_ref == r.next_ref) ≡ true = ground arith in
      record {
        session = made;
        stored = lookup-insert r.next_ref r.next_ref made r.sessions ∙ (rw self refl);
        its_index = refl;
        its_ip = refl;
        indexed = ground (arith, lookup-insert idx idx r.next_ref r.by_index);
        addressed = ground (arith, lookup-insert ip ip r.next_ref r.by_tunnel_ip);
      }

  newest_at : (ref : ℕ) → some r.next_ref ≡ some ref → Points after ref idx ip
  newest_at ref e = subst (λ n. Points after n idx ip) (ground arith) newest

  -- An old entry's index and address are taken by the client itself, or kept.
  by_index_old :
      (i ref : ℕ) → i ≢ idx → lookup i r.by_index ≡ some ref → (b : ℕ) × Points after ref i b
  by_index_old i ref ni h =
      let (b, p) = a.index i ref h in
      (
        b,
        kept ref i b p ni (λ e.
            ni
              (f.own ref i b
                (f.address ref (ap (λ n. lookup n r.by_tunnel_ip) (sym e) ∙ p.addressed)) p).0),
      )

  by_address_old :
      (b ref : ℕ) → b ≢ ip → lookup b r.by_tunnel_ip ≡ some ref → (i : ℕ) × Points after ref i b
  by_address_old b ref nb h =
      let (i, p) = a.address b ref h in
      (
        i,
        kept ref i b p
            (λ e.
              nb
                (f.own ref i b (f.index ref (ap (λ n. lookup n r.by_index) (sym e) ∙ p.indexed))
                  p).1)
            nb,
      )

  by_client_old :
      (other ref : ℕ)
      → other ≢ key
      → lookup other r.by_client_key ≡ some ref
      → (i : ℕ) × (b : ℕ) × Points after ref i b
  by_client_old other ref ne h =
      let (i, b, p) = a.client other ref h in
      (
        i,
        b,
        kept ref i b p
            (λ e. ne (
              a.alone other key ref h
                (f.index ref (ap (λ n. lookup n r.by_index) (sym e) ∙ p.indexed))))
            (λ e. ne (
              a.alone other key ref h
                (f.address ref (ap (λ n. lookup n r.by_tunnel_ip) (sym e) ∙ p.addressed)))),
      )

  older : (other ref : ℕ) → lookup other r.by_client_key ≡ some ref → ref < r.next_ref
  older other ref h = let (i, b, p) = a.client other ref h in a.fresh ref p.session p.stored

  indexed_after : (i ref : ℕ) → lookup i after.by_index ≡ some ref → (b : ℕ) × Points after ref i b
  unfolding register
  indexed_after i ref h = elim (entry idx i r.next_ref ref r.by_index h) [
    | inl (e, g) ↦ (ip, subst (λ n. Points after ref n ip) (sym e) (newest_at ref g))
    | inr (ne, g) ↦ by_index_old i ref ne g
  ]

  addressed_after :
      (b ref : ℕ) → lookup b after.by_tunnel_ip ≡ some ref → (i : ℕ) × Points after ref i b
  unfolding register
  addressed_after b ref h = elim (entry ip b r.next_ref ref r.by_tunnel_ip h) [
    | inl (e, g) ↦ (idx, subst (λ n. Points after ref idx n) (sym e) (newest_at ref g))
    | inr (ne, g) ↦ by_address_old b ref ne g
  ]

  client_after :
      (other ref : ℕ)
      → lookup other after.by_client_key ≡ some ref
      → (i : ℕ) × (b : ℕ) × Points after ref i b
  unfolding register
  client_after other ref h = elim (entry key other r.next_ref ref r.by_client_key h) [
    | inl (e, g) ↦ (idx, ip, newest_at ref g)
    | inr (ne, g) ↦ by_client_old other ref ne g
  ]

  alone_after :
      (one two ref : ℕ)
      → lookup one after.by_client_key ≡ some ref
      → lookup two after.by_client_key ≡ some ref
      → one ≡ two
  unfolding register
  alone_after one two ref h k =
      let second = entry key two r.next_ref ref r.by_client_key k in
      elim (entry key one r.next_ref ref r.by_client_key h) [
        | inl (e, g) ↦ elim second [
          | inl (e', g') ↦ e ∙ sym e'
          | inr (ne, g') ↦ (let old = older two ref g' in ground arith)
        ]
        | inr (ne, g) ↦ elim second [
          | inl (e', g') ↦ (let old = older one ref g in ground arith)
          | inr (ne', g') ↦ a.alone one two ref g g'
        ]
      ]

  fresh_after :
      (ref : ℕ) (s : RelaySession F) → lookup ref after.sessions ≡ some s → ref < after.next_ref
  unfolding register
  fresh_after ref s h = elim (entry r.next_ref ref made s r.sessions h) [
    | inl (e, g) ↦ ground arith
    | inr (ne, g) ↦ (let old = a.fresh ref s g in ground arith)
  ]

  given_after : (b ref : ℕ) → lookup b after.by_tunnel_ip ≡ some ref → b < after.pool.next
  unfolding register
  given_after b ref h = elim (entry ip b r.next_ref ref r.by_tunnel_ip h) [
    | inl (e, g) ↦ (let new = f.given in ground arith)
    | inr (ne, g) ↦ a.given b ref g
  ]

  pub register-Agree : Agree after
  unfolding register
  register-Agree = record {
    index = indexed_after;
    address = addressed_after;
    client = client_after;
    alone = alone_after;
    fresh = fresh_after;
    given = given_after;
    unreleased = a.unreleased;
    room = a.room;
  }
