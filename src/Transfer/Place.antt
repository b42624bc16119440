-- ===== src/Transfer/Place.antt =====
-- The steps of a lodging from the tags on, passed with 201.
use goblin_nip05d.Transfer.Tags.{Tagged, extract_offer_tags-Tagged}
use goblin_nip05d.Config.{Config}
use goblin_nip05d.Text.Number.{parse_i64, parse_u64}
use goblin_nip05d.Text.Equality.{eq-of-text_eq, text_eq-of-ne, text_eq_refl}
use goblin_nip05d.Prelude.Int.{cast_i64}
use goblin_nip05d.App.Moment.{Moment, execute, unix_now, query, query_any}
use goblin_nip05d.Proof.{decode_grin_address, normalize_grin_address}
use goblin_nip05d.ClaimTxn.{at_insert, at_live_address, at_live_name, at_lookup}
use goblin_nip05d.Text.{Text, trim}
use goblin_nip05d.Prelude.{
  Bool, Bool-cases, Option, any, ap, arith, false, if◌then◌else◌, inl, inr, is_some, none, not,
  some, true, ℕ, ◌≡◌, ◌≢◌, refl, sym, ◌∷◌,
}
use goblin_nip05d.Transfer.{
  OfferTags, extract_offer_tags, in_term, is_owner, lodge_reply, lodge_event,
}
use goblin_nip05d.Platform.{Event, Platform}
use goblin_nip05d.Names.{valid_name, valid_pubkey_hex}
use goblin_nip05d.Db.{
  Db, OfferRow, changed, get_offer, insert_offer, live, live_offer_binding, live_offer_for_name,
  lookup, offer_at,
}
use goblin_nip05d.App.{◌>>=◌, App, Response, pure, run, err}
use goblin_nip05d.App.Rules.{Ended, gets-Ended, require-Ended, unwrap_or-Ended}

-- A reply of 201 comes from an insertion.
insert-Ended :
    (mo : Moment) (row : OfferRow) (s s' : App) (r : Response)
    → Ended
        (execute mo at_insert (λ db. insert_offer db row) >>= λ w.
          pure (lodge_reply row.offer_id row.name row.expiration w))
        s
        s'
        r
    → r.status ≡ 201
    → insert_offer s.db row ≡ changed 1 s'.db
unfolding execute ◌>>=◌ run pure lodge_reply insert_offer
insert-Ended mo row s s' r e c = elim (Bool-cases (mo.fails at_insert)) [
  | inl f ↦ absurd (ground arith)
  | inr f ↦ elim (Bool-cases (any (offer_at row.offer_id) s.db.offers)) [
    | inl g ↦ absurd (ground arith)
    | inr g ↦ ground arith
  ]
]

insert-frame :
    (db db' : Db) (row : OfferRow)
    → insert_offer db row ≡ changed 1 db'
    → (db'.offers ≡ row ∷ db.offers) × (db'.names ≡ db.names) × (db'.transfers ≡ db.transfers)
unfolding insert_offer
insert-frame db db' row e = ground arith

-- The inserted offer is the one that is read, and nothing else changes.
inserted :
    (db db' : Db) (row : OfferRow)
    → insert_offer db row ≡ changed 1 db'
    → (get_offer db' row.offer_id ≡ some row)
      × ((id : Text) → id ≢ row.offer_id → get_offer db' id ≡ get_offer db id)
      × (db'.names ≡ db.names)
      × (db'.transfers ≡ db.transfers)
unfolding get_offer
inserted db db' row e =
    let (os, ns, ts) = insert-frame db db' row e in
    (
      rw os (ground (arith, text_eq_refl row.offer_id)),
      λ id ne. rw os (ground (arith, text_eq-of-ne row.offer_id id (λ q. ne (sym q)))),
      ns,
      ts,
    )

owner_found :
    (b : Bool) (o : Option Text) (seller : Text)
    → is_owner (if b then none else o) seller ≡ true
    → o ≡ some seller
unfolding is_owner
owner_found true o seller e = absurd (ground arith)
owner_found false none seller e = absurd (ground arith)
owner_found false (some owner) seller e = ap some (eq-of-text_eq owner seller e)

-- A query that did not fail has read the database.
read_false : (b x : Bool) → b ≡ false → not (if b then false else x) ≡ true → x ≡ false
read_false b x h e = ground arith

module _ (mo : Moment) (pf : Platform) where
  -- The row is the offer of the event.
  pub record IsRow (cfg : Config) (event : Event) (row : OfferRow) : Type 0 where
    pub tags : OfferTags
    pub price : ℕ
    pub extracted : extract_offer_tags event ≡ some tags
    pub tagged : Tagged event tags
    pub id : row.offer_id ≡ event.id
    pub json : row.event_json ≡ pf.event_as_json event
    pub seller : row.seller_pubkey ≡ event.pubkey
    pub name : row.name ≡ tags.name
    pub buyer : row.buyer_pubkey ≡ pf.to_lowercase tags.buyer
    pub domain : tags.domain ≡ cfg.domain
    pub address : row.proof_address ≡ normalize_grin_address pf tags.proof_address
    pub priced : parse_u64 (trim tags.price) ≡ some price
    pub stored_price : row.price_nanogrin ≡ cast_i64 price
    pub expires : parse_i64 (trim tags.expiration) ≡ some row.expiration
    pub term : in_term (unix_now mo) cfg.transfer_max_offer_ttl row.expiration ≡ true
    pub name_shape : valid_name row.name cfg.name_min cfg.name_max ≡ true
    pub buyer_shape : valid_pubkey_hex row.buyer_pubkey ≡ true
    pub payable : is_some (decode_grin_address pf row.proof_address) ≡ true
    pub is_new : row.status ≡ live

  -- The seller owned the name and had no other live offer for it, no other live offer has its
  -- address, and the offer is in the table now.
  pub record Placed (event : Event) (row : OfferRow) (db db' : Db) : Type 0 where
    pub owned : lookup db row.name ≡ some row.seller_pubkey
    pub alone :
        mo.fails at_live_name ≡ false → live_offer_for_name db row.name (unix_now mo) ≡ false
    pub unbound :
        mo.fails at_live_address ≡ false
        → live_offer_binding db row.proof_address (unix_now mo) ≡ false
    pub stored : get_offer db' row.offer_id ≡ some row
    pub offers : (id : Text) → id ≢ row.offer_id → get_offer db' id ≡ get_offer db id
    pub same_names : db'.names ≡ db.names
    pub same_transfers : db'.transfers ≡ db.transfers

  pub lodge_event-Placed :
      (event : Event) (s s' : App) (r : Response)
      → Ended (lodge_event mo pf s.cfg event) s s' r
      → r.status ≡ 201
      → (row : OfferRow) × IsRow s.cfg event row × Placed event row s.db s'.db
  unfolding lodge_event query query_any err
  lodge_event-Placed event s s' r e created =
      let (tags, extracted, h1) = unwrap_or-Ended _ _ _ s s' r e (omega arith) in
      let (name_shape, h2) = require-Ended _ _ _ s s' r h1 (omega arith) in
      let (domain, h3) = require-Ended _ _ _ s s' r h2 (omega arith) in
      let (buyer_shape, h4) = require-Ended _ _ _ s s' r h3 (omega arith) in
      let (price, priced, h5) = unwrap_or-Ended _ _ _ s s' r h4 (omega arith) in
      let (payable, h6) = require-Ended _ _ _ s s' r h5 (omega arith) in
      let (expiration, expires, h7) = unwrap_or-Ended _ _ _ s s' r h6 (omega arith) in
      let (term, h8) = require-Ended _ _ _ s s' r h7 (omega arith) in
      let h9 = gets-Ended _ _ s s' r h8 in
      let (owner, h10) = require-Ended _ _ _ s s' r h9 (omega arith) in
      let h11 = gets-Ended _ _ s s' r h10 in
      let (alone, h12) = require-Ended _ _ _ s s' r h11 (omega arith) in
      let h13 = gets-Ended _ _ s s' r h12 in
      let (unbound, h14) = require-Ended _ _ _ s s' r h13 (omega arith) in
      let written = insert-Ended mo _ s s' r h14 created in
      let (stored, offers, same_names, same_transfers) = inserted s.db s'.db _ written in
      (
        _,
        record {
          tags = tags;
          price = price;
          extracted = extracted;
          tagged = extract_offer_tags-Tagged event tags extracted;
          id = refl;
          json = refl;
          seller = refl;
          name = refl;
          buyer = refl;
          domain = eq-of-text_eq tags.domain s.cfg.domain domain;
          address = refl;
          priced = priced;
          stored_price = refl;
          expires = expires;
          term = term;
          name_shape = name_shape;
          buyer_shape = buyer_shape;
          payable = payable;
          is_new = refl;
        },
        record {
          owned = owner_found (mo.fails at_lookup) _ event.pubkey owner;
          alone = λ q. read_false _ _ q alone;
          unbound = λ q. read_false _ _ q unbound;
          stored = stored;
          offers = offers;
          same_names = same_names;
          same_transfers = same_transfers;
        },
      )
