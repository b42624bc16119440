-- ===== src/Transfer/Lodging.antt =====
-- When a lodging succeeds.
use goblin_nip05d.Text.Number.{parse_i64, parse_u64}
use goblin_nip05d.Text.Equality.{text_eq-of-eq, text_eq_refl}
use goblin_nip05d.Prelude.Int.{cast_i64, ℤ}
use goblin_nip05d.App.Moment.{
  Moment, allow_write, auth_fresh, client_ip, execute, query, query_any, rows, unix_now,
}
use goblin_nip05d.App.Passes.{gets-passes, modify-passes, require-passes, unwrap_or-passes}
use goblin_nip05d.Transfer.Settling.{is_owner_self, query_any-answers}
use goblin_nip05d.Registry.Success.{authenticate-passes, query-answers}
use goblin_nip05d.Proof.{decode_grin_address, normalize_grin_address}
use goblin_nip05d.ClaimTxn.{Site, at_insert, at_live_address, at_live_name, at_lookup}
use goblin_nip05d.RateLimit.{allow, auth_event_fresh}
use goblin_nip05d.Auth.{authorized, verify_nip98}
use goblin_nip05d.Text.{Text, lit, trim}
use goblin_nip05d.Prelude.{
  List, false, find-none, is_some, none, refl, some, true, ℕ, ◌==◌, ◌∙◌, ◌∷◌, ◌≡◌,
}
use goblin_nip05d.Transfer.{
  OfferTags, extract_offer_tags, in_term, lodge_event, lodge_offer, lodge_reply, offer_kind,
}
use goblin_nip05d.Platform.{Event, Json, Platform}
use goblin_nip05d.Names.{valid_name, valid_pubkey_hex}
use goblin_nip05d.Db.{
  OfferRow, get_offer, insert_offer, live, live_offer_binding, live_offer_for_name, lookup,
  offer_at,
}
use goblin_nip05d.App.{◌>>=◌, App, modify, pure, run}

insert-passes :
    (mo : Moment) (o : OfferRow) (s : App)
    → mo.fails at_insert ≡ false
    → get_offer s.db o.offer_id ≡ none
    → run
        (execute mo at_insert (λ db. insert_offer db o) >>= λ w.
          pure (lodge_reply o.offer_id o.name o.expiration w))
        s
      ≡ (
        record s { db = record s.db { offers = o ∷ s.db.offers } },
        lodge_reply o.offer_id o.name o.expiration (rows 1),
      )
unfolding execute modify ◌>>=◌ run pure insert_offer get_offer
insert-passes mo o s works h = rw (works, find-none (offer_at o.offer_id) s.db.offers h) refl

module _ (mo : Moment) (pf : Platform) (js : Json) where
  open js use {from_slice, get, to_string}

  -- The row that an event asks for.
  pub lodged_row : Event → OfferTags → ℕ → ℤ → OfferRow
  lodged_row event tags price expiration = record {
    offer_id = event.id;
    event_json = pf.event_as_json event;
    name = tags.name;
    seller_pubkey = event.pubkey;
    buyer_pubkey = pf.to_lowercase tags.buyer;
    price_nanogrin = cast_i64 price;
    proof_address = normalize_grin_address pf tags.proof_address;
    expiration = expiration;
    status = live;
    end_height = none;
    state_changed_at = none;
    created_at = unix_now mo;
  }

  -- What a lodging needs: the rate limit admits it, its authorization is fresh and by the key that
  -- signed the offer, the offer's tags are right and in the allowed term, the seller holds the name,
  -- neither the name nor the address has a live offer, the id is new, and no statement fails.
  pub record CanLodge (body : List ℕ) (s : App) (event : Event) : Type 1 where
    pub auth_id : Text
    pub req : js.Value
    pub offer_val : js.Value
    pub tags : OfferTags
    pub price : ℕ
    pub expiration : ℤ
    pub in_rate :
        (allow s.rate
          (lit "transfer")
          (client_ip mo.headers)
          s.cfg.write_rate_max
          s.cfg.write_rate_window
          mo.allow_at).1
        ≡ true
    pub signed :
        verify_nip98 pf mo.auth_time mo.headers
          (lit "POST")
          (lit "/api/v1/transfer/offer")
          body
          s.cfg.base_url
          s.cfg.auth_max_age_secs
        ≡ authorized (event.pubkey, auth_id)
    pub first_use : (auth_event_fresh s.seen auth_id s.cfg.auth_max_age_secs mo.fresh_at).1 ≡ true
    pub asked : from_slice body ≡ some req
    pub has_offer : get req (lit "offer") ≡ some offer_val
    pub parsed : pf.event_from_json (to_string offer_val) ≡ some event
    pub verified : pf.event_verify event ≡ true
    pub kind : (event.kind == offer_kind) ≡ true
    pub extracted : extract_offer_tags event ≡ some tags
    pub name_shape : valid_name tags.name s.cfg.name_min s.cfg.name_max ≡ true
    pub domain : tags.domain ≡ s.cfg.domain
    pub buyer_shape : valid_pubkey_hex (pf.to_lowercase tags.buyer) ≡ true
    pub priced : parse_u64 (trim tags.price) ≡ some price
    pub payable :
        is_some (decode_grin_address pf (normalize_grin_address pf tags.proof_address)) ≡ true
    pub expires : parse_i64 (trim tags.expiration) ≡ some expiration
    pub term : in_term (unix_now mo) s.cfg.transfer_max_offer_ttl expiration ≡ true
    pub owned : lookup s.db tags.name ≡ some event.pubkey
    pub alone : live_offer_for_name s.db tags.name (unix_now mo) ≡ false
    pub unbound :
        live_offer_binding s.db (normalize_grin_address pf tags.proof_address) (unix_now mo) ≡ false
    pub is_new : get_offer s.db event.id ≡ none
    pub no_fault : (site : Site) → mo.fails site ≡ false

  -- A lodging goes through where the rate limit admits it, its authorization is fresh and by the key that
  -- signed the offer, the offer's tags are right and its expiration is within the allowed term, the
  -- seller holds the name, neither the name nor the address has a live offer, the id is new, and no
  -- statement fails: it answers 201, the offer is stored, live and with the terms of its event, and no
  -- name and no transfer changes.
  pub lodge_offer-Created :
      (body : List ℕ) (s : App) (event : Event)
      → (c : CanLodge body s event)
      → (t : App) × (run (lodge_offer mo pf js body) s
          ≡ (t, lodge_reply event.id c.tags.name c.expiration (rows 1)))
        × (get_offer t.db event.id ≡ some (lodged_row event c.tags c.price c.expiration))
        × (t.db.names ≡ s.db.names)
        × (t.db.transfers ≡ s.db.transfers)
  unfolding lodge_offer lodge_event allow_write auth_fresh query query_any lodged_row get_offer
  lodge_offer-Created body s event c = (
    _,
    modify-passes _ _ _
        ∙ require-passes _ _ _ _ c.in_rate
        ∙ gets-passes _ _ _ refl
        ∙ authenticate-passes _ _ _ c.signed
        ∙ modify-passes _ _ _
        ∙ require-passes _ _ _ _ c.first_use
        ∙ unwrap_or-passes _ _ _ _ c.asked
        ∙ unwrap_or-passes _ _ _ _ c.has_offer
        ∙ unwrap_or-passes _ _ _ _ c.parsed
        ∙ require-passes _ _ _ _ c.verified
        ∙ require-passes _ _ _ _ c.kind
        ∙ require-passes _ _ _ _ (text_eq_refl event.pubkey)
        ∙ unwrap_or-passes _ _ _ _ c.extracted
        ∙ require-passes _ _ _ _ c.name_shape
        ∙ require-passes _ _ _ _ (text_eq-of-eq c.domain)
        ∙ require-passes _ _ _ _ c.buyer_shape
        ∙ unwrap_or-passes _ _ _ _ c.priced
        ∙ require-passes _ _ _ _ c.payable
        ∙ unwrap_or-passes _ _ _ _ c.expires
        ∙ require-passes _ _ _ _ c.term
        ∙ gets-passes _ _ _ (query-answers _ _ _ (c.no_fault at_lookup) c.owned)
        ∙ require-passes _ _ _ _ (is_owner_self event.pubkey)
        ∙ gets-passes _ _ _ (query_any-answers _ _ (c.no_fault at_live_name) c.alone)
        ∙ require-passes _ _ _ _ refl
        ∙ gets-passes _ _ _ (query_any-answers _ _ (c.no_fault at_live_address) c.unbound)
        ∙ require-passes _ _ _ _ refl
        ∙ insert-passes mo (lodged_row event c.tags c.price c.expiration) _ (c.no_fault at_insert)
            c.is_new,
    rw (text_eq_refl event.id) refl,
    refl,
    refl,
  )
