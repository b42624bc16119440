-- ===== src/Transfer.antt =====
-- src/handlers/transfer.rs: lodging, reading and revoking an offer. The claim stands in Claim.
pub mod Claim
pub mod Expiry
pub mod Payment
pub mod Steps
pub mod Tags
pub mod Paid
pub mod Sound
pub mod Settling
pub mod Success
pub mod Lodging
pub mod Invariant
pub mod Place
pub mod Lodge
pub mod Revoke
pub mod Reading
use goblin_nip05d.Text.Number.{parse_i64, parse_u64}
use goblin_nip05d.Prelude.Int.{cast_i64, leb_ℤ, ltb_ℤ, wrap_i64, ℤ, ◌+ℤ◌}
use goblin_nip05d.App.Moment.{
  Moment, Written, allow_read, allow_write, auth_fresh, execute, failure, query, query_any, rows,
  unix_now, violation,
}
use goblin_nip05d.Auth.Replay.{replayed}
use goblin_nip05d.Registry.{authenticate}
use goblin_nip05d.Proof.{decode_grin_address, normalize_grin_address}
use goblin_nip05d.ClaimTxn.{
  at_get_offer, at_insert, at_live_address, at_live_name, at_lookup, at_mark, at_reread, at_revoke,
}
use goblin_nip05d.Auth.{verify_nip98}
use goblin_nip05d.Text.{Text, lit, text_eq, trim}
use goblin_nip05d.Prelude.{
  Bool, List, Option, [], false, get_elem?, if◌then◌else◌, is_some, map, none, not, some, true, ℕ,
  ◌++◌, ◌==◌, ◌||◌, ◌∷◌,
}
use goblin_nip05d.Config.{invalid, Config}
use goblin_nip05d.Platform.{Event, Json, Platform}
use goblin_nip05d.Names.{valid_name, valid_pubkey_hex}
use goblin_nip05d.Db.{
  OfferRow, Status, consumed, expired, get_offer, insert_offer, is_live, live, live_offer_binding,
  live_offer_for_name, lookup, mark_offer_dead, revoked, set_status,
}
use mathlib.Core.Option
use goblin_nip05d.App.{
  ◌>>=◌, ◌>>◌, Handler, Response, err, gets, int, parsed, pure, require, text, unwrap_or,
}

-- `OFFER_KIND`
abbrev pub offer_kind : ℕ
offer_kind = 3402

-- The six variables of the loop over the tags.
pub record TagDraft : Type 0 where
  pub name : Option Text
  pub domain : Option Text
  pub buyer : Option Text
  pub price : Option Text
  pub proof_address : Option Text
  pub expiration : Option Text

pub record OfferTags : Type 0 where
  pub name : Text
  pub domain : Text
  pub buyer : Text
  pub price : Text
  pub proof_address : Text
  pub expiration : Text

abbrev pub no_tags : TagDraft
no_tags = record {
  name = none;
  domain = none;
  buyer = none;
  price = none;
  proof_address = none;
  expiration = none;
}

-- One round of the loop: a later tag replaces an earlier one, also by `None`.
unfoldable pub draft_tag : List Text → TagDraft → TagDraft
draft_tag [] d = d
draft_tag (key ∷ rest) d =
    let val = get_elem? rest 0 in
    if text_eq key (lit "name")
    then record d { name = val }
    else if text_eq key (lit "domain")
    then record d { domain = val }
    else if text_eq key (lit "p")
    then record d { buyer = val }
    else if text_eq key (lit "price")
    then record d { price = val }
    else if text_eq key (lit "proof_address")
    then record d { proof_address = val }
    else if text_eq key (lit "expiration")
    then record d { expiration = val }
    else d

unfoldable pub draft_tags : List (List Text) → TagDraft → TagDraft
draft_tags [] d = d
draft_tags (t ∷ ts) d = draft_tags ts (draft_tag t d)

unfoldable pub complete : TagDraft → Option OfferTags
complete d = elim d.name [
  | none ↦ none
  | some name ↦ elim d.domain [
    | none ↦ none
    | some domain ↦ elim d.buyer [
      | none ↦ none
      | some buyer ↦ elim d.price [
        | none ↦ none
        | some price ↦ elim d.proof_address [
          | none ↦ none
          | some proof_address ↦ elim d.expiration [
            | none ↦ none
            | some expiration ↦ some (record {
              name = name;
              domain = domain;
              buyer = buyer;
              price = price;
              proof_address = proof_address;
              expiration = expiration;
            })
          ]
        ]
      ]
    ]
  ]
]

unfoldable pub extract_offer_tags : Event → Option OfferTags
unfolding complete
extract_offer_tags event = complete (draft_tags event.tags no_tags)

abbrev pub status_is : Status → Status → Bool
status_is live live = true
status_is consumed consumed = true
status_is revoked revoked = true
status_is expired expired = true
status_is _ _ = false

unfoldable pub status_text : Status → Text
status_text live = lit "live"
status_text consumed = lit "consumed"
status_text revoked = lit "revoked"
status_text expired = lit "expired"

-- The response to an insertion; a constraint means that the same offer id is already lodged.
unfoldable pub lodge_reply : Text → Text → ℤ → Written → Response
unfolding err
lodge_reply offer_id name expiration (rows n) = record {
  status = 201;
  body = ("offer_id", text offer_id) ∷ ("name", text name) ∷ ("expires_at", int expiration) ∷ [];
}
lodge_reply offer_id name expiration violation = err 409 (lit "offer_exists")
lodge_reply offer_id name expiration failure = err 500 (lit "db error")

unfoldable pub revoked_reply : Text → Response
revoked_reply offer_id = record {
  status = 200;
  body = ("offer_id", text offer_id) ∷ ("status", text (lit "revoked")) ∷ [];
}

-- `match &app.node { Some(node) => node.tip_height().await.ok()…, None => None }`
unfoldable pub tip : Moment → Option ℤ
tip mo = elim mo.node [ none ↦ none | some node ↦ Option.map cast_i64 node.tip_height ]

-- `lookup(name).as_deref() == Some(seller)`
unfoldable pub is_owner : Option Text → Text → Bool
is_owner none seller = false
is_owner (some owner) seller = text_eq owner seller

-- `expiration > now && expiration <= now + transfer_max_offer_ttl`, in i64.
unfoldable pub in_term : ℤ → ℤ → ℤ → Bool
in_term now ttl expiration = not (leb_ℤ expiration now || ltb_ℤ (wrap_i64 (now +ℤ ttl)) expiration)

module _ (mo : Moment) where
  unfoldable pub settle_expiry : OfferRow → ℤ → Handler OfferRow
  settle_expiry offer now =
      if not (is_live offer.status) || leb_ℤ now offer.expiration
      then pure offer
      else execute mo at_mark (λ db. mark_offer_dead db offer.offer_id expired (tip mo) now)
        >>= λ _. query mo at_reread (λ db. get_offer db offer.offer_id) >>= λ again.
            pure (elim again [ none ↦ offer | some o ↦ o ])

  unfoldable pub read_offer : Text → Handler Response
  unfolding status_text
  read_offer offer_id = do
    allowed ← allow_read mo
    require allowed (err 429 (lit "rate_limited"))
    found ← query mo at_get_offer (λ db. get_offer db offer_id)
    first ← unwrap_or found (err 404 (lit "not found"))
    offer ← settle_expiry first (unix_now mo)
    pure (record {
      status = 200;
      body = ("offer", parsed offer.event_json) ∷ ("status", text (status_text offer.status)) ∷ [];
    })

  -- A live offer dies with the chain tip; an expired one keeps its death record.
  unfoldable pub finish_revoke : OfferRow → Handler Written
  finish_revoke offer =
      if is_live offer.status
      then execute mo at_mark
          (λ db. mark_offer_dead db offer.offer_id revoked (tip mo) (unix_now mo))
      else execute mo at_revoke (λ db. set_status db offer.offer_id revoked)

  module _ (pf : Platform) where
    open pf use {event_from_json, event_verify, event_as_json, to_lowercase}

    unfoldable pub revoke_offer : Text → Handler Response
    revoke_offer offer_id = do
      allowed ← allow_write mo (lit "transfer")
      require allowed (err 429 (lit "rate_limited"))
      cfg ← gets (λ s. s.cfg)
      auth ← authenticate (
          verify_nip98 pf mo.auth_time mo.headers (lit "DELETE")
            (lit "/api/v1/transfer/offer/" ++ offer_id) [] cfg.base_url cfg.auth_max_age_secs)
      fresh ← auth_fresh mo auth.1
      require fresh (err 401 (lit "auth event replayed"))
      found ← query mo at_get_offer (λ db. get_offer db offer_id)
      offer ← unwrap_or found (err 404 (lit "not found"))
      require (text_eq auth.0 offer.seller_pubkey) (err 403 (lit "not the owner"))
      require (not (status_is offer.status consumed)) (err 409 (lit "offer_consumed"))
      require (not (status_is offer.status revoked)) (revoked_reply offer_id)
      _ ← finish_revoke offer
      pure (revoked_reply offer_id)

    -- The steps of `lodge_offer` from the tags on.
    unfoldable pub lodge_event : Config → Event → Handler Response
    lodge_event cfg event = do
      let seller = event.pubkey
      tags ← unwrap_or (extract_offer_tags event) (err 400 (lit "invalid offer"))
      let name = tags.name
      require (valid_name name cfg.name_min cfg.name_max) (err 400 (lit "invalid offer"))
      require (text_eq tags.domain cfg.domain) (err 400 (lit "invalid offer"))
      let buyer = to_lowercase tags.buyer
      require (valid_pubkey_hex buyer) (err 400 (lit "invalid offer"))
      price ← unwrap_or (parse_u64 (trim tags.price)) (err 400 (lit "invalid offer"))
      let proof_address = normalize_grin_address pf tags.proof_address
      require (is_some (decode_grin_address pf proof_address)) (err 400 (lit "invalid offer"))
      expiration ← unwrap_or (parse_i64 (trim tags.expiration)) (err 400 (lit "invalid offer"))
      let now = unix_now mo
      require (in_term now cfg.transfer_max_offer_ttl expiration) (err 400 (lit "invalid offer"))
      owner ← query mo at_lookup (λ db. lookup db name)
      require (is_owner owner seller) (err 403 (lit "not the owner"))
      taken ← query_any mo at_live_name (λ db. live_offer_for_name db name now)
      require (not taken) (err 409 (lit "offer_exists"))
      bound ← query_any mo at_live_address (λ db. live_offer_binding db proof_address now)
      require (not bound) (err 409 (lit "offer_ambiguous"))
      written ← execute mo at_insert (λ db. insert_offer db (record {
        offer_id = event.id;
        event_json = event_as_json event;
        name = name;
        seller_pubkey = seller;
        buyer_pubkey = buyer;
        price_nanogrin = cast_i64 price;
        proof_address = proof_address;
        expiration = expiration;
        status = live;
        end_height = none;
        state_changed_at = none;
        created_at = now;
      }))
      pure (lodge_reply event.id name expiration written)

    module _ (js : Json) where
      open js use {from_slice, get, to_string}

      unfoldable pub lodge_offer : List ℕ → Handler Response
      lodge_offer body = do
        allowed ← allow_write mo (lit "transfer")
        require allowed (err 429 (lit "rate_limited"))
        cfg ← gets (λ s. s.cfg)
        auth ← authenticate (
            verify_nip98 pf mo.auth_time mo.headers (lit "POST") (lit "/api/v1/transfer/offer") body
              cfg.base_url cfg.auth_max_age_secs)
        fresh ← auth_fresh mo auth.1
        require fresh (err 401 (lit "auth event replayed"))
        req ← unwrap_or (from_slice body) (err 400 (lit "invalid offer"))
        offer_val ← unwrap_or (get req (lit "offer")) (err 400 (lit "invalid offer"))
        event ← unwrap_or (event_from_json (to_string offer_val)) (err 400 (lit "invalid offer"))
        require (event_verify event) (err 400 (lit "invalid offer"))
        require (event.kind == offer_kind) (err 400 (lit "invalid offer"))
        require (text_eq event.pubkey auth.0)
            (err 401 (lit "auth pubkey does not match offer pubkey"))
        lodge_event cfg event
