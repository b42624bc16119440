-- ===== src/Transfer/Lodge.antt =====
-- What a lodging that answers 201 has checked and done.
use goblin_nip05d.Transfer.Place.{IsRow, Placed, lodge_event-Placed}
use goblin_nip05d.Registry.Register.{authenticate-Ended}
use goblin_nip05d.Text.Equality.{eq-of-text_eq}
use goblin_nip05d.App.Moment.{Moment, allow_write, auth_fresh}
use goblin_nip05d.Auth.{authorized, verify_nip98, AuthResult}
use goblin_nip05d.Text.{Text, lit}
use goblin_nip05d.Prelude.{List, arith, some, true, ℕ, ◌==◌, ◌≡◌}
use goblin_nip05d.Transfer.{offer_kind, lodge_offer}
use goblin_nip05d.Platform.{Event, Json, Platform}
use goblin_nip05d.Db.{OfferRow}
use goblin_nip05d.App.{App, Response, run, err}
use goblin_nip05d.App.Rules.{gets-Ended, require-Ended, unwrap_or-Ended, modify-Ended}

pub signed_by :
    (a : AuthResult (Text × Text)) (pk key id : Text)
    → a ≡ authorized (pk, id)
    → key ≡ pk
    → a ≡ authorized (key, id)
signed_by a pk key id e h = rw h e

module _ (mo : Moment) (pf : Platform) (js : Json) where
  open js use {from_slice, get, to_string}

  -- The event is the request's offer, of the right kind and signed by the key that signed the request.
  pub record IsOffer (body : List ℕ) (s : App) (event : Event) (auth_id : Text) : Type 1 where
    pub req : js.Value
    pub offer_val : js.Value
    pub asked : from_slice body ≡ some req
    pub has_offer : get req (lit "offer") ≡ some offer_val
    pub parsed : pf.event_from_json (to_string offer_val) ≡ some event
    pub verified : pf.event_verify event ≡ true
    pub kind : (event.kind == offer_kind) ≡ true
    pub signed :
        verify_nip98 pf mo.auth_time mo.headers
          (lit "POST")
          (lit "/api/v1/transfer/offer")
          body
          s.cfg.base_url
          s.cfg.auth_max_age_secs
        ≡ authorized (event.pubkey, auth_id)

  pub record Lodged (body : List ℕ) (s s' : App) : Type 1 where
    pub event : Event
    pub auth_id : Text
    pub row : OfferRow
    pub is_offer : IsOffer body s event auth_id
    pub is_row : IsRow mo pf s.cfg event row
    pub placed : Placed mo pf event row s.db s'.db

  -- A lodging that answers 201 carries an offer event of kind 3402 that is verified and signed by the
  -- key that signed the request. Each of its six values stands in a tag of the event under its own key;
  -- the stored row has the event's id, JSON and signer, the name of the name tag, the lower-cased
  -- buyer of the p tag, the price of the price tag, the normalized address of the proof_address tag and
  -- the time of the expiration tag, and the domain tag is the server's domain. The name and the buyer have
  -- the right form, the address decodes, and the expiration is within the allowed term; the seller owned
  -- the name, and, where the reads did not fail, there was no live offer for the name or with the
  -- address; the offer is read back as lodged, and no other offer, name or transfer has changed.
  pub lodge_offer-Lodged :
      (body : List ℕ) (s s' : App) (r : Response)
      → run (lodge_offer mo pf js body) s ≡ (s', r)
      → r.status ≡ 201
      → Lodged body s s'
  unfolding lodge_offer allow_write auth_fresh err
  lodge_offer-Lodged body s s' r e created =
      let h1 = modify-Ended _ _ s s' r e in
      let (_, h2) = require-Ended _ _ _ _ s' r h1 (omega arith) in
      let h3 = gets-Ended _ _ _ s' r h2 in
      let ((pubkey, id), signed, h4) = authenticate-Ended _ _ _ s' r h3 (omega arith) in
      let h5 = modify-Ended _ _ _ s' r h4 in
      let (_, h6) = require-Ended _ _ _ _ s' r h5 (omega arith) in
      let (req, asked, h7) = unwrap_or-Ended _ _ _ _ s' r h6 (omega arith) in
      let (offer_val, has_offer, h8) = unwrap_or-Ended _ _ _ _ s' r h7 (omega arith) in
      let (event, parsed, h9) = unwrap_or-Ended _ _ _ _ s' r h8 (omega arith) in
      let (verified, h10) = require-Ended _ _ _ _ s' r h9 (omega arith) in
      let (kind, h11) = require-Ended _ _ _ _ s' r h10 (omega arith) in
      let (own, h12) = require-Ended _ _ _ _ s' r h11 (omega arith) in
      let (row, is_row, placed) = lodge_event-Placed mo pf event _ s' r h12 created in
      record {
        event = event;
        auth_id = id;
        row = row;
        is_offer = record {
          req = req;
          offer_val = offer_val;
          asked = asked;
          has_offer = has_offer;
          parsed = parsed;
          verified = verified;
          kind = kind;
          signed =
              signed_by _ pubkey event.pubkey id signed (eq-of-text_eq event.pubkey pubkey own);
        };
        is_row = is_row;
        placed = placed;
      }
