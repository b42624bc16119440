-- ===== src/Transfer/Revoke.antt =====
-- What a revocation that answers 200 has checked and done.
use goblin_nip05d.Text.Equality.{eq-of-text_eq}
use goblin_nip05d.Transfer.Lodge.{signed_by}
use goblin_nip05d.Registry.Register.{authenticate-Ended}
use goblin_nip05d.ClaimTxn.{at_mark, at_revoke, at_get_offer}
use goblin_nip05d.Auth.{authorized, verify_nip98}
use goblin_nip05d.Platform.{Platform}
use mathlib.Core.Path.{subst}
use goblin_nip05d.App.Moment.{Moment, unix_now, execute, allow_write, auth_fresh, query}
use goblin_nip05d.Db.Keys.{Leaves}
use goblin_nip05d.Transfer.{tip, finish_revoke, status_is, revoke_offer, revoked_reply}
use goblin_nip05d.Prelude.Int.{ℤ}
use goblin_nip05d.Text.{Text, lit}
use goblin_nip05d.Prelude.{
  Bool, List, Option, [], ap, arith, false, find, inl, inr, refl, some, true, update_where, ◌&&◌,
  ◌∷◌, ◌≡◌, ◌⊎◌, if◌then◌else◌, Bool-cases, ◌++◌, find-holds, none, not, sym, ◌∙◌,
}
use goblin_nip05d.Db.{
  OfferRow, is_live, live, offer_at, revoked, Db, Exec, Status, consumed, expired, get_offer,
  mark_offer_dead, set_status,
}
use mathlib.Core.Option
use goblin_nip05d.App.{◌>>=◌, ◌>>◌, App, Handler, Response, require, run, pure, err}
use goblin_nip05d.App.Rules.{Ended, gets-Ended, modify-Ended, require-Ended, unwrap_or-Ended}

-- A guard whose refusal has the status of the response is passed, or has ended the request.
require-cases :
    (b : Bool) (refusal : Response) (k : Handler Response) (s s' : App) (r : Response)
    → Ended (require b refusal >> k) s s' r
    → ((b ≡ true) × Ended k s s' r) ⊎ ((b ≡ false) × (s ≡ s'))
unfolding require ◌>>=◌ run
require-cases true refusal k s s' r e = inl (refl, e)
require-cases false refusal k s s' r e = inr (refl, ap (λ p. p.0) e)

-- The status after either statement, at the row that is found first.
marked :
    (id : Text) (height : Option ℤ) (now : ℤ) (os : List OfferRow)
    → Option.map (λ o. o.status) (find (offer_at id) os) ≡ some live
    → Option.map
        (λ o. o.status)
        (find (offer_at id) (
          update_where
            (λ o. offer_at id o && is_live o.status)
            (λ o. record o { status = revoked; end_height = height; state_changed_at = some now })
            os))
      ≡ some revoked
marked id height now [] h = absurd (cc)
marked id height now (o ∷ os) h = ground (arith, marked id height now os)

abbrev revoke_row : OfferRow → OfferRow
revoke_row o = record o { status = revoked }

flipped :
    (id : Text) (os : List OfferRow) {o : OfferRow}
    → find (offer_at id) os ≡ some o
    → find (offer_at id) (update_where (offer_at id) revoke_row os) ≡ some (revoke_row o)
flipped id [] h = absurd (cc)
flipped id (x ∷ os) {o} h = ground (arith, flipped id os {o = o})

abbrev pub status_of : Db → Text → Option Status
status_of db id = Option.map (λ o. o.status) (get_offer db id)

abbrev revoking : Moment → Db → OfferRow → Exec
revoking mo db offer =
    if is_live offer.status
    then mark_offer_dead db offer.offer_id revoked (tip mo) (unix_now mo)
    else set_status db offer.offer_id revoked

live_only : (t : Status) → is_live t ≡ true → t ≡ live
live_only live l = refl
live_only consumed l = absurd (cc)
live_only revoked l = absurd (cc)
live_only expired l = absurd (cc)

revoking-status :
    (mo : Moment) (db : Db) (offer : OfferRow)
    → get_offer db offer.offer_id ≡ some offer
    → Leaves (λ db'. status_of db' offer.offer_id ≡ some revoked) (revoking mo db offer)
unfolding mark_offer_dead set_status get_offer
revoking-status mo db offer h = go (is_live offer.status) refl
  where
    go :
        (b : Bool)
        → is_live offer.status ≡ b
        → Leaves
            (λ db'. status_of db' offer.offer_id ≡ some revoked)
            (if b
              then mark_offer_dead db offer.offer_id revoked (tip mo) (unix_now mo)
              else set_status db offer.offer_id revoked)
    go true l =
        marked offer.offer_id (tip mo) (unix_now mo) db.offers
          (rw h (ap some (live_only offer.status l)))
    go false l = ap (Option.map (λ o. o.status)) (flipped offer.offer_id db.offers h)

-- Where SQLite does not fail, the statement has run.
finish_revoke-Ended :
    (mo : Moment) (offer : OfferRow) (x : Response) (s s' : App) (r : Response) (P : Db → Type 0)
    → Ended (finish_revoke mo offer >>= λ _. pure x) s s' r
    → mo.fails at_mark ≡ false
    → mo.fails at_revoke ≡ false
    → Leaves P (revoking mo s.db offer)
    → P s'.db
unfolding finish_revoke execute ◌>>=◌ run pure mark_offer_dead set_status
finish_revoke-Ended mo offer x s s' r P e f g h = elim (Bool-cases (is_live offer.status)) [
  | inl l ↦ subst P (rw (l, f) at (ap (λ p. p.0.db) e)) (rw l at h)
  | inr l ↦ subst P (rw (l, g) at (ap (λ p. p.0.db) e)) (rw l at h)
]

query-found :
    (b : Bool) (o : Option OfferRow) {x : OfferRow} → (if b then none else o) ≡ some x → o ≡ some x
query-found true o e = absurd (cc)
query-found false o e = e

is_revoked : (t : Status) → not (status_is t revoked) ≡ false → t ≡ revoked
is_revoked live e = absurd (cc)
is_revoked consumed e = absurd (cc)
is_revoked revoked e = refl
is_revoked expired e = absurd (cc)

-- Whether the offer was revoked before or not, it is afterwards.
last_steps :
    (mo : Moment) (id : Text) (offer : OfferRow) (s s' : App) (r : Response)
    → get_offer s.db id ≡ some offer
    → mo.fails at_mark ≡ false
    → mo.fails at_revoke ≡ false
    → Ended
        (require (not (status_is offer.status revoked)) (revoked_reply id)
          >> (finish_revoke mo offer >>= λ _. pure (revoked_reply id)))
        s
        s'
        r
    → status_of s'.db id ≡ some revoked
unfolding get_offer
last_steps mo id offer s s' r found f g e =
    let own = eq-of-text_eq offer.offer_id id (find-holds (offer_at id) s.db.offers found) in
    elim (require-cases (not (status_is offer.status revoked)) (revoked_reply id) _ s s' r e) [
      | inl (_, h) ↦
          subst (λ key. status_of s'.db key ≡ some revoked) own
            (finish_revoke-Ended mo offer (revoked_reply id) s s' r
              (λ db. status_of db offer.offer_id ≡ some revoked) h f g
              (revoking-status mo s.db offer
                (subst (λ key. get_offer s.db key ≡ some offer) (sym own) found)))
      | inr (was, same) ↦
          subst (λ (t : App). status_of t.db id ≡ some revoked) same
            (ap (Option.map (λ o. o.status)) found ∙ ap some (is_revoked offer.status was))
    ]

module _ (mo : Moment) (pf : Platform) where
  -- The seller signed the request, for an offer that was not consumed.
  pub record Revoked (id : Text) (s s' : App) : Type 0 where
    pub offer : OfferRow
    pub auth_id : Text
    pub signed :
        verify_nip98 pf mo.auth_time mo.headers
          (lit "DELETE")
          (lit "/api/v1/transfer/offer/" ++ id)
          []
          s.cfg.base_url
          s.cfg.auth_max_age_secs
        ≡ authorized (offer.seller_pubkey, auth_id)
    pub found : get_offer s.db id ≡ some offer
    pub unspent : status_is offer.status consumed ≡ false
    pub done : status_of s'.db id ≡ some revoked

  -- Where SQLite does not fail on a change of an offer, a revocation that answers 200 was signed by the
  -- seller of the offer, which was not consumed, and leaves the offer revoked.
  pub revoke_offer-Revoked :
      (id : Text) (s s' : App) (r : Response)
      → mo.fails at_mark ≡ false
      → mo.fails at_revoke ≡ false
      → run (revoke_offer mo pf id) s ≡ (s', r)
      → r.status ≡ 200
      → Revoked id s s'
  unfolding revoke_offer allow_write auth_fresh query err
  revoke_offer-Revoked id s s' r f g e done =
      let h1 = modify-Ended _ _ s s' r e in
      let (_, h2) = require-Ended _ _ _ _ s' r h1 (omega arith) in
      let h3 = gets-Ended _ _ _ s' r h2 in
      let ((pubkey, auth_id), signed, h4) = authenticate-Ended _ _ _ s' r h3 (omega arith) in
      let h5 = modify-Ended _ _ _ s' r h4 in
      let (_, h6) = require-Ended _ _ _ _ s' r h5 (omega arith) in
      let h7 = gets-Ended _ _ _ s' r h6 in
      let (offer, found, h8) = unwrap_or-Ended _ _ _ _ s' r h7 (omega arith) in
      let (own, h9) = require-Ended _ _ _ _ s' r h8 (omega arith) in
      let (unspent, h10) = require-Ended _ _ _ _ s' r h9 (omega arith) in
      let read = query-found (mo.fails at_get_offer) (get_offer s.db id) found in
      record {
        offer = offer;
        auth_id = auth_id;
        signed =
            signed_by _ pubkey offer.seller_pubkey auth_id signed
              (sym (eq-of-text_eq pubkey offer.seller_pubkey own));
        found = read;
        unspent = ground arith;
        done = last_steps mo id offer _ s' r read f g h10;
      }
