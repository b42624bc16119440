-- ===== src/Transfer/Reading.antt =====
-- What a read of an offer answers.
use goblin_nip05d.Transfer.Expiry.{expire, marked-found}
use goblin_nip05d.App.Passes.{
  gets-passes, modify-passes, next-passes, require-passes, unwrap_or-passes,
}
use goblin_nip05d.Transfer.Lodge.{Lodged, lodge_offer-Lodged}
use goblin_nip05d.Registry.Success.{query-answers}
use goblin_nip05d.Platform.{Json, Platform}
use goblin_nip05d.Prelude.Int.{leb_ℤ, ℤ}
use goblin_nip05d.App.Moment.{Moment, allow_read, query, unix_now, execute}
use goblin_nip05d.Pages.Answers.{CanRead, pure-run}
use goblin_nip05d.ClaimTxn.{Site, at_get_offer, at_mark, at_reread}
use goblin_nip05d.Text.{Text}
use goblin_nip05d.Prelude.{
  Bool-cases, [], false, if◌then◌else◌, inl, inr, not, refl, some, ◌||◌, ◌∷◌, ◌≡◌, List, ap, arith,
  ℕ, ◌∙◌,
}
use goblin_nip05d.Transfer.{read_offer, settle_expiry, status_text, tip, lodge_offer}
use goblin_nip05d.Db.{OfferRow, Status, expired, get_offer, is_live, mark_offer_dead, live}
use goblin_nip05d.History.{after_exec}
use goblin_nip05d.App.{◌>>=◌, App, Handler, Response, parsed, run, text, gets, modify, next, pure}
use mathlib.Core.Path.{subst}

-- The status that a reader is shown: a live offer after its expiration is expired.
abbrev pub shown : OfferRow → ℤ → Status
shown o now = if not (is_live o.status) || leb_ℤ now o.expiration then o.status else expired

-- The offer's event and its status.
abbrev pub offer_answer : Text → Status → Response
offer_answer json status = record {
  status = 200;
  body = ("offer", parsed json) ∷ ("status", text (status_text status)) ∷ [];
}

module _ (mo : Moment) where
  expired_state : App → OfferRow → ℤ → App
  expired_state s o now = record s {
    db = after_exec s.db (mark_offer_dead s.db o.offer_id expired (tip mo) now);
  }

  settled-late :
      (o : OfferRow) (now : ℤ) (s : App)
      → ((site : Site) → mo.fails site ≡ false)
      → not (is_live o.status) || leb_ℤ now o.expiration ≡ false
      → get_offer (expired_state s o now).db o.offer_id ≡ some (expire (tip mo) now o)
      → settle_expiry mo o now s ≡ next (expire (tip mo) now o) (expired_state s o now)
  unfolding settle_expiry pure execute query ◌>>=◌ modify gets expired_state mark_offer_dead
  settled-late o now s works p h = rw (p, works at_mark, works at_reread, h) refl

  expiry-passes :
      (o : OfferRow) (now : ℤ) (k : OfferRow → Handler Response) (s : App) (id : Text)
      → ((site : Site) → mo.fails site ≡ false)
      → get_offer s.db id ≡ some o
      → (q : OfferRow) × (t : App) × (run (settle_expiry mo o now >>= k) s ≡ run (k q) t)
        × (q.event_json ≡ o.event_json)
        × (q.status ≡ shown o now)
  unfolding settle_expiry pure expired_state
  expiry-passes o now k s id works h =
      elim (Bool-cases (not (is_live o.status) || leb_ℤ now o.expiration)) [
        | inl p ↦ (o, s, next-passes (settle_expiry mo o now) k o s s (rw p refl), refl, rw p refl)
        | inr p ↦ (
          expire (tip mo) now o,
          expired_state s o now,
          next-passes (settle_expiry mo o now) k _ s _
              (settled-late o now s works p (marked-found s.db id (tip mo) now o h (ground arith))),
          refl,
          rw p refl,
        )
      ]

  -- A read that the rate limit admits, where no query fails, answers with the event and the status of
  -- the offer that is stored under the id; a live offer after its expiration is shown as expired.
  pub read_offer-run :
      (id : Text) (s : App) (o : OfferRow)
      → CanRead mo s
      → get_offer s.db id ≡ some o
      → (run (read_offer mo id) s).1 ≡ offer_answer o.event_json (shown o (unix_now mo))
  unfolding read_offer allow_read query
  read_offer-run id s o c h =
      let (q, t, ran, json, status) = expiry-passes o (unix_now mo) _ _ id c.no_fault h in
      ap (λ x. x.1)
        (modify-passes _ _ _
          ∙ require-passes _ _ _ _ c.in_rate
          ∙ gets-passes _ _ _ (query-answers _ _ _ (c.no_fault at_get_offer) h)
          ∙ unwrap_or-passes _ _ _ _ refl
          ∙ ran)
      ∙ pure-run _ t
      ∙ (λ i. offer_answer (json i) (status i))

module _ (pf : Platform) (js : Json) where
  -- An offer that has been lodged with 201 is read back: under its event's id, a read that the rate
  -- limit admits and whose query does not fail answers with the event, as it was written out, and with
  -- the status live up to its expiration, and expired after it.
  pub lodge_offer-Read :
      (mo mo' : Moment) (body : List ℕ) (s s' : App) (r : Response)
      → run (lodge_offer mo pf js body) s ≡ (s', r)
      → r.status ≡ 201
      → CanRead mo' s'
      → (l : Lodged mo pf js body s s') × ((run (read_offer mo' l.event.id) s').1
          ≡ offer_answer
              (pf.event_as_json l.event)
              (if leb_ℤ (unix_now mo') l.row.expiration then live else expired))
  lodge_offer-Read mo mo' body s s' r e created c =
      let l = lodge_offer-Lodged mo pf js body s s' r e created in
      let stored = subst (λ i. get_offer s'.db i ≡ some l.row) l.is_row.id l.placed.stored in
      (
        l,
        read_offer-run mo' l.event.id s' l.row c stored ∙ (λ i.
            offer_answer (l.is_row.json i) (shown-live l.row (unix_now mo') l.is_row.is_new i)),
      )
    where
      shown-live :
          (o : OfferRow) (now : ℤ)
          → o.status ≡ live
          → shown o now ≡ (if leb_ℤ now o.expiration then live else expired)
      shown-live o now h = ground arith
