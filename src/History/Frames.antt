-- ===== src/History/Frames.antt =====
-- Which tables a statement leaves alone.
use goblin_nip05d.Prelude.Int.{ℤ}
use goblin_nip05d.Db.Keys.{Leaves}
use goblin_nip05d.Text.{Text}
use goblin_nip05d.Prelude.{Bool-cases, Option, Option-cases, any, find, inl, inr, refl, ◌≡◌}
use goblin_nip05d.Db.{
  Db, OfferRow, Status, active_of, insert_offer, is_active, mark_offer_dead, named, offer_at,
  release_name, set_status, upsert_name,
}

-- A statement on the names.
pub record OnNames (db db' : Db) : Type 0 where
  pub offers : db'.offers ≡ db.offers
  pub transfers : db'.transfers ≡ db.transfers

-- A statement on the offers.
pub record OnOffers (db db' : Db) : Type 0 where
  pub names : db'.names ≡ db.names
  pub transfers : db'.transfers ≡ db.transfers

pub upsert_name-OnNames :
    (db : Db) (name pk : Text) (now : ℤ) → Leaves (OnNames db) (upsert_name db name pk now)
unfolding upsert_name
upsert_name-OnNames db name pk now = elim (Option-cases (find (named name) db.names)) [
  | inl e ↦ elim (Bool-cases (any (active_of pk) db.names)) [
    | inl t ↦ rw (e, t, upsert_name) tt
    | inr t ↦ rw (e, t, upsert_name) (record { offers = refl; transfers = refl })
  ]
  | inr (r, e) ↦ elim (Bool-cases (is_active r)) [
    | inl a ↦ rw (e, a, upsert_name) (record { offers = refl; transfers = refl })
    | inr a ↦ elim (Bool-cases (any (active_of pk) db.names)) [
      | inl t ↦ rw (e, a, t, upsert_name) tt
      | inr t ↦ rw (e, a, t, upsert_name) (record { offers = refl; transfers = refl })
    ]
  ]
]

pub release_name-OnNames :
    (db : Db) (name : Text) (now : ℤ) → Leaves (OnNames db) (release_name db name now)
unfolding release_name
release_name-OnNames db name now = record { offers = refl; transfers = refl }

pub insert_offer-OnOffers : (db : Db) (o : OfferRow) → Leaves (OnOffers db) (insert_offer db o)
unfolding insert_offer
insert_offer-OnOffers db o = elim (Bool-cases (any (offer_at o.offer_id) db.offers)) [
  | inl e ↦ rw (e, insert_offer) tt
  | inr e ↦ rw (e, insert_offer) (record { names = refl; transfers = refl })
]

pub mark_offer_dead-OnOffers :
    (db : Db) (id : Text) (status : Status) (height : Option ℤ) (now : ℤ)
    → Leaves (OnOffers db) (mark_offer_dead db id status height now)
unfolding mark_offer_dead
mark_offer_dead-OnOffers db id status height now = record { names = refl; transfers = refl }

pub set_status-OnOffers :
    (db : Db) (id : Text) (status : Status) → Leaves (OnOffers db) (set_status db id status)
unfolding set_status
set_status-OnOffers db id status = record { names = refl; transfers = refl }
