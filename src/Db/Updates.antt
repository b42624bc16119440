-- ===== src/Db/Updates.antt =====
-- The other statements keep the keys unique.
use goblin_nip05d.Text.Equality.{text_eq_symm}
use goblin_nip05d.Prelude.Int.{ℤ}
use goblin_nip05d.Db.Keys.{
  Apart-owners, IsKeyed, Leaves, same_name, same_offer, same_owner, same_transfer,
}
use goblin_nip05d.Db.Apart.{All-of-any-false, Apart, Apart-update, update_where_none}
use goblin_nip05d.Text.{Text}
use goblin_nip05d.Prelude.{
  All, Bool, Bool-cases, List, Option, [], any, arith, false, if◌then◌else◌, inl, inr, not, refl,
  some, true, update_where, ◌&&◌, ◌∷◌, ◌≡◌,
}
use goblin_nip05d.Db.{
  Db, NameRow, OfferRow, Status, TransferRow, active_named, active_of, insert_offer,
  insert_transfer, is_live, mark_offer_dead, offer_at, owned_by, reassign_name, release_name,
  set_status,
}

-- A row that is released clashes with no row that it did not clash with.
release-owner :
    (p : NameRow → Bool) (now : ℤ) (r s : NameRow)
    → same_owner r s ≡ false
    → same_owner
        (if p r then record r { released_at = some now } else r)
        (if p s then record s { released_at = some now } else s)
      ≡ false
release-owner p now r s h = ground arith

same_name-update :
    (p : NameRow → Bool) (f : NameRow → NameRow)
    → ((r : NameRow) → (f r).name ≡ r.name)
    → (rs : List NameRow) → Apart same_name rs
    → Apart same_name (update_where p f rs)
same_name-update p f k = Apart-update same_name p f λ r s h. ground (arith, k r, k s)

-- Release keeps the keys unique.
pub release_name-IsKeyed :
    (db : Db) (name : Text) (now : ℤ) → IsKeyed db → Leaves IsKeyed (release_name db name now)
unfolding release_name
release_name-IsKeyed db name now v = record {
  names =
      same_name-update (active_named name) (λ r. record r { released_at = some now }) (λ r. refl)
        db.names v.names;
  owners =
      Apart-update same_owner (active_named name) (λ r. record r { released_at = some now })
        (release-owner (active_named name) now) db.names v.owners;
  offers = v.offers;
  transfers = v.transfers;
}

-- Reassignment to a buyer without another active name.
reassign-IsKeyed :
    {db : Db} (name buyer : Text) (now : ℤ) (seller : Text)
    → IsKeyed db
    → All (λ r. (not (owned_by name seller r) && active_of buyer r) ≡ false) db.names
    → IsKeyed (record db {
      names =
          update_where
            (owned_by name seller)
            (λ r. record r { pubkey = buyer; created_at = now })
            db.names;
    })
reassign-IsKeyed {db} name buyer now seller v free = record {
  names =
      same_name-update (owned_by name seller) (λ r. record r { pubkey = buyer; created_at = now })
        (λ r. refl) db.names v.names;
  owners =
      Apart-owners (owned_by name seller) (λ r. record r { pubkey = buyer; created_at = now }) name
        buyer (λ r. refl) (λ r h. ground arith) db.names v.names v.owners free;
  offers = v.offers;
  transfers = v.transfers;
}

none-owned :
    (name buyer seller : Text) (rs : List NameRow)
    → (any (owned_by name seller) rs
        && any (λ r. not (owned_by name seller r) && active_of buyer r) rs)
      ≡ false
    → any (owned_by name seller) rs ≡ true
    → All (λ r. (not (owned_by name seller r) && active_of buyer r) ≡ false) rs
none-owned name buyer seller rs h e =
    All-of-any-false (λ r. not (owned_by name seller r) && active_of buyer r) rs (ground arith)

-- The owner's update of a claim keeps the keys unique, whoever the buyer is.
pub reassign_name-IsKeyed :
    (db : Db) (name buyer : Text) (now : ℤ) (seller : Text)
    → IsKeyed db
    → Leaves IsKeyed (reassign_name db name buyer now seller)
unfolding reassign_name
reassign_name-IsKeyed db name buyer now seller v =
    let clash =
      any (owned_by name seller) db.names
      && any (λ r. not (owned_by name seller r) && active_of buyer r) db.names in
    elim (Bool-cases clash) [
      | inl e ↦ rw (e, reassign_name) tt
      | inr e ↦ elim (Bool-cases (any (owned_by name seller) db.names)) [
        | inl t ↦
            rw (e, reassign_name)
              (reassign-IsKeyed name buyer now seller v (none-owned name buyer seller db.names e t))
        | inr t ↦
            rw (e, reassign_name)
              (rw
                (update_where_none (owned_by name seller)
                  (λ r. record r { pubkey = buyer; created_at = now }) db.names
                  (All-of-any-false (owned_by name seller) db.names t))
                v)
      ]
    ]

-- A new offer has a new id.
pub insert_offer-IsKeyed :
    (db : Db) (o : OfferRow) → IsKeyed db → Leaves IsKeyed (insert_offer db o)
unfolding insert_offer
insert_offer-IsKeyed db o v = elim (Bool-cases (any (offer_at o.offer_id) db.offers)) [
  | inl e ↦ rw (e, insert_offer) tt
  | inr e ↦
      rw (e, insert_offer)
        (record {
          names = v.names;
          owners = v.owners;
          offers = (offers-apart o db.offers e, v.offers);
          transfers = v.transfers;
        })
]
  where
    offers-apart :
        (o : OfferRow) (os : List OfferRow)
        → any (offer_at o.offer_id) os ≡ false
        → All (λ p. same_offer o p ≡ false) os
    offers-apart o [] h = tt
    offers-apart o (p ∷ ps) h =
        (ground (arith, text_eq_symm o.offer_id p.offer_id), offers-apart o ps (ground arith))

same_offer-update :
    {db : Db} (p : OfferRow → Bool) (f : OfferRow → OfferRow)
    → ((o : OfferRow) → (f o).offer_id ≡ o.offer_id)
    → IsKeyed db
    → IsKeyed (record db { offers = update_where p f db.offers })
same_offer-update {db} p f k v = record {
  names = v.names;
  owners = v.owners;
  offers = Apart-update same_offer p f (λ o q h. ground (arith, k o, k q)) db.offers v.offers;
  transfers = v.transfers;
}

pub mark_offer_dead-IsKeyed :
    (db : Db) (id : Text) (status : Status) (height : Option ℤ) (now : ℤ)
    → IsKeyed db
    → Leaves IsKeyed (mark_offer_dead db id status height now)
unfolding mark_offer_dead
mark_offer_dead-IsKeyed db id status height now v =
    same_offer-update (λ o. offer_at id o && is_live o.status)
      (λ o. record o { status = status; end_height = height; state_changed_at = some now })
      (λ o. refl) v

pub set_status-IsKeyed :
    (db : Db) (id : Text) (status : Status) → IsKeyed db → Leaves IsKeyed (set_status db id status)
unfolding set_status
set_status-IsKeyed db id status v =
    same_offer-update (offer_at id) (λ o. record o { status = status }) (λ o. refl) v

-- A recorded transfer has a new offer and a new kernel excess.
pub insert_transfer-IsKeyed :
    (db : Db) (t : TransferRow) → IsKeyed db → Leaves IsKeyed (insert_transfer db t)
unfolding insert_transfer
insert_transfer-IsKeyed db t v = elim (Bool-cases (any (same_transfer t) db.transfers)) [
  | inl e ↦ rw (e, insert_transfer) tt
  | inr e ↦
      rw (e, insert_transfer)
        (record {
          names = v.names;
          owners = v.owners;
          offers = v.offers;
          transfers = (All-of-any-false (same_transfer t) db.transfers e, v.transfers);
        })
]
