-- ===== src/Db.antt =====
-- src/db.rs, the SQLite layer: the rows of the three tables, the queries of `App` and the statements that
-- the handlers execute (some of them stand in src/handlers/registry.rs and src/handlers/transfer.rs).
-- SQLite is read through the text of the statements and the constraints of `SCHEMA`: a statement
-- gives the number of changed rows and the new database, or fails on a constraint and changes
-- nothing. A table is a list of rows; the order plays no part, since the keys are unique.
pub mod Apart
pub mod Keys
pub mod Lookup
pub mod Holders
pub mod Upsert
pub mod Updates
use goblin_nip05d.Text.{Text, text_eq}
use goblin_nip05d.Prelude.{
  Bool, List, Option, [], any, count_if, false, find, if◌then◌else◌, is_none, map, none, not, some,
  true, update_where, ℕ, ◌&&◌, ◌||◌, ◌∷◌,
}
use goblin_nip05d.Prelude.Int.{ℤ, leb_ℤ}
use mathlib.Core.Option

pub record NameRow : Type 0 where
  pub name : Text
  pub pubkey : Text
  pub created_at : ℤ
  pub released_at : Option ℤ

-- The four texts of the column `status`.
pub data Status : Type 0 where
  live consumed revoked expired : Status

pub record OfferRow : Type 0 where
  pub offer_id : Text
  pub event_json : Text
  pub name : Text
  pub seller_pubkey : Text
  pub buyer_pubkey : Text
  pub price_nanogrin : ℤ
  pub proof_address : Text
  pub expiration : ℤ
  pub status : Status
  pub end_height : Option ℤ
  pub state_changed_at : Option ℤ
  pub created_at : ℤ

pub record TransferRow : Type 0 where
  pub offer_id : Text
  pub name : Text
  pub seller_pubkey : Text
  pub buyer_pubkey : Text
  pub price_nanogrin : ℤ
  pub kernel_excess : Text
  pub kernel_height : Option ℤ
  pub claimed_at : ℤ

pub record Db : Type 0 where
  pub names : List NameRow
  pub offers : List OfferRow
  pub transfers : List TransferRow

abbrev pub is_live : Status → Bool
is_live live = true
is_live _ = false

abbrev pub is_consumed : Status → Bool
is_consumed consumed = true
is_consumed _ = false

abbrev pub is_revoked : Status → Bool
is_revoked revoked = true
is_revoked _ = false

abbrev pub is_expired : Status → Bool
is_expired expired = true
is_expired _ = false

-- `released_at IS NULL`
abbrev pub is_active : NameRow → Bool
is_active r = is_none r.released_at

abbrev pub named : Text → NameRow → Bool
named name r = text_eq r.name name

abbrev pub active_named : Text → NameRow → Bool
active_named name r = text_eq r.name name && is_active r

abbrev pub active_of : Text → NameRow → Bool
active_of pubkey r = text_eq r.pubkey pubkey && is_active r

unfoldable pub lookup : Db → Text → Option Text
lookup db name = Option.map (λ r. r.pubkey) (find (active_named name) db.names)

unfoldable pub name_of : Db → Text → Option Text
name_of db pubkey = Option.map (λ r. r.name) (find (active_of pubkey) db.names)

abbrev pub offer_at : Text → OfferRow → Bool
offer_at id o = text_eq o.offer_id id

unfoldable pub get_offer : Db → Text → Option OfferRow
get_offer db id = find (offer_at id) db.offers

abbrev pub live_at : ℤ → OfferRow → Bool
live_at now o = is_live o.status && leb_ℤ now o.expiration

unfoldable pub live_offer_for_name : Db → Text → ℤ → Bool
live_offer_for_name db name now = any (λ o. text_eq o.name name && live_at now o) db.offers

unfoldable pub live_offer_binding : Db → Text → ℤ → Bool
live_offer_binding db proof_address now =
    any (λ o. text_eq o.proof_address proof_address && live_at now o) db.offers

unfoldable pub transfer_for_offer : Db → Text → Option (Text × Text × Text)
transfer_for_offer db id =
    Option.map (λ t. (t.kernel_excess, t.name, t.buyer_pubkey))
      (find (λ t. text_eq t.offer_id id) db.transfers)

unfoldable pub excess_used : Db → Text → Bool
excess_used db excess = any (λ t. text_eq t.kernel_excess excess) db.transfers

-- What a statement answers.
pub data Exec : Type 0 where
  changed : ℕ → Db → Exec
  constraint : Exec

-- `INSERT INTO names … ON CONFLICT(name) DO UPDATE … WHERE names.released_at IS NOT NULL`, under
-- the primary key and the partial unique index `idx_active_pubkey`.
unfoldable pub upsert_name : Db → Text → Text → ℤ → Exec
upsert_name db name pubkey now =
    let fresh : NameRow = record {
      name = name;
      pubkey = pubkey;
      created_at = now;
      released_at = none;
    } in
    elim (find (named name) db.names) [
      | none ↦
          if any (active_of pubkey) db.names
          then constraint
          else changed 1 (record db { names = fresh ∷ db.names })
      | some r ↦
          if is_active r
          then changed 0 db
          else if any (active_of pubkey) db.names
          then constraint
          else changed 1 (record db { names = update_where (named name) (λ _. fresh) db.names })
    ]

-- `UPDATE names SET released_at = ?2 WHERE name = ?1 AND released_at IS NULL`
unfoldable pub release_name : Db → Text → ℤ → Exec
release_name db name now = changed (count_if (active_named name) db.names) (record db {
  names = update_where (active_named name) (λ r. record r { released_at = some now }) db.names;
})

abbrev pub owned_by : Text → Text → NameRow → Bool
owned_by name seller r = active_named name r && text_eq r.pubkey seller

-- `UPDATE names SET pubkey = ?2, created_at = ?3 WHERE name = ?1 AND pubkey = ?4 AND released_at
-- IS NULL`: the index refuses the change if another active row has the new key.
unfoldable pub reassign_name : Db → Text → Text → ℤ → Text → Exec
reassign_name db name buyer now seller =
    if any (owned_by name seller) db.names
      && any (λ r. not (owned_by name seller r) && active_of buyer r) db.names
    then constraint
    else changed (count_if (owned_by name seller) db.names) (record db {
      names =
          update_where (owned_by name seller) (λ r. record r { pubkey = buyer; created_at = now })
            db.names;
    })

-- `INSERT INTO offers …`, under the primary key; the inserted row is live.
unfoldable pub insert_offer : Db → OfferRow → Exec
insert_offer db o =
    if any (offer_at o.offer_id) db.offers
    then constraint
    else changed 1 (record db { offers = o ∷ db.offers })

-- `UPDATE offers SET status = ?2, end_height = ?3, state_changed_at = ?4 WHERE offer_id = ?1 AND
-- status = 'live'`
unfoldable pub mark_offer_dead : Db → Text → Status → Option ℤ → ℤ → Exec
mark_offer_dead db id status end_height now =
    let hit = λ (o : OfferRow). offer_at id o && is_live o.status in
    changed (count_if hit db.offers) (record db {
      offers =
          update_where hit
            (λ o. record o {
              status = status;
              end_height = end_height;
              state_changed_at = some now;
            })
            db.offers;
    })

-- `UPDATE offers SET status = 'revoked' WHERE offer_id = ?1`, and the same with 'consumed'.
unfoldable pub set_status : Db → Text → Status → Exec
set_status db id status = changed (count_if (offer_at id) db.offers) (record db {
  offers = update_where (offer_at id) (λ o. record o { status = status }) db.offers;
})

-- `INSERT INTO transfers …`, under the primary key and `UNIQUE` on `kernel_excess`.
unfoldable pub insert_transfer : Db → TransferRow → Exec
insert_transfer db t =
    if any (λ u. text_eq u.offer_id t.offer_id || text_eq u.kernel_excess t.kernel_excess)
      db.transfers
    then constraint
    else changed 1 (record db { transfers = t ∷ db.transfers })

unfoldable pub empty_db : Db
empty_db = record { names = []; offers = []; transfers = [] }
