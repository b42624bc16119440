-- ===== src/History.antt =====
-- The statements that change the database, from src/handlers/registry.rs, src/handlers/transfer.rs and
-- src/db.rs, with any parameters, and sequences of them. Every interleaving of requests, whatever is
-- read in between, changes the database by such a sequence; a statement that fails changes nothing.
pub mod Steps
pub mod Keyed
pub mod Frames
pub mod Ledger
pub mod Offers
pub mod Holdings
pub mod Moves
pub mod Races
use goblin_nip05d.Prelude.Int.{ℤ}
use goblin_nip05d.ClaimTxn.{Faults, Tx, aborted, ok, run_claim_txn}
use goblin_nip05d.Text.{Text}
use goblin_nip05d.Prelude.{List, Option, [], ◌∷◌, ◌≡◌}
use goblin_nip05d.App.{App}
use goblin_nip05d.Db.{
  Db, Exec, OfferRow, Status, changed, constraint, expired, insert_offer, mark_offer_dead,
  release_name, revoked, set_status, upsert_name,
}

-- An offer dies by a revocation or by its expiry.
pub data Death : Type 0 where
  by_revocation by_expiry : Death

abbrev pub death_status : Death → Status
death_status by_revocation = revoked
death_status by_expiry = expired

pub data Statement : Type 0 where
  upsert : Text → Text → ℤ → Statement
  free : Text → ℤ → Statement
  insert : OfferRow → Statement
  mark : Text → Death → Option ℤ → ℤ → Statement
  revoke : Text → Statement
  settlement : Faults → OfferRow → Text → Option ℤ → ℤ → Statement

-- A transaction as one statement: an error is rolled back.
unfoldable pub committed : Db → Tx Db → Exec
committed db (ok db') = changed 1 db'
committed db (aborted e) = constraint

unfoldable pub exec : Statement → Db → Exec
exec (upsert name pubkey now) db = upsert_name db name pubkey now
exec (free name now) db = release_name db name now
exec (insert o) db = insert_offer db o
exec (mark id death height now) db = mark_offer_dead db id (death_status death) height now
exec (revoke id) db = set_status db id revoked
exec (settlement fails o excess height now) db =
    committed db (run_claim_txn fails db o excess height now)

abbrev pub after_exec : Db → Exec → Db
after_exec db (changed n db') = db'
after_exec db constraint = db

unfoldable pub apply : Statement → Db → Db
apply st db = after_exec db (exec st db)

-- The first statement first.
unfoldable pub replay : List Statement → Db → Db
replay [] db = db
replay (st ∷ sts) db = replay sts (apply st db)

-- A property of the state that every statement keeps and that is about the database and the
-- configuration.
pub record IsClosedFor (S : Statement → Type 0) (P : App → Type 0) : Type 0 where
  pub calm : (s t : App) → t.db ≡ s.db → t.cfg ≡ s.cfg → P s → P t
  pub statement : (s : App) (st : Statement) → S st → P s → P (record s { db = apply st s.db })

abbrev pub Any : Statement → Type 0
Any st = Unit

abbrev pub IsClosed : (App → Type 0) → Type 0
IsClosed P = IsClosedFor Any P

-- The statements of lodging, reading and revoking an offer.
abbrev pub OnOffer : Statement → Type 0
OnOffer (upsert name pubkey now) = ⊥
OnOffer (free name now) = ⊥
OnOffer (insert o) = Unit
OnOffer (mark id death height now) = Unit
OnOffer (revoke id) = Unit
OnOffer (settlement fails o excess height now) = ⊥
