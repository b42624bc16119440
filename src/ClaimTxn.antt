-- ===== src/ClaimTxn.antt =====
-- src/handlers/transfer.rs, `run_claim_txn`: the one transaction of a claim. A transaction that is
-- dropped is rolled back, so an error carries no database.
pub mod Outcome
pub mod Settles
pub mod Commits
use goblin_nip05d.Prelude.Int.{ℤ}
use goblin_nip05d.Text.{Text}
use goblin_nip05d.Prelude.{Bool, Option, false, not, true, ℕ, ◌==◌}
use goblin_nip05d.Db.{
  Db, Exec, OfferRow, TransferRow, changed, constraint, consumed, insert_transfer, reassign_name,
  set_status,
}

-- The places where SQLite can fail for a reason of its own (a full disk, a busy file); which of
-- them fail is an input of a request.
pub data Site : Type 0 where
  at_lookup at_name_of at_get_offer at_reread at_live_name at_live_address at_transfer : Site
  at_excess at_upsert at_release at_insert at_mark at_revoke at_begin at_reassign : Site
  at_record at_consume at_commit : Site

abbrev pub Faults : Type 0
Faults = Site → Bool

pub data TxErr : Type 0 where
  owner_changed buyer_has_name reused db_error : TxErr

pub data Tx {ℓ} (A : Type ℓ) : Type ℓ where
  ok : A → Tx A
  aborted : TxErr → Tx A

infixl 5 ◌>>=◌ ◌>>◌
unfoldable pub ◌>>=◌ {ℓ κ} : {A : Type ℓ} {B : Type κ} → Tx A → (A → Tx B) → Tx B
ok a >>= f = f a
aborted e >>= f = aborted e

abbrev pub ◌>>◌ {ℓ} : {B : Type ℓ} → Tx (Unit {0}) → Tx B → Tx B
m >> k = m >>= λ _. k

unfoldable pub demand : Bool → TxErr → Tx (Unit {0})
demand true e = ok tt
demand false e = aborted e

-- `tx.execute` with its two error arms: a constraint becomes `e`, any other failure `Db`.
unfoldable pub tx_execute : Bool → Exec → TxErr → Tx (ℕ × Db)
tx_execute true r e = aborted db_error
tx_execute false (changed n db) e = ok (n, db)
tx_execute false constraint e = aborted e

abbrev pub transfer_row : OfferRow → Text → Option ℤ → ℤ → TransferRow
transfer_row o excess_hex kernel_height now = record {
  offer_id = o.offer_id;
  name = o.name;
  seller_pubkey = o.seller_pubkey;
  buyer_pubkey = o.buyer_pubkey;
  price_nanogrin = o.price_nanogrin;
  kernel_excess = excess_hex;
  kernel_height = kernel_height;
  claimed_at = now;
}

unfoldable pub run_claim_txn : Faults → Db → OfferRow → Text → Option ℤ → ℤ → Tx Db
run_claim_txn fails db o excess_hex kernel_height now = do
  demand (not (fails at_begin)) db_error
  (updated, db1) ←
      tx_execute (fails at_reassign) (reassign_name db o.name o.buyer_pubkey now o.seller_pubkey)
        buyer_has_name
  demand (updated == 1) owner_changed
  (_, db2) ←
      tx_execute (fails at_record)
        (insert_transfer db1 (transfer_row o excess_hex kernel_height now)) reused
  (_, db3) ← tx_execute (fails at_consume) (set_status db2 o.offer_id consumed) db_error
  demand (not (fails at_commit)) db_error
  ok db3
