-- ===== src/History/Races.antt =====
-- A claim that commits between the two steps of a release: `unregister` of src/handlers/registry.rs looks
-- the owner up, gives the lock of the database back, and then runs an UPDATE that names no owner.
use goblin_nip05d.Prelude.Int.{ℤ}
use goblin_nip05d.ClaimTxn.Settles.{run_claim_txn-Settles}
use goblin_nip05d.Db.Keys.{IsKeyed}
use goblin_nip05d.Db.Lookup.{lookup-release_name}
use goblin_nip05d.ClaimTxn.{Faults, ok, run_claim_txn}
use goblin_nip05d.Text.{Text}
use goblin_nip05d.Prelude.{Option, none, refl, some, ◌∙◌, ◌≡◌}
use goblin_nip05d.Db.{Db, OfferRow, lookup, release_name, transfer_for_offer}
use goblin_nip05d.History.{apply, exec, free}

freed :
    (db : Db) (name : Text) (now : ℤ)
    → (lookup (apply (free name now) db) name ≡ none)
      × ((apply (free name now) db).transfers ≡ db.transfers)
unfolding apply exec release_name
freed db name now = ((lookup-release_name db name now).0, refl)

same-transfer :
    (db db' : Db) (id : Text)
    → db'.transfers ≡ db.transfers
    → transfer_for_offer db' id ≡ transfer_for_offer db id
unfolding transfer_for_offer
same-transfer db db' id e = rw e refl

-- In a database with unique keys: when the seller has passed the owner check of a release and a claim of
-- the name then commits, the name is the buyer's; when the UPDATE of the release runs after that, it
-- takes the name from the buyer, while the transfer stays recorded as made to the buyer.
pub release-after-settlement :
    (fails : Faults) (db db' : Db) (o : OfferRow) (excess : Text) (height : Option ℤ)
    (now later : ℤ)
    → IsKeyed db
    → lookup db o.name ≡ some o.seller_pubkey
    → run_claim_txn fails db o excess height now ≡ ok db'
    → (lookup db' o.name ≡ some o.buyer_pubkey)
      × (lookup (apply (free o.name later) db') o.name ≡ none)
      × (transfer_for_offer (apply (free o.name later) db') o.offer_id
          ≡ some (excess, o.name, o.buyer_pubkey))
release-after-settlement fails db db' o excess height now later v owned h =
    let done = run_claim_txn-Settles fails db o excess height now db' v h in
    let (gone, same) = freed db' o.name later in
    (
      done.moved,
      gone,
      same-transfer db' (apply (free o.name later) db') o.offer_id same ∙ done.taken,
    )
