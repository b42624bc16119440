-- ===== src/ClaimTxn/Outcome.antt =====
-- What a claim transaction that commits has done, and when it commits.
use goblin_nip05d.Db.Keys.{IsKeyed, Leaves}
use goblin_nip05d.Db.Updates.{insert_transfer-IsKeyed, reassign_name-IsKeyed, set_status-IsKeyed}
use goblin_nip05d.Prelude.Int.{ℤ}
use goblin_nip05d.ClaimTxn.{
  Faults, Tx, TxErr, aborted, at_begin, at_commit, db_error, ok, owner_changed, run_claim_txn,
  transfer_row, ◌>>◌, tx_execute, demand, ◌>>=◌,
}
use goblin_nip05d.Text.{Text}
use goblin_nip05d.Prelude.{Bool, Option, ap, false, not, refl, true, ℕ, ◌==◌, ◌≡◌, ==_iff, ◌∙◌}
use goblin_nip05d.Db.{
  Db, Exec, OfferRow, changed, constraint, consumed, insert_transfer, reassign_name, set_status,
}

-- The three statements of a committed transaction, each on the database that the one before left.
pub record Ran (db : Db) (o : OfferRow) (excess : Text) (height : Option ℤ) (now : ℤ) (db' : Db)
    : Type 0 where
  pub db1 : Db
  pub db2 : Db
  pub n : ℕ
  pub m : ℕ
  pub moves : reassign_name db o.name o.buyer_pubkey now o.seller_pubkey ≡ changed 1 db1
  pub records : insert_transfer db1 (transfer_row o excess height now) ≡ changed n db2
  pub spends : set_status db2 o.offer_id consumed ≡ changed m db'

bind-eq-ok :
    {A B : Type 0} (m : Tx A) (f : A → Tx B) {b : B}
    → (m >>= f) ≡ ok b
    → (a : A) × (m ≡ ok a) × (f a ≡ ok b)
unfolding ◌>>=◌
bind-eq-ok (ok a) f h = (a, refl, h)
bind-eq-ok (aborted e) f h = cc

demand-eq-ok :
    {B : Type 0} (c : Bool) (e : TxErr) (k : Tx B) {b : B}
    → (demand c e >> k) ≡ ok b
    → (c ≡ true) × (k ≡ ok b)
unfolding ◌>>=◌ demand
demand-eq-ok true e k h = (refl, h)
demand-eq-ok false e k h = cc

tx_execute-eq-ok :
    (fault : Bool) (r : Exec) (e : TxErr) {u : ℕ × Db}
    → tx_execute fault r e ≡ ok u
    → (fault ≡ false) × (r ≡ changed u.0 u.1)
unfolding tx_execute
tx_execute-eq-ok true r e h = cc
tx_execute-eq-ok false (changed n db) e {u} h = (refl, ap (λ t. pair t) h)
  where
    pair : Tx (ℕ × Db) → Exec
    pair (ok (n', d')) = changed n' d'
    pair (aborted x) = constraint
tx_execute-eq-ok false constraint e h = cc

pub run_claim_txn-Ran :
    (fails : Faults) (db : Db) (o : OfferRow) (excess : Text) (height : Option ℤ) (now : ℤ)
    {db' : Db}
    → run_claim_txn fails db o excess height now ≡ ok db'
    → Ran db o excess height now db'
unfolding run_claim_txn
run_claim_txn-Ran fails db o excess height now {db'} h =
    let (_, h0) = demand-eq-ok (not (fails at_begin)) db_error _ h in
    let (u1, e1, h1) = bind-eq-ok _ _ h0 in
    let (one, h2) = demand-eq-ok (u1.0 == 1) owner_changed _ h1 in
    let (u2, e2, h3) = bind-eq-ok _ _ h2 in
    let (u3, e3, h4) = bind-eq-ok _ _ h3 in
    let (_, h5) = demand-eq-ok (not (fails at_commit)) db_error _ h4 in
    record {
      db1 = u1.1;
      db2 = u2.1;
      n = u2.0;
      m = u3.0;
      moves = (tx_execute-eq-ok _ _ _ e1).1 ∙ ap (λ k. changed k u1.1) ((==_iff u1.0 1).0 one);
      records = (tx_execute-eq-ok _ _ _ e2).1;
      spends = (tx_execute-eq-ok _ _ _ e3).1 ∙ ap (changed u3.0) (cc h5);
    }

pub Leaves-at :
    (P : Db → Type 0) (r : Exec) {n : ℕ} {db : Db} → r ≡ changed n db → Leaves P r → P db
Leaves-at P r e h = rw e at h

-- A committed claim keeps the keys unique.
pub run_claim_txn-IsKeyed :
    (fails : Faults) (db : Db) (o : OfferRow) (excess : Text) (height : Option ℤ) (now : ℤ)
    (db' : Db)
    → IsKeyed db
    → run_claim_txn fails db o excess height now ≡ ok db'
    → IsKeyed db'
run_claim_txn-IsKeyed fails db o excess height now db' v h =
    let r = run_claim_txn-Ran fails db o excess height now h in
    let v1 =
      Leaves-at IsKeyed _ r.moves
        (reassign_name-IsKeyed db o.name o.buyer_pubkey now o.seller_pubkey v) in
    let v2 =
      Leaves-at IsKeyed _ r.records
        (insert_transfer-IsKeyed r.db1 (transfer_row o excess height now) v1) in
    Leaves-at IsKeyed _ r.spends (set_status-IsKeyed r.db2 o.offer_id consumed v2)
