-- ===== src/History/Keyed.antt =====
-- Every statement keeps the unique keys, so every sequence of them does.
use goblin_nip05d.ClaimTxn.Outcome.{run_claim_txn-IsKeyed}
use goblin_nip05d.Db.Keys.{IsKeyed, Leaves}
use goblin_nip05d.Db.Updates.{
  insert_offer-IsKeyed, mark_offer_dead-IsKeyed, release_name-IsKeyed, set_status-IsKeyed,
}
use goblin_nip05d.Db.Upsert.{upsert_name-IsKeyed}
use goblin_nip05d.ClaimTxn.{Tx, aborted, ok, run_claim_txn}
use goblin_nip05d.Prelude.{List, [], refl, sym, ◌∷◌, ◌≡◌}
use goblin_nip05d.Db.{Db, Exec, changed, constraint, revoked}
use goblin_nip05d.History.{
  IsClosed, Statement, after_exec, apply, committed, death_status, exec, insert, mark, replay,
  revoke, settlement, upsert, free,
}
use mathlib.Core.Path.{subst}

-- What holds after every commit holds of the transaction as a statement.
pub committed-Leaves :
    (P : Db → Type 0) (db : Db) (x : Tx Db)
    → ((db' : Db) → x ≡ ok db' → P db')
    → Leaves P (committed db x)
unfolding committed
committed-Leaves P db (ok db') k = k db' refl
committed-Leaves P db (aborted e) k = tt

exec-IsKeyed : (st : Statement) (db : Db) → IsKeyed db → Leaves IsKeyed (exec st db)
unfolding exec committed
exec-IsKeyed (upsert name pubkey now) db v = upsert_name-IsKeyed db name pubkey now v
exec-IsKeyed (free name now) db v = release_name-IsKeyed db name now v
exec-IsKeyed (insert o) db v = insert_offer-IsKeyed db o v
exec-IsKeyed (mark id death height now) db v =
    mark_offer_dead-IsKeyed db id (death_status death) height now v
exec-IsKeyed (revoke id) db v = set_status-IsKeyed db id revoked v
exec-IsKeyed (settlement fails o excess height now) db v =
    committed-Leaves IsKeyed db (run_claim_txn fails db o excess height now)
      (λ db' e. run_claim_txn-IsKeyed fails db o excess height now db' v e)

pub after_exec-Leaves :
    (P : Db → Type 0) (db : Db) (x : Exec) → P db → Leaves P x → P (after_exec db x)
after_exec-Leaves P db (changed n db') h k = k
after_exec-Leaves P db constraint h k = h

pub apply-IsKeyed : (st : Statement) (db : Db) → IsKeyed db → IsKeyed (apply st db)
unfolding apply
apply-IsKeyed st db v = after_exec-Leaves IsKeyed db (exec st db) v (exec-IsKeyed st db v)

-- Whatever statements run in whatever order, as the requests of any number of clients interleave them,
-- the unique keys of the schema hold after each.
pub replay-IsKeyed : (sts : List Statement) (db : Db) → IsKeyed db → IsKeyed (replay sts db)
unfolding replay
replay-IsKeyed [] db v = v
replay-IsKeyed (st ∷ sts) db v = replay-IsKeyed sts (apply st db) (apply-IsKeyed st db v)

pub Keyed-IsClosed : IsClosed (λ s. IsKeyed s.db)
Keyed-IsClosed = record {
  calm = λ s t e f h. subst IsKeyed (sym e) h;
  statement = λ s st _ h. apply-IsKeyed st s.db h;
}
