-- ===== src/History/Moves.antt =====
-- The statements refine the registry of History/Holdings: seen through the lookup, every one of them is
-- a move.
use goblin_nip05d.Text.Equality.{eq-of-text_eq, ne-of-text_eq, text_eq_iff}
use goblin_nip05d.Prelude.Int.{ℤ}
use goblin_nip05d.History.Ledger.{Leaves-map}
use goblin_nip05d.History.Holdings.{Holdings, Move, acquire, give_up, pass_on, stay}
use goblin_nip05d.History.Frames.{
  OnOffers, insert_offer-OnOffers, mark_offer_dead-OnOffers, set_status-OnOffers,
}
use goblin_nip05d.History.Keyed.{after_exec-Leaves, committed-Leaves}
use goblin_nip05d.ClaimTxn.Outcome.{run_claim_txn-Ran}
use goblin_nip05d.ClaimTxn.Settles.{run_claim_txn-Settles}
use goblin_nip05d.Db.Holders.{lookup-other_key, reassign_name-others, upsert_name-cases, unheld}
use goblin_nip05d.Db.Keys.{IsKeyed, Leaves}
use goblin_nip05d.Db.Lookup.{lookup-release_name, upsert_name-acquires}
use goblin_nip05d.ClaimTxn.{Faults, ok, run_claim_txn}
use goblin_nip05d.Text.{Text, text_eq}
use goblin_nip05d.Prelude.{
  Bool-cases, Option, Option-cases, ap, arith, inl, inr, refl, sym, ◌∙◌, ◌≡◌,
}
use goblin_nip05d.Db.{
  Db, Exec, OfferRow, active_of, changed, constraint, lookup, release_name, revoked, upsert_name,
}
use goblin_nip05d.History.{
  Statement, apply, death_status, exec, free, insert, mark, revoke, settlement, upsert,
}

unfoldable pub holdings : Db → Holdings
holdings db = lookup db

abbrev Moved : Db → Db → Type 0
Moved db db' = Move (holdings db) (holdings db')

same-Moved : (db db' : Db) → db'.names ≡ db.names → Moved db db'
unfolding holdings lookup
same-Moved db db' e = stay _ _ (λ n. rw e refl)

upsert_name-Moved :
    (db : Db) (name pk : Text) (now : ℤ)
    → IsKeyed db
    → Leaves (Moved db) (upsert_name db name pk now)
unfolding holdings
upsert_name-Moved db name pk now v = go (upsert_name db name pk now) refl
  where
    go : (x : Exec) → upsert_name db name pk now ≡ x → Leaves (Moved db) x
    go constraint e = tt
    go (changed n db') e = elim (upsert_name-cases db name pk now v e) [
      | inl (zero_rows, same) ↦ stay _ _ (λ m. rw same refl)
      | inr (one, unheld, alone) ↦
          let (here, others) =
            upsert_name-acquires db db' name pk now (e ∙ ap (λ k. changed k db') one) in
          acquire _ _ name pk unheld
            (λ m.
              lookup-other_key db pk (active_of pk) alone m
                (λ r act same. ground (arith, act, same, text_eq_iff r.pubkey pk)))
            here others
    ]

release_name-Moved :
    (db : Db) (name : Text) (now : ℤ) → Leaves (Moved db) (release_name db name now)
unfolding holdings release_name
release_name-Moved db name now =
    let (gone, others) = lookup-release_name db name now in
    elim (Option-cases (lookup db name)) [
      | inl e ↦ stay _ _ (λ n. elim (Bool-cases (text_eq n name)) [
        | inl t ↦ rw (eq-of-text_eq n name t) (gone ∙ sym e)
        | inr t ↦ others n (ne-of-text_eq n name t)
      ])
      | inr (pk, e) ↦ give_up _ _ name pk e gone others
    ]

run_claim_txn-Moved :
    (fails : Faults) (db : Db) (o : OfferRow) (excess : Text) (height : Option ℤ) (now : ℤ)
    (db' : Db)
    → IsKeyed db
    → run_claim_txn fails db o excess height now ≡ ok db'
    → Moved db db'
unfolding holdings
run_claim_txn-Moved fails db o excess height now db' v h =
    let r = run_claim_txn-Ran fails db o excess height now h in
    let done = run_claim_txn-Settles fails db o excess height now db' v h in
    pass_on _ _ o.name o.seller_pubkey o.buyer_pubkey done.owned
      (reassign_name-others db o.name o.buyer_pubkey now o.seller_pubkey r.moves done.owned)
      done.moved done.others

exec-Moved : (st : Statement) (db : Db) → IsKeyed db → Leaves (Moved db) (exec st db)
unfolding exec
exec-Moved (upsert name pubkey now) db v = upsert_name-Moved db name pubkey now v
exec-Moved (free name now) db v = release_name-Moved db name now
exec-Moved (insert o) db v =
    Leaves-map (OnOffers db) (Moved db) _ (λ t k. same-Moved db t k.names)
      (insert_offer-OnOffers db o)
exec-Moved (mark id death height now) db v =
    Leaves-map (OnOffers db) (Moved db) _ (λ t k. same-Moved db t k.names)
      (mark_offer_dead-OnOffers db id (death_status death) height now)
exec-Moved (revoke id) db v =
    Leaves-map (OnOffers db) (Moved db) _ (λ t k. same-Moved db t k.names)
      (set_status-OnOffers db id revoked)
exec-Moved (settlement fails o excess height now) db v =
    committed-Leaves (Moved db) db (run_claim_txn fails db o excess height now)
      (λ db' e. run_claim_txn-Moved fails db o excess height now db' v e)

-- In a database with unique keys every statement, a claim transaction included, is seen through the
-- lookup as one move of the abstract registry: nothing changes, or a key without a name takes a free
-- name, or a name becomes free, or it passes to a key that has no other name.
pub apply-Move :
    (st : Statement) (db : Db) → IsKeyed db → Move (holdings db) (holdings (apply st db))
unfolding apply
apply-Move st db v =
    after_exec-Leaves (Moved db) db (exec st db) (stay _ _ (λ n. refl)) (exec-Moved st db v)
