-- ===== src/ClaimTxn/Commits.antt =====
-- When a claim transaction commits.
use goblin_nip05d.History.{after_exec}
use goblin_nip05d.Text.Equality.{text_eq_iff}
use goblin_nip05d.Prelude.Int.{ℤ}
use goblin_nip05d.ClaimTxn.Settles.{others-missed, reassign-frame}
use goblin_nip05d.Db.Holders.{unheld}
use goblin_nip05d.Db.Keys.{IsKeyed, same_name}
use goblin_nip05d.Db.Apart.{Apart, count_if_none}
use goblin_nip05d.Text.{Text}
use goblin_nip05d.Prelude.{
  Bool-cases, List, Option, [], any, arith, count_if, false, find, inl, inr, none, not, refl, some,
  ◌&&◌, ◌∷◌, ◌≡◌, Bool, find-none, update_where, ◌||◌,
}
use goblin_nip05d.Db.{
  Db, NameRow, OfferRow, TransferRow, active_named, active_of, changed, excess_used,
  insert_transfer, lookup, name_of, owned_by, reassign_name, set_status, transfer_for_offer,
  consumed,
}
use mathlib.Core.Option
use goblin_nip05d.ClaimTxn.{
  Faults, Site, demand, ok, run_claim_txn, tx_execute, at_begin, at_commit, at_consume, at_reassign,
  at_record, transfer_row, ◌>>=◌,
}

-- The owner has one row of the name.
owned-count :
    (name seller : Text) (rs : List NameRow)
    → Apart same_name rs
    → Option.map (λ r. r.pubkey) (find (active_named name) rs) ≡ some seller
    → count_if (owned_by name seller) rs ≡ 1
owned-count name seller [] a e = absurd (cc)
owned-count name seller (r ∷ rs) a e = elim (Bool-cases (active_named name r)) [
  | inl t ↦
      let none_else =
        count_if_none (owned_by name seller) rs
          (others-missed name seller r rs (ground arith) a.0) in
      ground (arith, none_else, t, text_eq_iff r.pubkey seller)
  | inr t ↦ ground (arith, owned-count name seller rs a.1)
]

buyer-unheld :
    (name seller buyer : Text) (rs : List NameRow)
    → any (active_of buyer) rs ≡ false
    → any (λ r. not (owned_by name seller r) && active_of buyer r) rs ≡ false
buyer-unheld name seller buyer [] h = refl
buyer-unheld name seller buyer (r ∷ rs) h = ground (arith, buyer-unheld name seller buyer rs)

reassign_name-works :
    (db : Db) (name buyer : Text) (now : ℤ) (seller : Text)
    → IsKeyed db
    → lookup db name ≡ some seller
    → name_of db buyer ≡ none
    → (db' : Db) × (reassign_name db name buyer now seller ≡ changed 1 db')
unfolding reassign_name lookup name_of
reassign_name-works db name buyer now seller v h k =
    let one = owned-count name seller db.names v.names h in
    let alone = buyer-unheld name seller buyer db.names (unheld buyer db.names k) in
    (
      record db {
        names =
            update_where (owned_by name seller) (λ r. record r { pubkey = buyer; created_at = now })
              db.names;
      },
      ground (arith, one, alone),
    )

any-or :
    {A : Type 0} (p q : A → Bool) (xs : List A)
    → any p xs ≡ false
    → any q xs ≡ false
    → any (λ x. p x || q x) xs ≡ false
any-or p q [] h k = refl
any-or p q (x ∷ xs) h k = ground (arith, any-or p q xs)

insert_transfer-works :
    (db : Db) (t : TransferRow)
    → excess_used db t.kernel_excess ≡ false
    → transfer_for_offer db t.offer_id ≡ none
    → (db' : Db) × (insert_transfer db t ≡ changed 1 db')
unfolding insert_transfer excess_used transfer_for_offer
insert_transfer-works db t h k = (
  record db { transfers = t ∷ db.transfers },
  ground (
    arith,
    any-or _ _ db.transfers (find-none _ db.transfers ((Option.map-eq-none_iff _ _).0 k)) h,
  ),
)

kept-unused :
    (db db1 : Db) (excess : Text)
    → db1.transfers ≡ db.transfers
    → excess_used db excess ≡ false
    → excess_used db1 excess ≡ false
unfolding excess_used
kept-unused db db1 excess same h = rw same h

kept-untaken :
    (db db1 : Db) (id : Text)
    → db1.transfers ≡ db.transfers
    → transfer_for_offer db id ≡ none
    → transfer_for_offer db1 id ≡ none
unfolding transfer_for_offer
kept-untaken db db1 id same h = rw same h

-- In a database with unique keys, where the seller holds the name, the buyer holds none, and neither
-- the excess nor the offer has been spent, the transaction commits unless one of its statements fails.
pub run_claim_txn-Commits :
    (fails : Faults) (db : Db) (o : OfferRow) (excess : Text) (height : Option ℤ) (now : ℤ)
    → IsKeyed db
    → lookup db o.name ≡ some o.seller_pubkey
    → name_of db o.buyer_pubkey ≡ none
    → excess_used db excess ≡ false
    → transfer_for_offer db o.offer_id ≡ none
    → ((site : Site) → fails site ≡ false)
    → (db' : Db) × (run_claim_txn fails db o excess height now ≡ ok db')
unfolding run_claim_txn demand tx_execute set_status ◌>>=◌
run_claim_txn-Commits fails db o excess height now v owned no_other unused untaken works =
    let (db1, e1) =
      reassign_name-works db o.name o.buyer_pubkey now o.seller_pubkey v owned no_other in
    let (_, same, _) = reassign-frame db o.name o.buyer_pubkey now o.seller_pubkey e1 in
    let t = transfer_row o excess height now in
    let (db2, e2) =
      insert_transfer-works db1 t (kept-unused db db1 excess same unused)
        (kept-untaken db db1 o.offer_id same untaken) in
    (
      after_exec db2 (set_status db2 o.offer_id consumed),
      rw
          (
            works at_begin,
            works at_reassign,
            e1,
            works at_record,
            e2,
            works at_consume,
            works at_commit,
          )
          refl,
    )
