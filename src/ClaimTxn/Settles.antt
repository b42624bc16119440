-- ===== src/ClaimTxn/Settles.antt =====
-- The effect of a committed claim transaction on every query.
use goblin_nip05d.Text.Equality.{eq-of-text_eq, text_eq_iff, text_eq_refl}
use goblin_nip05d.Prelude.Int.{ℤ}
use goblin_nip05d.ClaimTxn.Outcome.{Leaves-at, run_claim_txn-Ran}
use goblin_nip05d.Db.Keys.{IsKeyed, same_name}
use goblin_nip05d.Db.Lookup.{lookup-reassign_name}
use goblin_nip05d.Db.Apart.{Apart, count_if_none}
use goblin_nip05d.ClaimTxn.{Faults, ok, run_claim_txn, transfer_row}
use goblin_nip05d.Text.{Text, text_eq}
use goblin_nip05d.Prelude.{
  All, Bool-cases, List, Option, [], any, ap, arith, count_if, false, find, inl, inr, none, refl,
  some, sym, true, update_where, ℕ, ◌||◌, ◌∷◌, ◌≡◌, ◌≢◌, find-update_where, ◌∙◌,
}
use goblin_nip05d.Db.{
  Db, NameRow, OfferRow, TransferRow, active_named, changed, consumed, excess_used, get_offer,
  insert_transfer, lookup, offer_at, owned_by, reassign_name, set_status, transfer_for_offer,
}
use mathlib.Core.Option

abbrev pub consume : OfferRow → OfferRow
consume o = record o { status = consumed }

-- The effect of a claim: the name moves from the seller to the buyer, the kernel excess and the
-- offer are spent for the first time, and nothing else changes.
pub record Settles (db : Db) (o : OfferRow) (excess : Text) (db' : Db) : Type 0 where
  pub owned : lookup db o.name ≡ some o.seller_pubkey
  pub moved : lookup db' o.name ≡ some o.buyer_pubkey
  pub others : (n : Text) → n ≢ o.name → lookup db' n ≡ lookup db n
  pub unused : excess_used db excess ≡ false
  pub used : excess_used db' excess ≡ true
  pub untaken : transfer_for_offer db o.offer_id ≡ none
  pub taken : transfer_for_offer db' o.offer_id ≡ some (excess, o.name, o.buyer_pubkey)
  pub offer : get_offer db' o.offer_id ≡ Option.map consume (get_offer db o.offer_id)
  pub offers : (id : Text) → id ≢ o.offer_id → get_offer db' id ≡ get_offer db id

-- The three statements touch three tables.
pub reassign-frame :
    (db : Db) (name buyer : Text) (now : ℤ) (seller : Text) {n : ℕ} {db' : Db}
    → reassign_name db name buyer now seller ≡ changed n db'
    → (db'.offers ≡ db.offers)
      × (db'.transfers ≡ db.transfers)
      × (n ≡ count_if (owned_by name seller) db.names)
unfolding reassign_name
reassign-frame db name buyer now seller e = ground arith

pub record-frame :
    (db : Db) (t : TransferRow) {n : ℕ} {db' : Db}
    → insert_transfer db t ≡ changed n db'
    → (db'.names ≡ db.names)
      × (db'.offers ≡ db.offers)
      × (db'.transfers ≡ t ∷ db.transfers)
      × (any
            (λ u. text_eq u.offer_id t.offer_id || text_eq u.kernel_excess t.kernel_excess)
            db.transfers
          ≡ false)
unfolding insert_transfer
record-frame db t e = ground arith

pub spend-frame :
    (db : Db) (id : Text) {n : ℕ} {db' : Db}
    → set_status db id consumed ≡ changed n db'
    → (db'.names ≡ db.names)
      × (db'.transfers ≡ db.transfers)
      × (db'.offers ≡ update_where (offer_at id) consume db.offers)
unfolding set_status
spend-frame db id e = ground arith

spent-found :
    (id : Text) (os : List OfferRow)
    → find (offer_at id) (update_where (offer_at id) consume os)
      ≡ Option.map consume (find (offer_at id) os)
spent-found id [] = refl
spent-found id (o ∷ os) = ground (arith, spent-found id os)

-- A row of the name is the only one of it.
pub others-missed :
    (name seller : Text) (r : NameRow) (rs : List NameRow)
    → text_eq r.name name ≡ true
    → All (λ y. same_name r y ≡ false) rs
    → All (λ y. owned_by name seller y ≡ false) rs
others-missed name seller r [] t h = tt
others-missed name seller r (y ∷ ys) t h = (
  ground (arith, text_eq_iff r.name name, text_eq_iff y.name name, text_eq_iff r.name y.name),
  others-missed name seller r ys t h.1,
)

-- One row was reassigned, so the seller owned the name.
owned-of-count :
    (name seller : Text) (rs : List NameRow)
    → Apart same_name rs
    → count_if (owned_by name seller) rs ≡ 1
    → Option.map (λ r. r.pubkey) (find (active_named name) rs) ≡ some seller
owned-of-count name seller [] a e = absurd (omega arith)
owned-of-count name seller (r ∷ rs) a e = elim (Bool-cases (active_named name r)) [
  | inl t ↦ elim (Bool-cases (text_eq r.pubkey seller)) [
    | inl s ↦ rw t (ap some (eq-of-text_eq r.pubkey seller s))
    | inr s ↦ absurd (
        omega (
          arith,
          count_if_none (owned_by name seller) rs
              (others-missed name seller r rs (ground arith) a.0),
          owned-head r s,
        ))
  ]
  | inr t ↦ rw t (owned-of-count name seller rs a.1 (ground arith))
]
  where
    owned-head :
        (r : NameRow)
        → text_eq r.pubkey seller ≡ false
        → count_if (owned_by name seller) (r ∷ rs) ≡ count_if (owned_by name seller) rs
    owned-head r s = ground arith

transfers-parts :
    (ts : List TransferRow) (t : TransferRow)
    → any (λ u. text_eq u.offer_id t.offer_id || text_eq u.kernel_excess t.kernel_excess) ts ≡ false
    → (any (λ u. text_eq u.kernel_excess t.kernel_excess) ts ≡ false)
      × (find (λ u. text_eq u.offer_id t.offer_id) ts ≡ none)
transfers-parts [] t h = (refl, refl)
transfers-parts (u ∷ us) t h = ground (arith, transfers-parts us t)

-- In a database with unique keys, a claim that commits moves the name from the seller, who owned it,
-- to the buyer, spends an excess and an offer that were not spent before, marks the offer consumed,
-- and changes no other name and no other offer.
pub run_claim_txn-Settles :
    (fails : Faults) (db : Db) (o : OfferRow) (excess : Text) (height : Option ℤ) (now : ℤ)
    (db' : Db)
    → IsKeyed db
    → run_claim_txn fails db o excess height now ≡ ok db'
    → Settles db o excess db'
unfolding lookup excess_used transfer_for_offer get_offer
run_claim_txn-Settles fails db o excess height now db' v h =
    let r = run_claim_txn-Ran fails db o excess height now h in
    let (of1, ts1, n1) = reassign-frame db o.name o.buyer_pubkey now o.seller_pubkey r.moves in
    let (nm2, of2, ts2, new) = record-frame r.db1 (transfer_row o excess height now) r.records in
    let (nm3, ts3, of3) = spend-frame r.db2 o.offer_id r.spends in
    let owned = owned-of-count o.name o.seller_pubkey db.names v.names (sym n1) in
    let moves =
      Leaves-at _ _ r.moves
        (lookup-reassign_name db o.name o.buyer_pubkey now o.seller_pubkey owned) in
    let row = transfer_row o excess height now in
    let names = nm3 ∙ nm2 in
    let ts = ts3 ∙ ts2 ∙ ap (◌∷◌ row) ts1 in
    let os = of3 ∙ ap (update_where (offer_at o.offer_id) consume) (of2 ∙ of1) in
    let (unused, untaken) = transfers-parts db.transfers row (rw ts1 at new) in
    record {
      owned = owned;
      moved = rw names moves.0;
      others = rw names moves.1;
      unused = unused;
      used = rw (ts, text_eq_refl excess);
      untaken = rw untaken;
      taken = rw (ts, text_eq_refl o.offer_id);
      offer = rw os (spent-found o.offer_id db.offers);
      offers = λ id ne. rw os (
          find-update_where (offer_at id) (offer_at o.offer_id) consume db.offers
            (λ p k.
              ground (arith, ne, text_eq_iff p.offer_id o.offer_id, text_eq_iff p.offer_id id))
            (λ p k.
              ground (arith, ne, text_eq_iff p.offer_id o.offer_id, text_eq_iff p.offer_id id)));
    }
