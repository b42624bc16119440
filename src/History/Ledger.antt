-- ===== src/History/Ledger.antt =====
-- The table of transfers only grows.
use goblin_nip05d.Text.{Text, text_eq}
use mathlib.Core.Option
use mathlib.Core.List.{append_assoc}
use goblin_nip05d.History.Frames.{
  OnNames, OnOffers, insert_offer-OnOffers, release_name-OnNames, upsert_name-OnNames,
  mark_offer_dead-OnOffers, set_status-OnOffers,
}
use goblin_nip05d.History.Keyed.{after_exec-Leaves, committed-Leaves}
use goblin_nip05d.ClaimTxn.Outcome.{run_claim_txn-Ran}
use goblin_nip05d.ClaimTxn.Settles.{reassign-frame, record-frame, spend-frame}
use goblin_nip05d.Db.Keys.{Leaves}
use goblin_nip05d.ClaimTxn.{run_claim_txn, transfer_row}
use goblin_nip05d.Prelude.{
  List, [], ap, refl, sym, ◌++◌, ◌∙◌, ◌∷◌, ◌≡◌, Bool, any, arith, true, find, find-none, none, some,
  ◌≢◌, any-of-find,
}
use goblin_nip05d.Db.{
  Db, Exec, TransferRow, changed, constraint, excess_used, revoked, transfer_for_offer,
}
use goblin_nip05d.History.{
  Statement, apply, committed, exec, free, insert, mark, revoke, settlement, upsert, death_status,
}

-- The rows that were there are still there, under new ones.
pub record Grown (db db' : Db) : Type 0 where
  pub added : List TransferRow
  pub grows : db'.transfers ≡ added ++ db.transfers

pub Grown-refl : (db : Db) → Grown db db
Grown-refl db = record { added = []; grows = refl }

pub Grown-trans : (a b c : Db) → Grown a b → Grown b c → Grown a c
Grown-trans a b c g h = record {
  added = h.added ++ g.added;
  grows =
      h.grows ∙ ap (λ ts. h.added ++ ts) g.grows ∙ sym (append_assoc h.added g.added a.transfers);
}

same-Grown : (db db' : Db) → db'.transfers ≡ db.transfers → Grown db db'
same-Grown db db' e = record { added = []; grows = e }

pub Leaves-map :
    (P Q : Db → Type 0) (x : Exec) → ((db : Db) → P db → Q db) → Leaves P x → Leaves Q x
Leaves-map P Q (changed n db) f h = f db h
Leaves-map P Q constraint f h = tt

exec-Grown : (st : Statement) (db : Db) → Leaves (Grown db) (exec st db)
unfolding exec committed
exec-Grown (upsert name pubkey now) db =
    Leaves-map (OnNames db) (Grown db) _ (λ t h. same-Grown db t h.transfers)
      (upsert_name-OnNames db name pubkey now)
exec-Grown (free name now) db =
    Leaves-map (OnNames db) (Grown db) _ (λ t h. same-Grown db t h.transfers)
      (release_name-OnNames db name now)
exec-Grown (insert o) db =
    Leaves-map (OnOffers db) (Grown db) _ (λ t h. same-Grown db t h.transfers)
      (insert_offer-OnOffers db o)
exec-Grown (mark id death height now) db =
    Leaves-map (OnOffers db) (Grown db) _ (λ t h. same-Grown db t h.transfers)
      (mark_offer_dead-OnOffers db id (death_status death) height now)
exec-Grown (revoke id) db =
    Leaves-map (OnOffers db) (Grown db) _ (λ t h. same-Grown db t h.transfers)
      (set_status-OnOffers db id revoked)
exec-Grown (settlement fails o excess height now) db =
    committed-Leaves (Grown db) db (run_claim_txn fails db o excess height now) (λ db' e.
      let r = run_claim_txn-Ran fails db o excess height now e in
      let (_, ts1, _) = reassign-frame db o.name o.buyer_pubkey now o.seller_pubkey r.moves in
      let (_, _, ts2, _) = record-frame r.db1 (transfer_row o excess height now) r.records in
      let (_, ts3, _) = spend-frame r.db2 o.offer_id r.spends in
      record {
        added = transfer_row o excess height now ∷ [];
        grows = ts3 ∙ ts2 ∙ ap (◌∷◌ (transfer_row o excess height now)) ts1;
      })

pub apply-Grown : (st : Statement) (db : Db) → Grown db (apply st db)
unfolding apply
apply-Grown st db = after_exec-Leaves (Grown db) db (exec st db) (Grown-refl db) (exec-Grown st db)

any-append_right :
    {A : Type 0} (p : A → Bool) (xs ys : List A) → any p ys ≡ true → any p (xs ++ ys) ≡ true
any-append_right p [] ys h = h
any-append_right p (x ∷ xs) ys h = ground (arith, any-append_right p xs ys h)

pub Grown-excess_used :
    (db db' : Db) (excess : Text)
    → Grown db db'
    → excess_used db excess ≡ true
    → excess_used db' excess ≡ true
unfolding excess_used
Grown-excess_used db db' excess g h =
    rw g.grows (any-append_right (λ t. text_eq t.kernel_excess excess) g.added db.transfers h)

find-append_right :
    {A : Type 0} (p : A → Bool) (xs ys : List A) → any p ys ≡ true → find p (xs ++ ys) ≢ none
find-append_right p xs ys h e = absurd (cc (any-append_right p xs ys h, find-none p (xs ++ ys) e))

pub Grown-transfer_for_offer :
    (db db' : Db) (id : Text) (t : Text × Text × Text)
    → Grown db db'
    → transfer_for_offer db id ≡ some t
    → transfer_for_offer db' id ≢ none
unfolding transfer_for_offer
Grown-transfer_for_offer db db' id t g h e =
    let key : TransferRow → Text × Text × Text = λ x. (x.kernel_excess, x.name, x.buyer_pubkey) in
    let (u, found, _) = (Option.map-eq-some_iff key _).0 h in
    let missing = (Option.map-eq-none_iff key _).0 e in
    let old = any-of-find (λ x. text_eq x.offer_id id) db.transfers found in
    find-append_right (λ x. text_eq x.offer_id id) g.added db.transfers old (rw g.grows at missing)
