-- ===== src/History/Offers.antt =====
-- What becomes of an offer under any sequence of statements.
use goblin_nip05d.Text.Equality.{eq-of-text_eq}
use goblin_nip05d.Prelude.Int.{ℤ}
use goblin_nip05d.History.Ledger.{Leaves-map}
use goblin_nip05d.History.Frames.{OnNames, release_name-OnNames, upsert_name-OnNames}
use goblin_nip05d.History.Keyed.{after_exec-Leaves, committed-Leaves}
use goblin_nip05d.ClaimTxn.Outcome.{run_claim_txn-Ran}
use goblin_nip05d.ClaimTxn.Settles.{consume, reassign-frame, record-frame, spend-frame}
use goblin_nip05d.Db.Keys.{Leaves}
use goblin_nip05d.ClaimTxn.{run_claim_txn, transfer_row}
use goblin_nip05d.Text.{Text, text_eq}
use goblin_nip05d.Prelude.{
  Bool, Bool-cases, List, Option, any, any-of-find, ap, arith, false, find, find-update_where_map,
  if◌then◌else◌, inl, inr, refl, some, sym, true, update_where, ◌&&◌, ◌∙◌, ◌∷◌, ◌≡◌, ◌≢◌,
}
use goblin_nip05d.Db.{
  Db, OfferRow, get_offer, insert_offer, is_live, live, mark_offer_dead, offer_at, revoked,
  set_status,
}
use goblin_nip05d.History.{
  Death, Statement, apply, by_expiry, by_revocation, committed, death_status, exec, free, insert,
  mark, revoke, settlement, upsert,
}
use mathlib.Core.Path.{subst}

-- The terms are those of the lodging.
pub record SameTerms (o o' : OfferRow) : Type 0 where
  pub offer_id : o'.offer_id ≡ o.offer_id
  pub event_json : o'.event_json ≡ o.event_json
  pub name : o'.name ≡ o.name
  pub seller_pubkey : o'.seller_pubkey ≡ o.seller_pubkey
  pub buyer_pubkey : o'.buyer_pubkey ≡ o.buyer_pubkey
  pub price_nanogrin : o'.price_nanogrin ≡ o.price_nanogrin
  pub proof_address : o'.proof_address ≡ o.proof_address
  pub expiration : o'.expiration ≡ o.expiration
  pub created_at : o'.created_at ≡ o.created_at

pub record Evolves (o o' : OfferRow) : Type 0 where
  pub terms : SameTerms o o'
  pub no_revival : o'.status ≡ live → o' ≡ o

pub SameTerms-refl : (o : OfferRow) → SameTerms o o
SameTerms-refl o = ground arith

pub Evolves-refl : (o : OfferRow) → Evolves o o
Evolves-refl o = record { terms = SameTerms-refl o; no_revival = λ h. refl }

pub SameTerms-trans : (a b c : OfferRow) → SameTerms a b → SameTerms b c → SameTerms a c
SameTerms-trans a b c g h = ground arith

pub Evolves-trans : (a b c : OfferRow) → Evolves a b → Evolves b c → Evolves a c
Evolves-trans a b c g h = record {
  terms = SameTerms-trans a b c g.terms h.terms;
  no_revival =
      λ l. let same = h.no_revival l in same ∙ g.no_revival (ap (λ o. o.status) (sym same) ∙ l);
}

-- The offer with an id has evolved.
pub record Kept (o : OfferRow) (id : Text) (db' : Db) : Type 0 where
  pub row : OfferRow
  pub found : get_offer db' id ≡ some row
  pub evolves : Evolves o row

same-Kept :
    (o : OfferRow) (id : Text) (db db' : Db)
    → get_offer db id ≡ some o
    → db'.offers ≡ db.offers
    → Kept o id db'
unfolding get_offer
same-Kept o id db db' h e = record { row = o; found = rw e h; evolves = Evolves-refl o }

-- A change of the rows that pass a test, to a row that is not live with the terms it had.
changed-Kept :
    (o : OfferRow) (id : Text) (db db' : Db) (p : OfferRow → Bool) (f : OfferRow → OfferRow)
    → get_offer db id ≡ some o
    → db'.offers ≡ update_where p f db.offers
    → ((x : OfferRow) → SameTerms x (f x))
    → ((x : OfferRow) → (f x).status ≢ live)
    → Kept o id db'
unfolding get_offer
changed-Kept o id db db' p f h e terms dead = record {
  row = if p o then f o else o;
  found = rw e (
      find-update_where_map (offer_at id) p f db.offers
        (λ x. ap (λ i. text_eq i id) (terms x).offer_id) h);
  evolves = go (p o);
}
  where
    go : (b : Bool) → Evolves o (if b then f o else o)
    go true = record { terms = terms o; no_revival = λ l. absurd (dead o l) }
    go false = Evolves-refl o

dead-ne-live : (death : Death) → death_status death ≢ live
dead-ne-live by_revocation h = cc
dead-ne-live by_expiry h = cc

-- A new row has another id than one that was found.
older :
    (x : OfferRow) (os : List OfferRow) (o : OfferRow) (id : Text)
    → any (offer_at x.offer_id) os ≡ false
    → find (offer_at id) os ≡ some o
    → find (offer_at id) (x ∷ os) ≡ some o
older x os o id new h = elim (Bool-cases (offer_at id x)) [
  | inl same ↦
      let key = eq-of-text_eq x.offer_id id same in
      absurd (cc (subst (λ i. any (offer_at i) os ≡ false) key new, any-of-find (offer_at id) os h))
  | inr other ↦ rw other h
]

insert-Kept :
    (x : OfferRow) (db : Db) (o : OfferRow) (id : Text)
    → get_offer db id ≡ some o
    → Leaves (Kept o id) (insert_offer db x)
unfolding insert_offer get_offer
insert-Kept x db o id h = elim (Bool-cases (any (offer_at x.offer_id) db.offers)) [
  | inl e ↦ rw (e, insert_offer) tt
  | inr e ↦
      rw (e, insert_offer)
        (record { row = o; found = older x db.offers o id e h; evolves = Evolves-refl o })
]

pub mark-Kept :
    (key : Text) (death : Death) (height : Option ℤ) (now : ℤ) (db : Db) (o : OfferRow) (id : Text)
    → get_offer db id ≡ some o
    → Leaves (Kept o id) (mark_offer_dead db key (death_status death) height now)
unfolding mark_offer_dead
mark-Kept key death height now db o id h =
    changed-Kept o id db _ (λ x. offer_at key x && is_live x.status)
      (λ x. record x {
        status = death_status death;
        end_height = height;
        state_changed_at = some now;
      })
      h refl (λ x. ground arith) (λ x. dead-ne-live death)

revoke-Kept :
    (key : Text) (db : Db) (o : OfferRow) (id : Text)
    → get_offer db id ≡ some o
    → Leaves (Kept o id) (set_status db key revoked)
unfolding set_status
revoke-Kept key db o id h =
    changed-Kept o id db _ (offer_at key) (λ x. record x { status = revoked }) h refl
      (λ x. ground arith) (λ x l. cc)

exec-Kept :
    (st : Statement) (db : Db) (o : OfferRow) (id : Text)
    → get_offer db id ≡ some o
    → Leaves (Kept o id) (exec st db)
unfolding exec committed
exec-Kept (upsert name pubkey now) db o id h =
    Leaves-map (OnNames db) (Kept o id) _ (λ t k. same-Kept o id db t h k.offers)
      (upsert_name-OnNames db name pubkey now)
exec-Kept (free name now) db o id h =
    Leaves-map (OnNames db) (Kept o id) _ (λ t k. same-Kept o id db t h k.offers)
      (release_name-OnNames db name now)
exec-Kept (insert x) db o id h = insert-Kept x db o id h
exec-Kept (mark key death height now) db o id h = mark-Kept key death height now db o id h
exec-Kept (revoke key) db o id h = revoke-Kept key db o id h
exec-Kept (settlement fails x excess height now) db o id h =
    committed-Leaves (Kept o id) db (run_claim_txn fails db x excess height now) (λ db' e.
      let r = run_claim_txn-Ran fails db x excess height now e in
      let (os1, _, _) = reassign-frame db x.name x.buyer_pubkey now x.seller_pubkey r.moves in
      let (_, os2, _, _) = record-frame r.db1 (transfer_row x excess height now) r.records in
      let (_, _, os3) = spend-frame r.db2 x.offer_id r.spends in
      changed-Kept o id db db' (offer_at x.offer_id) consume h
        (os3 ∙ ap (update_where (offer_at x.offer_id) consume) (os2 ∙ os1)) (λ y. ground arith)
        (λ y l. cc))

-- An offer that is in the table stays there under every statement, with the terms of its lodging, and
-- once it is no longer live it is never live again.
pub apply-Kept :
    (st : Statement) (db : Db) (o : OfferRow) (id : Text)
    → get_offer db id ≡ some o
    → Kept o id (apply st db)
unfolding apply
apply-Kept st db o id h =
    after_exec-Leaves (Kept o id) db (exec st db)
      (record { row = o; found = h; evolves = Evolves-refl o }) (exec-Kept st db o id h)
