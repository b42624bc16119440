-- ===== src/Server/Quiet.antt =====
-- The requests that leave the names alone, and what a change of the names finds and leaves.
use goblin_nip05d.Text.Equality.{text_eq_iff}
use goblin_nip05d.Prelude.Int.{ℤ}
use goblin_nip05d.History.Ledger.{Leaves-map}
use goblin_nip05d.History.Frames.{
  OnOffers, insert_offer-OnOffers, mark_offer_dead-OnOffers, set_status-OnOffers,
}
use goblin_nip05d.History.Keyed.{after_exec-Leaves}
use goblin_nip05d.Db.Holders.{lookup-other_key, unheld, upsert_name-cases}
use goblin_nip05d.Db.Keys.{IsKeyed}
use goblin_nip05d.Db.Lookup.{lookup-iff-name_of}
use goblin_nip05d.Text.{Text}
use goblin_nip05d.Prelude.{ap, arith, inl, inr, none, refl, some, ◌∙◌, ◌≡◌, ◌≢◌}
use goblin_nip05d.App.{App}
use goblin_nip05d.Db.{Db, active_of, changed, lookup, revoked, upsert_name}
use goblin_nip05d.History.{
  IsClosedFor, OnOffer, Statement, apply, death_status, exec, free, insert, mark, revoke,
  settlement, upsert,
}

-- The statements on the offers leave the names alone.
apply-names : (st : Statement) (db : Db) → OnOffer st → (apply st db).names ≡ db.names
unfolding apply exec
apply-names (upsert name pubkey now) db o = absurd o
apply-names (free name now) db o = absurd o
apply-names (insert x) db o =
    after_exec-Leaves (λ t. t.names ≡ db.names) db _ refl
      (Leaves-map (OnOffers db) (λ t. t.names ≡ db.names) _ (λ t k. k.names)
        (insert_offer-OnOffers db x))
apply-names (mark id death height now) db o =
    after_exec-Leaves (λ t. t.names ≡ db.names) db _ refl
      (Leaves-map (OnOffers db) (λ t. t.names ≡ db.names) _ (λ t k. k.names)
        (mark_offer_dead-OnOffers db id (death_status death) height now))
apply-names (revoke id) db o =
    after_exec-Leaves (λ t. t.names ≡ db.names) db _ refl
      (Leaves-map (OnOffers db) (λ t. t.names ≡ db.names) _ (λ t k. k.names)
        (set_status-OnOffers db id revoked))
apply-names (settlement fails x excess height now) db o = absurd o

abbrev pub SameNames : Db → App → Type 0
SameNames d u = u.db.names ≡ d.names

pub SameNames-IsClosedFor : (d : Db) → IsClosedFor OnOffer (SameNames d)
SameNames-IsClosedFor d = record {
  calm = λ s t e f h. ap (λ (db : Db). db.names) e ∙ h;
  statement = λ s st o h. apply-names st s.db o ∙ h;
}

pub same_lookup : (d e : Db) → e.names ≡ d.names → (n : Text) → lookup e n ≡ lookup d n
unfolding lookup
same_lookup d e h n = rw h refl

-- A registration that wrote a row found the name free and the key without a name.
pub upsert_name-takes :
    (db db' : Db) (name pk : Text) (now : ℤ)
    → IsKeyed db
    → upsert_name db name pk now ≡ changed 1 db'
    → (lookup db name ≡ none) × ((n : Text) → lookup db n ≢ some pk)
upsert_name-takes db db' name pk now v e = elim (upsert_name-cases db name pk now v e) [
  | inl (zero_rows, same) ↦ absurd (cc zero_rows)
  | inr (one, unheld, alone) ↦ (
    unheld,
    λ m.
        lookup-other_key db pk (active_of pk) alone m
          (λ r act same. ground (arith, act, same, text_eq_iff r.pubkey pk)),
  )
]

-- A key with one name afterwards had no other before.
pub alone_before :
    (db db' : Db) (name pk : Text)
    → IsKeyed db'
    → lookup db' name ≡ some pk
    → ((n : Text) → n ≢ name → lookup db' n ≡ lookup db n)
    → (n : Text) → n ≢ name
    → lookup db n ≢ some pk
alone_before db db' name pk v here others n ne held =
    let two = (lookup-iff-name_of db' n pk v).0 (others n ne ∙ held) in
    let one = (lookup-iff-name_of db' name pk v).0 here in ne (cc (one, two))
