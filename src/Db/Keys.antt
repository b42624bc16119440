-- ===== src/Db/Keys.antt =====
-- The keys of the tables stay unique under every statement.
use goblin_nip05d.Text.Equality.{eq-of-text_eq, text_eq_iff, text_eq_symm, text_eq-of-eq}
use goblin_nip05d.Db.Apart.{Apart, update_where_none}
use goblin_nip05d.Text.{Text, text_eq}
use goblin_nip05d.Prelude.{
  All, Bool, List, [], arith, false, true, ◌&&◌, ◌||◌, ◌∙◌, ◌∷◌, ◌≡◌, Bool-cases, inl, inr, not,
  update_where,
}
use goblin_nip05d.Db.{
  Db, Exec, NameRow, OfferRow, TransferRow, active_of, changed, constraint, empty_db, is_active,
}

abbrev pub same_name : NameRow → NameRow → Bool
same_name r s = text_eq r.name s.name

-- Two active rows of one public key.
abbrev pub same_owner : NameRow → NameRow → Bool
same_owner r s = text_eq r.pubkey s.pubkey && (is_active r && is_active s)

abbrev pub same_offer : OfferRow → OfferRow → Bool
same_offer o p = text_eq o.offer_id p.offer_id

abbrev pub same_transfer : TransferRow → TransferRow → Bool
same_transfer t u = text_eq u.offer_id t.offer_id || text_eq u.kernel_excess t.kernel_excess

-- One row for each name, one active name for each public key, one offer for each id, and one
-- transfer for each offer and for each kernel excess.
pub record IsKeyed (db : Db) : Type 0 where
  pub names : Apart same_name db.names
  pub owners : Apart same_owner db.names
  pub offers : Apart same_offer db.offers
  pub transfers : Apart same_transfer db.transfers

-- What a statement leaves behind satisfies `P`; one that fails leaves the database as it is.
abbrev pub Leaves : (Db → Type 0) → Exec → Type 0
Leaves P (changed n db) = P db
Leaves P constraint = Unit

pub IsKeyed-empty : IsKeyed empty_db
unfolding empty_db
IsKeyed-empty = record { names = tt; owners = tt; offers = tt; transfers = tt }

same_name_symm : (n : Text) (r : NameRow) → text_eq r.name n ≡ false → text_eq n r.name ≡ false
same_name_symm n r h = text_eq_symm n r.name ∙ h

-- A row of another name, or another key, does not clash with a fresh one.
pub fresh-owner :
    (pk : Text) (rs : List NameRow) (x : NameRow)
    → text_eq x.pubkey pk ≡ true
    → All (λ r. active_of pk r ≡ false) rs
    → All (λ y. same_owner x y ≡ false) rs
fresh-owner pk [] x e h = tt
fresh-owner pk (r ∷ rs) x e h = (
  ground (
    arith,
    eq-of-text_eq x.pubkey pk e,
    eq-of-text_eq x.pubkey r.pubkey,
    text_eq_iff r.pubkey pk,
  ),
  fresh-owner pk rs x e h.1,
)

-- One row is given the key `pk`, and no other active row has it.
module _ (p : NameRow → Bool) (f : NameRow → NameRow) (name pk : Text)
    (key : (r : NameRow) → (f r).pubkey ≡ pk)
    (hit : (r : NameRow) → p r ≡ true → text_eq r.name name ≡ true) where
  abbrev Free : List NameRow → Type 0
  Free rs = All (λ r. (not (p r) && active_of pk r) ≡ false) rs

  missed-rest :
      (r : NameRow) (rs : List NameRow)
      → p r ≡ true
      → All (λ y. same_name r y ≡ false) rs
      → All (λ y. p y ≡ false) rs
  missed-rest r [] e h = tt
  missed-rest r (y ∷ ys) e h = (
    ground (
      arith,
      hit r e,
      hit y,
      text_eq_iff r.name name,
      text_eq_iff y.name name,
      text_eq_iff r.name y.name,
    ),
    missed-rest r ys e h.1,
  )

  Free-rest :
      (rs : List NameRow)
      → All (λ y. p y ≡ false) rs
      → Free rs
      → All (λ r. active_of pk r ≡ false) rs
  Free-rest [] h k = tt
  Free-rest (y ∷ ys) h k = (ground (arith, h.0, k.0), Free-rest ys h.1 k.1)

  owner-update :
      (r : NameRow) (rs : List NameRow)
      → active_of pk r ≡ false
      → All (λ y. same_owner r y ≡ false) rs
      → All (λ y. same_owner r y ≡ false) (update_where p f rs)
  owner-update r [] e h = tt
  owner-update r (y ∷ ys) e h = (
    ground (arith, key y, text_eq_iff r.pubkey pk, text_eq_iff r.pubkey (f y).pubkey),
    owner-update r ys e h.1,
  )

  -- So the active rows still have different keys.
  pub Apart-owners :
      (rs : List NameRow)
      → Apart same_name rs
      → Apart same_owner rs
      → Free rs
      → Apart same_owner (update_where p f rs)
  Apart-owners [] n o e = tt
  Apart-owners (r ∷ rs) n o e = elim (Bool-cases (p r)) [
    | inl e1 ↦
        let rest = missed-rest r rs e1 n.0 in
        rw (e1, update_where_none p f rs rest)
          (fresh-owner pk rs (f r) (text_eq-of-eq (key r)) (Free-rest rs rest e.1), o.1)
    | inr e1 ↦ rw e1 (owner-update r rs (ground (arith, e.0)) o.0, Apart-owners rs n.1 o.1 e.1)
  ]
