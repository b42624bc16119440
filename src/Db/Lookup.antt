-- ===== src/Db/Lookup.antt =====
-- What the two queries of the registry, name to key and key to name, find after each statement.
use goblin_nip05d.Text.Equality.{text_eq_iff, text_eq_refl}
use goblin_nip05d.Prelude.Int.{ℤ}
use goblin_nip05d.Db.Keys.{IsKeyed, Leaves, same_name, same_owner}
use goblin_nip05d.Db.Apart.{Apart}
use goblin_nip05d.Text.{Text}
use goblin_nip05d.Prelude.{
  All-find, Bool-cases, List, Option, Option-cases, [], any, ap, arith, false, find, find-holds,
  find-update_where, find-update_where-none, inl, inr, none, some, true, update_where, ◌↔◌, ◌∷◌,
  ◌≡◌, ◌≢◌, any-of-find, not, ◌&&◌,
}
use goblin_nip05d.Db.{
  Db, NameRow, active_named, active_of, changed, is_active, lookup, name_of, named, release_name,
  upsert_name, owned_by, reassign_name,
}
use mathlib.Core.Option

-- The key of a name among the rows, and the name of a key.
abbrev key_in : Text → List NameRow → Option Text
key_in name rs = Option.map (λ r. r.pubkey) (find (active_named name) rs)

abbrev name_in : Text → List NameRow → Option Text
name_in pubkey rs = Option.map (λ r. r.name) (find (active_of pubkey) rs)

name_in-of-key_in :
    (name pk : Text) (rs : List NameRow)
    → Apart same_owner rs
    → key_in name rs ≡ some pk
    → name_in pk rs ≡ some name
name_in-of-key_in name pk [] o e = absurd (cc)
name_in-of-key_in name pk (r ∷ rs) o e = elim (Bool-cases (active_named name r)) [
  | inl t ↦ ground (arith, text_eq_iff r.name name, text_eq_iff r.pubkey pk)
  | inr t ↦
      let e' : key_in name rs ≡ some pk = ground arith in
      let (s, found, same) =
        (Option.map-eq-some_iff (λ (x : NameRow). x.pubkey) (find (active_named name) rs)).0 e' in
      let apart = All-find (λ y. same_owner r y ≡ false) (active_named name) rs o.0 found in
      let act = find-holds (active_named name) rs found in
      ground (
        arith,
        apart,
        act,
        same,
        text_eq_iff r.pubkey pk,
        text_eq_iff r.pubkey s.pubkey,
        name_in-of-key_in name pk rs o.1 e',
      )
]

key_in-of-name_in :
    (name pk : Text) (rs : List NameRow)
    → Apart same_name rs
    → name_in pk rs ≡ some name
    → key_in name rs ≡ some pk
key_in-of-name_in name pk [] n e = absurd (cc)
key_in-of-name_in name pk (r ∷ rs) n e = elim (Bool-cases (active_of pk r)) [
  | inl t ↦ ground (arith, text_eq_iff r.name name, text_eq_iff r.pubkey pk)
  | inr t ↦
      let e' : name_in pk rs ≡ some name = ground arith in
      let (s, found, same) =
        (Option.map-eq-some_iff (λ (x : NameRow). x.name) (find (active_of pk) rs)).0 e' in
      let apart = All-find (λ y. same_name r y ≡ false) (active_of pk) rs n.0 found in
      ground (
        arith,
        apart,
        same,
        text_eq_iff r.name name,
        text_eq_iff r.name s.name,
        key_in-of-name_in name pk rs n.1 e',
      )
]

-- In a database with unique keys the two lookups are inverse to one another: a name resolves to a
-- key exactly when that key's reverse lookup gives the name.
pub lookup-iff-name_of :
    (db : Db) (name pk : Text)
    → IsKeyed db
    → (lookup db name ≡ some pk) ↔ (name_of db pk ≡ some name)
unfolding lookup name_of
lookup-iff-name_of db name pk v =
    (name_in-of-key_in name pk db.names v.owners, key_in-of-name_in name pk db.names v.names)

-- After a release the name is free, and every other name resolves as before.
pub lookup-release_name :
    (db : Db) (name : Text) (now : ℤ)
    → Leaves
        (λ db'. (lookup db' name ≡ none) × ((n : Text) → n ≢ name → lookup db' n ≡ lookup db n))
        (release_name db name now)
unfolding release_name lookup
lookup-release_name db name now = (
  ap (Option.map (λ r. r.pubkey)) (
      find-update_where-none (active_named name) (active_named name)
        (λ r. record r { released_at = some now }) db.names (λ r h. ground arith) (λ r h. h)),
  λ n ne. ap (Option.map (λ r. r.pubkey)) (
      find-update_where (active_named n) (active_named name)
        (λ r. record r { released_at = some now }) db.names
        (λ r h. ground (arith, ne, text_eq_iff r.name name, text_eq_iff r.name n))
        (λ r h. ground arith)),
)

revived-found :
    (name : Text) (x : NameRow) (rs : List NameRow)
    → active_named name x ≡ true
    → any (named name) rs ≡ true
    → find (active_named name) (update_where (named name) (λ _. x) rs) ≡ some x
revived-found name x [] h e = absurd (cc)
revived-found name x (r ∷ rs) h e = ground (arith, revived-found name x rs h)

lookup-upsert_name :
    (db : Db) (name pk : Text) (now : ℤ)
    → upsert_name db name pk now ≢ changed 0 db
    → Leaves
        (λ db'. (lookup db' name ≡ some pk) × ((n : Text) → n ≢ name → lookup db' n ≡ lookup db n))
        (upsert_name db name pk now)
unfolding upsert_name lookup
lookup-upsert_name db name pk now h = elim (Option-cases (find (named name) db.names)) [
  | inl e ↦ elim (Bool-cases (any (active_of pk) db.names)) [
    | inl t ↦ rw (e, t, upsert_name) tt
    | inr t ↦
        rw (e, t, upsert_name)
          (ground (arith, text_eq_refl name), λ n ne. ground (arith, text_eq_iff name n, ne))
  ]
  | inr (r, e) ↦ elim (Bool-cases (is_active r)) [
    | inl a ↦ absurd (h (rw (e, a, upsert_name)))
    | inr a ↦ elim (Bool-cases (any (active_of pk) db.names)) [
      | inl t ↦ rw (e, a, t, upsert_name) tt
      | inr t ↦
          rw (e, a, t, upsert_name)
            (
              ap (Option.map (λ r. r.pubkey)) (
                  revived-found name _ db.names (ground (arith, text_eq_refl name))
                    (any-of-find (named name) db.names e)),
              λ n ne. ap (Option.map (λ r. r.pubkey)) (
                  find-update_where (active_named n) (named name)
                    (λ _. record { name = name; pubkey = pk; created_at = now; released_at = none })
                    db.names
                    (λ x k. ground (arith, ne, text_eq_iff x.name name, text_eq_iff x.name n))
                    (λ x k. ground (arith, ne, text_eq_iff name n))),
            )
    ]
  ]
]

-- A registration that changes a row makes the name resolve to the new key, and every other name
-- resolves as before.
pub upsert_name-acquires :
    (db db' : Db) (name pk : Text) (now : ℤ)
    → upsert_name db name pk now ≡ changed 1 db'
    → (lookup db' name ≡ some pk) × ((n : Text) → n ≢ name → lookup db' n ≡ lookup db n)
upsert_name-acquires db db' name pk now e =
    rw e at (lookup-upsert_name db name pk now (rw e (λ k. cc)))

reassigned-found :
    (name seller buyer : Text) (now : ℤ) (rs : List NameRow)
    → key_in name rs ≡ some seller
    → key_in name (
        update_where (owned_by name seller) (λ r. record r { pubkey = buyer; created_at = now }) rs)
      ≡ some buyer
reassigned-found name seller buyer now [] e = absurd (cc)
reassigned-found name seller buyer now (r ∷ rs) e = elim (Bool-cases (active_named name r)) [
  | inl t ↦ ground (arith, text_eq_iff r.pubkey seller)
  | inr t ↦ ground (arith, reassigned-found name seller buyer now rs)
]

-- Where the seller owns the name, a reassignment that the index admits makes the name resolve to
-- the buyer; no other name is touched.
pub lookup-reassign_name :
    (db : Db) (name buyer : Text) (now : ℤ) (seller : Text)
    → lookup db name ≡ some seller
    → Leaves
        (λ db'.
          (lookup db' name ≡ some buyer) × ((n : Text) → n ≢ name → lookup db' n ≡ lookup db n))
        (reassign_name db name buyer now seller)
unfolding reassign_name lookup
lookup-reassign_name db name buyer now seller owned =
    elim (Bool-cases (
      any (owned_by name seller) db.names
      && any (λ r. not (owned_by name seller r) && active_of buyer r) db.names)) [
        | inl e ↦ rw (e, reassign_name) tt
        | inr e ↦
            rw (e, reassign_name)
              (
                reassigned-found name seller buyer now db.names owned,
                λ n ne. ap (Option.map (λ r. r.pubkey)) (
                    find-update_where (active_named n) (owned_by name seller)
                      (λ r. record r { pubkey = buyer; created_at = now }) db.names
                      (λ x k. ground (arith, ne, text_eq_iff x.name name, text_eq_iff x.name n))
                      (λ x k. ground (arith, ne, text_eq_iff x.name name, text_eq_iff x.name n))),
              )
      ]
