-- ===== src/Db/Holders.antt =====
-- Who holds a name, and which names a key holds, before a statement on the names goes through.
use goblin_nip05d.Text.Equality.{eq-of-text_eq, text_eq_iff}
use goblin_nip05d.Db.Keys.{IsKeyed, same_name}
use goblin_nip05d.Db.Apart.{Apart}
use goblin_nip05d.Text.{Text}
use goblin_nip05d.Prelude.{
  All, Bool, Bool-cases, List, Option-cases, [], any, arith, false, find, find-holds, inl, inr,
  none, not, refl, some, true, ℕ, ◌&&◌, ◌∷◌, ◌≡◌, ◌≢◌, ◌⊎◌, find-none, update_where,
}
use goblin_nip05d.Db.{
  Db, NameRow, active_named, active_of, changed, is_active, lookup, named, owned_by, reassign_name,
  upsert_name, name_of,
}
use mathlib.Core.Option
use goblin_nip05d.Prelude.Int.{ℤ}

-- What is found passes a second test, so something does.
found-any :
    {A : Type 0} (p q : A → Bool) (xs : List A) {a : A}
    → find p xs ≡ some a
    → q a ≡ true
    → any q xs ≡ true
found-any p q [] e h = absurd (cc)
found-any p q (x ∷ xs) {a} e h = ground (arith, found-any p q xs {a = a})

unnamed-free :
    (name : Text) (rs : List NameRow)
    → find (named name) rs ≡ none
    → find (active_named name) rs ≡ none
unnamed-free name [] h = refl
unnamed-free name (r ∷ rs) h = ground (arith, unnamed-free name rs)

-- A released row is the only one of its name.
released-free :
    (name : Text) (r : NameRow) (rs : List NameRow)
    → Apart same_name rs
    → find (named name) rs ≡ some r
    → is_active r ≡ false
    → find (active_named name) rs ≡ none
released-free name r [] a e h = absurd (cc)
released-free name r (s ∷ rs) a e h = elim (Bool-cases (named name s)) [
  | inl t ↦ let off = alone s rs (eq-of-text_eq s.name name t) a.0 in ground (arith, off, t)
  | inr t ↦ ground (arith, released-free name r rs a.1)
]
  where
    alone :
        (s : NameRow) (rs : List NameRow)
        → s.name ≡ name
        → All (λ y. same_name s y ≡ false) rs
        → find (active_named name) rs ≡ none
    alone s [] k f = refl
    alone s (y ∷ ys) k f =
        ground (arith, alone s ys k f.1, f.0, k, text_eq_iff s.name y.name, text_eq_iff y.name name)

-- A registration that changes the table finds the name free and the key without a name.
pub upsert_name-cases :
    (db : Db) (name pk : Text) (now : ℤ) {n : ℕ} {db' : Db}
    → IsKeyed db
    → upsert_name db name pk now ≡ changed n db'
    → ((n ≡ 0) × (db' ≡ db))
      ⊎ ((n ≡ 1) × (lookup db name ≡ none) × (any (active_of pk) db.names ≡ false))
unfolding upsert_name lookup
upsert_name-cases db name pk now v h = elim (Option-cases (find (named name) db.names)) [
  | inl e ↦ elim (Bool-cases (any (active_of pk) db.names)) [
    | inl t ↦ absurd (cc (rw (e, t, upsert_name) at h))
    | inr t ↦
        let free = unnamed-free name db.names e in
        inr (ground (arith, rw (e, t, upsert_name) at h), rw free refl, t)
  ]
  | inr (r, e) ↦ elim (Bool-cases (is_active r)) [
    | inl a ↦ (let k = (rw (e, a, upsert_name) at h) in inl (ground (arith, k), ground (arith, k)))
    | inr a ↦ elim (Bool-cases (any (active_of pk) db.names)) [
      | inl t ↦ absurd (cc (rw (e, a, t, upsert_name) at h))
      | inr t ↦
          let free = released-free name r db.names v.names e a in
          inr (ground (arith, rw (e, a, t, upsert_name) at h), rw free refl, t)
    ]
  ]
]

-- A key without an active row holds no name.
pub lookup-other_key :
    (db : Db) (pk : Text) (q : NameRow → Bool)
    → any q db.names ≡ false
    → (n : Text) → ((r : NameRow) → active_named n r ≡ true → r.pubkey ≡ pk → q r ≡ true)
    → lookup db n ≢ some pk
unfolding lookup
lookup-other_key db pk q none_of n step h =
    let (r, found, same) =
      (Option.map-eq-some_iff (λ (x : NameRow). x.pubkey) (find (active_named n) db.names)).0 h in
    let hit = step r (find-holds (active_named n) db.names found) same in
    absurd (cc (found-any (active_named n) q db.names found hit, none_of))

-- The seller's row is one that the reassignment changes.
owned-any :
    (db : Db) (name seller : Text)
    → lookup db name ≡ some seller
    → any (owned_by name seller) db.names ≡ true
unfolding lookup
owned-any db name seller h =
    let (r, found, same) =
      (Option.map-eq-some_iff (λ (x : NameRow). x.pubkey) (find (active_named name) db.names)).0
        h in
    let act = find-holds (active_named name) db.names found in
    found-any (active_named name) (owned_by name seller) db.names found
      (ground (arith, act, same, text_eq_iff r.pubkey seller))

-- A reassignment that goes through finds the name with the seller, and no other name with the buyer.
pub reassign_name-others :
    (db : Db) (name buyer : Text) (now : ℤ) (seller : Text) {n : ℕ} {db' : Db}
    → reassign_name db name buyer now seller ≡ changed n db'
    → lookup db name ≡ some seller
    → (m : Text) → m ≢ name
    → lookup db m ≢ some buyer
unfolding reassign_name
reassign_name-others db name buyer now seller e owned m ne =
    lookup-other_key db buyer (λ r. not (owned_by name seller r) && active_of buyer r)
      (ground (arith, owned-any db name seller owned)) m
      (λ r act same. ground (
        arith,
        act,
        same,
        ne,
        text_eq_iff r.name m,
        text_eq_iff r.name name,
        text_eq_iff r.pubkey buyer,
      ))

pub unheld :
    (pk : Text) (rs : List NameRow)
    → Option.map (λ r. r.name) (find (active_of pk) rs) ≡ none
    → any (active_of pk) rs ≡ false
unheld pk rs h = find-none (active_of pk) rs ((Option.map-eq-none_iff _ _).0 h)

-- The row of a free name, if there is one, has been released.
inactive :
    (name : Text) (rs : List NameRow) {r : NameRow}
    → find (active_named name) rs ≡ none
    → find (named name) rs ≡ some r
    → is_active r ≡ false
inactive name [] f e = absurd (cc)
inactive name (s ∷ rs) {r} f e = ground (arith, inactive name rs {r = r})

abbrev taken : Text → Text → ℤ → NameRow
taken name pk now = record { name = name; pubkey = pk; created_at = now; released_at = none }

-- A free name is taken by a key that has none.
pub upsert_name-works :
    (db : Db) (name pk : Text) (now : ℤ)
    → lookup db name ≡ none
    → name_of db pk ≡ none
    → (db' : Db) × (upsert_name db name pk now ≡ changed 1 db')
unfolding upsert_name lookup name_of
upsert_name-works db name pk now h k =
    let alone = unheld pk db.names k in
    let vacant = (Option.map-eq-none_iff _ _).0 h in
    elim (Option-cases (find (named name) db.names)) [
      | inl e ↦
          (record db { names = taken name pk now ∷ db.names }, rw (e, alone, upsert_name) refl)
      | inr (r, e) ↦ (
        record db { names = update_where (named name) (λ _. taken name pk now) db.names },
        rw (e, inactive name db.names vacant e, alone, upsert_name) refl,
      )
    ]
