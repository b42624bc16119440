-- ===== src/Db/Upsert.antt =====
-- Registration, the upsert of src/handlers/registry.rs, keeps the keys unique.
use goblin_nip05d.Text.Equality.{text_eq-of-eq, text_eq_iff}
use goblin_nip05d.Prelude.Int.{ℤ}
use goblin_nip05d.Db.Keys.{Apart-owners, IsKeyed, Leaves, fresh-owner, same_name}
use goblin_nip05d.Db.Apart.{All-of-any-false, Apart-update}
use goblin_nip05d.Text.{Text}
use goblin_nip05d.Prelude.{
  All, Bool, Bool-cases, List, Option-cases, [], any, arith, false, find, if◌then◌else◌, inl, inr,
  none, not, refl, update_where, ◌&&◌, ◌∷◌, ◌≡◌,
}
use goblin_nip05d.Db.{Db, NameRow, active_of, is_active, named, upsert_name}

module _ (name : Text) (x : NameRow) (is_x : x.name ≡ name) where
  -- The revived row keeps its name, so the names stay apart.
  revive-name :
      (r s : NameRow)
      → same_name r s ≡ false
      → same_name (if named name r then x else r) (if named name s then x else s) ≡ false
  revive-name r s h = ground (
    arith,
    text_eq_iff r.name name,
    text_eq_iff s.name name,
    text_eq_iff r.name s.name,
    text_eq_iff x.name s.name,
    text_eq_iff r.name x.name,
    text_eq_iff x.name x.name,
  )

free-of-any :
    (p : NameRow → Bool) (pk : Text) (rs : List NameRow)
    → All (λ r. active_of pk r ≡ false) rs
    → All (λ r. (not (p r) && active_of pk r) ≡ false) rs
free-of-any p pk [] h = tt
free-of-any p pk (r ∷ rs) h = (ground (arith, h.0), free-of-any p pk rs h.1)

new-name :
    (name : Text) (rs : List NameRow) (x : NameRow)
    → x.name ≡ name
    → find (named name) rs ≡ none
    → All (λ y. same_name x y ≡ false) rs
new-name name [] x e h = tt
new-name name (r ∷ rs) x e h = (
  ground (arith, text_eq_iff x.name r.name, text_eq_iff r.name name),
  new-name name rs x e (ground arith),
)

abbrev fresh_row : Text → Text → ℤ → NameRow
fresh_row name pubkey now = record {
  name = name;
  pubkey = pubkey;
  created_at = now;
  released_at = none;
}

insert-IsKeyed :
    {db : Db} (name pk : Text) (now : ℤ)
    → IsKeyed db
    → find (named name) db.names ≡ none
    → any (active_of pk) db.names ≡ false
    → IsKeyed (record db { names = fresh_row name pk now ∷ db.names })
insert-IsKeyed {db} name pk now v absent free = record {
  names = (new-name name db.names (fresh_row name pk now) refl absent, v.names);
  owners = (
    fresh-owner pk db.names (fresh_row name pk now) (text_eq-of-eq refl)
        (All-of-any-false (active_of pk) db.names free),
    v.owners,
  );
  offers = v.offers;
  transfers = v.transfers;
}

revive-IsKeyed :
    {db : Db} (name pk : Text) (now : ℤ)
    → IsKeyed db
    → any (active_of pk) db.names ≡ false
    → IsKeyed
        (record db { names = update_where (named name) (λ _. fresh_row name pk now) db.names })
revive-IsKeyed {db} name pk now v free = record {
  names =
      Apart-update same_name (named name) (λ _. fresh_row name pk now)
        (revive-name name (fresh_row name pk now) refl) db.names v.names;
  owners =
      Apart-owners (named name) (λ _. fresh_row name pk now) name pk (λ r. refl) (λ r h. h) db.names
        v.names v.owners
        (free-of-any (named name) pk db.names (All-of-any-false (active_of pk) db.names free));
  offers = v.offers;
  transfers = v.transfers;
}

-- Registration keeps the keys unique, on every branch of the upsert.
pub upsert_name-IsKeyed :
    (db : Db) (name pk : Text) (now : ℤ) → IsKeyed db → Leaves IsKeyed (upsert_name db name pk now)
unfolding upsert_name
upsert_name-IsKeyed db name pk now v = elim (Option-cases (find (named name) db.names)) [
  | inl e ↦ elim (Bool-cases (any (active_of pk) db.names)) [
    | inl t ↦ rw (e, t, upsert_name) tt
    | inr t ↦ rw (e, t, upsert_name) (insert-IsKeyed name pk now v e t)
  ]
  | inr (r, e) ↦ elim (Bool-cases (is_active r)) [
    | inl a ↦ rw (e, a, upsert_name) v
    | inr a ↦ elim (Bool-cases (any (active_of pk) db.names)) [
      | inl t ↦ rw (e, a, t, upsert_name) tt
      | inr t ↦ rw (e, a, t, upsert_name) (revive-IsKeyed name pk now v t)
    ]
  ]
]
