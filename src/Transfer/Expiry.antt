-- ===== src/Transfer/Expiry.antt =====
-- The expiry of an offer (src/handlers/transfer.rs): the row it gives and what it changes.
use goblin_nip05d.Text.Equality.{eq-of-text_eq, text_eq_refl}
use goblin_nip05d.Prelude.Int.{leb_ℤ, ℤ}
use goblin_nip05d.App.Moment.{Moment, execute, failure, query, settle}
use goblin_nip05d.History.Offers.{Evolves-refl, Kept, SameTerms, SameTerms-refl, mark-Kept}
use goblin_nip05d.Db.Keys.{IsKeyed}
use goblin_nip05d.Db.Updates.{mark_offer_dead-IsKeyed}
use goblin_nip05d.ClaimTxn.{at_mark, at_reread}
use goblin_nip05d.Text.{Text}
use goblin_nip05d.Prelude.{
  Bool, Bool-cases, Option, arith, false, find-holds, find-update_where_map, if◌then◌else◌, inl,
  inr, none, not, refl, some, sym, true, ◌&&◌, ◌||◌, ◌≡◌,
}
use goblin_nip05d.Transfer.{settle_expiry, tip}
use goblin_nip05d.Db.{Db, OfferRow, expired, get_offer, is_live, mark_offer_dead, offer_at}
use goblin_nip05d.History.{after_exec, by_expiry}
use mathlib.Core.Path.{subst}
use goblin_nip05d.App.{◌>>=◌, App, gets, modify, next, pure}

pub get_offer-id : (db : Db) (id : Text) (o : OfferRow) → get_offer db id ≡ some o → o.offer_id ≡ id
unfolding get_offer
get_offer-id db id o h = eq-of-text_eq o.offer_id id (find-holds (offer_at id) db.offers h)

-- A stored offer is stored under its own id.
pub get_offer-own_id :
    (db : Db) (id : Text) (o : OfferRow)
    → get_offer db id ≡ some o
    → get_offer db o.offer_id ≡ some o
get_offer-own_id db id o h = subst (λ i. get_offer db i ≡ some o) (sym (get_offer-id db id o h)) h

-- The row as the expiry writes it.
abbrev pub expire : Option ℤ → ℤ → OfferRow → OfferRow
expire height now o = record o {
  status = expired;
  end_height = height;
  state_changed_at = some now;
}

pub marked-found :
    (db : Db) (id : Text) (height : Option ℤ) (now : ℤ) (o : OfferRow)
    → get_offer db id ≡ some o
    → is_live o.status ≡ true
    → get_offer (after_exec db (mark_offer_dead db o.offer_id expired height now)) o.offer_id
      ≡ some (expire height now o)
unfolding get_offer mark_offer_dead
marked-found db id height now o h alive =
    let own = get_offer-own_id db id o h in
    let hit = λ (x : OfferRow). offer_at o.offer_id x && is_live x.status in
    let found =
      find-update_where_map (offer_at o.offer_id) hit (expire height now) db.offers (λ x. refl)
        own in
    let passes : hit o ≡ true = rw (text_eq_refl o.offer_id, alive) refl in rw passes at found

-- The expiry of an offer touches the table of offers only.
pub record Expires (s s1 : App) : Type 0 where
  pub names : s1.db.names ≡ s.db.names
  pub transfers : s1.db.transfers ≡ s.db.transfers
  pub cfg : s1.cfg ≡ s.cfg
  pub keyed : IsKeyed s.db → IsKeyed s1.db

pub Expires-refl : (s : App) → Expires s s
Expires-refl s = record { names = refl; transfers = refl; cfg = refl; keyed = λ h. h }

-- What the expiry makes of a stored row at a moment: nothing if the row is not live or its term has not
-- passed; otherwise the row expires at the tip of the chain, unless the write or the second read fails.
pub data Settlement (mo : Moment) (now : ℤ) (stored o : OfferRow) : Type 0 where
  in_term_still :
      not (is_live stored.status) || leb_ℤ now stored.expiration ≡ true
      → o ≡ stored
      → Settlement mo now stored o
  marked :
      is_live stored.status ≡ true
      → leb_ℤ now stored.expiration ≡ false
      → o ≡ expire (tip mo) now stored
      → Settlement mo now stored o
  unsaved :
      is_live stored.status ≡ true
      → leb_ℤ now stored.expiration ≡ false
      → mo.fails at_mark || mo.fails at_reread ≡ true
      → o ≡ stored
      → Settlement mo now stored o

module _ (mo : Moment) where
  mark_state : App → Text → ℤ → Bool → App
  unfolding mark_offer_dead
  mark_state s id now b =
      (if b then (s, failure) else settle s (mark_offer_dead s.db id expired (tip mo) now)).0

  mark-Expires : (s : App) (id : Text) (now : ℤ) (b : Bool) → Expires s (mark_state s id now b)
  unfolding mark_state mark_offer_dead
  mark-Expires s id now true = Expires-refl s
  mark-Expires s id now false = record {
    names = refl;
    transfers = refl;
    cfg = refl;
    keyed = mark_offer_dead-IsKeyed s.db id expired (tip mo) now;
  }

  -- The row after the expiry, read again.
  reread : OfferRow → App → OfferRow
  reread offer s1 = elim (if mo.fails at_reread then none else get_offer s1.db offer.offer_id) [
    | none ↦ offer
    | some o ↦ o
  ]

  mark_state-Kept :
      (offer : OfferRow) (s : App) (now : ℤ) (b : Bool)
      → get_offer s.db offer.offer_id ≡ some offer
      → Kept offer offer.offer_id (mark_state s offer.offer_id now b).db
  unfolding mark_state mark_offer_dead
  mark_state-Kept offer s now true h = record {
    row = offer;
    found = h;
    evolves = Evolves-refl offer;
  }
  mark_state-Kept offer s now false h =
      mark-Kept offer.offer_id by_expiry (tip mo) now s.db offer offer.offer_id h

  -- Whatever the second read gives, the terms are those of the first.
  reread-SameTerms :
      (offer : OfferRow) (s1 : App)
      → Kept offer offer.offer_id s1.db
      → SameTerms offer (reread offer s1)
  unfolding reread
  reread-SameTerms offer s1 k = elim (Bool-cases (mo.fails at_reread)) [
    | inl f ↦ rw (f, reread) (SameTerms-refl offer)
    | inr f ↦ rw (f, k.found, reread) k.evolves.terms
  ]

  unmarked :
      (offer : OfferRow) (s : App)
      → get_offer s.db offer.offer_id ≡ some offer
      → reread offer s ≡ offer
  unfolding reread
  unmarked offer s h = elim (Bool-cases (mo.fails at_reread)) [
    | inl f ↦ rw (f, reread) refl
    | inr f ↦ rw (f, h, reread) refl
  ]

  reread-Settlement :
      (offer : OfferRow) (s : App) (now : ℤ)
      → is_live offer.status ≡ true
      → leb_ℤ now offer.expiration ≡ false
      → get_offer s.db offer.offer_id ≡ some offer
      → Settlement mo now offer (reread offer (mark_state s offer.offer_id now (mo.fails at_mark)))
  unfolding reread mark_state mark_offer_dead
  reread-Settlement offer s now alive late h = elim (Bool-cases (mo.fails at_mark)) [
    | inl f ↦ unsaved alive late (rw f refl) (rw f (unmarked offer s h))
    | inr f ↦ elim (Bool-cases (mo.fails at_reread)) [
      | inl g ↦ unsaved alive late (ground arith) (rw (f, g, reread) refl)
      | inr g ↦
          marked alive late
            (rw (f, g, reread, marked-found s.db offer.offer_id (tip mo) now offer h alive) refl)
    ]
  ]

  pub settle_expiry-next :
      (offer : OfferRow) (now : ℤ) (s : App)
      → (o : OfferRow) × (s1 : App) × (settle_expiry mo offer now s ≡ next o s1)
        × Expires s s1
        × (get_offer s.db offer.offer_id ≡ some offer
            → SameTerms offer o × Settlement mo now offer o)
  unfolding settle_expiry pure execute query ◌>>=◌ modify gets mark_state reread
  settle_expiry-next offer now s =
      elim (Bool-cases (not (is_live offer.status) || leb_ℤ now offer.expiration)) [
        | inl p ↦
            (offer, s, rw p refl, Expires-refl s, λ h. (SameTerms-refl offer, in_term_still p refl))
        | inr p ↦ (
          reread offer (mark_state s offer.offer_id now (mo.fails at_mark)),
          mark_state s offer.offer_id now (mo.fails at_mark),
          rw p refl,
          mark-Expires s offer.offer_id now (mo.fails at_mark),
          λ h. (
            reread-SameTerms offer (mark_state s offer.offer_id now (mo.fails at_mark))
                (mark_state-Kept offer s now (mo.fails at_mark) h),
            reread-Settlement offer s now (ground arith) (ground arith) h,
          ),
        )
      ]
