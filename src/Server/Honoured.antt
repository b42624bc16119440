-- ===== src/Server/Honoured.antt =====
-- A lodging, and the claim of its offer at any later time.
use goblin_nip05d.Text.Number.{parse_u64-lt}
use goblin_nip05d.Prelude.Int.{cast_i64, pos, u64_mod}
use goblin_nip05d.App.Moment.{Moment}
use goblin_nip05d.Transfer.Lodge.{Lodged}
use goblin_nip05d.Transfer.Sound.{Claimed}
use goblin_nip05d.Transfer.Claim.{amount_matches}
use goblin_nip05d.History.Offers.{SameTerms, SameTerms-trans}
use goblin_nip05d.Server.Later.{Later}
use goblin_nip05d.Server.Lasting.{Later-Kept}
use goblin_nip05d.ClaimTxn.Settles.{Settles}
use goblin_nip05d.Proof.{normalize_grin_address}
use goblin_nip05d.Text.{Text, trim}
use goblin_nip05d.Prelude.{List, ap, refl, some, sym, true, ℕ, ◌∙◌, ◌≡◌, arith, ◌%◌, ◌<◌}
use goblin_nip05d.App.{App, Response}
use goblin_nip05d.Platform.{Json, Platform}
use goblin_nip05d.Db.{Db, OfferRow, get_offer, lookup}
use mathlib.Core.Path.{subst}

same-lookup : (d e : Db) (n : Text) → e.names ≡ d.names → lookup d n ≡ lookup e n
unfolding lookup
same-lookup d e n h = rw h refl

moved-to :
    (t t' : Db) (row o : OfferRow) (excess : Text)
    → SameTerms row o
    → Settles t o excess t'
    → (lookup t row.name ≡ some row.seller_pubkey) × (lookup t' row.name ≡ some row.buyer_pubkey)
moved-to t t' row o excess terms done = (
  subst (λ n. lookup t n ≡ some row.seller_pubkey) terms.name
      (done.owned ∙ ap some terms.seller_pubkey),
  subst (λ n. lookup t' n ≡ some row.buyer_pubkey) terms.name
      (done.moved ∙ ap some terms.buyer_pubkey),
)

-- A price below 2^64 that survives the way through an i64 as a number is that number.
paid_price : (n p amount : ℕ) → n < u64_mod → cast_i64 n ≡ pos p → amount ≡ p % u64_mod → amount ≡ n
unfolding cast_i64
paid_price n p amount h e q = ground arith

module _ (pf : Platform) (js : Json) where
  -- A claim is settled on the terms that the seller signed: after a lodging of an offer, with any
  -- requests and restarts between, a claim of that offer that answers 201 has been paid exactly the
  -- number in the price tag, to the normalized address of the proof_address tag, by the lodged
  -- buyer, and the lodged name moves from its seller to that buyer.
  pub claim-of-lodged :
      (mo mo' : Moment) (body body' : List ℕ) (s s' t t' : App) (r : Response)
      (l : Lodged mo pf js body s s')
      → Later pf js s' t
      → (c : Claimed mo' pf js body' t t' r) → c.begun.offer_id ≡ l.event.id
      → SameTerms l.row c.begun.offer
        × (amount_matches l.row.price_nanogrin c.begun.proof.amount ≡ true)
        × (c.begun.proof.amount ≡ l.is_row.price)
        × (normalize_grin_address pf c.begun.proof.recipient_address
            ≡ normalize_grin_address pf l.is_row.tags.proof_address)
        × (c.begun.pubkey ≡ l.row.buyer_pubkey)
        × (lookup t.db l.row.name ≡ some l.row.seller_pubkey)
        × (lookup t'.db l.row.name ≡ some l.row.buyer_pubkey)
  claim-of-lodged mo mo' body body' s s' t t' r l later c same =
      let k = Later-Kept pf js s' t l.row l.row.offer_id later l.placed.stored in
      let id : c.begun.offer_id ≡ l.row.offer_id = same ∙ sym l.is_row.id in
      let found = subst (λ i. get_offer t.db i ≡ some c.begun.stored) id c.begun.is_stored in
      let stored : k.row ≡ c.begun.stored = cc (k.found, found) in
      let terms : SameTerms l.row c.begun.offer =
        SameTerms-trans l.row c.begun.stored c.begun.offer
          (subst (λ o. SameTerms l.row o) stored k.evolves.terms) c.begun.terms in
      let (owned, moved) =
        moved-to c.begun.s1.db t'.db l.row c.begun.offer _ terms c.paid.settled in
      (
        terms,
        subst (λ p. amount_matches p c.begun.proof.amount ≡ true) terms.price_nanogrin c.paid.pays,
        paid_price l.is_row.price c.paid.price.0 c.begun.proof.amount
            (parse_u64-lt (trim l.is_row.tags.price) l.is_row.price l.is_row.priced)
            (sym l.is_row.stored_price ∙ sym terms.price_nanogrin ∙ c.paid.price.1) c.paid.price.2,
        c.paid.to_seller ∙ terms.proof_address ∙ l.is_row.address,
        c.paid.buyer ∙ terms.buyer_pubkey,
        same-lookup t.db c.begun.s1.db l.row.name c.begun.expiry.names ∙ owned,
        moved,
      )
