-- ===== src/Server/Once.antt =====
-- Two claims, at any two times.
use goblin_nip05d.Transfer.Expiry.{get_offer-id}
use goblin_nip05d.App.Moment.{Moment}
use goblin_nip05d.Transfer.Sound.{Claimed, claim-Claimed}
use goblin_nip05d.Transfer.Invariant.{claim-IsKeyed}
use goblin_nip05d.Transfer.Claim.{claim}
use goblin_nip05d.History.Ledger.{Grown, Grown-excess_used, Grown-transfer_for_offer}
use goblin_nip05d.Server.Later.{Later, Later-IsKeyed}
use goblin_nip05d.Server.Lasting.{Later-Grown}
use goblin_nip05d.ClaimTxn.Settles.{Settles}
use goblin_nip05d.Db.Keys.{IsKeyed}
use goblin_nip05d.Text.{Text}
use goblin_nip05d.Prelude.{List, none, sym, ℕ, ◌∙◌, ◌≡◌, ◌≢◌}
use goblin_nip05d.App.{App, Response, run}
use goblin_nip05d.Platform.{Json, Platform}
use goblin_nip05d.Db.{Db, OfferRow, transfer_for_offer}
use mathlib.Core.Path.{subst}

-- What a settlement has spent cannot be spent by one in a database that has grown from it.
spent-once :
    (o o' : OfferRow) (excess excess' : Text) (a b c d : Db)
    → Settles a o excess b
    → Grown b c
    → Settles c o' excess' d
    → (excess ≢ excess') × (o.offer_id ≢ o'.offer_id)
spent-once o o' excess excess' a b c d first g second = (
  λ e. absurd (cc (Grown-excess_used b c excess g first.used, second.unused, e)),
  λ e.
      Grown-transfer_for_offer b c o.offer_id _ g first.taken
        (subst (λ i. transfer_for_offer c i ≡ none) (sym e) second.untaken),
)

module _ (pf : Platform) (js : Json) where
  -- In a database with unique keys, a payment pays once and an offer is claimed once: if a claim answers
  -- 201, and after it, with any requests and restarts between, another one does, then the kernel excess
  -- of the two proofs and the ids of the two offers differ. Each of the two has done what a claim does.
  pub claim_once :
      (mo mo' : Moment) (body body' : List ℕ) (s s' t t' : App) (r r' : Response)
      → IsKeyed s.db
      → run (claim mo pf js body) s ≡ (s', r)
      → r.status ≡ 201
      → Later pf js s' t
      → run (claim mo' pf js body') t ≡ (t', r')
      → r'.status ≡ 201
      → (c : Claimed mo pf js body s s' r) × (d : Claimed mo' pf js body' t t' r')
        × (c.begun.proof.excess_hex ≢ d.begun.proof.excess_hex)
        × (c.begun.offer_id ≢ d.begun.offer_id)
  claim_once mo mo' body body' s s' t t' r r' keyed e created l e' created' =
      let keyed' : IsKeyed s'.db =
        subst (λ p. IsKeyed p.0.db) e (claim-IsKeyed mo pf js body s keyed) in
      let c = claim-Claimed mo pf js body s s' r keyed e created in
      let d =
        claim-Claimed mo' pf js body' t t' r' (Later-IsKeyed pf js s' t l keyed') e' created' in
      let g = Later-Grown pf js s' t l in
      let g' : Grown s'.db d.begun.s1.db = record {
        added = g.added;
        grows = d.begun.expiry.transfers ∙ g.grows;
      } in
      let (apart, ids) =
        spent-once c.begun.offer d.begun.offer _ _ _ _ _ _ c.paid.settled g' d.paid.settled in
      (
        c,
        d,
        apart,
        λ same. ids (
            c.begun.terms.offer_id
            ∙ get_offer-id s.db c.begun.offer_id c.begun.stored c.begun.is_stored
            ∙ same
            ∙ sym (get_offer-id t.db d.begun.offer_id d.begun.stored d.begun.is_stored)
            ∙ sym d.begun.terms.offer_id),
      )
