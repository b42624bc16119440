-- ===== src/Transfer/Success.antt =====
-- When a claim succeeds.
use goblin_nip05d.Prelude.Int.{leb_ℤ}
use goblin_nip05d.App.Moment.{Moment, allow_write, auth_fresh, client_ip, query, unix_now}
use goblin_nip05d.App.Passes.{gets-passes, modify-passes, require-passes, unwrap_or-passes}
use goblin_nip05d.Transfer.Settling.{
  CanSettle, check_consumed-passes, decide_claim-run, settle_expiry-passes,
}
use goblin_nip05d.Transfer.Claim.{claim, claim_success, claimed_id}
use goblin_nip05d.ClaimTxn.Settles.{Settles}
use goblin_nip05d.Db.Keys.{IsKeyed}
use goblin_nip05d.Registry.Success.{authenticate-passes, query-answers}
use goblin_nip05d.Proof.{ParsedPaymentProof, parse_payment_proof}
use goblin_nip05d.ClaimTxn.{at_get_offer}
use goblin_nip05d.RateLimit.{allow, auth_event_fresh}
use goblin_nip05d.Auth.{authorized, verify_nip98}
use goblin_nip05d.Text.{Text, lit}
use goblin_nip05d.Prelude.{List, refl, some, true, ℕ, ◌∙◌, ◌≡◌}
use goblin_nip05d.Platform.{Json, Platform}
use goblin_nip05d.Db.{OfferRow, get_offer}
use goblin_nip05d.App.{App, run}

module _ (mo : Moment) (pf : Platform) (js : Json) where
  open js use {from_slice, get}

  -- What a claim needs before those steps.
  pub record CanClaim (body : List ℕ) (s : App) (o : OfferRow) : Type 1 where
    pub pubkey : Text
    pub auth_id : Text
    pub req : js.Value
    pub offer_id : Text
    pub proof_val : js.Value
    pub proof : ParsedPaymentProof
    pub in_rate :
        (allow s.rate
          (lit "transfer")
          (client_ip mo.headers)
          s.cfg.write_rate_max
          s.cfg.write_rate_window
          mo.allow_at).1
        ≡ true
    pub signed :
        verify_nip98 pf mo.auth_time mo.headers
          (lit "POST")
          (lit "/api/v1/transfer/claim")
          body
          s.cfg.base_url
          s.cfg.auth_max_age_secs
        ≡ authorized (pubkey, auth_id)
    pub first_use : (auth_event_fresh s.seen auth_id s.cfg.auth_max_age_secs mo.fresh_at).1 ≡ true
    pub asked : from_slice body ≡ some req
    pub names_offer : claimed_id pf js req ≡ some offer_id
    pub gives_proof : get req (lit "proof") ≡ some proof_val
    pub parsed : parse_payment_proof js pf proof_val ≡ some proof
    pub stored : get_offer s.db offer_id ≡ some o
    pub unexpired : leb_ℤ (unix_now mo) o.expiration ≡ true
    pub settles : CanSettle mo pf pubkey proof o s

  later-CanSettle :
      (pubkey : Text) (proof : ParsedPaymentProof) (o : OfferRow) (s t : App)
      → t.db ≡ s.db
      → t.cfg ≡ s.cfg
      → CanSettle mo pf pubkey proof o s
      → CanSettle mo pf pubkey proof o t
  later-CanSettle pubkey proof o s t e f c = record {
    kernel = c.kernel;
    is_live = c.is_live;
    buyer = c.buyer;
    owned = rw e c.owned;
    proven = c.proven;
    to_seller = c.to_seller;
    pays = c.pays;
    on_chain = c.on_chain;
    confirms = rw f c.confirms;
    unused = rw e c.unused;
    untaken = rw e c.untaken;
    no_other = rw e c.no_other;
    no_fault = c.no_fault;
  }

  -- In a database with unique keys, the buyer of a live offer before its expiration who pays gets the
  -- name: a claim within the rate limit, with a fresh authorization by the buyer and a valid proof of
  -- a confirmed payment of the price to the seller's address, answers 201, if the seller still holds
  -- the name, the buyer has none, the excess and the offer are not spent, and no statement fails. The
  -- name has then moved to the buyer, and the excess and the offer are spent.
  pub claim-Created :
      (body : List ℕ) (s : App) (o : OfferRow)
      → IsKeyed s.db
      → (c : CanClaim body s o)
      → (t : App) × (run (claim mo pf js body) s
          ≡ (t, claim_success 201 o.name s.cfg o.buyer_pubkey))
        × Settles s.db o c.proof.excess_hex t.db
  unfolding claim allow_write auth_fresh query claim_success
  claim-Created body s o v c =
      let (t, ran, done) =
        decide_claim-run mo pf c.pubkey c.proof o _ v
          (later-CanSettle c.pubkey c.proof o s _ refl refl c.settles) in
      let whole : run (claim mo pf js body) s ≡ (t, claim_success 201 o.name s.cfg o.buyer_pubkey) =
        modify-passes _ _ _
        ∙ require-passes _ _ _ _ c.in_rate
        ∙ gets-passes _ _ _ refl
        ∙ authenticate-passes _ _ _ c.signed
        ∙ modify-passes _ _ _
        ∙ require-passes _ _ _ _ c.first_use
        ∙ unwrap_or-passes _ _ _ _ c.asked
        ∙ unwrap_or-passes _ _ _ _ c.names_offer
        ∙ unwrap_or-passes _ _ _ _ c.gives_proof
        ∙ unwrap_or-passes _ _ _ _ c.parsed
        ∙ gets-passes _ _ _ (query-answers _ _ _ (c.settles.no_fault at_get_offer) c.stored)
        ∙ unwrap_or-passes _ _ _ _ refl
        ∙ settle_expiry-passes mo _ _ _ _ c.unexpired
        ∙ check_consumed-passes _ _ _ _ _ _ _ c.settles.is_live
        ∙ ran in
      (t, whole, done)
