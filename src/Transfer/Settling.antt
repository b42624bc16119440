-- ===== src/Transfer/Settling.antt =====
-- The steps of a claim that pass, and the decision on a claim that meets its conditions.
use goblin_nip05d.ClaimTxn.Settles.{Settles, run_claim_txn-Settles}
use mathlib.Core.Option
use goblin_nip05d.Text.Equality.{text_eq-of-eq, text_eq_refl}
use goblin_nip05d.ClaimTxn.Commits.{run_claim_txn-Commits}
use goblin_nip05d.Db.Keys.{IsKeyed}
use goblin_nip05d.Registry.Success.{query-answers}
use goblin_nip05d.Proof.{ParsedPaymentProof, normalize_grin_address, verify_signatures}
use goblin_nip05d.Platform.{Platform}
use goblin_nip05d.Prelude.Int.{leb_ℤ, ℤ, cast_i64}
use goblin_nip05d.App.Moment.{Moment, arm_cooldown, KernelResult, query, query_any, unix_now}
use goblin_nip05d.App.Passes.{next-passes, gets-passes, require-passes, unwrap_or-passes}
use goblin_nip05d.Transfer.Claim.{
  check_consumed, check_holder, claim_success, commit_claim, death_height, finish_claim, is_dead,
  settled_before, amount_matches, ask_kernel, confirmed, decide_claim,
}
use goblin_nip05d.ClaimTxn.{TxErr, ok, run_claim_txn, Site, at_lookup, at_name_of, at_excess}
use goblin_nip05d.Text.{Text}
use goblin_nip05d.Prelude.{
  Option, arith, none, refl, some, true, ◌≡◌, false, ◌∙◌, Bool, if◌then◌else◌,
}
use goblin_nip05d.Config.{Config}
use goblin_nip05d.Transfer.{settle_expiry, is_owner}
use goblin_nip05d.Db.{Db, OfferRow, live, excess_used, lookup, name_of, transfer_for_offer}
use goblin_nip05d.App.{◌>>=◌, ◌>>◌, App, Handler, Response, modify, pure, run}

pub check_consumed-passes :
    (mo : Moment) (cfg : Config) (id excess : Text) (o : OfferRow) (k : Handler Response) (s : App)
    → o.status ≡ live
    → run (check_consumed mo cfg id excess o >> k) s ≡ run k s
unfolding check_consumed ◌>>=◌ run pure
check_consumed-passes mo cfg id excess o k s h = rw (h, check_consumed) refl

check_holder-passes :
    (existing : Option Text) (k : Handler Response) (s : App)
    → existing ≡ none
    → run (check_holder existing >> k) s ≡ run k s
unfolding check_holder ◌>>=◌ run pure
check_holder-passes none k s h = refl
check_holder-passes (some name) k s h = cc

pub settle_expiry-passes :
    (mo : Moment) (o : OfferRow) (now : ℤ) (k : OfferRow → Handler Response) (s : App)
    → leb_ℤ now o.expiration ≡ true
    → run (settle_expiry mo o now >>= k) s ≡ run (k o) s
unfolding settle_expiry pure
settle_expiry-passes mo o now k s h =
    next-passes (settle_expiry mo o now) k o s s (ground (arith, h))

death_height-live :
    (grace : ℤ) (o : OfferRow) (now : ℤ) → o.status ≡ live → death_height grace o now ≡ some none
unfolding death_height is_dead
death_height-live grace o now h = rw (h, death_height) refl

settled_before-none : (height : Option ℤ) → settled_before none height ≡ true
unfolding settled_before
settled_before-none height = refl

pub is_owner_self : (seller : Text) → is_owner (some seller) seller ≡ true
unfolding is_owner
is_owner_self seller = text_eq_refl seller

pub query_any-answers :
    (fails b : Bool) → fails ≡ false → b ≡ false → (if fails then false else b) ≡ false
query_any-answers fails b f h = ground arith

commit-passes :
    (mo : Moment) (o : OfferRow) (excess : Text) (height : Option ℤ) (now : ℤ)
    (k : Option TxErr → Handler Response) (s : App) (db' : Db)
    → run_claim_txn mo.fails s.db o excess height now ≡ ok db'
    → run (commit_claim mo o excess height now >>= k) s ≡ run (k none) (record s { db = db' })
unfolding commit_claim modify
commit-passes mo o excess height now k s db' h =
    next-passes (commit_claim mo o excess height now) k none s (record s { db = db' })
      (rw (h, commit_claim) refl)

finish-created :
    (mo : Moment) (cfg : Config) (o : OfferRow) (s : App)
    → (t : App) × (run (finish_claim mo cfg o none) s
        ≡ (t, claim_success 201 o.name cfg o.buyer_pubkey))
      × (t.db ≡ s.db)
unfolding finish_claim arm_cooldown modify ◌>>=◌ run pure
finish-created mo cfg o s = (_, refl, refl)

module _ (mo : Moment) (pf : Platform) where
  -- What the steps after the authorization need of a live offer: the buyer claims it, the seller still
  -- holds the name, the proof is right, the node confirms its kernel, the buyer has no name, neither
  -- the excess nor the offer has been spent, and no statement fails.
  pub record CanSettle (pubkey : Text) (proof : ParsedPaymentProof) (o : OfferRow) (s : App)
      : Type 0 where
    pub kernel : KernelResult
    pub is_live : o.status ≡ live
    pub buyer : pubkey ≡ o.buyer_pubkey
    pub owned : lookup s.db o.name ≡ some o.seller_pubkey
    pub proven : verify_signatures pf proof ≡ true
    pub to_seller : normalize_grin_address pf proof.recipient_address ≡ o.proof_address
    pub pays : amount_matches o.price_nanogrin proof.amount ≡ true
    pub on_chain : ask_kernel mo proof.excess_hex ≡ some kernel
    pub confirms : confirmed s.cfg.transfer_min_conf kernel ≡ true
    pub unused : excess_used s.db proof.excess_hex ≡ false
    pub untaken : transfer_for_offer s.db o.offer_id ≡ none
    pub no_other : name_of s.db o.buyer_pubkey ≡ none
    pub no_fault : (site : Site) → mo.fails site ≡ false

  pub decide_claim-run :
      (pubkey : Text) (proof : ParsedPaymentProof) (o : OfferRow) (s : App)
      → IsKeyed s.db
      → CanSettle pubkey proof o s
      → (t : App) × (run (decide_claim mo pf s.cfg pubkey proof o) s
          ≡ (t, claim_success 201 o.name s.cfg o.buyer_pubkey))
        × Settles s.db o proof.excess_hex t.db
  unfolding decide_claim query query_any
  decide_claim-run pubkey proof o s v c =
      let height = Option.map cast_i64 c.kernel.height in
      let (db', commits) =
        run_claim_txn-Commits mo.fails s.db o proof.excess_hex height (unix_now mo) v c.owned
          c.no_other c.unused c.untaken c.no_fault in
      let (t, ends, same) = finish-created mo s.cfg o (record s { db = db' }) in
      (
        t,
        unwrap_or-passes _ _ _ _
              (death_height-live s.cfg.transfer_claim_grace o (unix_now mo) c.is_live)
            ∙ require-passes _ _ _ _ (text_eq-of-eq c.buyer)
            ∙ gets-passes _ _ _ (query-answers _ _ _ (c.no_fault at_lookup) c.owned)
            ∙ require-passes _ _ _ _ (is_owner_self o.seller_pubkey)
            ∙ require-passes _ _ _ _ c.proven
            ∙ require-passes _ _ _ _ (text_eq-of-eq c.to_seller)
            ∙ require-passes _ _ _ _ c.pays
            ∙ unwrap_or-passes _ _ _ _ c.on_chain
            ∙ require-passes _ _ _ _ c.confirms
            ∙ require-passes _ _ _ _ (settled_before-none height)
            ∙ gets-passes _ _ _ (query_any-answers _ _ (c.no_fault at_excess) c.unused)
            ∙ require-passes _ _ _ _ refl
            ∙ gets-passes _ _ _ (query-answers _ _ _ (c.no_fault at_name_of) c.no_other)
            ∙ check_holder-passes _ _ _ refl
            ∙ commit-passes mo o proof.excess_hex height (unix_now mo) _ s db' commits
            ∙ ends,
        rw same (
            run_claim_txn-Settles mo.fails s.db o proof.excess_hex height (unix_now mo) db' v
              commits),
      )
