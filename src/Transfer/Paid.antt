-- ===== src/Transfer/Paid.antt =====
-- The steps of a claim from the third on, passed with 201 (`decide_claim`).
use goblin_nip05d.Proof.Signed.{Signed, verify_signatures-Signed}
use goblin_nip05d.Transfer.Payment.{
  InTime, InTime-intro, amount_matches-price, confirmed-deep, confirmed-found,
}
use goblin_nip05d.Transfer.Steps.{check_holder-Ended, commit-Ended, dead_err-status}
use goblin_nip05d.Text.Equality.{eq-of-text_eq}
use mathlib.Core.Option
use goblin_nip05d.Proof.{ParsedPaymentProof, normalize_grin_address, verify_signatures}
use goblin_nip05d.Platform.{Platform}
use goblin_nip05d.Transfer.Claim.{
  amount_matches, ask_kernel, confirmed, death_height, settled_before, decide_claim,
}
use goblin_nip05d.Prelude.Int.{ℤ, cast_i64, pos, u64_mod}
use goblin_nip05d.App.Rules.{Ended, gets-Ended, require-Ended, unwrap_or-Ended}
use goblin_nip05d.App.Moment.{Moment, query, KernelResult, query_any, unix_now}
use goblin_nip05d.Db.Keys.{IsKeyed}
use goblin_nip05d.Text.{Text}
use goblin_nip05d.Prelude.{true, ◌≡◌, Option, arith, some, ℕ, ◌%◌, ◌≤◌}
use goblin_nip05d.Db.{OfferRow}
use goblin_nip05d.App.{App, Response, err}
use goblin_nip05d.ClaimTxn.Settles.{Settles, run_claim_txn-Settles}

module _ (mo : Moment) (pf : Platform) where
  -- If the offer was dead, it was paid and claimed in time; the buyer asked; both parties signed a proof that pays the
  -- price to the offer's address; the node has confirmed its kernel; and the name has moved.
  pub record Paid (pubkey : Text) (proof : ParsedPaymentProof) (offer : OfferRow) (s s' : App)
      : Type 0 where
    pub kernel : KernelResult
    pub death : Option ℤ
    pub buyer : pubkey ≡ offer.buyer_pubkey
    pub proven : verify_signatures pf proof ≡ true
    pub sealed : Signed pf proof
    pub to_seller : normalize_grin_address pf proof.recipient_address ≡ offer.proof_address
    pub pays : amount_matches offer.price_nanogrin proof.amount ≡ true
    pub on_chain : ask_kernel mo proof.excess_hex ≡ some kernel
    pub confirms : confirmed s.cfg.transfer_min_conf kernel ≡ true
    pub graced : death_height s.cfg.transfer_claim_grace offer (unix_now mo) ≡ some death
    pub in_time : settled_before death (Option.map cast_i64 kernel.height) ≡ true
    pub price : (p : ℕ) × (offer.price_nanogrin ≡ pos p) × (proof.amount ≡ p % u64_mod)
    pub found : kernel.found ≡ true
    pub deep : s.cfg.transfer_min_conf ≤ kernel.confirmations
    pub timely : InTime s.cfg.transfer_claim_grace (unix_now mo) offer kernel
    pub settled : Settles s.db offer proof.excess_hex s'.db

  -- Steps 3 to 11, passed with 201.
  pub decide_claim-Paid :
      (pubkey : Text) (proof : ParsedPaymentProof) (offer : OfferRow) (s s' : App) (r : Response)
      → IsKeyed s.db
      → Ended (decide_claim mo pf s.cfg pubkey proof offer) s s' r
      → r.status ≡ 201
      → Paid pubkey proof offer s s'
  unfolding decide_claim query query_any err
  decide_claim-Paid pubkey proof offer s s' r keyed h14 created =
      let dead = dead_err-status offer.status r created in
      let (death, graced, h15) = unwrap_or-Ended _ _ _ s s' r h14 dead in
      let (buyer, h16) = require-Ended _ _ _ s s' r h15 (omega arith) in
      let h17 = gets-Ended _ _ s s' r h16 in
      let (_, h18) = require-Ended _ _ _ s s' r h17 (omega arith) in
      let (proven, h19) = require-Ended _ _ _ s s' r h18 (omega arith) in
      let (address, h20) = require-Ended _ _ _ s s' r h19 (omega arith) in
      let (pays, h21) = require-Ended _ _ _ s s' r h20 (omega arith) in
      let (kernel, on_chain, h22) = unwrap_or-Ended _ _ _ s s' r h21 (omega arith) in
      let (confirms, h23) = require-Ended _ _ _ s s' r h22 (omega arith) in
      let (in_time, h24) = require-Ended _ _ _ s s' r h23 dead in
      let h25 = gets-Ended _ _ s s' r h24 in
      let (_, h26) = require-Ended _ _ _ s s' r h25 (omega arith) in
      let h27 = gets-Ended _ _ s s' r h26 in
      let h28 = check_holder-Ended _ _ s s' r h27 created in
      let height = Option.map cast_i64 kernel.height in
      let committed =
        commit-Ended mo s.cfg offer proof.excess_hex height (unix_now mo) s s' r h28 created in
      record {
        kernel = kernel;
        death = death;
        buyer = eq-of-text_eq pubkey offer.buyer_pubkey buyer;
        proven = proven;
        sealed = verify_signatures-Signed pf proof proven;
        to_seller = eq-of-text_eq _ _ address;
        pays = pays;
        on_chain = on_chain;
        confirms = confirms;
        graced = graced;
        in_time = in_time;
        price = amount_matches-price offer.price_nanogrin proof.amount pays;
        found = confirmed-found s.cfg.transfer_min_conf kernel confirms;
        deep = confirmed-deep s.cfg.transfer_min_conf kernel confirms;
        timely =
            InTime-intro s.cfg.transfer_claim_grace (unix_now mo) offer kernel death graced in_time;
        settled =
            run_claim_txn-Settles mo.fails s.db offer proof.excess_hex height (unix_now mo) s'.db
              keyed committed;
      }
