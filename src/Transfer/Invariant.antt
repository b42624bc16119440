-- ===== src/Transfer/Invariant.antt =====
-- The handlers of a transfer keep every closed property, the unique keys among them.
use goblin_nip05d.Prelude.Int.{leb_ℤ, ℤ}
use goblin_nip05d.App.Rules.{
  Keeps, Keeps-gets, Keeps-if, Keeps-modify, Keeps-pure, Keeps-require, Keeps-respond,
  Keeps-unwrap_or, run-keeps, ◌⨾◌,
}
use goblin_nip05d.App.Moment.{Moment, execute}
use goblin_nip05d.Transfer.Claim.{
  answer_retry, check_consumed, check_holder, claim, commit_claim, decide_claim, finish_claim,
  settle_claim,
}
use goblin_nip05d.History.Steps.{
  Keeps-allow_read, Keeps-allow_write, Keeps-arm_cooldown, Keeps-auth_fresh, Keeps-execute,
  Keeps-query, Keeps-query_any,
}
use goblin_nip05d.History.Keyed.{Keyed-IsClosed}
use goblin_nip05d.Db.Keys.{IsKeyed}
use goblin_nip05d.Registry.Invariant.{Keeps-authenticate}
use goblin_nip05d.Proof.{ParsedPaymentProof}
use goblin_nip05d.ClaimTxn.{Tx, TxErr, aborted, at_insert, at_mark, at_revoke, ok, run_claim_txn}
use goblin_nip05d.Text.{Text}
use goblin_nip05d.Prelude.{List, Option, none, not, refl, some, ℕ, ◌||◌}
use goblin_nip05d.Config.{Config}
use goblin_nip05d.Transfer.{
  finish_revoke, lodge_event, lodge_offer, read_offer, revoke_offer, settle_expiry, status_is,
}
use goblin_nip05d.Platform.{Event, Json, Platform}
use goblin_nip05d.Db.{
  Db, OfferRow, consumed, insert_offer, is_live, mark_offer_dead, revoked, set_status,
}
use goblin_nip05d.History.{
  Death, IsClosed, IsClosedFor, OnOffer, Statement, after_exec, apply, by_expiry, by_revocation,
  committed, death_status, exec,
}
use goblin_nip05d.App.{App, run}

module _ {S : Statement → Type 0} {P : App → Type 0} (c : IsClosedFor S P)
    (offers : (st : Statement) → OnOffer st → S st) (mo : Moment) where
  Keeps-mark :
      (id : Text) (death : Death) (height : Option ℤ) (now : ℤ)
      → Keeps P (execute mo at_mark (λ db. mark_offer_dead db id (death_status death) height now))
  unfolding exec
  Keeps-mark id death height now =
      Keeps-execute c mo at_mark _ (Statement.mark id death height now)
        (offers (Statement.mark id death height now) tt) (λ db. refl)

  Keeps-insert : (o : OfferRow) → Keeps P (execute mo at_insert (λ db. insert_offer db o))
  unfolding exec
  Keeps-insert o =
      Keeps-execute c mo at_insert _ (Statement.insert o) (offers (Statement.insert o) tt)
        (λ db. refl)

  Keeps-revoke : (id : Text) → Keeps P (execute mo at_revoke (λ db. set_status db id revoked))
  unfolding exec
  Keeps-revoke id =
      Keeps-execute c mo at_revoke _ (Statement.revoke id) (offers (Statement.revoke id) tt)
        (λ db. refl)

  Keeps-settle_expiry : (offer : OfferRow) (now : ℤ) → Keeps P (settle_expiry mo offer now)
  unfolding settle_expiry
  Keeps-settle_expiry offer now =
      Keeps-if (not (is_live offer.status) || leb_ℤ now offer.expiration) _ _ (Keeps-pure offer)
        (Keeps-mark _ by_expiry _ _ ⨾ λ _. Keeps-query mo _ _ ⨾ λ _. Keeps-pure _)

  Keeps-finish_revoke : (offer : OfferRow) → Keeps P (finish_revoke mo offer)
  unfolding finish_revoke
  Keeps-finish_revoke offer =
      Keeps-if (is_live offer.status) _ _ (Keeps-mark _ by_revocation _ _) (Keeps-revoke _)

  pub Keeps-read_offer : (id : Text) → Keeps P (read_offer mo id)
  unfolding read_offer
  Keeps-read_offer id = Keeps-allow_read c mo ⨾ λ _. Keeps-require _ _ ⨾ λ _.
      Keeps-query mo _ _ ⨾ λ _.
      Keeps-unwrap_or _ _ ⨾ λ _. Keeps-settle_expiry _ _ ⨾ λ _. Keeps-pure _

  module _ (pf : Platform) where
    pub Keeps-revoke_offer : (id : Text) → Keeps P (revoke_offer mo pf id)
    unfolding revoke_offer
    Keeps-revoke_offer id = Keeps-allow_write c mo _ ⨾ λ _. Keeps-require _ _ ⨾ λ _.
        Keeps-gets _ ⨾ λ _. Keeps-authenticate _ ⨾ λ _. Keeps-auth_fresh c mo _ ⨾ λ _.
        Keeps-require _ _ ⨾ λ _. Keeps-query mo _ _ ⨾ λ _. Keeps-unwrap_or _ _ ⨾ λ _.
        Keeps-require _ _ ⨾ λ _.
        Keeps-require _ _ ⨾ λ _. Keeps-require _ _ ⨾ λ _. Keeps-finish_revoke _ ⨾ λ _. Keeps-pure _

    Keeps-lodge_event : (cfg : Config) (event : Event) → Keeps P (lodge_event mo pf cfg event)
    unfolding lodge_event
    Keeps-lodge_event cfg event = Keeps-unwrap_or _ _ ⨾ λ _. Keeps-require _ _ ⨾ λ _.
        Keeps-require _ _ ⨾ λ _. Keeps-require _ _ ⨾ λ _. Keeps-unwrap_or _ _ ⨾ λ _.
        Keeps-require _ _ ⨾ λ _. Keeps-unwrap_or _ _ ⨾ λ _. Keeps-require _ _ ⨾ λ _.
        Keeps-query mo _ _ ⨾ λ _. Keeps-require _ _ ⨾ λ _. Keeps-query_any mo _ _ ⨾ λ _.
        Keeps-require _ _ ⨾ λ _.
        Keeps-query_any mo _ _ ⨾ λ _. Keeps-require _ _ ⨾ λ _. Keeps-insert _ ⨾ λ _. Keeps-pure _

    module _ (js : Json) where
      pub Keeps-lodge_offer : (body : List ℕ) → Keeps P (lodge_offer mo pf js body)
      unfolding lodge_offer
      Keeps-lodge_offer body = Keeps-allow_write c mo _ ⨾ λ _. Keeps-require _ _ ⨾ λ _.
          Keeps-gets _ ⨾ λ _. Keeps-authenticate _ ⨾ λ _. Keeps-auth_fresh c mo _ ⨾ λ _.
          Keeps-require _ _ ⨾ λ _. Keeps-unwrap_or _ _ ⨾ λ _. Keeps-unwrap_or _ _ ⨾ λ _.
          Keeps-unwrap_or _ _ ⨾ λ _. Keeps-require _ _ ⨾ λ _.
          Keeps-require _ _ ⨾ λ _. Keeps-require _ _ ⨾ λ _. Keeps-lodge_event _ _

module _ {P : App → Type 0} (c : IsClosed P) (mo : Moment) where
  Keeps-check_consumed :
      (cfg : Config) (id excess : Text) (offer : OfferRow)
      → Keeps P (check_consumed mo cfg id excess offer)
  unfolding check_consumed answer_retry
  Keeps-check_consumed cfg id excess offer =
      Keeps-if (status_is offer.status consumed) _ _ (Keeps-query mo _ _ ⨾ λ _. Keeps-respond _)
        (Keeps-pure tt)

  -- The transaction is one statement, with the failures that the request meets.
  Keeps-commit_claim :
      (offer : OfferRow) (excess : Text) (height : Option ℤ) (now : ℤ)
      → Keeps P (commit_claim mo offer excess height now)
  unfolding commit_claim apply exec
  Keeps-commit_claim offer excess height now = Keeps-modify _ λ s h.
      go s h (run_claim_txn mo.fails s.db offer excess height now)
        (c.statement s (Statement.settlement mo.fails offer excess height now) tt h)
    where
      go :
          (s : App)
          → P s
          → (x : Tx Db) → P (record s { db = after_exec s.db (committed s.db x) })
          → P (settle_claim s x).0
      go s h (ok db) k = unfold committed in k
      go s h (aborted e) k = h

  Keeps-finish_claim :
      (cfg : Config) (offer : OfferRow) (outcome : Option TxErr)
      → Keeps P (finish_claim mo cfg offer outcome)
  unfolding finish_claim
  Keeps-finish_claim cfg offer none = Keeps-arm_cooldown c mo _ ⨾ λ _. Keeps-pure _
  Keeps-finish_claim cfg offer (some e) = Keeps-respond _

  Keeps-check_holder : (existing : Option Text) → Keeps P (check_holder existing)
  unfolding check_holder
  Keeps-check_holder none = Keeps-pure tt
  Keeps-check_holder (some name) = Keeps-respond _

  module _ (pf : Platform) where
    Keeps-decide_claim :
        (cfg : Config) (pubkey : Text) (proof : ParsedPaymentProof) (offer : OfferRow)
        → Keeps P (decide_claim mo pf cfg pubkey proof offer)
    unfolding decide_claim
    Keeps-decide_claim cfg pubkey proof offer = Keeps-unwrap_or _ _ ⨾ λ _. Keeps-require _ _ ⨾ λ _.
        Keeps-query mo _ _ ⨾ λ _. Keeps-require _ _ ⨾ λ _. Keeps-require _ _ ⨾ λ _.
        Keeps-require _ _ ⨾ λ _. Keeps-require _ _ ⨾ λ _. Keeps-unwrap_or _ _ ⨾ λ _.
        Keeps-require _ _ ⨾ λ _. Keeps-require _ _ ⨾ λ _. Keeps-query_any mo _ _ ⨾ λ _.
        Keeps-require _ _ ⨾ λ _. Keeps-query mo _ _ ⨾ λ _.
        Keeps-check_holder _ ⨾ λ _. Keeps-commit_claim _ _ _ _ ⨾ λ _. Keeps-finish_claim _ _ _

    module _ (js : Json) where
      pub Keeps-claim : (body : List ℕ) → Keeps P (claim mo pf js body)
      unfolding claim
      Keeps-claim body = Keeps-allow_write c mo _ ⨾ λ _. Keeps-require _ _ ⨾ λ _.
          Keeps-gets _ ⨾ λ _. Keeps-authenticate _ ⨾ λ _. Keeps-auth_fresh c mo _ ⨾ λ _.
          Keeps-require _ _ ⨾ λ _. Keeps-unwrap_or _ _ ⨾ λ _. Keeps-unwrap_or _ _ ⨾ λ _.
          Keeps-unwrap_or _ _ ⨾ λ _. Keeps-unwrap_or _ _ ⨾ λ _. Keeps-query mo _ _ ⨾ λ _.
          Keeps-unwrap_or _ _ ⨾ λ _. Keeps-settle_expiry c (λ _ _. tt) mo _ _ ⨾ λ _.
          Keeps-check_consumed _ _ _ _ ⨾ λ _. Keeps-decide_claim _ _ _ _

module _ (mo : Moment) where
  -- Reading an offer, which may settle its expiry, keeps the unique keys, whichever way it ends.
  pub read_offer-IsKeyed :
      (id : Text) (s : App) → IsKeyed s.db → IsKeyed (run (read_offer mo id) s).0.db
  read_offer-IsKeyed id s h =
      run-keeps (read_offer mo id) s (Keeps-read_offer Keyed-IsClosed (λ _ _. tt) mo id) h

  module _ (pf : Platform) where
    -- A revocation keeps the unique keys, whichever way it ends.
    pub revoke_offer-IsKeyed :
        (id : Text) (s : App) → IsKeyed s.db → IsKeyed (run (revoke_offer mo pf id) s).0.db
    revoke_offer-IsKeyed id s h =
        run-keeps (revoke_offer mo pf id) s (Keeps-revoke_offer Keyed-IsClosed (λ _ _. tt) mo pf id)
          h

    module _ (js : Json) where
      -- A claim keeps the unique keys, whichever way it ends.
      pub claim-IsKeyed :
          (body : List ℕ) (s : App) → IsKeyed s.db → IsKeyed (run (claim mo pf js body) s).0.db
      claim-IsKeyed body s h =
          run-keeps (claim mo pf js body) s (Keeps-claim Keyed-IsClosed mo pf js body) h

      -- Lodging an offer keeps the unique keys, whichever way it ends.
      pub lodge_offer-IsKeyed :
          (body : List ℕ) (s : App)
          → IsKeyed s.db
          → IsKeyed (run (lodge_offer mo pf js body) s).0.db
      lodge_offer-IsKeyed body s h =
          run-keeps (lodge_offer mo pf js body) s
            (Keeps-lodge_offer Keyed-IsClosed (λ _ _. tt) mo pf js body) h
