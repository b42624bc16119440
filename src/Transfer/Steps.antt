-- ===== src/Transfer/Steps.antt =====
-- The steps of a claim: what each passes on to the next.
use goblin_nip05d.Transfer.Expiry.{Expires, settle_expiry-next, Settlement}
use goblin_nip05d.History.Offers.{SameTerms}
use goblin_nip05d.Registry.{has_name}
use mathlib.Core.Path.{subst}
use goblin_nip05d.Transfer.Claim.{
  check_consumed, check_holder, commit_claim, finish_claim, tx_message, answer_retry, claim_success,
  retry_reply, dead_err,
}
use goblin_nip05d.ClaimTxn.{
  Tx, TxErr, aborted, buyer_has_name, db_error, ok, owner_changed, reused, run_claim_txn,
  at_transfer,
}
use goblin_nip05d.Config.{Config}
use goblin_nip05d.Prelude.Int.{ℤ}
use goblin_nip05d.App.Rules.{Ended}
use goblin_nip05d.App.Moment.{Moment, arm_cooldown, query}
use goblin_nip05d.Text.{Text}
use goblin_nip05d.Prelude.{
  Bool, Bool-cases, false, if◌then◌else◌, inl, inr, refl, ◌≡◌, Option, arith, none, some, ◌≢◌, ap,
  ◌∙◌,
}
use goblin_nip05d.Transfer.{settle_expiry, status_is}
use goblin_nip05d.Db.{
  OfferRow, expired, Db, consumed, Status, get_offer, transfer_for_offer, live, revoked,
}
use goblin_nip05d.App.{
  ◌>>=◌, ◌>>◌, App, Handler, Response, err, gets, next, pure, respond, run, reply, continue,
}

-- A query that finds something has not failed.
pub query-found :
    {A : Type 0} (fails : Bool) (x : Option A) {a : A}
    → (if fails then none else x) ≡ some a
    → x ≡ some a
query-found fails x h = ground arith

next-Ended :
    {A : Type 0} (m : Handler A) (k : A → Handler Response) (a : A) (s s1 s' : App) (r : Response)
    → m s ≡ next a s1
    → Ended (m >>= k) s s' r
    → Ended (k a) s1 s' r
unfolding ◌>>=◌ run
next-Ended m k a s s1 s' r p e = subst (λ o. run (λ _. continue o k) s ≡ (s', r)) p e

pub settle_expiry-Ended :
    (mo : Moment) (offer : OfferRow) (now : ℤ) (k : OfferRow → Handler Response) (s s' : App)
    (r : Response)
    → Ended (settle_expiry mo offer now >>= k) s s' r
    → (o : OfferRow) × (s1 : App) × Ended (k o) s1 s' r
      × Expires s s1
      × (get_offer s.db offer.offer_id ≡ some offer → SameTerms offer o × Settlement mo now offer o)
settle_expiry-Ended mo offer now k s s' r e =
    let (o, s1, moved, expiry, terms) = settle_expiry-next mo offer now s in
    (o, s1, next-Ended (settle_expiry mo offer now) k o s s1 s' r moved e, expiry, terms)

reply-Ended :
    {A : Type 0} (m : Handler A) (k : A → Handler Response) (a : Response) (s s1 s' : App)
    (r : Response)
    → m s ≡ reply a s1
    → Ended (m >>= k) s s' r
    → a ≡ r
unfolding ◌>>=◌ run
reply-Ended m k a s s1 s' r p e =
    ap (λ q. q.1) (subst (λ o. run (λ _. continue o k) s ≡ (s', r)) p e)

retry_reply-status :
    (cfg : Config) (excess : Text) (prior : Option (Text × Text × Text))
    → (retry_reply cfg excess prior).status ≢ 201
unfolding retry_reply claim_success err
retry_reply-status cfg excess none h = absurd (omega arith)
retry_reply-status cfg excess (some (used, name, buyer)) h = absurd (ground arith)

consumed_status : (t : Status) → status_is t consumed ≡ false → t ≢ consumed
consumed_status t p h = absurd (cc (p, ap (λ u. status_is u consumed) h))

pub check_consumed-Ended :
    (mo : Moment) (cfg : Config) (id excess : Text) (offer : OfferRow) (k : Handler Response)
    (s s' : App) (r : Response)
    → Ended (check_consumed mo cfg id excess offer >> k) s s' r
    → r.status ≡ 201
    → (offer.status ≢ consumed) × Ended k s s' r
unfolding check_consumed answer_retry ◌>>=◌ respond query gets pure
check_consumed-Ended mo cfg id excess offer k s s' r e c =
    elim (Bool-cases (status_is offer.status consumed)) [
      | inl p ↦
          let prior = if mo.fails at_transfer then none else transfer_for_offer s.db id in
          let answer =
            reply-Ended (check_consumed mo cfg id excess offer) (λ _. k)
              (retry_reply cfg excess prior) s s s' r (rw p refl) e in
          absurd (retry_reply-status cfg excess prior (ap (λ q. q.status) answer ∙ c))
      | inr p ↦ (
        consumed_status offer.status p,
        next-Ended (check_consumed mo cfg id excess offer) (λ _. k) tt s s s' r (rw p refl) e,
      )
    ]

pub check_holder-Ended :
    (existing : Option Text) (k : Handler Response) (s s' : App) (r : Response)
    → Ended (check_holder existing >> k) s s' r
    → r.status ≡ 201
    → Ended k s s' r
unfolding check_holder pure respond has_name ◌>>=◌ run
check_holder-Ended none k s s' r e c = e
check_holder-Ended (some name) k s s' r e c = absurd (ground arith)

tx_message-status : (x : TxErr) → (tx_message x).status ≢ 201
unfolding tx_message err
tx_message-status owner_changed h = absurd (omega arith)
tx_message-status buyer_has_name h = absurd (omega arith)
tx_message-status reused h = absurd (omega arith)
tx_message-status db_error h = absurd (omega arith)

pub dead_err-status : (t : Status) (r : Response) → r.status ≡ 201 → r.status ≢ (dead_err t).status
unfolding dead_err err
dead_err-status live r c h = absurd (omega arith)
dead_err-status consumed r c h = absurd (omega arith)
dead_err-status revoked r c h = absurd (omega arith)
dead_err-status expired r c h = absurd (omega arith)

-- A reply of 201 comes from a transaction that committed.
pub commit-Ended :
    (mo : Moment) (cfg : Config) (offer : OfferRow) (excess : Text) (height : Option ℤ) (now : ℤ)
    (s s' : App) (r : Response)
    → Ended (commit_claim mo offer excess height now >>= finish_claim mo cfg offer) s s' r
    → r.status ≡ 201
    → run_claim_txn mo.fails s.db offer excess height now ≡ ok s'.db
unfolding commit_claim finish_claim ◌>>=◌ run pure respond arm_cooldown
commit-Ended mo cfg offer excess height now s s' r e c =
    go (run_claim_txn mo.fails s.db offer excess height now) refl
  where
    go :
        (x : Tx Db)
        → run_claim_txn mo.fails s.db offer excess height now ≡ x
        → run_claim_txn mo.fails s.db offer excess height now ≡ ok s'.db
    go (ok db) p = ground arith
    go (aborted x) p = absurd (tx_message-status x (ground arith))
