-- ===== src/Server/Refused.antt =====
-- Requests that are refused: what a request that does not succeed leaves alone.
use goblin_nip05d.App.Unless.{KeepsUnless, ◌⊳◌}
use goblin_nip05d.Registry.Invariant.{
  Keeps-authenticate, Keeps-check_owner, Keeps-check_single, Keeps-check_taken,
}
use goblin_nip05d.Proof.{ParsedPaymentProof}
use goblin_nip05d.Platform.{Json, Platform}
use mathlib.Core.Path.{subst}
use goblin_nip05d.Prelude.Int.{leb_ℤ, ℤ}
use goblin_nip05d.App.Rules.{
  Keeps, Keeps-if, Keeps-modify, Keeps-pure, Keeps-respond, ◌⨾◌, Keeps-gets, Keeps-require,
  Keeps-unwrap_or,
}
use goblin_nip05d.App.Moment.{
  Moment, allow_write, arm_cooldown, auth_fresh, execute, failure, in_cooldown, settle,
}
use goblin_nip05d.Transfer.Claim.{
  answer_retry, check_consumed, check_holder, claim_success, commit_claim, finish_claim,
  settle_claim, claim, decide_claim,
}
use goblin_nip05d.History.Steps.{Keeps-query, Keeps-query_any}
use goblin_nip05d.Registry.{register_reply, finish_release, register, released, unregister}
use goblin_nip05d.ClaimTxn.{Tx, aborted, at_mark, at_upsert, ok, run_claim_txn, at_release}
use goblin_nip05d.Text.{Text}
use goblin_nip05d.Prelude.{
  Bool, Option, false, if◌then◌else◌, inl, inr, none, not, refl, some, true, ℕ, ◌||◌, ◌≡◌, ◌⊎◌,
  List, arith, suc, sym, zero,
}
use goblin_nip05d.Config.{Config}
use goblin_nip05d.Transfer.{settle_expiry, status_is, tip}
use goblin_nip05d.Db.{
  Db, OfferRow, consumed, expired, is_live, mark_offer_dead, upsert_name, Exec, changed, constraint,
  release_name,
}
use goblin_nip05d.App.{◌>>=◌, App, continue, modify, next, pure, respond, run}

-- The names and the transfers are those of a database.
abbrev Same : Db → App → Type 0
Same db s = (s.db.names ≡ db.names) × (s.db.transfers ≡ db.transfers)

upsert-unchanged :
    (db db' : Db) (name key : Text) (now : ℤ)
    → upsert_name db name key now ≡ changed 0 db'
    → db' ≡ db
unfolding upsert_name
upsert-unchanged db db' name key now e = ground arith

module _ (mo : Moment) (d : Db) where
  Keeps-write_limit : (bucket : Text) → Keeps (Same d) (allow_write mo bucket)
  unfolding allow_write
  Keeps-write_limit bucket = Keeps-modify _ (λ s h. h)

  Keeps-replay_set : (id : Text) → Keeps (Same d) (auth_fresh mo id)
  unfolding auth_fresh
  Keeps-replay_set id = Keeps-modify _ (λ s h. h)

  Keeps-cooldown : (key : Text) → Keeps (Same d) (in_cooldown mo key)
  unfolding in_cooldown
  Keeps-cooldown key = Keeps-modify _ (λ s h. h)

  Keeps-expiry : (o : OfferRow) (now : ℤ) → Keeps (Same d) (settle_expiry mo o now)
  unfolding settle_expiry execute mark_offer_dead
  Keeps-expiry o now =
      Keeps-if (not (is_live o.status) || leb_ℤ now o.expiration) _ _ (Keeps-pure o) (
        Keeps-modify _ (λ s h. marked s h (mo.fails at_mark)) ⨾ λ _.
        Keeps-query mo _ _ ⨾ λ _. Keeps-pure _)
    where
      marked :
          (s : App)
          → Same d s
          → (b : Bool)
          → Same d
              (if b
                then (s, failure)
                else settle s (mark_offer_dead s.db o.offer_id expired (tip mo) now)).0
      marked s h true = h
      marked s h false = h

  Keeps-retry :
      (cfg : Config) (id excess : Text) (o : OfferRow)
      → Keeps (Same d) (check_consumed mo cfg id excess o)
  unfolding check_consumed answer_retry
  Keeps-retry cfg id excess o =
      Keeps-if (status_is o.status consumed) _ _ (Keeps-query mo _ _ ⨾ λ _. Keeps-respond _)
        (Keeps-pure tt)

  Keeps-holder : (existing : Option Text) → Keeps (Same d) (check_holder existing)
  unfolding check_holder
  Keeps-holder none = Keeps-pure tt
  Keeps-holder (some name) = Keeps-respond _

  written-KeepsUnless :
      (cfg : Config) (name key : Text) (now : ℤ)
      → KeepsUnless 201 (Same d) (
          execute mo at_upsert (λ db. upsert_name db name key now) >>= λ w.
          pure (register_reply cfg name w))
  unfolding execute modify ◌>>=◌ run pure register_reply
  written-KeepsUnless cfg name key now = record {
    at = λ s h. go s h (mo.fails at_upsert) (upsert_name s.db name key now) refl;
  }
    where
      go :
          (s : App)
          → Same d s
          → (b : Bool) (x : Exec) → upsert_name s.db name key now ≡ x
          → Same d (if b then (s, failure) else settle s x).0
            ⊎ ((register_reply cfg name (if b then (s, failure) else settle s x).1).status ≡ 201)
      go s h true x e = inl h
      go s h false (changed zero db) e = inl (
          subst (λ (t : Db). (t.names ≡ d.names) × (t.transfers ≡ d.transfers))
            (sym (upsert-unchanged s.db db name key now e)) h)
      go s h false (changed (suc n) db) e = inr refl
      go s h false constraint e = inl h

  settled-KeepsUnless :
      (cfg : Config) (o : OfferRow) (excess : Text) (height : Option ℤ) (now : ℤ)
      → KeepsUnless 201
          (Same d)
          (commit_claim mo o excess height now >>= λ outcome. finish_claim mo cfg o outcome)
  unfolding commit_claim modify ◌>>=◌ run pure respond finish_claim arm_cooldown claim_success
  settled-KeepsUnless cfg o excess height now = record {
    at = λ s h. go s h (run_claim_txn mo.fails s.db o excess height now);
  }
    where
      go :
          (s : App)
          → Same d s
          → (x : Tx Db)
          → Same d
              (run
                (λ _.
                  continue
                    (next (settle_claim s x).1 (settle_claim s x).0)
                    (λ outcome. finish_claim mo cfg o outcome))
                s).0
            ⊎ ((run
                  (λ _.
                    continue
                      (next (settle_claim s x).1 (settle_claim s x).0)
                      (λ outcome. finish_claim mo cfg o outcome))
                  s).1.status
                ≡ 201)
      go s h (ok db) = inr refl
      go s h (aborted e) = inl h

  released-KeepsUnless :
      (pf : Platform) (name key : Text) (now : ℤ)
      → KeepsUnless 200 (Same d) (
          execute mo at_release (λ db. release_name db name now) >>= λ w.
          finish_release pf mo name key w)
  unfolding execute modify ◌>>=◌ run pure respond finish_release arm_cooldown released release_name
  released-KeepsUnless pf name key now = record { at = λ s h. go s h (mo.fails at_release) }
    where
      go :
          (s : App)
          → Same d s
          → (b : Bool)
          → Same d
              (run
                (λ _.
                  continue
                    (next
                      (if b then (s, failure) else settle s (release_name s.db name now)).1
                      (if b then (s, failure) else settle s (release_name s.db name now)).0)
                    (finish_release pf mo name key))
                s).0
            ⊎ ((run
                  (λ _.
                    continue
                      (next
                        (if b then (s, failure) else settle s (release_name s.db name now)).1
                        (if b then (s, failure) else settle s (release_name s.db name now)).0)
                      (finish_release pf mo name key))
                  s).1.status
                ≡ 200)
      go s h true = inl h
      go s h false = inr refl

  register-KeepsUnless :
      (pf : Platform) (body : List ℕ) → KeepsUnless 201 (Same d) (register pf mo body)
  unfolding register
  register-KeepsUnless pf body = Keeps-write_limit _ ⊳ λ _. Keeps-require _ _ ⊳ λ _.
      Keeps-gets _ ⊳ λ _. Keeps-authenticate _ ⊳ λ _. Keeps-replay_set _ ⊳ λ _.
      Keeps-require _ _ ⊳ λ _. Keeps-cooldown _ ⊳ λ _. Keeps-require _ _ ⊳ λ _.
      Keeps-unwrap_or _ _ ⊳ λ _. Keeps-require _ _ ⊳ λ _. Keeps-require _ _ ⊳ λ _.
      Keeps-require _ _ ⊳ λ _. Keeps-require _ _ ⊳ λ _. Keeps-query mo _ _ ⊳ λ _.
      Keeps-check_taken _ _ _ _ ⊳ λ _.
      Keeps-query mo _ _ ⊳ λ _. Keeps-check_single _ ⊳ λ _. written-KeepsUnless _ _ _ _

  unregister-KeepsUnless :
      (pf : Platform) (name : Text) → KeepsUnless 200 (Same d) (unregister pf mo name)
  unfolding unregister
  unregister-KeepsUnless pf name = Keeps-write_limit _ ⊳ λ _. Keeps-require _ _ ⊳ λ _.
      Keeps-gets _ ⊳ λ _. Keeps-authenticate _ ⊳ λ _. Keeps-replay_set _ ⊳ λ _.
      Keeps-require _ _ ⊳ λ _.
      Keeps-query mo _ _ ⊳ λ _. Keeps-check_owner pf mo _ _ ⊳ λ _. released-KeepsUnless pf _ _ _

  decide_claim-KeepsUnless :
      (pf : Platform) (cfg : Config) (pubkey : Text) (proof : ParsedPaymentProof) (o : OfferRow)
      → KeepsUnless 201 (Same d) (decide_claim mo pf cfg pubkey proof o)
  unfolding decide_claim
  decide_claim-KeepsUnless pf cfg pubkey proof o = Keeps-unwrap_or _ _ ⊳ λ _.
      Keeps-require _ _ ⊳ λ _. Keeps-query mo _ _ ⊳ λ _. Keeps-require _ _ ⊳ λ _.
      Keeps-require _ _ ⊳ λ _. Keeps-require _ _ ⊳ λ _. Keeps-require _ _ ⊳ λ _.
      Keeps-unwrap_or _ _ ⊳ λ _. Keeps-require _ _ ⊳ λ _. Keeps-require _ _ ⊳ λ _.
      Keeps-query_any mo _ _ ⊳ λ _. Keeps-require _ _ ⊳ λ _.
      Keeps-query mo _ _ ⊳ λ _. Keeps-holder _ ⊳ λ _. settled-KeepsUnless _ _ _ _ _

  claim-KeepsUnless :
      (pf : Platform) (js : Json) (body : List ℕ) → KeepsUnless 201 (Same d) (claim mo pf js body)
  unfolding claim
  claim-KeepsUnless pf js body = Keeps-write_limit _ ⊳ λ _. Keeps-require _ _ ⊳ λ _.
      Keeps-gets _ ⊳ λ _. Keeps-authenticate _ ⊳ λ _. Keeps-replay_set _ ⊳ λ _.
      Keeps-require _ _ ⊳ λ _. Keeps-unwrap_or _ _ ⊳ λ _. Keeps-unwrap_or _ _ ⊳ λ _.
      Keeps-unwrap_or _ _ ⊳ λ _. Keeps-unwrap_or _ _ ⊳ λ _. Keeps-query mo _ _ ⊳ λ _.
      Keeps-unwrap_or _ _ ⊳ λ _.
      Keeps-expiry _ _ ⊳ λ _. Keeps-retry _ _ _ _ ⊳ λ _. decide_claim-KeepsUnless pf _ _ _ _

module _ (mo : Moment) (pf : Platform) (js : Json) where
  -- A registration that does not answer 201, a release that does not answer 200 and a claim that does
  -- not answer 201, for whatever reason, leave the tables of names and of transfers as they were.
  pub Refused-Same :
      (s : App) (body : List ℕ) (name : Text)
      → (Same s.db (run (register pf mo body) s).0 ⊎ ((run (register pf mo body) s).1.status ≡ 201))
        × (Same s.db (run (unregister pf mo name) s).0
            ⊎ ((run (unregister pf mo name) s).1.status ≡ 200))
        × (Same s.db (run (claim mo pf js body) s).0
            ⊎ ((run (claim mo pf js body) s).1.status ≡ 201))
  Refused-Same s body name = (
    (register-KeepsUnless mo s.db pf body).at s (refl, refl),
    (unregister-KeepsUnless mo s.db pf name).at s (refl, refl),
    (claim-KeepsUnless mo s.db pf js body).at s (refl, refl),
  )
