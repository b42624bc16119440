-- ===== src/Transfer/Claim.antt =====
-- src/handlers/transfer.rs, `claim`: the buyer claims the name with a payment proof.
use goblin_nip05d.Prelude.Int.{cast_i64, cast_u64, leb_ℤ, ltb_ℤ, pos, wrap_i64, ℤ, ◌-ℤ◌}
use goblin_nip05d.App.Moment.{
  KernelResult, Moment, allow_write, arm_cooldown, auth_fresh, query, query_any, unix_now,
}
use goblin_nip05d.Registry.{authenticate, has_name}
use goblin_nip05d.Proof.{
  normalize_grin_address, parse_payment_proof, text_field, verify_signatures, ParsedPaymentProof,
}
use goblin_nip05d.ClaimTxn.{
  Tx, TxErr, aborted, at_excess, at_get_offer, at_lookup, at_name_of, at_transfer, buyer_has_name,
  db_error, ok, owner_changed, reused, run_claim_txn,
}
use goblin_nip05d.Auth.{verify_nip98}
use goblin_nip05d.Text.{Text, as_bytes, is_ascii_hexdigit, lit, text_eq}
use goblin_nip05d.Prelude.{
  Bool, List, Option, [], false, if◌then◌else◌, leb, length, none, not, some, true, ℕ, ◌&&◌, ◌++◌,
  ◌==◌, ◌∷◌, all,
}
use goblin_nip05d.Config.{Config}
use goblin_nip05d.Transfer.{is_owner, settle_expiry, status_is}
use goblin_nip05d.Platform.{Json, Platform}
use goblin_nip05d.Db.{
  Db, OfferRow, Status, consumed, excess_used, expired, get_offer, lookup, name_of, revoked,
  transfer_for_offer,
}
use mathlib.Core.Option
use goblin_nip05d.App.{
  ◌>>=◌, ◌>>◌, App, Handler, Response, err, gets, modify, pure, require, respond, text, unwrap_or,
}

-- `claim_success`
unfoldable pub claim_success : ℕ → Text → Config → Text → Response
claim_success code name cfg buyer = record {
  status = code;
  body =
      ("name", text name)
      ∷ ("nip05", text (name ++ b'@' ∷ cfg.domain))
      ∷ ("pubkey", text buyer)
      ∷ [];
}

-- Step 2, for a consumed offer: an idempotent retry, or a conflict.
unfoldable pub retry_reply : Config → Text → Option (Text × Text × Text) → Response
unfolding err
retry_reply cfg excess none = err 409 (lit "offer_consumed")
retry_reply cfg excess (some (used, name, buyer)) =
    if text_eq used excess then claim_success 200 name cfg buyer else err 409 (lit "offer_consumed")

unfoldable pub is_dead : Status → Bool
is_dead revoked = true
is_dead expired = true
is_dead _ = false

-- `dead_err`
unfoldable pub dead_err : Status → Response
unfolding err
dead_err revoked = err 410 (lit "offer_revoked")
dead_err _ = err 410 (lit "offer_expired")

-- Step 3: `none` refuses; otherwise the height of the death, if the offer is dead.
unfoldable pub death_height : ℤ → OfferRow → ℤ → Option (Option ℤ)
death_height grace offer now =
    if is_dead offer.status
    then (if ltb_ℤ grace
          (wrap_i64 (now -ℤ elim offer.state_changed_at [ none ↦ now | some at ↦ at ]))
        then none
        else Option.map some offer.end_height)
    else some none

-- The payment settled at or below the height of the death, if there is one.
unfoldable pub settled_before : Option ℤ → Option ℤ → Bool
settled_before none height = true
settled_before (some end_h) none = false
settled_before (some end_h) (some kh) = leb_ℤ kh end_h

-- Step 8
unfoldable pub amount_matches : ℤ → ℕ → Bool
amount_matches price amount = not (ltb_ℤ price (pos 0)) && amount == cast_u64 price

-- Step 9: a node that is not configured answers as one that fails.
unfoldable pub ask_kernel : Moment → Text → Option KernelResult
ask_kernel mo excess = elim mo.node [ none ↦ none | some node ↦ node.kernel excess ]

unfoldable pub confirmed : ℕ → KernelResult → Bool
confirmed min_conf kernel = kernel.found && leb min_conf kernel.confirmations

-- "pubkey already has a name", with the name; the transaction's own error has no name.
unfoldable pub check_holder : Option Text → Handler (Unit {0})
unfolding has_name
check_holder none = pure tt
check_holder (some existing) = respond (has_name existing)

unfoldable pub tx_message : TxErr → Response
unfolding err
tx_message owner_changed = err 409 (lit "owner_changed")
tx_message buyer_has_name = err 409 (lit "pubkey already has a name")
tx_message reused = err 409 (lit "proof_reused")
tx_message db_error = err 500 (lit "db error")

abbrev pub settle_claim : App → Tx Db → App × Option TxErr
settle_claim s (ok db) = (record s { db = db }, none)
settle_claim s (aborted e) = (s, some e)

-- `s.len() == 64 && s.bytes().all(|c| c.is_ascii_hexdigit())`
unfoldable pub is_offer_id : Text → Bool
is_offer_id s = length (as_bytes s) == 64 && all is_ascii_hexdigit (as_bytes s)

unfoldable pub claimed_id : Platform → (js : Json) → js.Value → Option Text
unfolding is_offer_id
claimed_id pf js req = elim (text_field js req (lit "offer_id")) [
  | none ↦ none
  | some s ↦ if is_offer_id s then some (pf.to_lowercase s) else none
]

module _ (mo : Moment) where
  unfoldable pub commit_claim : OfferRow → Text → Option ℤ → ℤ → Handler (Option TxErr)
  commit_claim offer excess height now =
      modify λ s. settle_claim s (run_claim_txn mo.fails s.db offer excess height now)

  unfoldable pub answer_retry : Config → Text → Option (Text × Text × Text) → Handler (Unit {0})
  answer_retry cfg excess prior = respond (retry_reply cfg excess prior)

  unfoldable pub check_consumed : Config → Text → Text → OfferRow → Handler (Unit {0})
  check_consumed cfg offer_id excess offer =
      if status_is offer.status consumed
      then query mo at_transfer (λ db. transfer_for_offer db offer_id) >>= answer_retry cfg excess
      else pure tt

  unfoldable pub finish_claim : Config → OfferRow → Option TxErr → Handler Response
  finish_claim cfg offer none = do
    arm_cooldown mo offer.seller_pubkey
    pure (claim_success 201 offer.name cfg offer.buyer_pubkey)
  finish_claim cfg offer (some e) = respond (tx_message e)

  module _ (pf : Platform) where
    -- Steps 3 to 11 and the transaction, for an offer that is not consumed.
    unfoldable pub decide_claim : Config → Text → ParsedPaymentProof → OfferRow → Handler Response
    decide_claim cfg auth_pubkey proof offer = do
      let now = unix_now mo
      death ← unwrap_or (death_height cfg.transfer_claim_grace offer now) (dead_err offer.status)
      require (text_eq auth_pubkey offer.buyer_pubkey) (err 401 (lit "not the buyer"))
      owner ← query mo at_lookup (λ db. lookup db offer.name)
      require (is_owner owner offer.seller_pubkey) (err 409 (lit "owner_changed"))
      require (verify_signatures pf proof) (err 400 (lit "invalid proof"))
      require (text_eq (normalize_grin_address pf proof.recipient_address) offer.proof_address)
          (err 409 (lit "proof_address_mismatch"))
      require (amount_matches offer.price_nanogrin proof.amount)
          (err 409 (lit "proof_amount_mismatch"))
      kernel ← unwrap_or (ask_kernel mo proof.excess_hex) (err 409 (lit "payment_unconfirmed"))
      require (confirmed cfg.transfer_min_conf kernel) (err 409 (lit "payment_unconfirmed"))
      let height = Option.map cast_i64 kernel.height
      require (settled_before death height) (dead_err offer.status)
      used ← query_any mo at_excess (λ db. excess_used db proof.excess_hex)
      require (not used) (err 409 (lit "proof_reused"))
      existing ← query mo at_name_of (λ db. name_of db offer.buyer_pubkey)
      check_holder existing
      outcome ← commit_claim offer proof.excess_hex height now
      finish_claim cfg offer outcome

  module _ (pf : Platform) (js : Json) where
    open js use {from_slice, get}

    unfoldable pub claim : List ℕ → Handler Response
    claim body = do
      allowed ← allow_write mo (lit "transfer")
      require allowed (err 429 (lit "rate_limited"))
      cfg ← gets (λ s. s.cfg)
      auth ← authenticate (
          verify_nip98 pf mo.auth_time mo.headers (lit "POST") (lit "/api/v1/transfer/claim") body
            cfg.base_url cfg.auth_max_age_secs)
      fresh ← auth_fresh mo auth.1
      require fresh (err 401 (lit "auth event replayed"))
      req ← unwrap_or (from_slice body) (err 400 (lit "invalid body"))
      offer_id ← unwrap_or (claimed_id pf js req) (err 400 (lit "invalid body"))
      proof_val ← unwrap_or (get req (lit "proof")) (err 400 (lit "invalid body"))
      proof ← unwrap_or (parse_payment_proof js pf proof_val) (err 400 (lit "invalid proof"))
      found ← query mo at_get_offer (λ db. get_offer db offer_id)
      first ← unwrap_or found (err 404 (lit "not found"))
      let now = unix_now mo
      offer ← settle_expiry mo first now
      check_consumed cfg offer_id proof.excess_hex offer
      decide_claim pf cfg auth.0 proof offer
