-- ===== src/Tests/Claiming.antt =====
-- A claim that meets its conditions.
use goblin_nip05d.Text.Number
use goblin_nip05d.Proof
use goblin_nip05d.ClaimTxn
use goblin_nip05d.Transfer
use goblin_nip05d.Transfer.Claim
use goblin_nip05d.Text.Number.{parse_digits, parse_i64, parse_number, parse_u64}
use goblin_nip05d.Transfer.Settling.{CanSettle}
use goblin_nip05d.Transfer.Success.{CanClaim, claim-Created}
use goblin_nip05d.Transfer.Claim.{
  amount_matches, answer_retry, ask_kernel, check_consumed, check_holder, claim, claim_success,
  claimed_id, commit_claim, confirmed, dead_err, death_height, decide_claim, finish_claim, is_dead,
  is_offer_id, retry_reply, settled_before, tx_message,
}
use goblin_nip05d.ClaimTxn.Settles.{Settles}
use goblin_nip05d.ClaimTxn.{demand, run_claim_txn, tx_execute}
use goblin_nip05d.Transfer.{
  draft_tag, draft_tags, extract_offer_tags, finish_revoke, in_term, is_owner, lodge_event,
  lodge_offer, lodge_reply, read_offer, revoke_offer, revoked_reply, settle_expiry, status_text,
  tip,
}
use goblin_nip05d.Prelude.Int.{cast_i64, cast_u64, wrap_i64, ◌+ℤ◌, ◌-ℤ◌}
use goblin_nip05d.App.Moment.{
  Moment, allow_read, allow_write, arm_cooldown, auth_fresh, client_ip, execute, in_cooldown, query,
  query_any, unix_now, KernelResult,
}
use goblin_nip05d.Db.Keys.{IsKeyed}
use goblin_nip05d.Registry.{
  auth_message, authenticate, availability, check_owner, check_single, check_taken, finish_release,
  has_name, register, register_reply, registered, released, unavailable, unregister,
}
use goblin_nip05d.Proof.{
  ParsedPaymentProof, parse_payment_proof, amount_to_be_u64, both_signed, decode_grin_address,
  is_grin_hrp, normalize_grin_address, payment_proof_message, sized, text_field, value_str,
  verify_ed25519, verify_signatures,
}
use goblin_nip05d.RateLimit.{
  allow, auth_event_fresh, cleanup, cooldown_active, get_entry, hits_of, put_entry, rate_key,
  record_op, replay_window,
}
use goblin_nip05d.Auth.{
  check_payload, ensure, is_stale, ok_or, scan_tag, scan_tags, url_matches, verify_nip98,
}
use goblin_nip05d.Text.{
  Text, as_bytes, drop_end_while, drop_while, eq_ignore_ascii_case, is_ascii_digit,
  is_ascii_hexdigit, is_ascii_lowercase, is_ascii_uppercase, is_whitespace, lit, split,
  strip_prefix, text_eq, to_ascii_lowercase, trim, trim_end_matches, utf8_char,
}
use goblin_nip05d.Prelude.{[], refl, some, ◌∷◌, ◌≡◌, true}
use goblin_nip05d.App.{
  App, Response, err, gets, modify, pure, require, respond, run, unwrap_or, parsed,
}
use goblin_nip05d.Platform.{Platform}
use goblin_nip05d.Db.{
  Db, empty_db, excess_used, get_offer, insert_offer, insert_transfer, live_offer_binding,
  live_offer_for_name, lookup, mark_offer_dead, name_of, reassign_name, release_name, set_status,
  transfer_for_offer, upsert_name, is_live,
}
use goblin_nip05d.App
use goblin_nip05d.App.Moment
use goblin_nip05d.Auth
use goblin_nip05d.Db
use goblin_nip05d.Prelude.Int
use goblin_nip05d.RateLimit
use goblin_nip05d.Registry
use goblin_nip05d.Text
use goblin_nip05d.Tests.Scene.{
  auth_event, bob, config, json, libraries, moment, server, offer, offer_id, stocked,
}

abbrev claim_libs : Platform
claim_libs = libraries (auth_event bob (lit "POST") (lit "/api/v1/transfer/claim"))

abbrev paid : ParsedPaymentProof
paid = record {
  amount = 5;
  excess_hex = [];
  recipient_address = lit "grin1";
  recipient_sig_hex = lit "grin1";
  sender_address = lit "grin1";
  sender_sig_hex = lit "grin1";
}

abbrev mined : KernelResult
mined = record { found = true; confirmations = 10; height = some 50 }

can_settle : CanSettle moment claim_libs bob paid offer (server stocked)
unfolding Text.lit Text.text_eq Text.is_ascii_lowercase Text.is_ascii_uppercase Text.is_ascii_digit
    Text.is_ascii_hexdigit Text.to_ascii_lowercase Text.eq_ignore_ascii_case Text.is_whitespace
    Text.drop_while Text.drop_end_while Text.trim Text.trim_end_matches Text.strip_prefix Text.split
    Text.utf8_char Text.as_bytes Int.◌+ℤ◌ Int.◌-ℤ◌ Int.cast_i64 Int.cast_u64 Int.wrap_i64
    RateLimit.rate_key RateLimit.get_entry RateLimit.put_entry RateLimit.hits_of RateLimit.cleanup
    RateLimit.allow RateLimit.cooldown_active RateLimit.record_op RateLimit.replay_window
    RateLimit.auth_event_fresh Auth.◌>>=◌ Auth.ensure Auth.ok_or Auth.url_matches Auth.scan_tag
    Auth.scan_tags Auth.is_stale Auth.check_payload Auth.verify_nip98 App.err App.◌>>=◌ App.pure
    App.respond App.require App.unwrap_or App.gets App.modify App.run Moment.client_ip
    Moment.unix_now Moment.allow_read Moment.allow_write Moment.auth_fresh Moment.in_cooldown
    Moment.arm_cooldown Moment.query Moment.query_any Moment.execute Db.lookup Db.name_of
    Db.get_offer Db.live_offer_for_name Db.live_offer_binding Db.transfer_for_offer Db.excess_used
    Db.upsert_name Db.release_name Db.reassign_name Db.insert_offer Db.mark_offer_dead Db.set_status
    Db.insert_transfer Db.empty_db Registry.auth_message Registry.authenticate Registry.unavailable
    Registry.registered Registry.has_name Registry.released Registry.check_taken
    Registry.check_single Registry.register_reply Registry.availability Registry.register
    Registry.check_owner Registry.finish_release Registry.unregister Number.parse_digits
    Number.parse_number Number.parse_u64 Number.parse_i64 Proof.normalize_grin_address
    Proof.is_grin_hrp Proof.sized Proof.decode_grin_address Proof.amount_to_be_u64
    Proof.payment_proof_message Proof.verify_ed25519 Proof.both_signed Proof.verify_signatures
    Proof.value_str Proof.text_field Proof.parse_payment_proof ClaimTxn.◌>>=◌ ClaimTxn.demand
    ClaimTxn.tx_execute ClaimTxn.run_claim_txn Transfer.draft_tag Transfer.draft_tags
    Transfer.extract_offer_tags Transfer.status_text Transfer.lodge_reply Transfer.revoked_reply
    Transfer.tip Transfer.is_owner Transfer.in_term Transfer.settle_expiry Transfer.read_offer
    Transfer.finish_revoke Transfer.revoke_offer Transfer.lodge_event Transfer.lodge_offer
    Claim.claim_success Claim.retry_reply Claim.is_dead Claim.dead_err Claim.death_height
    Claim.settled_before Claim.amount_matches Claim.ask_kernel Claim.confirmed Claim.check_holder
    Claim.tx_message Claim.is_offer_id Claim.claimed_id Claim.commit_claim Claim.answer_retry
    Claim.check_consumed Claim.finish_claim Claim.decide_claim Claim.claim
can_settle = record {
  kernel = mined;
  is_live = refl;
  buyer = refl;
  owned = refl;
  proven = refl;
  to_seller = refl;
  pays = refl;
  on_chain = refl;
  confirms = refl;
  unused = refl;
  untaken = refl;
  no_other = refl;
  no_fault = λ site. refl;
}

can_claim : CanClaim moment claim_libs json (0 ∷ []) (server stocked) offer
unfolding Text.lit Text.text_eq Text.is_ascii_lowercase Text.is_ascii_uppercase Text.is_ascii_digit
    Text.is_ascii_hexdigit Text.to_ascii_lowercase Text.eq_ignore_ascii_case Text.is_whitespace
    Text.drop_while Text.drop_end_while Text.trim Text.trim_end_matches Text.strip_prefix Text.split
    Text.utf8_char Text.as_bytes Int.◌+ℤ◌ Int.◌-ℤ◌ Int.cast_i64 Int.cast_u64 Int.wrap_i64
    RateLimit.rate_key RateLimit.get_entry RateLimit.put_entry RateLimit.hits_of RateLimit.cleanup
    RateLimit.allow RateLimit.cooldown_active RateLimit.record_op RateLimit.replay_window
    RateLimit.auth_event_fresh Auth.◌>>=◌ Auth.ensure Auth.ok_or Auth.url_matches Auth.scan_tag
    Auth.scan_tags Auth.is_stale Auth.check_payload Auth.verify_nip98 App.err App.◌>>=◌ App.pure
    App.respond App.require App.unwrap_or App.gets App.modify App.run Moment.client_ip
    Moment.unix_now Moment.allow_read Moment.allow_write Moment.auth_fresh Moment.in_cooldown
    Moment.arm_cooldown Moment.query Moment.query_any Moment.execute Db.lookup Db.name_of
    Db.get_offer Db.live_offer_for_name Db.live_offer_binding Db.transfer_for_offer Db.excess_used
    Db.upsert_name Db.release_name Db.reassign_name Db.insert_offer Db.mark_offer_dead Db.set_status
    Db.insert_transfer Db.empty_db Registry.auth_message Registry.authenticate Registry.unavailable
    Registry.registered Registry.has_name Registry.released Registry.check_taken
    Registry.check_single Registry.register_reply Registry.availability Registry.register
    Registry.check_owner Registry.finish_release Registry.unregister Number.parse_digits
    Number.parse_number Number.parse_u64 Number.parse_i64 Proof.normalize_grin_address
    Proof.is_grin_hrp Proof.sized Proof.decode_grin_address Proof.amount_to_be_u64
    Proof.payment_proof_message Proof.verify_ed25519 Proof.both_signed Proof.verify_signatures
    Proof.value_str Proof.text_field Proof.parse_payment_proof ClaimTxn.◌>>=◌ ClaimTxn.demand
    ClaimTxn.tx_execute ClaimTxn.run_claim_txn Transfer.draft_tag Transfer.draft_tags
    Transfer.extract_offer_tags Transfer.status_text Transfer.lodge_reply Transfer.revoked_reply
    Transfer.tip Transfer.is_owner Transfer.in_term Transfer.settle_expiry Transfer.read_offer
    Transfer.finish_revoke Transfer.revoke_offer Transfer.lodge_event Transfer.lodge_offer
    Claim.claim_success Claim.retry_reply Claim.is_dead Claim.dead_err Claim.death_height
    Claim.settled_before Claim.amount_matches Claim.ask_kernel Claim.confirmed Claim.check_holder
    Claim.tx_message Claim.is_offer_id Claim.claimed_id Claim.commit_claim Claim.answer_retry
    Claim.check_consumed Claim.finish_claim Claim.decide_claim Claim.claim
can_claim = record {
  pubkey = bob;
  auth_id = lit "e";
  req = 0;
  offer_id = offer_id;
  proof_val = 2;
  proof = paid;
  in_rate = refl;
  signed = refl;
  first_use = refl;
  asked = refl;
  names_offer = refl;
  gives_proof = refl;
  parsed = refl;
  stored = refl;
  unexpired = refl;
  settles = can_settle;
}

stocked_keys : IsKeyed stocked
stocked_keys = record { names = (tt, tt); owners = (tt, tt); offers = (tt, tt); transfers = tt }

claim-Created_example :
    (t : App) × (run (claim moment claim_libs json (0 ∷ [])) (server stocked)
      ≡ (t, claim_success 201 (lit "alice") config bob))
    × Settles stocked offer can_claim.proof.excess_hex t.db
claim-Created_example =
    claim-Created moment claim_libs json (0 ∷ []) (server stocked) offer stocked_keys can_claim
