-- ===== src/Tests/Chain.antt =====
-- Two claims one after the other, a claim that asks the node client, and a release before a registration.
use goblin_nip05d.Text.Number.{parse_digits, parse_i64, parse_number, parse_u64}
use goblin_nip05d.Prelude.Int.{cast_i64, cast_u64, wrap_i64, ◌+ℤ◌, ◌-ℤ◌}
use goblin_nip05d.App.Moment.{
  Moment, allow_read, allow_write, arm_cooldown, auth_fresh, client_ip, execute, in_cooldown, query,
  query_any, unix_now, KernelResult,
}
use goblin_nip05d.Transfer.Sound.{Claimed}
use goblin_nip05d.Transfer.Claim.{
  amount_matches, answer_retry, ask_kernel, check_consumed, check_holder, claim, claim_success,
  claimed_id, commit_claim, confirmed, dead_err, death_height, decide_claim, finish_claim, is_dead,
  is_offer_id, retry_reply, settled_before, tx_message,
}
use goblin_nip05d.Server.Later.{at_once}
use goblin_nip05d.Server.Once.{claim_once}
use goblin_nip05d.Db.Keys.{IsKeyed}
use goblin_nip05d.Registry.{
  auth_message, authenticate, availability, check_owner, check_single, check_taken, finish_release,
  has_name, register, register_reply, registered, released, unavailable, unregister,
}
use goblin_nip05d.Proof.{
  amount_to_be_u64, both_signed, decode_grin_address, is_grin_hrp, normalize_grin_address,
  parse_payment_proof, payment_proof_message, sized, text_field, value_str, verify_ed25519,
  verify_signatures,
}
use goblin_nip05d.ClaimTxn.{demand, run_claim_txn, tx_execute}
use goblin_nip05d.RateLimit.{
  allow, auth_event_fresh, cleanup, cooldown_active, get_entry, hits_of, put_entry, rate_key,
  record_op, replay_window,
}
use goblin_nip05d.Auth.{
  check_payload, ensure, is_stale, ok_or, scan_tag, scan_tags, url_matches, verify_nip98,
}
use goblin_nip05d.Text.{
  Text, as_bytes, drop_end_while, drop_while, eq_ignore_ascii_case, is_ascii_digit,
  is_ascii_hexdigit, is_ascii_lowercase, is_ascii_uppercase, is_whitespace, lit, split,
  strip_prefix, text_eq, to_ascii_lowercase, trim, trim_end_matches, utf8_char,
}
use goblin_nip05d.Prelude.{
  Option, [], if◌then◌else◌, length, none, refl, some, ℕ, ◌==◌, ◌∷◌, ◌≡◌, ◌≢◌,
}
use goblin_nip05d.Transfer.{
  draft_tag, draft_tags, extract_offer_tags, finish_revoke, in_term, is_owner, lodge_event,
  lodge_offer, lodge_reply, read_offer, revoke_offer, revoked_reply, settle_expiry, status_text,
  tip,
}
use goblin_nip05d.App.{App, Response, err, gets, modify, pure, require, respond, run, unwrap_or}
use goblin_nip05d.Platform.{Json, Platform, Shape}
use goblin_nip05d.Db.{
  Db, OfferRow, empty_db, excess_used, get_offer, insert_offer, insert_transfer, live_offer_binding,
  live_offer_for_name, lookup, mark_offer_dead, name_of, reassign_name, release_name, set_status,
  transfer_for_offer, upsert_name,
}
use goblin_nip05d.App
use goblin_nip05d.App.Moment
use goblin_nip05d.Auth
use goblin_nip05d.ClaimTxn
use goblin_nip05d.Db
use goblin_nip05d.Prelude.Int
use goblin_nip05d.Proof
use goblin_nip05d.RateLimit
use goblin_nip05d.Registry
use goblin_nip05d.Text
use goblin_nip05d.Text.Number
use goblin_nip05d.Transfer
use goblin_nip05d.Transfer.Claim
use goblin_nip05d.Tests.Scene.{
  alice_row, auth_event, bob, json, libraries, moment, offer, server, stocked, zeros, json_get,
  json_shape,
}

abbrev carol : Text
carol = lit "4444444444444444444444444444444444444444444444444444444444444444"

abbrev dave : Text
dave = lit "3333333333333333333333333333333333333333333333333333333333333333"

abbrev other_id : Text
other_id = lit "cdcdcdcdcdcdcdcdcdcdcdcdcdcdcdcdcdcdcdcdcdcdcdcdcdcdcdcdcdcdcdcd"

abbrev other_offer : OfferRow
other_offer = record offer {
  offer_id = other_id;
  name = lit "david";
  seller_pubkey = dave;
  buyer_pubkey = carol;
}

abbrev pub two_offers : Db
two_offers = record stocked {
  names = record alice_row { name = lit "david"; pubkey = dave } ∷ alice_row ∷ [];
  offers = other_offer ∷ offer ∷ [];
}

-- The header names the event: "c" is Carol's, any other is Bob's.
abbrev claim_path : Text
claim_path = lit "/api/v1/transfer/claim"

abbrev pub two_libs : Platform
two_libs = record (libraries (auth_event bob (lit "POST") claim_path)) {
  base64_decode = some;
  event_from_json = λ raw.
      if text_eq raw (lit "c")
      then some (record (auth_event carol (lit "POST") claim_path) { id = lit "c" })
      else some (auth_event bob (lit "POST") claim_path);
  hex_decode = λ s. some (zeros (if length s == 5 then 64 else 33));
}

-- A body of one byte is Bob's, a longer one Carol's: 10 is the body, 11 the id, 12 the proof, 13 the
-- excess. Two replies of a node: 20 to `get_kernel` and 21 to `get_tip`.
abbrev chain_get : ℕ → Text → Option ℕ
chain_get v key =
    if v == 10
    then (if text_eq key (lit "proof") then some 12 else some 11)
    else if v == 12
    then (if text_eq key (lit "amount")
        then some 3
        else if text_eq key (lit "excess")
        then some 13
        else some 5)
    else if v == 20
    then (if text_eq key (lit "result") then some 22 else none)
    else if v == 21
    then (if text_eq key (lit "result") then some 23 else none)
    else if v == 22
    then (if text_eq key (lit "Ok") then some 24 else none)
    else if v == 23
    then (if text_eq key (lit "Ok") then some 25 else none)
    else if v == 24
    then (if text_eq key (lit "height") then some 26 else none)
    else if v == 25
    then (if text_eq key (lit "height") then some 27 else none)
    else json_get v key

abbrev chain_shape : ℕ → Shape ℕ
chain_shape v =
    if v == 11
    then Shape.string other_id
    else if v == 13
    then Shape.string (lit "ff")
    else if v == 26
    then Shape.number 50
    else if v == 27
    then Shape.number 60
    else json_shape v

abbrev pub chain_json : Json
chain_json = record json {
  shape = chain_shape;
  get = chain_get;
  from_slice = λ body. if length body == 1 then some 0 else some 10;
}

abbrev carols : Moment
carols = record moment {
  headers = record { authorization = some (lit "Nostr c"); x_real_ip = none };
}

abbrev bobs_run : App × Response
bobs_run = run (claim moment two_libs chain_json (0 ∷ [])) (server two_offers)

abbrev carols_run : App × Response
carols_run = run (claim carols two_libs chain_json (0 ∷ 0 ∷ [])) bobs_run.0

bobs_created : bobs_run.1.status ≡ 201
unfolding Text.lit Text.text_eq Text.is_ascii_lowercase Text.is_ascii_uppercase Text.is_ascii_digit
    Text.is_ascii_hexdigit Text.to_ascii_lowercase Text.eq_ignore_ascii_case Text.is_whitespace
    Text.drop_while Text.drop_end_while Text.trim Text.trim_end_matches Text.strip_prefix Text.split
    Text.utf8_char Text.as_bytes Int.◌+ℤ◌ Int.◌-ℤ◌ Int.cast_i64 Int.cast_u64 Int.wrap_i64
    RateLimit.rate_key RateLimit.get_entry RateLimit.put_entry RateLimit.hits_of RateLimit.cleanup
    RateLimit.allow RateLimit.cooldown_active RateLimit.record_op RateLimit.replay_window
    RateLimit.auth_event_fresh Auth.◌>>=◌ Auth.ensure Auth.ok_or Auth.url_matches Auth.scan_tag
    Auth.scan_tags Auth.is_stale Auth.check_payload Auth.verify_nip98 App.err App.◌>>=◌ App.pure
    App.respond App.require App.unwrap_or App.gets App.modify App.run Moment.client_ip
    Moment.unix_now Moment.allow_read Moment.allow_write Moment.auth_fresh Moment.in_cooldown
    Moment.arm_cooldown Moment.query Moment.query_any Moment.execute Db.lookup Db.name_of
    Db.get_offer Db.live_offer_for_name Db.live_offer_binding Db.transfer_for_offer Db.excess_used
    Db.upsert_name Db.release_name Db.reassign_name Db.insert_offer Db.mark_offer_dead Db.set_status
    Db.insert_transfer Db.empty_db Registry.auth_message Registry.authenticate Registry.unavailable
    Registry.registered Registry.has_name Registry.released Registry.check_taken
    Registry.check_single Registry.register_reply Registry.availability Registry.register
    Registry.check_owner Registry.finish_release Registry.unregister Number.parse_digits
    Number.parse_number Number.parse_u64 Number.parse_i64 Proof.normalize_grin_address
    Proof.is_grin_hrp Proof.sized Proof.decode_grin_address Proof.amount_to_be_u64
    Proof.payment_proof_message Proof.verify_ed25519 Proof.both_signed Proof.verify_signatures
    Proof.value_str Proof.text_field Proof.parse_payment_proof ClaimTxn.◌>>=◌ ClaimTxn.demand
    ClaimTxn.tx_execute ClaimTxn.run_claim_txn Transfer.draft_tag Transfer.draft_tags
    Transfer.extract_offer_tags Transfer.status_text Transfer.lodge_reply Transfer.revoked_reply
    Transfer.tip Transfer.is_owner Transfer.in_term Transfer.settle_expiry Transfer.read_offer
    Transfer.finish_revoke Transfer.revoke_offer Transfer.lodge_event Transfer.lodge_offer
    Claim.claim_success Claim.retry_reply Claim.is_dead Claim.dead_err Claim.death_height
    Claim.settled_before Claim.amount_matches Claim.ask_kernel Claim.confirmed Claim.check_holder
    Claim.tx_message Claim.is_offer_id Claim.claimed_id Claim.commit_claim Claim.answer_retry
    Claim.check_consumed Claim.finish_claim Claim.decide_claim Claim.claim
bobs_created = refl

carols_created : carols_run.1.status ≡ 201
unfolding Text.lit Text.text_eq Text.is_ascii_lowercase Text.is_ascii_uppercase Text.is_ascii_digit
    Text.is_ascii_hexdigit Text.to_ascii_lowercase Text.eq_ignore_ascii_case Text.is_whitespace
    Text.drop_while Text.drop_end_while Text.trim Text.trim_end_matches Text.strip_prefix Text.split
    Text.utf8_char Text.as_bytes Int.◌+ℤ◌ Int.◌-ℤ◌ Int.cast_i64 Int.cast_u64 Int.wrap_i64
    RateLimit.rate_key RateLimit.get_entry RateLimit.put_entry RateLimit.hits_of RateLimit.cleanup
    RateLimit.allow RateLimit.cooldown_active RateLimit.record_op RateLimit.replay_window
    RateLimit.auth_event_fresh Auth.◌>>=◌ Auth.ensure Auth.ok_or Auth.url_matches Auth.scan_tag
    Auth.scan_tags Auth.is_stale Auth.check_payload Auth.verify_nip98 App.err App.◌>>=◌ App.pure
    App.respond App.require App.unwrap_or App.gets App.modify App.run Moment.client_ip
    Moment.unix_now Moment.allow_read Moment.allow_write Moment.auth_fresh Moment.in_cooldown
    Moment.arm_cooldown Moment.query Moment.query_any Moment.execute Db.lookup Db.name_of
    Db.get_offer Db.live_offer_for_name Db.live_offer_binding Db.transfer_for_offer Db.excess_used
    Db.upsert_name Db.release_name Db.reassign_name Db.insert_offer Db.mark_offer_dead Db.set_status
    Db.insert_transfer Db.empty_db Registry.auth_message Registry.authenticate Registry.unavailable
    Registry.registered Registry.has_name Registry.released Registry.check_taken
    Registry.check_single Registry.register_reply Registry.availability Registry.register
    Registry.check_owner Registry.finish_release Registry.unregister Number.parse_digits
    Number.parse_number Number.parse_u64 Number.parse_i64 Proof.normalize_grin_address
    Proof.is_grin_hrp Proof.sized Proof.decode_grin_address Proof.amount_to_be_u64
    Proof.payment_proof_message Proof.verify_ed25519 Proof.both_signed Proof.verify_signatures
    Proof.value_str Proof.text_field Proof.parse_payment_proof ClaimTxn.◌>>=◌ ClaimTxn.demand
    ClaimTxn.tx_execute ClaimTxn.run_claim_txn Transfer.draft_tag Transfer.draft_tags
    Transfer.extract_offer_tags Transfer.status_text Transfer.lodge_reply Transfer.revoked_reply
    Transfer.tip Transfer.is_owner Transfer.in_term Transfer.settle_expiry Transfer.read_offer
    Transfer.finish_revoke Transfer.revoke_offer Transfer.lodge_event Transfer.lodge_offer
    Claim.claim_success Claim.retry_reply Claim.is_dead Claim.dead_err Claim.death_height
    Claim.settled_before Claim.amount_matches Claim.ask_kernel Claim.confirmed Claim.check_holder
    Claim.tx_message Claim.is_offer_id Claim.claimed_id Claim.commit_claim Claim.answer_retry
    Claim.check_consumed Claim.finish_claim Claim.decide_claim Claim.claim
carols_created = refl

pub two_keys : IsKeyed two_offers
unfolding Text.lit Text.text_eq Text.is_ascii_lowercase Text.is_ascii_uppercase Text.is_ascii_digit
    Text.is_ascii_hexdigit Text.to_ascii_lowercase Text.eq_ignore_ascii_case Text.is_whitespace
    Text.drop_while Text.drop_end_while Text.trim Text.trim_end_matches Text.strip_prefix Text.split
    Text.utf8_char Text.as_bytes
two_keys = record {
  names = ((refl, tt), (tt, tt));
  owners = ((refl, tt), (tt, tt));
  offers = ((refl, tt), (tt, tt));
  transfers = tt;
}

claim_once_example :
    (c : Claimed moment two_libs chain_json (0 ∷ []) (server two_offers) bobs_run.0 bobs_run.1)
    × (d : Claimed carols two_libs chain_json (0 ∷ 0 ∷ []) bobs_run.0 carols_run.0 carols_run.1)
    × (c.begun.proof.excess_hex ≢ d.begun.proof.excess_hex)
    × (c.begun.offer_id ≢ d.begun.offer_id)
claim_once_example =
    claim_once two_libs chain_json moment carols (0 ∷ []) (0 ∷ 0 ∷ []) (server two_offers)
      bobs_run.0 bobs_run.0 carols_run.0 bobs_run.1 carols_run.1 two_keys refl bobs_created at_once
      refl carols_created
