-- ===== src/Tests/Journey.antt =====
-- An offer that Alice lodges and Bob claims.
use goblin_nip05d.Text.Number.{parse_digits, parse_i64, parse_number, parse_u64}
use goblin_nip05d.Prelude.Int.{cast_i64, cast_u64, wrap_i64, ◌+ℤ◌, ◌-ℤ◌}
use goblin_nip05d.App.Moment.{
  Moment, allow_read, allow_write, arm_cooldown, auth_fresh, client_ip, execute, in_cooldown, query,
  query_any, unix_now,
}
use goblin_nip05d.Transfer.Lodge.{Lodged, lodge_offer-Lodged}
use goblin_nip05d.Transfer.Sound.{Claimed, claim-Claimed}
use goblin_nip05d.Transfer.Invariant.{lodge_offer-IsKeyed}
use goblin_nip05d.Transfer.Claim.{
  amount_matches, answer_retry, ask_kernel, check_consumed, check_holder, claim, claim_success,
  claimed_id, commit_claim, confirmed, dead_err, death_height, decide_claim, finish_claim, is_dead,
  is_offer_id, retry_reply, settled_before, tx_message,
}
use goblin_nip05d.History.Offers.{SameTerms}
use goblin_nip05d.Server.Later.{at_once}
use goblin_nip05d.Server.Honoured.{claim-of-lodged}
use goblin_nip05d.Db.Keys.{IsKeyed}
use goblin_nip05d.Registry.{
  auth_message, authenticate, availability, check_owner, check_single, check_taken, finish_release,
  has_name, register, register_reply, registered, released, unavailable, unregister,
}
use goblin_nip05d.Proof.{
  amount_to_be_u64, both_signed, decode_grin_address, is_grin_hrp, normalize_grin_address,
  parse_payment_proof, payment_proof_message, sized, text_field, value_str, verify_ed25519,
  verify_signatures,
}
use goblin_nip05d.ClaimTxn.{demand, run_claim_txn, tx_execute}
use goblin_nip05d.RateLimit.{
  allow, auth_event_fresh, cleanup, cooldown_active, get_entry, hits_of, put_entry, rate_key,
  record_op, replay_window,
}
use goblin_nip05d.Auth.{
  check_payload, ensure, is_stale, ok_or, scan_tag, scan_tags, url_matches, verify_nip98,
}
use goblin_nip05d.Text.{
  Text, as_bytes, drop_end_while, drop_while, eq_ignore_ascii_case, is_ascii_digit,
  is_ascii_hexdigit, is_ascii_lowercase, is_ascii_uppercase, is_whitespace, lit, split,
  strip_prefix, text_eq, to_ascii_lowercase, trim, trim_end_matches, utf8_char,
}
use goblin_nip05d.Prelude.{[], if◌then◌else◌, none, refl, some, true, ◌∷◌, ◌≡◌, ap, sym, ℕ, ◌∙◌}
use goblin_nip05d.Transfer.{
  draft_tag, draft_tags, extract_offer_tags, finish_revoke, in_term, is_owner, lodge_event,
  lodge_offer, lodge_reply, read_offer, revoke_offer, revoked_reply, settle_expiry, status_text,
  tip,
}
use goblin_nip05d.App.{
  App, Response, err, gets, modify, pure, require, respond, run, unwrap_or, parsed,
}
use goblin_nip05d.Platform.{Event, Json, Platform}
use goblin_nip05d.Names.{
  checked_valid_name, domain_reserved, fold_char, fold_lookalike, is_alnum, is_reserved, ok_char,
  reserved_terms, valid_name, valid_pubkey_hex,
}
use goblin_nip05d.Db.{
  Db, empty_db, excess_used, get_offer, insert_offer, insert_transfer, live_offer_binding,
  live_offer_for_name, lookup, mark_offer_dead, name_of, reassign_name, release_name, set_status,
  transfer_for_offer, upsert_name,
}
use goblin_nip05d.App
use goblin_nip05d.App.Moment
use goblin_nip05d.Auth
use goblin_nip05d.ClaimTxn
use goblin_nip05d.Db
use goblin_nip05d.Names
use goblin_nip05d.Prelude.Int
use goblin_nip05d.Proof
use goblin_nip05d.RateLimit
use goblin_nip05d.Registry
use goblin_nip05d.Text
use goblin_nip05d.Text.Number
use goblin_nip05d.Transfer
use goblin_nip05d.Transfer.Claim
use goblin_nip05d.Tests.Scene.{
  alice, auth_event, bob, json, libraries, moment, offer_id, server, stocked,
}

-- The offer's event; its id is the one that the claim names.
abbrev signed_offer : Event
signed_offer = record {
  id = offer_id;
  pubkey = alice;
  created_at = 1000;
  kind = 3402;
  tags =
      (lit "name" ∷ lit "alice" ∷ [])
      ∷ (lit "domain" ∷ lit "goblin.st" ∷ [])
      ∷ (lit "p" ∷ bob ∷ [])
      ∷ (lit "price" ∷ lit "5" ∷ [])
      ∷ (lit "proof_address" ∷ lit "grin1" ∷ [])
      ∷ (lit "expiration" ∷ lit "2000" ∷ [])
      ∷ [];
}

-- "l" is the header of the lodging and "o" the offer in its body; any other header is the claim's.
abbrev sale_libs : Platform
sale_libs = record (libraries (auth_event bob (lit "POST") (lit "/api/v1/transfer/claim"))) {
  base64_decode = some;
  event_from_json = λ raw.
      if text_eq raw (lit "l")
      then some
          (record (auth_event alice (lit "POST") (lit "/api/v1/transfer/offer")) { id = lit "l" })
      else if text_eq raw (lit "o")
      then some signed_offer
      else some (auth_event bob (lit "POST") (lit "/api/v1/transfer/claim"));
}

abbrev sale_json : Json
sale_json = record json { to_string = λ _. lit "o" }

abbrev lodging_time : Moment
lodging_time = record moment {
  headers = record { authorization = some (lit "Nostr l"); x_real_ip = none };
}

abbrev no_offers : Db
no_offers = record stocked { offers = [] }

abbrev sale_lodged : App × Response
sale_lodged = run (lodge_offer lodging_time sale_libs sale_json (0 ∷ [])) (server no_offers)

abbrev sale_claimed : App × Response
sale_claimed = run (claim moment sale_libs sale_json (0 ∷ [])) sale_lodged.0

lodging_created : sale_lodged.1.status ≡ 201
unfolding Text.lit Text.text_eq Text.is_ascii_lowercase Text.is_ascii_uppercase Text.is_ascii_digit
    Text.is_ascii_hexdigit Text.to_ascii_lowercase Text.eq_ignore_ascii_case Text.is_whitespace
    Text.drop_while Text.drop_end_while Text.trim Text.trim_end_matches Text.strip_prefix Text.split
    Text.utf8_char Text.as_bytes Int.◌+ℤ◌ Int.◌-ℤ◌ Int.cast_i64 Int.cast_u64 Int.wrap_i64
    RateLimit.rate_key RateLimit.get_entry RateLimit.put_entry RateLimit.hits_of RateLimit.cleanup
    RateLimit.allow RateLimit.cooldown_active RateLimit.record_op RateLimit.replay_window
    RateLimit.auth_event_fresh Auth.◌>>=◌ Auth.ensure Auth.ok_or Auth.url_matches Auth.scan_tag
    Auth.scan_tags Auth.is_stale Auth.check_payload Auth.verify_nip98 App.err App.◌>>=◌ App.pure
    App.respond App.require App.unwrap_or App.gets App.modify App.run Moment.client_ip
    Moment.unix_now Moment.allow_read Moment.allow_write Moment.auth_fresh Moment.in_cooldown
    Moment.arm_cooldown Moment.query Moment.query_any Moment.execute Db.lookup Db.name_of
    Db.get_offer Db.live_offer_for_name Db.live_offer_binding Db.transfer_for_offer Db.excess_used
    Db.upsert_name Db.release_name Db.reassign_name Db.insert_offer Db.mark_offer_dead Db.set_status
    Db.insert_transfer Db.empty_db Registry.auth_message Registry.authenticate Registry.unavailable
    Registry.registered Registry.has_name Registry.released Registry.check_taken
    Registry.check_single Registry.register_reply Registry.availability Registry.register
    Registry.check_owner Registry.finish_release Registry.unregister Number.parse_digits
    Number.parse_number Number.parse_u64 Number.parse_i64 Proof.normalize_grin_address
    Proof.is_grin_hrp Proof.sized Proof.decode_grin_address Proof.amount_to_be_u64
    Proof.payment_proof_message Proof.verify_ed25519 Proof.both_signed Proof.verify_signatures
    Proof.value_str Proof.text_field Proof.parse_payment_proof ClaimTxn.◌>>=◌ ClaimTxn.demand
    ClaimTxn.tx_execute ClaimTxn.run_claim_txn Transfer.draft_tag Transfer.draft_tags
    Transfer.extract_offer_tags Transfer.status_text Transfer.lodge_reply Transfer.revoked_reply
    Transfer.tip Transfer.is_owner Transfer.in_term Transfer.settle_expiry Transfer.read_offer
    Transfer.finish_revoke Transfer.revoke_offer Transfer.lodge_event Transfer.lodge_offer
    Claim.claim_success Claim.retry_reply Claim.is_dead Claim.dead_err Claim.death_height
    Claim.settled_before Claim.amount_matches Claim.ask_kernel Claim.confirmed Claim.check_holder
    Claim.tx_message Claim.is_offer_id Claim.claimed_id Claim.commit_claim Claim.answer_retry
    Claim.check_consumed Claim.finish_claim Claim.decide_claim Claim.claim Names.reserved_terms
    Names.ok_char Names.is_alnum Names.checked_valid_name Names.valid_name Names.fold_char
    Names.fold_lookalike Names.is_reserved Names.domain_reserved Names.valid_pubkey_hex
lodging_created = refl

claiming_created : sale_claimed.1.status ≡ 201
unfolding Text.lit Text.text_eq Text.is_ascii_lowercase Text.is_ascii_uppercase Text.is_ascii_digit
    Text.is_ascii_hexdigit Text.to_ascii_lowercase Text.eq_ignore_ascii_case Text.is_whitespace
    Text.drop_while Text.drop_end_while Text.trim Text.trim_end_matches Text.strip_prefix Text.split
    Text.utf8_char Text.as_bytes Int.◌+ℤ◌ Int.◌-ℤ◌ Int.cast_i64 Int.cast_u64 Int.wrap_i64
    RateLimit.rate_key RateLimit.get_entry RateLimit.put_entry RateLimit.hits_of RateLimit.cleanup
    RateLimit.allow RateLimit.cooldown_active RateLimit.record_op RateLimit.replay_window
    RateLimit.auth_event_fresh Auth.◌>>=◌ Auth.ensure Auth.ok_or Auth.url_matches Auth.scan_tag
    Auth.scan_tags Auth.is_stale Auth.check_payload Auth.verify_nip98 App.err App.◌>>=◌ App.pure
    App.respond App.require App.unwrap_or App.gets App.modify App.run Moment.client_ip
    Moment.unix_now Moment.allow_read Moment.allow_write Moment.auth_fresh Moment.in_cooldown
    Moment.arm_cooldown Moment.query Moment.query_any Moment.execute Db.lookup Db.name_of
    Db.get_offer Db.live_offer_for_name Db.live_offer_binding Db.transfer_for_offer Db.excess_used
    Db.upsert_name Db.release_name Db.reassign_name Db.insert_offer Db.mark_offer_dead Db.set_status
    Db.insert_transfer Db.empty_db Registry.auth_message Registry.authenticate Registry.unavailable
    Registry.registered Registry.has_name Registry.released Registry.check_taken
    Registry.check_single Registry.register_reply Registry.availability Registry.register
    Registry.check_owner Registry.finish_release Registry.unregister Number.parse_digits
    Number.parse_number Number.parse_u64 Number.parse_i64 Proof.normalize_grin_address
    Proof.is_grin_hrp Proof.sized Proof.decode_grin_address Proof.amount_to_be_u64
    Proof.payment_proof_message Proof.verify_ed25519 Proof.both_signed Proof.verify_signatures
    Proof.value_str Proof.text_field Proof.parse_payment_proof ClaimTxn.◌>>=◌ ClaimTxn.demand
    ClaimTxn.tx_execute ClaimTxn.run_claim_txn Transfer.draft_tag Transfer.draft_tags
    Transfer.extract_offer_tags Transfer.status_text Transfer.lodge_reply Transfer.revoked_reply
    Transfer.tip Transfer.is_owner Transfer.in_term Transfer.settle_expiry Transfer.read_offer
    Transfer.finish_revoke Transfer.revoke_offer Transfer.lodge_event Transfer.lodge_offer
    Claim.claim_success Claim.retry_reply Claim.is_dead Claim.dead_err Claim.death_height
    Claim.settled_before Claim.amount_matches Claim.ask_kernel Claim.confirmed Claim.check_holder
    Claim.tx_message Claim.is_offer_id Claim.claimed_id Claim.commit_claim Claim.answer_retry
    Claim.check_consumed Claim.finish_claim Claim.decide_claim Claim.claim Names.reserved_terms
    Names.ok_char Names.is_alnum Names.checked_valid_name Names.valid_name Names.fold_char
    Names.fold_lookalike Names.is_reserved Names.domain_reserved Names.valid_pubkey_hex
claiming_created = refl

no_offers-IsKeyed : IsKeyed no_offers
no_offers-IsKeyed = record { names = (tt, tt); owners = (tt, tt); offers = tt; transfers = tt }

sale_evidence : Lodged lodging_time sale_libs sale_json (0 ∷ []) (server no_offers) sale_lodged.0
sale_evidence =
    lodge_offer-Lodged lodging_time sale_libs sale_json (0 ∷ []) (server no_offers) sale_lodged.0
      sale_lodged.1 refl lodging_created

claim_evidence :
    Claimed moment sale_libs sale_json (0 ∷ []) sale_lodged.0 sale_claimed.0 sale_claimed.1
claim_evidence =
    claim-Claimed moment sale_libs sale_json (0 ∷ []) sale_lodged.0 sale_claimed.0 sale_claimed.1
      (lodge_offer-IsKeyed lodging_time sale_libs sale_json (0 ∷ []) (server no_offers)
        no_offers-IsKeyed)
      refl claiming_created

body_id :
    (req : ℕ)
    → sale_json.from_slice (0 ∷ []) ≡ some req
    → claimed_id sale_libs sale_json req ≡ some offer_id
unfolding Text.lit Text.text_eq Text.is_ascii_lowercase Text.is_ascii_uppercase Text.is_ascii_digit
    Text.is_ascii_hexdigit Text.to_ascii_lowercase Text.eq_ignore_ascii_case Text.is_whitespace
    Text.drop_while Text.drop_end_while Text.trim Text.trim_end_matches Text.strip_prefix Text.split
    Text.utf8_char Text.as_bytes Int.◌+ℤ◌ Int.◌-ℤ◌ Int.cast_i64 Int.cast_u64 Int.wrap_i64
    RateLimit.rate_key RateLimit.get_entry RateLimit.put_entry RateLimit.hits_of RateLimit.cleanup
    RateLimit.allow RateLimit.cooldown_active RateLimit.record_op RateLimit.replay_window
    RateLimit.auth_event_fresh Auth.◌>>=◌ Auth.ensure Auth.ok_or Auth.url_matches Auth.scan_tag
    Auth.scan_tags Auth.is_stale Auth.check_payload Auth.verify_nip98 App.err App.◌>>=◌ App.pure
    App.respond App.require App.unwrap_or App.gets App.modify App.run Moment.client_ip
    Moment.unix_now Moment.allow_read Moment.allow_write Moment.auth_fresh Moment.in_cooldown
    Moment.arm_cooldown Moment.query Moment.query_any Moment.execute Db.lookup Db.name_of
    Db.get_offer Db.live_offer_for_name Db.live_offer_binding Db.transfer_for_offer Db.excess_used
    Db.upsert_name Db.release_name Db.reassign_name Db.insert_offer Db.mark_offer_dead Db.set_status
    Db.insert_transfer Db.empty_db Registry.auth_message Registry.authenticate Registry.unavailable
    Registry.registered Registry.has_name Registry.released Registry.check_taken
    Registry.check_single Registry.register_reply Registry.availability Registry.register
    Registry.check_owner Registry.finish_release Registry.unregister Number.parse_digits
    Number.parse_number Number.parse_u64 Number.parse_i64 Proof.normalize_grin_address
    Proof.is_grin_hrp Proof.sized Proof.decode_grin_address Proof.amount_to_be_u64
    Proof.payment_proof_message Proof.verify_ed25519 Proof.both_signed Proof.verify_signatures
    Proof.value_str Proof.text_field Proof.parse_payment_proof ClaimTxn.◌>>=◌ ClaimTxn.demand
    ClaimTxn.tx_execute ClaimTxn.run_claim_txn Transfer.draft_tag Transfer.draft_tags
    Transfer.extract_offer_tags Transfer.status_text Transfer.lodge_reply Transfer.revoked_reply
    Transfer.tip Transfer.is_owner Transfer.in_term Transfer.settle_expiry Transfer.read_offer
    Transfer.finish_revoke Transfer.revoke_offer Transfer.lodge_event Transfer.lodge_offer
    Claim.claim_success Claim.retry_reply Claim.is_dead Claim.dead_err Claim.death_height
    Claim.settled_before Claim.amount_matches Claim.ask_kernel Claim.confirmed Claim.check_holder
    Claim.tx_message Claim.is_offer_id Claim.claimed_id Claim.commit_claim Claim.answer_retry
    Claim.check_consumed Claim.finish_claim Claim.decide_claim Claim.claim Names.reserved_terms
    Names.ok_char Names.is_alnum Names.checked_valid_name Names.valid_name Names.fold_char
    Names.fold_lookalike Names.is_reserved Names.domain_reserved Names.valid_pubkey_hex
body_id req h = let first : req ≡ 0 = cc h in ap (claimed_id sale_libs sale_json) first ∙ refl

body_event :
    (event : Event) → sale_libs.event_from_json (lit "o") ≡ some event → event ≡ signed_offer
unfolding Text.lit Text.text_eq Text.is_ascii_lowercase Text.is_ascii_uppercase Text.is_ascii_digit
    Text.is_ascii_hexdigit Text.to_ascii_lowercase Text.eq_ignore_ascii_case Text.is_whitespace
    Text.drop_while Text.drop_end_while Text.trim Text.trim_end_matches Text.strip_prefix Text.split
    Text.utf8_char Text.as_bytes
body_event event h = cc h

-- The claim is of the offer that was lodged.
names_sale : claim_evidence.begun.offer_id ≡ sale_evidence.event.id
names_sale =
    let id : claim_evidence.begun.offer_id ≡ offer_id = cc (
      claim_evidence.begun.names_offer,
      body_id claim_evidence.begun.req claim_evidence.begun.asked,
    ) in
    id
    ∙ sym (ap (λ (e : Event). e.id) (body_event sale_evidence.event sale_evidence.is_offer.parsed))

claim-of-lodged_example :
    SameTerms sale_evidence.row claim_evidence.begun.offer
    × (amount_matches sale_evidence.row.price_nanogrin claim_evidence.begun.proof.amount ≡ true)
    × (claim_evidence.begun.proof.amount ≡ sale_evidence.is_row.price)
    × (normalize_grin_address sale_libs claim_evidence.begun.proof.recipient_address
        ≡ normalize_grin_address sale_libs sale_evidence.is_row.tags.proof_address)
    × (claim_evidence.begun.pubkey ≡ sale_evidence.row.buyer_pubkey)
    × (lookup sale_lodged.0.db sale_evidence.row.name ≡ some sale_evidence.row.seller_pubkey)
    × (lookup sale_claimed.0.db sale_evidence.row.name ≡ some sale_evidence.row.buyer_pubkey)
claim-of-lodged_example =
    claim-of-lodged sale_libs sale_json lodging_time moment (0 ∷ []) (0 ∷ []) (server no_offers)
      sale_lodged.0 sale_lodged.0 sale_claimed.0 sale_claimed.1 sale_evidence at_once claim_evidence
      names_sale
