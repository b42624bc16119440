-- ===== src/Tests/Handlers.antt =====
-- Whole requests: a registration, a release and a claim that succeed.
use goblin_nip05d.Server.Effects.{Effect, Reachable-Effect}
use goblin_nip05d.History.Offers.{Kept}
use goblin_nip05d.Server.Later.{after_request, at_once}
use goblin_nip05d.Server.Lasting.{Later-Kept}
use goblin_nip05d.Server.{
  handle, Reachable-lookup_iff, registration, served, started, opened, claiming, transfer_route,
}
use goblin_nip05d.Db.{lookup, name_of}
use goblin_nip05d.Text.Number.{parse_digits, parse_i64, parse_number, parse_u64}
use goblin_nip05d.Prelude.Int.{cast_i64, cast_u64, wrap_i64, ◌+ℤ◌, ◌-ℤ◌}
use goblin_nip05d.App.Moment.{
  Moment, allow_read, allow_write, arm_cooldown, auth_fresh, client_ip, execute, in_cooldown, query,
  query_any, unix_now,
}
use goblin_nip05d.Proof.{
  amount_to_be_u64, both_signed, decode_grin_address, is_grin_hrp, normalize_grin_address,
  parse_payment_proof, payment_proof_message, sized, text_field, value_str, verify_ed25519,
  verify_signatures,
}
use goblin_nip05d.ClaimTxn.{demand, run_claim_txn, tx_execute}
use goblin_nip05d.RateLimit.{
  allow, auth_event_fresh, cleanup, cooldown_active, get_entry, hits_of, put_entry, rate_key,
  record_op, replay_window,
}
use goblin_nip05d.Auth.{
  check_payload, ensure, is_stale, ok_or, scan_tag, scan_tags, url_matches, verify_nip98,
}
use goblin_nip05d.Text.{
  Text, as_bytes, drop_end_while, drop_while, eq_ignore_ascii_case, is_ascii_digit,
  is_ascii_hexdigit, is_ascii_lowercase, is_ascii_uppercase, is_whitespace, lit, split,
  strip_prefix, text_eq, to_ascii_lowercase, trim, trim_end_matches, utf8_char,
}
use goblin_nip05d.Prelude.{[], refl, ◌∷◌, ◌≡◌, some, ◌↔◌}
use goblin_nip05d.Transfer.{
  draft_tag, draft_tags, extract_offer_tags, finish_revoke, in_term, is_owner, lodge_offer,
  lodge_reply, read_offer, revoke_offer, revoked_reply, settle_expiry, tip,
}
use goblin_nip05d.Platform.{Platform}
use goblin_nip05d.Names.{
  checked_valid_name, domain_reserved, fold_char, fold_lookalike, is_alnum, is_reserved, ok_char,
  reserved_terms, valid_name, valid_pubkey_hex,
}
use goblin_nip05d.Db.{
  Db, empty_db, excess_used, get_offer, insert_offer, insert_transfer, live_offer_binding,
  live_offer_for_name, lookup, mark_offer_dead, name_of, reassign_name, release_name, set_status,
  transfer_for_offer, upsert_name,
}
use goblin_nip05d.App
use goblin_nip05d.App.Moment
use goblin_nip05d.Auth
use goblin_nip05d.ClaimTxn
use goblin_nip05d.Db
use goblin_nip05d.Names
use goblin_nip05d.Prelude.Int
use goblin_nip05d.Proof
use goblin_nip05d.RateLimit
use goblin_nip05d.Registry
use goblin_nip05d.Text
use goblin_nip05d.Text.Number
use goblin_nip05d.Transfer
use goblin_nip05d.Transfer.Claim
use goblin_nip05d.Tests.Scene.{
  config, alice, auth_event, bob, json, libraries, moment, server, stocked, offer, offer_id,
}
use goblin_nip05d.Registry.Register.{Registered, register-Registered}
use goblin_nip05d.Registry.Release.{Released, unregister-Released}
use goblin_nip05d.Transfer.Sound.{Claimed, claim-Claimed}
use goblin_nip05d.Db.Keys.{IsKeyed}
use goblin_nip05d.App.{App, Response, run, err, gets, modify, pure, require, respond, unwrap_or}
use goblin_nip05d.Registry.{
  register, unregister, auth_message, authenticate, availability, check_owner, check_single,
  check_taken, finish_release, has_name, register_reply, registered, released, unavailable,
}
use goblin_nip05d.Transfer.Claim.{
  claim, amount_matches, answer_retry, ask_kernel, check_consumed, check_holder, claim_success,
  claimed_id, commit_claim, confirmed, dead_err, death_height, decide_claim, finish_claim, is_dead,
  is_offer_id, retry_reply, settled_before, tx_message,
}

abbrev pub register_libs : Platform
register_libs = libraries (auth_event alice (lit "POST") (lit "/api/v1/register"))

abbrev register_run : App × Response
register_run = run (register register_libs moment (0 ∷ [])) (server empty_db)

-- A registration of "alice" is created.
register_created : register_run.1.status ≡ 201
unfolding Text.lit Text.text_eq Text.is_ascii_lowercase Text.is_ascii_uppercase Text.is_ascii_digit
    Text.is_ascii_hexdigit Text.to_ascii_lowercase Text.eq_ignore_ascii_case Text.is_whitespace
    Text.drop_while Text.drop_end_while Text.trim Text.trim_end_matches Text.strip_prefix Text.split
    Text.utf8_char Text.as_bytes Int.◌+ℤ◌ Int.◌-ℤ◌ Int.cast_i64 Int.cast_u64 Int.wrap_i64
    RateLimit.rate_key RateLimit.get_entry RateLimit.put_entry RateLimit.hits_of RateLimit.cleanup
    RateLimit.allow RateLimit.cooldown_active RateLimit.record_op RateLimit.replay_window
    RateLimit.auth_event_fresh Auth.◌>>=◌ Auth.ensure Auth.ok_or Auth.url_matches Auth.scan_tag
    Auth.scan_tags Auth.is_stale Auth.check_payload Auth.verify_nip98 App.err App.◌>>=◌ App.pure
    App.respond App.require App.unwrap_or App.gets App.modify App.run Moment.client_ip
    Moment.unix_now Moment.allow_read Moment.allow_write Moment.auth_fresh Moment.in_cooldown
    Moment.arm_cooldown Moment.query Moment.query_any Moment.execute Db.lookup Db.name_of
    Db.get_offer Db.live_offer_for_name Db.live_offer_binding Db.transfer_for_offer Db.excess_used
    Db.upsert_name Db.release_name Db.reassign_name Db.insert_offer Db.mark_offer_dead Db.set_status
    Db.insert_transfer Db.empty_db Registry.auth_message Registry.authenticate Registry.unavailable
    Registry.registered Registry.has_name Registry.released Registry.check_taken
    Registry.check_single Registry.register_reply Registry.availability Registry.register
    Registry.check_owner Registry.finish_release Registry.unregister Names.reserved_terms
    Names.ok_char Names.is_alnum Names.checked_valid_name Names.valid_name Names.fold_char
    Names.fold_lookalike Names.is_reserved Names.domain_reserved Names.valid_pubkey_hex
register_created = refl

abbrev release_libs : Platform
release_libs = libraries (auth_event alice (lit "DELETE") (lit "/api/v1/register/alice"))

abbrev release_run : App × Response
release_run = run (unregister release_libs moment (lit "alice")) (server stocked)

-- A release of "alice" is done.
release_done : release_run.1.status ≡ 200
unfolding Text.lit Text.text_eq Text.is_ascii_lowercase Text.is_ascii_uppercase Text.is_ascii_digit
    Text.is_ascii_hexdigit Text.to_ascii_lowercase Text.eq_ignore_ascii_case Text.is_whitespace
    Text.drop_while Text.drop_end_while Text.trim Text.trim_end_matches Text.strip_prefix Text.split
    Text.utf8_char Text.as_bytes Int.◌+ℤ◌ Int.◌-ℤ◌ Int.cast_i64 Int.cast_u64 Int.wrap_i64
    RateLimit.rate_key RateLimit.get_entry RateLimit.put_entry RateLimit.hits_of RateLimit.cleanup
    RateLimit.allow RateLimit.cooldown_active RateLimit.record_op RateLimit.replay_window
    RateLimit.auth_event_fresh Auth.◌>>=◌ Auth.ensure Auth.ok_or Auth.url_matches Auth.scan_tag
    Auth.scan_tags Auth.is_stale Auth.check_payload Auth.verify_nip98 App.err App.◌>>=◌ App.pure
    App.respond App.require App.unwrap_or App.gets App.modify App.run Moment.client_ip
    Moment.unix_now Moment.allow_read Moment.allow_write Moment.auth_fresh Moment.in_cooldown
    Moment.arm_cooldown Moment.query Moment.query_any Moment.execute Db.lookup Db.name_of
    Db.get_offer Db.live_offer_for_name Db.live_offer_binding Db.transfer_for_offer Db.excess_used
    Db.upsert_name Db.release_name Db.reassign_name Db.insert_offer Db.mark_offer_dead Db.set_status
    Db.insert_transfer Db.empty_db Registry.auth_message Registry.authenticate Registry.unavailable
    Registry.registered Registry.has_name Registry.released Registry.check_taken
    Registry.check_single Registry.register_reply Registry.availability Registry.register
    Registry.check_owner Registry.finish_release Registry.unregister Names.reserved_terms
    Names.ok_char Names.is_alnum Names.checked_valid_name Names.valid_name Names.fold_char
    Names.fold_lookalike Names.is_reserved Names.domain_reserved Names.valid_pubkey_hex
release_done = refl

abbrev claim_libs : Platform
claim_libs = libraries (auth_event bob (lit "POST") (lit "/api/v1/transfer/claim"))

abbrev claim_run : App × Response
claim_run = run (claim moment claim_libs json (0 ∷ [])) (server stocked)

-- Bob's claim of the offer is created.
claim_created : claim_run.1.status ≡ 201
unfolding Text.lit Text.text_eq Text.is_ascii_lowercase Text.is_ascii_uppercase Text.is_ascii_digit
    Text.is_ascii_hexdigit Text.to_ascii_lowercase Text.eq_ignore_ascii_case Text.is_whitespace
    Text.drop_while Text.drop_end_while Text.trim Text.trim_end_matches Text.strip_prefix Text.split
    Text.utf8_char Text.as_bytes Int.◌+ℤ◌ Int.◌-ℤ◌ Int.cast_i64 Int.cast_u64 Int.wrap_i64
    RateLimit.rate_key RateLimit.get_entry RateLimit.put_entry RateLimit.hits_of RateLimit.cleanup
    RateLimit.allow RateLimit.cooldown_active RateLimit.record_op RateLimit.replay_window
    RateLimit.auth_event_fresh Auth.◌>>=◌ Auth.ensure Auth.ok_or Auth.url_matches Auth.scan_tag
    Auth.scan_tags Auth.is_stale Auth.check_payload Auth.verify_nip98 App.err App.◌>>=◌ App.pure
    App.respond App.require App.unwrap_or App.gets App.modify App.run Moment.client_ip
    Moment.unix_now Moment.allow_read Moment.allow_write Moment.auth_fresh Moment.in_cooldown
    Moment.arm_cooldown Moment.query Moment.query_any Moment.execute Db.lookup Db.name_of
    Db.get_offer Db.live_offer_for_name Db.live_offer_binding Db.transfer_for_offer Db.excess_used
    Db.upsert_name Db.release_name Db.reassign_name Db.insert_offer Db.mark_offer_dead Db.set_status
    Db.insert_transfer Db.empty_db Registry.auth_message Registry.authenticate Registry.unavailable
    Registry.registered Registry.has_name Registry.released Registry.check_taken
    Registry.check_single Registry.register_reply Registry.availability Registry.register
    Registry.check_owner Registry.finish_release Registry.unregister Number.parse_digits
    Number.parse_number Number.parse_u64 Number.parse_i64 Proof.normalize_grin_address
    Proof.is_grin_hrp Proof.sized Proof.decode_grin_address Proof.amount_to_be_u64
    Proof.payment_proof_message Proof.verify_ed25519 Proof.both_signed Proof.verify_signatures
    Proof.value_str Proof.text_field Proof.parse_payment_proof ClaimTxn.◌>>=◌ ClaimTxn.demand
    ClaimTxn.tx_execute ClaimTxn.run_claim_txn Transfer.draft_tag Transfer.draft_tags
    Transfer.extract_offer_tags Transfer.lodge_reply Transfer.revoked_reply Transfer.tip
    Transfer.is_owner Transfer.in_term Transfer.settle_expiry Transfer.read_offer
    Transfer.finish_revoke Transfer.revoke_offer Transfer.lodge_offer Claim.claim_success
    Claim.retry_reply Claim.is_dead Claim.dead_err Claim.death_height Claim.settled_before
    Claim.amount_matches Claim.ask_kernel Claim.confirmed Claim.check_holder Claim.tx_message
    Claim.is_offer_id Claim.claimed_id Claim.commit_claim Claim.answer_retry Claim.check_consumed
    Claim.finish_claim Claim.decide_claim Claim.claim
claim_created = refl

stocked-IsKeyed : IsKeyed stocked
stocked-IsKeyed = record { names = (tt, tt); owners = (tt, tt); offers = (tt, tt); transfers = tt }

register-Registered_example :
    Registered register_libs moment (0 ∷ []) (server empty_db) register_run.0
register-Registered_example =
    register-Registered register_libs moment (0 ∷ []) (server empty_db) register_run.0
      register_run.1 refl register_created

unregister-Released_example :
    Released release_libs moment (lit "alice") (server stocked) release_run.0
unregister-Released_example =
    unregister-Released release_libs moment (lit "alice") (server stocked) release_run.0
      release_run.1 refl release_done

claim-Claimed_example :
    Claimed moment claim_libs json (0 ∷ []) (server stocked) claim_run.0 claim_run.1
claim-Claimed_example =
    claim-Claimed moment claim_libs json (0 ∷ []) (server stocked) claim_run.0 claim_run.1
      stocked-IsKeyed refl claim_created

-- After the registration of "alice".
Reachable-lookup_iff_example :
    (lookup register_run.0.db (lit "alice") ≡ some alice)
    ↔ (name_of register_run.0.db alice ≡ some (lit "alice"))
unfolding handle opened
Reachable-lookup_iff_example =
    Reachable-lookup_iff register_libs json register_run.0 (lit "alice") alice
      (served moment (registration (0 ∷ [])) (server empty_db) (started config))

-- What the registration does to the names.
Reachable-Effect_example :
    Effect register_libs json moment
      (registration (0 ∷ []))
      (server empty_db)
      (run (handle register_libs json moment (registration (0 ∷ []))) (server empty_db)).0
unfolding opened
Reachable-Effect_example =
    Reachable-Effect register_libs json (server empty_db) moment (registration (0 ∷ []))
      (started config)

-- The offer after Bob's claim.
stored_offer : get_offer (server stocked).db offer_id ≡ some offer
unfolding Text.lit Text.text_eq Text.is_ascii_lowercase Text.is_ascii_uppercase Text.is_ascii_digit
    Text.is_ascii_hexdigit Text.to_ascii_lowercase Text.eq_ignore_ascii_case Text.is_whitespace
    Text.drop_while Text.drop_end_while Text.trim Text.trim_end_matches Text.strip_prefix Text.split
    Text.utf8_char Text.as_bytes get_offer
stored_offer = refl

Later-Kept_example :
    Kept offer offer_id
      (run (transfer_route (claim moment claim_libs json (0 ∷ []))) (server stocked)).0.db
unfolding handle
Later-Kept_example =
    Later-Kept claim_libs json (server stocked)
      (run (transfer_route (claim moment claim_libs json (0 ∷ []))) (server stocked)).0 offer
      offer_id (after_request moment (claiming (0 ∷ [])) (server stocked) at_once) stored_offer
