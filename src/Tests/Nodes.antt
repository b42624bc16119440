-- ===== src/Tests/Nodes.antt =====
-- A claim that asks the node client.
use goblin_nip05d.Tests.Chain.{chain_json, two_keys, two_libs, two_offers}
use goblin_nip05d.Text.Number.{parse_digits, parse_i64, parse_number, parse_u64}
use goblin_nip05d.Prelude.Int.{cast_i64, cast_u64, wrap_i64, ◌+ℤ◌, ◌-ℤ◌}
use goblin_nip05d.App.Moment.{
  Moment, allow_read, allow_write, arm_cooldown, auth_fresh, client_ip, execute, in_cooldown, query,
  query_any, unix_now, KernelResult,
}
use goblin_nip05d.Transfer.Sound.{Claimed}
use goblin_nip05d.Transfer.Claim.{
  amount_matches, answer_retry, ask_kernel, check_consumed, check_holder, claim, claim_success,
  claimed_id, commit_claim, confirmed, dead_err, death_height, decide_claim, finish_claim, is_dead,
  is_offer_id, retry_reply, settled_before, tx_message,
}
use goblin_nip05d.Node.Depth.{Buried}
use goblin_nip05d.Node.Failover.{First, node_client-First}
use goblin_nip05d.Server.Buried.{claim-Buried}
use goblin_nip05d.Registry.{
  auth_message, authenticate, availability, check_owner, check_single, check_taken, finish_release,
  has_name, register, register_reply, registered, released, unavailable, unregister,
}
use goblin_nip05d.Proof.{
  amount_to_be_u64, both_signed, decode_grin_address, is_grin_hrp, normalize_grin_address,
  parse_payment_proof, payment_proof_message, sized, text_field, value_str, verify_ed25519,
  verify_signatures,
}
use goblin_nip05d.ClaimTxn.{demand, run_claim_txn, tx_execute}
use goblin_nip05d.RateLimit.{
  allow, auth_event_fresh, cleanup, cooldown_active, get_entry, hits_of, put_entry, rate_key,
  record_op, replay_window,
}
use goblin_nip05d.Auth.{
  check_payload, ensure, is_stale, ok_or, scan_tag, scan_tags, url_matches, verify_nip98,
}
use goblin_nip05d.Text.{
  Text, as_bytes, drop_end_while, drop_while, eq_ignore_ascii_case, is_ascii_digit,
  is_ascii_hexdigit, is_ascii_lowercase, is_ascii_uppercase, is_whitespace, lit, split,
  strip_prefix, text_eq, to_ascii_lowercase, trim, trim_end_matches, utf8_char,
}
use goblin_nip05d.Prelude.{Option, [], arith, none, refl, some, true, ◌↔◌, ◌∷◌, ◌≡◌, All, List}
use goblin_nip05d.Config.{Config, first_part, grin_node_endpoints, host_bare, validate}
use goblin_nip05d.Transfer.{
  draft_tag, draft_tags, extract_offer_tags, finish_revoke, in_term, is_owner, lodge_event,
  lodge_offer, lodge_reply, read_offer, revoke_offer, revoked_reply, settle_expiry, status_text,
  tip,
}
use goblin_nip05d.Node.{
  Reply, Rpc, depth, first_answer, found_at, get_kernel, get_tip, has_error, is_null, kernel_height,
  kernel_one, member_u64, node_client, node_of, not_found, read_reply, rpc, set_kernel, test_kernel,
  test_source, tip_one, unwrap_envelope, value_u64,
}
use goblin_nip05d.App.{App, Response, err, gets, modify, pure, require, respond, run, unwrap_or}
use goblin_nip05d.Db.{
  Db, OfferRow, empty_db, excess_used, get_offer, insert_offer, insert_transfer, live_offer_binding,
  live_offer_for_name, lookup, mark_offer_dead, name_of, reassign_name, release_name, set_status,
  transfer_for_offer, upsert_name,
}
use goblin_nip05d.App
use goblin_nip05d.App.Moment
use goblin_nip05d.Auth
use goblin_nip05d.ClaimTxn
use goblin_nip05d.Db
use goblin_nip05d.Prelude.Int
use goblin_nip05d.Proof
use goblin_nip05d.RateLimit
use goblin_nip05d.Registry
use goblin_nip05d.Text
use goblin_nip05d.Text.Number
use goblin_nip05d.Transfer
use goblin_nip05d.Transfer.Claim
use goblin_nip05d.Config
use goblin_nip05d.Node
use goblin_nip05d.Tests.Scene.{config, moment, server}

abbrev post : Text → Rpc → Option (Reply chain_json)
post endpoint (get_kernel excess) = some (record { success = true; json = some 20 })
post endpoint get_tip = some (record { success = true; json = some 21 })

abbrev asking : Moment
asking = record moment { node = node_of chain_json post config }

abbrev asking_run : App × Response
asking_run = run (claim asking two_libs chain_json (0 ∷ [])) (server two_offers)

asking_created : asking_run.1.status ≡ 201
unfolding Text.lit Text.text_eq Text.is_ascii_lowercase Text.is_ascii_uppercase Text.is_ascii_digit
    Text.is_ascii_hexdigit Text.to_ascii_lowercase Text.eq_ignore_ascii_case Text.is_whitespace
    Text.drop_while Text.drop_end_while Text.trim Text.trim_end_matches Text.strip_prefix Text.split
    Text.utf8_char Text.as_bytes Int.◌+ℤ◌ Int.◌-ℤ◌ Int.cast_i64 Int.cast_u64 Int.wrap_i64
    RateLimit.rate_key RateLimit.get_entry RateLimit.put_entry RateLimit.hits_of RateLimit.cleanup
    RateLimit.allow RateLimit.cooldown_active RateLimit.record_op RateLimit.replay_window
    RateLimit.auth_event_fresh Auth.◌>>=◌ Auth.ensure Auth.ok_or Auth.url_matches Auth.scan_tag
    Auth.scan_tags Auth.is_stale Auth.check_payload Auth.verify_nip98 App.err App.◌>>=◌ App.pure
    App.respond App.require App.unwrap_or App.gets App.modify App.run Moment.client_ip
    Moment.unix_now Moment.allow_read Moment.allow_write Moment.auth_fresh Moment.in_cooldown
    Moment.arm_cooldown Moment.query Moment.query_any Moment.execute Db.lookup Db.name_of
    Db.get_offer Db.live_offer_for_name Db.live_offer_binding Db.transfer_for_offer Db.excess_used
    Db.upsert_name Db.release_name Db.reassign_name Db.insert_offer Db.mark_offer_dead Db.set_status
    Db.insert_transfer Db.empty_db Registry.auth_message Registry.authenticate Registry.unavailable
    Registry.registered Registry.has_name Registry.released Registry.check_taken
    Registry.check_single Registry.register_reply Registry.availability Registry.register
    Registry.check_owner Registry.finish_release Registry.unregister Number.parse_digits
    Number.parse_number Number.parse_u64 Number.parse_i64 Proof.normalize_grin_address
    Proof.is_grin_hrp Proof.sized Proof.decode_grin_address Proof.amount_to_be_u64
    Proof.payment_proof_message Proof.verify_ed25519 Proof.both_signed Proof.verify_signatures
    Proof.value_str Proof.text_field Proof.parse_payment_proof ClaimTxn.◌>>=◌ ClaimTxn.demand
    ClaimTxn.tx_execute ClaimTxn.run_claim_txn Transfer.draft_tag Transfer.draft_tags
    Transfer.extract_offer_tags Transfer.status_text Transfer.lodge_reply Transfer.revoked_reply
    Transfer.tip Transfer.is_owner Transfer.in_term Transfer.settle_expiry Transfer.read_offer
    Transfer.finish_revoke Transfer.revoke_offer Transfer.lodge_event Transfer.lodge_offer
    Claim.claim_success Claim.retry_reply Claim.is_dead Claim.dead_err Claim.death_height
    Claim.settled_before Claim.amount_matches Claim.ask_kernel Claim.confirmed Claim.check_holder
    Claim.tx_message Claim.is_offer_id Claim.claimed_id Claim.commit_claim Claim.answer_retry
    Claim.check_consumed Claim.finish_claim Claim.decide_claim Claim.claim Node.first_answer
    Node.depth Node.not_found Node.found_at Node.is_null Node.value_u64 Node.member_u64
    Node.has_error Node.unwrap_envelope Node.read_reply Node.kernel_height Node.rpc Node.kernel_one
    Node.tip_one Node.node_client Node.node_of Node.set_kernel Node.test_kernel Node.test_source
    Config.first_part Config.host_bare Config.validate Config.grin_node_endpoints
asking_created = refl

claim-Buried_example :
    (c : Claimed asking two_libs chain_json (0 ∷ []) (server two_offers) asking_run.0 asking_run.1)
    × Buried chain_json post (grin_node_endpoints config) 10 c.begun.proof.excess_hex c.paid.kernel
claim-Buried_example =
    claim-Buried asking two_libs chain_json post (0 ∷ []) (server two_offers) asking_run.0
      asking_run.1 two_keys refl (omega arith) refl asking_created

abbrev mined : KernelResult
mined = record { found = true; confirmations = 11; height = some 50 }

abbrev endpoints : List Text
endpoints = lit "a" ∷ lit "b" ∷ []

node_client-First_example :
    (((node_client chain_json post endpoints).kernel (lit "00") ≡ some mined)
      ↔ First (kernel_one chain_json post (lit "00")) endpoints mined)
    × (((node_client chain_json post endpoints).kernel (lit "00") ≡ none)
        ↔ All (λ e. kernel_one chain_json post (lit "00") e ≡ none) endpoints)
    × (((node_client chain_json post endpoints).tip_height ≡ some 60)
        ↔ First (tip_one chain_json post) endpoints 60)
    × (((node_client chain_json post endpoints).tip_height ≡ none)
        ↔ All (λ e. tip_one chain_json post e ≡ none) endpoints)
node_client-First_example = node_client-First chain_json post endpoints (lit "00") mined 60
