-- ===== src/Tests/Lodging.antt =====
-- A lodging that meets its conditions.
use goblin_nip05d.Tests.Offers.{lodge_json, lodge_libs, offer_event, unoffered}
use goblin_nip05d.Transfer.Lodging.{CanLodge, lodge_offer-Created, lodged_row}
use goblin_nip05d.Proof.{payment_proof_message}
use goblin_nip05d.Text.Number.{parse_digits, parse_i64, parse_number, parse_u64}
use goblin_nip05d.Prelude.Int.{cast_i64, cast_u64, wrap_i64, ◌+ℤ◌, ◌-ℤ◌, leb_ℤ, pos}
use goblin_nip05d.App.Moment.{
  Moment, allow_read, allow_write, arm_cooldown, auth_fresh, client_ip, execute, in_cooldown, query,
  query_any, unix_now, rows,
}
use goblin_nip05d.Registry.{
  auth_message, authenticate, availability, check_owner, check_single, check_taken, finish_release,
  has_name, register, register_reply, registered, released, unavailable, unregister,
}
use goblin_nip05d.Proof.{
  amount_to_be_u64, both_signed, decode_grin_address, is_grin_hrp, normalize_grin_address,
  parse_payment_proof, payment_proof_message, sized, text_field, value_str, verify_ed25519,
  verify_signatures,
}
use goblin_nip05d.RateLimit.{
  allow, auth_event_fresh, cleanup, cooldown_active, get_entry, hits_of, put_entry, rate_key,
  record_op, replay_window,
}
use goblin_nip05d.Auth.{
  check_payload, ensure, is_stale, ok_or, scan_tag, scan_tags, url_matches, verify_nip98,
}
use goblin_nip05d.Text.{
  Text, as_bytes, drop_end_while, drop_while, eq_ignore_ascii_case, is_ascii_digit,
  is_ascii_hexdigit, is_ascii_lowercase, is_ascii_uppercase, is_whitespace, lit, split,
  strip_prefix, text_eq, to_ascii_lowercase, trim, trim_end_matches, utf8_char,
}
use goblin_nip05d.Prelude.{[], refl, some, ◌∷◌, ◌≡◌}
use goblin_nip05d.Names.{
  checked_valid_name, domain_reserved, fold_char, fold_lookalike, is_alnum, is_reserved, ok_char,
  reserved_terms, valid_name, valid_pubkey_hex,
}
use goblin_nip05d.Db.{
  Db, empty_db, excess_used, get_offer, insert_offer, insert_transfer, live_offer_binding,
  live_offer_for_name, lookup, mark_offer_dead, name_of, reassign_name, release_name, set_status,
  transfer_for_offer, upsert_name, expired, live,
}
use goblin_nip05d.App
use goblin_nip05d.App.Moment
use goblin_nip05d.Auth
use goblin_nip05d.Db
use goblin_nip05d.Names
use goblin_nip05d.Prelude.Int
use goblin_nip05d.Proof
use goblin_nip05d.RateLimit
use goblin_nip05d.Registry
use goblin_nip05d.Text
use goblin_nip05d.Text.Number
use goblin_nip05d.Transfer
use goblin_nip05d.Tests.Scene.{bob, moment, server}
use goblin_nip05d.App.{
  App, Response, run, err, gets, modify, pure, require, respond, unwrap_or, parsed,
}
use goblin_nip05d.Transfer.{
  lodge_offer, read_offer, revoke_offer, draft_tag, draft_tags, extract_offer_tags, finish_revoke,
  in_term, is_owner, lodge_event, lodge_reply, revoked_reply, settle_expiry, tip, status_text,
  OfferTags,
}

abbrev offer_tags : OfferTags
offer_tags = record {
  name = lit "alice";
  domain = lit "goblin.st";
  buyer = bob;
  price = lit "5";
  proof_address = lit "grin1";
  expiration = lit "2000";
}

can_lodge : CanLodge moment lodge_libs lodge_json (0 ∷ []) (server unoffered) offer_event
unfolding Text.lit Text.text_eq Text.is_ascii_lowercase Text.is_ascii_uppercase Text.is_ascii_digit
    Text.is_ascii_hexdigit Text.to_ascii_lowercase Text.eq_ignore_ascii_case Text.is_whitespace
    Text.drop_while Text.drop_end_while Text.trim Text.trim_end_matches Text.strip_prefix Text.split
    Text.utf8_char Text.as_bytes Int.◌+ℤ◌ Int.◌-ℤ◌ Int.cast_i64 Int.cast_u64 Int.wrap_i64
    RateLimit.rate_key RateLimit.get_entry RateLimit.put_entry RateLimit.hits_of RateLimit.cleanup
    RateLimit.allow RateLimit.cooldown_active RateLimit.record_op RateLimit.replay_window
    RateLimit.auth_event_fresh Auth.◌>>=◌ Auth.ensure Auth.ok_or Auth.url_matches Auth.scan_tag
    Auth.scan_tags Auth.is_stale Auth.check_payload Auth.verify_nip98 App.err App.◌>>=◌ App.pure
    App.respond App.require App.unwrap_or App.gets App.modify App.run Moment.client_ip
    Moment.unix_now Moment.allow_read Moment.allow_write Moment.auth_fresh Moment.in_cooldown
    Moment.arm_cooldown Moment.query Moment.query_any Moment.execute Db.lookup Db.name_of
    Db.get_offer Db.live_offer_for_name Db.live_offer_binding Db.transfer_for_offer Db.excess_used
    Db.upsert_name Db.release_name Db.reassign_name Db.insert_offer Db.mark_offer_dead Db.set_status
    Db.insert_transfer Db.empty_db Registry.auth_message Registry.authenticate Registry.unavailable
    Registry.registered Registry.has_name Registry.released Registry.check_taken
    Registry.check_single Registry.register_reply Registry.availability Registry.register
    Registry.check_owner Registry.finish_release Registry.unregister Names.reserved_terms
    Names.ok_char Names.is_alnum Names.checked_valid_name Names.valid_name Names.fold_char
    Names.fold_lookalike Names.is_reserved Names.domain_reserved Names.valid_pubkey_hex
    Number.parse_digits Number.parse_number Number.parse_u64 Number.parse_i64
    Proof.normalize_grin_address Proof.is_grin_hrp Proof.sized Proof.decode_grin_address
    Proof.amount_to_be_u64 Proof.payment_proof_message Proof.verify_ed25519 Proof.both_signed
    Proof.verify_signatures Proof.value_str Proof.text_field Proof.parse_payment_proof
    Transfer.draft_tag Transfer.draft_tags Transfer.extract_offer_tags Transfer.status_text
    Transfer.lodge_reply Transfer.revoked_reply Transfer.tip Transfer.is_owner Transfer.in_term
    Transfer.settle_expiry Transfer.read_offer Transfer.finish_revoke Transfer.revoke_offer
    Transfer.lodge_event Transfer.lodge_offer
can_lodge = record {
  auth_id = lit "e";
  req = 0;
  offer_val = 1;
  tags = offer_tags;
  price = 5;
  expiration = pos 2000;
  in_rate = refl;
  signed = refl;
  first_use = refl;
  asked = refl;
  has_offer = refl;
  parsed = refl;
  verified = refl;
  kind = refl;
  extracted = refl;
  name_shape = refl;
  domain = refl;
  buyer_shape = refl;
  priced = refl;
  payable = refl;
  expires = refl;
  term = refl;
  owned = refl;
  alone = refl;
  unbound = refl;
  is_new = refl;
  no_fault = λ site. refl;
}

lodge_offer-Created_example :
    (t : App) × (run (lodge_offer moment lodge_libs lodge_json (0 ∷ [])) (server unoffered)
      ≡ (t, lodge_reply (lit "f") can_lodge.tags.name can_lodge.expiration (rows 1)))
    × (get_offer t.db (lit "f")
        ≡ some (
            lodged_row moment lodge_libs lodge_json offer_event can_lodge.tags can_lodge.price
              can_lodge.expiration))
    × (t.db.names ≡ unoffered.names)
    × (t.db.transfers ≡ unoffered.transfers)
lodge_offer-Created_example =
    lodge_offer-Created moment lodge_libs lodge_json (0 ∷ []) (server unoffered) offer_event
      can_lodge
