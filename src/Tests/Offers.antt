-- ===== src/Tests/Offers.antt =====
-- The transfer handlers at concrete requests.
use goblin_nip05d.Transfer.Reading.{lodge_offer-Read, offer_answer}
use goblin_nip05d.Pages.Answers.{CanRead}
use goblin_nip05d.Proof.Message.{payment_proof_message_injective}
use goblin_nip05d.Tests.Scene.{zeros}
use goblin_nip05d.Proof.{payment_proof_message}
use goblin_nip05d.Transfer.Revoke.{Revoked, revoke_offer-Revoked}
use goblin_nip05d.Text.Number.{parse_digits, parse_i64, parse_number, parse_u64}
use goblin_nip05d.Prelude.Int.{cast_i64, cast_u64, wrap_i64, ◌+ℤ◌, ◌-ℤ◌, leb_ℤ, pos}
use goblin_nip05d.App.Moment.{
  Moment, allow_read, allow_write, arm_cooldown, auth_fresh, client_ip, execute, in_cooldown, query,
  query_any, unix_now, rows,
}
use goblin_nip05d.Registry.{
  auth_message, authenticate, availability, check_owner, check_single, check_taken, finish_release,
  has_name, register, register_reply, registered, released, unavailable, unregister,
}
use goblin_nip05d.Proof.{
  amount_to_be_u64, both_signed, decode_grin_address, is_grin_hrp, normalize_grin_address,
  parse_payment_proof, payment_proof_message, sized, text_field, value_str, verify_ed25519,
  verify_signatures,
}
use goblin_nip05d.RateLimit.{
  allow, auth_event_fresh, cleanup, cooldown_active, get_entry, hits_of, put_entry, rate_key,
  record_op, replay_window,
}
use goblin_nip05d.Auth.{
  check_payload, ensure, is_stale, ok_or, scan_tag, scan_tags, url_matches, verify_nip98,
}
use goblin_nip05d.Text.{
  Text, as_bytes, drop_end_while, drop_while, eq_ignore_ascii_case, is_ascii_digit,
  is_ascii_hexdigit, is_ascii_lowercase, is_ascii_uppercase, is_whitespace, lit, split,
  strip_prefix, text_eq, to_ascii_lowercase, trim, trim_end_matches, utf8_char,
}
use goblin_nip05d.Prelude.{
  [], if◌then◌else◌, length, refl, some, ◌++◌, ◌==◌, ◌∷◌, ◌≡◌, List, arith, ℕ, ◌+◌,
}
use goblin_nip05d.Platform.{Event, Json, Platform}
use goblin_nip05d.Names.{
  checked_valid_name, domain_reserved, fold_char, fold_lookalike, is_alnum, is_reserved, ok_char,
  reserved_terms, valid_name, valid_pubkey_hex,
}
use goblin_nip05d.Db.{
  Db, empty_db, excess_used, get_offer, insert_offer, insert_transfer, live_offer_binding,
  live_offer_for_name, lookup, mark_offer_dead, name_of, reassign_name, release_name, set_status,
  transfer_for_offer, upsert_name, expired, live,
}
use goblin_nip05d.App
use goblin_nip05d.App.Moment
use goblin_nip05d.Auth
use goblin_nip05d.Db
use goblin_nip05d.Names
use goblin_nip05d.Prelude.Int
use goblin_nip05d.Proof
use goblin_nip05d.RateLimit
use goblin_nip05d.Registry
use goblin_nip05d.Text
use goblin_nip05d.Text.Number
use goblin_nip05d.Transfer
use goblin_nip05d.Tests.Scene.{
  alice, auth_event, bob, json, libraries, moment, server, stocked, offer_id,
}
use goblin_nip05d.App.{
  App, Response, run, err, gets, modify, pure, require, respond, unwrap_or, parsed,
}
use goblin_nip05d.Db.Keys.{IsKeyed}
use goblin_nip05d.Transfer.{
  lodge_offer, read_offer, revoke_offer, draft_tag, draft_tags, extract_offer_tags, finish_revoke,
  in_term, is_owner, lodge_event, lodge_reply, revoked_reply, settle_expiry, tip, status_text,
  OfferTags,
}
use goblin_nip05d.Transfer.Lodge.{Lodged, lodge_offer-Lodged}

abbrev pub offer_event : Event
offer_event = record {
  id = lit "f";
  pubkey = alice;
  created_at = 1000;
  kind = 3402;
  tags =
      (lit "name" ∷ lit "alice" ∷ [])
      ∷ (lit "domain" ∷ lit "goblin.st" ∷ [])
      ∷ (lit "p" ∷ bob ∷ [])
      ∷ (lit "price" ∷ lit "5" ∷ [])
      ∷ (lit "proof_address" ∷ lit "grin1" ∷ [])
      ∷ (lit "expiration" ∷ lit "2000" ∷ [])
      ∷ [];
}

abbrev lodge_auth : Event
lodge_auth = auth_event alice (lit "POST") (lit "/api/v1/transfer/offer")

-- The header decodes to no bytes, the offer is printed as some.
abbrev pub lodge_libs : Platform
lodge_libs = record (libraries lodge_auth) {
  event_from_json = λ raw. if length raw == 0 then some lodge_auth else some offer_event;
}

abbrev pub lodge_json : Json
lodge_json = record json { to_string = λ _. 1 ∷ [] }

abbrev pub unoffered : Db
unoffered = record stocked { offers = [] }

abbrev lodge_run : App × Response
lodge_run = run (lodge_offer moment lodge_libs lodge_json (0 ∷ [])) (server unoffered)

-- The lodging of Alice's offer is created.
lodge_created : lodge_run.1.status ≡ 201
unfolding Text.lit Text.text_eq Text.is_ascii_lowercase Text.is_ascii_uppercase Text.is_ascii_digit
    Text.is_ascii_hexdigit Text.to_ascii_lowercase Text.eq_ignore_ascii_case Text.is_whitespace
    Text.drop_while Text.drop_end_while Text.trim Text.trim_end_matches Text.strip_prefix Text.split
    Text.utf8_char Text.as_bytes Int.◌+ℤ◌ Int.◌-ℤ◌ Int.cast_i64 Int.cast_u64 Int.wrap_i64
    RateLimit.rate_key RateLimit.get_entry RateLimit.put_entry RateLimit.hits_of RateLimit.cleanup
    RateLimit.allow RateLimit.cooldown_active RateLimit.record_op RateLimit.replay_window
    RateLimit.auth_event_fresh Auth.◌>>=◌ Auth.ensure Auth.ok_or Auth.url_matches Auth.scan_tag
    Auth.scan_tags Auth.is_stale Auth.check_payload Auth.verify_nip98 App.err App.◌>>=◌ App.pure
    App.respond App.require App.unwrap_or App.gets App.modify App.run Moment.client_ip
    Moment.unix_now Moment.allow_read Moment.allow_write Moment.auth_fresh Moment.in_cooldown
    Moment.arm_cooldown Moment.query Moment.query_any Moment.execute Db.lookup Db.name_of
    Db.get_offer Db.live_offer_for_name Db.live_offer_binding Db.transfer_for_offer Db.excess_used
    Db.upsert_name Db.release_name Db.reassign_name Db.insert_offer Db.mark_offer_dead Db.set_status
    Db.insert_transfer Db.empty_db Registry.auth_message Registry.authenticate Registry.unavailable
    Registry.registered Registry.has_name Registry.released Registry.check_taken
    Registry.check_single Registry.register_reply Registry.availability Registry.register
    Registry.check_owner Registry.finish_release Registry.unregister Names.reserved_terms
    Names.ok_char Names.is_alnum Names.checked_valid_name Names.valid_name Names.fold_char
    Names.fold_lookalike Names.is_reserved Names.domain_reserved Names.valid_pubkey_hex
    Number.parse_digits Number.parse_number Number.parse_u64 Number.parse_i64
    Proof.normalize_grin_address Proof.is_grin_hrp Proof.sized Proof.decode_grin_address
    Proof.amount_to_be_u64 Proof.payment_proof_message Proof.verify_ed25519 Proof.both_signed
    Proof.verify_signatures Proof.value_str Proof.text_field Proof.parse_payment_proof
    Transfer.draft_tag Transfer.draft_tags Transfer.extract_offer_tags Transfer.lodge_reply
    Transfer.revoked_reply Transfer.tip Transfer.is_owner Transfer.in_term Transfer.settle_expiry
    Transfer.read_offer Transfer.finish_revoke Transfer.revoke_offer Transfer.lodge_event
    Transfer.lodge_offer
lodge_created = refl

lodge_offer-Lodged_example :
    Lodged moment lodge_libs lodge_json (0 ∷ []) (server unoffered) lodge_run.0
lodge_offer-Lodged_example =
    lodge_offer-Lodged moment lodge_libs lodge_json (0 ∷ []) (server unoffered) lodge_run.0
      lodge_run.1 refl lodge_created

stocked_keys : IsKeyed stocked
stocked_keys = record { names = (tt, tt); owners = (tt, tt); offers = (tt, tt); transfers = tt }

abbrev revoke_libs : Platform
revoke_libs =
    libraries (auth_event alice (lit "DELETE") (lit "/api/v1/transfer/offer/" ++ offer_id))

abbrev revoke_run : App × Response
revoke_run = run (revoke_offer moment revoke_libs offer_id) (server stocked)

-- Alice's revocation of her offer is done.
revoke_done : revoke_run.1.status ≡ 200
unfolding Text.lit Text.text_eq Text.is_ascii_lowercase Text.is_ascii_uppercase Text.is_ascii_digit
    Text.is_ascii_hexdigit Text.to_ascii_lowercase Text.eq_ignore_ascii_case Text.is_whitespace
    Text.drop_while Text.drop_end_while Text.trim Text.trim_end_matches Text.strip_prefix Text.split
    Text.utf8_char Text.as_bytes Int.◌+ℤ◌ Int.◌-ℤ◌ Int.cast_i64 Int.cast_u64 Int.wrap_i64
    RateLimit.rate_key RateLimit.get_entry RateLimit.put_entry RateLimit.hits_of RateLimit.cleanup
    RateLimit.allow RateLimit.cooldown_active RateLimit.record_op RateLimit.replay_window
    RateLimit.auth_event_fresh Auth.◌>>=◌ Auth.ensure Auth.ok_or Auth.url_matches Auth.scan_tag
    Auth.scan_tags Auth.is_stale Auth.check_payload Auth.verify_nip98 App.err App.◌>>=◌ App.pure
    App.respond App.require App.unwrap_or App.gets App.modify App.run Moment.client_ip
    Moment.unix_now Moment.allow_read Moment.allow_write Moment.auth_fresh Moment.in_cooldown
    Moment.arm_cooldown Moment.query Moment.query_any Moment.execute Db.lookup Db.name_of
    Db.get_offer Db.live_offer_for_name Db.live_offer_binding Db.transfer_for_offer Db.excess_used
    Db.upsert_name Db.release_name Db.reassign_name Db.insert_offer Db.mark_offer_dead Db.set_status
    Db.insert_transfer Db.empty_db Registry.auth_message Registry.authenticate Registry.unavailable
    Registry.registered Registry.has_name Registry.released Registry.check_taken
    Registry.check_single Registry.register_reply Registry.availability Registry.register
    Registry.check_owner Registry.finish_release Registry.unregister Names.reserved_terms
    Names.ok_char Names.is_alnum Names.checked_valid_name Names.valid_name Names.fold_char
    Names.fold_lookalike Names.is_reserved Names.domain_reserved Names.valid_pubkey_hex
    Number.parse_digits Number.parse_number Number.parse_u64 Number.parse_i64
    Proof.normalize_grin_address Proof.is_grin_hrp Proof.sized Proof.decode_grin_address
    Proof.amount_to_be_u64 Proof.payment_proof_message Proof.verify_ed25519 Proof.both_signed
    Proof.verify_signatures Proof.value_str Proof.text_field Proof.parse_payment_proof
    Transfer.draft_tag Transfer.draft_tags Transfer.extract_offer_tags Transfer.lodge_reply
    Transfer.revoked_reply Transfer.tip Transfer.is_owner Transfer.in_term Transfer.settle_expiry
    Transfer.read_offer Transfer.finish_revoke Transfer.revoke_offer Transfer.lodge_event
    Transfer.lodge_offer
revoke_done = refl

-- A reading after the expiry of the offer.
abbrev late : Moment
late = record moment { unix = 3000 }

abbrev claim_platform : Platform
claim_platform = libraries (auth_event bob (lit "POST") (lit "/api/v1/transfer/claim"))

revoke_offer-Revoked_example : Revoked moment revoke_libs offer_id (server stocked) revoke_run.0
revoke_offer-Revoked_example =
    revoke_offer-Revoked moment revoke_libs offer_id (server stocked) revoke_run.0 revoke_run.1 refl
      refl refl revoke_done

-- The message of a payment of 5 with an excess and a sender's key of zero bytes.
abbrev zero_message : List ℕ
zero_message = 0 ∷ 0 ∷ 0 ∷ 0 ∷ 0 ∷ 0 ∷ 0 ∷ 5 ∷ zeros 65

zero_message_built : payment_proof_message lodge_libs 5 [] (zeros 32) ≡ some zero_message
unfolding payment_proof_message Proof.sized Proof.amount_to_be_u64
zero_message_built = refl

payment_proof_message_injective_example :
    (◌≡◌ {A = ℕ} 5 5)
    × (lodge_libs.hex_decode [] ≡ lodge_libs.hex_decode [])
    × (zeros 32 ≡ zeros 32)
    × (length zero_message ≡ 41 + length (zeros 32))
payment_proof_message_injective_example =
    payment_proof_message_injective lodge_libs 5 5 [] [] (zeros 32) (zeros 32) zero_message
      (omega arith) (omega arith) zero_message_built zero_message_built

lodged_reads : CanRead moment lodge_run.0
unfolding Text.lit Text.text_eq Text.is_ascii_lowercase Text.is_ascii_uppercase Text.is_ascii_digit
    Text.is_ascii_hexdigit Text.to_ascii_lowercase Text.eq_ignore_ascii_case Text.is_whitespace
    Text.drop_while Text.drop_end_while Text.trim Text.trim_end_matches Text.strip_prefix Text.split
    Text.utf8_char Text.as_bytes Int.◌+ℤ◌ Int.◌-ℤ◌ Int.cast_i64 Int.cast_u64 Int.wrap_i64
    RateLimit.rate_key RateLimit.get_entry RateLimit.put_entry RateLimit.hits_of RateLimit.cleanup
    RateLimit.allow RateLimit.cooldown_active RateLimit.record_op RateLimit.replay_window
    RateLimit.auth_event_fresh Auth.◌>>=◌ Auth.ensure Auth.ok_or Auth.url_matches Auth.scan_tag
    Auth.scan_tags Auth.is_stale Auth.check_payload Auth.verify_nip98 App.err App.◌>>=◌ App.pure
    App.respond App.require App.unwrap_or App.gets App.modify App.run Moment.client_ip
    Moment.unix_now Moment.allow_read Moment.allow_write Moment.auth_fresh Moment.in_cooldown
    Moment.arm_cooldown Moment.query Moment.query_any Moment.execute Db.lookup Db.name_of
    Db.get_offer Db.live_offer_for_name Db.live_offer_binding Db.transfer_for_offer Db.excess_used
    Db.upsert_name Db.release_name Db.reassign_name Db.insert_offer Db.mark_offer_dead Db.set_status
    Db.insert_transfer Db.empty_db Registry.auth_message Registry.authenticate Registry.unavailable
    Registry.registered Registry.has_name Registry.released Registry.check_taken
    Registry.check_single Registry.register_reply Registry.availability Registry.register
    Registry.check_owner Registry.finish_release Registry.unregister Names.reserved_terms
    Names.ok_char Names.is_alnum Names.checked_valid_name Names.valid_name Names.fold_char
    Names.fold_lookalike Names.is_reserved Names.domain_reserved Names.valid_pubkey_hex
    Number.parse_digits Number.parse_number Number.parse_u64 Number.parse_i64
    Proof.normalize_grin_address Proof.is_grin_hrp Proof.sized Proof.decode_grin_address
    Proof.amount_to_be_u64 Proof.payment_proof_message Proof.verify_ed25519 Proof.both_signed
    Proof.verify_signatures Proof.value_str Proof.text_field Proof.parse_payment_proof
    Transfer.draft_tag Transfer.draft_tags Transfer.extract_offer_tags Transfer.status_text
    Transfer.lodge_reply Transfer.revoked_reply Transfer.tip Transfer.is_owner Transfer.in_term
    Transfer.settle_expiry Transfer.read_offer Transfer.finish_revoke Transfer.revoke_offer
    Transfer.lodge_event Transfer.lodge_offer
lodged_reads = record { in_rate = refl; no_fault = λ site. refl }

lodge_offer-Read_example :
    (l : Lodged moment lodge_libs lodge_json (0 ∷ []) (server unoffered) lodge_run.0) × ((run
        (read_offer moment l.event.id)
        lodge_run.0).1
      ≡ offer_answer
          (lodge_libs.event_as_json l.event)
          (if leb_ℤ (unix_now moment) l.row.expiration then live else expired))
lodge_offer-Read_example =
    lodge_offer-Read lodge_libs lodge_json moment moment (0 ∷ []) (server unoffered) lodge_run.0
      lodge_run.1 refl lodge_created lodged_reads
