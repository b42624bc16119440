-- ===== src/Tests/Cooldown.antt =====
-- A release before a registration, and requests that are refused.
use goblin_nip05d.RateLimit.Calls.{no_calls, then_allow}
use goblin_nip05d.Tests.Handlers.{register_libs}
use goblin_nip05d.Server.Refused.{Refused-Same}
use goblin_nip05d.Registry.Cooldown.{register-after-unregister, reg-apart}
use goblin_nip05d.Db.{lookup, name_of}
use goblin_nip05d.Prelude.Int.{cast_i64, cast_u64, wrap_i64, ◌+ℤ◌, ◌-ℤ◌}
use goblin_nip05d.App.Moment.{
  Moment, allow_read, allow_write, arm_cooldown, auth_fresh, client_ip, execute, in_cooldown, query,
  query_any, unix_now,
}
use goblin_nip05d.RateLimit.{
  allow, auth_event_fresh, cleanup, cooldown_active, get_entry, hits_of, put_entry, rate_key,
  record_op, replay_window,
}
use goblin_nip05d.Auth.{
  check_payload, ensure, is_stale, ok_or, scan_tag, scan_tags, url_matches, verify_nip98,
}
use goblin_nip05d.Text.{
  Text, as_bytes, drop_end_while, drop_while, eq_ignore_ascii_case, is_ascii_digit,
  is_ascii_hexdigit, is_ascii_lowercase, is_ascii_uppercase, is_whitespace, lit, split,
  strip_prefix, text_eq, to_ascii_lowercase, trim, trim_end_matches, utf8_char,
}
use goblin_nip05d.Prelude.{[], refl, ◌∷◌, ◌≡◌, some, if◌then◌else◌, none, ◌≢◌, ◌⊎◌}
use goblin_nip05d.Platform.{Platform}
use goblin_nip05d.Names.{
  checked_valid_name, domain_reserved, fold_char, fold_lookalike, is_alnum, is_reserved, ok_char,
  reserved_terms, valid_name, valid_pubkey_hex,
}
use goblin_nip05d.Db.{
  Db, empty_db, excess_used, get_offer, insert_offer, insert_transfer, live_offer_binding,
  live_offer_for_name, lookup, mark_offer_dead, name_of, reassign_name, release_name, set_status,
  transfer_for_offer, upsert_name,
}
use goblin_nip05d.App
use goblin_nip05d.App.Moment
use goblin_nip05d.Auth
use goblin_nip05d.Db
use goblin_nip05d.Names
use goblin_nip05d.Prelude.Int
use goblin_nip05d.RateLimit
use goblin_nip05d.Registry
use goblin_nip05d.Text
use goblin_nip05d.Tests.Scene.{alice, auth_event, json, moment, server, stocked}
use goblin_nip05d.App.{App, Response, run, err, gets, modify, pure, require, respond, unwrap_or}
use goblin_nip05d.Registry.{
  register, unregister, auth_message, authenticate, availability, check_owner, check_single,
  check_taken, finish_release, has_name, register_reply, registered, released, unavailable,
}
use goblin_nip05d.Transfer.Claim.{claim}

-- A release, authorized with the header "r", and a registration by the same key a moment later.
abbrev both_libs : Platform
both_libs = record register_libs {
  base64_decode = some;
  event_from_json = λ raw.
      if text_eq raw (lit "r")
      then some
          (record (auth_event alice (lit "DELETE") (lit "/api/v1/register/alice")) { id = lit "r" })
      else some (auth_event alice (lit "POST") (lit "/api/v1/register"));
}

abbrev releasing : Moment
releasing = record moment {
  headers = record { authorization = some (lit "Nostr r"); x_real_ip = none };
}

abbrev freed_run : App × Response
freed_run = run (unregister both_libs releasing (lit "alice")) (server stocked)

-- A write of another client in between.
abbrev between : App
between = record freed_run.0 {
  rate = (allow freed_run.0.rate (lit "reg") (lit "x") 10 3600000000000 0).0;
  cfg = (server stocked).cfg;
}

abbrev again_run : App × Response
again_run = run (register both_libs moment (0 ∷ [])) between

alice_freed : freed_run.1.status ≡ 200
unfolding Text.lit Text.text_eq Text.is_ascii_lowercase Text.is_ascii_uppercase Text.is_ascii_digit
    Text.is_ascii_hexdigit Text.to_ascii_lowercase Text.eq_ignore_ascii_case Text.is_whitespace
    Text.drop_while Text.drop_end_while Text.trim Text.trim_end_matches Text.strip_prefix Text.split
    Text.utf8_char Text.as_bytes Int.◌+ℤ◌ Int.◌-ℤ◌ Int.cast_i64 Int.cast_u64 Int.wrap_i64
    RateLimit.rate_key RateLimit.get_entry RateLimit.put_entry RateLimit.hits_of RateLimit.cleanup
    RateLimit.allow RateLimit.cooldown_active RateLimit.record_op RateLimit.replay_window
    RateLimit.auth_event_fresh Auth.◌>>=◌ Auth.ensure Auth.ok_or Auth.url_matches Auth.scan_tag
    Auth.scan_tags Auth.is_stale Auth.check_payload Auth.verify_nip98 App.err App.◌>>=◌ App.pure
    App.respond App.require App.unwrap_or App.gets App.modify App.run Moment.client_ip
    Moment.unix_now Moment.allow_read Moment.allow_write Moment.auth_fresh Moment.in_cooldown
    Moment.arm_cooldown Moment.query Moment.query_any Moment.execute Db.lookup Db.name_of
    Db.get_offer Db.live_offer_for_name Db.live_offer_binding Db.transfer_for_offer Db.excess_used
    Db.upsert_name Db.release_name Db.reassign_name Db.insert_offer Db.mark_offer_dead Db.set_status
    Db.insert_transfer Db.empty_db Registry.auth_message Registry.authenticate Registry.unavailable
    Registry.registered Registry.has_name Registry.released Registry.check_taken
    Registry.check_single Registry.register_reply Registry.availability Registry.register
    Registry.check_owner Registry.finish_release Registry.unregister Names.reserved_terms
    Names.ok_char Names.is_alnum Names.checked_valid_name Names.valid_name Names.fold_char
    Names.fold_lookalike Names.is_reserved Names.domain_reserved Names.valid_pubkey_hex
alice_freed = refl

alice_held : lookup (server stocked).db (both_libs.to_lowercase (lit "alice")) ≡ some alice
unfolding Text.lit Text.text_eq Text.is_ascii_lowercase Text.is_ascii_uppercase Text.is_ascii_digit
    Text.is_ascii_hexdigit Text.to_ascii_lowercase Text.eq_ignore_ascii_case Text.is_whitespace
    Text.drop_while Text.drop_end_while Text.trim Text.trim_end_matches Text.strip_prefix Text.split
    Text.utf8_char Text.as_bytes lookup
alice_held = refl

register-after-unregister_example : again_run.1.status ≢ 201
unfolding Text.lit Text.text_eq Text.is_ascii_lowercase Text.is_ascii_uppercase Text.is_ascii_digit
    Text.is_ascii_hexdigit Text.to_ascii_lowercase Text.eq_ignore_ascii_case Text.is_whitespace
    Text.drop_while Text.drop_end_while Text.trim Text.trim_end_matches Text.strip_prefix Text.split
    Text.utf8_char Text.as_bytes
register-after-unregister_example =
    register-after-unregister both_libs releasing moment (lit "alice") (0 ∷ []) (server stocked)
      freed_run.0 between again_run.0 freed_run.1 again_run.1 alice
      (record { name = lit "alice"; pubkey = alice }) refl alice_freed alice_held
      (then_allow freed_run.0.rate (lit "reg") (lit "x") 10 3600000000000 0 no_calls
        (reg-apart (lit "x") alice) refl)
      refl refl refl refl refl

-- A registration on a server where the name is taken, a release of a name that nobody holds, and a
-- claim without an offer.
Refused-Same_example :
    (((run (register both_libs moment (0 ∷ [])) (server stocked)).0.db.names ≡ stocked.names)
        × ((run (register both_libs moment (0 ∷ [])) (server stocked)).0.db.transfers
            ≡ stocked.transfers)
      ⊎ ((run (register both_libs moment (0 ∷ [])) (server stocked)).1.status ≡ 201))
    × (((run (unregister both_libs moment (lit "bob")) (server stocked)).0.db.names ≡ stocked.names)
          × ((run (unregister both_libs moment (lit "bob")) (server stocked)).0.db.transfers
              ≡ stocked.transfers)
        ⊎ ((run (unregister both_libs moment (lit "bob")) (server stocked)).1.status ≡ 200))
    × (((run (claim moment both_libs json (0 ∷ [])) (server stocked)).0.db.names ≡ stocked.names)
          × ((run (claim moment both_libs json (0 ∷ [])) (server stocked)).0.db.transfers
              ≡ stocked.transfers)
        ⊎ ((run (claim moment both_libs json (0 ∷ [])) (server stocked)).1.status ≡ 201))
Refused-Same_example = Refused-Same moment both_libs json (server stocked) (0 ∷ []) (lit "bob")
