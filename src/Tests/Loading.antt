-- ===== src/Tests/Loading.antt =====
-- The configuration and the landing page at concrete inputs.
use goblin_nip05d.Text.Number.{parse_digits, parse_i64, parse_number, parse_u64}
use goblin_nip05d.Prelude.Int.{cast_i64, cast_u64, wrap_i64, ◌+ℤ◌, ◌-ℤ◌}
use goblin_nip05d.App.Moment.{
  Moment, allow_read, allow_write, arm_cooldown, auth_fresh, client_ip, execute, in_cooldown, query,
  query_any, unix_now,
}
use goblin_nip05d.Names.Reserved.{folds_onto}
use goblin_nip05d.Pages.Escape.{escape_each, html_escape_lem, is_plain}
use goblin_nip05d.Config.Loading.{from_env-IsSound}
use goblin_nip05d.Config.Checks.{IsSound}
use goblin_nip05d.Config.Env.{
  Env, Files, env_bool, env_parse, env_string, env_trimmed, extra_names, file_names, finish_load,
  for_test, from_env, lines, lines_of, load_reserved_file, loaded, read_config, relay_list,
  reserved_names, strip_return,
}
use goblin_nip05d.RateLimit.{
  allow, auth_event_fresh, cleanup, cooldown_active, get_entry, hits_of, put_entry, rate_key,
  record_op, replay_window,
}
use goblin_nip05d.Auth.{
  check_payload, ensure, is_stale, ok_or, scan_tag, scan_tags, url_matches, verify_nip98,
}
use goblin_nip05d.Text.{
  Text, as_bytes, drop_end_while, drop_while, eq_ignore_ascii_case, is_ascii_digit,
  is_ascii_hexdigit, is_ascii_lowercase, is_ascii_uppercase, is_whitespace, lit, split,
  strip_prefix, text_eq, to_ascii_lowercase, trim, trim_end_matches, utf8_char,
}
use goblin_nip05d.Pages.{html_escape}
use goblin_nip05d.Prelude.{[], all, any, none, refl, true, ◌∷◌, ◌≡◌, ◌≢◌}
use goblin_nip05d.Config.{Config, first_part, grin_node_endpoints, host_bare, validate}
use goblin_nip05d.App.{App, err, gets, modify, pure, require, respond, run, unwrap_or}
use goblin_nip05d.Platform.{Platform}
use goblin_nip05d.Names.{
  checked_valid_name, domain_reserved, fold_char, fold_lookalike, is_alnum, is_reserved, ok_char,
  reserved_terms, valid_name, valid_pubkey_hex,
}
use goblin_nip05d.Db.{
  Db, empty_db, excess_used, get_offer, insert_offer, insert_transfer, live_offer_binding,
  live_offer_for_name, lookup, mark_offer_dead, name_of, reassign_name, release_name, set_status,
  transfer_for_offer, upsert_name,
}
use goblin_nip05d.App
use goblin_nip05d.App.Moment
use goblin_nip05d.Auth
use goblin_nip05d.Db
use goblin_nip05d.Names
use goblin_nip05d.Prelude.Int
use goblin_nip05d.RateLimit
use goblin_nip05d.Text
use goblin_nip05d.Text.Number
use goblin_nip05d.Config
use goblin_nip05d.Config.Env
use goblin_nip05d.Tests.Scene.{alice, auth_event, libraries}

abbrev empty_env : Env
empty_env = λ _. none

abbrev no_files : Files
no_files = λ _. none

abbrev env_libs : Platform
env_libs = libraries (auth_event alice [] [])

abbrev default_config : Config
default_config = read_config env_libs empty_env (lit "goblin" ∷ [])

default_loaded : from_env env_libs empty_env no_files ≡ loaded default_config
unfolding Text.lit Text.text_eq Text.is_ascii_lowercase Text.is_ascii_uppercase Text.is_ascii_digit
    Text.is_ascii_hexdigit Text.to_ascii_lowercase Text.eq_ignore_ascii_case Text.is_whitespace
    Text.drop_while Text.drop_end_while Text.trim Text.trim_end_matches Text.strip_prefix Text.split
    Text.utf8_char Text.as_bytes Int.◌+ℤ◌ Int.◌-ℤ◌ Int.cast_i64 Int.cast_u64 Int.wrap_i64
    RateLimit.rate_key RateLimit.get_entry RateLimit.put_entry RateLimit.hits_of RateLimit.cleanup
    RateLimit.allow RateLimit.cooldown_active RateLimit.record_op RateLimit.replay_window
    RateLimit.auth_event_fresh Auth.◌>>=◌ Auth.ensure Auth.ok_or Auth.url_matches Auth.scan_tag
    Auth.scan_tags Auth.is_stale Auth.check_payload Auth.verify_nip98 App.err App.◌>>=◌ App.pure
    App.respond App.require App.unwrap_or App.gets App.modify App.run Moment.client_ip
    Moment.unix_now Moment.allow_read Moment.allow_write Moment.auth_fresh Moment.in_cooldown
    Moment.arm_cooldown Moment.query Moment.query_any Moment.execute Db.lookup Db.name_of
    Db.get_offer Db.live_offer_for_name Db.live_offer_binding Db.transfer_for_offer Db.excess_used
    Db.upsert_name Db.release_name Db.reassign_name Db.insert_offer Db.mark_offer_dead Db.set_status
    Db.insert_transfer Db.empty_db Names.reserved_terms Names.ok_char Names.is_alnum
    Names.checked_valid_name Names.valid_name Names.fold_char Names.fold_lookalike Names.is_reserved
    Names.domain_reserved Names.valid_pubkey_hex Config.first_part Config.host_bare Config.validate
    Config.grin_node_endpoints Env.env_string Env.env_parse Env.strip_return Env.lines_of Env.lines
    Env.reserved_names Env.load_reserved_file Env.file_names Env.extra_names Env.env_bool
    Env.env_trimmed Env.relay_list Env.read_config Env.finish_load Env.from_env Env.for_test
    Number.parse_digits Number.parse_number Number.parse_u64 Number.parse_i64
default_loaded = refl

from_env-IsSound_example :
    IsSound default_config
    × ((name : Text)
        → checked_valid_name name default_config.name_min default_config.name_max ≢ none)
    × ((name : Text)
        → any (folds_onto name) (domain_reserved env_libs.to_lowercase default_config.domain) ≡ true
        → is_reserved name default_config.extra_reserved ≡ true)
from_env-IsSound_example =
    from_env-IsSound env_libs empty_env no_files default_config default_loaded

html_escape_lem_example :
    (html_escape (lit "a<b>&\"c") ≡ escape_each (lit "a<b>&\"c"))
    × (all is_plain (html_escape (lit "a<b>&\"c")) ≡ true)
html_escape_lem_example = html_escape_lem (lit "a<b>&\"c")
