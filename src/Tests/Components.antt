-- ===== src/Tests/Components.antt =====
-- The properties of the components at concrete inputs.
use goblin_nip05d.History.Keyed.{replay-IsKeyed}
use goblin_nip05d.History.Races.{release-after-settlement}
use goblin_nip05d.History.{apply, free, replay, revoke, upsert}
use goblin_nip05d.Prelude.Int.{cast_i64, cast_u64, pos, wrap_i64, ◌+ℤ◌, ◌-ℤ◌}
use goblin_nip05d.Names.Reserved.{folds_onto, is_reserved-eq-fold, is_reserved_lookalike}
use goblin_nip05d.Names.Validity.{IsName, checked_valid_name-ne-none, valid_name_iff}
use goblin_nip05d.Auth.Replay.{replayed, single_use}
use goblin_nip05d.Auth.Sound.{Authorizes, verify_nip98-Authorizes}
use goblin_nip05d.Auth.Freshness.{is_stale-bounds}
use goblin_nip05d.RateLimit.Replay.{after_uses, auth_event_fresh_once}
use goblin_nip05d.RateLimit.Entries.{NoColon, rate_key_injective}
use goblin_nip05d.RateLimit.Window.{Call, granted_to, serve, serve-le-max}
use goblin_nip05d.ClaimTxn.Settles.{Settles, run_claim_txn-Settles}
use goblin_nip05d.Db.Keys.{IsKeyed}
use goblin_nip05d.Db.Lookup.{lookup-iff-name_of}
use goblin_nip05d.ClaimTxn.{Faults, demand, ok, run_claim_txn, transfer_row, tx_execute}
use goblin_nip05d.RateLimit.{
  Instant, allow, auth_event_fresh, cleanup, cooldown_active, get_entry, hits_of, put_entry,
  rate_key, recent, record_op, replay_window,
}
use goblin_nip05d.Text.{
  Text, as_bytes, drop_end_while, drop_while, eq_ignore_ascii_case, is_ascii_digit,
  is_ascii_hexdigit, is_ascii_lowercase, is_ascii_uppercase, is_whitespace, lit, split,
  strip_prefix, text_eq, to_ascii_lowercase, trim, trim_end_matches, utf8_char,
}
use goblin_nip05d.Prelude.{
  All, List, [], any, arith, count_if, false, none, refl, some, true, ◌++◌, ◌+◌, ◌↔◌, ◌∷◌, ◌≡◌, ◌≢◌,
  ◌≤◌,
}
use goblin_nip05d.Config.{Config, first_part, grin_node_endpoints, host_bare, valid, validate}
use goblin_nip05d.Platform.{Platform}
use goblin_nip05d.Names.{
  checked_valid_name, domain_reserved, fold_char, fold_lookalike, is_alnum, is_reserved, ok_char,
  reserved_terms, valid_name, valid_pubkey_hex,
}
use goblin_nip05d.Db.{
  Db, consumed, empty_db, excess_used, get_offer, insert_offer, insert_transfer, live_offer_binding,
  live_offer_for_name, lookup, mark_offer_dead, name_of, reassign_name, release_name, set_status,
  transfer_for_offer, upsert_name,
}
use goblin_nip05d.Text
use goblin_nip05d.Names
use goblin_nip05d.Auth
use goblin_nip05d.ClaimTxn
use goblin_nip05d.Config
use goblin_nip05d.Db
use goblin_nip05d.Prelude.Int
use goblin_nip05d.RateLimit
use goblin_nip05d.Tests.Scene.{
  alice, auth_event, alice_row, bob, config, libraries, moment, offer, stocked, offer_id,
}
use goblin_nip05d.Auth.{
  verify_nip98, authorized, check_payload, ensure, is_stale, ok_or, scan_tag, scan_tags,
  url_matches,
}

stocked_unique : IsKeyed stocked
stocked_unique = record { names = (tt, tt); owners = (tt, tt); offers = (tt, tt); transfers = tt }

abbrev no_faults : Faults
no_faults = λ _. false

-- The database after the claim of Alice's offer with the excess "00".
abbrev sold : Db
sold = record {
  names = record alice_row { pubkey = bob; created_at = pos 1000 } ∷ [];
  offers = record offer { status = consumed } ∷ [];
  transfers = transfer_row offer (lit "00") (some (pos 50)) (pos 1000) ∷ [];
}

claim_runs : run_claim_txn no_faults stocked offer (lit "00") (some (pos 50)) (pos 1000) ≡ ok sold
unfolding Text.lit Text.text_eq Text.is_ascii_lowercase Text.is_ascii_uppercase Text.is_ascii_digit
    Text.is_ascii_hexdigit Text.to_ascii_lowercase Text.eq_ignore_ascii_case Text.is_whitespace
    Text.drop_while Text.drop_end_while Text.trim Text.trim_end_matches Text.strip_prefix Text.split
    Text.utf8_char Text.as_bytes Db.lookup Db.name_of Db.get_offer Db.live_offer_for_name
    Db.live_offer_binding Db.transfer_for_offer Db.excess_used Db.upsert_name Db.release_name
    Db.reassign_name Db.insert_offer Db.mark_offer_dead Db.set_status Db.insert_transfer Db.empty_db
    ClaimTxn.◌>>=◌ ClaimTxn.demand ClaimTxn.tx_execute ClaimTxn.run_claim_txn
claim_runs = refl

run_claim_txn-Settles_example : Settles stocked offer (lit "00") sold
run_claim_txn-Settles_example =
    run_claim_txn-Settles no_faults stocked offer (lit "00") (some (pos 50)) (pos 1000) sold
      stocked_unique claim_runs

lookup-iff-name_of_example :
    (lookup stocked (lit "alice") ≡ some alice) ↔ (name_of stocked alice ≡ some (lit "alice"))
lookup-iff-name_of_example = lookup-iff-name_of stocked (lit "alice") alice stocked_unique

abbrev event_libs : Platform
event_libs = libraries (auth_event alice (lit "POST") (lit "/api/v1/register"))

alice_authorized :
    verify_nip98 event_libs 1000 moment.headers
      (lit "POST")
      (lit "/api/v1/register")
      (0 ∷ [])
      (lit "https://goblin.st")
      (pos 60)
    ≡ authorized (alice, lit "e")
unfolding Text.lit Text.text_eq Text.is_ascii_lowercase Text.is_ascii_uppercase Text.is_ascii_digit
    Text.is_ascii_hexdigit Text.to_ascii_lowercase Text.eq_ignore_ascii_case Text.is_whitespace
    Text.drop_while Text.drop_end_while Text.trim Text.trim_end_matches Text.strip_prefix Text.split
    Text.utf8_char Text.as_bytes Auth.◌>>=◌ Auth.ensure Auth.ok_or Auth.url_matches Auth.scan_tag
    Auth.scan_tags Auth.is_stale Auth.check_payload Auth.verify_nip98 Int.◌+ℤ◌ Int.◌-ℤ◌ Int.cast_i64
    Int.cast_u64 Int.wrap_i64
alice_authorized = refl

verify_nip98-Authorizes_example :
    Authorizes event_libs 1000 moment.headers
      (lit "POST")
      (lit "https://goblin.st" ++ lit "/api/v1/register")
      (0 ∷ [])
      (pos 60)
      alice
      (lit "e")
verify_nip98-Authorizes_example =
    verify_nip98-Authorizes event_libs 1000 moment.headers (lit "POST") (lit "/api/v1/register")
      (0 ∷ []) (lit "https://goblin.st") (pos 60) alice (lit "e") alice_authorized

first_use : (auth_event_fresh [] (lit "e") (pos 60) 0).1 ≡ true
unfolding Text.lit Text.text_eq Text.is_ascii_lowercase Text.is_ascii_uppercase Text.is_ascii_digit
    Text.is_ascii_hexdigit Text.to_ascii_lowercase Text.eq_ignore_ascii_case Text.is_whitespace
    Text.drop_while Text.drop_end_while Text.trim Text.trim_end_matches Text.strip_prefix Text.split
    Text.utf8_char Text.as_bytes RateLimit.rate_key RateLimit.get_entry RateLimit.put_entry
    RateLimit.hits_of RateLimit.cleanup RateLimit.allow RateLimit.cooldown_active
    RateLimit.record_op RateLimit.replay_window RateLimit.auth_event_fresh Int.◌+ℤ◌ Int.◌-ℤ◌
    Int.cast_i64 Int.cast_u64 Int.wrap_i64
first_use = refl

accepted_age : is_stale 1030 1000 (pos 60) ≡ false
unfolding Text.lit Text.text_eq Text.is_ascii_lowercase Text.is_ascii_uppercase Text.is_ascii_digit
    Text.is_ascii_hexdigit Text.to_ascii_lowercase Text.eq_ignore_ascii_case Text.is_whitespace
    Text.drop_while Text.drop_end_while Text.trim Text.trim_end_matches Text.strip_prefix Text.split
    Text.utf8_char Text.as_bytes Auth.◌>>=◌ Auth.ensure Auth.ok_or Auth.url_matches Auth.scan_tag
    Auth.scan_tags Auth.is_stale Auth.check_payload Auth.verify_nip98 Int.◌+ℤ◌ Int.◌-ℤ◌ Int.cast_i64
    Int.cast_u64 Int.wrap_i64
accepted_age = refl

abbrev other_use : List (Text × Instant)
other_use = (lit "f", 20000000000) ∷ []

other_recent : All (λ e. recent e.1 (replay_window (pos 60)) 0 ≡ true) other_use
unfolding Text.lit Text.text_eq Text.is_ascii_lowercase Text.is_ascii_uppercase Text.is_ascii_digit
    Text.is_ascii_hexdigit Text.to_ascii_lowercase Text.eq_ignore_ascii_case Text.is_whitespace
    Text.drop_while Text.drop_end_while Text.trim Text.trim_end_matches Text.strip_prefix Text.split
    Text.utf8_char Text.as_bytes RateLimit.rate_key RateLimit.get_entry RateLimit.put_entry
    RateLimit.hits_of RateLimit.cleanup RateLimit.allow RateLimit.cooldown_active
    RateLimit.record_op RateLimit.replay_window RateLimit.auth_event_fresh Int.◌+ℤ◌ Int.◌-ℤ◌
    Int.cast_i64 Int.cast_u64 Int.wrap_i64
other_recent = (refl, tt)

single_use_example :
    (auth_event_fresh
      (after_uses (pos 60) (auth_event_fresh [] (lit "e") (pos 60) 0).0 other_use)
      (lit "e")
      (pos 60)
      30000000000).1
    ≡ false
single_use_example =
    single_use 60 1000 1000 1030 0 30000000000 (lit "e") [] other_use (omega arith) (omega arith)
      (omega arith) (omega arith) (omega arith) accepted_age (omega arith) first_use other_recent

replayed_example :
    (is_stale 1000 1005 (pos 60) ≡ false)
    × (is_stale 1065 1005 (pos 60) ≡ false)
    × ((auth_event_fresh
          (auth_event_fresh [] (lit "e") (pos 60) 0).0
          (lit "e")
          (pos 60)
          65000000000).1
        ≡ true)
replayed_example = replayed 60 1000 0 (lit "e") [] (omega arith) first_use

recent_again : recent 30000000000 (replay_window (pos 60)) 0 ≡ true
unfolding Text.lit Text.text_eq Text.is_ascii_lowercase Text.is_ascii_uppercase Text.is_ascii_digit
    Text.is_ascii_hexdigit Text.to_ascii_lowercase Text.eq_ignore_ascii_case Text.is_whitespace
    Text.drop_while Text.drop_end_while Text.trim Text.trim_end_matches Text.strip_prefix Text.split
    Text.utf8_char Text.as_bytes RateLimit.rate_key RateLimit.get_entry RateLimit.put_entry
    RateLimit.hits_of RateLimit.cleanup RateLimit.allow RateLimit.cooldown_active
    RateLimit.record_op RateLimit.replay_window RateLimit.auth_event_fresh Int.◌+ℤ◌ Int.◌-ℤ◌
    Int.cast_i64 Int.cast_u64 Int.wrap_i64
recent_again = refl

auth_event_fresh_once_example :
    (auth_event_fresh
      (after_uses (pos 60) (auth_event_fresh [] (lit "e") (pos 60) 0).0 other_use)
      (lit "e")
      (pos 60)
      30000000000).1
    ≡ false
auth_event_fresh_once_example =
    auth_event_fresh_once (pos 60) [] (lit "e") 0 30000000000 other_use first_use other_recent
      recent_again

is_stale-bounds_example : (1030 ≤ 1000 + 60) × (1000 ≤ 1030 + 5)
is_stale-bounds_example =
    is_stale-bounds 1030 1000 60 (omega arith) (omega arith) (omega arith) accepted_age

abbrev two_calls : List Call
two_calls =
    record { bucket = lit "reg"; ip = lit "ip"; now = 7 }
    ∷ record { bucket = lit "reg"; ip = lit "ip"; now = 5 }
    ∷ []

serve-le-max_example :
    count_if (granted_to (rate_key (lit "reg") (lit "ip")) 8 10) (serve 1 10 two_calls).granted ≤ 1
serve-le-max_example =
    serve-le-max 1 10 two_calls (rate_key (lit "reg") (lit "ip")) 8 (omega arith, (omega arith, tt))
      (omega arith)

abbrev bucket : Text
bucket = b'r' ∷ []

bucket-NoColon : NoColon bucket
bucket-NoColon = (λ e. absurd (omega arith), tt)

rate_key_injective_example : (bucket ≡ bucket) × (lit "ip" ≡ lit "ip")
rate_key_injective_example =
    rate_key_injective bucket bucket (lit "ip") (lit "ip") bucket-NoColon bucket-NoColon refl

valid_name_iff_example : (valid_name (lit "alice") 3 20 ≡ true) ↔ IsName (lit "alice") 3 20
valid_name_iff_example = valid_name_iff (lit "alice") 3 20 (omega arith)

checked_valid_name-ne-none_example : checked_valid_name (lit "alice") 3 20 ≢ none
checked_valid_name-ne-none_example = checked_valid_name-ne-none (lit "alice") 3 20 (omega arith)

look_alike : fold_lookalike (lit "adm1n") ≡ fold_lookalike (lit "ad.min")
unfolding Text.lit Text.text_eq Text.is_ascii_lowercase Text.is_ascii_uppercase Text.is_ascii_digit
    Text.is_ascii_hexdigit Text.to_ascii_lowercase Text.eq_ignore_ascii_case Text.is_whitespace
    Text.drop_while Text.drop_end_while Text.trim Text.trim_end_matches Text.strip_prefix Text.split
    Text.utf8_char Text.as_bytes Names.reserved_terms Names.ok_char Names.is_alnum
    Names.checked_valid_name Names.valid_name Names.fold_char Names.fold_lookalike Names.is_reserved
    Names.domain_reserved Names.valid_pubkey_hex
look_alike = refl

is_reserved_lookalike_example : is_reserved (lit "adm1n") [] ≡ is_reserved (lit "ad.min") []
is_reserved_lookalike_example = is_reserved_lookalike (lit "adm1n") (lit "ad.min") [] look_alike

is_reserved-eq-fold_example :
    is_reserved (lit "adm1n") (lit "eve" ∷ [])
    ≡ any (folds_onto (lit "adm1n")) (reserved_terms ++ lit "eve" ∷ [])
is_reserved-eq-fold_example = is_reserved-eq-fold (lit "adm1n") (lit "eve" ∷ [])

config_valid : validate config ≡ valid
unfolding Text.lit Text.text_eq Text.is_ascii_lowercase Text.is_ascii_uppercase Text.is_ascii_digit
    Text.is_ascii_hexdigit Text.to_ascii_lowercase Text.eq_ignore_ascii_case Text.is_whitespace
    Text.drop_while Text.drop_end_while Text.trim Text.trim_end_matches Text.strip_prefix Text.split
    Text.utf8_char Text.as_bytes Config.first_part Config.host_bare Config.validate
    Config.grin_node_endpoints
config_valid = refl

replay-IsKeyed_example :
    IsKeyed (replay (revoke offer_id ∷ upsert (lit "bob") (lit "22") (pos 5) ∷ []) stocked)
replay-IsKeyed_example =
    replay-IsKeyed (revoke offer_id ∷ upsert (lit "bob") (lit "22") (pos 5) ∷ []) stocked
      stocked_unique

stocked_owner : lookup stocked offer.name ≡ some offer.seller_pubkey
unfolding Text.lit Text.text_eq Text.is_ascii_lowercase Text.is_ascii_uppercase Text.is_ascii_digit
    Text.is_ascii_hexdigit Text.to_ascii_lowercase Text.eq_ignore_ascii_case Text.is_whitespace
    Text.drop_while Text.drop_end_while Text.trim Text.trim_end_matches Text.strip_prefix Text.split
    Text.utf8_char Text.as_bytes lookup
stocked_owner = refl

release-after-settlement_example :
    (lookup sold (lit "alice") ≡ some bob)
    × (lookup (apply (free (lit "alice") (pos 1001)) sold) (lit "alice") ≡ none)
    × (transfer_for_offer (apply (free (lit "alice") (pos 1001)) sold) offer_id
        ≡ some (lit "00", lit "alice", bob))
release-after-settlement_example =
    release-after-settlement no_faults stocked sold offer (lit "00") (some (pos 50)) (pos 1000)
      (pos 1001) stocked_unique stocked_owner claim_runs
