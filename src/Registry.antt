-- ===== src/Registry.antt =====
-- src/handlers/registry.rs: availability, register, release.
pub mod Register
pub mod Success
pub mod Cooldown
pub mod Available
pub mod Release
pub mod Invariant
use goblin_nip05d.App.Moment.{
  Moment, Written, allow_read, allow_write, arm_cooldown, auth_fresh, failure, in_cooldown, query,
  rows, unix_now, violation, execute,
}
use goblin_nip05d.Auth.Replay.{replayed}
use goblin_nip05d.ClaimTxn.{at_lookup, at_name_of, at_release, at_upsert}
use goblin_nip05d.Auth.{
  AuthError, AuthResult, authorized, bad_base64, bad_json, bad_kind, bad_scheme, bad_signature,
  method_mismatch, missing_header, payload_mismatch, payload_missing, stale, unauthorized,
  url_mismatch, verify_nip98,
}
use goblin_nip05d.Text.{Text, lit, text_eq}
use goblin_nip05d.Prelude.{
  List, Option, [], false, if◌then◌else◌, is_none, none, not, some, suc, true, zero, ℕ, ◌++◌, ◌∷◌,
}
use goblin_nip05d.Config.{Config, invalid}
use goblin_nip05d.App.{
  ◌>>=◌, ◌>>◌, Handler, Response, err, flag, gets, next, pure, reply, respond, text, unwrap_or,
  require,
}
use goblin_nip05d.Platform.{Platform}
use goblin_nip05d.Names.{is_reserved, valid_name, valid_pubkey_hex}
use goblin_nip05d.Db.{expired, lookup, name_of, release_name, upsert_name}

-- The messages of `verify_nip98`.
unfoldable pub auth_message : AuthError → Text
auth_message missing_header = lit "missing Authorization header"
auth_message bad_scheme = lit "Authorization scheme must be Nostr"
auth_message bad_base64 = lit "invalid base64 auth event"
auth_message bad_json = lit "invalid auth event json"
auth_message bad_signature = lit "bad event signature"
auth_message bad_kind = lit "auth event kind must be 27235"
auth_message stale = lit "auth event expired or post-dated"
auth_message url_mismatch = lit "auth event url mismatch"
auth_message method_mismatch = lit "auth event method mismatch"
auth_message payload_mismatch = lit "auth event payload hash mismatch"
auth_message payload_missing = lit "auth event missing payload hash"

-- `match verify_nip98(…) { Ok(v) => v, Err((code, msg)) => return … }`
unfoldable pub authenticate : AuthResult (Text × Text) → Handler (Text × Text)
unfolding err
authenticate (authorized v) s = next v s
authenticate (unauthorized e) s = reply (err 401 (auth_message e)) s

unfoldable pub unavailable : Text → Text → Response
unavailable name reason = record {
  status = 200;
  body = ("name", text name) ∷ ("available", flag false) ∷ ("reason", text reason) ∷ [];
}

-- `{"name": …, "nip05": name@domain}`
unfoldable pub registered : ℕ → Config → Text → Response
registered code cfg name = record {
  status = code;
  body = ("name", text name) ∷ ("nip05", text (name ++ b'@' ∷ cfg.domain)) ∷ [];
}

-- "pubkey already has a name", with the name
unfoldable pub has_name : Text → Response
has_name existing = record {
  status = 409;
  body = ("error", text (lit "pubkey already has a name")) ∷ ("name", text existing) ∷ [];
}

unfoldable pub released : Text → Response
released name = record { status = 200; body = ("name", text name) ∷ ("released", flag true) ∷ [] }

-- The answer if the exact name is already active.
unfoldable pub check_taken : Config → Text → Text → Option Text → Handler (Unit {0})
unfolding pure respond registered err
check_taken cfg name pubkey none = pure tt
check_taken cfg name pubkey (some owner) =
    respond (if text_eq owner pubkey then registered 200 cfg name else err 409 (lit "name taken"))

unfoldable pub check_single : Option Text → Handler (Unit {0})
unfolding pure respond has_name
check_single none = pure tt
check_single (some existing) = respond (has_name existing)

-- The last `match` of `register`.
unfoldable pub register_reply : Config → Text → Written → Response
unfolding registered err
register_reply cfg name (rows zero) = err 409 (lit "name taken")
register_reply cfg name (rows (suc n)) = registered 201 cfg name
register_reply cfg name violation = err 409 (lit "pubkey already has a name")
register_reply cfg name failure = err 500 (lit "db error")

module _ (pf : Platform) (mo : Moment) where
  open pf use {to_lowercase, parse_register}

  unfoldable pub availability : Text → Handler Response
  availability raw_name = do
    allowed ← allow_read mo
    require allowed (err 429 (lit "rate_limited"))
    let name = to_lowercase raw_name
    cfg ← gets (λ s. s.cfg)
    require (valid_name name cfg.name_min cfg.name_max) (unavailable name (lit "invalid"))
    require (not (is_reserved name cfg.extra_reserved)) (unavailable name (lit "reserved"))
    owner ← query mo at_lookup (λ db. lookup db name)
    require (is_none owner) (unavailable name (lit "taken"))
    pure (record { status = 200; body = ("name", text name) ∷ ("available", flag true) ∷ [] })

  unfoldable pub register : List ℕ → Handler Response
  register body = do
    allowed ← allow_write mo (lit "reg")
    require allowed (err 429 (lit "rate_limited"))
    cfg ← gets (λ s. s.cfg)
    auth ← authenticate (
        verify_nip98 pf mo.auth_time mo.headers (lit "POST") (lit "/api/v1/register") body
          cfg.base_url cfg.auth_max_age_secs)
    fresh ← auth_fresh mo auth.1
    require fresh (err 401 (lit "auth event replayed"))
    active ← in_cooldown mo auth.0
    require (not active) (err 429 (lit "name_change_cooldown"))
    req ← unwrap_or (parse_register body) (err 400 (lit "invalid body"))
    let name = to_lowercase req.name
    let pubkey = to_lowercase req.pubkey
    require (valid_pubkey_hex pubkey) (err 400 (lit "invalid pubkey"))
    require (text_eq pubkey auth.0) (err 401 (lit "auth pubkey does not match body pubkey"))
    require (valid_name name cfg.name_min cfg.name_max) (err 400 (lit "invalid name"))
    require (not (is_reserved name cfg.extra_reserved)) (err 403 (lit "name reserved"))
    owner ← query mo at_lookup (λ db. lookup db name)
    check_taken cfg name pubkey owner
    existing ← query mo at_name_of (λ db. name_of db pubkey)
    check_single existing
    written ← execute mo at_upsert (λ db. upsert_name db name pubkey (unix_now mo))
    pure (register_reply cfg name written)

  -- The arms of the `match` on the owner in `unregister`.
  unfoldable pub check_owner : Option Text → Text → Handler (Unit {0})
  unfolding pure respond err
  check_owner none pubkey = respond (err 404 (lit "name not found"))
  check_owner (some owner) pubkey = require (text_eq owner pubkey) (err 403 (lit "not the owner"))

  -- The cooldown is armed only when the statement ran.
  unfoldable pub finish_release : Text → Text → Written → Handler Response
  unfolding pure respond err released
  finish_release name pubkey failure = respond (err 500 (lit "db error"))
  finish_release name pubkey violation = respond (err 500 (lit "db error"))
  finish_release name pubkey (rows n) = do arm_cooldown mo pubkey; pure (released name)

  unfoldable pub unregister : Text → Handler Response
  unregister raw_name = do
    allowed ← allow_write mo (lit "unreg")
    require allowed (err 429 (lit "rate_limited"))
    cfg ← gets (λ s. s.cfg)
    let name = to_lowercase raw_name
    auth ← authenticate (
        verify_nip98 pf mo.auth_time mo.headers (lit "DELETE") (lit "/api/v1/register/" ++ name) []
          cfg.base_url cfg.auth_max_age_secs)
    fresh ← auth_fresh mo auth.1
    require fresh (err 401 (lit "auth event replayed"))
    owner ← query mo at_lookup (λ db. lookup db name)
    check_owner owner auth.0
    written ← execute mo at_release (λ db. release_name db name (unix_now mo))
    finish_release name auth.0 written
