-- ===== src/Auth.antt =====
-- src/auth.rs: NIP-98 authorization.
pub mod Tags
pub mod Sound
pub mod Freshness
pub mod Replay
use goblin_nip05d.Prelude.Int.{cast_i64, ltb_ℤ, negsuc, wrap_i64, ℤ, ◌-ℤ◌}
use goblin_nip05d.Text.{
  Text, eq_ignore_ascii_case, lit, strip_prefix, text_eq, trim, trim_end_matches,
}
use goblin_nip05d.Prelude.{
  Bool, List, Option, [], false, get_elem?, if◌then◌else◌, none, not, some, true, ℕ, ◌++◌, ◌==◌,
  ◌||◌, ◌∷◌,
}
use goblin_nip05d.Platform.{Platform}

-- The request headers that the program reads: the values of `Authorization` and `X-Real-IP`, or none
-- where the header is missing or not visible ASCII.
pub record Headers : Type 0 where
  pub authorization : Option Text
  pub x_real_ip : Option Text

-- The messages of `verify_nip98`; each goes with status 401.
pub data AuthError : Type 0 where
  missing_header bad_scheme bad_base64 bad_json bad_signature bad_kind stale : AuthError
  url_mismatch method_mismatch payload_mismatch payload_missing : AuthError

pub data AuthResult {ℓ} (A : Type ℓ) : Type ℓ where
  authorized : A → AuthResult A
  unauthorized : AuthError → AuthResult A

infixl 5 ◌>>=◌ ◌>>◌
unfoldable pub ◌>>=◌ {ℓ κ} :
    {A : Type ℓ} {B : Type κ} → AuthResult A → (A → AuthResult B) → AuthResult B
authorized a >>= f = f a
unauthorized e >>= f = unauthorized e

abbrev pub ◌>>◌ {ℓ} : {B : Type ℓ} → AuthResult (Unit {0}) → AuthResult B → AuthResult B
m >> k = m >>= λ _. k

unfoldable pub ensure : Bool → AuthError → AuthResult (Unit {0})
ensure true e = authorized tt
ensure false e = unauthorized e

unfoldable pub ok_or {ℓ} : {A : Type ℓ} → Option A → AuthError → AuthResult A
ok_or none e = unauthorized e
ok_or (some a) e = authorized a

-- `Kind::HttpAuth`
abbrev pub http_auth : ℕ
http_auth = 27235

-- The three variables of the loop over the tags.
pub record TagScan : Type 0 where
  pub u_ok : Bool
  pub method_ok : Bool
  pub payload_hash : Option Text

-- `u.trim_end_matches('/') == expected.trim_end_matches('/')`
unfoldable pub url_matches : Text → Text → Bool
url_matches u expected = text_eq (trim_end_matches b'/' u) (trim_end_matches b'/' expected)

-- One round of the loop: the parts of a tag are matched in the order of the source.
unfoldable pub scan_tag : Text → Text → List Text → TagScan → TagScan
scan_tag expected method [] s = s
scan_tag expected method (key ∷ rest) s =
    if text_eq key (lit "u")
    then elim (get_elem? rest 0) [ none ↦ s | some u ↦ record s { u_ok = url_matches u expected } ]
    else if text_eq key (lit "method")
    then elim (get_elem? rest 0) [
      | none ↦ s
      | some m ↦ record s { method_ok = eq_ignore_ascii_case m method }
    ]
    else if text_eq key (lit "payload")
    then record s { payload_hash = get_elem? rest 0 }
    else s

unfoldable pub scan_tags : Text → Text → List (List Text) → TagScan → TagScan
scan_tags expected method [] s = s
scan_tags expected method (t ∷ ts) s = scan_tags expected method ts (scan_tag expected method t s)

-- `age > auth_max_age_secs || age < -5`, in i64.
abbrev pub age_of : ℕ → ℕ → ℤ
age_of now created_at = wrap_i64 (cast_i64 now -ℤ cast_i64 created_at)

unfoldable pub is_stale : ℕ → ℕ → ℤ → Bool
is_stale now created_at max_age =
    ltb_ℤ max_age (age_of now created_at) || ltb_ℤ (age_of now created_at) (negsuc 4)

module _ (pf : Platform) where
  open pf use {event_from_json, event_verify, base64_decode, sha256, hex_encode}

  unfoldable pub check_payload : Option Text → List ℕ → AuthResult (Unit {0})
  check_payload (some expect) body =
      ensure (eq_ignore_ascii_case expect (hex_encode (sha256 body))) payload_mismatch
  check_payload none [] = authorized tt
  check_payload none (b ∷ body) = unauthorized payload_missing

  -- `now` is `Timestamp::now()` in seconds; the answer is the key and the id of the event, in hex.
  unfoldable pub verify_nip98 :
      ℕ → Headers → Text → Text → List ℕ → Text → ℤ → AuthResult (Text × Text)
  verify_nip98 now headers method url_path body base_url max_age = do
    auth ← ok_or headers.authorization missing_header
    b64 ← ok_or (strip_prefix (lit "Nostr ") auth) bad_scheme
    raw ← ok_or (base64_decode (trim b64)) bad_base64
    event ← ok_or (event_from_json raw) bad_json
    ensure (event_verify event) bad_signature
    ensure (event.kind == http_auth) bad_kind
    ensure (not (is_stale now event.created_at max_age)) stale
    let start : TagScan = record { u_ok = false; method_ok = false; payload_hash = none }
    let scan = scan_tags (base_url ++ url_path) method event.tags start
    ensure scan.u_ok url_mismatch
    ensure scan.method_ok method_mismatch
    check_payload scan.payload_hash body
    authorized (event.pubkey, event.id)
