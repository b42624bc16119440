-- ===== src/Auth/Sound.antt =====
-- What an authorized request has shown.
use goblin_nip05d.Text.Equality.{strip_prefix-append}
use goblin_nip05d.Prelude.Int.{ℤ}
use goblin_nip05d.Auth.Tags.{Carries, Some, scan-method, scan-payload, scan-u}
use goblin_nip05d.Auth.{
  AuthError, AuthResult, Headers, TagScan, authorized, bad_base64, bad_json, bad_kind, bad_scheme,
  bad_signature, check_payload, ensure, http_auth, is_stale, method_mismatch, missing_header, ok_or,
  payload_mismatch, scan_tags, stale, unauthorized, url_matches, url_mismatch, verify_nip98, ◌>>=◌,
  ◌>>◌,
}
use goblin_nip05d.Text.{Text, eq_ignore_ascii_case, lit, strip_prefix, text_eq, trim}
use goblin_nip05d.Prelude.{
  ==_iff, Bool, List, Option, [], ap, arith, false, inl, inr, none, not, refl, some, true, ℕ, ◌++◌,
  ◌==◌, ◌∙◌, ◌∷◌, ◌≡◌, ◌≢◌, ◌⊎◌,
}
use goblin_nip05d.Platform.{Event, Platform}

bind-eq-authorized :
    {A B : Type 0} (m : AuthResult A) (f : A → AuthResult B) {b : B}
    → (m >>= f) ≡ authorized b
    → (a : A) × (m ≡ authorized a) × (f a ≡ authorized b)
unfolding ◌>>=◌
bind-eq-authorized (authorized a) f h = (a, refl, h)
bind-eq-authorized (unauthorized e) f h = cc

ensure-eq-authorized :
    {B : Type 0} (c : Bool) (e : AuthError) (k : AuthResult B) {b : B}
    → (ensure c e >> k) ≡ authorized b
    → (c ≡ true) × (k ≡ authorized b)
unfolding ◌>>=◌ ensure
ensure-eq-authorized true e k h = (refl, h)
ensure-eq-authorized false e k h = cc

ok_or-eq-authorized :
    {A B : Type 0} (o : Option A) (e : AuthError) (k : A → AuthResult B) {b : B}
    → (ok_or o e >>= k) ≡ authorized b
    → (a : A) × (o ≡ some a) × (k a ≡ authorized b)
unfolding ◌>>=◌ ok_or
ok_or-eq-authorized none e k h = cc
ok_or-eq-authorized (some a) e k h = (a, refl, h)

module _ (pf : Platform) where
  open pf use {event_from_json, event_verify, base64_decode, sha256, hex_encode}

  -- A signed event of kind 27235 stands in the header; it is fresh; one of its tags names the URL and
  -- one the method; and where the request has a body, one gives the body's hash.
  pub record Authorizes (now : ℕ) (headers : Headers) (method url : Text) (body : List ℕ)
      (max_age : ℤ) (pubkey id : Text) : Type 0 where
    pub event : Event
    pub header : Text
    pub raw : List ℕ
    pub sent : headers.authorization ≡ some (lit "Nostr " ++ header)
    pub decoded : base64_decode (trim header) ≡ some raw
    pub parsed : event_from_json raw ≡ some event
    pub signed : event_verify event ≡ true
    pub kind : event.kind ≡ http_auth
    pub fresh : is_stale now event.created_at max_age ≡ false
    pub url_tag : Some (Carries (lit "u") (λ u. url_matches u url)) event.tags
    pub method_tag : Some (Carries (lit "method") (λ m. eq_ignore_ascii_case m method)) event.tags
    pub payload_tag :
        body ≢ []
        → (v : Text) × (eq_ignore_ascii_case v (hex_encode (sha256 body)) ≡ true)
          × Some (Carries (lit "payload") (λ x. text_eq x v)) event.tags
    pub key : event.pubkey ≡ pubkey
    pub auth_id : event.id ≡ id

  payload-checked :
      {B : Type 0} (o : Option Text) (body : List ℕ) (k : AuthResult B) {b : B}
      → (check_payload pf o body >> k) ≡ authorized b
      → (body ≢ []
          → (v : Text) × (eq_ignore_ascii_case v (hex_encode (sha256 body)) ≡ true) × (o ≡ some v))
        × (k ≡ authorized b)
  unfolding check_payload ◌>>=◌
  payload-checked (some v) body k h =
      let (same, rest) =
        ensure-eq-authorized (eq_ignore_ascii_case v (hex_encode (sha256 body))) payload_mismatch k
          h in
      (λ _. (v, same, refl), rest)
  payload-checked none [] k h = (λ ne. absurd (ne refl), h)
  payload-checked none (b ∷ body) k h = cc

  no-flag : {A : Type 0} → (false ≡ true) ⊎ A → A
  no-flag (inl e) = absurd (cc)
  no-flag (inr a) = a

  no-hash : {A : Type 0} {v : Text} → ◌≡◌ {A = Option Text} none (some v) ⊎ A → A
  no-hash (inl e) = absurd (cc)
  no-hash (inr a) = a

  -- An accepted authorization rests on a signed, fresh event of kind 27235 in the header that names the
  -- URL and the method of the request, gives the hash of a body that is not empty, and whose key and id
  -- are the answer.
  pub verify_nip98-Authorizes :
      (now : ℕ) (headers : Headers) (method url_path : Text) (body : List ℕ) (base_url : Text)
      (max_age : ℤ) (pubkey id : Text)
      → verify_nip98 pf now headers method url_path body base_url max_age ≡ authorized (pubkey, id)
      → Authorizes now headers method (base_url ++ url_path) body max_age pubkey id
  unfolding verify_nip98
  verify_nip98-Authorizes now headers method url_path body base_url max_age pubkey id h =
      let (auth, e1, h1) = ok_or-eq-authorized headers.authorization missing_header _ h in
      let (b64, e2, h2) = ok_or-eq-authorized (strip_prefix (lit "Nostr ") auth) bad_scheme _ h1 in
      let (raw, e3, h3) = ok_or-eq-authorized (base64_decode (trim b64)) bad_base64 _ h2 in
      let (event, e4, h4) = ok_or-eq-authorized (event_from_json raw) bad_json _ h3 in
      let (e5, h5) = ensure-eq-authorized (event_verify event) bad_signature _ h4 in
      let (e6, h6) = ensure-eq-authorized (event.kind == http_auth) bad_kind _ h5 in
      let (e7, h7) =
        ensure-eq-authorized (not (is_stale now event.created_at max_age)) stale _ h6 in
      let start : TagScan = record { u_ok = false; method_ok = false; payload_hash = none } in
      let scan = scan_tags (base_url ++ url_path) method event.tags start in
      let (e8, h8) = ensure-eq-authorized scan.u_ok url_mismatch _ h7 in
      let (e9, h9) = ensure-eq-authorized scan.method_ok method_mismatch _ h8 in
      let (e10, h10) = payload-checked scan.payload_hash body _ h9 in
      record {
        event = event;
        header = b64;
        raw = raw;
        sent = e1 ∙ ap some (strip_prefix-append (lit "Nostr ") auth b64 e2);
        decoded = e3;
        parsed = e4;
        signed = e5;
        kind = (==_iff event.kind http_auth).0 e6;
        fresh = ground arith;
        url_tag = no-flag (scan-u (base_url ++ url_path) method event.tags start e8);
        method_tag = no-flag (scan-method (base_url ++ url_path) method event.tags start e9);
        payload_tag = λ ne.
            let (v, same, found) = e10 ne in
            (
              v,
              same,
              no-hash (scan-payload (base_url ++ url_path) method event.tags start v found),
            );
        key = cc h10;
        auth_id = cc h10;
      }
