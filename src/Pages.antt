-- ===== src/Pages.antt =====
-- The pages that read the registry: src/handlers/profile.rs, wellknown.rs and misc.rs. The content type and
-- the other response headers are left out of a response.
pub mod Invariant
pub mod Answers
pub mod Escape
use goblin_nip05d.App.Moment.{Moment, allow_read, query}
use goblin_nip05d.ClaimTxn.{at_lookup, at_name_of, ok}
use goblin_nip05d.Text.{Text, lit}
use goblin_nip05d.Prelude.{
  List, Option, [], head_or, if◌then◌else◌, none, some, ℕ, ◌++◌, ◌==◌, ◌∷◌, map, not,
}
use goblin_nip05d.Config.{Config}
use goblin_nip05d.Platform.{Platform}
use goblin_nip05d.Names.{valid_name, valid_pubkey_hex}
use goblin_nip05d.Db.{lookup, name_of}
use mathlib.Core.Option
use goblin_nip05d.App.{
  ◌>>=◌, ◌>>◌, Handler, Response, err, gets, pure, require, text, text_map, texts_map,
}

abbrev not_found : Response
not_found = err 404 (lit "not found")

-- `{"name": …, "pubkey": …}`
unfoldable pub profile_body : Text → Text → Response
profile_body name pubkey = record {
  status = 200;
  body = ("name", text name) ∷ ("pubkey", text pubkey) ∷ [];
}

-- The last `match` of `profile`, and of `by_pubkey`.
unfoldable pub profile_reply : Text → Option Text → Response
unfolding profile_body err
profile_reply name none = not_found
profile_reply name (some pubkey) = profile_body name pubkey

unfoldable pub by_pubkey_reply : Text → Option Text → Response
unfolding profile_body err
by_pubkey_reply pubkey none = not_found
by_pubkey_reply pubkey (some name) = profile_body name pubkey

-- `{"names": {…}, "relays": {…}}`, each map with one entry or with none.
unfoldable pub well_known_reply : List Text → Text → Option Text → Response
well_known_reply relays name none = record {
  status = 200;
  body = ("names", text_map none) ∷ ("relays", texts_map none) ∷ [];
}
well_known_reply relays name (some pk) = record {
  status = 200;
  body = ("names", text_map (some (name, pk))) ∷ ("relays", texts_map (some (pk, relays))) ∷ [];
}

-- `health`
unfoldable pub health : Handler Response
unfolding pure
health = pure (record { status = 200; body = ("text", text (lit "ok")) ∷ [] })

-- `html_escape`, one `replace` after the other.
unfoldable pub replace : ℕ → Text → Text → Text
replace c by [] = []
replace c by (x ∷ s) = if x == c then by ++ replace c by s else x ∷ replace c by s

unfoldable pub html_escape : Text → Text
unfolding replace
html_escape s =
    replace b'"' (lit "&quot;")
      (replace b'>' (lit "&gt;") (replace b'<' (lit "&lt;") (replace b'&' (lit "&amp;") s)))

-- The HTML of `landing` up to the domain, between the domain and the relay, and after the relay.
unfoldable pub page_head : Text
page_head =
    lit
      "<!doctype html><html lang=\"en\"><head><meta charset=\"utf-8\">\n<meta name=\"viewport\" content=\"width=device-width, initial-scale=1\">\n<title>goblin — money that keeps quiet</title>\n<style>\nbody{margin:0;background:#0E0E0C;color:#FAFAF7;font:16px/1.5 system-ui,sans-serif;\ndisplay:flex;min-height:100vh;align-items:center;justify-content:center}\nmain{max-width:520px;padding:32px}\nh1{font-size:44px;letter-spacing:-1.5px;margin:0 0 12px;color:#FFD60A}\np{color:#9A988F;margin:8px 0}\ncode{background:#1A1A17;border-radius:6px;padding:2px 6px;color:#FAFAF7}\n</style></head><body><main>\n<h1>goblin</h1>\n<p>Money that keeps quiet.</p>\n<p>A peer-to-peer wallet for grin. Payments travel as end-to-end encrypted\nnostr messages. Usernames here look like <code>you@"

unfoldable pub page_middle : Text
page_middle = lit "</code>.</p>\n<p>Relay: <code>"

unfoldable pub page_tail : Text
page_tail = lit "</code></p>\n</main></body></html>"

unfoldable pub landing_page : Text → List Text → Text
landing_page domain relays =
    let relay = head_or (lit "—") relays in
    page_head ++ (html_escape domain ++ (page_middle ++ (html_escape relay ++ page_tail)))

unfoldable pub landing : Handler Response
landing = do
  cfg ← gets (λ s. s.cfg)
  pure (record { status = 200; body = ("html", text (landing_page cfg.domain cfg.relays)) ∷ [] })

module _ (pf : Platform) (mo : Moment) where
  open pf use {to_lowercase}

  unfoldable pub profile : Text → Handler Response
  profile raw_name = do
    allowed ← allow_read mo
    require allowed (err 429 (lit "rate_limited"))
    cfg ← gets (λ s. s.cfg)
    let name = to_lowercase raw_name
    require (valid_name name cfg.name_min cfg.name_max) (err 404 (lit "not found"))
    found ← query mo at_lookup (λ db. lookup db name)
    pure (profile_reply name found)

  unfoldable pub by_pubkey : Text → Handler Response
  by_pubkey raw_pubkey = do
    allowed ← allow_read mo
    require allowed (err 429 (lit "rate_limited"))
    let pubkey = to_lowercase raw_pubkey
    require (valid_pubkey_hex pubkey) (err 404 (lit "not found"))
    found ← query mo at_name_of (λ db. name_of db pubkey)
    pure (by_pubkey_reply pubkey found)

  -- The owner of the asked name, if the query has a valid name.
  unfoldable pub asked_owner : Config → Option Text → Handler (Option Text)
  unfolding pure
  asked_owner cfg none = pure none
  asked_owner cfg (some name) =
      if valid_name name cfg.name_min cfg.name_max
      then query mo at_lookup (λ db. lookup db name)
      else pure none

  unfoldable pub well_known : Option Text → Handler Response
  well_known raw_name = do
    allowed ← allow_read mo
    require allowed (err 429 (lit "rate_limited"))
    cfg ← gets (λ s. s.cfg)
    let name = Option.map to_lowercase raw_name
    owner ← asked_owner cfg name
    pure (well_known_reply cfg.relays (elim name [ none ↦ [] | some n ↦ n ]) owner)
