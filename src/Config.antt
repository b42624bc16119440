-- ===== src/Config.antt =====
-- src/config.rs: the resolved configuration and its start-up checks. Durations are in nanoseconds.
pub mod Host
pub mod Checks
pub mod Env
pub mod Loading
use goblin_nip05d.Prelude.Int.{ℤ}
use goblin_nip05d.Text.{Text, lit, split, strip_prefix, text_eq, trim}
use goblin_nip05d.Prelude.{
  Bool, List, Option, [], false, head_or, if◌then◌else◌, is_none, keep, ltb, map, none, not, some,
  true, ℕ, ◌&&◌, ◌==◌, ◌||◌, ◌∷◌,
}

pub record Config : Type 0 where
  pub domain : Text
  pub base_url : Text
  pub relays : List Text
  pub bind_addr : Text
  pub db_path : Text
  pub name_change_cooldown : ℕ
  pub auth_max_age_secs : ℤ
  pub name_min : ℕ
  pub name_max : ℕ
  pub read_rate_max : ℕ
  pub read_rate_window : ℕ
  pub write_rate_max : ℕ
  pub write_rate_window : ℕ
  pub extra_reserved : List Text
  pub allow_transfers : Bool
  pub grin_node_url : Option Text
  pub transfer_min_conf : ℕ
  pub transfer_max_offer_ttl : ℤ
  pub transfer_claim_grace : ℤ

-- The errors of `validate`, one for each message.
pub data ConfigError : Type 0 where
  empty_domain not_https no_host host_mismatch bad_name_bounds missing_node : ConfigError

pub data Check : Type 0 where
  valid : Check
  invalid : ConfigError → Check

abbrev pub is_blank : Text → Bool
is_blank [] = true
is_blank (c ∷ s) = false

-- The first part of a `split`, which is never empty.
unfoldable pub first_part : (ℕ → Bool) → Text → Text
unfolding split
first_part p s = head_or s (split p s)

-- The host of the base URL without path and port.
unfoldable pub host_bare : Text → Text
unfolding first_part
host_bare host = first_part (λ c. c == b':') (first_part (λ c. c == b'/') host)

unfoldable pub validate : Config → Check
validate cfg =
    if is_blank cfg.domain
    then invalid empty_domain
    else elim (strip_prefix (lit "https://") cfg.base_url) [
      | none ↦ invalid not_https
      | some host ↦
          if is_blank host
          then invalid no_host
          else if not (text_eq (host_bare host) cfg.domain)
          then invalid host_mismatch
          else if cfg.name_min == 0 || ltb cfg.name_max cfg.name_min
          then invalid bad_name_bounds
          else if cfg.allow_transfers && is_none cfg.grin_node_url
          then invalid missing_node
          else valid
    ]

-- `grin_node_endpoints`
unfoldable pub grin_node_endpoints : Config → List Text
grin_node_endpoints cfg =
    let url : Text = elim cfg.grin_node_url [ none ↦ [] | some u ↦ u ] in
    keep (λ s. not (is_blank s))
      (map trim (split (λ c. c == b',' || c == b' ' || c == 9 || c == 10) url))
