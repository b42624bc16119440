-- ===== src/Config/Checks.antt =====
-- What a configuration that passes the start-up checks satisfies.
use goblin_nip05d.Text.Equality.{eq-of-text_eq, strip_prefix-append}
use goblin_nip05d.Config.Host.{HasHost, host_bare_iff}
use goblin_nip05d.Text.{Text, lit, strip_prefix}
use goblin_nip05d.Prelude.{Option-cases, [], arith, inl, inr, none, true, ◌++◌, ◌≡◌, ◌≢◌, ◌≤◌}
use goblin_nip05d.Config.{Config, host_bare, valid, validate}

-- A positive minimum name length, ordered bounds, a domain, an https URL of that host, and a node URL if
-- transfers are on.
pub record IsSound (cfg : Config) : Type 0 where
  pub positive : 1 ≤ cfg.name_min
  pub ordered : cfg.name_min ≤ cfg.name_max
  pub named : cfg.domain ≢ []
  pub host : (after : Text) × (cfg.base_url ≡ lit "https://" ++ after) × HasHost after cfg.domain
  pub node : cfg.allow_transfers ≡ true → cfg.grin_node_url ≢ none

pub validate-IsSound : (cfg : Config) → validate cfg ≡ valid → IsSound cfg
unfolding validate
validate-IsSound cfg e = elim (Option-cases (strip_prefix (lit "https://") cfg.base_url)) [
  | inl p ↦ absurd (ground arith)
  | inr (h, p) ↦ record {
    positive = ground arith;
    ordered = ground arith;
    named = ground arith;
    host = (
      h,
      strip_prefix-append (lit "https://") cfg.base_url h p,
      (host_bare_iff h cfg.domain).0 (ground (arith, eq-of-text_eq (host_bare h) cfg.domain)),
    );
    node = λ t. ground arith;
  }
]
