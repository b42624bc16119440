-- ===== src/Config/Loading.antt =====
-- What a configuration that was loaded from the environment promises.
use goblin_nip05d.Names.Validity.{checked_valid_name-ne-none}
use goblin_nip05d.Config.Env.{
  Env, Files, accept, env_string, extra_names, finish_load, from_env, load_reserved_file, loaded,
  read_config, reserved_names, file_names,
}
use goblin_nip05d.Text.{Text, lit, split}
use goblin_nip05d.Prelude.{
  List, Option, [], any, arith, false, none, refl, some, true, ◌++◌, ◌∙◌, ◌∷◌, ◌≡◌, sym, ◌≢◌,
}
use goblin_nip05d.Config.{Check, Config, invalid, is_blank, valid, validate}
use goblin_nip05d.Platform.{Platform}
use goblin_nip05d.Names.{domain_reserved, is_reserved, reserved_terms, checked_valid_name}
use goblin_nip05d.Config.Checks.{IsSound, validate-IsSound}
use goblin_nip05d.Names.Reserved.{folds_onto, is_reserved-eq-fold}
use mathlib.Core.Path.{subst}

-- The configuration is the one that was read, and it passed the checks.
record Read (pf : Platform) (env : Env) (files : Files) (cfg : Config) : Type 0 where
  reserved : extra_names pf env files cfg.domain ≡ some cfg.extra_reserved
  checked : validate cfg ≡ valid

accepted : (cfg0 cfg : Config) (c : Check) → accept cfg0 c ≡ loaded cfg → (cfg0 ≡ cfg) × (c ≡ valid)
accepted cfg0 cfg valid h = (cc, refl)
accepted cfg0 cfg (invalid e) h = absurd (cc)

from_env-Read :
    (pf : Platform) (env : Env) (files : Files) (cfg : Config)
    → from_env pf env files ≡ loaded cfg
    → Read pf env files cfg
unfolding from_env read_config finish_load
from_env-Read pf env files cfg h =
    go (extra_names pf env files (env_string env (lit "GOBLIN_DOMAIN") (lit "goblin.st"))) refl h
  where
    go :
        (o : Option (List Text))
        → extra_names pf env files (env_string env (lit "GOBLIN_DOMAIN") (lit "goblin.st")) ≡ o
        → finish_load pf env o ≡ loaded cfg
        → Read pf env files cfg
    go none e k = absurd (cc)
    go (some reserved) e k =
        let (same, passed) = accepted (read_config pf env reserved) cfg _ k in
        subst (Read pf env files) same (record { reserved = e; checked = passed })

module _ (name : Text) where
  abbrev Hit : List Text → Type 0
  Hit names = any (folds_onto name) names ≡ true

  Hit-append_left : (xs ys : List Text) → Hit xs → Hit (xs ++ ys)
  Hit-append_left [] ys h = absurd (cc)
  Hit-append_left (x ∷ xs) ys h = ground (arith, Hit-append_left xs ys)

  Hit-append_right : (xs ys : List Text) → Hit ys → Hit (xs ++ ys)
  Hit-append_right [] ys h = h
  Hit-append_right (x ∷ xs) ys h = ground (arith, Hit-append_right xs ys h)

  Hit-reserved : (extra : List Text) → Hit extra → is_reserved name extra ≡ true
  Hit-reserved extra h = is_reserved-eq-fold name extra ∙ Hit-append_right reserved_terms extra h

extra_names-parts :
    (pf : Platform) (env : Env) (files : Files) (domain : Text) (extra : List Text)
    → extra_names pf env files domain ≡ some extra
    → (names : List Text) × (file_names pf env files ≡ some names)
      × (extra ≡ domain_reserved pf.to_lowercase domain ++ names)
unfolding extra_names
extra_names-parts pf env files domain extra h = go (file_names pf env files) refl
  where
    go :
        (o : Option (List Text))
        → file_names pf env files ≡ o
        → (names : List Text) × (file_names pf env files ≡ some names)
          × (extra ≡ domain_reserved pf.to_lowercase domain ++ names)
    go none e = absurd (ground arith)
    go (some names) e = (names, e, ground arith)

same_names : (o : Option (List Text)) (xs ys : List Text) → o ≡ some xs → o ≡ some ys → xs ≡ ys
same_names o xs ys h k = cc

file_names-of_path :
    (pf : Platform) (env : Env) (files : Files) (file s : Text)
    → env (lit "GOBLIN_RESERVED_FILE") ≡ some file
    → is_blank file ≡ false
    → files file ≡ some s
    → file_names pf env files ≡ some (reserved_names pf s)
unfolding file_names load_reserved_file
file_names-of_path pf env files file s h b f = rw (h, file_names, b, f) refl

from_env-reserves_labels :
    (pf : Platform) (env : Env) (files : Files) (cfg : Config) (name : Text)
    → from_env pf env files ≡ loaded cfg
    → Hit name (domain_reserved pf.to_lowercase cfg.domain)
    → is_reserved name cfg.extra_reserved ≡ true
from_env-reserves_labels pf env files cfg name h k =
    let r = from_env-Read pf env files cfg h in
    let (names, _, split) =
      extra_names-parts pf env files cfg.domain cfg.extra_reserved r.reserved in
    let labels = domain_reserved pf.to_lowercase cfg.domain in
    Hit-reserved name cfg.extra_reserved
      (subst (Hit name) (sym split) (Hit-append_left name labels names k))

-- A server that has loaded its configuration from the environment has a sound one; no name whatever
-- makes `valid_name` panic; and every name that folds onto a label of its domain that
-- `domain_reserved` lists is reserved.
pub from_env-IsSound :
    (pf : Platform) (env : Env) (files : Files) (cfg : Config)
    → from_env pf env files ≡ loaded cfg
    → IsSound cfg
      × ((name : Text) → checked_valid_name name cfg.name_min cfg.name_max ≢ none)
      × ((name : Text)
          → any (folds_onto name) (domain_reserved pf.to_lowercase cfg.domain) ≡ true
          → is_reserved name cfg.extra_reserved ≡ true)
from_env-IsSound pf env files cfg h =
    let sound = validate-IsSound cfg (from_env-Read pf env files cfg h).checked in
    (
      sound,
      λ name. checked_valid_name-ne-none name cfg.name_min cfg.name_max sound.positive,
      λ name. from_env-reserves_labels pf env files cfg name h,
    )

-- Where the environment names a reserved file, the terms of the file are reserved too.
pub from_env-reserves_file :
    (pf : Platform) (env : Env) (files : Files) (cfg : Config) (name file s : Text)
    → from_env pf env files ≡ loaded cfg
    → env (lit "GOBLIN_RESERVED_FILE") ≡ some file
    → is_blank file ≡ false
    → files file ≡ some s
    → any (folds_onto name) (reserved_names pf s) ≡ true
    → is_reserved name cfg.extra_reserved ≡ true
from_env-reserves_file pf env files cfg name file s h e b f k =
    let r = from_env-Read pf env files cfg h in
    let (names, listed, split) =
      extra_names-parts pf env files cfg.domain cfg.extra_reserved r.reserved in
    let labels = domain_reserved pf.to_lowercase cfg.domain in
    Hit-reserved name cfg.extra_reserved (
      subst (Hit name) (sym split) (
        Hit-append_right name labels names (
          subst (Hit name) (same_names _ _ _ (file_names-of_path pf env files file s e b f) listed)
            k)))
