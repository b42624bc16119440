-- ===== src/Pages/Answers.antt =====
-- What the pages answer about a name.
use goblin_nip05d.App.Rules.{run-keeps}
use goblin_nip05d.Db.Lookup.{lookup-iff-name_of}
use goblin_nip05d.History.{IsClosed}
use goblin_nip05d.Db.Keys.{IsKeyed}
use goblin_nip05d.Registry.Invariant.{register-IsKeyed, Keeps-register}
use goblin_nip05d.Registry.Register.{register-Registered}
use goblin_nip05d.Registry.{register}
use goblin_nip05d.Config.{Config}
use goblin_nip05d.App.Moment.{Moment, allow_read, client_ip, query}
use goblin_nip05d.App.Passes.{gets-passes, modify-passes, require-passes}
use goblin_nip05d.Registry.Success.{query-answers}
use goblin_nip05d.ClaimTxn.{Site, at_lookup, at_name_of}
use goblin_nip05d.RateLimit.{allow}
use goblin_nip05d.Text.{Text, lit}
use goblin_nip05d.Pages.{
  asked_owner, by_pubkey, by_pubkey_reply, profile, profile_reply, well_known, well_known_reply,
  profile_body,
}
use goblin_nip05d.Prelude.{Option, ap, false, refl, some, true, ◌∙◌, ◌≡◌, List, ℕ, sym}
use goblin_nip05d.Platform.{Platform, RegisterBody}
use goblin_nip05d.Names.{valid_name, valid_pubkey_hex}
use goblin_nip05d.Db.{lookup, name_of}
use goblin_nip05d.App.{◌>>=◌, App, Response, pure, run, Handler}
use mathlib.Core.Path.{subst}

-- No statement changes the configuration.
cfg-IsClosed : (cfg : Config) → IsClosed (λ s. s.cfg ≡ cfg)
cfg-IsClosed cfg = record { calm = λ s t e f h. f ∙ h; statement = λ s st _ h. h }

-- The rate limit admits a read, and no query fails.
pub record CanRead (mo : Moment) (s : App) : Type 0 where
  pub in_rate :
      (allow s.rate
        (lit "read")
        (client_ip mo.headers)
        s.cfg.read_rate_max
        s.cfg.read_rate_window
        mo.allow_at).1
      ≡ true
  pub no_fault : (site : Site) → mo.fails site ≡ false

pub pure-run : (r : Response) (s : App) → (run (pure r) s).1 ≡ r
unfolding run pure
pure-run r s = refl

module _ (pf : Platform) (mo : Moment) where
  open pf use {to_lowercase}

  pub profile-run :
      (raw name : Text) (s : App)
      → CanRead mo s
      → to_lowercase raw ≡ name
      → valid_name name s.cfg.name_min s.cfg.name_max ≡ true
      → (run (profile pf mo raw) s).1 ≡ profile_reply name (lookup s.db name)
  unfolding profile allow_read query
  profile-run raw name s c same shape =
      subst (λ n. (run (profile pf mo raw) s).1 ≡ profile_reply n (lookup s.db n)) same
        (ap (λ x. x.1)
            (modify-passes _ _ _
              ∙ require-passes _ _ _ _ c.in_rate
              ∙ gets-passes _ _ _ refl
              ∙ require-passes _ _ _ _ (rw (← same) at shape)
              ∙ gets-passes _ _ _ (query-answers _ _ _ (c.no_fault at_lookup) refl))
          ∙ pure-run _ _)

  pub by_pubkey-run :
      (raw key : Text) (s : App)
      → CanRead mo s
      → to_lowercase raw ≡ key
      → valid_pubkey_hex key ≡ true
      → (run (by_pubkey pf mo raw) s).1 ≡ by_pubkey_reply key (name_of s.db key)
  unfolding by_pubkey allow_read query
  by_pubkey-run raw key s c same shape =
      subst (λ k. (run (by_pubkey pf mo raw) s).1 ≡ by_pubkey_reply k (name_of s.db k)) same
        (ap (λ x. x.1)
            (modify-passes _ _ _
              ∙ require-passes _ _ _ _ c.in_rate
              ∙ require-passes _ _ _ _ (rw (← same) at shape)
              ∙ gets-passes _ _ _ (query-answers _ _ _ (c.no_fault at_name_of) refl))
          ∙ pure-run _ _)

  asked_owner-passes :
      (cfg : Config) (name : Text) (k : Option Text → Handler Response) (s : App)
      → mo.fails at_lookup ≡ false
      → valid_name name cfg.name_min cfg.name_max ≡ true
      → run (asked_owner pf mo cfg (some name) >>= k) s ≡ run (k (lookup s.db name)) s
  unfolding asked_owner query
  asked_owner-passes cfg name k s works shape =
      let asks : asked_owner pf mo cfg (some name) ≡ query mo at_lookup (λ db. lookup db name) =
        rw (shape, asked_owner) refl in
      ap (λ (m : Handler (Option Text)). run (m >>= k) s) asks
      ∙ gets-passes _ _ _ (query-answers _ _ _ works refl)

  pub well_known-run :
      (raw name : Text) (s : App)
      → CanRead mo s
      → to_lowercase raw ≡ name
      → valid_name name s.cfg.name_min s.cfg.name_max ≡ true
      → (run (well_known pf mo (some raw)) s).1
        ≡ well_known_reply s.cfg.relays name (lookup s.db name)
  unfolding well_known allow_read query asked_owner
  well_known-run raw name s c same shape =
      subst
        (λ n.
          (run (well_known pf mo (some raw)) s).1 ≡ well_known_reply s.cfg.relays n (lookup s.db n))
        same
        (ap (λ x. x.1)
            (modify-passes _ _ _
              ∙ require-passes _ _ _ _ c.in_rate
              ∙ gets-passes _ _ _ refl
              ∙ asked_owner-passes s.cfg (to_lowercase raw) _ _ (c.no_fault at_lookup)
                  (rw (← same) at shape))
          ∙ pure-run _ _)

module _ (pf : Platform) where
  open pf use {to_lowercase, parse_register}

  -- A name that has been registered with 201, in a database with unique keys, is answered by every
  -- page, for a read that the rate limit admits and whose query does not fail: the profile of the
  -- name and the page of the key give the name and the key, and the well-known document maps the name
  -- to the key and the key to the relays.
  pub register-Answered :
      (mo mo' : Moment) (body : List ℕ) (s s' : App) (r : Response) (req : RegisterBody)
      → IsKeyed s.db
      → run (register pf mo body) s ≡ (s', r)
      → r.status ≡ 201
      → parse_register body ≡ some req
      → CanRead mo' s'
      → (raw_name raw_key : Text) → to_lowercase raw_name ≡ to_lowercase req.name
      → to_lowercase raw_key ≡ to_lowercase req.pubkey
      → ((run (profile pf mo' raw_name) s').1
          ≡ profile_body (to_lowercase req.name) (to_lowercase req.pubkey))
        × ((run (by_pubkey pf mo' raw_key) s').1
            ≡ profile_body (to_lowercase req.name) (to_lowercase req.pubkey))
        × ((run (well_known pf mo' (some raw_name)) s').1
            ≡ well_known_reply s.cfg.relays
                (to_lowercase req.name)
                (some (to_lowercase req.pubkey)))
  unfolding profile_reply by_pubkey_reply
  register-Answered mo mo' body s s' r req keyed e created asked c raw_name raw_key n k =
      let g = register-Registered pf mo body s s' r e created in
      let same : g.req ≡ req = cc (g.asked, asked) in
      let cfg : s'.cfg ≡ s.cfg =
        subst (λ p. p.0.cfg ≡ s.cfg) e
          (run-keeps (register pf mo body) s (Keeps-register (cfg-IsClosed s.cfg) pf mo body)
            refl) in
      let keyed' : IsKeyed s'.db =
        subst (λ p. IsKeyed p.0.db) e (register-IsKeyed pf mo body s keyed) in
      let name = to_lowercase req.name in
      let key = to_lowercase req.pubkey in
      let own : key ≡ g.pubkey = ap (λ q. to_lowercase q.pubkey) (sym same) ∙ g.own_key in
      let owner : lookup s'.db name ≡ some key =
        ap (λ q. lookup s'.db (to_lowercase q.name)) (sym same) ∙ g.owner ∙ ap some (sym own) in
      let held = (lookup-iff-name_of s'.db name key keyed').0 owner in
      let name_shape : valid_name name s'.cfg.name_min s'.cfg.name_max ≡ true =
        ap (λ f. valid_name name f.name_min f.name_max) cfg
        ∙ ap (λ q. valid_name (to_lowercase q.name) s.cfg.name_min s.cfg.name_max) (sym same)
        ∙ g.name_shape in
      let key_shape : valid_pubkey_hex key ≡ true = ap valid_pubkey_hex own ∙ g.key_shape in
      (
        profile-run pf mo' raw_name name s' c n name_shape ∙ ap (profile_reply name) owner,
        by_pubkey-run pf mo' raw_key key s' c k key_shape ∙ ap (by_pubkey_reply key) held,
        well_known-run pf mo' raw_name name s' c n name_shape
            ∙ ap (λ o. well_known_reply s'.cfg.relays name o) owner
            ∙ ap (λ f. well_known_reply f.relays name (some key)) cfg,
      )
