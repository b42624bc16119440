-- ===== src/Registry/Success.antt =====
-- When a registration succeeds.
use goblin_nip05d.Text.Equality.{text_eq_refl}
use goblin_nip05d.Db.Holders.{upsert_name-works}
use goblin_nip05d.Db.Lookup.{upsert_name-acquires}
use goblin_nip05d.App.Moment.{
  Moment, allow_write, auth_fresh, client_ip, execute, in_cooldown, query, unix_now,
}
use goblin_nip05d.App.Passes.{gets-passes, modify-passes, require-passes, unwrap_or-passes}
use goblin_nip05d.Registry.{
  authenticate, check_single, check_taken, register, register_reply, registered,
}
use goblin_nip05d.ClaimTxn.{Site, at_upsert, at_lookup, at_name_of}
use goblin_nip05d.RateLimit.{allow, auth_event_fresh, cooldown_active}
use goblin_nip05d.Auth.{AuthResult, authorized, unauthorized, verify_nip98}
use goblin_nip05d.Text.{Text, lit}
use goblin_nip05d.Prelude.{
  Bool, List, Option, ap, arith, false, if◌then◌else◌, none, not, refl, some, true, ℕ, ◌∙◌, ◌≡◌,
  ◌≢◌,
}
use goblin_nip05d.Config.{Config}
use goblin_nip05d.Platform.{Platform, RegisterBody}
use goblin_nip05d.Names.{is_reserved, valid_name, valid_pubkey_hex}
use goblin_nip05d.Db.{Db, changed, lookup, name_of, upsert_name}
use goblin_nip05d.App.{◌>>=◌, ◌>>◌, App, Handler, Response, modify, pure, run}

pub authenticate-passes :
    (a : AuthResult (Text × Text)) (k : Text × Text → Handler Response) (s : App) {v : Text × Text}
    → a ≡ authorized v
    → run (authenticate a >>= k) s ≡ run (k v) s
unfolding authenticate ◌>>=◌ run
authenticate-passes (authorized w) k s h = ap (λ x. run (k x) s) (cc h)
authenticate-passes (unauthorized e) k s h = cc

check_taken-passes :
    (cfg : Config) (name pubkey : Text) (owner : Option Text) (k : Handler Response) (s : App)
    → owner ≡ none
    → run (check_taken cfg name pubkey owner >> k) s ≡ run k s
unfolding check_taken pure ◌>>=◌ run
check_taken-passes cfg name pubkey none k s h = refl
check_taken-passes cfg name pubkey (some owner) k s h = cc

check_single-passes :
    (existing : Option Text) (k : Handler Response) (s : App)
    → existing ≡ none
    → run (check_single existing >> k) s ≡ run k s
unfolding check_single pure ◌>>=◌ run
check_single-passes none k s h = refl
check_single-passes (some name) k s h = cc

written-passes :
    (mo : Moment) (cfg : Config) (name pubkey : Text) (s : App) (db' : Db)
    → mo.fails at_upsert ≡ false
    → upsert_name s.db name pubkey (unix_now mo) ≡ changed 1 db'
    → run
        (execute mo at_upsert (λ db. upsert_name db name pubkey (unix_now mo)) >>= λ w.
          pure (register_reply cfg name w))
        s
      ≡ (record s { db = db' }, registered 201 cfg name)
unfolding execute modify ◌>>=◌ run pure register_reply
written-passes mo cfg name pubkey s db' works e = rw (works, e) refl

-- A query that does not fail.
pub query-answers :
    {A : Type 0} (fails : Bool) (x y : Option A)
    → fails ≡ false
    → x ≡ y
    → (if fails then none else x) ≡ y
query-answers fails x y f h = ground arith

module _ (pf : Platform) (mo : Moment) where
  open pf use {to_lowercase, parse_register}

  -- What a registration needs: the rate limit admits it, its event is signed by the key that it
  -- names and is seen for the first time, the key is outside its cooldown and has no name, the name
  -- has the right form, is not reserved and is free, and no statement fails.
  pub record CanRegister (body : List ℕ) (s : App) (req : RegisterBody) (id : Text) : Type 0 where
    pub in_rate :
        (allow s.rate
          (lit "reg")
          (client_ip mo.headers)
          s.cfg.write_rate_max
          s.cfg.write_rate_window
          mo.allow_at).1
        ≡ true
    pub signed :
        verify_nip98 pf mo.auth_time mo.headers
          (lit "POST")
          (lit "/api/v1/register")
          body
          s.cfg.base_url
          s.cfg.auth_max_age_secs
        ≡ authorized (to_lowercase req.pubkey, id)
    pub first_use : (auth_event_fresh s.seen id s.cfg.auth_max_age_secs mo.fresh_at).1 ≡ true
    pub rested :
        (cooldown_active
          (allow s.rate
            (lit "reg")
            (client_ip mo.headers)
            s.cfg.write_rate_max
            s.cfg.write_rate_window
            mo.allow_at).0
          (lit "namechange")
          (to_lowercase req.pubkey)
          s.cfg.name_change_cooldown
          mo.cooldown_at).1
        ≡ false
    pub asked : parse_register body ≡ some req
    pub key_shape : valid_pubkey_hex (to_lowercase req.pubkey) ≡ true
    pub name_shape : valid_name (to_lowercase req.name) s.cfg.name_min s.cfg.name_max ≡ true
    pub not_reserved : is_reserved (to_lowercase req.name) s.cfg.extra_reserved ≡ false
    pub is_free : lookup s.db (to_lowercase req.name) ≡ none
    pub no_other : name_of s.db (to_lowercase req.pubkey) ≡ none
    pub no_fault : (site : Site) → mo.fails site ≡ false

  register-run :
      (body : List ℕ) (s : App) (req : RegisterBody) (id : Text) (db' : Db)
      → CanRegister body s req id
      → upsert_name s.db (to_lowercase req.name) (to_lowercase req.pubkey) (unix_now mo)
        ≡ changed 1 db'
      → (t : App) × (run (register pf mo body) s
          ≡ (t, registered 201 s.cfg (to_lowercase req.name)))
        × (t.db ≡ db')
  unfolding register allow_write auth_fresh in_cooldown query
  register-run body s req id db' c e = (
    _,
    modify-passes _ _ _
        ∙ require-passes _ _ _ _ c.in_rate
        ∙ gets-passes _ _ _ refl
        ∙ authenticate-passes _ _ _ c.signed
        ∙ modify-passes _ _ _
        ∙ require-passes _ _ _ _ c.first_use
        ∙ modify-passes _ _ _
        ∙ require-passes _ _ _ _ (ap not c.rested)
        ∙ unwrap_or-passes _ _ _ _ c.asked
        ∙ require-passes _ _ _ _ c.key_shape
        ∙ require-passes _ _ _ _ (text_eq_refl (to_lowercase req.pubkey))
        ∙ require-passes _ _ _ _ c.name_shape
        ∙ require-passes _ _ _ _ (ap not c.not_reserved)
        ∙ gets-passes _ _ _ (query-answers _ _ _ (c.no_fault at_lookup) c.is_free)
        ∙ check_taken-passes _ _ _ _ _ _ refl
        ∙ gets-passes _ _ _ (query-answers _ _ _ (c.no_fault at_name_of) c.no_other)
        ∙ check_single-passes _ _ _ refl
        ∙ written-passes mo s.cfg (to_lowercase req.name) (to_lowercase req.pubkey) _ db'
            (c.no_fault at_upsert) e,
    refl,
  )

  -- A registration goes through where the rate limit admits it, its event is signed by the key that it
  -- names and is seen for the first time, the key is outside its cooldown and has no name, the name
  -- has the right form, is not reserved and is free, and no statement fails: it answers 201 for the
  -- name, the name then resolves to the key, and every other name resolves as before.
  pub register-Created :
      (body : List ℕ) (s : App) (req : RegisterBody) (id : Text)
      → CanRegister body s req id
      → (t : App) × (run (register pf mo body) s
          ≡ (t, registered 201 s.cfg (to_lowercase req.name)))
        × (lookup t.db (to_lowercase req.name) ≡ some (to_lowercase req.pubkey))
        × ((n : Text) → n ≢ to_lowercase req.name → lookup t.db n ≡ lookup s.db n)
  register-Created body s req id c =
      let name = to_lowercase req.name in
      let key = to_lowercase req.pubkey in
      let (db', e) = upsert_name-works s.db name key (unix_now mo) c.is_free c.no_other in
      let (t, ran, same) = register-run body s req id db' c e in
      let (owner, others) = upsert_name-acquires s.db db' name key (unix_now mo) e in
      (t, ran, rw same owner, λ n ne. rw same (others n ne))
