-- ===== src/Registry/Register.antt =====
-- What a registration that answers 201 has checked and done.
use goblin_nip05d.RateLimit.{allow, auth_event_fresh, cooldown_active}
use goblin_nip05d.Text.Equality.{eq-of-text_eq}
use goblin_nip05d.Db.Lookup.{upsert_name-acquires}
use goblin_nip05d.Platform.{Platform, RegisterBody}
use goblin_nip05d.Names.{is_reserved, valid_name, valid_pubkey_hex}
use goblin_nip05d.Prelude.Int.{ℤ}
use goblin_nip05d.App.Rules.{Ended, gets-Ended, modify-Ended, require-Ended, unwrap_or-Ended}
use goblin_nip05d.App.Moment.{
  Moment, execute, unix_now, allow_write, auth_fresh, in_cooldown, query, client_ip,
}
use goblin_nip05d.Registry.{authenticate, check_single, check_taken, register_reply, register}
use goblin_nip05d.ClaimTxn.{at_upsert}
use goblin_nip05d.Auth.{AuthResult, authorized, unauthorized, verify_nip98}
use goblin_nip05d.Text.{Text, lit}
use goblin_nip05d.Prelude.{
  Bool-cases, Option, arith, inl, inr, none, refl, some, suc, zero, ℕ, ◌≡◌, ◌≢◌, List, false, true,
  ap, ◌∙◌, Bool, not,
}
use goblin_nip05d.Config.{Config}
use goblin_nip05d.App.{App, Handler, Response, err, pure, run, ◌>>=◌, ◌>>◌}
use goblin_nip05d.Db.{Db, Exec, changed, constraint, upsert_name, lookup}

pub authenticate-Ended :
    (a : AuthResult (Text × Text)) (k : Text × Text → Handler Response) (s s' : App) (r : Response)
    → Ended (authenticate a >>= k) s s' r
    → r.status ≢ 401
    → (v : Text × Text) × (a ≡ authorized v) × Ended (k v) s s' r
unfolding authenticate ◌>>=◌ run err
authenticate-Ended (authorized v) k s s' r e ne = (v, refl, e)
authenticate-Ended (unauthorized x) k s s' r e ne = absurd (ne (ground arith))

not-true : (b : Bool) → not b ≡ true → b ≡ false
not-true b h = ground arith

check_taken-Ended :
    (cfg : Config) (name pubkey : Text) (owner : Option Text) (k : Handler Response) (s s' : App)
    (r : Response)
    → Ended (check_taken cfg name pubkey owner >> k) s s' r
    → r.status ≡ 201
    → (owner ≡ none) × Ended k s s' r
unfolding check_taken ◌>>=◌ run
check_taken-Ended cfg name pubkey none k s s' r e c = (refl, e)
check_taken-Ended cfg name pubkey (some owner) k s s' r e c = absurd (ground arith)

check_single-Ended :
    (existing : Option Text) (k : Handler Response) (s s' : App) (r : Response)
    → Ended (check_single existing >> k) s s' r
    → r.status ≡ 201
    → (existing ≡ none) × Ended k s s' r
unfolding check_single ◌>>=◌ run
check_single-Ended none k s s' r e c = (refl, e)
check_single-Ended (some name) k s s' r e c = absurd (ground arith)

upsert-rows :
    (db db' : Db) (name pk : Text) (now : ℤ) (n : ℕ)
    → upsert_name db name pk now ≡ changed (suc n) db'
    → upsert_name db name pk now ≡ changed 1 db'
unfolding upsert_name
upsert-rows db db' name pk now n e = ground arith

-- A reply of 201 comes from a statement that changed a row.
written-Ended :
    (mo : Moment) (cfg : Config) (name pubkey : Text) (s s' : App) (r : Response)
    → Ended
        (execute mo at_upsert (λ db. upsert_name db name pubkey (unix_now mo)) >>= λ w.
          pure (register_reply cfg name w))
        s
        s'
        r
    → r.status ≡ 201
    → upsert_name s.db name pubkey (unix_now mo) ≡ changed 1 s'.db
unfolding execute ◌>>=◌ run pure register_reply
written-Ended mo cfg name pubkey s s' r e c = elim (Bool-cases (mo.fails at_upsert)) [
  | inl f ↦ absurd (ground arith)
  | inr f ↦ go (upsert_name s.db name pubkey (unix_now mo)) refl
]
  where
    go :
        (x : Exec)
        → upsert_name s.db name pubkey (unix_now mo) ≡ x
        → upsert_name s.db name pubkey (unix_now mo) ≡ changed 1 s'.db
    go (changed zero db) p = absurd (ground arith)
    go (changed (suc n) db) p = upsert-rows s.db s'.db name pubkey (unix_now mo) n (ground arith)
    go constraint p = absurd (ground arith)

module _ (pf : Platform) (mo : Moment) where
  open pf use {to_lowercase, parse_register}

  -- The key that signed the request asked for a valid, free name for itself, outside its cooldown, and
  -- the name now resolves to it.
  pub record Registered (body : List ℕ) (s s' : App) : Type 0 where
    pub req : RegisterBody
    pub pubkey : Text
    pub id : Text
    pub asked : parse_register body ≡ some req
    pub signed :
        verify_nip98 pf mo.auth_time mo.headers
          (lit "POST")
          (lit "/api/v1/register")
          body
          s.cfg.base_url
          s.cfg.auth_max_age_secs
        ≡ authorized (pubkey, id)
    pub first_use : (auth_event_fresh s.seen id s.cfg.auth_max_age_secs mo.fresh_at).1 ≡ true
    pub rested :
        (cooldown_active
          (allow s.rate
            (lit "reg")
            (client_ip mo.headers)
            s.cfg.write_rate_max
            s.cfg.write_rate_window
            mo.allow_at).0
          (lit "namechange")
          pubkey
          s.cfg.name_change_cooldown
          mo.cooldown_at).1
        ≡ false
    pub own_key : to_lowercase req.pubkey ≡ pubkey
    pub key_shape : valid_pubkey_hex pubkey ≡ true
    pub name_shape : valid_name (to_lowercase req.name) s.cfg.name_min s.cfg.name_max ≡ true
    pub not_reserved : is_reserved (to_lowercase req.name) s.cfg.extra_reserved ≡ false
    pub written :
        upsert_name s.db (to_lowercase req.name) (to_lowercase req.pubkey) (unix_now mo)
        ≡ changed 1 s'.db
    pub owner : lookup s'.db (to_lowercase req.name) ≡ some pubkey
    pub others : (n : Text) → n ≢ to_lowercase req.name → lookup s'.db n ≡ lookup s.db n

  -- A registration that answers 201 was signed, by an event not seen before, by the key that it names,
  -- outside the cooldown of that key; it asked for a name of the right form that is not reserved, and
  -- leaves that name resolving to that key and every other name as it was.
  pub register-Registered :
      (body : List ℕ) (s s' : App) (r : Response)
      → run (register pf mo body) s ≡ (s', r)
      → r.status ≡ 201
      → Registered body s s'
  unfolding register allow_write auth_fresh in_cooldown query err
  register-Registered body s s' r e created =
      let h1 = modify-Ended _ _ s s' r e in
      let (_, h2) = require-Ended _ _ _ _ s' r h1 (omega arith) in
      let h3 = gets-Ended _ _ _ s' r h2 in
      let ((pubkey, id), signed, h4) = authenticate-Ended _ _ _ s' r h3 (omega arith) in
      let h5 = modify-Ended _ _ _ s' r h4 in
      let (fresh, h6) = require-Ended _ _ _ _ s' r h5 (omega arith) in
      let h7 = modify-Ended _ _ _ s' r h6 in
      let (quiet, h8) = require-Ended _ _ _ _ s' r h7 (omega arith) in
      let (req, asked, h9) = unwrap_or-Ended _ _ _ _ s' r h8 (omega arith) in
      let (shape, h10) = require-Ended _ _ _ _ s' r h9 (omega arith) in
      let (own, h11) = require-Ended _ _ _ _ s' r h10 (omega arith) in
      let (valid_shape, h12) = require-Ended _ _ _ _ s' r h11 (omega arith) in
      let (unreserved, h13) = require-Ended _ _ _ _ s' r h12 (omega arith) in
      let h14 = gets-Ended _ _ _ s' r h13 in
      let (_, h15) = check_taken-Ended _ _ _ _ _ _ s' r h14 created in
      let h16 = gets-Ended _ _ _ s' r h15 in
      let (_, h17) = check_single-Ended _ _ _ s' r h16 created in
      let own_key = eq-of-text_eq (to_lowercase req.pubkey) pubkey own in
      let written =
        written-Ended mo s.cfg (to_lowercase req.name) (to_lowercase req.pubkey) _ s' r h17
          created in
      let (owner, others) =
        upsert_name-acquires s.db s'.db (to_lowercase req.name) (to_lowercase req.pubkey)
          (unix_now mo) written in
      record {
        req = req;
        pubkey = pubkey;
        id = id;
        first_use = fresh;
        rested = not-true _ quiet;
        asked = asked;
        signed = signed;
        own_key = own_key;
        key_shape = rw (← own_key) shape;
        name_shape = valid_shape;
        not_reserved = ground arith;
        written = written;
        owner = owner ∙ ap some own_key;
        others = others;
      }
