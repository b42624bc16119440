-- ===== src/Registry/Release.antt =====
-- What a release that answers 200 has checked and done.
use goblin_nip05d.RateLimit.{RateMap, record_op}
use mathlib.Core.Path.{subst}
use goblin_nip05d.Db.Keys.{Leaves}
use goblin_nip05d.Db.Lookup.{lookup-release_name}
use goblin_nip05d.Registry.Register.{authenticate-Ended}
use goblin_nip05d.Auth.{authorized, verify_nip98}
use goblin_nip05d.Text.Equality.{eq-of-text_eq}
use goblin_nip05d.App.Rules.{Ended, require-Ended, gets-Ended, modify-Ended}
use goblin_nip05d.App.Moment.{
  Moment, arm_cooldown, execute, unix_now, allow_write, auth_fresh, query,
}
use goblin_nip05d.ClaimTxn.{at_release, at_lookup}
use goblin_nip05d.Text.{Text, text_eq, lit}
use goblin_nip05d.Prelude.{
  Bool-cases, Option, ap, arith, inl, inr, none, refl, some, ℕ, ◌≡◌, Bool, [], false, if◌then◌else◌,
  true, ◌++◌, ◌≢◌,
}
use goblin_nip05d.App.{App, Handler, Response, err, pure, run, ◌>>=◌, ◌>>◌}
use goblin_nip05d.Platform.{Platform}
use goblin_nip05d.Db.{Exec, changed, constraint, release_name, lookup}
use goblin_nip05d.Registry.{check_owner, finish_release, unregister}

-- The answer of the owner check is not 200 unless the key owns the name.
check_owner-Ended :
    (pf : Platform) (mo : Moment) (owner : Option Text) (pk : Text) (k : Handler Response)
    (s s' : App) (r : Response)
    → Ended (check_owner pf mo owner pk >> k) s s' r
    → r.status ≡ 200
    → (owner ≡ some pk) × Ended k s s' r
unfolding check_owner ◌>>=◌ run err
check_owner-Ended pf mo none pk k s s' r e c = absurd (ground arith)
check_owner-Ended pf mo (some owner) pk k s s' r e c =
    let (own, h) = require-Ended (text_eq owner pk) _ k s s' r e (omega arith) in
    (ap some (eq-of-text_eq owner pk own), h)

module _ (pf : Platform) (mo : Moment) where
  open pf use {to_lowercase}

  -- A reply of 200 comes from a statement that ran.
  finish-Ended :
      (name pubkey : Text) (s s' : App) (r : Response)
      → Ended
          (execute mo at_release (λ db. release_name db name (unix_now mo)) >>= λ w.
            finish_release pf mo name pubkey w)
          s
          s'
          r
      → r.status ≡ 200
      → (n : ℕ) × (release_name s.db name (unix_now mo) ≡ changed n s'.db)
        × (s'.rate ≡ record_op s.rate (lit "namechange") pubkey mo.record_at)
        × (s'.cfg ≡ s.cfg)
  unfolding execute ◌>>=◌ run pure finish_release arm_cooldown
  finish-Ended name pubkey s s' r e c = elim (Bool-cases (mo.fails at_release)) [
    | inl f ↦ absurd (ground arith)
    | inr f ↦ go (release_name s.db name (unix_now mo)) refl
  ]
    where
      go :
          (x : Exec)
          → release_name s.db name (unix_now mo) ≡ x
          → (n : ℕ) × (release_name s.db name (unix_now mo) ≡ changed n s'.db)
            × (s'.rate ≡ record_op s.rate (lit "namechange") pubkey mo.record_at)
            × (s'.cfg ≡ s.cfg)
      go (changed n db) p = (n, ground arith, ground arith, ground arith)
      go constraint p = absurd (ground arith)

  -- The key that signed the request owned the name, and the name resolves no more.
  pub record Released (raw_name : Text) (s s' : App) : Type 0 where
    pub pubkey : Text
    pub id : Text
    pub signed :
        verify_nip98 pf mo.auth_time mo.headers
          (lit "DELETE")
          (lit "/api/v1/register/" ++ to_lowercase raw_name)
          []
          s.cfg.base_url
          s.cfg.auth_max_age_secs
        ≡ authorized (pubkey, id)
    pub owned : lookup s.db (to_lowercase raw_name) ≡ some pubkey
    pub rate : RateMap
    pub armed : s'.rate ≡ record_op rate (lit "namechange") pubkey mo.record_at
    pub cfg : s'.cfg ≡ s.cfg
    pub gone : lookup s'.db (to_lowercase raw_name) ≡ none
    pub others : (n : Text) → n ≢ to_lowercase raw_name → lookup s'.db n ≡ lookup s.db n

  query-found :
      (b : Bool) (o : Option Text) (pk : Text) → (if b then none else o) ≡ some pk → o ≡ some pk
  query-found true o pk e = absurd (ground arith)
  query-found false o pk e = e

  -- A release that answers 200 was signed, for this very name, by the key that owned it, leaves the
  -- name resolving to no key and every other name as it was, and records the change for the cooldown.
  pub unregister-Released :
      (raw_name : Text) (s s' : App) (r : Response)
      → run (unregister pf mo raw_name) s ≡ (s', r)
      → r.status ≡ 200
      → Released raw_name s s'
  unfolding unregister allow_write auth_fresh query err
  unregister-Released raw_name s s' r e done =
      let h1 = modify-Ended _ _ s s' r e in
      let (_, h2) = require-Ended _ _ _ _ s' r h1 (omega arith) in
      let h3 = gets-Ended _ _ _ s' r h2 in
      let ((pubkey, id), signed, h4) = authenticate-Ended _ _ _ s' r h3 (omega arith) in
      let h5 = modify-Ended _ _ _ s' r h4 in
      let (_, h6) = require-Ended _ _ _ _ s' r h5 (omega arith) in
      let h7 = gets-Ended _ _ _ s' r h6 in
      let (owned, h8) = check_owner-Ended pf mo _ _ _ _ s' r h7 done in
      let (n, written, armed, cfg) = finish-Ended (to_lowercase raw_name) pubkey _ s' r h8 done in
      let (gone, others) =
        subst
          (Leaves (λ db'.
            (lookup db' (to_lowercase raw_name) ≡ none)
            × ((n : Text) → n ≢ to_lowercase raw_name → lookup db' n ≡ lookup s.db n)))
          written (lookup-release_name s.db (to_lowercase raw_name) (unix_now mo)) in
      record {
        pubkey = pubkey;
        id = id;
        signed = signed;
        owned = query-found (mo.fails at_lookup) _ pubkey owned;
        rate = _;
        armed = armed;
        cfg = cfg;
        gone = gone;
        others = others;
      }
