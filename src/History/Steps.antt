-- ===== src/History/Steps.antt =====
-- The steps that the handlers share keep every closed property.
use goblin_nip05d.App.Rules.{Keeps, Keeps-gets, Keeps-modify}
use goblin_nip05d.App.Moment.{
  Moment, allow_read, allow_write, arm_cooldown, auth_fresh, execute, failure, in_cooldown, query,
  query_any, settle,
}
use goblin_nip05d.ClaimTxn.{Site}
use goblin_nip05d.Text.{Text}
use goblin_nip05d.Prelude.{Bool, Option, false, if◌then◌else◌, refl, true, ◌≡◌}
use goblin_nip05d.App.{App}
use goblin_nip05d.Db.{Db, Exec, changed, constraint}
use goblin_nip05d.History.{IsClosedFor, Statement, after_exec, apply, exec}
use mathlib.Core.Path.{subst}

module _ {S : Statement → Type 0} {P : App → Type 0} (c : IsClosedFor S P) (mo : Moment) where
  pub Keeps-allow_write : (bucket : Text) → Keeps P (allow_write mo bucket)
  unfolding allow_write
  Keeps-allow_write bucket = Keeps-modify _ (λ s h. c.calm s _ refl refl h)

  pub Keeps-allow_read : Keeps P (allow_read mo)
  unfolding allow_read
  Keeps-allow_read = Keeps-modify _ (λ s h. c.calm s _ refl refl h)

  pub Keeps-auth_fresh : (id : Text) → Keeps P (auth_fresh mo id)
  unfolding auth_fresh
  Keeps-auth_fresh id = Keeps-modify _ (λ s h. c.calm s _ refl refl h)

  pub Keeps-in_cooldown : (pubkey : Text) → Keeps P (in_cooldown mo pubkey)
  unfolding in_cooldown
  Keeps-in_cooldown pubkey = Keeps-modify _ (λ s h. c.calm s _ refl refl h)

  pub Keeps-arm_cooldown : (pubkey : Text) → Keeps P (arm_cooldown mo pubkey)
  unfolding arm_cooldown
  Keeps-arm_cooldown pubkey = Keeps-modify _ (λ s h. c.calm s _ refl refl h)

  -- The statement runs, or fails and changes nothing.
  settle-Keeps :
      (s : App) (x : Exec) → P s → P (record s { db = after_exec s.db x }) → P (settle s x).0
  settle-Keeps s (changed n db) h k = k
  settle-Keeps s constraint h k = h

  pub Keeps-execute :
      (site : Site) (f : Db → Exec) (st : Statement)
      → S st
      → ((db : Db) → exec st db ≡ f db)
      → Keeps P (execute mo site f)
  unfolding execute apply
  Keeps-execute site f st runs same = Keeps-modify _ (λ s h. go (mo.fails site) s h)
    where
      go : (b : Bool) (s : App) → P s → P (if b then (s, failure) else settle s (f s.db)).0
      go true s h = h
      go false s h = settle-Keeps s (f s.db) h (
          subst (λ x. P (record s { db = after_exec s.db x })) (same s.db)
            (c.statement s st runs h))

module _ {P : App → Type 0} (mo : Moment) where
  pub Keeps-query : {A : Type 0} (site : Site) (f : Db → Option A) → Keeps P (query mo site f)
  unfolding query
  Keeps-query site f = Keeps-gets _

  pub Keeps-query_any : (site : Site) (f : Db → Bool) → Keeps P (query_any mo site f)
  unfolding query_any
  Keeps-query_any site f = Keeps-gets _
