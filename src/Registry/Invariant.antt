-- ===== src/Registry/Invariant.antt =====
-- The handlers of the registry keep every closed property, the unique keys among them.
use goblin_nip05d.History.Keyed.{Keyed-IsClosed}
use goblin_nip05d.Db.Keys.{IsKeyed}
use goblin_nip05d.Prelude.Int.{ℤ}
use goblin_nip05d.App.Rules.{
  Keeps, Keeps-bind, Keeps-gets, Keeps-pure, Keeps-require, Keeps-respond, Keeps-unwrap_or,
  run-keeps, ◌⨾◌,
}
use goblin_nip05d.App.Moment.{Moment, Written, execute, failure, rows, violation}
use goblin_nip05d.History.Steps.{
  Keeps-allow_read, Keeps-arm_cooldown, Keeps-execute, Keeps-query, Keeps-allow_write,
  Keeps-auth_fresh, Keeps-in_cooldown,
}
use goblin_nip05d.Registry.{
  authenticate, availability, check_owner, check_single, check_taken, finish_release, register,
  unregister,
}
use goblin_nip05d.ClaimTxn.{at_release, at_upsert}
use goblin_nip05d.Auth.{AuthResult, authorized, unauthorized}
use goblin_nip05d.Text.{Text}
use goblin_nip05d.Prelude.{Option, none, refl, some, List, ℕ}
use goblin_nip05d.Config.{Config}
use goblin_nip05d.Platform.{Platform}
use goblin_nip05d.Db.{release_name, upsert_name}
use goblin_nip05d.History.{IsClosed, IsClosedFor, Statement, exec}
use goblin_nip05d.App.{App, run}

module _ {P : App → Type 0} where
  pub Keeps-authenticate : (a : AuthResult (Text × Text)) → Keeps P (authenticate a)
  unfolding authenticate
  Keeps-authenticate (authorized v) = record { at = λ s h. h }
  Keeps-authenticate (unauthorized x) = record { at = λ s h. h }

  pub Keeps-check_taken :
      (cfg : Config) (name pubkey : Text) (owner : Option Text)
      → Keeps P (check_taken cfg name pubkey owner)
  unfolding check_taken
  Keeps-check_taken cfg name pubkey none = Keeps-pure tt
  Keeps-check_taken cfg name pubkey (some owner) = Keeps-respond _

  pub Keeps-check_single : (existing : Option Text) → Keeps P (check_single existing)
  unfolding check_single
  Keeps-check_single none = Keeps-pure tt
  Keeps-check_single (some name) = Keeps-respond _

  pub Keeps-check_owner :
      (pf : Platform) (mo : Moment) (owner : Option Text) (pk : Text)
      → Keeps P (check_owner pf mo owner pk)
  unfolding check_owner
  Keeps-check_owner pf mo none pk = Keeps-respond _
  Keeps-check_owner pf mo (some owner) pk = Keeps-require _ _

module _ {S : Statement → Type 0} {P : App → Type 0} (c : IsClosedFor S P) (pf : Platform)
    (mo : Moment) where
  pub Keeps-availability : (raw_name : Text) → Keeps P (availability pf mo raw_name)
  unfolding availability
  Keeps-availability raw_name = Keeps-allow_read c mo ⨾ λ _. Keeps-require _ _ ⨾ λ _.
      Keeps-gets _ ⨾ λ _. Keeps-require _ _ ⨾ λ _.
      Keeps-require _ _ ⨾ λ _. Keeps-query mo _ _ ⨾ λ _. Keeps-require _ _ ⨾ λ _. Keeps-pure _

module _ {P : App → Type 0} (c : IsClosed P) (pf : Platform) (mo : Moment) where
  Keeps-finish_release : (name pk : Text) (w : Written) → Keeps P (finish_release pf mo name pk w)
  unfolding finish_release
  Keeps-finish_release name pk failure = Keeps-respond _
  Keeps-finish_release name pk violation = Keeps-respond _
  Keeps-finish_release name pk (rows n) =
      Keeps-bind _ _ (Keeps-arm_cooldown c mo pk) (λ _. Keeps-pure _)

  Keeps-upsert :
      (name pubkey : Text) (now : ℤ)
      → Keeps P (execute mo at_upsert (λ db. upsert_name db name pubkey now))
  unfolding exec
  Keeps-upsert name pubkey now =
      Keeps-execute c mo at_upsert _ (Statement.upsert name pubkey now) tt (λ db. refl)

  Keeps-release :
      (name : Text) (now : ℤ) → Keeps P (execute mo at_release (λ db. release_name db name now))
  unfolding exec
  Keeps-release name now = Keeps-execute c mo at_release _ (Statement.free name now) tt (λ db. refl)

  pub Keeps-register : (body : List ℕ) → Keeps P (register pf mo body)
  unfolding register
  Keeps-register body = Keeps-allow_write c mo _ ⨾ λ _. Keeps-require _ _ ⨾ λ _. Keeps-gets _ ⨾ λ _.
      Keeps-authenticate _ ⨾ λ _. Keeps-auth_fresh c mo _ ⨾ λ _. Keeps-require _ _ ⨾ λ _.
      Keeps-in_cooldown c mo _ ⨾ λ _. Keeps-require _ _ ⨾ λ _. Keeps-unwrap_or _ _ ⨾ λ _.
      Keeps-require _ _ ⨾ λ _. Keeps-require _ _ ⨾ λ _. Keeps-require _ _ ⨾ λ _.
      Keeps-require _ _ ⨾ λ _. Keeps-query mo _ _ ⨾ λ _. Keeps-check_taken _ _ _ _ ⨾ λ _.
      Keeps-query mo _ _ ⨾ λ _. Keeps-check_single _ ⨾ λ _. Keeps-upsert _ _ _ ⨾ λ _. Keeps-pure _

  pub Keeps-unregister : (raw_name : Text) → Keeps P (unregister pf mo raw_name)
  unfolding unregister
  Keeps-unregister raw_name = Keeps-allow_write c mo _ ⨾ λ _. Keeps-require _ _ ⨾ λ _.
      Keeps-gets _ ⨾ λ _. Keeps-authenticate _ ⨾ λ _. Keeps-auth_fresh c mo _ ⨾ λ _.
      Keeps-require _ _ ⨾ λ _. Keeps-query mo _ _ ⨾ λ _.
      Keeps-check_owner pf mo _ _ ⨾ λ _. Keeps-release _ _ ⨾ λ _. Keeps-finish_release _ _ _

module _ (pf : Platform) (mo : Moment) where
  -- A registration keeps the unique keys, whichever way it ends.
  pub register-IsKeyed :
      (body : List ℕ) (s : App) → IsKeyed s.db → IsKeyed (run (register pf mo body) s).0.db
  register-IsKeyed body s h =
      run-keeps (register pf mo body) s (Keeps-register Keyed-IsClosed pf mo body) h

  -- A release keeps the unique keys, whichever way it ends.
  pub unregister-IsKeyed :
      (raw_name : Text) (s : App) → IsKeyed s.db → IsKeyed (run (unregister pf mo raw_name) s).0.db
  unregister-IsKeyed raw_name s h =
      run-keeps (unregister pf mo raw_name) s (Keeps-unregister Keyed-IsClosed pf mo raw_name) h
