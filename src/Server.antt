-- ===== src/Server.antt =====
-- The routes of src/handlers/mod.rs, one request after another, and restarts.
pub mod Later
pub mod Lasting
pub mod Quiet
pub mod Effects
pub mod Once
pub mod Buried
pub mod Refused
pub mod Honoured
use goblin_nip05d.App.Rules.{Keeps, Keeps-gets, Keeps-if, Keeps-respond, run-keeps, ◌⨾◌}
use goblin_nip05d.App.Moment.{Moment}
use goblin_nip05d.Transfer.Invariant.{
  Keeps-claim, Keeps-lodge_offer, Keeps-read_offer, Keeps-revoke_offer,
}
use goblin_nip05d.Transfer.Claim.{claim}
use goblin_nip05d.Pages.Invariant.{
  Keeps-by_pubkey, Keeps-health, Keeps-landing, Keeps-profile, Keeps-well_known,
}
use goblin_nip05d.History.Keyed.{apply-IsKeyed}
use goblin_nip05d.Db.Keys.{IsKeyed, IsKeyed-empty}
use goblin_nip05d.Db.Lookup.{lookup-iff-name_of}
use goblin_nip05d.Registry.Invariant.{Keeps-availability, Keeps-register, Keeps-unregister}
use goblin_nip05d.Registry.{availability, register, unregister}
use goblin_nip05d.Text.{Text}
use goblin_nip05d.Pages.{by_pubkey, health, landing, profile, well_known}
use goblin_nip05d.Prelude.{List, Option, [], if◌then◌else◌, some, sym, ℕ, ◌↔◌, ◌≡◌}
use goblin_nip05d.Config.{Config}
use goblin_nip05d.Transfer.{lodge_offer, read_offer, revoke_offer}
use goblin_nip05d.Platform.{Json, Platform}
use goblin_nip05d.Db.{Db, empty_db, lookup, name_of}
use goblin_nip05d.History.{IsClosed, Statement, apply}
use mathlib.Core.Path.{subst}
use goblin_nip05d.App.{◌>>=◌, App, Handler, Response, gets, respond, run}

pub data Request : Type 0 where
  resolution : Option Text → Request
  availability_of : Text → Request
  registration : List ℕ → Request
  release : Text → Request
  profile_of : Text → Request
  name_held_by : Text → Request
  health_check : Request
  front_page : Request
  lodging : List ℕ → Request
  reading : Text → Request
  revocation : Text → Request
  claiming : List ℕ → Request

-- The routes of transfers exist only where they are allowed.
unfoldable pub transfer_route : Handler Response → Handler Response
unfolding respond gets ◌>>=◌ run
transfer_route h = gets (λ s. s.cfg.allow_transfers) >>= λ allowed.
    if allowed then h else respond (record { status = 404; body = [] })

-- `App::open`: the limits and the replay set are empty after a start.
unfoldable pub opened : Db → Config → App
opened db cfg = record { db = db; rate = []; seen = []; cfg = cfg }

module _ (pf : Platform) (js : Json) where
  unfoldable pub handle : Moment → Request → Handler Response
  handle mo (resolution name) = well_known pf mo name
  handle mo (availability_of name) = availability pf mo name
  handle mo (registration body) = register pf mo body
  handle mo (release name) = unregister pf mo name
  handle mo (profile_of name) = profile pf mo name
  handle mo (name_held_by pubkey) = by_pubkey pf mo pubkey
  handle mo health_check = health
  handle mo front_page = landing
  handle mo (lodging body) = transfer_route (lodge_offer mo pf js body)
  handle mo (reading id) = transfer_route (read_offer mo id)
  handle mo (revocation id) = transfer_route (revoke_offer mo pf id)
  handle mo (claiming body) = transfer_route (claim mo pf js body)

  -- The states that requests and restarts lead to from an empty database.
  pub data Reachable : App → Type 0 where
    started : (cfg : Config) → Reachable (opened empty_db cfg)
    restarted : (cfg : Config) (s : App) → Reachable s → Reachable (opened s.db cfg)
    served : (mo : Moment) (q : Request) (s : App) → Reachable s → Reachable (run (handle mo q) s).0

  pub Keeps-transfer_route :
      {P : App → Type 0} (h : Handler Response) → Keeps P h → Keeps P (transfer_route h)
  unfolding transfer_route
  Keeps-transfer_route h k =
      Keeps-gets (λ s. s.cfg.allow_transfers) ⨾ λ allowed. Keeps-if allowed _ _ k (Keeps-respond _)

  -- Every request keeps every closed property.
  pub Keeps-handle :
      {P : App → Type 0} → IsClosed P → (mo : Moment) (q : Request) → Keeps P (handle mo q)
  unfolding handle
  Keeps-handle c mo (resolution name) = Keeps-well_known c pf mo name
  Keeps-handle c mo (availability_of name) = Keeps-availability c pf mo name
  Keeps-handle c mo (registration body) = Keeps-register c pf mo body
  Keeps-handle c mo (release name) = Keeps-unregister c pf mo name
  Keeps-handle c mo (profile_of name) = Keeps-profile c pf mo name
  Keeps-handle c mo (name_held_by pubkey) = Keeps-by_pubkey c pf mo pubkey
  Keeps-handle c mo health_check = Keeps-health
  Keeps-handle c mo front_page = Keeps-landing
  Keeps-handle c mo (lodging body) =
      Keeps-transfer_route _ (Keeps-lodge_offer c (λ _ _. tt) mo pf js body)
  Keeps-handle c mo (reading id) = Keeps-transfer_route _ (Keeps-read_offer c (λ _ _. tt) mo id)
  Keeps-handle c mo (revocation id) =
      Keeps-transfer_route _ (Keeps-revoke_offer c (λ _ _. tt) mo pf id)
  Keeps-handle c mo (claiming body) = Keeps-transfer_route _ (Keeps-claim c mo pf js body)

  -- What the database satisfies at the first start, and every statement keeps, holds for ever.
  pub Reachable-Db :
      (Q : Db → Type 0)
      → Q empty_db
      → ((st : Statement) (db : Db) → Q db → Q (apply st db))
      → (s : App) → Reachable s
      → Q s.db
  unfolding opened
  Reachable-Db Q base step s r = go s r
    where
      closed : IsClosed (λ s. Q s.db)
      closed = record {
        calm = λ s t e f h. subst Q (sym e) h;
        statement = λ s st _ h. step st s.db h;
      }

      go : (s : App) → Reachable s → Q s.db
      go s (started cfg) = base
      go s (restarted cfg s0 r) = go s0 r
      go s (served mo q s0 r) = run-keeps (handle mo q) s0 (Keeps-handle closed mo q) (go s0 r)

  pub Reachable-IsKeyed : (s : App) → Reachable s → IsKeyed s.db
  Reachable-IsKeyed = Reachable-Db IsKeyed IsKeyed-empty apply-IsKeyed

  -- In every state that requests and restarts lead to from an empty database, whatever they carry and
  -- whatever fails on the way, each key holds at most one name: a name resolves to a key exactly when
  -- the reverse lookup of the key gives the name.
  pub Reachable-lookup_iff :
      (s : App) (name pk : Text)
      → Reachable s
      → (lookup s.db name ≡ some pk) ↔ (name_of s.db pk ≡ some name)
  Reachable-lookup_iff s name pk r = lookup-iff-name_of s.db name pk (Reachable-IsKeyed s r)
