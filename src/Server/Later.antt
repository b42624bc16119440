-- ===== src/Server/Later.antt =====
-- One state of the server and a later one: any requests, whatever they carry and whatever fails on the
-- way, and any restarts, with any configurations, lie between them.
use goblin_nip05d.App.Rules.{run-keeps}
use goblin_nip05d.App.Moment.{Moment}
use goblin_nip05d.History.Keyed.{apply-IsKeyed}
use goblin_nip05d.Db.Keys.{IsKeyed}
use goblin_nip05d.Server.{
  Keeps-handle, Reachable, Request, handle, opened, restarted, served, started,
}
use goblin_nip05d.Prelude.{sym}
use goblin_nip05d.Config.{Config}
use goblin_nip05d.App.{App, run}
use goblin_nip05d.Platform.{Json, Platform}
use goblin_nip05d.Db.{Db, empty_db}
use goblin_nip05d.History.{IsClosed, Statement, apply}
use mathlib.Core.Path.{subst}

module _ (pf : Platform) (js : Json) where
  pub data Later (s : App) : App → Type 0 where
    at_once : Later s s
    after_restart : (cfg : Config) (t : App) → Later s t → Later s (opened t.db cfg)
    after_request :
        (mo : Moment) (q : Request) (t : App) → Later s t → Later s (run (handle pf js mo q) t).0

  -- A reachable state is later than a start on the empty database.
  pub Reachable-Later :
      (s : App) → Reachable pf js s → (cfg : Config) × Later (opened empty_db cfg) s
  Reachable-Later s (started cfg) = (cfg, at_once)
  Reachable-Later s (restarted cfg t r) =
      let (first, l) = Reachable-Later t r in (first, after_restart cfg t l)
  Reachable-Later s (served mo q t r) =
      let (first, l) = Reachable-Later t r in (first, after_request mo q t l)

  -- What every statement keeps is kept from a state to every later one.
  pub Later-Db :
      (Q : Db → Type 0)
      → ((st : Statement) (db : Db) → Q db → Q (apply st db))
      → (s t : App) → Later s t
      → Q s.db
      → Q t.db
  unfolding opened
  Later-Db Q step s t l base = go t l
    where
      closed : IsClosed (λ s. Q s.db)
      closed = record {
        calm = λ s t e f h. subst Q (sym e) h;
        statement = λ s st _ h. step st s.db h;
      }

      go : (t : App) → Later s t → Q t.db
      go t at_once = base
      go t (after_restart cfg u m) = go u m
      go t (after_request mo q u m) =
          run-keeps (handle pf js mo q) u (Keeps-handle pf js closed mo q) (go u m)

  pub Later-IsKeyed : (s t : App) → Later s t → IsKeyed s.db → IsKeyed t.db
  Later-IsKeyed = Later-Db IsKeyed apply-IsKeyed
