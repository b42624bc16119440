-- ===== src/Pages/Invariant.antt =====
-- The pages keep every closed property.
use goblin_nip05d.App.Rules.{Keeps, Keeps-gets, Keeps-if, Keeps-pure, Keeps-require, ◌⨾◌}
use goblin_nip05d.App.Moment.{Moment}
use goblin_nip05d.History.Steps.{Keeps-allow_read, Keeps-query}
use goblin_nip05d.Text.{Text}
use goblin_nip05d.Pages.{asked_owner, by_pubkey, health, landing, profile, well_known}
use goblin_nip05d.Prelude.{Option, none, some}
use goblin_nip05d.Config.{Config}
use goblin_nip05d.Platform.{Platform}
use goblin_nip05d.History.{IsClosedFor, Statement}
use goblin_nip05d.App.{App}

module _ {P : App → Type 0} where
  pub Keeps-health : Keeps P health
  unfolding health
  Keeps-health = Keeps-pure _

  pub Keeps-landing : Keeps P landing
  unfolding landing
  Keeps-landing = Keeps-gets _ ⨾ λ _. Keeps-pure _

module _ {S : Statement → Type 0} {P : App → Type 0} (c : IsClosedFor S P) (pf : Platform)
    (mo : Moment) where
  pub Keeps-profile : (raw_name : Text) → Keeps P (profile pf mo raw_name)
  unfolding profile
  Keeps-profile raw_name = Keeps-allow_read c mo ⨾ λ _. Keeps-require _ _ ⨾ λ _.
      Keeps-gets _ ⨾ λ _. Keeps-require _ _ ⨾ λ _. Keeps-query mo _ _ ⨾ λ _. Keeps-pure _

  pub Keeps-by_pubkey : (raw_pubkey : Text) → Keeps P (by_pubkey pf mo raw_pubkey)
  unfolding by_pubkey
  Keeps-by_pubkey raw_pubkey = Keeps-allow_read c mo ⨾ λ _.
      Keeps-require _ _ ⨾ λ _. Keeps-require _ _ ⨾ λ _. Keeps-query mo _ _ ⨾ λ _. Keeps-pure _

  Keeps-asked_owner : (cfg : Config) (name : Option Text) → Keeps P (asked_owner pf mo cfg name)
  unfolding asked_owner
  Keeps-asked_owner cfg none = Keeps-pure _
  Keeps-asked_owner cfg (some name) = Keeps-if _ _ _ (Keeps-query mo _ _) (Keeps-pure _)

  pub Keeps-well_known : (raw_name : Option Text) → Keeps P (well_known pf mo raw_name)
  unfolding well_known
  Keeps-well_known raw_name = Keeps-allow_read c mo ⨾ λ _.
      Keeps-require _ _ ⨾ λ _. Keeps-gets _ ⨾ λ _. Keeps-asked_owner _ _ ⨾ λ _. Keeps-pure _
