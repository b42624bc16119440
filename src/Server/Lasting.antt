-- ===== src/Server/Lasting.antt =====
-- What stays true of the database once it is: through all later requests and restarts.
use goblin_nip05d.History.Ledger.{Grown, Grown-refl, Grown-trans, apply-Grown}
use goblin_nip05d.History.Offers.{Evolves-refl, Evolves-trans, Kept, apply-Kept}
use goblin_nip05d.Server.Later.{Later, Later-Db}
use goblin_nip05d.Text.{Text}
use goblin_nip05d.Prelude.{some, ◌≡◌}
use goblin_nip05d.App.{App}
use goblin_nip05d.Platform.{Json, Platform}
use goblin_nip05d.Db.{Db, OfferRow, get_offer}
use goblin_nip05d.History.{Statement, apply}

module _ (pf : Platform) (js : Json) where
  -- An offer that is stored stays stored, in every later state, with the terms of its lodging; and once
  -- it is not live, it is never live again.
  pub Later-Kept :
      (s t : App) (o : OfferRow) (id : Text)
      → Later pf js s t
      → get_offer s.db id ≡ some o
      → Kept o id t.db
  Later-Kept s t o id l h =
      Later-Db pf js (Kept o id) step s t l
        (record { row = o; found = h; evolves = Evolves-refl o })
    where
      step : (st : Statement) (db : Db) → Kept o id db → Kept o id (apply st db)
      step st db k =
          let next = apply-Kept st db k.row id k.found in
          record {
            row = next.row;
            found = next.found;
            evolves = Evolves-trans o k.row next.row k.evolves next.evolves;
          }

  pub Later-Grown : (s t : App) → Later pf js s t → Grown s.db t.db
  Later-Grown s t l =
      Later-Db pf js (Grown s.db)
        (λ st db g. Grown-trans s.db db (apply st db) g (apply-Grown st db)) s t l (Grown-refl s.db)
