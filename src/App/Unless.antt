-- ===== src/App/Unless.antt =====
-- Handlers that keep a property, unless they succeed.
use goblin_nip05d.App.Rules.{Holds, Keeps}
use goblin_nip05d.Prelude.{inl, ℕ, ◌≡◌, ◌⊎◌}
use goblin_nip05d.App.{◌>>=◌, App, Handler, Outcome, Response, continue, next, reply, run}

-- A handler that keeps a property, unless it ends with one status.
pub record KeepsUnless (n : ℕ) (P : App → Type 0) (h : Handler Response) : Type 0 where
  pub at : (s : App) → P s → P (run h s).0 ⊎ ((run h s).1.status ≡ n)

infixr 2 ◌⊳◌
-- The steps before keep it.
pub ◌⊳◌ :
    {A : Type 0} {n : ℕ} {P : App → Type 0} {m : Handler A} {f : A → Handler Response}
    → Keeps P m
    → ((a : A) → KeepsUnless n P (f a))
    → KeepsUnless n P (m >>= f)
unfolding ◌>>=◌ run
◌⊳◌ {A} {n} {P} {m} {f} km kf = record { at = λ s h. go s (m s) (km.at s h) }
  where
    go :
        (s : App) (o : Outcome A)
        → Holds P o
        → P (run (λ _. continue o f) s).0 ⊎ ((run (λ _. continue o f) s).1.status ≡ n)
    go s (next a t) h = (kf a).at t h
    go s (reply r t) h = inl h
