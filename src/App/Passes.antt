-- ===== src/App/Passes.antt =====
-- Handlers that go on: each step that passes leaves the rest to run.
use goblin_nip05d.Prelude.{Bool, Option, ap, false, none, refl, some, true, ◌≡◌}
use goblin_nip05d.App.{
  ◌>>=◌, ◌>>◌, App, Handler, Response, gets, modify, require, run, unwrap_or, continue, next,
}

pub require-passes :
    (b : Bool) (refusal : Response) (k : Handler Response) (s : App)
    → b ≡ true
    → run (require b refusal >> k) s ≡ run k s
unfolding require ◌>>=◌ run
require-passes true refusal k s h = refl
require-passes false refusal k s h = cc

pub unwrap_or-passes :
    {A : Type 0} (o : Option A) (refusal : Response) (k : A → Handler Response) (s : App) {a : A}
    → o ≡ some a
    → run (unwrap_or o refusal >>= k) s ≡ run (k a) s
unfolding unwrap_or ◌>>=◌ run
unwrap_or-passes none refusal k s h = cc
unwrap_or-passes (some b) refusal k s {a} h = ap (λ x. run (k x) s) (cc h)

pub modify-passes :
    {A : Type 0} (f : App → App × A) (k : A → Handler Response) (s : App)
    → run (modify f >>= k) s ≡ run (k (f s).1) (f s).0
unfolding modify ◌>>=◌ run
modify-passes f k s = refl

pub gets-passes :
    {A : Type 0} (f : App → A) (k : A → Handler Response) (s : App) {a : A}
    → f s ≡ a
    → run (gets f >>= k) s ≡ run (k a) s
unfolding gets ◌>>=◌ run
gets-passes f k s h = ap (λ x. run (k x) s) h

pub next-passes :
    {A : Type 0} (m : Handler A) (k : A → Handler Response) (a : A) (s t : App)
    → m s ≡ next a t
    → run (m >>= k) s ≡ run (k a) t
unfolding ◌>>=◌ run
next-passes m k a s t h = ap (λ o. run (λ _. continue o k) s) h

pub require-refuses :
    (b : Bool) (refusal : Response) (k : Handler Response) (s : App)
    → b ≡ false
    → run (require b refusal >> k) s ≡ (s, refusal)
unfolding require ◌>>=◌ run
require-refuses true refusal k s h = cc
require-refuses false refusal k s h = refl
